-- ===== src/Tests/MasterTableTests.antt =====
-- The tables of src/master.cpp at concrete inputs.
use aistream.Base.{
  false, ◌≡◌, refl, none, some, [], ◌∷◌, Text, text, ℤ, pos, option, text_eq, int_eq, arith, length,
}
use aistream.Platform.{Platform}
use aistream.Sample.{toy, doc, parse_doc, decode, read_text, split_text, item, find_field}
use aistream.Share.{
  add_str_json, edit_place, get_int_val_from_json, get_str_val_from_json, find_item, sub_item,
}
use aistream.Master.State.{MObjParam, SlaveParam, MasterParams}
use aistream.Master.Slaves.{get_slave, m_del_slave}
use aistream.Master.Objects.{get_m_obj, new_obj}
use aistream.Master.Rest.{add_slave, add_rtsp, run, request_add_stream, request_del_obj}
use aistream.Master.Status.{request_obj_status, obj_page, obj_rows, obj_row}
use aistream.Master.Status.Pages.{pages, matches, entries_of, entries_of-pages}
use aistream.Master.Valid.{IsValid}
use aistream.Master.Invariant.{run-IsValid}
use aistream.Master.Registry.{endpoint_eq, m_del_slave_forgets}
use aistream.Master.Lookup.{request_add_stream_registers, request_del_obj_forgets}

abbrev silent : Platform
silent = toy (λ sent r. none) (λ name. none)

abbrev nobody : SlaveParam silent
nobody = record {
  ip = [];
  internet_ip = [];
  rest_port = pos 0;
  total_load = 0;
  alive = false;
  offline_cnt = 0;
  obj_id_vec = [];
  params = [];
  httpf_task = [];
}

abbrev empty : MasterParams silent
empty = record {
  slave_at = λ a. nobody;
  next_slave = 0;
  m_slave_vec = [];
  m_obj_vec = [];
  id_name = λ id. none;
  output = none;
  cfg_task_vec = [];
  sent = [];
  db = [];
}

empty-IsValid : IsValid silent empty
empty-IsValid = record { below = tt; endpoints = tt; registered = λ a e. cc; ids = tt }

abbrev node_params : Text
node_params = doc ((text "ip", text "a") ∷ (text "rest_port", 80 ∷ []) ∷ [])

abbrev camera_params : Text
camera_params = doc ((text "id", 7 ∷ []) ∷ [])

-- A master with a slave and an object.
abbrev filled : MasterParams silent
filled = run silent empty (add_slave node_params ∷ add_rtsp camera_params ∷ [])

filled-IsValid : IsValid silent filled
filled-IsValid =
    run-IsValid silent empty (add_slave node_params ∷ add_rtsp camera_params ∷ []) empty-IsValid

m_del_slave_forgets_example :
    let m' = m_del_slave silent (text "a") (pos 80) filled in
    (get_slave silent (text "a") (pos 80) m' ≡ none)
    × ((ip' : Text) (port' : ℤ)
        → endpoint_eq (text "a") (pos 80) ip' port' ≡ false
        → get_slave silent ip' port' m' ≡ get_slave silent ip' port' filled)
m_del_slave_forgets_example = m_del_slave_forgets silent (text "a") (pos 80) filled filled-IsValid

-- The request with the type in it.
abbrev typed_params : Text
typed_params = doc ((text "id", 7 ∷ []) ∷ (text "type", text "rtsp") ∷ [])

request_add_stream_registers_example :
    let m' = (request_add_stream silent (text "rtsp") camera_params filled).0 in
    (get_m_obj silent (pos 7) m'
      ≡ option (some (new_obj silent typed_params)) some (get_m_obj silent (pos 7) filled))
    × ((other : ℤ)
        → int_eq (pos 7) other ≡ false
        → get_m_obj silent other m' ≡ get_m_obj silent other filled)
unfolding add_str_json edit_place get_int_val_from_json find_item sub_item parse_doc decode
    read_text split_text item find_field text_eq
request_add_stream_registers_example =
    request_add_stream_registers silent (text "rtsp") camera_params typed_params filled refl refl

request_del_obj_forgets_example :
    let m' = (request_del_obj silent camera_params filled).0 in
    (get_m_obj silent (pos 7) m' ≡ none)
    × ((other : ℤ)
        → int_eq (pos 7) other ≡ false
        → get_m_obj silent other m' ≡ get_m_obj silent other filled)
unfolding get_int_val_from_json find_item sub_item parse_doc decode read_text split_text item
    find_field text_eq
request_del_obj_forgets_example =
    request_del_obj_forgets silent camera_params filled refl filled-IsValid

abbrev camera : ℤ → MObjParam
camera id = record {
  id = id;
  status = 0;
  name = [];
  m_task_vec = [];
  params = doc ((text "type", text "rtsp") ∷ (text "data", doc ((text "url", text "u") ∷ [])) ∷ []);
  slave = none;
}

abbrev three : MasterParams silent
three = record empty { m_obj_vec = camera (pos 1) ∷ camera (pos 2) ∷ camera (pos 3) ∷ [] }

-- The reply has a row.
status_rows_test :
    option 0
      (λ reply. length reply.obj)
      (request_obj_status silent (pos 80) (some (text "rtsp", (pos 1, pos 5))) three)
    ≡ 2
unfolding request_obj_status obj_page obj_rows obj_row get_str_val_from_json get_int_val_from_json
    find_item sub_item parse_doc decode read_text split_text item find_field text_eq
status_rows_test = refl

-- All of them are cameras with a URL.
matched_cameras : length (matches silent (pos 80) (text "rtsp") three three.m_obj_vec) ≡ 3
unfolding matches get_str_val_from_json find_item sub_item parse_doc decode read_text split_text
    item find_field text_eq
matched_cameras = refl

entries_of-pages_example :
    entries_of silent (pos 80) (text "rtsp") three (pages silent (pos 80) (text "rtsp") three 2 2 0)
    ≡ matches silent (pos 80) (text "rtsp") three three.m_obj_vec
entries_of-pages_example = entries_of-pages silent (pos 80) (text "rtsp") three 2 2 (omega arith)
