-- ===== src/Tests/MasterWatchTests.antt =====
-- SlaveThread of src/master.cpp at concrete inputs.
use aistream.Base.{ℕ, false, ltb, ◌≡◌, refl, none, some, [], ◌∷◌, text, pos}
use aistream.Platform.{Platform}
use aistream.Sample.{toy}
use aistream.Master.State.{MObjParam, SlaveParam, MasterParams}
use aistream.Master.Offline.{unanswered, unanswered_offline}

-- Nobody answers.
abbrev silent : Platform
silent = toy (λ sent r. none) (λ name. none)

abbrev slave : ℕ → SlaveParam silent
slave missed = record {
  ip = text "a";
  internet_ip = [];
  rest_port = pos 80;
  total_load = 40;
  alive = ltb missed 3;
  offline_cnt = missed;
  obj_id_vec = [];
  params = [];
  httpf_task = [];
}

abbrev camera : MObjParam
camera = record { id = pos 7; status = 0; name = []; m_task_vec = []; params = []; slave = some 0 }

-- One slave that has left some requests unanswered, with an object.
abbrev watched : ℕ → MasterParams silent
watched missed = record {
  slave_at = λ a. slave missed;
  next_slave = 1;
  m_slave_vec = 0 ∷ [];
  m_obj_vec = camera ∷ [];
  id_name = λ id. none;
  output = none;
  cfg_task_vec = [];
  sent = [];
  db = [];
}

unanswered_offline_example :
    let m' = unanswered silent 0 3 (watched 0) in
    ((m'.slave_at 0).offline_cnt ≡ 3)
    × ((m'.slave_at 0).alive ≡ false)
    × (m'.m_obj_vec ≡ record camera { slave = none } ∷ [])
unanswered_offline_example = unanswered_offline silent 0 3 (watched 0) refl refl
