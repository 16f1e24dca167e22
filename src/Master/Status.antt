-- ===== src/Master/Status.antt =====
-- src/master.cpp: the request handlers of the master that only read its state. A reply is kept as
-- the data that it is printed from; the numbers of a query are those that sscanf reads from its URL.
pub mod Pages
use aistream.Base.{
  ℕ, zero, suc, ltb, if◌then◌else◌, Bool, true, false, ◌||◌, Option, none, some, option, ◌>>=◌,
  List, [], ◌∷◌, ◌++◌, Text, text, copy, text_eq, length, map, ℤ, pos, is_negative, print_int,
}
use aistream.Platform.{Platform}
use aistream.Share.{get_int_val_from_json, get_str_val_from_json}
use aistream.Master.State.{TaskCfg, MObjParam, SlaveParam, MasterParams}
use aistream.Master.Objects.{get_task}

pub record ObjStatus : Type 0 where
  pub name : Text
  pub id : ℤ
  pub url : Text
  pub alg : Text
  pub preview : Text
  pub status : ℕ
  pub tcp_enable : Option ℤ
  pub preview_url : Text

pub record ObjReply : Type 0 where
  pub total : ℕ
  pub obj : List ObjStatus

pub record AlgSupport : Type 0 where
  pub name : Text
  pub url : Option (List Text)

pub record OutputInfo : Type 0 where
  pub kind : Text
  pub host : Text
  pub port : ℤ
  pub username : Text
  pub password : Text
  pub exchange : Text
  pub routingkey : Text

abbrev pub skip : {A : Type 0} → ℕ → List A → List A
skip zero xs = xs
skip (suc n) [] = []
skip (suc n) (x ∷ xs) = skip n xs

module _ (P : Platform) where
  abbrev value_of : Text → Text → Option Text
  value_of buf name = get_str_val_from_json P buf (some name) none none

  abbrev inner_of : Text → Text → Text → Option Text
  inner_of buf outer name = get_str_val_from_json P buf (some outer) (some name) none

  -- The address that clients use: that of the Internet, if there is one.
  abbrev public_ip : SlaveParam P → Text
  public_ip slave = if ltb 0 (length slave.internet_ip) then slave.internet_ip else slave.ip

  -- A name from the first task of the object, or "none".
  abbrev task_value : MObjParam → (Text → Option Text) → Text
  task_value obj read =
      option (text "none") (λ params. option (text "none") (copy 64) (read params)) (get_task P obj)

  abbrev preview_url_of : ℤ → MasterParams P → MObjParam → Text → Text
  preview_url_of http_port m obj preview =
      let ip = option (text "null") (λ a. public_ip (m.slave_at a)) obj.slave in
      let host = text "http://" ++ (ip ++ (text ":" ++ print_int http_port)) in
      copy 255 (
        if text_eq preview (text "http-flv")
        then host ++ (text "/live?port=1935&app=myapp&stream=stream" ++ print_int obj.id)
        else host ++ (text "/m3u8/stream" ++ (print_int obj.id ++ text "/play.m3u8")))

  -- The row of one object, if it is of the type that is asked for and has a URL.
  unfoldable pub obj_row : ℤ → Text → MasterParams P → MObjParam → Option ObjStatus
  unfolding get_task
  obj_row http_port wanted m obj = elim (value_of obj.params (text "type")) [
    | none ↦ none
    | some kind ↦ elim (text_eq wanted (text "all") || text_eq kind wanted) [
      | false ↦ none
      | true ↦ elim (inner_of obj.params (text "data") (text "url")) [
        | none ↦ none
        | some url ↦
            let preview =
              task_value obj (λ params. inner_of params (text "params") (text "preview")) in
            let tcp =
              get_int_val_from_json P obj.params (some (text "data")) (some (text "tcp_enable"))
                none in
            some (record {
              name = option [] (λ n. n) (value_of obj.params (text "name"));
              id = obj.id;
              url = url;
              alg = task_value obj (λ params. value_of params (text "task"));
              preview = preview;
              status = obj.status;
              tcp_enable =
                  if text_eq wanted (text "rtsp")
                  then some (if is_negative tcp then pos 0 else tcp)
                  else none;
              preview_url = preview_url_of http_port m obj preview;
            })
      ]
    ]
  ]

  -- The loop over at most n objects.
  unfoldable pub obj_rows : ℤ → Text → MasterParams P → ℕ → List MObjParam → List ObjStatus
  unfolding obj_row
  obj_rows http_port wanted m zero objs = []
  obj_rows http_port wanted m (suc n) [] = []
  obj_rows http_port wanted m (suc n) (obj ∷ objs) =
      option [] (λ row. row ∷ []) (obj_row http_port wanted m obj)
      ++ obj_rows http_port wanted m n objs

  -- From an index below zero on the loop ends at once, since the index is unsigned.
  unfoldable pub obj_page : ℤ → Text → ℤ → ℤ → MasterParams P → List ObjStatus
  unfolding obj_rows
  obj_page http_port wanted (pos offset) (pos limit) m =
      obj_rows http_port wanted m limit (skip offset m.m_obj_vec)
  obj_page http_port wanted _ _ m = []

  -- request_obj_status; none leaves the default body.
  unfoldable pub request_obj_status : ℤ → Option (Text × (ℤ × ℤ)) → MasterParams P → Option ObjReply
  unfolding obj_page
  request_obj_status http_port none m = none
  request_obj_status http_port (some (wanted, (offset, limit))) m =
      some (record { total = length m.m_obj_vec; obj = obj_page http_port wanted offset limit m })

  unfoldable request_obj_all_id : MasterParams P → List ℤ
  request_obj_all_id m = map (λ obj. obj.id) m.m_obj_vec

  pub record SlaveStatus : Type 0 where
    pub name : Text
    pub ip : Text
    pub port : ℤ
    pub internet_ip : Text
    pub status : Bool
    pub load : P.Float
    pub obj_num : ℕ

  unfoldable slave_row : SlaveParam P → SlaveStatus
  slave_row slave = record {
    name = option [] (λ n. n) (value_of slave.params (text "name"));
    ip = slave.ip;
    port = slave.rest_port;
    internet_ip = slave.internet_ip;
    status = slave.alive;
    load = slave.total_load;
    obj_num = length slave.obj_id_vec;
  }

  -- request_slave_status: the total, and a row for each slave.
  unfoldable request_slave_status : MasterParams P → ℕ × List SlaveStatus
  unfolding slave_row
  request_slave_status m = (length m.m_slave_vec, map (λ a. slave_row (m.slave_at a)) m.m_slave_vec)

  -- The port of the first task of the name.
  unfoldable task_port : Text → List TaskCfg → Option ℤ
  task_port name [] = none
  task_port name (task ∷ tasks) =
      let rest = task_port name tasks in if text_eq name task.name then some task.port else rest

  -- The URLs of a task on the live slaves.
  unfoldable task_urls : Text → MasterParams P → List ℕ → List Text
  unfolding task_port
  task_urls name m [] = []
  task_urls name m (a ∷ slaves) =
      let slave = m.slave_at a in
      let rest = task_urls name m slaves in
      let url : ℤ → Text = λ port. copy 255 (
        text "http://"
        ++ (public_ip slave ++ (text ":" ++ (print_int port ++ (text "/file-" ++ name))))) in
      if slave.alive
      then option rest (λ port. url port ∷ rest) (task_port name slave.httpf_task)
      else rest

  unfoldable support_rows : Text → MasterParams P → List TaskCfg → List AlgSupport
  unfolding task_urls
  support_rows obj m [] = []
  support_rows obj m (cfg ∷ cfgs) =
      let rest = support_rows obj m cfgs in
      if text_eq obj cfg.input
      then record {
        name = cfg.name;
        url =
            if text_eq obj (text "video") then none else some (task_urls cfg.name m m.m_slave_vec);
      }
        ∷ rest
      else rest

  -- request_task_support with the kind of object in its URL, if the URL has one.
  unfoldable request_task_support : Option Text → MasterParams P → List AlgSupport
  unfolding support_rows
  request_task_support none m = []
  request_task_support (some obj) m = support_rows obj m m.cfg_task_vec

  -- The output of request_system_info.
  unfoldable output_info : Text → Option OutputInfo
  output_info buf = do
    kind ← value_of buf (text "type")
    host ← inner_of buf (text "data") (text "host")
    username ← inner_of buf (text "data") (text "username")
    password ← inner_of buf (text "data") (text "password")
    exchange ← inner_of buf (text "data") (text "exchange")
    routingkey ← inner_of buf (text "data") (text "routingkey")
    some (record {
      kind = kind;
      host = host;
      port = get_int_val_from_json P buf (some (text "data")) (some (text "port")) none;
      username = username;
      password = password;
      exchange = exchange;
      routingkey = routingkey;
    })

  unfoldable request_system_info : MasterParams P → Option OutputInfo
  unfolding output_info
  request_system_info m = option none output_info m.output
