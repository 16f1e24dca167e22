-- ===== src/Master/State.antt =====
-- include/master.h. Slaves are shared by pointer: `slave_at` is the memory that holds them, an
-- address is a number below `next_slave`, and `m_slave_vec` lists the addresses of those that are
-- registered. An object is held by `m_obj_vec` alone, and points to its slave.
-- `sent` and `db` record the HTTP requests and the database calls so far, oldest first.
use aistream.Base.{
  ℕ, ◌+◌, Bool, if◌then◌else◌, ◌==◌, Option, none, some, List, [], ◌∷◌, ◌++◌, Text, text, copy, ℤ,
  print_int, length,
}
use aistream.Platform.{Platform, Request, http_get, http_post}

pub record TaskCfg : Type 0 where
  pub name : Text
  pub input : Text
  pub port : ℤ

pub record MObjParam : Type 0 where
  pub id : ℤ
  pub status : ℕ
  pub name : Text
  pub m_task_vec : List Text
  pub params : Text
  pub slave : Option ℕ

-- The calls of DbParams that the master makes (include/db.h), with their arguments.
pub data DbOp : Type 0 where
  db_update_int : (table json select : Text) → ℤ → DbOp
  db_update_pair : (table json select_a val_a select_b : Text) → ℤ → DbOp
  db_update_field : (table select : Text) → ℤ → (field json cmd : Text) → DbOp
  db_del_int : (table select : Text) → ℤ → DbOp
  db_del_pair : (table select_a val_a select_b : Text) → ℤ → DbOp

module _ (P : Platform) where
  pub record SlaveParam : Type 0 where
    pub ip : Text
    pub internet_ip : Text
    pub rest_port : ℤ
    pub total_load : P.Float
    pub alive : Bool
    pub offline_cnt : ℕ
    pub obj_id_vec : List ℤ
    pub params : Text
    pub httpf_task : List TaskCfg

  pub record MasterParams : Type 0 where
    pub slave_at : ℕ → SlaveParam
    pub next_slave : ℕ
    pub m_slave_vec : List ℕ
    pub m_obj_vec : List MObjParam
    pub id_name : ℤ → Option Text
    pub output : Option Text
    pub cfg_task_vec : List TaskCfg
    pub sent : List Request
    pub db : List DbOp

  -- A write through a pointer to a slave.
  abbrev pub write : MasterParams → ℕ → SlaveParam → MasterParams
  write m a s = record m { slave_at = λ b. if a == b then s else m.slave_at b }

  abbrev pub record_db : DbOp → MasterParams → MasterParams
  record_db op m = record m { db = m.db ++ op ∷ [] }

  -- snprintf(url, 256, "http://%s:%d%s", ip, rest_port, path)
  abbrev pub slave_url : SlaveParam → Text → Text
  slave_url s path =
      copy 255 (text "http://" ++ (s.ip ++ (text ":" ++ (print_int s.rest_port ++ path))))

  -- HttpPost and HttpGet of src/rest.cpp: the request goes out, and an answer may come back.
  abbrev pub send : Request → MasterParams → Option Text × MasterParams
  send r m = (P.respond m.sent r, record m { sent = m.sent ++ r ∷ [] })

  abbrev pub post_to : SlaveParam → Text → Text → ℕ → Request
  post_to s path body timeout_sec = record {
    method = http_post;
    url = slave_url s path;
    body = body;
    timeout_sec = timeout_sec;
  }

  abbrev pub get_from : SlaveParam → Text → ℕ → Request
  get_from s path timeout_sec = record {
    method = http_get;
    url = slave_url s path;
    body = [];
    timeout_sec = timeout_sec;
  }

-- CheckErrMsg of src/rest.cpp: the body of a failed request; `none` stands for the default body.
unfoldable pub check_err_msg : Text → Option Text
check_err_msg [] = none
check_err_msg (c ∷ cs) =
    let msg = c ∷ cs in
    some
      (copy (length msg + 63) (text "{\"code\":-1,\"msg\":\"" ++ (msg ++ text "\",\"data\":{}}")))
