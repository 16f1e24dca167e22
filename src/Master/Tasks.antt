-- ===== src/Master/Tasks.antt =====
-- The tasks of an object in src/master.cpp under request_start_task and request_stop_task.
use aistream.Base.{
  ℕ, suc, ◌≡◌, refl, ap, true, false, none, some, inl, inr, ◌⊎◌, List, [], ◌∷◌, ◌++◌, Text, text,
  arith, ℤ, int_eq, int_eq_refl, is_negative, Bool-cases, Option-cases, option, if◌then◌else◌,
  subst,
}
use aistream.Platform.{Platform}
use aistream.Share.{get_str_val_from_json, get_int_val_from_json, get_obj_buf_from_json}
use aistream.Master.State.{MObjParam, MasterParams}
use aistream.Master.Http.{http_stop}
use aistream.Master.Objects.{find_obj, get_m_obj, write_obj, is_task, erase_task, del_task}
use aistream.Master.Rest.{request_stop_task}

find_obj-write :
    (new : MObjParam) (objs : List MObjParam) (obj : MObjParam)
    → find_obj new.id objs ≡ some obj
    → find_obj new.id (write_obj new objs) ≡ some new
unfolding find_obj write_obj
find_obj-write new [] obj e = cc
find_obj-write new (o ∷ objs) obj e = elim (Bool-cases (int_eq o.id new.id)) [
  | inl hit ↦ rw (hit, write_obj) (rw (int_eq_refl new.id, find_obj) refl)
  | inr miss ↦ rw (miss, write_obj) (rw miss (find_obj-write new objs obj (ground (arith, miss))))
]

module _ (P : Platform) where
  -- How many of the stored tasks have the name.
  abbrev pub tasks_named : Text → List Text → ℕ
  tasks_named name [] = 0
  tasks_named name (params ∷ rest) =
      let n = tasks_named name rest in if is_task P name params then suc n else n

  tasks_named-snoc :
      (name params : Text) (tasks : List Text)
      → is_task P name params ≡ true
      → tasks_named name (tasks ++ params ∷ []) ≡ suc (tasks_named name tasks)
  tasks_named-snoc name params [] t = rw t refl
  tasks_named-snoc name params (p ∷ tasks) t =
      let ih = tasks_named-snoc name params tasks t in
      elim (Bool-cases (is_task P name p)) [ inl hit ↦ rw hit (ap suc ih) | inr miss ↦ rw miss ih ]

  erase_task-named :
      (name : Text) (tasks : List Text)
      → option
          (tasks_named name tasks ≡ 0)
          (λ rest. tasks_named name tasks ≡ suc (tasks_named name rest))
          (erase_task P name tasks)
  unfolding erase_task
  erase_task-named name [] = refl
  erase_task-named name (p ∷ tasks) =
      let ih = erase_task-named name tasks in
      elim (Bool-cases (is_task P name p)) [
        | inl hit ↦ rw (hit, erase_task) refl
        | inr miss ↦ elim (Option-cases (erase_task P name tasks)) [
          | inl n ↦ rw (miss, n, erase_task) (rw n at ih)
          | inr (rest, e) ↦ rw (miss, e, erase_task) (rw miss (rw e at ih))
        ]
      ]

  pub http_stop-objs :
      (obj : MObjParam) (buf path : Text) (timeout_sec : ℕ) (m : MasterParams P)
      → (http_stop P obj buf path timeout_sec m).1.m_obj_vec ≡ m.m_obj_vec
  unfolding http_stop
  http_stop-objs obj buf path timeout_sec m = elim (Option-cases obj.slave) [
    | inl n ↦ simp (n, http_stop)
    | inr (a, e) ↦ elim (Bool-cases (m.slave_at a).alive) [
      | inl l ↦ simp (e, l, http_stop)
      | inr l ↦ simp (e, l, http_stop)
    ]
  ]

  get_m_obj-written :
      (id : ℤ) (m m' : MasterParams P) (obj new : MObjParam)
      → m'.m_obj_vec ≡ write_obj new m.m_obj_vec
      → new.id ≡ id
      → get_m_obj P id m ≡ some obj
      → get_m_obj P id m' ≡ some new
  unfolding get_m_obj
  get_m_obj-written id m m' obj new written same found = rw written (
      subst (λ i. find_obj i (write_obj new m.m_obj_vec) ≡ some new) same
        (find_obj-write new m.m_obj_vec obj (rw same found)))

  del_task-named :
      (name : Text) (obj : MObjParam)
      → option
          (tasks_named name obj.m_task_vec ≡ 0)
          (λ (obj' : MObjParam).
            (obj'.id ≡ obj.id)
            × (tasks_named name obj.m_task_vec ≡ suc (tasks_named name obj'.m_task_vec)))
          (del_task P name obj)
  unfolding del_task
  del_task-named name obj =
      let named = erase_task-named name obj.m_task_vec in
      elim (Option-cases (erase_task P name obj.m_task_vec)) [
        | inl n ↦ rw (n, del_task) (rw n at named)
        | inr (rest, e) ↦ rw (e, del_task) (refl, rw e at named)
      ]

  -- A request to stop a task that is well-formed and names an object of the master: if the object has
  -- tasks of the name, one of them is gone afterwards and the others are still there, so a task that
  -- was started twice is left over by one stop; if it has none, nothing changes.
  pub request_stop_task_one :
      (buf : Text) (m : MasterParams P) (obj : MObjParam) (name params : Text)
      → get_str_val_from_json P buf (some (text "data")) (some (text "task")) none ≡ some name
      → get_obj_buf_from_json P buf (some (text "data")) none none ≡ some params
      → is_negative obj.id ≡ false
      → get_int_val_from_json P buf (some (text "id")) none none ≡ obj.id
      → get_m_obj P obj.id m ≡ some obj
      → let m' = (request_stop_task P buf m).0 in
        ((tasks_named name obj.m_task_vec ≡ 0) × (m' ≡ m))
        ⊎ ((obj' : MObjParam) × (get_m_obj P obj.id m' ≡ some obj')
            × (tasks_named name obj.m_task_vec ≡ suc (tasks_named name obj'.m_task_vec)))
  unfolding request_stop_task
  request_stop_task_one buf m obj name params t p positive id found =
      let named = del_task-named name obj in
      let id_of = get_int_val_from_json P buf (some (text "id")) none none in
      let positive' : is_negative id_of ≡ false = rw id positive in
      let found' : get_m_obj P id_of m ≡ some obj = rw id found in
      elim (Option-cases (del_task P name obj)) [
        | inl n ↦ inl (rw n at named, rw (t, p, positive', found', n, request_stop_task) refl)
        | inr (obj1, e) ↦
            let (same_id, one_less) = rw e at named in
            let obj' : MObjParam = record obj1 { status = 0 } in
            inr (
              obj',
              rw (t, p, positive', found', e, request_stop_task)
                  (get_m_obj-written obj.id m _ obj obj'
                    (ap (write_obj obj') (http_stop-objs obj1 buf _ 30 m)) same_id found),
              one_less,
            )
      ]
