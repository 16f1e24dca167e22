-- ===== src/Master/Lookup.antt =====
-- The object table of src/master.cpp as a map from ids: what adding and deleting an object by a
-- request does to GetMObj.
use aistream.Base.{
  ℕ, true, false, ◌≡◌, refl, sym, ◌∙◌, ap, inl, inr, Option, none, some, List, [], ◌∷◌, ◌++◌, Text,
  text, ℤ, option, int_eq, int_eq→eq, int_eq_refl, arith, All, Distinct, Bool-cases, Option-cases,
  if◌then◌else◌, is_negative, is_not_positive,
}
use mathlib.Core.Bool.{true≢false}
use aistream.Platform.{Platform}
use aistream.Share.{add_str_json, get_int_val_from_json, get_double_val_from_json}
use aistream.Master.State.{MObjParam, MasterParams}
use aistream.Master.Http.{set_load, http_stop}
use aistream.Master.Objects.{
  find_obj, erase_obj, get_m_obj, new_obj, push_obj, m_add_obj, m_del_obj,
}
use aistream.Master.Rest.{request_add_stream, update_load, request_del_obj}
use aistream.Master.Frame.{obj_ids}
use aistream.Master.Valid.{IsValid}
use aistream.Master.Tasks.{http_stop-objs}

find_obj-snoc_new :
    (obj : MObjParam) (objs : List MObjParam)
    → find_obj obj.id objs ≡ none
    → find_obj obj.id (objs ++ obj ∷ []) ≡ some obj
unfolding find_obj
find_obj-snoc_new obj [] e = rw (int_eq_refl obj.id) refl
find_obj-snoc_new obj (x ∷ objs) e = elim (Bool-cases (int_eq x.id obj.id)) [
  | inl hit ↦ absurd (ground (arith, hit))
  | inr miss ↦ rw miss (find_obj-snoc_new obj objs (ground (arith, miss)))
]

find_obj-snoc_other :
    (other : ℤ) (obj : MObjParam) (objs : List MObjParam)
    → int_eq obj.id other ≡ false
    → find_obj other (objs ++ obj ∷ []) ≡ find_obj other objs
unfolding find_obj
find_obj-snoc_other other obj [] n = rw n refl
find_obj-snoc_other other obj (x ∷ objs) n =
    ap (λ (r : Option MObjParam). if int_eq x.id other then some x else r)
      (find_obj-snoc_other other obj objs n)

find_obj-unlike :
    (x id : ℤ) (objs : List MObjParam)
    → int_eq x id ≡ true
    → All (λ y. int_eq x y ≡ false) (obj_ids objs)
    → find_obj id objs ≡ none
unfolding find_obj
find_obj-unlike x id [] e d = refl
find_obj-unlike x id (o ∷ objs) e d =
    let miss : int_eq o.id id ≡ false = elim (Bool-cases (int_eq o.id id)) [
      | inl hit ↦
          let same : int_eq x o.id ≡ true = rw (int_eq→eq o.id id hit) e in
          absurd (true≢false (sym same ∙ d.0))
      | inr m ↦ m
    ] in
    rw miss (find_obj-unlike x id objs e d.1)

find_obj-erased :
    (id : ℤ) (objs : List MObjParam)
    → Distinct int_eq (obj_ids objs)
    → find_obj id (erase_obj id objs) ≡ none
unfolding find_obj erase_obj
find_obj-erased id [] d = refl
find_obj-erased id (o ∷ objs) d = elim (Bool-cases (int_eq o.id id)) [
  | inl hit ↦ rw (hit, erase_obj) (find_obj-unlike o.id id objs hit d.0)
  | inr miss ↦ rw (miss, erase_obj) (rw miss (find_obj-erased id objs d.1))
]

find_obj-kept :
    (id other : ℤ) (objs : List MObjParam)
    → int_eq id other ≡ false
    → find_obj other (erase_obj id objs) ≡ find_obj other objs
unfolding find_obj erase_obj
find_obj-kept id other [] n = refl
find_obj-kept id other (o ∷ objs) n = elim (Bool-cases (int_eq o.id id)) [
  | inl hit ↦
      let apart : int_eq o.id other ≡ false = rw (int_eq→eq o.id id hit) n in
      rw (hit, erase_obj) (rw apart refl)
  | inr miss ↦
      rw (miss, erase_obj)
        (ap (λ (r : Option MObjParam). if int_eq o.id other then some o else r)
          (find_obj-kept id other objs n))
]

module _ (P : Platform) where
  abbrev id_of : Text → ℤ
  id_of buf = get_int_val_from_json P buf (some (text "id")) none none

  added_new :
      (buf1 : Text) (m : MasterParams P)
      → get_m_obj P (id_of buf1) m ≡ none
      → get_m_obj P (id_of buf1) (m_add_obj P buf1 m) ≡ some (new_obj P buf1)
  unfolding get_m_obj m_add_obj push_obj new_obj
  added_new buf1 m n = find_obj-snoc_new (new_obj P buf1) m.m_obj_vec n

  added_other :
      (buf1 : Text) (m : MasterParams P) (other : ℤ)
      → int_eq (id_of buf1) other ≡ false
      → get_m_obj P other (m_add_obj P buf1 m) ≡ get_m_obj P other m
  unfolding get_m_obj m_add_obj push_obj new_obj
  added_other buf1 m other n = find_obj-snoc_other other (new_obj P buf1) m.m_obj_vec n

  -- A request to add an object with a positive id, into which the type can be written: afterwards the
  -- id leads to the object that had it before, or else to a new object with the parameters of the
  -- request, and every other id leads to what it led to before.
  pub request_add_stream_registers :
      (type buf buf1 : Text) (m : MasterParams P)
      → add_str_json P buf type (some (text "type")) none none ≡ some buf1
      → is_not_positive (id_of buf1) ≡ false
      → let m' = (request_add_stream P type buf m).0 in
        (get_m_obj P (id_of buf1) m'
          ≡ option (some (new_obj P buf1)) some (get_m_obj P (id_of buf1) m))
        × ((other : ℤ)
            → int_eq (id_of buf1) other ≡ false
            → get_m_obj P other m' ≡ get_m_obj P other m)
  unfolding request_add_stream m_add_obj get_m_obj
  request_add_stream_registers type buf buf1 m typed positive =
      elim (Option-cases (get_m_obj P (id_of buf1) m)) [
        | inl n ↦
            rw (typed, positive, n, request_add_stream) (added_new buf1 m n, added_other buf1 m)
        | inr (obj, e) ↦ rw (typed, positive, e, request_add_stream) (e, λ other n. refl)
      ]

  deleted :
      (id : ℤ) (m m1 : MasterParams P)
      → m1.m_obj_vec ≡ m.m_obj_vec
      → IsValid P m
      → (get_m_obj P id (m_del_obj P id m1) ≡ none)
        × ((other : ℤ)
            → int_eq id other ≡ false
            → get_m_obj P other (m_del_obj P id m1) ≡ get_m_obj P other m)
  unfolding get_m_obj m_del_obj
  deleted id m m1 same v =
      rw same
        (find_obj-erased id m.m_obj_vec v.ids, λ other n. find_obj-kept id other m.m_obj_vec n)

  set_load-objs :
      (a : ℕ) (body : Text) (m : MasterParams P) → (set_load P a body m).m_obj_vec ≡ m.m_obj_vec
  unfolding set_load
  set_load-objs a body m =
      let load = get_double_val_from_json P body (some (text "data")) (some (text "load")) none in
      elim (Bool-cases (P.double_ge_zero load)) [
        | inl t ↦ rw (t, set_load) refl
        | inr f ↦ rw (f, set_load) refl
      ]

  update_load-objs :
      (slave : Option ℕ) (ack : Option Text) (m : MasterParams P)
      → (update_load P slave ack m).m_obj_vec ≡ m.m_obj_vec
  unfolding update_load
  update_load-objs none ack m = refl
  update_load-objs (some a) none m = refl
  update_load-objs (some a) (some body) m = set_load-objs a body m

  -- A request to delete an object with an id that is not negative, where no two objects have one id:
  -- afterwards the id leads to no object, and every other id leads to what it led to before, whether
  -- or not the object's slave answers.
  pub request_del_obj_forgets :
      (buf : Text) (m : MasterParams P)
      → is_negative (id_of buf) ≡ false
      → IsValid P m
      → let m' = (request_del_obj P buf m).0 in
        (get_m_obj P (id_of buf) m' ≡ none)
        × ((other : ℤ)
            → int_eq (id_of buf) other ≡ false
            → get_m_obj P other m' ≡ get_m_obj P other m)
  unfolding request_del_obj m_del_obj get_m_obj
  request_del_obj_forgets buf m positive v = elim (Option-cases (get_m_obj P (id_of buf) m)) [
    | inl n ↦ rw (positive, n, request_del_obj) (n, λ other d. refl)
    | inr (obj, e) ↦
        let (ack, m1) = http_stop P obj buf (text "/api/obj/del") 30 m in
        let same =
          update_load-objs obj.slave ack m1 ∙ http_stop-objs P obj buf (text "/api/obj/del") 30 m in
        rw (positive, e, request_del_obj)
          (deleted (id_of buf) m (update_load P obj.slave ack m1) same v)
  ]
