-- ===== src/Slave/ObjIds.antt =====
-- The ids in the object table of src/obj.cpp under its lookups, removals and writes.
use aistream.Base.{
  ℕ, ◌≡◌, refl, sym, ap, inl, inr, false, none, some, List, [], ◌∷◌, ◌++◌, map, arith, ℤ, int_eq,
  int_eq→eq, All, Distinct, Bool-cases, Option-cases, option,
}
use aistream.Slave.{Object, find_obj, erase_obj, write_obj, traverse_objs, traverse_task_que}
use aistream.Pipeline.{AlgTask}

abbrev pub obj_ids : List Object → List ℤ
obj_ids = map (λ obj. obj.id)

pub find_obj-none :
    (id : ℤ) (objs : List Object)
    → find_obj id objs ≡ none
    → All (λ x. int_eq x id ≡ false) (obj_ids objs)
unfolding find_obj
find_obj-none id [] e = tt
find_obj-none id (obj ∷ objs) e = elim (Bool-cases (int_eq obj.id id)) [
  | inl hit ↦ absurd (ground (arith, hit))
  | inr miss ↦ (miss, find_obj-none id objs (ground (arith, miss)))
]

pub find_obj-id :
    (id : ℤ) (objs : List Object) (obj : Object) → find_obj id objs ≡ some obj → obj.id ≡ id
unfolding find_obj
find_obj-id id [] obj e = cc
find_obj-id id (x ∷ objs) obj e = elim (Bool-cases (int_eq x.id id)) [
  | inl hit ↦ ground (arith, hit, int_eq→eq x.id id hit)
  | inr miss ↦ find_obj-id id objs obj (ground (arith, miss))
]

erase_obj-All :
    (Q : ℤ → Type 0) (id : ℤ) (objs : List Object)
    → All Q (obj_ids objs)
    → All Q (obj_ids (erase_obj id objs).0)
unfolding erase_obj
erase_obj-All Q id [] h = tt
erase_obj-All Q id (obj ∷ objs) h = elim (Bool-cases (int_eq obj.id id)) [
  | inl hit ↦ rw (hit, erase_obj) h.1
  | inr miss ↦ rw (miss, erase_obj) (h.0, erase_obj-All Q id objs h.1)
]

pub erase_obj-Distinct :
    (id : ℤ) (objs : List Object)
    → Distinct int_eq (obj_ids objs)
    → Distinct int_eq (obj_ids (erase_obj id objs).0)
unfolding erase_obj
erase_obj-Distinct id [] d = tt
erase_obj-Distinct id (obj ∷ objs) d = elim (Bool-cases (int_eq obj.id id)) [
  | inl hit ↦ rw (hit, erase_obj) d.1
  | inr miss ↦
      rw (miss, erase_obj)
        (erase_obj-All (λ y. int_eq obj.id y ≡ false) id objs d.0, erase_obj-Distinct id objs d.1)
]

pub write_obj-ids :
    (new : Object) (objs : List Object) → obj_ids (write_obj new objs) ≡ obj_ids objs
unfolding write_obj
write_obj-ids new [] = refl
write_obj-ids new (obj ∷ objs) = elim (Bool-cases (int_eq obj.id new.id)) [
  | inl hit ↦ rw (hit, write_obj) (ap (λ x. x ∷ obj_ids objs) (sym (int_eq→eq obj.id new.id hit)))
  | inr miss ↦ rw (miss, write_obj) (ap (◌∷◌ obj.id) (write_obj-ids new objs))
]

pub obj_ids-snoc :
    (objs : List Object) (obj : Object) → obj_ids (objs ++ obj ∷ []) ≡ obj_ids objs ++ obj.id ∷ []
obj_ids-snoc [] obj = refl
obj_ids-snoc (x ∷ objs) obj = ap (◌∷◌ x.id) (obj_ids-snoc objs obj)

-- A round that ends leaves the ids as they are.
pub traverse_objs-ids :
    (fuel : ℕ) (algs : List AlgTask) (timeout now : ℕ) (objs : List Object)
    → option (obj_ids objs) obj_ids (traverse_objs fuel algs timeout now objs) ≡ obj_ids objs
unfolding traverse_objs
traverse_objs-ids fuel algs timeout now [] = refl
traverse_objs-ids fuel algs timeout now (obj ∷ objs) =
    elim (Option-cases (traverse_task_que fuel algs timeout now obj.task_vec)) [
      | inl n ↦ rw (n, traverse_objs) refl
      | inr (tasks, t) ↦ elim (Option-cases (traverse_objs fuel algs timeout now objs)) [
        | inl n ↦ rw (t, n, traverse_objs) refl
        | inr (rest, r) ↦
            let ih = traverse_objs-ids fuel algs timeout now objs in
            rw (t, r, traverse_objs) (ap (◌∷◌ obj.id) (rw r at ih))
      ]
    ]
