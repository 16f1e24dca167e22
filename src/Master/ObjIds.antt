-- ===== src/Master/ObjIds.antt =====
-- The ids in the object table of src/master.cpp under its lookups, removals and writes.
use aistream.Base.{
  inl, inr, false, ◌≡◌, refl, sym, none, some, List, [], ◌∷◌, ◌++◌, arith, ℤ, int_eq, int_eq→eq,
  All, Distinct, ap, Bool-cases,
}
use aistream.Master.State.{MObjParam}
use aistream.Master.Objects.{find_obj, erase_obj, write_obj}
use aistream.Master.Frame.{obj_ids}

abbrev pub HasNo : ℤ → List ℤ → Type 0
HasNo id = All (λ x. int_eq x id ≡ false)

pub find_obj-none :
    (id : ℤ) (objs : List MObjParam) → find_obj id objs ≡ none → HasNo id (obj_ids objs)
unfolding find_obj
find_obj-none id [] e = tt
find_obj-none id (obj ∷ objs) e = elim (Bool-cases (int_eq obj.id id)) [
  | inl hit ↦ absurd (ground (arith, hit))
  | inr miss ↦ (miss, find_obj-none id objs (ground (arith, miss)))
]

pub find_obj-id :
    (id : ℤ) (objs : List MObjParam) (obj : MObjParam) → find_obj id objs ≡ some obj → obj.id ≡ id
unfolding find_obj
find_obj-id id [] obj e = cc
find_obj-id id (x ∷ objs) obj e = elim (Bool-cases (int_eq x.id id)) [
  | inl hit ↦ ground (arith, hit, int_eq→eq x.id id hit)
  | inr miss ↦ find_obj-id id objs obj (ground (arith, miss))
]

erase_obj-All :
    (Q : ℤ → Type 0) (id : ℤ) (objs : List MObjParam)
    → All Q (obj_ids objs)
    → All Q (obj_ids (erase_obj id objs))
unfolding erase_obj
erase_obj-All Q id [] h = tt
erase_obj-All Q id (obj ∷ objs) h = elim (Bool-cases (int_eq obj.id id)) [
  | inl hit ↦ rw (hit, erase_obj) h.1
  | inr miss ↦ rw (miss, erase_obj) (h.0, erase_obj-All Q id objs h.1)
]

pub erase_obj-Distinct :
    (id : ℤ) (objs : List MObjParam)
    → Distinct int_eq (obj_ids objs)
    → Distinct int_eq (obj_ids (erase_obj id objs))
unfolding erase_obj
erase_obj-Distinct id [] d = tt
erase_obj-Distinct id (obj ∷ objs) d = elim (Bool-cases (int_eq obj.id id)) [
  | inl hit ↦ rw (hit, erase_obj) d.1
  | inr miss ↦
      rw (miss, erase_obj)
        (erase_obj-All (λ y. int_eq obj.id y ≡ false) id objs d.0, erase_obj-Distinct id objs d.1)
]

pub write_obj-ids :
    (new : MObjParam) (objs : List MObjParam) → obj_ids (write_obj new objs) ≡ obj_ids objs
unfolding write_obj
write_obj-ids new [] = refl
write_obj-ids new (obj ∷ objs) = elim (Bool-cases (int_eq obj.id new.id)) [
  | inl hit ↦ rw (hit, write_obj) (ap (λ x. x ∷ obj_ids objs) (sym (int_eq→eq obj.id new.id hit)))
  | inr miss ↦ rw (miss, write_obj) (ap (◌∷◌ obj.id) (write_obj-ids new objs))
]

pub obj_ids-snoc :
    (objs : List MObjParam) (obj : MObjParam)
    → obj_ids (objs ++ obj ∷ []) ≡ obj_ids objs ++ obj.id ∷ []
obj_ids-snoc [] obj = refl
obj_ids-snoc (x ∷ objs) obj = ap (◌∷◌ x.id) (obj_ids-snoc objs obj)
