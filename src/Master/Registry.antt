-- ===== src/Master/Registry.antt =====
-- The slave table of src/master.cpp as a map from endpoints: what MDelSlave does to GetSlave.
use aistream.Base.{
  ℕ, Bool, true, false, ◌&&◌, ◌≡◌, refl, sym, ◌∙◌, ap, ap₂, inl, inr, Option, none, some, List, [],
  ◌∷◌, Text, copy, text_eq, text_eq→eq, ℤ, int_eq, int_eq→eq, All, Distinct, Bool-cases,
  if◌then◌else◌, ◌==◌, ==_iff,
}
use mathlib.Core.Bool.{true≢false}
use aistream.Platform.{Platform}
use aistream.Master.State.{SlaveParam, MasterParams, write}
use aistream.Master.Slaves.{is_endpoint, find_slave, get_slave, erase_slave, m_del_slave}
use aistream.Master.Valid.{IsValid, same_endpoint}

-- Two endpoints are one for GetSlave.
abbrev pub endpoint_eq : Text → ℤ → Text → ℤ → Bool
endpoint_eq ip port ip' port' = int_eq port' port && text_eq (copy 128 ip) (copy 128 ip')

and-true : (a b : Bool) → (a && b) ≡ true → (a ≡ true) × (b ≡ true)
and-true true b e = (refl, e)
and-true false b e = cc

module _ (P : Platform) (ip : Text) (port : ℤ) where
  -- A slave at the endpoint has its port and, as far as they are compared, its address.
  is_endpoint-eq :
      (s : SlaveParam P)
      → is_endpoint P ip port s ≡ true
      → (port ≡ s.rest_port) × (copy 128 s.ip ≡ copy 128 ip)
  is_endpoint-eq s e =
      let (p, i) = and-true (int_eq port s.rest_port) (text_eq (copy 128 s.ip) (copy 128 ip)) e in
      (int_eq→eq port s.rest_port p, text_eq→eq (copy 128 s.ip) (copy 128 ip) i)

  is_endpoint-other :
      (ip' : Text) (port' : ℤ) (s : SlaveParam P)
      → is_endpoint P ip port s ≡ true
      → is_endpoint P ip' port' s ≡ endpoint_eq ip port ip' port'
  is_endpoint-other ip' port' s e =
      let (p, i) = is_endpoint-eq s e in
      ap₂ (λ (q : ℤ) (t : Text). int_eq port' q && text_eq t (copy 128 ip')) (sym p) i

  erase_slave-endpoint :
      (ip' : Text) (port' : ℤ) (xs : List ℕ) (m : MasterParams P) (b : ℕ)
      → is_endpoint P ip' port' ((erase_slave P ip port xs m).1.slave_at b)
        ≡ is_endpoint P ip' port' (m.slave_at b)
  unfolding erase_slave
  erase_slave-endpoint ip' port' [] m b = refl
  erase_slave-endpoint ip' port' (a ∷ xs) m b =
      elim (Bool-cases (is_endpoint P ip port (m.slave_at a))) [
        | inl hit ↦ rw (hit, erase_slave) (written a b m)
        | inr miss ↦ rw (miss, erase_slave) (erase_slave-endpoint ip' port' xs m b)
      ]
    where
      written :
          (a b : ℕ) (m : MasterParams P)
          → is_endpoint P ip' port'
              ((write P m a (record (m.slave_at a) { alive = false })).slave_at b)
            ≡ is_endpoint P ip' port' (m.slave_at b)
      written a b m = elim (Bool-cases (a == b)) [
        | inl e ↦ rw (e, (==_iff a b).0 e) refl
        | inr n ↦ rw n refl
      ]

  find_slave-ext :
      (ip' : Text) (port' : ℤ) (m m' : MasterParams P) (xs : List ℕ)
      → ((b : ℕ) → is_endpoint P ip' port' (m'.slave_at b) ≡ is_endpoint P ip' port' (m.slave_at b))
      → find_slave P m' ip' port' xs ≡ find_slave P m ip' port' xs
  unfolding find_slave
  find_slave-ext ip' port' m m' [] e = refl
  find_slave-ext ip' port' m m' (a ∷ xs) e =
      let ih = find_slave-ext ip' port' m m' xs e in
      ap₂ (λ (b : Bool) (r : Option ℕ). if b then some a else r) (e a) ih

  find_slave-unlike :
      (a : ℕ) (m : MasterParams P) (xs : List ℕ)
      → is_endpoint P ip port (m.slave_at a) ≡ true
      → All (λ b. same_endpoint P m a b ≡ false) xs
      → find_slave P m ip port xs ≡ none
  unfolding find_slave
  find_slave-unlike a m [] e d = refl
  find_slave-unlike a m (b ∷ xs) e d =
      let miss : is_endpoint P ip port (m.slave_at b) ≡ false =
        elim (Bool-cases (is_endpoint P ip port (m.slave_at b))) [
          | inr f ↦ f
          | inl hit ↦
              let (p, i) = is_endpoint-eq (m.slave_at b) hit in
              let same : same_endpoint P m a b ≡ true =
                ap₂
                  (λ (q : ℤ) (t : Text).
                    int_eq q (m.slave_at a).rest_port && text_eq (copy 128 (m.slave_at a).ip) t)
                  (sym p) i
                ∙ e in
              absurd (true≢false (sym same ∙ d.0))
        ] in
      rw miss (find_slave-unlike a m xs e d.1)

  find_slave-erased :
      (m : MasterParams P) (xs : List ℕ)
      → Distinct (same_endpoint P m) xs
      → find_slave P m ip port (erase_slave P ip port xs m).0 ≡ none
  unfolding erase_slave find_slave
  find_slave-erased m [] d = refl
  find_slave-erased m (a ∷ xs) d = elim (Bool-cases (is_endpoint P ip port (m.slave_at a))) [
    | inl hit ↦ rw (hit, erase_slave) (find_slave-unlike a m xs hit d.0)
    | inr miss ↦ rw (miss, erase_slave) (rw miss (find_slave-erased m xs d.1))
  ]

  find_slave-kept :
      (ip' : Text) (port' : ℤ) (m : MasterParams P) (xs : List ℕ)
      → endpoint_eq ip port ip' port' ≡ false
      → find_slave P m ip' port' (erase_slave P ip port xs m).0 ≡ find_slave P m ip' port' xs
  unfolding erase_slave find_slave
  find_slave-kept ip' port' m [] n = refl
  find_slave-kept ip' port' m (a ∷ xs) n =
      elim (Bool-cases (is_endpoint P ip port (m.slave_at a))) [
        | inl hit ↦
            let other = is_endpoint-other ip' port' (m.slave_at a) hit ∙ n in
            rw (hit, erase_slave) (rw other refl)
        | inr miss ↦
            rw (miss, erase_slave)
              (ap (λ (r : Option ℕ). if is_endpoint P ip' port' (m.slave_at a) then some a else r)
                (find_slave-kept ip' port' m xs n))
      ]

  -- Where no two registered slaves have one endpoint: after MDelSlave with an address and a port,
  -- GetSlave finds no slave there, and at every other endpoint it finds the slave that it found
  -- before.
  pub m_del_slave_forgets :
      (m : MasterParams P)
      → IsValid P m
      → let m' = m_del_slave P ip port m in
        (get_slave P ip port m' ≡ none)
        × ((ip' : Text) (port' : ℤ)
            → endpoint_eq ip port ip' port' ≡ false
            → get_slave P ip' port' m' ≡ get_slave P ip' port' m)
  unfolding m_del_slave get_slave
  m_del_slave_forgets m v =
      let m' = m_del_slave P ip port m in
      (
        find_slave-ext ip port m m' (erase_slave P ip port m.m_slave_vec m).0
              (erase_slave-endpoint ip port m.m_slave_vec m)
            ∙ find_slave-erased m m.m_slave_vec v.endpoints,
        λ ip' port' n.
            find_slave-ext ip' port' m m' (erase_slave P ip port m.m_slave_vec m).0
              (erase_slave-endpoint ip' port' m.m_slave_vec m)
            ∙ find_slave-kept ip' port' m m.m_slave_vec n,
      )
