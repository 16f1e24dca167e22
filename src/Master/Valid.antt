-- ===== src/Master/Valid.antt =====
-- The invariant of the tables of src/master.cpp, and MAddSlave and MDelSlave against it.
use aistream.Base.{
  is_none, ℕ, ◌<◌, Bool, true, false, ◌≡◌, refl, sym, subst, inl, inr, Option, none, some, List, [],
  ◌∷◌, ◌++◌, Text, text, arith, ℤ, int_eq, All, All-map, All-snoc, All-zip, ◌||◌, not, Has,
  Has-append_left, Has-snoc, Distinct, Distinct-snoc, Distinct-ext, take-take, Bool-cases,
  Option-cases, ◌==◌, ==_iff, is_negative,
}
use aistream.Platform.{Platform}
use aistream.Share.{get_str_val_from_json, get_int_val_from_json}
use aistream.Master.State.{SlaveParam, MasterParams}
use aistream.Master.Slaves.{
  is_endpoint, find_slave, get_slave, push_slave, m_add_slave, erase_slave, m_del_slave,
}
use aistream.Master.Frame.{Frame, obj_ids}

module _ (P : Platform) where
  -- The test by which GetSlave would take b for a.
  abbrev pub same_endpoint : MasterParams P → ℕ → ℕ → Bool
  same_endpoint m a b = is_endpoint P (m.slave_at b).ip (m.slave_at b).rest_port (m.slave_at a)

  pub record IsValid (m : MasterParams P) : Type 0 where
    pub below : All (λ a. a < m.next_slave) m.m_slave_vec
    -- No two registered slaves have one address and port.
    pub endpoints : Distinct (same_endpoint m) m.m_slave_vec
    -- A slave that counts as alive is registered.
    pub registered : (a : ℕ) → (m.slave_at a).alive ≡ true → Has a m.m_slave_vec
    -- No two objects have one id.
    pub ids : Distinct int_eq (obj_ids m.m_obj_vec)

  pub Frame-IsValid : (m m' : MasterParams P) → Frame P m m' → IsValid m → IsValid m'
  Frame-IsValid m m' f v = record {
    below = rw f.vec (All-map _ _ m.m_slave_vec (λ a l. rw f.next l) v.below);
    endpoints = rw f.vec (
        Distinct-ext (λ a. a < m.next_slave) (same_endpoint m) (same_endpoint m') m.m_slave_vec
          (λ a b _ _. rw (f.ip a, f.ip b, f.rest_port a, f.rest_port b)) v.below v.endpoints);
    registered = λ a l. elim (f.alive a l) [
      | inl l' ↦ subst (Has a) (sym f.vec) (v.registered a l')
      | inr h ↦ subst (Has a) (sym f.vec) h
    ];
    ids = rw f.ids v.ids;
  }

  find_slave-none :
      (m : MasterParams P) (ip : Text) (rest_port : ℤ) (xs : List ℕ)
      → is_none (find_slave P m ip rest_port xs) ≡ true
      → All (λ a. is_endpoint P ip rest_port (m.slave_at a) ≡ false) xs
  unfolding find_slave
  find_slave-none m ip rest_port [] e = tt
  find_slave-none m ip rest_port (a ∷ xs) e =
      elim (Bool-cases (is_endpoint P ip rest_port (m.slave_at a))) [
        | inl hit ↦ absurd (ground (arith, hit))
        | inr miss ↦ (miss, find_slave-none m ip rest_port xs (ground (arith, miss)))
      ]

  module _ (s : SlaveParam P) (m : MasterParams P) where
    push_slave_old : (a : ℕ) → a < m.next_slave → (push_slave P s m).slave_at a ≡ m.slave_at a
    unfolding push_slave
    push_slave_old a l = ground arith

    push_slave_new : (push_slave P s m).slave_at m.next_slave ≡ s
    unfolding push_slave
    push_slave_new = ground arith

    push_slave-endpoints :
        All (λ a. is_endpoint P s.ip s.rest_port (m.slave_at a) ≡ false) m.m_slave_vec
        → IsValid m
        → Distinct (same_endpoint (push_slave P s m)) (m.m_slave_vec ++ m.next_slave ∷ [])
    push_slave-endpoints fresh v =
        let m' = push_slave P s m in
        Distinct-snoc (same_endpoint m') m.m_slave_vec m.next_slave
          (Distinct-ext (λ a. a < m.next_slave) (same_endpoint m) (same_endpoint m') m.m_slave_vec
            (λ a b la lb. rw (push_slave_old a la, push_slave_old b lb)) v.below v.endpoints)
          (All-zip _ _ (λ a. same_endpoint m' a m.next_slave ≡ false) m.m_slave_vec
            (λ a la e. rw (push_slave_old a la, push_slave_new) e) v.below fresh)

    push_slave-registered :
        s.alive ≡ false
        → IsValid m
        → (a : ℕ) → ((push_slave P s m).slave_at a).alive ≡ true
        → Has a (m.m_slave_vec ++ m.next_slave ∷ [])
    unfolding push_slave
    push_slave-registered dead v a l = elim (Bool-cases (m.next_slave == a)) [
      | inl e ↦
          subst (λ b. Has b (m.m_slave_vec ++ m.next_slave ∷ [])) ((==_iff _ a).0 e)
            (Has-snoc m.m_slave_vec m.next_slave)
      | inr n ↦ Has-append_left m.m_slave_vec _ a (v.registered a (ground arith))
    ]

    push_slave-IsValid :
        s.alive ≡ false
        → All (λ a. is_endpoint P s.ip s.rest_port (m.slave_at a) ≡ false) m.m_slave_vec
        → IsValid m
        → IsValid (push_slave P s m)
    unfolding push_slave
    push_slave-IsValid dead fresh v = record {
      below =
          All-snoc _ m.m_slave_vec m.next_slave
            (All-map _ _ m.m_slave_vec (λ a l. omega arith) v.below) (omega arith);
      endpoints = push_slave-endpoints fresh v;
      registered = push_slave-registered dead v;
      ids = v.ids;
    }

  -- What MAddSlave gives: a registered slave, or none.
  abbrev Added : Option ℕ × MasterParams P → Type 0
  Added r = IsValid r.1 × ((a : ℕ) → r.0 ≡ some a → Has a r.1.m_slave_vec)

  pub m_add_slave-IsValid :
      (buf : Text) (m : MasterParams P) → IsValid m → Added (m_add_slave P buf m)
  unfolding m_add_slave get_slave
  m_add_slave-IsValid buf m v =
      let rest_port = get_int_val_from_json P buf (some (text "rest_port")) none none in
      elim (Option-cases (get_str_val_from_json P buf (some (text "ip")) none none)) [
        | inl e ↦ rw (e, m_add_slave) (v, (λ a h. cc))
        | inr (ip, e) ↦
            elim (Bool-cases
              (is_negative rest_port || not (is_none (get_slave P ip rest_port m)))) [
                | inl b ↦ rw (e, b, m_add_slave) (v, (λ a h. cc))
                | inr b ↦
                    let free = find_slave-none m ip rest_port m.m_slave_vec (ground arith) in
                    rw (e, b, m_add_slave)
                      (
                        push_slave-IsValid _ m refl (rw (take-take 128 ip) free) v,
                        λ a h.
                            let q : m.next_slave ≡ a = cc in
                            subst (λ c. Has c (m.m_slave_vec ++ m.next_slave ∷ [])) q
                              (Has-snoc m.m_slave_vec m.next_slave),
                      )
              ]
      ]

  -- The loop of MDelSlave keeps what holds of all registered slaves, and takes the alive flag of
  -- the one that it drops.
  module _ (ip : Text) (rest_port : ℤ) (m : MasterParams P) where
    erase-All :
        (Q : ℕ → Type 0) (xs : List ℕ) → All Q xs → All Q (erase_slave P ip rest_port xs m).0
    unfolding erase_slave
    erase-All Q [] h = tt
    erase-All Q (a ∷ xs) h = elim (Bool-cases (is_endpoint P ip rest_port (m.slave_at a))) [
      | inl hit ↦ rw (hit, erase_slave) h.1
      | inr miss ↦ rw (miss, erase_slave) (h.0, erase-All Q xs h.1)
    ]

    erase-Distinct :
        (same : ℕ → ℕ → Bool) (xs : List ℕ)
        → Distinct same xs
        → Distinct same (erase_slave P ip rest_port xs m).0
    unfolding erase_slave
    erase-Distinct same [] d = tt
    erase-Distinct same (a ∷ xs) d = elim (Bool-cases (is_endpoint P ip rest_port (m.slave_at a))) [
      | inl hit ↦ rw (hit, erase_slave) d.1
      | inr miss ↦
          rw (miss, erase_slave)
            (erase-All (λ y. same a y ≡ false) xs d.0, erase-Distinct same xs d.1)
    ]

    -- What else changes in the master: nothing but one alive flag, which is cleared.
    record Erased (xs : List ℕ) (r : List ℕ × MasterParams P) : Type 0 where
      next : r.1.next_slave ≡ m.next_slave
      objs : r.1.m_obj_vec ≡ m.m_obj_vec
      ip_same : (b : ℕ) → (r.1.slave_at b).ip ≡ (m.slave_at b).ip
      port_same : (b : ℕ) → (r.1.slave_at b).rest_port ≡ (m.slave_at b).rest_port
      kept :
          (b : ℕ)
          → (r.1.slave_at b).alive ≡ true
          → ((m.slave_at b).alive ≡ true) × (Has b xs → Has b r.0)

    erase-Erased : (xs : List ℕ) → Erased xs (erase_slave P ip rest_port xs m)
    unfolding erase_slave
    erase-Erased [] = record {
      next = refl;
      objs = refl;
      ip_same = λ b. refl;
      port_same = λ b. refl;
      kept = λ b l. (l, λ h. h);
    }
    erase-Erased (a ∷ xs) = elim (Bool-cases (is_endpoint P ip rest_port (m.slave_at a))) [
      | inl hit ↦
          rw (hit, erase_slave)
            record {
              next = refl;
              objs = refl;
              ip_same = λ b. ground arith;
              port_same = λ b. ground arith;
              kept = λ b l. elim (Bool-cases (a == b)) [
                | inl e ↦ absurd (ground (arith, e))
                | inr n ↦
                    (ground (arith, n), λ h. elim h [ inl p ↦ absurd (ground arith) | inr k ↦ k ])
              ];
            }
      | inr miss ↦
          let r = erase-Erased xs in
          rw (miss, erase_slave)
            record {
              next = r.next;
              objs = r.objs;
              ip_same = r.ip_same;
              port_same = r.port_same;
              kept = λ b l.
                  let (l', k) = r.kept b l in
                  (l', λ h. elim h [ inl p ↦ inl p | inr h' ↦ inr (k h') ]);
            }
    ]

    pub m_del_slave-IsValid : IsValid m → IsValid (m_del_slave P ip rest_port m)
    unfolding m_del_slave
    m_del_slave-IsValid v =
        let xs = m.m_slave_vec in
        let r = erase_slave P ip rest_port xs m in
        let er = erase-Erased xs in
        record {
          below = rw er.next (erase-All (λ a. a < m.next_slave) xs v.below);
          endpoints =
              Distinct-ext (λ a. a < m.next_slave) (same_endpoint m) (same_endpoint r.1) r.0
                (λ a b _ _. rw (er.ip_same a, er.ip_same b, er.port_same a, er.port_same b))
                (erase-All (λ a. a < m.next_slave) xs v.below)
                (erase-Distinct (same_endpoint m) xs v.endpoints);
          registered = λ b l. let (l', k) = er.kept b l in k (v.registered b l');
          ids = rw er.objs v.ids;
        }
