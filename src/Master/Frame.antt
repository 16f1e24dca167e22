-- ===== src/Master/Frame.antt =====
-- What the parts of src/master.cpp that only work on registered slaves leave alone.
use aistream.Base.{
  ℕ, true, ◌≡◌, refl, ◌∙◌, subst, ◌⊎◌, inl, inr, List, arith, ℤ, Has, map, Bool-cases, ==_iff, ◌==◌,
}
use aistream.Platform.{Platform, Request}
use aistream.Master.State.{MObjParam, SlaveParam, MasterParams, write, send}

abbrev pub obj_ids : List MObjParam → List ℤ
obj_ids = map (λ obj. obj.id)

module _ (P : Platform) where
  pub record Frame (m m' : MasterParams P) : Type 0 where
    pub vec : m'.m_slave_vec ≡ m.m_slave_vec
    pub next : m'.next_slave ≡ m.next_slave
    pub ip : (a : ℕ) → (m'.slave_at a).ip ≡ (m.slave_at a).ip
    pub rest_port : (a : ℕ) → (m'.slave_at a).rest_port ≡ (m.slave_at a).rest_port
    pub alive :
        (a : ℕ) → (m'.slave_at a).alive ≡ true → ((m.slave_at a).alive ≡ true) ⊎ Has a m.m_slave_vec
    pub ids : obj_ids m'.m_obj_vec ≡ obj_ids m.m_obj_vec

  pub Frame-refl : (m : MasterParams P) → Frame m m
  Frame-refl m = record {
    vec = refl;
    next = refl;
    ip = λ a. refl;
    rest_port = λ a. refl;
    alive = λ a h. inl h;
    ids = refl;
  }

  pub Frame-trans : (m m1 m2 : MasterParams P) → Frame m m1 → Frame m1 m2 → Frame m m2
  Frame-trans m m1 m2 f g = record {
    vec = g.vec ∙ f.vec;
    next = g.next ∙ f.next;
    ip = λ a. g.ip a ∙ f.ip a;
    rest_port = λ a. g.rest_port a ∙ f.rest_port a;
    alive =
        λ a h. elim (g.alive a h) [ inl h1 ↦ f.alive a h1 | inr k ↦ inr (subst (Has a) f.vec k) ];
    ids = g.ids ∙ f.ids;
  }

  pub Frame-send : (m : MasterParams P) (r : Request) → Frame m (send P r m).1
  Frame-send m r = record {
    vec = refl;
    next = refl;
    ip = λ a. refl;
    rest_port = λ a. refl;
    alive = λ a h. inl h;
    ids = refl;
  }

  -- A write that keeps the endpoint, and revives registered slaves only.
  pub Frame-write :
      (m : MasterParams P) (a : ℕ) (s : SlaveParam P)
      → s.ip ≡ (m.slave_at a).ip
      → s.rest_port ≡ (m.slave_at a).rest_port
      → (s.alive ≡ true → ((m.slave_at a).alive ≡ true) ⊎ Has a m.m_slave_vec)
      → Frame m (write P m a s)
  Frame-write m a s i p l = record {
    vec = refl;
    next = refl;
    ip = λ b. ground arith;
    rest_port = λ b. ground arith;
    alive = λ b h. elim (Bool-cases (a == b)) [
      | inl e ↦
          subst (λ c. ((m.slave_at c).alive ≡ true) ⊎ Has c m.m_slave_vec) ((==_iff a b).0 e)
            (l (ground arith))
      | inr n ↦ inl (ground arith)
    ];
    ids = refl;
  }

  -- A write that only lets the slave be dead, or leaves its state.
  pub Frame-write_same :
      (m : MasterParams P) (a : ℕ) (s : SlaveParam P)
      → s.ip ≡ (m.slave_at a).ip
      → s.rest_port ≡ (m.slave_at a).rest_port
      → (s.alive ≡ true → (m.slave_at a).alive ≡ true)
      → Frame m (write P m a s)
  Frame-write_same m a s i p l = Frame-write m a s i p (λ h. inl (l h))

  -- A write to a registered slave.
  pub Frame-write_registered :
      (m : MasterParams P) (a : ℕ) (s : SlaveParam P)
      → Has a m.m_slave_vec
      → s.ip ≡ (m.slave_at a).ip
      → s.rest_port ≡ (m.slave_at a).rest_port
      → Frame m (write P m a s)
  Frame-write_registered m a s h i p = Frame-write m a s i p (λ _. inr h)
