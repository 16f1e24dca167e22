-- ===== src/Master/Offline.antt =====
-- UpdateSlaveStatus of src/master.cpp: when a slave that does not answer goes offline.
use aistream.Base.{
  ltb, leb, ℕ, zero, suc, ◌+◌, true, false, ◌≡◌, refl, ◌∙◌, none, arith, inl, inr, Bool-cases,
  ==_self, if◌then◌else◌,
}
use aistream.Platform.{Platform}
use aistream.Master.State.{SlaveParam, MasterParams, write}
use aistream.Master.Slaves.{detach, reset_slave_obj, missed_answer, update_slave_status}

module _ (P : Platform) (a : ℕ) where
  write_self : (m : MasterParams P) (s : SlaveParam P) → (write P m a s).slave_at a ≡ s
  write_self m s = rw (==_self a)

  -- What one missed answer does to the slave and to the objects.
  record Missed (m m' : MasterParams P) : Type 0 where
    cnt : (m'.slave_at a).offline_cnt ≡ (m.slave_at a).offline_cnt + 1
    dead :
        leb 3 ((m.slave_at a).offline_cnt + 1) ≡ true
        → ((m'.slave_at a).alive ≡ false)
          × (m'.m_obj_vec ≡ (if (m.slave_at a).alive then detach P a m.m_obj_vec else m.m_obj_vec))
    spared :
        leb 3 ((m.slave_at a).offline_cnt + 1) ≡ false
        → ((m'.slave_at a).alive ≡ (m.slave_at a).alive) × (m'.m_obj_vec ≡ m.m_obj_vec)

  missed_answer-Missed : (m : MasterParams P) → Missed m (missed_answer P a m)
  unfolding missed_answer reset_slave_obj
  missed_answer-Missed m = elim (Bool-cases (leb 3 ((m.slave_at a).offline_cnt + 1))) [
    | inl t ↦ elim (Bool-cases (m.slave_at a).alive) [
      | inl l ↦ record {
        cnt = rw (t, l, ==_self a);
        dead = λ _. (rw (t, l, ==_self a), rw (t, l));
        spared = λ f. cc;
      }
      | inr l ↦ record {
        cnt = rw (t, l, ==_self a);
        dead = λ _. (rw (t, l, ==_self a), rw (t, l));
        spared = λ f. cc;
      }
    ]
    | inr t ↦ record {
      cnt = rw (t, ==_self a);
      dead = λ f. cc;
      spared = λ _. (rw (t, ==_self a), rw t);
    }
  ]

  -- The state after a number of status requests that got no answer.
  abbrev pub unanswered : ℕ → MasterParams P → MasterParams P
  unanswered zero m = m
  unanswered (suc k) m = update_slave_status P a none (unanswered k m)

  -- A live slave goes offline with the third status request in a row that it leaves unanswered, and
  -- not before; with that its objects lose their slave, and no other object does. The count of
  -- unanswered requests goes on.
  pub unanswered_offline :
      (k : ℕ) (m : MasterParams P)
      → (m.slave_at a).alive ≡ true
      → (m.slave_at a).offline_cnt ≡ 0
      → let m' = unanswered k m in
        ((m'.slave_at a).offline_cnt ≡ k)
        × ((m'.slave_at a).alive ≡ ltb k 3)
        × (m'.m_obj_vec ≡ (if ltb k 3 then m.m_obj_vec else detach P a m.m_obj_vec))
  unfolding update_slave_status
  unanswered_offline zero m l z = (z, l, refl)
  unanswered_offline (suc k) m l z =
      let (n, live, objs) = unanswered_offline k m l z in
      let e = missed_answer-Missed (unanswered k m) in
      elim (Bool-cases (leb 3 (((unanswered k m).slave_at a).offline_cnt + 1))) [
        | inl t ↦
            let (dead, lost) = e.dead t in
            (omega (arith, e.cnt), dead ∙ ground arith, lost ∙ ground arith)
        | inr t ↦
            let (kept, same) = e.spared t in
            (omega (arith, e.cnt), kept ∙ ground arith, same ∙ ground arith)
      ]
