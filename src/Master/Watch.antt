-- ===== src/Master/Watch.antt =====
-- SlaveThread of src/master.cpp: which slaves it asks.
use aistream.Base.{ℕ, zero, suc, false, ◌≡◌, ◌==◌}
use aistream.Platform.{Platform}
use aistream.Master.State.{MasterParams}
use aistream.Master.Slaves.{slave_thread_round}

module _ (P : Platform) where
  -- Everything that happens to slave b leaves another slave as it is.
  abbrev Apart : ℕ → ℕ → MasterParams P → MasterParams P → Type 0
  Apart a b m m' = (b == a) ≡ false → m'.slave_at a ≡ m.slave_at a

  -- `n` rounds of SlaveThread.
  abbrev pub rounds : ℕ → MasterParams P → MasterParams P
  rounds zero m = m
  rounds (suc n) m = rounds n (slave_thread_round P m)
