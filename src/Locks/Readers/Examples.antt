-- ===== src/Locks/Readers/Examples.antt =====
-- Two cpus, one that writes and one that wants to read.
use nyaux_kc.Base.{ℕ, ◌≡◌, refl, Bool, true, false, List, [], ◌∷◌, arith}
use nyaux_kc.Locks.Readers.{rw_run, rw_step, rw_act, rw_cpu, writer}
use nyaux_kc.Locks.Readers.Sharing.{rw_run-exclusive}

-- Cpu 0 writes, and the load of cpu 1 finds that.
abbrev writing_first : List (ℕ × Bool)
writing_first = (0, false) ∷ (0, false) ∷ (1, true) ∷ (1, true) ∷ []

rw_run-exclusive_example : (◌≡◌ {A = ℕ} 0 0) × ((rw_cpu writer false true).interrupts ≡ false)
unfolding rw_run rw_step rw_act
rw_run-exclusive_example =
    rw_run-exclusive (true ∷ true ∷ []) writing_first 0 0 (rw_cpu writer false true)
      (rw_cpu writer false true) refl refl refl (omega arith)
