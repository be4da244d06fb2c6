-- ===== src/Locks/Examples.antt =====
-- Two cpus that contend for the lock.
use nyaux_kc.Base.{ℕ, ◌≡◌, refl, Bool, true, false, List, [], ◌∷◌}
use nyaux_kc.Locks.{run, start}
use nyaux_kc.Locks.Exclusion.{run-exclusive}
use nyaux_kc.Locks.Interrupts.{run-restores}

-- Cpu 0 takes the lock, and cpu 1 finds it taken.
abbrev contended : List ℕ
contended = 0 ∷ 1 ∷ 0 ∷ 1 ∷ 0 ∷ []

-- Cpu 0 gives it back.
abbrev given_back : List ℕ
given_back = 0 ∷ 1 ∷ 0 ∷ 1 ∷ 0 ∷ 0 ∷ 1 ∷ 0 ∷ 0 ∷ []

abbrev enabled : ℕ → Bool
enabled a = true

run-exclusive_example :
    (◌≡◌ {A = ℕ} 0 0) × (((run contended (start enabled)).cpus 0).interrupts ≡ false)
unfolding run
run-exclusive_example = run-exclusive enabled contended 0 0 refl refl

run-restores_example : ((run given_back (start enabled)).cpus 0).interrupts ≡ true
unfolding run
run-restores_example = run-restores enabled given_back 0 refl
