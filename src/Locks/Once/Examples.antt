-- ===== src/Locks/Once/Examples.antt =====
-- Two cpus and one initialisation.
use nyaux_kc.Locks.Once.{once_run, get, new}
use nyaux_kc.Locks.Once.Single.{once_run-get}
use nyaux_kc.Base.{some, ◌+◌, ◌≡◌, refl, ℕ, List, [], ◌∷◌}

-- Cpu 1 begins, cpu 0 waits, cpu 1 ends, and then cpu 0.
abbrev both_call : List ℕ
both_call = 1 ∷ 0 ∷ 0 ∷ 1 ∷ 1 ∷ 0 ∷ []

abbrev closure : ℕ → ℕ
closure c = c + 10

once_run-get_example :
    (w : ℕ) × (get (once_run closure both_call new) ≡ some (closure w))
    × ((once_run closure both_call new).calls ≡ 1)
unfolding once_run
once_run-get_example = once_run-get closure both_call 0 refl
