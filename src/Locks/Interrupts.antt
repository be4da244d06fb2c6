-- ===== src/Locks/Interrupts.antt =====
-- The interrupt flag of a cpu across `lock` and `unlock` (kernel/src/util/mod.rs).
use nyaux_kc.Base.{
  ℕ, ◌≡◌, refl, Bool, true, false, List, [], ◌∷◌, ◌==◌, Bool-cases, inl, inr, ==→eq, ◌∙◌, subst,
  sym,
}
use nyaux_kc.Locks.{
  Phase, outside, trying, waiting, acquired, holding, releasing, freed, Cpu, Spin, act, acted, step,
  run, start,
}
use nyaux_kc.Locks.Exclusion.{Masked, IsSound, step-IsSound, start-IsSound}

-- The flag `b` is the cpu's own outside, and is remembered in `prev` elsewhere.
abbrev pub Kept : Phase → (interrupts prev b : Bool) → Type 0
Kept outside i v b = i ≡ b
Kept trying i v b = v ≡ b
Kept waiting i v b = v ≡ b
Kept acquired i v b = v ≡ b
Kept holding i v b = v ≡ b
Kept releasing i v b = v ≡ b
Kept freed i v b = v ≡ b

abbrev pub IsKept : Cpu → Bool → Type 0
IsKept x b = Kept x.phase x.interrupts x.prev b

act-IsKept :
    (p : Phase) (i v l k s b : Bool)
    → Masked p i v l s
    → Kept p i v b
    → IsKept (act p i v l k s).self b
unfolding act
act-IsKept outside i v l k s b m kept = kept
act-IsKept trying i v l false s b m kept = kept
act-IsKept trying i v l true s b m kept = kept
act-IsKept waiting i v l k s b m kept = kept
act-IsKept acquired i v l k s b m kept = kept
act-IsKept holding i v l k s b m kept = kept
act-IsKept releasing i v l k s b m kept = kept
act-IsKept freed i v true k s b (off, same) kept = same ∙ kept
act-IsKept freed i v false k s b (off, same) kept = off ∙ same ∙ kept

step-IsKept :
    (b : ℕ → Bool) (c : ℕ) (s : Spin)
    → IsSound s
    → ((a : ℕ) → IsKept (s.cpus a) (b a))
    → (a : ℕ) → IsKept ((step c s).cpus a) (b a)
step-IsKept b c s sound kept a = elim (Bool-cases (a == c)) [
  | inl h ↦ rw h (
      subst (λ z. IsKept (acted (s.cpus c) s.locked s.saved).self (b z)) (sym (==→eq a c h))
        (act-IsKept (s.cpus c).phase _ _ _ s.locked s.saved (b c) (sound.masked c) (kept c)))
  | inr h ↦ rw h (kept a)
]

run-IsKept :
    (b : ℕ → Bool) (cs : List ℕ) (s : Spin)
    → IsSound s
    → ((a : ℕ) → IsKept (s.cpus a) (b a))
    → (a : ℕ) → IsKept ((run cs s).cpus a) (b a)
unfolding run
run-IsKept b [] s sound kept = kept
run-IsKept b (c ∷ cs) s sound kept =
    run-IsKept b cs (step c s) (step-IsSound c s sound) (step-IsKept b c s sound kept)

-- From a new lock: whenever a cpu is outside it, however often it has taken it and in whatever
-- order the cpus have stepped, its interrupt flag is the one that it began with.
pub run-restores :
    (interrupts : ℕ → Bool) (cs : List ℕ) (a : ℕ)
    → ((run cs (start interrupts)).cpus a).phase ≡ outside
    → ((run cs (start interrupts)).cpus a).interrupts ≡ interrupts a
run-restores interrupts cs a at_rest =
    let u = run cs (start interrupts) in
    subst (λ p. Kept p (u.cpus a).interrupts (u.cpus a).prev (interrupts a)) at_rest
      (run-IsKept interrupts cs (start interrupts) (start-IsSound interrupts) (λ b. refl) a)
