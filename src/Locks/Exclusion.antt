-- ===== src/Locks/Exclusion.antt =====
-- Mutual exclusion, and the interrupt flag across `lock` and `unlock` (kernel/src/util/mod.rs).
use nyaux_kc.Base.{
  ℕ, ◌≡◌, refl, Bool, true, false, List, [], ◌∷◌, ◌==◌, if◌then◌else◌, Bool-cases, inl, inr, ◌⊎◌,
  ==→eq, ◌∙◌, sym, ap, subst,
}
use nyaux_kc.Locks.{
  Phase, outside, trying, waiting, acquired, holding, releasing, freed, Cpu, Spin, Out, act, acted,
  put, step, run, start,
}

-- The phases in which a cpu has the lock.
abbrev pub is_critical : Phase → Bool
is_critical outside = false
is_critical trying = false
is_critical waiting = false
is_critical acquired = true
is_critical holding = true
is_critical releasing = true
is_critical freed = false

-- Interrupts are off from the successful swap to the clearing of the flag, and the flag that
-- `unlock` restores is the one that `lock` found.
abbrev pub Masked : Phase → (interrupts prev loaded saved : Bool) → Type 0
Masked outside i v l s = Unit
Masked trying i v l s = i ≡ false
Masked waiting i v l s = i ≡ v
Masked acquired i v l s = i ≡ false
Masked holding i v l s = (i ≡ false) × (s ≡ v)
Masked releasing i v l s = (i ≡ false) × (l ≡ v)
Masked freed i v l s = (i ≡ false) × (l ≡ v)

abbrev pub IsMasked : Cpu → Bool → Type 0
IsMasked x s = Masked x.phase x.interrupts x.prev x.loaded s

-- The lock is free and nobody has it, or it is taken and exactly one cpu has it.
abbrev pub Owned : Bool → (ℕ → Bool) → Type 0
Owned false has_it = (a : ℕ) → has_it a ≡ false
Owned true has_it = (h : ℕ) × ((a : ℕ) → has_it a ≡ (a == h))

abbrev pub critical : (ℕ → Cpu) → ℕ → Bool
critical cpus a = is_critical (cpus a).phase

pub record IsSound (s : Spin) : Type 0 where
  pub owned : Owned s.locked (critical s.cpus)
  pub masked : (a : ℕ) → IsMasked (s.cpus a) s.saved

-- What one step does to the lock.
data Effect (p : Phase) (k s : Bool) (o : Out) : Type 0 where
  keeps :
      is_critical o.self.phase ≡ is_critical p
      → o.locked ≡ k
      → (o.saved ≡ s) ⊎ (is_critical p ≡ true)
      → Effect p k s o
  takes :
      k ≡ false → o.locked ≡ true → is_critical o.self.phase ≡ true → o.saved ≡ s → Effect p k s o
  frees :
      is_critical p ≡ true
      → o.locked ≡ false
      → is_critical o.self.phase ≡ false
      → o.saved ≡ s
      → Effect p k s o

act-Effect : (p : Phase) (i v l k s : Bool) → Effect p k s (act p i v l k s)
unfolding act
act-Effect outside i v l k s = keeps refl refl (inl refl)
act-Effect trying i v l false s = takes refl refl refl refl
act-Effect trying i v l true s = keeps refl refl (inl refl)
act-Effect waiting i v l k s = keeps refl refl (inl refl)
act-Effect acquired i v l k s = keeps refl refl (inr refl)
act-Effect holding i v l k s = keeps refl refl (inl refl)
act-Effect releasing i v l k s = frees refl refl refl refl
act-Effect freed i v l k s = keeps refl refl (inl refl)

act-IsMasked :
    (p : Phase) (i v l k s : Bool)
    → Masked p i v l s
    → IsMasked (act p i v l k s).self (act p i v l k s).saved
unfolding act
act-IsMasked outside i v l k s m = refl
act-IsMasked trying i v l false s m = m
act-IsMasked trying i true l true s m = refl
act-IsMasked trying i false l true s m = m
act-IsMasked waiting i v l k s m = refl
act-IsMasked acquired i v l k s m = (m, refl)
act-IsMasked holding i v l k s m = m
act-IsMasked releasing i v l k s m = m
act-IsMasked freed i v l k s m = tt

-- A cpu that has not the lock does not read the saved flag.
Masked-unread :
    (p : Phase) (i v l s t : Bool) → is_critical p ≡ false → Masked p i v l s → Masked p i v l t
Masked-unread outside i v l s t n m = m
Masked-unread trying i v l s t n m = m
Masked-unread waiting i v l s t n m = m
Masked-unread acquired i v l s t n m = m
Masked-unread holding i v l s t n m = absurd (cc n)
Masked-unread releasing i v l s t n m = m
Masked-unread freed i v l s t n m = m

owner_unique : (k : Bool) (f : ℕ → Bool) (c : ℕ) → Owned k f → f c ≡ true → (a : ℕ) → f a ≡ (a == c)
owner_unique false f c free has_it a = absurd (cc (free c, has_it))
owner_unique true f c (h, only) has_it a =
    let same : c ≡ h = ==→eq c h (sym (only c) ∙ has_it) in only a ∙ ap (λ x. a == x) (sym same)

congr-Owned : (k : Bool) (f g : ℕ → Bool) → ((a : ℕ) → f a ≡ g a) → Owned k g → Owned k f
congr-Owned false f g e owned = λ a. e a ∙ owned a
congr-Owned true f g e (h, only) = (h, λ a. e a ∙ only a)

critical-put :
    (f : ℕ → Cpu) (c : ℕ) (x : Cpu) (a : ℕ)
    → critical (put f c x) a ≡ (if a == c then is_critical x.phase else critical f a)
critical-put f c x a = elim (Bool-cases (a == c)) [ inl h ↦ rw h | inr h ↦ rw h ]

module _ (c : ℕ) (s : Spin) (sound : IsSound s) where
  kept-Owned :
      (x : Cpu)
      → is_critical x.phase ≡ critical s.cpus c
      → Owned s.locked (critical (put s.cpus c x))
  kept-Owned x same =
      congr-Owned s.locked _ (critical s.cpus) (λ a. critical-put s.cpus c x a ∙ at a) sound.owned
    where
      at : (a : ℕ) → (if a == c then is_critical x.phase else critical s.cpus a) ≡ critical s.cpus a
      at a = elim (Bool-cases (a == c)) [
        | inl h ↦ rw h (same ∙ ap (critical s.cpus) (sym (==→eq a c h)))
        | inr h ↦ rw h
      ]

  taken-Owned :
      (x : Cpu)
      → s.locked ≡ false
      → is_critical x.phase ≡ true
      → Owned true (critical (put s.cpus c x))
  taken-Owned x free has_it = (c, λ a. critical-put s.cpus c x a ∙ at a)
    where
      nobody : (a : ℕ) → critical s.cpus a ≡ false
      nobody = subst (λ k. Owned k (critical s.cpus)) free sound.owned

      at : (a : ℕ) → (if a == c then is_critical x.phase else critical s.cpus a) ≡ (a == c)
      at a = elim (Bool-cases (a == c)) [ inl h ↦ rw h has_it | inr h ↦ rw h (nobody a) ]

  freed-Owned :
      (x : Cpu)
      → critical s.cpus c ≡ true
      → is_critical x.phase ≡ false
      → Owned false (critical (put s.cpus c x))
  freed-Owned x had_it gone = λ a. critical-put s.cpus c x a ∙ at a
    where
      at : (a : ℕ) → (if a == c then is_critical x.phase else critical s.cpus a) ≡ false
      at a = elim (Bool-cases (a == c)) [
        | inl h ↦ rw h gone
        | inr h ↦ rw h (owner_unique s.locked (critical s.cpus) c sound.owned had_it a ∙ h)
      ]

  -- The other cpus, when the saved flag changes only under the lock.
  others-IsMasked :
      (t : Bool) (a : ℕ)
      → (t ≡ s.saved) ⊎ (critical s.cpus c ≡ true)
      → (a == c) ≡ false
      → IsMasked (s.cpus a) t
  others-IsMasked t a (inl same) other = subst (IsMasked (s.cpus a)) (sym same) (sound.masked a)
  others-IsMasked t a (inr has_it) other =
      let out_of_it = owner_unique s.locked (critical s.cpus) c sound.owned has_it a ∙ other in
      Masked-unread (s.cpus a).phase _ _ _ s.saved t out_of_it (sound.masked a)

  put-IsMasked :
      (x : Cpu) (t : Bool)
      → IsMasked x t
      → (t ≡ s.saved) ⊎ (critical s.cpus c ≡ true)
      → (a : ℕ) → IsMasked (put s.cpus c x a) t
  put-IsMasked x t self unread a = elim (Bool-cases (a == c)) [
    | inl h ↦ rw h self
    | inr h ↦ rw h (others-IsMasked t a unread h)
  ]

  pub step-IsSound : IsSound (step c s)
  step-IsSound =
      let o = acted (s.cpus c) s.locked s.saved in
      let mine = act-IsMasked (s.cpus c).phase _ _ _ s.locked s.saved (sound.masked c) in
      elim (act-Effect (s.cpus c).phase (s.cpus c).interrupts (s.cpus c).prev (s.cpus c).loaded
        s.locked s.saved) [
          | keeps same locked saved ↦ record {
            owned =
                subst (λ k. Owned k (critical (put s.cpus c o.self))) (sym locked)
                  (kept-Owned o.self same);
            masked = put-IsMasked o.self o.saved mine saved;
          }
          | takes free locked has_it saved ↦ record {
            owned =
                subst (λ k. Owned k (critical (put s.cpus c o.self))) (sym locked)
                  (taken-Owned o.self free has_it);
            masked = put-IsMasked o.self o.saved mine (inl saved);
          }
          | frees had_it locked gone saved ↦ record {
            owned =
                subst (λ k. Owned k (critical (put s.cpus c o.self))) (sym locked)
                  (freed-Owned o.self had_it gone);
            masked = put-IsMasked o.self o.saved mine (inl saved);
          }
        ]

pub run-IsSound : (cs : List ℕ) (s : Spin) → IsSound s → IsSound (run cs s)
unfolding run
run-IsSound [] s sound = sound
run-IsSound (c ∷ cs) s sound = run-IsSound cs (step c s) (step-IsSound c s sound)

pub start-IsSound : (interrupts : ℕ → Bool) → IsSound (start interrupts)
start-IsSound interrupts = record { owned = λ a. refl; masked = λ a. tt }

critical_off : (p : Phase) (i v l s : Bool) → is_critical p ≡ true → Masked p i v l s → i ≡ false
critical_off outside i v l s h m = absurd (cc h)
critical_off trying i v l s h m = m
critical_off waiting i v l s h m = absurd (cc h)
critical_off acquired i v l s h m = m
critical_off holding i v l s h m = m.0
critical_off releasing i v l s h m = m.0
critical_off freed i v l s h m = m.0

-- Whatever the order in which the cpus step, no two of them have the lock at once, and a cpu that has
-- it runs with interrupts off.
pub run-exclusive :
    (interrupts : ℕ → Bool) (cs : List ℕ) (a b : ℕ)
    → critical (run cs (start interrupts)).cpus a ≡ true
    → critical (run cs (start interrupts)).cpus b ≡ true
    → (a ≡ b) × (((run cs (start interrupts)).cpus a).interrupts ≡ false)
run-exclusive interrupts cs a b has_a has_b =
    let sound = run-IsSound cs (start interrupts) (start-IsSound interrupts) in
    let u = run cs (start interrupts) in
    (
      ==→eq a b (sym (owner_unique u.locked (critical u.cpus) b sound.owned has_b a) ∙ has_a),
      critical_off (u.cpus a).phase _ _ _ u.saved has_a (sound.masked a),
    )
