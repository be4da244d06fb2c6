-- ===== src/Base/Runs.antt =====
-- Stateful code that may fault: a run yields a value and a state, or `none` for a panic or an
-- access that the hardware would refuse.
use mathlib.Core.Path.{◌≡◌, refl}
use mathlib.Core.Option.{Option, none, some}

abbrev pub M : Type 0 → Type 0 → Type 0
M S A = S → Option (A × S)

abbrev pub pure : {S A : Type 0} → A → M S A
pure a s = some (a, s)

abbrev pub fault : {S A : Type 0} → M S A
fault s = none

module _ {S : Type 0} where
  infixl 5 ◌>>=◌ ◌>>◌
  abbrev pub ◌>>=◌ : {A B : Type 0} → M S A → (A → M S B) → M S B
  ◌>>=◌ m f s = elim (m s) [ none ↦ none | some (a, t) ↦ f a t ]

  abbrev pub ◌>>◌ : {A B : Type 0} → M S A → M S B → M S B
  m >> k = m >>= λ _. k

-- The run ends without a fault, in a state that satisfies `P`.
abbrev pub Returns : {S A : Type 0} → (A → S → Type 0) → Option (A × S) → Type 0
Returns P none = ⊥
Returns P (some (a, s)) = P a s

module _ {S A : Type 0} (P : A → S → Type 0) where
  pub Returns-mono :
      (Q : A → S → Type 0) (r : Option (A × S))
      → Returns P r
      → ((a : A) (s : S) → P a s → Q a s)
      → Returns Q r
  Returns-mono Q none p weaken = p
  Returns-mono Q (some (a, s)) p weaken = weaken a s p

  pub Returns-bind :
      {B : Type 0} (Q : B → S → Type 0) (r : Option (A × S)) (f : A → M S B)
      → Returns P r
      → ((a : A) (t : S) → P a t → Returns Q (f a t))
      → Returns Q (elim r [ none ↦ none | some (a, t) ↦ f a t ])
  Returns-bind Q none f p next = p
  Returns-bind Q (some (a, t)) f p next = next a t p

-- The value and the state of a run that returns.
pub run_of_Returns :
    {S A : Type 0} (P : A → S → Type 0) (r : Option (A × S))
    → Returns P r
    → (a : A) × (s : S) × (r ≡ some (a, s)) × P a s
run_of_Returns P none p = absurd p
run_of_Returns P (some (a, s)) p = (a, s, refl, p)
