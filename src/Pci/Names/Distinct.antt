-- ===== src/Pci/Names/Distinct.antt =====
-- No arm of the tables stands behind another with the same numbers (kernel/src/pci/mod.rs).
use nyaux_kc.Base.{
  ℕ, zero, suc, Bool, true, false, ◌&&◌, not, List, [], ◌∷◌, some, get_elem?, ◌==◌, ◌≡◌, refl,
  ==_self, ==→eq, ap, ◌∙◌, sym,
}
use nyaux_kc.Pci.Names.{Arm, fits, first_arm, class_arms, prog_if_arms, class_name, prog_if_name}

-- No arm of the list has these numbers.
abbrev apart : Arm → List Arm → Bool
apart a [] = true
apart a (b ∷ rest) = not (fits b.class b.subclass b.prog_if a) && apart a rest

abbrev distinct : List Arm → Bool
distinct [] = true
distinct (a ∷ rest) = apart a rest && distinct rest

fits_self : (a : Arm) → fits a.class a.subclass a.prog_if a ≡ true
fits_self a = rw (==_self a.class, ==_self a.subclass, ==_self a.prog_if)

both : (a b : Bool) → (a && b) ≡ true → (a ≡ true) × (b ≡ true)
both true b h = (refl, h)
both false b h = cc h

of_not : (b : Bool) → not b ≡ true → b ≡ false
of_not true h = cc h
of_not false h = refl

-- An arm that stands behind another does not have its numbers.
apart_at :
    (i : ℕ) (x a : Arm) (rest : List Arm)
    → apart x rest ≡ true
    → get_elem? rest i ≡ some a
    → fits a.class a.subclass a.prog_if x ≡ false
apart_at i x a [] h e = cc e
apart_at zero x a (b ∷ rest) h e = let same : b ≡ a = cc e in rw (← same) (of_not _ (both _ _ h).0)
apart_at (suc i) x a (b ∷ rest) h e = apart_at i x a rest (both _ _ h).1 e

first_arm-distinct :
    (i : ℕ) (a : Arm) (arms : List Arm)
    → distinct arms ≡ true
    → get_elem? arms i ≡ some a
    → first_arm a.class a.subclass a.prog_if arms ≡ a.text
unfolding first_arm
first_arm-distinct i a [] h e = cc e
first_arm-distinct zero a (b ∷ rest) h e = let same : b ≡ a = cc e in rw (same, fits_self a)
first_arm-distinct (suc i) a (b ∷ rest) h e =
    rw (apart_at i b a rest (both _ _ h).0 e) (first_arm-distinct i a rest (both _ _ h).1 e)

abbrev no_prog_if : List Arm → Bool
no_prog_if [] = true
no_prog_if (a ∷ rest) = (a.prog_if == 0) && no_prog_if rest

prog_if_zero :
    (i : ℕ) (a : Arm) (arms : List Arm)
    → no_prog_if arms ≡ true
    → get_elem? arms i ≡ some a
    → a.prog_if ≡ 0
prog_if_zero i a [] h e = cc e
prog_if_zero zero a (b ∷ rest) h e =
    let same : b ≡ a = cc e in rw (← same) (==→eq b.prog_if 0 (both _ _ h).0)
prog_if_zero (suc i) a (b ∷ rest) h e = prog_if_zero i a rest (both _ _ h).1 e

class_arms-distinct : distinct class_arms ≡ true
unfolding class_arms
class_arms-distinct = refl

class_arms_plain : no_prog_if class_arms ≡ true
unfolding class_arms
class_arms_plain = refl

prog_if_arms-distinct : distinct prog_if_arms ≡ true
unfolding prog_if_arms
prog_if_arms-distinct = refl

-- Every arm of `class_name` is reached: its numbers get its text, and not that of an arm above it.
pub class_name-arm :
    (i : ℕ) (a : Arm) → get_elem? class_arms i ≡ some a → class_name a.class a.subclass ≡ a.text
unfolding class_name
class_name-arm i a e =
    let none_given = prog_if_zero i a class_arms class_arms_plain e in
    ap (λ p. first_arm a.class a.subclass p class_arms) (sym none_given)
    ∙ first_arm-distinct i a class_arms class_arms-distinct e

-- Every arm of `prog_if_name` is reached.
pub prog_if_name-arm :
    (i : ℕ) (a : Arm)
    → get_elem? prog_if_arms i ≡ some a
    → prog_if_name a.class a.subclass a.prog_if ≡ a.text
unfolding prog_if_name
prog_if_name-arm i a e = first_arm-distinct i a prog_if_arms prog_if_arms-distinct e
