-- ===== src/Base/Masks.antt =====
-- `&` with a mask as arithmetic, at every width.
use Prim.Native.Nat.{
  ℕ, zero, suc, ◌+◌, ◌-◌, ◌*◌, ◌/◌, ◌%◌, ◌^◌, ◌≤◌, ◌<◌, min, bit_and, digits, bit_and-bitwise,
}
use mathlib.Core.Path.{◌≡◌, refl, ap, ◌∙◌}
use native.Mathlib.Nat.{pow-suc, one-le-pow, div-div-eq-div-mul}
use native.Mathlib.Omega.{arith}

-- The digit recursion behind `&`, once the count of digits is out of the way.
abbrev common : ℕ → ℕ → ℕ → ℕ
common n a b = digits (λ y. 0) min n a b

common-count : (n k a b : ℕ) → a ≤ n → a ≤ k → common n a b ≡ common k a b
common-count zero k zero b p q = common-none k b
  where
    common-none : (k b : ℕ) → 0 ≡ common k 0 b
    common-none zero b = refl
    common-none (suc k) b = refl
common-count zero k (suc a) b p q = absurd (omega arith)
common-count (suc n) zero zero b p q = refl
common-count (suc n) zero (suc a) b p q = absurd (omega arith)
common-count (suc n) (suc k) zero b p q = refl
common-count (suc n) (suc k) (suc a) b p q =
    ap (λ t. t * 2 + min (suc a % 2) (b % 2))
      (common-count n k (suc a / 2) (b / 2) (omega arith) (omega arith))

pub bit_and-halves : (a b : ℕ) → bit_and a b ≡ bit_and (a / 2) (b / 2) * 2 + min (a % 2) (b % 2)
bit_and-halves zero b = omega (arith, bit_and-bitwise 0 b, bit_and-bitwise (0 / 2) (b / 2))
bit_and-halves (suc a) b = omega (
  arith,
  bit_and-bitwise (suc a) b,
  bit_and-bitwise (suc a / 2) (b / 2),
  common-count a (suc a / 2) (suc a / 2) (b / 2) (omega arith) (omega arith),
)

-- A full mask of `w` ones keeps a number of `w` bits.
bit_and-ones : (w x : ℕ) → x < 2 ^ w → bit_and x (2 ^ w - 1) ≡ x
bit_and-ones zero x small = let e : x ≡ 0 = omega arith in rw e
bit_and-ones (suc w) x small = omega (
  arith,
  bit_and-halves x (2 ^ suc w - 1),
  pow-suc 2 w,
  one-le-pow w 2,
  ap (λ m. bit_and (x / 2) m) (half w),
  bit_and-ones w (x / 2) (omega (arith, pow-suc 2 w)),
)
  where
    half : (w : ℕ) → (2 ^ suc w - 1) / 2 ≡ 2 ^ w - 1
    half w = omega (arith, pow-suc 2 w, one-le-pow w 2)

-- The mask `2 ^ w - 2 ^ k` clears the `k` low bits of a number of `w` bits.
pub bit_and-high : (w k x : ℕ) → k ≤ w → x < 2 ^ w → bit_and x (2 ^ w - 2 ^ k) ≡ x / 2 ^ k * 2 ^ k
bit_and-high w zero x fits small = bit_and-ones w x small ∙ omega arith
bit_and-high zero (suc k) x fits small = absurd (omega arith)
bit_and-high (suc w) (suc k) x fits small =
    let y = x / 2 ^ suc k in
    let quotient : x / 2 / 2 ^ k ≡ y =
      div-div-eq-div-mul x 2 (2 ^ k) ∙ ap (λ t. x / t) (omega (arith, pow-suc 2 k)) in
    let mask : (2 ^ suc w - 2 ^ suc k) / 2 ≡ 2 ^ w - 2 ^ k =
      omega (arith, pow-suc 2 w, pow-suc 2 k) in
    let even : (2 ^ suc w - 2 ^ suc k) % 2 ≡ 0 = omega (arith, pow-suc 2 w, pow-suc 2 k) in
    omega (
      arith,
      bit_and-halves x (2 ^ suc w - 2 ^ suc k),
      ap (λ m. bit_and (x / 2) m) mask,
      even,
      bit_and-high w k (x / 2) (omega arith) (omega (arith, pow-suc 2 w)),
      ap (λ t. t * 2 ^ k) quotient,
      ap (λ t. y * t) (pow-suc 2 k),
    )
