-- ===== src/Memory/Align.antt =====
-- `align_up` and `align_down` (kernel/src/main.rs) on 64-bit words, and the page size of
-- kernel/src/arch/x86_64/mod.rs.
use Prim.Native.Nat.{bit_and}
use mathlib.Core.Path.{ap, ap₂}
use native.Mathlib.Nat.{one-le-pow, mul-mod_left}
use nyaux_kc.Base.{ℕ, ◌+◌, ◌-◌, ◌*◌, ◌/◌, ◌%◌, ◌^◌, ◌≤◌, ◌<◌, ◌≡◌, arith, ◌∙◌}
use nyaux_kc.Base.Masks.{bit_and-high}

abbrev pub page_size : ℕ
page_size = 4096

-- `!m` on 64 bits.
abbrev pub complement : ℕ → ℕ
complement m = 2 ^ 64 - 1 - m

unfoldable pub align_down : ℕ → ℕ → ℕ
align_down value alignment = bit_and value (complement (alignment - 1))

unfoldable pub align_up : ℕ → ℕ → ℕ
align_up value alignment = bit_and ((value + alignment - 1) % 2 ^ 64) (complement (alignment - 1))

module _ (k x : ℕ) (fits : k ≤ 64) where
  -- For a power of two `align_down` clears the low bits of a 64-bit word.
  pub align_down-pow : x < 2 ^ 64 → align_down x (2 ^ k) ≡ x / 2 ^ k * 2 ^ k
  unfolding align_down
  align_down-pow small =
      ap (λ m. bit_and x m) (omega (arith, one-le-pow k 2)) ∙ bit_and-high 64 k x fits small

  pub align_up-pow : x + 2 ^ k ≤ 2 ^ 64 → align_up x (2 ^ k) ≡ (x + 2 ^ k - 1) / 2 ^ k * 2 ^ k
  unfolding align_up
  align_up-pow small =
      let whole : (x + 2 ^ k - 1) % 2 ^ 64 ≡ x + 2 ^ k - 1 = omega (arith, one-le-pow k 2) in
      ap₂ bit_and whole (omega (arith, one-le-pow k 2))
      ∙ bit_and-high 64 k (x + 2 ^ k - 1) fits (omega (arith, one-le-pow k 2))

-- `align_up` to a power of two yields the least multiple that is not below the value, wherever the
-- sum does not overflow, and `align_down` the greatest that is not above it.
pub align_bounds :
    (k x : ℕ)
    → k ≤ 64
    → x + 2 ^ k ≤ 2 ^ 64
    → (x ≤ align_up x (2 ^ k))
      × (align_up x (2 ^ k) < x + 2 ^ k)
      × (align_up x (2 ^ k) % 2 ^ k ≡ 0)
      × (align_down x (2 ^ k) ≤ x)
      × (x < align_down x (2 ^ k) + 2 ^ k)
      × (align_down x (2 ^ k) % 2 ^ k ≡ 0)
align_bounds k x fits small =
    let up = align_up-pow k x fits small in
    let down = align_down-pow k x fits (omega (arith, one-le-pow k 2)) in
    rw (up, down)
      (
        grind (arith, one-le-pow k 2),
        grind (arith, one-le-pow k 2),
        mul-mod_left _ _,
        grind (arith, one-le-pow k 2),
        grind (arith, one-le-pow k 2),
        mul-mod_left _ _,
      )

-- To pages.
pub align_up_page :
    (x : ℕ) → x + page_size ≤ 2 ^ 64 → align_up x page_size ≡ (x + 4095) / 4096 * 4096
align_up_page x small = omega (arith, align_up-pow 12 x (omega arith) small)
