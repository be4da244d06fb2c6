-- ===== src/Paging/Bits.antt =====
-- Flags as the digits of a number.
use nyaux_kc.Base.{ℕ, ◌*◌, ◌^◌, ◌≤◌, ◌≡◌, refl, Bool, true, false, ◌==◌, arith}
use nyaux_kc.Paging.{bit}

abbrev pub num : Bool → ℕ
num true = 1
num false = 0

pub num-le : (b : Bool) → num b ≤ 1
num-le true = omega arith
num-le false = omega arith

pub num_test : (b : Bool) → (num b == 1) ≡ b
num_test true = refl
num_test false = refl

pub bit-num : (k : ℕ) (b : Bool) → bit k b ≡ 2 ^ k * num b
bit-num k true = omega arith
bit-num k false = omega arith
