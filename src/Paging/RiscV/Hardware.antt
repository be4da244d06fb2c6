-- ===== src/Paging/RiscV/Hardware.antt =====
-- Sv39, Sv48 and Sv57 as the processor reads them, beside kernel/src/arch/risc_v/pt/mod.rs: written
-- from the entries' layout, without the kernel's own functions.
use nyaux_kc.Base.{
  ℕ, zero, suc, ◌+◌, ◌*◌, ◌/◌, ◌%◌, ◌^◌, ◌≡◌, refl, ap, arith, Bool, true, false, not, ◌&&◌, ◌||◌,
}
use nyaux_kc.Paging.{test_bit}
use nyaux_kc.Paging.RiscV.{Pt, is_leaf, new, index, extract_phys_from_pte}

-- The lowest bit of an address that selects an entry, by level, from the lowest table up.
abbrev pub level_shift : ℕ → ℕ
level_shift zero = 12
level_shift (suc k) = 9 + level_shift k

abbrev pub level_index : (k virt : ℕ) → ℕ
level_index k virt = (virt / 2 ^ level_shift k) % 512

-- The address in an entry: its bits 10 to 53, in pages.
abbrev pub frame : ℕ → ℕ
frame e = e % 2 ^ 54 / 2 ^ 10 * 2 ^ 12

-- An entry that may be written but not read is reserved.
abbrev pub ordinary : ℕ → Bool
ordinary e = not (test_bit 2 e) || test_bit 1 e

-- A page fault otherwise.
abbrev pub valid : ℕ → Bool
valid e = test_bit 0 e && ordinary e

-- Of a page: it may be read or executed.
abbrev pub leaf : ℕ → Bool
leaf e = valid e && (test_bit 1 e || test_bit 3 e)

abbrev pub rights : ℕ → Pt
rights e = record {
  valid = test_bit 0 e;
  read = test_bit 1 e;
  write = test_bit 2 e;
  execute = test_bit 3 e;
  user = test_bit 4 e;
  global = test_bit 5 e;
}

-- The kernel's shifts, addresses and leaves are those of the processor, reserved entries aside.
shift_same : (k : ℕ) → 12 + k * 9 ≡ level_shift k
shift_same zero = refl
shift_same (suc k) = omega (arith, shift_same k)

pub index_same : (k virt : ℕ) → index k virt ≡ level_index k virt
index_same k virt = ap (λ n. virt / 2 ^ n % 512) (shift_same k)

pub frame_same : (e : ℕ) → extract_phys_from_pte e ≡ frame e
frame_same e = omega arith

leaf_cases :
    (v r w x : Bool)
    → (not w || r) ≡ true
    → ((r || w || x) && v) ≡ ((v && (not w || r)) && (r || x))
leaf_cases false false false false h = refl
leaf_cases false false false true h = refl
leaf_cases false false true x h = cc h
leaf_cases false true false x h = refl
leaf_cases false true true x h = refl
leaf_cases true false false false h = refl
leaf_cases true false false true h = refl
leaf_cases true false true x h = cc h
leaf_cases true true false x h = refl
leaf_cases true true true x h = refl

pub leaf_same : (e : ℕ) → ordinary e ≡ true → is_leaf (new e) ≡ leaf e
leaf_same e plain = leaf_cases (test_bit 0 e) (test_bit 1 e) (test_bit 2 e) (test_bit 3 e) plain

and_left : (a b : Bool) → (a && b) ≡ true → a ≡ true
and_left true b h = refl
and_left false true h = h
and_left false false h = h

pub valid_of_leaf : (e : ℕ) → leaf e ≡ true → valid e ≡ true
valid_of_leaf e h = and_left (valid e) (test_bit 1 e || test_bit 3 e) h

pub first_bit : (e : ℕ) → valid e ≡ true → test_bit 0 e ≡ true
first_bit e h = and_left (test_bit 0 e) (ordinary e) h

pub no_first_bit : (e : ℕ) → ordinary e ≡ true → valid e ≡ false → test_bit 0 e ≡ false
no_first_bit e plain off = second (test_bit 0 e) (ordinary e) plain off
  where
    second : (a b : Bool) → b ≡ true → (a && b) ≡ false → a ≡ false
    second false b one off = refl
    second true b one off = cc (one, off)
