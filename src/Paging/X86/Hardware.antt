-- ===== src/Paging/X86/Hardware.antt =====
-- Four-level paging as the processor reads it, beside kernel/src/arch/x86_64/pt/mod.rs: written from
-- the entries' layout, without the kernel's own functions.
use nyaux_kc.Base.{ℕ, zero, suc, ◌*◌, ◌/◌, ◌%◌, ◌^◌, ◌≡◌, refl, arith, false}
use nyaux_kc.Paging.{test_bit}
use nyaux_kc.Paging.X86.{Pt, shift, index, extract_phys_from_pte}

-- The lowest bit of an address that selects an entry, by level, from the lowest table up.
abbrev pub level_shift : ℕ → ℕ
level_shift zero = 12
level_shift (suc zero) = 21
level_shift (suc (suc zero)) = 30
level_shift (suc (suc (suc zero))) = 39
level_shift (suc (suc (suc (suc k)))) = 0

abbrev pub level_index : (k virt : ℕ) → ℕ
level_index k virt = (virt / 2 ^ level_shift k) % 512

-- The address in an entry: its bits 12 to 51.
abbrev pub frame : ℕ → ℕ
frame e = e % 2 ^ 52 / 2 ^ 12 * 2 ^ 12

-- The rights and attributes in an entry of a lowest table.
abbrev pub rights : ℕ → Pt
rights e = record {
  present = test_bit 0 e;
  write = test_bit 1 e;
  user = test_bit 2 e;
  nexec = test_bit 63 e;
  global = test_bit 8 e;
  gigapage = false;
  megapage = false;
  pwt = test_bit 3 e;
  pcd = test_bit 4 e;
  pat = test_bit 7 e;
}

-- The kernel's shifts and addresses are those of the processor.
shift_same : (k : ℕ) → shift (suc k) ≡ level_shift k
shift_same zero = refl
shift_same (suc zero) = refl
shift_same (suc (suc zero)) = refl
shift_same (suc (suc (suc zero))) = refl
shift_same (suc (suc (suc (suc k)))) = ground arith

pub index_same : (k virt : ℕ) → index (suc k) virt ≡ level_index k virt
index_same k virt = rw (shift_same k) refl

pub frame_same : (e : ℕ) → extract_phys_from_pte e ≡ frame e
frame_same e = omega arith
