-- ===== src/Paging/RiscV/Flags.antt =====
-- Page table entries and their flags (kernel/src/arch/risc_v/pt/mod.rs).
use nyaux_kc.Base.{ℕ, ◌+◌, ◌*◌, ◌/◌, ◌%◌, ◌^◌, ◌<◌, ◌≡◌, true, false, arith}
use nyaux_kc.Paging.Bits.{num, num-le, num_test, bit-num}
use nyaux_kc.Paging.RiscV.{Pt, new, build_permissions, entry, extract_phys_from_pte, is_leaf}

abbrev packed : ℕ → Pt → ℕ
packed y f =
    y * 1024
    + (num f.valid
        + 2 * num f.read
        + 4 * num f.write
        + 8 * num f.execute
        + 16 * num f.user
        + 32 * num f.global)

module _ (phys : ℕ) (f : Pt) (small : phys < 2 ^ 56) where
  entry-packed : entry phys (build_permissions f) ≡ packed (phys / 4096) f
  entry-packed = omega (
    arith,
    bit-num 0 f.valid,
    bit-num 1 f.read,
    bit-num 2 f.write,
    bit-num 3 f.execute,
    bit-num 4 f.user,
    bit-num 5 f.global,
  )

module _ (y : ℕ) (f : Pt) where
  flag_bits :
      (packed y f / 2 ^ 0 % 2 ≡ num f.valid)
      × (packed y f / 2 ^ 1 % 2 ≡ num f.read)
      × (packed y f / 2 ^ 2 % 2 ≡ num f.write)
      × (packed y f / 2 ^ 3 % 2 ≡ num f.execute)
      × (packed y f / 2 ^ 4 % 2 ≡ num f.user)
      × (packed y f / 2 ^ 5 % 2 ≡ num f.global)
  flag_bits = omega (
    arith,
    num-le f.valid,
    num-le f.read,
    num-le f.write,
    num-le f.execute,
    num-le f.user,
    num-le f.global,
  )

  new-packed : new (packed y f) ≡ f
  new-packed =
      let b = flag_bits in
      rw (
        b.0,
        b.1,
        b.2,
        b.3,
        b.4,
        b.5,
        num_test f.valid,
        num_test f.read,
        num_test f.write,
        num_test f.execute,
        num_test f.user,
        num_test f.global,
      )

-- An entry yields the address and the flags that it was built from, for a page below 2 ^ 56.
pub entry_fields :
    (phys : ℕ) (flags : Pt)
    → phys < 2 ^ 56
    → (extract_phys_from_pte (entry phys (build_permissions flags)) ≡ phys / 4096 * 4096)
      × (new (entry phys (build_permissions flags)) ≡ flags)
entry_fields phys f small = rw (entry-packed phys f small) (
  omega (
    arith,
    num-le f.valid,
    num-le f.read,
    num-le f.write,
    num-le f.execute,
    num-le f.user,
    num-le f.global,
  ),
  new-packed (phys / 4096) f,
)

-- An entry for a table: valid, and no leaf.
pub table_entry :
    (q : ℕ)
    → q % 4096 ≡ 0
    → q < 2 ^ 56
    → ((new (entry q 1)).valid ≡ true)
      × (is_leaf (new (entry q 1)) ≡ false)
      × (extract_phys_from_pte (entry q 1) ≡ q)
table_entry q aligned small = (ground arith, ground arith, omega arith)
