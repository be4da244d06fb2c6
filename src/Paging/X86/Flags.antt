-- ===== src/Paging/X86/Flags.antt =====
-- Lowest-level page table entries and their flags (kernel/src/arch/x86_64/pt/mod.rs).
use nyaux_kc.Base.{ℕ, ◌+◌, ◌*◌, ◌/◌, ◌%◌, ◌^◌, ◌<◌, ◌≡◌, false, arith, ◌∙◌, sym}
use nyaux_kc.Paging.Bits.{num, num-le, num_test, bit-num}
use nyaux_kc.Paging.X86.{Pt, new, build_permissions, extract_phys_from_pte}

abbrev packed : ℕ → Pt → ℕ
packed y f =
    y * 4096
    + (num f.present
        + 2 * num f.write
        + 4 * num f.user
        + 8 * num f.pwt
        + 16 * num f.pcd
        + 128 * num f.pat
        + 256 * num f.global
        + 2 ^ 63 * num f.nexec)

module _ (y : ℕ) (f : Pt) (small : y < 2 ^ 40) where
  flag_bits :
      (packed y f / 2 ^ 0 % 2 ≡ num f.present)
      × (packed y f / 2 ^ 1 % 2 ≡ num f.write)
      × (packed y f / 2 ^ 2 % 2 ≡ num f.user)
      × (packed y f / 2 ^ 3 % 2 ≡ num f.pwt)
      × (packed y f / 2 ^ 4 % 2 ≡ num f.pcd)
      × (packed y f / 2 ^ 7 % 2 ≡ num f.pat)
      × (packed y f / 2 ^ 8 % 2 ≡ num f.global)
      × (packed y f / 2 ^ 63 % 2 ≡ num f.nexec)
  flag_bits = omega (
    arith,
    num-le f.present,
    num-le f.write,
    num-le f.user,
    num-le f.pwt,
    num-le f.pcd,
    num-le f.pat,
    num-le f.global,
    num-le f.nexec,
  )

  packed_page : extract_phys_from_pte (packed y f) ≡ y * 4096
  packed_page = omega (
    arith,
    num-le f.present,
    num-le f.write,
    num-le f.user,
    num-le f.pwt,
    num-le f.pcd,
    num-le f.pat,
    num-le f.global,
    num-le f.nexec,
  )

  new-packed : f.gigapage ≡ false → f.megapage ≡ false → new (packed y f) 1 ≡ f
  new-packed no_giga no_mega =
      let b = flag_bits in
      rw
        (
          b.0,
          b.1,
          b.2,
          b.3,
          b.4,
          b.5,
          b.6,
          b.7,
          num_test f.present,
          num_test f.write,
          num_test f.user,
          num_test f.pwt,
          num_test f.pcd,
          num_test f.pat,
          num_test f.global,
          num_test f.nexec,
        )
        (λ i. record f { gigapage = sym no_giga i; megapage = sym no_mega i })

entry-packed :
    (phys : ℕ) (f : Pt)
    → extract_phys_from_pte phys + build_permissions f 1 ≡ packed (phys / 4096 % 2 ^ 40) f
entry-packed phys f = omega (
  arith,
  bit-num 0 f.present,
  bit-num 1 f.write,
  bit-num 2 f.user,
  bit-num 3 f.pwt,
  bit-num 4 f.pcd,
  bit-num 7 f.pat,
  bit-num 8 f.global,
  bit-num 63 f.nexec,
)

-- The entry that `map4kib` writes yields the page and the flags, for a page below 2 ^ 52 and flags
-- without those of large pages.
pub map4kib_entry_fields :
    (phys : ℕ) (flags : Pt)
    → phys < 2 ^ 52
    → flags.gigapage ≡ false
    → flags.megapage ≡ false
    → (extract_phys_from_pte (extract_phys_from_pte phys + build_permissions flags 1)
        ≡ phys / 4096 * 4096)
      × (new (extract_phys_from_pte phys + build_permissions flags 1) 1 ≡ flags)
map4kib_entry_fields phys f small no_giga no_mega =
    let y = phys / 4096 % 2 ^ 40 in
    rw (entry-packed phys f)
      (packed_page y f (omega arith) ∙ omega arith, new-packed y f (omega arith) no_giga no_mega)
