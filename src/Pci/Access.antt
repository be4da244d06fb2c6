-- ===== src/Pci/Access.antt =====
-- Reads after writes of the configuration space (kernel/src/pci/mod.rs).
use nyaux_kc.Base.{
  ℕ, ◌+◌, ◌-◌, ◌*◌, ◌/◌, ◌%◌, ◌^◌, ◌≤◌, ◌<◌, ◌≡◌, ◌⊎◌, inl, inr, Bool, true, false, ◌&&◌, ◌==◌,
  if◌then◌else◌, arith, dec_lt, Bool-cases, ne→==, ==_self, ap, ◌∙◌,
}
use nyaux_kc.Pci.{PciInfo, Bytes, put, config_address, dword_at, pci_read_dword, pci_write_dword}

-- A register of a function that the information covers: an aligned doubleword.
pub record IsRegister (info : PciInfo) (bus slot func offset : ℕ) : Type 0 where
  pub from_root : info.root_bus ≤ bus
  pub bus_byte : bus < 256
  pub slot_bits : slot < 32
  pub func_bits : func < 8
  pub in_space : offset < 4096
  pub aligned : offset % 4 ≡ 0

-- The part of a configuration address above the base.
abbrev pub above_base : PciInfo → (bus slot func offset : ℕ) → ℕ
above_base info bus slot func offset =
    (bus - info.root_bus) * 2 ^ 20 + slot * 2 ^ 15 + func * 2 ^ 12 + offset

module _ (info : PciInfo) (room : info.ecam_base_addr + 2 ^ 28 ≤ 2 ^ 64) where
  pub address_above_base :
      (bus slot func offset : ℕ)
      → IsRegister info bus slot func offset
      → config_address info bus slot func offset
        ≡ info.ecam_base_addr + above_base info bus slot func offset
  address_above_base bus slot func offset r =
      omega (arith, r.from_root, r.bus_byte, r.slot_bits, r.func_bits, r.in_space)

  above_base_inj :
      (b s f o b' s' f' o' : ℕ)
      → IsRegister info b s f o
      → IsRegister info b' s' f' o'
      → above_base info b s f o ≡ above_base info b' s' f' o'
      → (b ≡ b') × (s ≡ s') × (f ≡ f') × (o ≡ o')
  above_base_inj b s f o b' s' f' o' r r' e = omega (
    arith, r.from_root, r'.from_root, r.slot_bits, r.func_bits, r.in_space, r'.slot_bits,
    r'.func_bits, r'.in_space,
  )

-- The bytes after a write of a doubleword.
abbrev written : Bytes → ℕ → ℕ → Bytes
written m a v =
    put (put (put (put m a (v % 2 ^ 8)) (a + 1) (v / 2 ^ 8 % 2 ^ 8)) (a + 2) (v / 2 ^ 16 % 2 ^ 8))
      (a + 3) (v / 2 ^ 24 % 2 ^ 8)

-- The byte at `c`, where it is not written.
written_other : (m : Bytes) (a v c : ℕ) → (c < a) ⊎ (a + 4 ≤ c) → written m a v c ≡ m c
written_other m a v c far = rw (
  ne→== c (a + 3) (omega arith),
  ne→== c (a + 2) (omega arith),
  ne→== c (a + 1) (omega arith),
  ne→== c a (omega arith),
)

-- A doubleword that is written, read at an address that is the same or does not overlap.
dword_at_same : (m : Bytes) (a v : ℕ) → v < 2 ^ 32 → dword_at (written m a v) a ≡ v
dword_at_same m a v small =
    rw
      (
        ne→== a (a + 3) (omega arith),
        ne→== a (a + 2) (omega arith),
        ne→== a (a + 1) (omega arith),
        ==_self a,
        ne→== (a + 1) (a + 3) (omega arith),
        ne→== (a + 1) (a + 2) (omega arith),
        ==_self (a + 1),
        ne→== (a + 2) (a + 3) (omega arith),
        ==_self (a + 2),
        ==_self (a + 3),
      )
      (omega arith)

dword_at_apart :
    (m : Bytes) (a b v : ℕ) → (a + 4 ≤ b) ⊎ (b + 4 ≤ a) → dword_at (written m a v) b ≡ dword_at m b
dword_at_apart m a b v far = rw (
  written_other m a v b (ground arith),
  written_other m a v (b + 1) (ground arith),
  written_other m a v (b + 2) (ground arith),
  written_other m a v (b + 3) (ground arith),
)

abbrev pub same_register : (bus slot func offset bus' slot' func' offset' : ℕ) → Bool
same_register b s f o b' s' f' o' = ((b == b' && s == s') && f == f') && o == o'

module _ (info : PciInfo) (room : info.ecam_base_addr + 2 ^ 28 ≤ 2 ^ 64) (b s f o b' s' f' o' : ℕ)
    (r : IsRegister info b s f o) (r' : IsRegister info b' s' f' o') where
  -- Registers that differ do not overlap.
  apart_addresses :
      same_register b s f o b' s' f' o' ≡ false
      → (config_address info b s f o + 4 ≤ config_address info b' s' f' o')
        ⊎ (config_address info b' s' f' o' + 4 ≤ config_address info b s f o)
  apart_addresses other = elim (dec_lt (above_base info b s f o) (above_base info b' s' f' o')) [
    | yes below ↦ inl (
        omega (
          arith,
          address_above_base info room b s f o r,
          address_above_base info room b' s' f' o' r',
          r.aligned,
          r'.aligned,
        ))
    | no above ↦ elim (dec_lt (above_base info b' s' f' o') (above_base info b s f o)) [
      | yes below ↦ inr (
          omega (
            arith,
            address_above_base info room b s f o r,
            address_above_base info room b' s' f' o' r',
            r.aligned,
            r'.aligned,
          ))
      | no not_below ↦
          let all = above_base_inj info room b s f o b' s' f' o' r r' (omega arith) in
          let bad : same_register b s f o b' s' f' o' ≡ true =
            rw (all.0, all.1, all.2, all.3, ==_self b', ==_self s', ==_self f', ==_self o') in
          cc (bad, other)
    ]
  ]

  same_parts : same_register b s f o b' s' f' o' ≡ true → (b' ≡ b) × (s' ≡ s) × (f' ≡ f) × (o' ≡ o)
  same_parts here = ground arith

  -- For aligned registers of buses from the root bus on, a doubleword that is written to a register is
  -- what is read there, and every other register of
  -- every function reads as before; where the space of the information ends below 2 ^ 64.
  pub pci_read_dword-pci_write_dword :
      (m : Bytes) (v : ℕ)
      → v < 2 ^ 32
      → pci_read_dword info (pci_write_dword info m b s f o v) b' s' f' o'
        ≡ (if same_register b s f o b' s' f' o' then v else pci_read_dword info m b' s' f' o')
  unfolding pci_read_dword pci_write_dword
  pci_read_dword-pci_write_dword m v small = elim (Bool-cases (same_register b s f o b' s' f' o')) [
    | inl here ↦
        let all : (b' ≡ b) × (s' ≡ s) × (f' ≡ f) × (o' ≡ o) = same_parts here in
        let address : config_address info b' s' f' o' ≡ config_address info b s f o =
          cc (all.0, all.1, all.2, all.3) in
        rw here (
          ap (dword_at (written m (config_address info b s f o) v)) address
          ∙ dword_at_same m (config_address info b s f o) v small)
    | inr other ↦ rw other (dword_at_apart m _ _ v (apart_addresses other))
  ]
