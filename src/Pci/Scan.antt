-- ===== src/Pci/Scan.antt =====
-- The bus scan (`pci_device_print` and `pci_scan` of kernel/src/pci/mod.rs): depth first through
-- the bridges. `none` stands for fuel that has run out. `pci_device_print` without its output.
mod Examples
pub mod Pushed
pub mod Seen
use nyaux_kc.Base.{
  ℕ, zero, suc, ◌+◌, ◌/◌, ◌%◌, ◌^◌, Bool, true, false, ◌&&◌, List, [], ◌∷◌, ◌++◌, Option, none,
  some, ◌==◌,
}
use nyaux_kc.Pci.{PciInfo, Bytes, pci_read_word, pci_read_dword}

-- Bus, slot and function.
abbrev pub Device : Type 0
Device = ℕ × ℕ × ℕ

-- A run that pushes devices.
abbrev pub Scan : Type 0
Scan = List Device → Option (List Device)

abbrev pub before : Scan → Scan → Scan
before first next found = elim (first found) [ none ↦ none | some found' ↦ next found' ]

module _ (info : PciInfo) (m : Bytes) where
  -- Class, subclass and programming interface.
  pub pci_device_print : (bus slot func : ℕ) → ℕ × ℕ × ℕ
  pci_device_print bus slot func =
      let be = pci_read_dword info m bus slot func 0x8 in
      (be / 2 ^ 24 % 256, be / 2 ^ 16 % 256, be / 2 ^ 8 % 256)

  pub absent : (bus slot func : ℕ) → Bool
  absent bus slot func = pci_read_word info m bus slot func 0x0 == 0xFFFF

  -- Bit 7 of the header type.
  pub has_functions : (bus slot : ℕ) → Bool
  has_functions bus slot = (pci_read_dword info m bus slot 0 0xC / 2 ^ 16 % 256) / 2 ^ 7 % 2 == 1

  pub is_bridge : (bus slot func : ℕ) → Bool
  unfolding pci_device_print
  is_bridge bus slot func = let c = pci_device_print bus slot func in c.0 == 0x6 && c.1 == 0x4

  pub secondary_bus : (bus slot func : ℕ) → ℕ
  secondary_bus bus slot func = pci_read_word info m bus slot func 0x18 / 2 ^ 8 % 2 ^ 8

  module _ (rec : ℕ → Scan) where
    pub scan_function : (bus slot func : ℕ) → Scan
    scan_function bus slot func found =
        let pushed = found ++ (bus, slot, func) ∷ [] in
        elim (is_bridge bus slot func) [
          | true ↦ rec (secondary_bus bus slot func) pushed
          | false ↦ some pushed
        ]

    -- The functions `j`, `j + 1`, … of which `k` are left.
    pub scan_functions : (bus slot k j : ℕ) → Scan
    scan_functions bus slot zero j = some
    scan_functions bus slot (suc k) j =
        before
          (λ found. elim (absent bus slot j) [
            | true ↦ some found
            | false ↦ scan_function bus slot j found
          ])
          (scan_functions bus slot k (j + 1))

    pub scan_slot : (bus slot : ℕ) → Scan
    scan_slot bus slot found = elim (absent bus slot 0) [
      | true ↦ some found
      | false ↦ elim (has_functions bus slot) [
        | true ↦ scan_functions bus slot 8 0 found
        | false ↦ scan_function bus slot 0 found
      ]
    ]

    -- The slots `i`, `i + 1`, … of which `k` are left.
    pub scan_slots : (bus k i : ℕ) → Scan
    scan_slots bus zero i = some
    scan_slots bus (suc k) i = before (scan_slot bus i) (scan_slots bus k (i + 1))

  pub pci_scan : (fuel bus : ℕ) → Scan
  pci_scan zero bus found = none
  pci_scan (suc fuel) bus found = scan_slots (pci_scan fuel) bus 32 0 found
