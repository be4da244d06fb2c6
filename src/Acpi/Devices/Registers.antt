-- ===== src/Acpi/Devices/Registers.antt =====
-- Reads after writes through handles (kernel/src/uacpi/mod.rs).
use nyaux_kc.Base.{
  ℕ, ◌+◌, ◌%◌, ◌^◌, ◌≤◌, ◌<◌, ◌≡◌, ◌∙◌, ap, refl, some, if◌then◌else◌, ◌>>=◌, arith,
}
use nyaux_kc.Pci.{PciInfo, pci_read_dword, pci_write_dword}
use nyaux_kc.Pci.Access.{IsRegister, same_register, pci_read_dword-pci_write_dword}
use nyaux_kc.Acpi.Devices.{
  PciAddress, pci_address, Devices, uacpi_kernel_pci_read32, uacpi_kernel_pci_write32,
}

abbrev pub IsAt : PciInfo → PciAddress → (offset : ℕ) → Type 0
IsAt info a offset = IsRegister info a.bus a.device a.function offset

module _ {Io : Type 0} (info : PciInfo) where
  read32_run :
      (handle offset : ℕ) (a : PciAddress) (s : Devices Io)
      → s.boxes handle ≡ some (pci_address a)
      → offset < 2 ^ 16
      → uacpi_kernel_pci_read32 info handle offset s
        ≡ some (pci_read_dword info s.space a.bus a.device a.function offset, s)
  unfolding uacpi_kernel_pci_read32
  read32_run handle offset a s held small =
      let word : offset % 2 ^ 16 ≡ offset = omega arith in
      rw (uacpi_kernel_pci_read32, ◌>>=◌, held, word) refl

  write32_run :
      (handle offset v : ℕ) (a : PciAddress) (s : Devices Io)
      → s.boxes handle ≡ some (pci_address a)
      → offset < 2 ^ 16
      → uacpi_kernel_pci_write32 info handle offset v s
        ≡ some (
          tt,
          record s { space = pci_write_dword info s.space a.bus a.device a.function offset v },
        )
  unfolding uacpi_kernel_pci_write32
  write32_run handle offset v a s held small =
      let word : offset % 2 ^ 16 ≡ offset = omega arith in
      rw (uacpi_kernel_pci_write32, ◌>>=◌, held, word) refl

  -- Through two open handles, of one device or of two, on aligned registers of buses from the root
  -- bus on, with the configuration space below 2 ^ 64: after a doubleword is written through the
  -- first, the second reads it in the same register, and what it read before in any other.
  pub uacpi_kernel_pci_read32-uacpi_kernel_pci_write32 :
      info.ecam_base_addr + 2 ^ 28 ≤ 2 ^ 64
      → (h h' o o' v : ℕ) (a a' : PciAddress) (s : Devices Io) → s.boxes h ≡ some (pci_address a)
      → s.boxes h' ≡ some (pci_address a')
      → IsAt info a o
      → IsAt info a' o'
      → v < 2 ^ 32
      → (t : Devices Io) × (uacpi_kernel_pci_write32 info h o v s ≡ some (tt, t))
        × (uacpi_kernel_pci_read32 info h' o' t
            ≡ some (
              if same_register a.bus a.device a.function o a'.bus a'.device a'.function o'
                  then v
                  else pci_read_dword info s.space a'.bus a'.device a'.function o',
              t,
            ))
  uacpi_kernel_pci_read32-uacpi_kernel_pci_write32 room h h' o o' v a a' s held held' r r' small =
      let t = record s { space = pci_write_dword info s.space a.bus a.device a.function o v } in
      (
        t,
        write32_run h o v a s held (omega (arith, r.in_space)),
        read32_run h' o' a' t held' (omega (arith, r'.in_space))
            ∙ ap (λ x. some (x, t))
                (pci_read_dword-pci_write_dword info room a.bus a.device a.function o a'.bus
                  a'.device a'.function o' r r' s.space v small),
      )
