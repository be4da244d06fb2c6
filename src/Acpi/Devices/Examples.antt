-- ===== src/Acpi/Devices/Examples.antt =====
-- One device of bus 0, and an unused box.
use nyaux_kc.Base.{◌≡◌, refl, ◌==◌, if◌then◌else◌, arith, some, none, [], ◌∷◌}
use nyaux_kc.Pci.{PciInfo, pci_read_dword}
use nyaux_kc.Pci.Access.{same_register}
use nyaux_kc.Acpi.Devices.{
  PciAddress, pci_address, Devices, uacpi_kernel_pci_read32, uacpi_kernel_pci_write32,
}
use nyaux_kc.Acpi.Devices.Registers.{IsAt, uacpi_kernel_pci_read32-uacpi_kernel_pci_write32}

abbrev from_zero : PciInfo
from_zero = record { root_bus = 0; seg = 0; ecam_base_addr = 0 }

abbrev bridge : PciAddress
bridge = record { segment = 0; bus = 0; device = 2; function = 1 }

abbrev machine : Devices (Unit {0})
machine = record {
  boxes = λ p. if p == 0x5000 then some (pci_address bridge) else none;
  fresh = 0x6000 ∷ [];
  space = λ p. 255;
  io = tt;
}

bridge-IsRegister : IsAt from_zero bridge 0x18
bridge-IsRegister = record {
  from_root = omega arith;
  bus_byte = omega arith;
  slot_bits = omega arith;
  func_bits = omega arith;
  in_space = omega arith;
  aligned = refl;
}

uacpi_kernel_pci_read32-uacpi_kernel_pci_write32_example :
    (t : Devices (Unit {0})) × (uacpi_kernel_pci_write32 from_zero 0x5000 0x18 77 machine
      ≡ some (tt, t))
    × (uacpi_kernel_pci_read32 from_zero 0x5000 0x18 t
        ≡ some (
          if same_register 0 2 1 0x18 0 2 1 0x18
              then 77
              else pci_read_dword from_zero machine.space 0 2 1 0x18,
          t,
        ))
uacpi_kernel_pci_read32-uacpi_kernel_pci_write32_example =
    uacpi_kernel_pci_read32-uacpi_kernel_pci_write32 from_zero (omega arith) 0x5000 0x5000 0x18 0x18
      77 bridge bridge machine refl refl bridge-IsRegister bridge-IsRegister (omega arith)
