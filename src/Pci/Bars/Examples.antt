-- ===== src/Pci/Bars/Examples.antt =====
-- A memory register of 64 bits that holds 0x3000.
use nyaux_kc.Base.{◌≡◌, refl, some, none, ◌==◌, if◌then◌else◌, arith, ℕ, ◌+◌, ◌*◌, ◌<◌}
use nyaux_kc.Memory.Regions.Examples.{two, two-Ascending}
use nyaux_kc.Pci.{PciInfo, Bytes, pci_read_dword}
use nyaux_kc.Pci.Bars.{bar_base, bar_dword, pci_map_bar}
use nyaux_kc.Pci.Bars.Covers.{Covers, bar_register, bar_address, is_ports, pci_map_bar-Covers}
use nyaux_kc.Pci.Access.{IsRegister}

abbrev from_zero : PciInfo
from_zero = record { root_bus = 0; seg = 0; ecam_base_addr = 0 }

abbrev one_bar : Bytes
one_bar a = if a == 0x10 then 4 else if a == 0x11 then 0x30 else 0

one_bar_base : bar_base from_zero one_bar (0, 0, 0) 0 0x234 ≡ 0x3234
unfolding bar_base bar_dword pci_read_dword
one_bar_base = refl

first-IsRegister : (n : ℕ) → n < 6 → IsRegister from_zero 0 0 0 (0x10 + 4 * n)
first-IsRegister n few = record {
  from_root = omega arith;
  bus_byte = omega arith;
  slot_bits = omega arith;
  func_bits = omega arith;
  in_space = omega arith;
  aligned = omega arith;
}

pci_map_bar-Covers_example :
    if is_ports (bar_register from_zero one_bar 0 0 0 0)
    then pci_map_bar from_zero one_bar (0, 0, 0) 0 0x234 100 two ≡ some (none, two)
    else Covers two
        (bar_address
            (bar_register from_zero one_bar 0 0 0 0)
            (bar_register from_zero one_bar 0 0 0 1)
          + 0x234)
        100
        (pci_map_bar from_zero one_bar (0, 0, 0) 0 0x234 100 two)
pci_map_bar-Covers_example =
    pci_map_bar-Covers from_zero one_bar 0 0 0 0 0x234 100 two (omega arith)
      (first-IsRegister 0 (omega arith)) (first-IsRegister 1 (omega arith)) two-Ascending
      (omega arith) (omega arith)
