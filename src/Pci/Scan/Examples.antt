-- ===== src/Pci/Scan/Examples.antt =====
-- A bridge on bus 0 and a device behind it, on bus 1.
use mathlib.Core.List.{Memᴰ}
use nyaux_kc.Base.{
  ℕ, ◌+◌, ◌<◌, ◌≡◌, refl, true, some, List, [], ◌∷◌, ◌++◌, ◌==◌, if◌then◌else◌, arith, ◌≤◌,
}
use nyaux_kc.Pci.{PciInfo, Bytes, pci_read_dword, pci_read_word}
use nyaux_kc.Pci.Scan.{
  Device, is_bridge, secondary_bus, pci_scan, pci_device_print, scan_slots, scan_slot,
  scan_functions, scan_function, absent, has_functions,
}
use nyaux_kc.Pci.Access.{above_base}
use nyaux_kc.Pci.Scan.Seen.{IsShown, Seen, shown_byte, leads_on, bus_behind, pci_scan-Seen}

abbrev from_zero : PciInfo
from_zero = record { root_bus = 0; seg = 0; ecam_base_addr = 0 }

abbrev bridge_and_device : Bytes
bridge_and_device a =
    if a == 0x0
    then 0x86
    else if a == 0xA
    then 4
    else if a == 0xB
    then 6
    else if a == 0xE
    then 1
    else if a == 0x19
    then 1
    else if a == 0x100000
    then 0x86
    else 255

bytes_small : (a : ℕ) → bridge_and_device a < 256
bytes_small a = ground arith

only_six : (a : ℕ) → bridge_and_device a ≡ 6 → a ≡ 0xB
only_six a h = ground arith

bridge_leads :
    (b s f : ℕ)
    → b < 256
    → 0 ≤ b
    → IsShown from_zero bridge_and_device b s f
    → leads_on from_zero bridge_and_device b s f ≡ true
    → b < bus_behind from_zero bridge_and_device b s f
bridge_leads b s f lo hi shown h =
    let class : shown_byte from_zero bridge_and_device b s f 0xb ≡ 6 = ground arith in
    let place = only_six (0 + above_base from_zero b s f 0xb) class in
    let all : (b ≡ 0) × (s ≡ 0) × (f ≡ 0) = omega (arith, place, shown.slots, shown.functions) in
    let leads : bus_behind from_zero bridge_and_device 0 0 0 ≡ 1 = refl in
    rw (all.0, all.1, all.2, leads) (omega arith)

pci_scan-Seen_example :
    (new : List Device) × (pci_scan from_zero bridge_and_device 256 0 [] ≡ some ([] ++ new))
    × ((d : Device) → Memᴰ d new → Seen from_zero bridge_and_device 0 d)
    × ((d : Device) → Seen from_zero bridge_and_device 0 d → Memᴰ d new)
pci_scan-Seen_example =
    pci_scan-Seen from_zero bridge_and_device (omega arith) bytes_small bridge_leads 256 0 []
      (omega arith) (omega arith) (omega arith)

both_found : pci_scan from_zero bridge_and_device 4 0 [] ≡ some ((0, 0, 0) ∷ (1, 0, 0) ∷ [])
unfolding pci_scan scan_slots scan_slot scan_functions scan_function absent has_functions is_bridge
    secondary_bus pci_device_print pci_read_word pci_read_dword
both_found = refl
