-- ===== src/Pci/Names.antt =====
-- The names of vendors, classes and programming interfaces (kernel/src/pci/mod.rs): each `match` is
-- the list of its arms, of which the first that fits is taken.
mod Examples
pub mod Distinct
use Prim.Native.String.{String}
use nyaux_kc.Base.{
  ℕ, Bool, true, false, ◌&&◌, ◌||◌, not, List, [], ◌∷◌, Option, none, some, ◌==◌, if◌then◌else◌,
  ◌≡◌, refl, Bool-cases, inl, inr, ltb,
}

pub record Arm : Type 0 where
  pub class : ℕ
  pub subclass : ℕ
  pub prog_if : ℕ
  pub text : String

abbrev arm : ℕ → ℕ → ℕ → String → Arm
arm c s p t = record { class = c; subclass = s; prog_if = p; text = t }

abbrev pub fits : ℕ → ℕ → ℕ → Arm → Bool
fits c s p a = (a.class == c && a.subclass == s) && a.prog_if == p

pub first_arm : ℕ → ℕ → ℕ → List Arm → String
first_arm c s p [] = "Unknown"
first_arm c s p (a ∷ rest) =
    let later = first_arm c s p rest in if fits c s p a then a.text else later

pub vendor_arms : List Arm
vendor_arms =
    arm 0x8086 0 0 "Intel"
    ∷ arm 0x1234 0 0 "QEMU"
    ∷ arm 0x1022 0 0 "AMD"
    ∷ arm 0x10DE 0 0 "NVIDIA"
    ∷ arm 0x1AF4 0 0 "VirtIO"
    ∷ arm 0x1B36 0 0 "QEMU PCIE"
    ∷ []

-- On the id alone.
pub vendor_name : ℕ → String
unfolding first_arm vendor_arms
vendor_name id = first_arm id 0 0 vendor_arms

pub class_arms : List Arm
class_arms =
    arm 0x00 0x00 0 "Non-VGA-Compatible Unclassified Device"
    ∷ arm 0x00 0x01 0 "VGA-Compatible Unclassified Device"
    ∷ arm 0x01 0x00 0 "SCSI Bus Controller"
    ∷ arm 0x01 0x01 0 "IDE Controller"
    ∷ arm 0x01 0x02 0 "Floppy Disk Controller"
    ∷ arm 0x01 0x03 0 "IPI Bus Controller"
    ∷ arm 0x01 0x04 0 "RAID Controller"
    ∷ arm 0x01 0x05 0 "ATA Controller"
    ∷ arm 0x01 0x06 0 "Serial ATA Controller"
    ∷ arm 0x01 0x07 0 "Serial Attached SCSI Controller"
    ∷ arm 0x01 0x08 0 "Non-Volatile Memory Controller"
    ∷ arm 0x01 0x80 0 "Other Mass Storage Controller"
    ∷ arm 0x02 0x00 0 "Ethernet Controller"
    ∷ arm 0x02 0x01 0 "Token Ring Controller"
    ∷ arm 0x02 0x02 0 "FDDI Controller"
    ∷ arm 0x02 0x03 0 "ATM Controller"
    ∷ arm 0x02 0x04 0 "ISDN Controller"
    ∷ arm 0x02 0x05 0 "WorldFip Controller"
    ∷ arm 0x02 0x06 0 "PICMG 2.14 Multi Computing Controller"
    ∷ arm 0x02 0x07 0 "Infiniband Controller"
    ∷ arm 0x02 0x08 0 "Fabric Controller"
    ∷ arm 0x02 0x80 0 "Other Network Controller"
    ∷ arm 0x03 0x00 0 "VGA Compatible Controller"
    ∷ arm 0x03 0x01 0 "XGA Controller"
    ∷ arm 0x03 0x02 0 "3D Controller"
    ∷ arm 0x03 0x80 0 "Other Display Controller"
    ∷ arm 0x04 0x00 0 "Multimedia Video Controller"
    ∷ arm 0x04 0x01 0 "Multimedia Audio Controller"
    ∷ arm 0x04 0x02 0 "Computer Telephony Device"
    ∷ arm 0x04 0x03 0 "Audio Device"
    ∷ arm 0x04 0x80 0 "Other Multimedia Controller"
    ∷ arm 0x05 0x00 0 "RAM Controller"
    ∷ arm 0x05 0x01 0 "Flash Controller"
    ∷ arm 0x05 0x80 0 "Other Memory Controller"
    ∷ arm 0x06 0x00 0 "Host Bridge"
    ∷ arm 0x06 0x01 0 "ISA Bridge"
    ∷ arm 0x06 0x02 0 "EISA Bridge"
    ∷ arm 0x06 0x03 0 "MCA Bridge"
    ∷ arm 0x06 0x04 0 "PCI-to-PCI Bridge"
    ∷ arm 0x06 0x05 0 "PCMCIA Bridge"
    ∷ arm 0x06 0x06 0 "NuBus Bridge"
    ∷ arm 0x06 0x07 0 "CardBus Bridge"
    ∷ arm 0x06 0x08 0 "RACEway Bridge"
    ∷ arm 0x06 0x09 0 "PCI-to-PCI Bridge"
    ∷ arm 0x06 0x0A 0 "InfiniBand-to-PCI Host Bridge"
    ∷ arm 0x06 0x80 0 "Other Bridge"
    ∷ arm 0x07 0x00 0 "Serial Controller"
    ∷ arm 0x07 0x01 0 "Parallel Controller"
    ∷ arm 0x07 0x02 0 "Multiport Serial Controller"
    ∷ arm 0x07 0x03 0 "Modem"
    ∷ arm 0x07 0x04 0 "IEEE 488.1/2 (GPIB) Controller"
    ∷ arm 0x07 0x05 0 "Smart Card Controller"
    ∷ arm 0x07 0x80 0 "Other Simple Communication Controller"
    ∷ arm 0x08 0x00 0 "PIC"
    ∷ arm 0x08 0x01 0 "DMA Controller"
    ∷ arm 0x08 0x02 0 "Timer"
    ∷ arm 0x08 0x03 0 "RTC Controller"
    ∷ arm 0x08 0x04 0 "PCI Hot-Plug Controller"
    ∷ arm 0x08 0x05 0 "SD Host Controller"
    ∷ arm 0x08 0x06 0 "IOMMU"
    ∷ arm 0x08 0x80 0 "Other Base System Peripheral"
    ∷ arm 0x09 0x00 0 "Keyboard Controller"
    ∷ arm 0x09 0x01 0 "Digitizer Pen"
    ∷ arm 0x09 0x02 0 "Mouse Controller"
    ∷ arm 0x09 0x03 0 "Scanner Controller"
    ∷ arm 0x09 0x04 0 "Gameport Controller"
    ∷ arm 0x09 0x80 0 "Other Input Device Controller"
    ∷ arm 0x0A 0x00 0 "Generic Docking Station"
    ∷ arm 0x0A 0x80 0 "Other Docking Station"
    ∷ arm 0x0B 0x00 0 "386 Processor"
    ∷ arm 0x0B 0x01 0 "486 Processor"
    ∷ arm 0x0B 0x02 0 "Pentium Processor"
    ∷ arm 0x0B 0x03 0 "Pentium Pro Processor"
    ∷ arm 0x0B 0x10 0 "Alpha Processor"
    ∷ arm 0x0B 0x20 0 "PowerPC Processor"
    ∷ arm 0x0B 0x30 0 "MIPS Processor"
    ∷ arm 0x0B 0x40 0 "Co-Processor"
    ∷ arm 0x0B 0x80 0 "Other Processor"
    ∷ arm 0x0C 0x00 0 "FireWire (IEEE 1394) Controller"
    ∷ arm 0x0C 0x01 0 "ACCESS Bus Controller"
    ∷ arm 0x0C 0x02 0 "SSA"
    ∷ arm 0x0C 0x03 0 "USB Controller"
    ∷ arm 0x0C 0x04 0 "Fibre Channel"
    ∷ arm 0x0C 0x05 0 "SMBus Controller"
    ∷ arm 0x0C 0x06 0 "InfiniBand Controller"
    ∷ arm 0x0C 0x07 0 "IPMI Interface"
    ∷ arm 0x0C 0x08 0 "SERCOS Interface"
    ∷ arm 0x0C 0x09 0 "CANbus Controller"
    ∷ arm 0x0C 0x80 0 "Other Serial Bus Controller"
    ∷ arm 0x0D 0x00 0 "iRDA Compatible Controller"
    ∷ arm 0x0D 0x01 0 "Consumer IR Controller"
    ∷ arm 0x0D 0x10 0 "RF Controller"
    ∷ arm 0x0D 0x11 0 "Bluetooth Controller"
    ∷ arm 0x0D 0x12 0 "Broadband Controller"
    ∷ arm 0x0D 0x20 0 "Ethernet Controller (802.1a)"
    ∷ arm 0x0D 0x21 0 "Ethernet Controller (802.1b)"
    ∷ arm 0x0D 0x80 0 "Other Wireless Controller"
    ∷ arm 0x0E 0x00 0 "I20 Intelligent Controller"
    ∷ arm 0x0F 0x01 0 "Satellite TV Controller"
    ∷ arm 0x0F 0x02 0 "Satellite Audio Controller"
    ∷ arm 0x0F 0x03 0 "Satellite Voice Controller"
    ∷ arm 0x0F 0x04 0 "Satellite Data Controller"
    ∷ arm 0x10 0x00 0 "Network Encryption/Decryption"
    ∷ arm 0x10 0x10 0 "Entertainment Encryption/Decryption"
    ∷ arm 0x10 0x80 0 "Other Encryption Controller"
    ∷ arm 0x11 0x00 0 "DPIO Modules"
    ∷ arm 0x11 0x01 0 "Performance Counters"
    ∷ arm 0x11 0x10 0 "Communication Synchronizer"
    ∷ arm 0x11 0x20 0 "Signal Processing Management"
    ∷ arm 0x11 0x80 0 "Other Signal Processing Controller"
    ∷ []

-- On the class and the subclass.
pub class_name : ℕ → ℕ → String
unfolding first_arm class_arms
class_name class subclass = first_arm class subclass 0 class_arms

pub prog_if_arms : List Arm
prog_if_arms =
    arm 0x01 0x01 0x00 "ISA Compatibility mode-only"
    ∷ arm 0x01 0x01 0x05 "PCI native mode-only"
    ∷ arm 0x01 0x01 0x0A "ISA Compat, supports PCI native switch"
    ∷ arm 0x01 0x01 0x0F "PCI native, supports ISA compat switch"
    ∷ arm 0x01 0x01 0x80 "ISA Compatibility mode-only, bus mastering"
    ∷ arm 0x01 0x01 0x85 "PCI native mode-only, bus mastering"
    ∷ arm 0x01 0x01 0x8A "ISA Compat, PCI native switch, bus mastering"
    ∷ arm 0x01 0x01 0x8F "PCI native, ISA compat switch, bus mastering"
    ∷ arm 0x01 0x05 0x20 "Single DMA"
    ∷ arm 0x01 0x05 0x30 "Chained DMA"
    ∷ arm 0x01 0x06 0x00 "Vendor Specific Interface"
    ∷ arm 0x01 0x06 0x01 "AHCI 1.0"
    ∷ arm 0x01 0x06 0x02 "Serial Storage Bus"
    ∷ arm 0x01 0x07 0x00 "SAS"
    ∷ arm 0x01 0x07 0x01 "Serial Storage Bus"
    ∷ arm 0x01 0x08 0x01 "NVMHCI"
    ∷ arm 0x01 0x08 0x02 "NVM Express"
    ∷ arm 0x03 0x00 0x00 "VGA Controller"
    ∷ arm 0x03 0x00 0x01 "8514-Compatible Controller"
    ∷ arm 0x06 0x04 0x00 "Normal Decode"
    ∷ arm 0x06 0x04 0x01 "Subtractive Decode"
    ∷ arm 0x06 0x08 0x00 "Transparent Mode"
    ∷ arm 0x06 0x08 0x01 "Endpoint Mode"
    ∷ arm 0x06 0x09 0x40 "Semi-Transparent, Primary towards host CPU"
    ∷ arm 0x06 0x09 0x80 "Semi-Transparent, Secondary towards host CPU"
    ∷ arm 0x07 0x00 0x00 "8250-Compatible"
    ∷ arm 0x07 0x00 0x01 "16450-Compatible"
    ∷ arm 0x07 0x00 0x02 "16550-Compatible"
    ∷ arm 0x07 0x00 0x03 "16650-Compatible"
    ∷ arm 0x07 0x00 0x04 "16750-Compatible"
    ∷ arm 0x07 0x00 0x05 "16850-Compatible"
    ∷ arm 0x07 0x00 0x06 "16950-Compatible"
    ∷ arm 0x07 0x01 0x00 "Standard Parallel Port"
    ∷ arm 0x07 0x01 0x01 "Bi-Directional Parallel Port"
    ∷ arm 0x07 0x01 0x02 "ECP 1.X Compliant Parallel Port"
    ∷ arm 0x07 0x01 0x03 "IEEE 1284 Controller"
    ∷ arm 0x07 0x01 0xFE "IEEE 1284 Target Device"
    ∷ arm 0x07 0x03 0x00 "Generic Modem"
    ∷ arm 0x07 0x03 0x01 "Hayes 16450-Compatible"
    ∷ arm 0x07 0x03 0x02 "Hayes 16550-Compatible"
    ∷ arm 0x07 0x03 0x03 "Hayes 16650-Compatible"
    ∷ arm 0x07 0x03 0x04 "Hayes 16750-Compatible"
    ∷ arm 0x08 0x00 0x00 "Generic 8259-Compatible"
    ∷ arm 0x08 0x00 0x01 "ISA-Compatible"
    ∷ arm 0x08 0x00 0x02 "EISA-Compatible"
    ∷ arm 0x08 0x00 0x10 "I/O APIC"
    ∷ arm 0x08 0x00 0x20 "I/O(x) APIC"
    ∷ arm 0x08 0x01 0x00 "Generic 8237-Compatible"
    ∷ arm 0x08 0x01 0x01 "ISA-Compatible"
    ∷ arm 0x08 0x01 0x02 "EISA-Compatible"
    ∷ arm 0x08 0x02 0x00 "Generic 8254-Compatible"
    ∷ arm 0x08 0x02 0x01 "ISA-Compatible"
    ∷ arm 0x08 0x02 0x02 "EISA-Compatible"
    ∷ arm 0x08 0x02 0x03 "HPET"
    ∷ arm 0x08 0x03 0x00 "Generic RTC"
    ∷ arm 0x08 0x03 0x01 "ISA-Compatible"
    ∷ arm 0x09 0x04 0x00 "Generic"
    ∷ arm 0x09 0x04 0x10 "Extended"
    ∷ arm 0x0C 0x00 0x00 "Generic"
    ∷ arm 0x0C 0x00 0x10 "OHCI"
    ∷ arm 0x0C 0x03 0x00 "UHCI"
    ∷ arm 0x0C 0x03 0x10 "OHCI"
    ∷ arm 0x0C 0x03 0x20 "EHCI (USB2)"
    ∷ arm 0x0C 0x03 0x30 "xHCI (USB3)"
    ∷ arm 0x0C 0x03 0x80 "Unspecified"
    ∷ arm 0x0C 0x03 0xFE "USB Device (not host controller)"
    ∷ arm 0x0C 0x07 0x00 "SMIC"
    ∷ arm 0x0C 0x07 0x01 "Keyboard Controller Style"
    ∷ arm 0x0C 0x07 0x02 "Block Transfer"
    ∷ []

pub prog_if_name : ℕ → ℕ → ℕ → String
unfolding first_arm prog_if_arms
prog_if_name class subclass prog_if = first_arm class subclass prog_if prog_if_arms
