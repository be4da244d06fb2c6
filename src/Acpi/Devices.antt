-- ===== src/Acpi/Devices.antt =====
-- Registers of devices for the uACPI library (kernel/src/uacpi/mod.rs): handles are addresses of
-- boxes. The callbacks that answer `UACPI_STATUS_OK` whenever they return leave the answer out.
mod Examples
pub mod Handles
pub mod Registers
use nyaux_kc.Base.{
  ℕ, ◌+◌, ◌*◌, ◌/◌, ◌%◌, ◌^◌, Bool, true, false, Option, none, some, List, [], ◌∷◌, ◌==◌,
  if◌then◌else◌, M, pure, fault, ◌>>=◌, ◌>>◌,
}
use nyaux_kc.Pci.{
  PciInfo, Bytes, pci_read_byte, pci_read_word, pci_read_dword, pci_write_byte, pci_write_word,
  pci_write_dword,
}

-- `uacpi_pci_address`, of the library.
pub record PciAddress : Type 0 where
  pub segment : ℕ
  pub bus : ℕ
  pub device : ℕ
  pub function : ℕ

-- `io_range`
pub record IoRange : Type 0 where
  pub base : ℕ
  pub len : ℕ

pub data Boxed : Type 0 where
  pci_address : PciAddress → Boxed
  io_range : IoRange → Boxed

-- The boxes by their addresses, the addresses that the global allocator hands out next, the
-- configuration space, and what the ports or device registers hold.
pub record Devices (Io : Type 0) : Type 0 where
  pub boxes : ℕ → Option Boxed
  pub fresh : List ℕ
  pub space : Bytes
  pub io : Io

abbrev pub put : (ℕ → Option Boxed) → ℕ → Option Boxed → ℕ → Option Boxed
put f p b a = if a == p then b else f a

module _ {Io : Type 0} where
  -- `Box::into_raw(Box::new(b))`
  abbrev pub new_box : Boxed → M (Devices Io) ℕ
  new_box b s = elim s.fresh [
    | [] ↦ none
    | a ∷ rest ↦ some (a, record s { boxes = put s.boxes a (some b); fresh = rest })
  ]

  -- `drop(Box::from_raw(handle))`
  abbrev pub drop_box : (handle : ℕ) → M (Devices Io) (Unit {0})
  drop_box handle s = elim (s.boxes handle) [
    | none ↦ none
    | some b ↦ some (tt, record s { boxes = put s.boxes handle none })
  ]

  -- A pointer to something else is a fault.
  abbrev pub as_pci : Option Boxed → M (Devices Io) PciAddress
  as_pci none = fault
  as_pci (some (pci_address de)) = pure de
  as_pci (some (io_range a)) = fault

  abbrev pub as_io : Option Boxed → M (Devices Io) IoRange
  as_io none = fault
  as_io (some (pci_address de)) = fault
  as_io (some (io_range a)) = pure a

  abbrev pub pci_box : (device : ℕ) → M (Devices Io) PciAddress
  pci_box device s = as_pci (s.boxes device) s

  abbrev pub io_box : (handle : ℕ) → M (Devices Io) IoRange
  io_box handle s = as_io (s.boxes handle) s

  pub uacpi_kernel_pci_device_open : (address : PciAddress) → M (Devices Io) ℕ
  uacpi_kernel_pci_device_open address = new_box (pci_address address)

  pub uacpi_kernel_pci_device_close : (handle : ℕ) → M (Devices Io) (Unit {0})
  uacpi_kernel_pci_device_close handle = drop_box handle

  module _ (info : PciInfo) (device offset : ℕ) where
    pub uacpi_kernel_pci_read8 : M (Devices Io) ℕ
    uacpi_kernel_pci_read8 = do
      de ← pci_box device
      (λ s. pure (pci_read_byte info s.space de.bus de.device de.function (offset % 2 ^ 16)) s)

    pub uacpi_kernel_pci_read16 : M (Devices Io) ℕ
    uacpi_kernel_pci_read16 = do
      de ← pci_box device
      (λ s. pure (pci_read_word info s.space de.bus de.device de.function (offset % 2 ^ 16)) s)

    pub uacpi_kernel_pci_read32 : M (Devices Io) ℕ
    uacpi_kernel_pci_read32 = do
      de ← pci_box device
      (λ s. pure (pci_read_dword info s.space de.bus de.device de.function (offset % 2 ^ 16)) s)

    pub uacpi_kernel_pci_write8 : (value : ℕ) → M (Devices Io) (Unit {0})
    uacpi_kernel_pci_write8 value = do
      de ← pci_box device
      (λ s. pure tt (record s {
        space = pci_write_byte info s.space de.bus de.device de.function (offset % 2 ^ 16) value;
      }))

    pub uacpi_kernel_pci_write16 : (value : ℕ) → M (Devices Io) (Unit {0})
    uacpi_kernel_pci_write16 value = do
      de ← pci_box device
      (λ s. pure tt (record s {
        space = pci_write_word info s.space de.bus de.device de.function (offset % 2 ^ 16) value;
      }))

    pub uacpi_kernel_pci_write32 : (value : ℕ) → M (Devices Io) (Unit {0})
    uacpi_kernel_pci_write32 value = do
      de ← pci_box device
      (λ s. pure tt (record s {
        space = pci_write_dword info s.space de.bus de.device de.function (offset % 2 ^ 16) value;
      }))

  pub uacpi_kernel_io_map : (base len : ℕ) → M (Devices Io) ℕ
  uacpi_kernel_io_map base len = new_box (io_range (record { base = base; len = len }))

  pub uacpi_kernel_io_unmap : (handle : ℕ) → M (Devices Io) (Unit {0})
  uacpi_kernel_io_unmap handle = drop_box handle

  -- The instructions of `raw_io_in` and `raw_io_out`, by address and width; on RISC-V, the offset of
  -- the memory that is mapped.
  module _ (raw_io_in : (addr byte_width : ℕ) → Io → ℕ)
      (raw_io_out : (addr value byte_width : ℕ) → Io → Io) (riscv : Option ℕ)
      (handle offset : ℕ) where
    -- `if cfg!(target_arch = "riscv64")`
    abbrev pub hhdm : ℕ
    hhdm = elim riscv [ none ↦ 0 | some o ↦ o ]

    pub uacpi_kernel_io_read8 : M (Devices Io) ℕ
    uacpi_kernel_io_read8 = do
      a ← io_box handle
      (λ s. pure (raw_io_in ((a.base + offset) % 2 ^ 64) 1 s.io % 2 ^ 8) s)

    pub uacpi_kernel_io_read16 : M (Devices Io) ℕ
    uacpi_kernel_io_read16 = do
      a ← io_box handle
      (λ s. pure (raw_io_in ((a.base + offset + hhdm) % 2 ^ 64) 2 s.io % 2 ^ 16) s)

    pub uacpi_kernel_io_read32 : M (Devices Io) ℕ
    uacpi_kernel_io_read32 = do
      a ← io_box handle
      (λ s. pure (raw_io_in ((a.base + offset + hhdm) % 2 ^ 64) 4 s.io % 2 ^ 32) s)

    pub uacpi_kernel_io_write8 : (in_value : ℕ) → M (Devices Io) (Unit {0})
    uacpi_kernel_io_write8 in_value = do
      a ← io_box handle
      (λ s.
          pure tt
            (record s { io = raw_io_out ((a.base + offset + hhdm) % 2 ^ 64) in_value 1 s.io }))

    pub uacpi_kernel_io_write16 : (in_value : ℕ) → M (Devices Io) (Unit {0})
    uacpi_kernel_io_write16 in_value = do
      a ← io_box handle
      (λ s.
          pure tt
            (record s { io = raw_io_out ((a.base + offset + hhdm) % 2 ^ 64) in_value 2 s.io }))

    pub uacpi_kernel_io_write32 : (in_value : ℕ) → M (Devices Io) (Unit {0})
    uacpi_kernel_io_write32 in_value = do
      a ← io_box handle
      (λ s.
          pure tt
            (record s { io = raw_io_out ((a.base + offset + hhdm) % 2 ^ 64) in_value 4 s.io }))
