-- ===== src/Pci.antt =====
-- kernel/src/pci/mod.rs: the configuration space, as the bytes that the devices show at its
-- addresses, and the bus scan. A device that changes its registers by itself is not modelled.
pub mod Access
pub mod Bars
pub mod Names
pub mod Scan
use nyaux_kc.Base.{ℕ, ◌+◌, ◌-◌, ◌*◌, ◌/◌, ◌%◌, ◌^◌, Bool, ◌==◌, if◌then◌else◌}

-- `PCI_INFO`, which `pci_init` sets.
pub record PciInfo : Type 0 where
  pub root_bus : ℕ
  pub seg : ℕ
  pub ecam_base_addr : ℕ

abbrev pub Bytes : Type 0
Bytes = ℕ → ℕ

abbrev pub put : Bytes → ℕ → ℕ → Bytes
put m p v a = if a == p then v else m a

-- The address of a register, on 64 bits.
abbrev pub config_address : PciInfo → (bus slot func offset : ℕ) → ℕ
config_address info bus slot func offset =
    (info.ecam_base_addr
      + ((bus + 2 ^ 64 - info.root_bus) % 2 ^ 64 * 2 ^ 20 % 2 ^ 64
          + slot * 2 ^ 15
          + func * 2 ^ 12
          + offset))
    % 2 ^ 64

abbrev pub word_at : Bytes → ℕ → ℕ
word_at m a = m a + 2 ^ 8 * m (a + 1)

abbrev pub dword_at : Bytes → ℕ → ℕ
dword_at m a = m a + 2 ^ 8 * m (a + 1) + 2 ^ 16 * m (a + 2) + 2 ^ 24 * m (a + 3)

module _ (info : PciInfo) (m : Bytes) (bus slot func offset : ℕ) where
  pub pci_read_byte : ℕ
  pci_read_byte = m (config_address info bus slot func offset)

  pub pci_read_word : ℕ
  pci_read_word = word_at m (config_address info bus slot func offset)

  pub pci_read_dword : ℕ
  pci_read_dword = dword_at m (config_address info bus slot func offset)

  pub pci_write_byte : (value : ℕ) → Bytes
  pci_write_byte value = put m (config_address info bus slot func offset) (value % 2 ^ 8)

  pub pci_write_word : (value : ℕ) → Bytes
  pci_write_word value =
      let a = config_address info bus slot func offset in
      put (put m a (value % 2 ^ 8)) (a + 1) (value / 2 ^ 8 % 2 ^ 8)

  pub pci_write_dword : (value : ℕ) → Bytes
  pci_write_dword value =
      let a = config_address info bus slot func offset in
      put
        (put (put (put m a (value % 2 ^ 8)) (a + 1) (value / 2 ^ 8 % 2 ^ 8)) (a + 2)
          (value / 2 ^ 16 % 2 ^ 8))
        (a + 3) (value / 2 ^ 24 % 2 ^ 8)
