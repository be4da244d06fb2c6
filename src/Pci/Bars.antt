-- ===== src/Pci/Bars.antt =====
-- Mapping the registers of a device (`pci_map_bar` of kernel/src/pci/mod.rs).
mod Examples
pub mod Covers
use nyaux_kc.Base.{
  ℕ, zero, suc, ◌+◌, ◌-◌, ◌*◌, ◌/◌, ◌%◌, ◌^◌, Bool, true, false, Option, none, some, List, [], ◌∷◌,
  ◌==◌, if◌then◌else◌, M, pure, ◌>>=◌,
}
use nyaux_kc.Memory.Align.{page_size, align_up, align_down}
use nyaux_kc.Memory.Regions.{VmmFlags, Pagemap, vmm_alloc_with_phys}
use nyaux_kc.Pci.{PciInfo, Bytes, pci_read_dword}

abbrev pub device_flags : VmmFlags
device_flags = record {
  write = true;
  executable = false;
  global = true;
  user = false;
  nocache = true;
}

-- `(first..).step_by(PAGE_SIZE)`, of which `k` are taken.
abbrev pub steps : (k first : ℕ) → List ℕ
steps zero first = []
steps (suc k) first = first ∷ steps k (first + page_size)

-- `(first..last).step_by(PAGE_SIZE)`
abbrev pub page_steps : (first last : ℕ) → List ℕ
page_steps first last = steps ((last - first + page_size - 1) / page_size) first

-- What both kinds of register share, from the base on.
pub map_bar : (base length : ℕ) → M Pagemap (Option ℕ)
map_bar base length = do
  virt ←
      vmm_alloc_with_phys
        ((align_up ((base + length) % 2 ^ 64) page_size + 2 ^ 64 - align_down base page_size)
          % 2 ^ 64)
        device_flags
        (page_steps (align_down base page_size) (align_up ((base + length) % 2 ^ 64) page_size))
  pure (some (virt + (base - align_down base page_size)))

module _ (info : PciInfo) (m : Bytes) (location : ℕ × ℕ × ℕ) (bar_num : ℕ) where
  -- The dword of the `n`-th register; the location is read from its last part on.
  pub bar_dword : ℕ → ℕ
  bar_dword n = pci_read_dword info m location.2 location.1 location.0 ((0x10 + n * 4) % 2 ^ 16)

  -- The address in the register, of 64 or of 32 bits; `s & 0xFFFFFFF0` clears four bits.
  pub bar_base : (offset : ℕ) → ℕ
  unfolding bar_dword
  bar_base offset =
      let s = bar_dword bar_num in
      if s / 2 / 2 % 2 == 1
      then (s / 2 ^ 4 * 2 ^ 4 + bar_dword (bar_num + 1) * 2 ^ 32 + offset) % 2 ^ 64
      else (s / 2 ^ 4 * 2 ^ 4 + offset) % 2 ^ 64

  pub pci_map_bar : (offset length : ℕ) → M Pagemap (Option ℕ)
  unfolding map_bar bar_base bar_dword
  pci_map_bar offset length =
      if bar_dword bar_num % 2 == 1 then pure none else map_bar (bar_base offset) length
