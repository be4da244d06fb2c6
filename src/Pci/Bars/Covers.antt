-- ===== src/Pci/Bars/Covers.antt =====
-- What `pci_map_bar` maps (kernel/src/pci/mod.rs).
use nyaux_kc.Base.{
  ℕ, zero, suc, ◌+◌, ◌-◌, ◌*◌, ◌/◌, ◌%◌, ◌^◌, ◌<◌, ◌≤◌, ◌≡◌, refl, Bool-cases, Option, none, some,
  List, [], ◌∷◌, ◌++◌, ◌==◌, if◌then◌else◌, arith, inl, inr, get_elem?, ◌∙◌, ap, Bool, true, false,
}
use nyaux_kc.Memory.Align.{page_size, align_up, align_down, align_up_page, align_down-pow}
use nyaux_kc.Memory.Regions.{VmmRegion, Pagemap, map_region, needed, take_region, take_node}
use nyaux_kc.Memory.Regions.Shape.{IsRegion, Ascending}
use nyaux_kc.Memory.Regions.Fit.{IsTight}
use nyaux_kc.Memory.Regions.Free.{MapsBy, vmm_alloc_with_phys-MapsBy}
use nyaux_kc.Pci.{PciInfo, Bytes, pci_read_dword}
use nyaux_kc.Pci.Access.{IsRegister, above_base, address_above_base}
use nyaux_kc.Pci.Bars.{device_flags, steps, page_steps, map_bar, bar_dword, bar_base, pci_map_bar}

pub steps-at : (k i first : ℕ) → i < k → get_elem? (steps k first) i ≡ some (first + i * page_size)
steps-at zero i first lo = absurd (omega arith)
steps-at (suc k) zero first lo = ap some (omega arith)
steps-at (suc k) (suc i) first lo =
    steps-at k i (first + page_size) (omega arith) ∙ ap some (omega arith)

-- The 32-bit base address register `n` of a function, in the bytes of its configuration space.
abbrev pub bar_register : PciInfo → Bytes → (bus slot func n : ℕ) → ℕ
bar_register info m bus slot func n =
    let a = info.ecam_base_addr + above_base info bus slot func (0x10 + 4 * n) in
    m a + 0x100 * m (a + 1) + 0x10000 * m (a + 2) + 0x1000000 * m (a + 3)

-- Bit 0 tells ports from memory, and bit 2 a register of 64 bits, whose upper half is the next one;
-- the low four bits are no part of the address.
abbrev pub is_ports : ℕ → Bool
is_ports low = low % 2 == 1

abbrev pub bar_address : (low high : ℕ) → ℕ
bar_address low high = low - low % 16 + (if low / 4 % 2 == 1 then high * 2 ^ 32 else 0)

-- The bytes `base`, `base + 1`, … of the device are seen from `virt` on: a fresh region of the
-- kernel is added to the list and holds `virt`, and the page that holds the byte `virt + i` is given the physical page that
-- holds `base + i`.
pub record IsBarMapped (p : Pagemap) (base length virt : ℕ) (t : Pagemap) : Type 0 where
  pub fresh : VmmRegion
  pub pages : List ℕ
  pub region : IsRegion fresh
  pub flagged : fresh.flags ≡ device_flags
  pub added : take_region fresh.base t.khead ≡ some (fresh, p.khead)
  pub ascending : Ascending 0 t.khead
  pub calls :
      t.calls
      ≡ p.calls ++ take_node fresh.base ∷ map_region fresh.base fresh.length pages device_flags ∷ []
  pub above : fresh.base ≤ virt
  pub below : virt + length ≤ fresh.base + fresh.length
  pub seen :
      (i : ℕ)
      → i < length
      → (q : ℕ) × (get_elem? pages ((virt + i - fresh.base) / page_size) ≡ some q)
        × (q + (virt + i) % page_size ≡ base + i)

abbrev pub Covers : Pagemap → (base length : ℕ) → Option (Option ℕ × Pagemap) → Type 0
Covers p base length none =
    (amount : ℕ) × (amount < length + 2 * page_size) × IsTight (needed amount) p.khead
Covers p base length (some (none, t)) = ⊥
Covers p base length (some (some virt, t)) = IsBarMapped p base length virt t

module _ (p : Pagemap) (base length : ℕ) (some_length : 0 < length)
    (room : base + length + 3 * page_size ≤ 2 ^ 64) where
  abbrev low : ℕ
  low = base / 4096 * 4096

  abbrev high : ℕ
  high = (base + length + 4095) / 4096 * 4096

  abbrev amount : ℕ
  amount = high - low

  bounds :
      (low ≤ base)
      × (base < low + 4096)
      × (base + length ≤ high)
      × (high < base + length + 4096)
      × (low % 4096 ≡ 0)
      × (high % 4096 ≡ 0)
  bounds = omega arith

  align_down-base : align_down base page_size ≡ low
  align_down-base = align_down-pow 12 base (omega arith) (omega arith)

  align_up-end : align_up ((base + length) % 2 ^ 64) page_size ≡ high
  align_up-end =
      let whole : (base + length) % 2 ^ 64 ≡ base + length = omega arith in
      rw whole (align_up_page (base + length) (omega arith))

  asked : (high + 2 ^ 64 - low) % 2 ^ 64 ≡ amount
  asked = omega arith

  -- The page of the list at the place that the byte `virt + i` has in the region.
  page-seen :
      (b i : ℕ)
      → b % 4096 ≡ 0
      → i < length
      → (q : ℕ) × (get_elem? (page_steps low high) ((b + (base - low) + i - b) / page_size)
          ≡ some q)
        × (q + (b + (base - low) + i) % page_size ≡ base + i)
  page-seen b i whole lo =
      let n = (b + (base - low) + i - b) / page_size in
      (
        low + n * page_size,
        steps-at ((high - low + page_size - 1) / page_size) n low (omega arith),
        omega arith,
      )

  covered :
      (r : Option (ℕ × Pagemap))
      → MapsBy
          (λ e. map_region e.base e.length (page_steps low high) device_flags)
          p
          amount
          device_flags
          r
      → Covers p base length
          (elim r [ none ↦ none | some (b, t) ↦ some (some (b + (base - low)), t) ])
  covered none tight = elim tight [
    | inl user ↦ absurd (cc user)
    | inr tight ↦ (amount, omega (arith, bounds), tight)
  ]
  covered (some (b, t)) (e, at, new, calls) = record {
    fresh = e;
    pages = page_steps low high;
    region = new.region;
    flagged = new.flagged;
    added = new.taken;
    ascending = new.ascending;
    calls = calls;
    above = omega (arith, at);
    below = omega (arith, at, new.enough, bounds);
    seen = λ i lo. rw (← at) (page-seen b i (omega (arith, at, new.region.base_aligned)) lo);
  }

  map_bar-Covers : Ascending 0 p.khead → Covers p base length (map_bar base length p)
  unfolding map_bar
  map_bar-Covers a =
      rw (align_down-base, align_up-end, asked)
        (covered _ (
          vmm_alloc_with_phys-MapsBy p amount device_flags (page_steps low high) a
            (omega (arith, bounds)) (omega (arith, bounds))))

-- What the code reads of the registers.
module _ (info : PciInfo) (m : Bytes) (bus slot func n : ℕ)
    (space : info.ecam_base_addr + 2 ^ 28 ≤ 2 ^ 64)
    (device : IsRegister info bus slot func (0x10 + 4 * n)) where
  read_register :
      (bar_num : ℕ)
      → bar_dword info m (func, slot, bus) bar_num n ≡ bar_register info m bus slot func n
  unfolding bar_dword pci_read_dword
  read_register bar_num =
      let place : (0x10 + n * 4) % 2 ^ 16 ≡ 0x10 + 4 * n = omega (arith, device.in_space) in
      rw (place, address_above_base info space bus slot func (0x10 + 4 * n) device) refl

module _ (info : PciInfo) (m : Bytes) (bus slot func n : ℕ)
    (space : info.ecam_base_addr + 2 ^ 28 ≤ 2 ^ 64)
    (device : IsRegister info bus slot func (0x10 + 4 * n))
    (device' : IsRegister info bus slot func (0x10 + 4 * (n + 1))) where
  abbrev low_half : ℕ
  low_half = bar_register info m bus slot func n

  abbrev high_half : ℕ
  high_half = bar_register info m bus slot func (n + 1)

  bar_base-address :
      (offset : ℕ)
      → bar_address low_half high_half + offset < 2 ^ 64
      → bar_base info m (func, slot, bus) n offset ≡ bar_address low_half high_half + offset
  unfolding bar_base
  bar_base-address offset small =
      let low = read_register info m bus slot func n space device n in
      let high = read_register info m bus slot func (n + 1) space device' n in
      elim (Bool-cases (low_half / 4 % 2 == 1)) [
        | inl wide ↦
            let wide' : (low_half / 2 / 2 % 2 == 1) ≡ true = ground arith in
            let small' : low_half - low_half % 16 + high_half * 2 ^ 32 + offset < 2 ^ 64 =
              rw wide at small in
            rw (bar_base, low, high, wide, wide') (omega (arith, small'))
        | inr narrow ↦
            let narrow' : (low_half / 2 / 2 % 2 == 1) ≡ false = ground arith in
            let small' : low_half - low_half % 16 + 0 + offset < 2 ^ 64 = rw narrow at small in
            rw (bar_base, low, high, narrow, narrow') (omega (arith, small'))
      ]

module _ (info : PciInfo) (m : Bytes) (location : ℕ × ℕ × ℕ) (n offset length : ℕ)
    (p : Pagemap) where
  of_ports :
      is_ports (bar_dword info m location n n) ≡ true
      → pci_map_bar info m location n offset length p ≡ some (none, p)
  unfolding pci_map_bar
  of_ports ports = rw ports refl

  of_memory :
      is_ports (bar_dword info m location n n) ≡ false
      → pci_map_bar info m location n offset length p
        ≡ map_bar (bar_base info m location n offset) length p
  unfolding pci_map_bar
  of_memory memory = rw memory refl

-- On an ascending region list, for base address register `n` of the function at `bus`, `slot` and
-- `func`, given as the location `(func, slot, bus)`: of a register for ports it answers none and
-- changes nothing. Of a register for memory, where the `length` bytes, at least one, from the offset
-- behind its address on leave three pages below 2 ^ 64 behind them, aligned or not: the answer is the
-- kernel address of the first, in a fresh region, added to the list, all of whose bytes from there on
-- are backed by the bytes of the device; it panics only where no gap is wide enough.
pub pci_map_bar-Covers :
    (info : PciInfo) (m : Bytes) (bus slot func n offset length : ℕ) (p : Pagemap)
    → info.ecam_base_addr + 2 ^ 28 ≤ 2 ^ 64
    → IsRegister info bus slot func (0x10 + 4 * n)
    → IsRegister info bus slot func (0x10 + 4 * (n + 1))
    → Ascending 0 p.khead
    → 0 < length
    → bar_address (bar_register info m bus slot func n) (bar_register info m bus slot func (n + 1))
        + offset
        + length
        + 3 * page_size
      ≤ 2 ^ 64
    → if is_ports (bar_register info m bus slot func n)
      then pci_map_bar info m (func, slot, bus) n offset length p ≡ some (none, p)
      else Covers p
          (bar_address
              (bar_register info m bus slot func n)
              (bar_register info m bus slot func (n + 1))
            + offset)
          length
          (pci_map_bar info m (func, slot, bus) n offset length p)
pci_map_bar-Covers info m bus slot func n offset length p space device device' a some_length room =
    let low = read_register info m bus slot func n space device n in
    let base = bar_base-address info m bus slot func n space device device' offset (omega arith) in
    elim (Bool-cases (is_ports (bar_register info m bus slot func n))) [
      | inl ports ↦
          rw ports (of_ports info m (func, slot, bus) n offset length p (ap is_ports low ∙ ports))
      | inr memory ↦
          rw
            (
              memory,
              of_memory info m (func, slot, bus) n offset length p (ap is_ports low ∙ memory),
              base,
            )
            (map_bar-Covers p _ length some_length room a)
    ]
