-- ===== src/Acpi/Memory/Mapping.antt =====
-- What `uacpi_kernel_map` maps (kernel/src/uacpi/mod.rs).
use nyaux_kc.Base.{
  ℕ, zero, suc, ◌+◌, ◌-◌, ◌*◌, ◌/◌, ◌%◌, ◌^◌, ◌<◌, ◌≤◌, ◌≡◌, inl, inr, refl, ap, ◌∙◌, false, Option,
  none, some, List, [], ◌∷◌, ◌++◌, length, ltb, if◌then◌else◌, get_elem?, arith, ge→ltb,
}
use nyaux_kc.Memory.Align.{page_size, align_down, align_down-pow, align_up_page}
use nyaux_kc.Memory.Regions.{
  Pagemap, pagemap, VmmRegion, map_region, needed, vmm_alloc_with_phys, take_node, take_region,
}
use nyaux_kc.Memory.Regions.Shape.{Ascending}
use nyaux_kc.Memory.Regions.Fit.{IsTight, IsNew}
use nyaux_kc.Memory.Regions.Free.{MapsBy, vmm_alloc_with_phys-MapsBy}
use nyaux_kc.Memory.Global.{write_flag}
use nyaux_kc.Pci.Bars.{steps, page_steps}
use nyaux_kc.Pci.Bars.Covers.{steps-at}
use nyaux_kc.Acpi.Memory.{on_set, uacpi_kernel_map}

length-steps : (k first : ℕ) → length (steps k first) ≡ k
length-steps zero first = refl
length-steps (suc k) first = ap suc (length-steps k (first + page_size))

-- A fresh region of the kernel from `virt` on, added to the list, whose pages are all given, and shows
-- the bytes behind the start of the page of `addr`.
pub record IsWindow (p : Pagemap) (addr len virt : ℕ) (q : Pagemap) : Type 0 where
  pub fresh : VmmRegion
  pub starts : fresh.base ≡ virt
  pub flagged : fresh.flags ≡ write_flag
  pub added : take_region virt q.khead ≡ some (fresh, p.khead)
  pub pages : List ℕ
  pub ascending : Ascending 0 q.khead
  pub calls :
      q.calls ≡ p.calls ++ take_node virt ∷ map_region virt fresh.length pages write_flag ∷ []
  pub whole : length pages * page_size ≡ fresh.length
  pub room : len ≤ fresh.length
  pub seen :
      (i : ℕ)
      → i < len
      → (f : ℕ) × (get_elem? pages (i / page_size) ≡ some f)
        × (f + i % page_size ≡ addr / page_size * page_size + i)

abbrev pub MapsWindow : Pagemap → (addr len : ℕ) → Option (ℕ × Option Pagemap) → Type 0
MapsWindow p addr len none = IsTight (needed len) p.khead
MapsWindow p addr len (some (virt, s)) = (q : Pagemap) × (s ≡ some q) × IsWindow p addr len virt q

module _ (p : Pagemap) (addr len : ℕ) (some_len : 0 < len)
    (fits : addr + len + 2 * page_size ≤ 2 ^ 64) where
  abbrev pages : List ℕ
  pages = page_steps (align_down addr page_size) ((align_down addr page_size + len) % 2 ^ 64)

  pages_steps : pages ≡ steps ((len + 4095) / 4096) (addr / 4096 * 4096)
  pages_steps =
      let low : align_down addr page_size ≡ addr / 4096 * 4096 =
        align_down-pow 12 addr (omega arith) (omega arith) in
      let count : ((addr / 4096 * 4096 + len) % 2 ^ 64 - addr / 4096 * 4096 + page_size - 1)
            / page_size
          ≡ (len + 4095) / 4096 =
        omega arith in
      rw (low, count) refl

  new-IsWindow :
      (e : VmmRegion) (q : Pagemap)
      → IsNew p len write_flag e (pagemap q.khead (p.calls ++ take_node e.base ∷ []))
      → q.calls ≡ p.calls ++ take_node e.base ∷ map_region e.base e.length pages write_flag ∷ []
      → IsWindow p addr len e.base q
  new-IsWindow e q new called =
      let size : e.length ≡ (len + 4095) / 4096 * 4096 =
        new.size ∙ align_up_page len (omega arith) in
      record {
        fresh = e;
        starts = refl;
        flagged = new.flagged;
        added = new.taken;
        pages = pages;
        ascending = new.ascending;
        calls = called;
        whole = omega (
          arith,
          ap length pages_steps,
          length-steps ((len + 4095) / 4096) (addr / 4096 * 4096),
          size,
        );
        room = new.enough;
        seen = λ i below. (
          addr / 4096 * 4096 + i / page_size * page_size,
          ap (λ x. get_elem? x (i / page_size)) pages_steps
              ∙ steps-at ((len + 4095) / 4096) (i / page_size) (addr / 4096 * 4096) (omega arith),
          omega arith,
        );
      }

  ran-MapsWindow :
      (max offset : ℕ) (r : Option (ℕ × Pagemap))
      → ltb addr max ≡ false
      → vmm_alloc_with_phys len write_flag pages p ≡ r
      → MapsBy (λ e. map_region e.base e.length pages write_flag) p len write_flag r
      → MapsWindow p addr len (uacpi_kernel_map max offset addr len (some p))
  unfolding uacpi_kernel_map on_set
  ran-MapsWindow max offset none high ran (inl user) = cc user
  ran-MapsWindow max offset none high ran (inr tight) =
      rw (uacpi_kernel_map, high, if◌then◌else◌, on_set, ran) tight
  ran-MapsWindow max offset (some (b, q)) high ran (e, at_base, new, called) =
      rw (uacpi_kernel_map, high, if◌then◌else◌, on_set, ran)
        (q, refl, rw at_base (new-IsWindow e q new called))

  -- Of memory from the end of the mapped memory on, at least two pages below 2 ^ 64, with the
  -- regions in order: it panics only where no gap holds the length and one page more, and otherwise
  -- returns the base of a fresh region of whole pages, the only change of the region list, each of
  -- which is given, where the byte `i` is the byte `i` behind the start of the page of the address.
  pub uacpi_kernel_map-MapsWindow :
      (max offset : ℕ)
      → max ≤ addr
      → Ascending 0 p.khead
      → MapsWindow p addr len (uacpi_kernel_map max offset addr len (some p))
  uacpi_kernel_map-MapsWindow max offset high a =
      ran-MapsWindow max offset (vmm_alloc_with_phys len write_flag pages p) (ge→ltb addr max high)
        refl (vmm_alloc_with_phys-MapsBy p len write_flag pages a some_len (omega arith))
