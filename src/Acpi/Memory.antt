-- ===== src/Acpi/Memory.antt =====
-- Memory for the uACPI library (kernel/src/uacpi/mod.rs), over the statics of Memory.Global; the
-- mappings over `kermap` alone.
mod Examples
pub mod Allocation
pub mod Mapping
use nyaux_kc.Base.{
  ℕ, ◌+◌, ◌-◌, ◌/◌, ◌%◌, ◌^◌, false, Option, none, some, List, [], ◌∷◌, leb, ltb, if◌then◌else◌, M,
  pure, ◌>>=◌, ◌>>◌,
}
use nyaux_kc.Memory.Align.{align_down, page_size}
use nyaux_kc.Memory.Slab.{slab_alloc, slab_dealloc}
use nyaux_kc.Memory.Regions.{vmm_alloc, vmm_alloc_with_phys, vmm_dealloc, Pagemap}
use nyaux_kc.Memory.Global.{Kernel, on_heap, on_kermap, unwrap, write_flag}
use nyaux_kc.Pci.Bars.{page_steps}

-- With fuel for the slabs of a cache.
pub uacpi_kernel_alloc : (fuel size : ℕ) → M Kernel ℕ
uacpi_kernel_alloc fuel size =
    if leb size 1024
    then (do found ← on_heap (slab_alloc fuel size); unwrap found)
    else on_kermap (vmm_alloc size write_flag)

pub uacpi_kernel_free : (mem size_hint : ℕ) → M Kernel (Unit {0})
uacpi_kernel_free mem size_hint =
    if leb size_hint 1024
    then on_heap (λ caches. slab_dealloc mem)
    else on_kermap (vmm_dealloc mem false)

-- The mapping callbacks work on `kermap` alone: the pages' vector and the region's node come from the
-- global allocator, and its state is left out.
unfoldable pub on_set : {A : Type 0} → M Pagemap A → M (Option Pagemap) A
on_set f none = none
on_set f (some p) = elim (f p) [ none ↦ none | some (a, q) ↦ some (a, some q) ]

-- What the boot loader set: the end of the memory that is mapped at an offset, and this offset.
module _ (max_hhdm_phy offset : ℕ) where
  pub uacpi_kernel_map : (addr len : ℕ) → M (Option Pagemap) ℕ
  unfolding on_set
  uacpi_kernel_map addr len =
      if ltb addr max_hhdm_phy
      then pure ((addr + offset) % 2 ^ 64)
      else on_set (
          vmm_alloc_with_phys len write_flag
            (page_steps (align_down addr page_size) ((align_down addr page_size + len) % 2 ^ 64)))

  pub uacpi_kernel_unmap : (addr len : ℕ) → M (Option Pagemap) (Unit {0})
  unfolding on_set
  uacpi_kernel_unmap addr len =
      if ltb max_hhdm_phy addr then on_set (vmm_dealloc addr false) else pure tt
