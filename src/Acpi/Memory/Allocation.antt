-- ===== src/Acpi/Memory/Allocation.antt =====
-- The callbacks against the global allocator (kernel/src/memory/mod.rs).
use nyaux_kc.Base.{
  ℕ, ◌≡◌, refl, false, true, Bool-cases, inl, inr, Option, none, some, List, leb, if◌then◌else◌,
  ◌>>=◌, ◌>>◌,
}
use nyaux_kc.Memory.Slab.{Heap, SlabCache, slab_alloc}
use nyaux_kc.Memory.Regions.{Pagemap, vmm_alloc}
use nyaux_kc.Memory.Global.{kernel, on_heap, on_kermap, write_flag, alloc, dealloc}
use nyaux_kc.Acpi.Memory.{uacpi_kernel_alloc, uacpi_kernel_free}

module _ (fuel size : ℕ) (h : Heap) (cs : List SlabCache) where
  same_small :
      (p : Option Pagemap) (r : Option (Option ℕ × Heap))
      → leb size 1024 ≡ true
      → slab_alloc fuel size cs h ≡ r
      → uacpi_kernel_alloc fuel size (kernel h cs p false) ≡ alloc fuel size (kernel h cs p false)
  unfolding uacpi_kernel_alloc alloc on_heap
  same_small p none few ran =
      rw (uacpi_kernel_alloc, alloc, ◌>>◌, ◌>>=◌, few, if◌then◌else◌, on_heap, ran) refl
  same_small p (some (none, t)) few ran =
      rw (uacpi_kernel_alloc, alloc, ◌>>◌, ◌>>=◌, few, if◌then◌else◌, on_heap, ran) refl
  same_small p (some (some a, t)) few ran =
      rw (uacpi_kernel_alloc, alloc, ◌>>◌, ◌>>=◌, few, if◌then◌else◌, on_heap, ran) refl

  same_unset :
      leb size 1024 ≡ false
      → uacpi_kernel_alloc fuel size (kernel h cs none false)
        ≡ alloc fuel size (kernel h cs none false)
  unfolding uacpi_kernel_alloc alloc on_kermap
  same_unset many = rw (uacpi_kernel_alloc, alloc, ◌>>◌, ◌>>=◌, many, if◌then◌else◌, on_kermap) refl

  same_large :
      (p : Pagemap) (r : Option (ℕ × Pagemap))
      → leb size 1024 ≡ false
      → vmm_alloc size write_flag p ≡ r
      → uacpi_kernel_alloc fuel size (kernel h cs (some p) false)
        ≡ alloc fuel size (kernel h cs (some p) false)
  unfolding uacpi_kernel_alloc alloc on_kermap
  same_large p none many ran =
      rw (uacpi_kernel_alloc, alloc, ◌>>◌, ◌>>=◌, many, if◌then◌else◌, on_kermap, ran) refl
  same_large p (some (a, q)) many ran =
      rw (uacpi_kernel_alloc, alloc, ◌>>◌, ◌>>=◌, many, if◌then◌else◌, on_kermap, ran) refl

same_free : (mem size : ℕ) → uacpi_kernel_free mem size ≡ dealloc mem size
unfolding uacpi_kernel_free dealloc
same_free mem size = refl

-- With the lock free, the callbacks of the firmware library allocate and free exactly as the global
-- allocator does, in result and in state, its panics included.
pub uacpi_kernel_alloc-alloc :
    (fuel size : ℕ) (h : Heap) (cs : List SlabCache) (p : Option Pagemap)
    → (uacpi_kernel_alloc fuel size (kernel h cs p false) ≡ alloc fuel size (kernel h cs p false))
      × ((mem : ℕ) → uacpi_kernel_free mem size ≡ dealloc mem size)
uacpi_kernel_alloc-alloc fuel size h cs p = (same_alloc p, λ mem. same_free mem size)
  where
    same_alloc :
        (p : Option Pagemap)
        → uacpi_kernel_alloc fuel size (kernel h cs p false) ≡ alloc fuel size (kernel h cs p false)
    same_alloc none = elim (Bool-cases (leb size 1024)) [
      | inl few ↦ same_small fuel size h cs none (slab_alloc fuel size cs h) few refl
      | inr many ↦ same_unset fuel size h cs many
    ]
    same_alloc (some q) = elim (Bool-cases (leb size 1024)) [
      | inl few ↦ same_small fuel size h cs (some q) (slab_alloc fuel size cs h) few refl
      | inr many ↦ same_large fuel size h cs q (vmm_alloc size write_flag q) many refl
    ]
