-- ===== src/Memory/Global.antt =====
-- kernel/src/memory/mod.rs: the global allocator, over the slabs and over the regions of the kernel.
-- A wait for a lock that is taken does not end here, and is the fault `none`. What the regions take
-- from the slabs for their nodes stands in the calls of Memory.Regions, and not in the heap.
mod Examples
pub mod Sizes
use nyaux_kc.Base.{
  ℕ, Bool, true, false, Option, none, some, List, leb, if◌then◌else◌, M, pure, fault, ◌>>=◌, ◌>>◌,
}
use nyaux_kc.Memory.Slab.{Heap, SlabCache, slab_alloc, slab_dealloc}
use nyaux_kc.Memory.Regions.{VmmFlags, Pagemap, vmm_alloc, vmm_dealloc}

-- The statics: the slabs with their caches, `kermap` once it is set, and the lock of `ALLOCATER`.
pub record Kernel : Type 0 where
  pub heap : Heap
  pub caches : List SlabCache
  pub kermap : Option Pagemap
  pub lock : Bool

abbrev pub kernel : Heap → List SlabCache → Option Pagemap → Bool → Kernel
kernel h c p l = record { heap = h; caches = c; kermap = p; lock = l }

-- `VMMFlags::WRITE`
abbrev pub write_flag : VmmFlags
write_flag = record {
  write = true;
  executable = false;
  global = false;
  user = false;
  nocache = false;
}

-- A call of the slabs.
unfoldable pub on_heap : {A : Type 0} → (List SlabCache → M Heap A) → M Kernel A
on_heap f s = elim (f s.caches s.heap) [
  | none ↦ none
  | some (a, h) ↦ some (a, kernel h s.caches s.kermap s.lock)
]

-- A call through `kermap`, which is unwrapped.
unfoldable pub on_kermap : {A : Type 0} → M Pagemap A → M Kernel A
on_kermap f s = elim s.kermap [
  | none ↦ none
  | some p ↦ elim (f p) [
    | none ↦ none
    | some (a, q) ↦ some (a, kernel s.heap s.caches (some q) s.lock)
  ]
]

abbrev pub unwrap : Option ℕ → M Kernel ℕ
unwrap none = fault
unwrap (some a) = pure a

abbrev pub lock : M Kernel (Unit {0})
lock s = if s.lock then none else some (tt, kernel s.heap s.caches s.kermap true)

abbrev pub unlock : M Kernel (Unit {0})
unlock s = some (tt, kernel s.heap s.caches s.kermap false)

-- `NAlloc::alloc`, with fuel for the slabs of a cache.
unfoldable pub alloc : (fuel size : ℕ) → M Kernel ℕ
unfolding on_heap on_kermap
alloc fuel size = do
  lock
  if leb size 1024
      then (do found ← on_heap (slab_alloc fuel size); s ← unwrap found; unlock; pure s)
      else (do s ← on_kermap (vmm_alloc size write_flag); unlock; pure s)

-- `NAlloc::dealloc`
unfoldable pub dealloc : (ptr size : ℕ) → M Kernel (Unit {0})
unfolding on_heap on_kermap
dealloc ptr size =
    if leb size 1024
    then on_heap (λ caches. slab_dealloc ptr)
    else on_kermap (vmm_dealloc ptr false)
