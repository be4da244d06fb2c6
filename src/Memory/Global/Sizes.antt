-- ===== src/Memory/Global/Sizes.antt =====
-- What an allocation of each size yields (kernel/src/memory/mod.rs).
use nyaux_kc.Base.{
  ℕ, suc, ◌*◌, ◌^◌, ◌≤◌, ◌<◌, ◌≡◌, refl, inl, true, false, Option, none, some, List, ◌∷◌, length,
  leb, if◌then◌else◌, arith, ◌>>=◌, ◌>>◌, Returns,
}
use nyaux_kc.Memory.Slab.{Heap, SlabCache, slab_alloc}
use nyaux_kc.Memory.Slab.Classes.{AreCaches, IsFresh, Fits, slab_alloc-Fits}
use nyaux_kc.Memory.Regions.{Pagemap, vmm_alloc, vmm_dealloc}
use nyaux_kc.Memory.Global.{Kernel, kernel, write_flag, on_heap, on_kermap, alloc, dealloc}

pub small : (size : ℕ) → size ≤ 1024 → leb size 1024 ≡ true
small size h = ground arith

pub large : (size : ℕ) → 1024 < size → leb size 1024 ≡ false
large size h = ground arith

-- With the lock free, a small allocation is one of the slabs, after which the lock is free.
pub alloc_small :
    (fuel size a : ℕ) (h t : Heap) (cs : List SlabCache) (p : Option Pagemap)
    → size ≤ 1024
    → slab_alloc fuel size cs h ≡ some (some a, t)
    → alloc fuel size (kernel h cs p false) ≡ some (a, kernel t cs p false)
unfolding alloc
alloc_small fuel size a h t cs p few ran =
    rw (alloc, ◌>>◌, ◌>>=◌, small size few, if◌then◌else◌, on_heap, ran) refl

pub alloc_large :
    (fuel size a : ℕ) (h : Heap) (cs : List SlabCache) (p q : Pagemap)
    → 1024 < size
    → vmm_alloc size write_flag p ≡ some (a, q)
    → alloc fuel size (kernel h cs (some p) false) ≡ some (a, kernel h cs (some q) false)
unfolding alloc
alloc_large fuel size a h cs p q many ran =
    rw (alloc, ◌>>◌, ◌>>=◌, large size many, if◌then◌else◌, on_kermap, ran) refl

pub dealloc_large :
    (ptr size : ℕ) (h : Heap) (cs : List SlabCache) (p q : Pagemap)
    → 1024 < size
    → vmm_dealloc ptr false p ≡ some (tt, q)
    → dealloc ptr size (kernel h cs (some p) false) ≡ some (tt, kernel h cs (some q) false)
unfolding dealloc
dealloc_large ptr size h cs p q many ran =
    rw (dealloc, large size many, if◌then◌else◌, on_kermap, ran) refl

-- What a small allocation leaves: a cleared object with room for the size, of 16 bytes or less than
-- twice the size, that was free in `h` or lies in the page `q`, and all but the heap as before.
pub record HasRoom (h : Heap) (q size : ℕ) (cs : List SlabCache) (p : Option Pagemap) (a : ℕ)
    (t : Kernel) : Type 0 where
  pub unlocked : t.lock ≡ false
  pub same_kermap : t.kermap ≡ p
  pub same_caches : t.caches ≡ cs
  pub fitting : Fits h q size (some (some a, t.heap))

served-HasRoom :
    (fuel q size : ℕ) (h : Heap) (cs : List SlabCache) (p : Option Pagemap)
    (r : Option (Option ℕ × Heap))
    → size ≤ 1024
    → slab_alloc fuel size cs h ≡ r
    → Fits h q size r
    → Returns (HasRoom h q size cs p) (alloc fuel size (kernel h cs p false))
served-HasRoom fuel q size h cs p none few ran served = absurd served
served-HasRoom fuel q size h cs p (some (none, t)) few ran served = absurd served
served-HasRoom fuel q size h cs p (some (some a, t)) few ran served =
    rw (alloc_small fuel size a h t cs p few ran)
      (record { unlocked = refl; same_kermap = refl; same_caches = refl; fitting = served })

-- With the lock free, the seven caches of `init_slab` with well-formed slabs and a fresh page, an
-- allocation of up to 1024 bytes returns, with fuel for one slab more than a cache has: it yields an
-- object with room for the size, of 16 bytes or less than twice the size, inside its page and cleared
-- throughout, which was free in a slab of that size or lies in the fresh page, and is not free any
-- more; the lock is free and the regions are as before.
pub alloc-HasRoom :
    (size k q : ℕ) (rest : List ℕ) (h : Heap) (c : SlabCache) (cs : List SlabCache)
    (p : Option Pagemap)
    → AreCaches h k q 8 (c ∷ cs)
    → length cs ≡ 6
    → IsFresh h q rest
    → size ≤ 1024
    → Returns (HasRoom h q size (c ∷ cs) p) (alloc (suc k) size (kernel h (c ∷ cs) p false))
alloc-HasRoom size k q rest h c cs p caches seven fresh few =
    let first : c.size ≡ 16 = caches.0 in
    let enough : size ≤ c.size * 2 ^ length cs = rw (first, seven) (omega arith) in
    served-HasRoom (suc k) q size h (c ∷ cs) p (slab_alloc (suc k) size (c ∷ cs) h) few refl
      (slab_alloc-Fits size k q rest h fresh 8 c cs caches (omega arith) (inl refl) enough)
