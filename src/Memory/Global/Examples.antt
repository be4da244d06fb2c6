-- ===== src/Memory/Global/Examples.antt =====
-- Allocations over fresh slabs.
use nyaux_kc.Base.{
  ℕ, ◌≡◌, refl, false, none, List, [], ◌∷◌, ◌==◌, if◌then◌else◌, arith, Returns, ◌<◌, ◌%◌,
}
use nyaux_kc.Memory.Slab.{Heap, SlabCache}
use nyaux_kc.Memory.Slab.Objects.{IsSlab}
use nyaux_kc.Memory.Slab.Classes.{AreCaches}
use nyaux_kc.Memory.Global.{kernel, alloc}
use nyaux_kc.Memory.Global.Sizes.{HasRoom, alloc-HasRoom}

-- Slabs without free objects in seven pages, and a free page.
abbrev full : Heap
full = record {
  header = λ p. record {
    obj_am = 0;
    obj_size =
        if p == 0x1000
        then 16
        else if p == 0x2000
        then 32
        else if p == 0x3000
        then 64
        else if p == 0x4000
        then 128
        else if p == 0x5000
        then 256
        else if p == 0x6000
        then 512
        else 1024;
    obj = 0;
    other_slabs = 0;
  };
  next = λ a. 7;
  pages = 0x8000 ∷ [];
}

abbrev cache : ℕ → ℕ → SlabCache
cache size slabs = record { size = size; slabs = slabs }

full-IsSlab :
    (page size : ℕ)
    → 0 < page
    → page % 4096 ≡ 0
    → 0 < size
    → (full.header page).obj_size ≡ size
    → IsSlab full page size []
full-IsSlab page size real aligned some_size sized = record {
  real = real;
  aligned = aligned;
  some_size = some_size;
  sized = sized;
  linked = refl;
  inside = tt;
  distinct = tt;
  counted = refl;
}

abbrev others : List SlabCache
others =
    cache 32 0x2000
    ∷ cache 64 0x3000
    ∷ cache 128 0x4000
    ∷ cache 256 0x5000
    ∷ cache 512 0x6000
    ∷ cache 1024 0x7000
    ∷ []

full-AreCaches : AreCaches full 1 0x8000 8 (cache 16 0x1000 ∷ others)
full-AreCaches = (
  refl,
  omega arith,
  omega arith,
  omega arith,
  ([], [], (full-IsSlab 0x1000 16 (omega arith) refl (omega arith) refl, refl), omega arith),
  (
    refl,
    omega arith,
    omega arith,
    omega arith,
    ([], [], (full-IsSlab 0x2000 32 (omega arith) refl (omega arith) refl, refl), omega arith),
    (
      refl,
      omega arith,
      omega arith,
      omega arith,
      ([], [], (full-IsSlab 0x3000 64 (omega arith) refl (omega arith) refl, refl), omega arith),
      (
        refl,
        omega arith,
        omega arith,
        omega arith,
        ([], [], (full-IsSlab 0x4000 128 (omega arith) refl (omega arith) refl, refl), omega arith),
        (
          refl,
          omega arith,
          omega arith,
          omega arith,
          (
            [],
            [],
            (full-IsSlab 0x5000 256 (omega arith) refl (omega arith) refl, refl),
            omega arith,
          ),
          (
            refl,
            omega arith,
            omega arith,
            omega arith,
            (
              [],
              [],
              (full-IsSlab 0x6000 512 (omega arith) refl (omega arith) refl, refl),
              omega arith,
            ),
            (
              refl,
              omega arith,
              omega arith,
              omega arith,
              (
                [],
                [],
                (full-IsSlab 0x7000 1024 (omega arith) refl (omega arith) refl, refl),
                omega arith,
              ),
              tt,
            ),
          ),
        ),
      ),
    ),
  ),
)

alloc-HasRoom_example :
    Returns
      (HasRoom full 0x8000 100 (cache 16 0x1000 ∷ others) none)
      (alloc 2 100 (kernel full (cache 16 0x1000 ∷ others) none false))
alloc-HasRoom_example =
    alloc-HasRoom 100 1 0x8000 [] full (cache 16 0x1000) others none full-AreCaches refl
      (record { first = refl; aligned = refl; real = omega arith; unlinked = λ p. omega arith })
      (omega arith)
