-- ===== src/Memory/Slab/Examples.antt =====
-- A slab of objects of 1024 bytes, as `init` makes it.
use nyaux_kc.Base.{refl, [], ◌∷◌, ◌==◌, if◌then◌else◌, arith}
use nyaux_kc.Memory.Slab.{Heap, alloc}
use nyaux_kc.Memory.Slab.Objects.{IsSlab}
use nyaux_kc.Memory.Slab.Giving.{Restores, alloc-slab_dealloc}

-- The slab that `init` made of the page at 0x5000.
abbrev one_slab : Heap
one_slab = record {
  header = λ p. record { obj_am = 3; obj_size = 1024; obj = 0x5820; other_slabs = 0 };
  next = λ a. if a == 0x5820 then 0x5420 else if a == 0x5420 then 0x5020 else 0;
  pages = [];
}

one_slab-IsSlab : IsSlab one_slab 0x5000 1024 (2 ∷ 1 ∷ 0 ∷ [])
one_slab-IsSlab = record {
  real = omega arith;
  aligned = refl;
  some_size = omega arith;
  sized = refl;
  linked = (refl, (refl, (refl, refl)));
  inside = (omega arith, (omega arith, (omega arith, tt)));
  distinct = (refl, (refl, (refl, tt)));
  counted = refl;
}

alloc-slab_dealloc_example : Restores 0x5000 1024 (2 ∷ 1 ∷ 0 ∷ []) (alloc 1 0x5000 one_slab)
alloc-slab_dealloc_example =
    alloc-slab_dealloc one_slab 0 0x5000 1024 2 (1 ∷ 0 ∷ []) one_slab-IsSlab
