-- ===== src/Memory/Regions/Examples.antt =====
-- The region theorems on a list of two regions.
use nyaux_kc.Base.{◌≡◌, refl, true, false, [], ◌∷◌, arith, Returns, ◌^◌, ◌≤◌, ◌<◌, ◌+◌, ◌%◌}
use nyaux_kc.Memory.Align.{align_up, align_down, align_bounds}
use nyaux_kc.Memory.Regions.{VmmFlags, region, Pagemap, pagemap, vmm_alloc, vmm_dealloc}
use nyaux_kc.Memory.Regions.Shape.{Ascending}
use nyaux_kc.Memory.Regions.Free.{
  Maps, Frees, Restores, vmm_alloc-dealloc, vmm_alloc-Maps, vmm_dealloc-Ascending,
}

abbrev pub kernel_flags : VmmFlags
kernel_flags = record {
  write = true;
  executable = false;
  global = false;
  user = false;
  nocache = false;
}

abbrev pub two : Pagemap
two = pagemap (region 0x1000 0x1000 kernel_flags ∷ region 0x10000 0x2000 kernel_flags ∷ []) []

pub two-Ascending : Ascending 0 two.khead
two-Ascending = (
  record {
    nonempty = omega arith;
    inside = omega arith;
    base_aligned = refl;
    length_aligned = refl;
  },
  omega arith,
  (
    record {
      nonempty = omega arith;
      inside = omega arith;
      base_aligned = refl;
      length_aligned = refl;
    },
    omega arith,
    tt,
  ),
)

-- 100 bytes take the page behind the first region.
vmm_alloc_page : Returns (λ b t. b ≡ 0x2000) (vmm_alloc 100 kernel_flags two)
unfolding vmm_alloc align_up
vmm_alloc_page = refl

vmm_alloc-Maps_example : Maps two 100 kernel_flags (vmm_alloc 100 kernel_flags two)
vmm_alloc-Maps_example =
    vmm_alloc-Maps two 100 kernel_flags two-Ascending (omega arith) (omega arith)

vmm_alloc-dealloc_example : Restores two 100 kernel_flags (vmm_alloc 100 kernel_flags two)
vmm_alloc-dealloc_example =
    vmm_alloc-dealloc two 100 kernel_flags two-Ascending (omega arith) (omega arith)

vmm_dealloc-Ascending_example :
    Returns (λ _ t. Ascending 0 t.khead × Frees 0x10000 two t) (vmm_dealloc 0x10000 false two)
vmm_dealloc-Ascending_example = vmm_dealloc-Ascending two 0x10000 two-Ascending

align_bounds_example :
    (0x1234 ≤ align_up 0x1234 (2 ^ 12))
    × (align_up 0x1234 (2 ^ 12) < 0x1234 + 2 ^ 12)
    × (align_up 0x1234 (2 ^ 12) % 2 ^ 12 ≡ 0)
    × (align_down 0x1234 (2 ^ 12) ≤ 0x1234)
    × (0x1234 < align_down 0x1234 (2 ^ 12) + 2 ^ 12)
    × (align_down 0x1234 (2 ^ 12) % 2 ^ 12 ≡ 0)
align_bounds_example = align_bounds 12 0x1234 (omega arith) (omega arith)
