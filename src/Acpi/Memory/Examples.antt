-- ===== src/Acpi/Memory/Examples.antt =====
-- Without regions, and with two far apart.
use nyaux_kc.Base.{ℕ, ◌≡◌, refl, false, some, [], ◌∷◌, arith}
use nyaux_kc.Memory.Slab.{Heap}
use nyaux_kc.Memory.Regions.{Pagemap, pagemap, region}
use nyaux_kc.Memory.Regions.Shape.{Ascending}
use nyaux_kc.Memory.Global.{kernel, write_flag, alloc, dealloc}
use nyaux_kc.Acpi.Memory.{uacpi_kernel_alloc, uacpi_kernel_free, uacpi_kernel_map}
use nyaux_kc.Acpi.Memory.Allocation.{uacpi_kernel_alloc-alloc}
use nyaux_kc.Acpi.Memory.Mapping.{MapsWindow, uacpi_kernel_map-MapsWindow}

abbrev no_slabs : Heap
no_slabs = record {
  header = λ p. record { obj_am = 0; obj_size = 0; obj = 0; other_slabs = 0 };
  next = λ a. 0;
  pages = [];
}

abbrev image : Pagemap
image = pagemap (region 0x1000 0x1000 write_flag ∷ region 0x100000 0x1000 write_flag ∷ []) []

image-Ascending : Ascending 0 image.khead
image-Ascending = (
  record {
    nonempty = omega arith;
    inside = omega arith;
    base_aligned = refl;
    length_aligned = refl;
  },
  omega arith,
  (
    record {
      nonempty = omega arith;
      inside = omega arith;
      base_aligned = refl;
      length_aligned = refl;
    },
    omega arith,
    tt,
  ),
)

uacpi_kernel_alloc-alloc_example :
    (uacpi_kernel_alloc 1 5000 (kernel no_slabs [] (some image) false)
      ≡ alloc 1 5000 (kernel no_slabs [] (some image) false))
    × ((mem : ℕ) → uacpi_kernel_free mem 5000 ≡ dealloc mem 5000)
uacpi_kernel_alloc-alloc_example = uacpi_kernel_alloc-alloc 1 5000 no_slabs [] (some image)

uacpi_kernel_map-MapsWindow_example :
    MapsWindow image 0xfed00010 0x400
      (uacpi_kernel_map 0x80000000 0xffff800000000000 0xfed00010 0x400 (some image))
uacpi_kernel_map-MapsWindow_example =
    uacpi_kernel_map-MapsWindow image 0xfed00010 0x400 (omega arith) (omega arith) 0x80000000
      0xffff800000000000 (omega arith) image-Ascending
