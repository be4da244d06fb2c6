-- ===== src/Memory/Pages/Examples.antt =====
-- The page allocator on one usable entry of the memory map.
use nyaux_kc.Base.{◌+◌, ◌≡◌, refl, true, none, some, List, [], ◌∷◌, arith, Returns, ◌>>◌}
use nyaux_kc.Memory.Pages.{Pmm, Entry, init, allocate_page}
use nyaux_kc.Memory.Pages.FreeList.{IsFree, allocate_page-exhausted}

abbrev fresh : Pmm
fresh = record { freelist = none; next = λ a. 0 }

abbrev low_memory : List Entry
low_memory = record { base = 0; length = 0x3000; usable = true } ∷ []

-- Page 0 is left out, and the last page stands at the head.
init_low :
    ((init low_memory fresh).freelist ≡ some 0x2000)
    × ((init low_memory fresh).next 0x2000 ≡ 0x1000)
unfolding init
init_low = (refl, refl)

abbrev one_page : Pmm
one_page = record { freelist = some 0x1000; next = λ a. 0 }

one_page-IsFree : IsFree one_page (0x1000 ∷ [])
one_page-IsFree = record { linked = (omega arith, refl, refl, tt); first = refl }

allocate_page-exhausted_example :
    Returns (λ a _. a ≡ 0 + 0x100000) ((allocate_page 0x100000 >> allocate_page 0x100000) one_page)
allocate_page-exhausted_example = allocate_page-exhausted 0x100000 one_page 0x1000 one_page-IsFree
