-- ===== src/Memory/Regions/Shape.antt =====
-- Well-formed region lists (kernel/src/memory/vmm/mod.rs).
use nyaux_kc.Base.{ℕ, ◌+◌, ◌%◌, ◌^◌, ◌≤◌, ◌<◌, ◌≡◌, List, [], ◌∷◌, arith}
use nyaux_kc.Memory.Align.{page_size}
use nyaux_kc.Memory.Regions.{VmmRegion}

-- A region of whole pages, not empty, inside the address space.
pub record IsRegion (w : VmmRegion) : Type 0 where
  pub nonempty : 0 < w.length
  pub inside : w.base + w.length < 2 ^ 64
  pub base_aligned : w.base % page_size ≡ 0
  pub length_aligned : w.length % page_size ≡ 0

-- Regions in ascending order from `low` on, none overlapping another.
abbrev pub Ascending : ℕ → List VmmRegion → Type 0
Ascending low [] = Unit
Ascending low (w ∷ rest) = IsRegion w × (low ≤ w.base) × Ascending (w.base + w.length) rest

pub Ascending-mono :
    (low low' : ℕ) (l : List VmmRegion) → low' ≤ low → Ascending low l → Ascending low' l
Ascending-mono low low' [] h a = tt
Ascending-mono low low' (w ∷ rest) h a = (a.0, omega arith, a.2)
