-- ===== src/Memory/Regions.antt =====
-- `Pagemap` (kernel/src/memory/vmm/mod.rs): the kernel's list of regions, from `khead` along
-- `next`, and the calls that it makes of the page tables and, for the regions' nodes, of the slab
-- allocator. The calls are recorded and are taken to succeed.
pub mod Fit
pub mod Free
pub mod Shape
pub mod Examples
use nyaux_kc.Base.{
  ℕ, zero, suc, ◌+◌, ◌-◌, ◌%◌, ◌^◌, Bool, true, false, ◌||◌, Option, none, some, List, [], ◌∷◌,
  ◌++◌, leb, ◌==◌, if◌then◌else◌, M, pure, fault, ◌>>=◌, ◌>>◌,
}
use nyaux_kc.Memory.Align.{page_size, align_up}

-- `VMMFlags`, a bool to a bit.
pub record VmmFlags : Type 0 where
  pub write : Bool
  pub executable : Bool
  pub global : Bool
  pub user : Bool
  pub nocache : Bool

pub record VmmRegion : Type 0 where
  pub base : ℕ
  pub length : ℕ
  pub flags : VmmFlags

abbrev pub region : ℕ → ℕ → VmmFlags → VmmRegion
region b l f = record { base = b; length = l; flags = f }

-- What `Pagemap` asks of the page tables, and of the slab allocator for the node of the region at a
-- base: `slab_alloc` in `VMMRegion::new`, and `slab_dealloc`.
pub data PageCall : Type 0 where
  map_region_alloc : (base length : ℕ) → VmmFlags → PageCall
  map_region : (base length : ℕ) → List ℕ → VmmFlags → PageCall
  unmap_region : (base length : ℕ) → PageCall
  take_node : (base : ℕ) → PageCall
  free_node : (base : ℕ) → PageCall

pub record Pagemap : Type 0 where
  pub khead : List VmmRegion
  pub calls : List PageCall

abbrev pub pagemap : List VmmRegion → List PageCall → Pagemap
pagemap k c = record { khead = k; calls = c }

-- `w.base + w.length` on 64 bits.
abbrev pub end_of : VmmRegion → ℕ
end_of w = (w.base + w.length) % 2 ^ 64

-- The loop of `calculate_region_location` with `prev` at `w` and `cur` at the rest: the address
-- found, and how many regions stand before `prev`.
pub region_loop : (need : ℕ) → VmmRegion → List VmmRegion → ℕ → Option (ℕ × ℕ)
region_loop need w [] i = none
region_loop need w (q ∷ rest) i =
    let later = region_loop need q rest (suc i) in
    if leb need (q.base - end_of w) then some (end_of w, i) else later

-- The space that an allocation looks for: the amount in whole pages, and one page more.
abbrev pub needed : ℕ → ℕ
needed amount = (align_up amount page_size + page_size) % 2 ^ 64

pub calculate_region_location : ℕ → List VmmRegion → Option (ℕ × ℕ)
unfolding region_loop
calculate_region_location amount [] = none
calculate_region_location amount (w ∷ rest) = region_loop (needed amount) w rest 0

-- `(*prev).next = e; (*e).next = cur`, with `i` regions before `prev`.
abbrev pub insert_after : ℕ → VmmRegion → List VmmRegion → List VmmRegion
insert_after i e [] = []
insert_after zero e (w ∷ rest) = w ∷ e ∷ rest
insert_after (suc i) e (w ∷ rest) = w ∷ insert_after i e rest

-- The new region at the place that the search found; a failed search is unwrapped, a panic.
abbrev pub place : ℕ → VmmFlags → Pagemap → Option (ℕ × ℕ) → Option (VmmRegion × Pagemap)
place length flags p none = none
place length flags p (some (base, i)) = some (
  region base length flags,
  pagemap (insert_after i (region base length flags) p.khead) (p.calls ++ take_node base ∷ []),
)

-- What the three allocation functions share. A user allocation panics.
pub new_region : ℕ → VmmFlags → M Pagemap VmmRegion
unfolding calculate_region_location
new_region amount flags p =
    if flags.user
    then none
    else place (align_up amount page_size) flags p (calculate_region_location amount p.khead)

abbrev pub call : PageCall → M Pagemap (Unit {0})
call c p = some (tt, record p { calls = p.calls ++ c ∷ [] })

unfoldable pub vmm_alloc : ℕ → VmmFlags → M Pagemap ℕ
unfolding new_region
vmm_alloc amount flags = do
  e ← new_region amount flags
  call (map_region_alloc e.base e.length flags)
  pure e.base

pub vmm_alloc_with_phys : ℕ → VmmFlags → List ℕ → M Pagemap ℕ
vmm_alloc_with_phys amount flags pa = do
  e ← new_region amount flags
  call (map_region e.base e.length pa flags)
  pure e.base

pub vmm_alloc_without_backing : ℕ → VmmFlags → M Pagemap ℕ
vmm_alloc_without_backing amount flags = do e ← new_region amount flags; pure e.base

-- The first region with this base, and the list without it.
pub take_region : ℕ → List VmmRegion → Option (VmmRegion × List VmmRegion)
take_region base [] = none
take_region base (w ∷ rest) =
    if w.base == base
    then some (w, rest)
    else elim (take_region base rest) [ none ↦ none | some (r, left) ↦ some (r, w ∷ left) ]

pub vmm_dealloc : ℕ → Bool → M Pagemap (Unit {0})
unfolding take_region
vmm_dealloc base user_allocated p =
    if base == 0
    then some (tt, p)
    else if user_allocated
    then none
    else elim (take_region base p.khead) [
      | none ↦ some (tt, p)
      | some (r, left) ↦
          some (tt, pagemap left (p.calls ++ unmap_region r.base r.length ∷ free_node r.base ∷ []))
    ]
