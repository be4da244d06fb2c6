-- ===== src/Memory/Regions/Free.antt =====
-- `vmm_alloc` and `vmm_dealloc` (kernel/src/memory/vmm/mod.rs) together.
use mathlib.Core.List.{Memᴰ, append_assoc}
use mathlib.Core.List.Memᴰ
use nyaux_kc.Base.{
  ℕ, ◌+◌, ◌*◌, ◌^◌, ◌≤◌, ◌<◌, ◌≡◌, refl, true, false, Option, none, some, List, [], ◌∷◌, ◌++◌,
  arith, ◌==◌, pos→ne_zero, Bool-cases, Option-cases, inl, inr, ◌⊎◌, Returns, ==→eq, subst, sym,
  ◌≢◌, ap, ==_self, ◌∙◌,
}
use nyaux_kc.Memory.Align.{page_size, align_up}
use nyaux_kc.Memory.Regions.{
  VmmFlags, VmmRegion, PageCall, map_region_alloc, map_region, unmap_region, vmm_alloc_with_phys,
  Pagemap, pagemap, needed, new_region, take_region, vmm_alloc, vmm_dealloc, take_node, free_node,
}
use nyaux_kc.Memory.Regions.Shape.{Ascending, Ascending-mono}
use nyaux_kc.Memory.Regions.Fit.{IsNew, IsTight, Allocates, new_region-Allocates}

-- What an allocation that makes the call `c` of the page tables does: a panic, or a fresh region
-- for which a node is taken and the call is made, and whose base is returned.
abbrev pub MapsBy : (VmmRegion → PageCall) → Pagemap → ℕ → VmmFlags → Option (ℕ × Pagemap) → Type 0
MapsBy c p amount flags none = (flags.user ≡ true) ⊎ IsTight (needed amount) p.khead
MapsBy c p amount flags (some (b, t)) =
    (e : VmmRegion) × (b ≡ e.base)
    × IsNew p amount flags e (pagemap t.khead (p.calls ++ take_node e.base ∷ []))
    × (t.calls ≡ p.calls ++ take_node e.base ∷ c e ∷ [])

abbrev pub Maps : Pagemap → ℕ → VmmFlags → Option (ℕ × Pagemap) → Type 0
Maps p amount flags = MapsBy (λ e. map_region_alloc e.base e.length flags) p amount flags

allocated-MapsBy :
    (c : VmmRegion → PageCall) (p : Pagemap) (amount : ℕ) (flags : VmmFlags)
    (r : Option (VmmRegion × Pagemap))
    → Allocates p amount flags r
    → MapsBy c p amount flags (elim r [
      | none ↦ none
      | some (e, t) ↦ some (e.base, pagemap t.khead (t.calls ++ c e ∷ []))
    ])
allocated-MapsBy c p amount flags none a = a
allocated-MapsBy c p amount flags (some (e, t)) new = (
  e,
  refl,
  new_here,
  ap (λ z. z ++ c e ∷ []) new.calls ∙ append_assoc p.calls (take_node e.base ∷ []) (c e ∷ []),
)
  where
    new_here : IsNew p amount flags e (pagemap t.khead (p.calls ++ take_node e.base ∷ []))
    new_here = record {
      region = new.region;
      size = new.size;
      enough = new.enough;
      flagged = new.flagged;
      ascending = new.ascending;
      taken = new.taken;
      calls = refl;
      nonzero = new.nonzero;
    }

-- On an ascending list, `vmm_alloc` of an amount that is neither 0 nor close to 2 ^ 64 either maps
-- and returns a fresh region of whole pages that holds the amount and overlaps no other, or panics;
-- a kernel allocation panics only where no gap holds the amount and one page more.
pub vmm_alloc-Maps :
    (p : Pagemap) (amount : ℕ) (flags : VmmFlags)
    → Ascending 0 p.khead
    → 0 < amount
    → amount + 2 * page_size ≤ 2 ^ 64
    → Maps p amount flags (vmm_alloc amount flags p)
unfolding vmm_alloc
vmm_alloc-Maps p amount flags a some_amount fits =
    allocated-MapsBy _ p amount flags (new_region amount flags p)
      (new_region-Allocates amount some_amount fits p flags a)

-- `vmm_alloc_with_phys` is alike, and maps the pages that it is given.
pub vmm_alloc_with_phys-MapsBy :
    (p : Pagemap) (amount : ℕ) (flags : VmmFlags) (pa : List ℕ)
    → Ascending 0 p.khead
    → 0 < amount
    → amount + 2 * page_size ≤ 2 ^ 64
    → MapsBy
        (λ e. map_region e.base e.length pa flags)
        p
        amount
        flags
        (vmm_alloc_with_phys amount flags pa p)
unfolding vmm_alloc_with_phys
vmm_alloc_with_phys-MapsBy p amount flags pa a some_amount fits =
    allocated-MapsBy _ p amount flags (new_region amount flags p)
      (new_region-Allocates amount some_amount fits p flags a)

-- An allocation panics for want of a gap, or freeing what it returned brings back the region list; of
-- the page tables and the nodes, the two together ask for the mapping of the pages and its undoing.
abbrev pub Restores : Pagemap → ℕ → VmmFlags → Option (ℕ × Pagemap) → Type 0
Restores p amount flags none = (flags.user ≡ true) ⊎ IsTight (needed amount) p.khead
Restores p amount flags (some (b, t)) =
    vmm_dealloc b false t
    ≡ some (
      tt,
      pagemap p.khead (
          p.calls
          ++ take_node b
            ∷ map_region_alloc b (align_up amount page_size) flags
            ∷ unmap_region b (align_up amount page_size)
            ∷ free_node b
            ∷ []),
    )

mapped-Restores :
    (p : Pagemap) (amount : ℕ) (flags : VmmFlags) (r : Option (ℕ × Pagemap))
    → Maps p amount flags r
    → Restores p amount flags r
unfolding vmm_dealloc
mapped-Restores p amount flags none m = m
mapped-Restores p amount flags (some (b, t)) (e, at_base, new, called) =
    let undo = unmap_region e.base e.length ∷ free_node e.base ∷ [] in
    let all : t.calls ++ undo
        ≡ p.calls ++ take_node e.base ∷ map_region_alloc e.base e.length flags ∷ undo =
      ap (λ z. z ++ undo) called
      ∙ append_assoc p.calls (take_node e.base ∷ map_region_alloc e.base e.length flags ∷ [])
          undo in
    let l = align_up amount page_size in
    subst
      (λ c.
        vmm_dealloc c false t
        ≡ some (
          tt,
          pagemap p.khead (
              p.calls
              ++ take_node c ∷ map_region_alloc c l flags ∷ unmap_region c l ∷ free_node c ∷ []),
        ))
      (sym at_base)
      (rw (pos→ne_zero _ new.nonzero, new.taken, vmm_dealloc)
        (ap (λ z. some (tt, pagemap p.khead z)) all
          ∙ ap
              (λ n. some (
                tt,
                pagemap p.khead (
                    p.calls
                    ++ take_node e.base
                      ∷ map_region_alloc e.base n flags
                      ∷ unmap_region e.base n
                      ∷ free_node e.base
                      ∷ []),
              ))
              new.size))

-- On an ascending list, for an amount that is neither 0 nor close to 2 ^ 64: `vmm_alloc` panics only
-- for a user allocation, or where no gap holds the amount and one page more; freeing what it returned
-- does not panic, restores the region list, unmaps exactly the pages that were mapped, and frees the
-- node that was taken.
pub vmm_alloc-dealloc :
    (p : Pagemap) (amount : ℕ) (flags : VmmFlags)
    → Ascending 0 p.khead
    → 0 < amount
    → amount + 2 * page_size ≤ 2 ^ 64
    → Restores p amount flags (vmm_alloc amount flags p)
vmm_alloc-dealloc p amount flags a some_amount fits =
    mapped-Restores p amount flags (vmm_alloc amount flags p)
      (vmm_alloc-Maps p amount flags a some_amount fits)

-- What `take_region` does: the first region with this base, out of its place, or none has it.
abbrev Left : ℕ → ℕ → List VmmRegion → Option (VmmRegion × List VmmRegion) → Type 0
Left base low l none = (w : VmmRegion) → Memᴰ w l → w.base ≢ base
Left base low l (some (r, left)) =
    (r.base ≡ base)
    × ((before : List VmmRegion) × (after : List VmmRegion) × (l ≡ before ++ r ∷ after)
        × (left ≡ before ++ after))
    × Ascending low left

take_region-Left :
    (base low : ℕ) (l : List VmmRegion) → Ascending low l → Left base low l (take_region base l)
unfolding take_region
take_region-Left base low [] a = λ w h. absurd (Memᴰ.not-nil h)
take_region-Left base low (w ∷ rest) a = elim (Bool-cases (w.base == base)) [
  | inl here ↦
      rw (here, take_region)
        (
          ==→eq _ _ here,
          ([], rest, refl, refl),
          Ascending-mono (w.base + w.length) low rest (omega arith) a.2,
        )
  | inr other ↦
      let ih = take_region-Left base (w.base + w.length) rest a.2 in
      elim (Option-cases (take_region base rest)) [
        | inl missed ↦
            let none_there : (v : VmmRegion) → Memᴰ v rest → v.base ≢ base = rw missed at ih in
            rw (other, missed, take_region)
              (λ v h. elim (Memᴰ.cases_cons h) [
                | inl e ↦ λ same. cc (other, ==_self base, ap (λ x. x.base) e, same)
                | inr t ↦ none_there v t
              ])
        | inr ((r, left), found) ↦
            let kept : Left base (w.base + w.length) rest (some (r, left)) = rw found at ih in
            let (before, after, whole, joined) = kept.1 in
            rw (other, found, take_region)
              (
                kept.0,
                (w ∷ before, after, ap (λ z. w ∷ z) whole, ap (λ z. w ∷ z) joined),
                (a.0, a.1, kept.2),
              )
      ]
]

-- What freeing an address does: the region that begins there is taken out of its place, unmapped, and
-- its node freed, or no region begins there, or the address is null, and nothing changes.
abbrev pub Frees : (base : ℕ) → Pagemap → Pagemap → Type 0
Frees base p t =
    ((r : VmmRegion) × (before : List VmmRegion) × (after : List VmmRegion) × (r.base ≡ base)
      × (p.khead ≡ before ++ r ∷ after)
      × (t.khead ≡ before ++ after)
      × (t.calls ≡ p.calls ++ unmap_region r.base r.length ∷ free_node r.base ∷ []))
    ⊎ ((t ≡ p) × ((base ≡ 0) ⊎ ((w : VmmRegion) → Memᴰ w p.khead → w.base ≢ base)))

-- Freeing any kernel address never panics, in an ascending list: the region that begins there is
-- taken out of the list and unmapped, with its base and length, and its node is freed; all others
-- stay. For the null address, or where no region begins, nothing changes. The list stays ascending.
pub vmm_dealloc-Ascending :
    (p : Pagemap) (base : ℕ)
    → Ascending 0 p.khead
    → Returns (λ _ t. Ascending 0 t.khead × Frees base p t) (vmm_dealloc base false p)
unfolding vmm_dealloc
vmm_dealloc-Ascending p base a = elim (Bool-cases (base == 0)) [
  | inl null ↦ rw (null, vmm_dealloc) (a, inr (refl, inl (==→eq base 0 null)))
  | inr real ↦
      let left = take_region-Left base 0 p.khead a in
      elim (Option-cases (take_region base p.khead)) [
        | inl missed ↦
            let none_there : (w : VmmRegion) → Memᴰ w p.khead → w.base ≢ base = rw missed at left in
            rw (real, missed, vmm_dealloc) (a, inr (refl, inr none_there))
        | inr ((r, rest), found) ↦
            let kept : Left base 0 p.khead (some (r, rest)) = rw found at left in
            let (before, after, whole, joined) = kept.1 in
            rw (real, found, vmm_dealloc)
              (kept.2, inl (r, before, after, kept.0, whole, joined, refl))
      ]
]
