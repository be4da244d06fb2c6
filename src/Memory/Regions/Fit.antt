-- ===== src/Memory/Regions/Fit.antt =====
-- Where `calculate_region_location` places a region (kernel/src/memory/vmm/mod.rs).
use nyaux_kc.Base.{
  ℕ, suc, ◌+◌, ◌-◌, ◌%◌, ◌^◌, ◌≤◌, ◌<◌, ◌≡◌, refl, true, false, Option, none, some, List, [], ◌∷◌,
  arith, leb, ◌==◌, Bool-cases, Option-cases, guarded, inl, inr, leb→le, lt_of_leb, ◌*◌, ==_self,
  ◌⊎◌, ◌++◌,
}
use nyaux_kc.Memory.Align.{page_size, align_up, align_up_page}
use nyaux_kc.Memory.Regions.{
  VmmFlags, VmmRegion, region, Pagemap, end_of, region_loop, needed, calculate_region_location,
  insert_after, new_region, place, PageCall, pagemap, take_region, take_node,
}
use nyaux_kc.Memory.Regions.Shape.{IsRegion, Ascending}

-- A place behind the `k`-th region of `w ∷ rest`, at address `b`, with `need` bytes free.
pub record Fits (need low : ℕ) (w : VmmRegion) (rest : List VmmRegion) (b k : ℕ) : Type 0 where
  pub above : w.base + w.length ≤ b
  pub aligned : b % page_size ≡ 0
  pub inside : b + need < 2 ^ 64
  pub placed :
      (l : ℕ) (f : VmmFlags)
      → IsRegion (region b l f)
      → l ≤ need
      → Ascending low (insert_after k (region b l f) (w ∷ rest))
  pub taken :
      (l : ℕ) (f : VmmFlags)
      → take_region b (insert_after k (region b l f) (w ∷ rest)) ≡ some (region b l f, w ∷ rest)

-- The gap right behind `w` is wide enough.
Fits-here :
    (need low : ℕ) (w q : VmmRegion) (rest : List VmmRegion)
    → 0 < need
    → Ascending low (w ∷ q ∷ rest)
    → leb need (q.base - end_of w) ≡ true
    → Fits need low w (q ∷ rest) (end_of w) 0
unfolding take_region
Fits-here need low w q rest some_need a wide =
    let fit : w.base + w.length + need ≤ q.base =
      omega (arith, leb→le need _ wide, a.0.inside, a.2.0.inside) in
    let exact : end_of w ≡ w.base + w.length = omega (arith, a.0.inside) in
    let ne : (w.base == end_of w) ≡ false = ground (arith, exact, a.0.nonempty) in
    record {
      above = omega (arith, exact);
      aligned = omega (arith, exact, a.0.base_aligned, a.0.length_aligned);
      inside = omega (arith, exact, fit, a.2.0.inside);
      placed = λ l f r small.
          (a.0, a.1, (r, omega (arith, exact), (a.2.0, omega (arith, exact, fit), a.2.2)));
      taken = λ l f. rw (ne, ==_self (end_of w), take_region);
    }

Fits-later :
    (need low : ℕ) (w q : VmmRegion) (rest : List VmmRegion) (b k : ℕ)
    → Ascending low (w ∷ q ∷ rest)
    → Fits need (w.base + w.length) q rest b k
    → Fits need low w (q ∷ rest) b (suc k)
unfolding take_region
Fits-later need low w q rest b k a fits =
    let ne : (w.base == b) ≡ false = ground (arith, fits.above, a.0.nonempty, a.2.1) in
    record {
      above = omega (arith, fits.above, a.2.1);
      aligned = fits.aligned;
      inside = fits.inside;
      placed = λ l f r small. (a.0, a.1, fits.placed l f r small);
      taken = λ l f. rw (ne, fits.taken l f, take_region);
    }

region_loop-Fits :
    (need low : ℕ) (w : VmmRegion) (rest : List VmmRegion) (i b j : ℕ)
    → 0 < need
    → Ascending low (w ∷ rest)
    → region_loop need w rest i ≡ some (b, j)
    → (k : ℕ) × (j ≡ k + i) × Fits need low w rest b k
unfolding region_loop
region_loop-Fits need low w [] i b j some_need a found = cc
region_loop-Fits need low w (q ∷ rest) i b j some_need a found =
    elim (Bool-cases (leb need (q.base - end_of w))) [
      | inl wide ↦
          let e : ◌≡◌ {A = Option (ℕ × ℕ)} (some (end_of w, i)) (some (b, j)) = rw wide at found in
          let base : end_of w ≡ b = cc e in
          let index : i ≡ j = cc e in
          (0, omega (arith, index), rw (← base) (Fits-here need low w q rest some_need a wide))
      | inr tight ↦
          let e : region_loop need q rest (suc i) ≡ some (b, j) = rw tight at found in
          let (k, at_k, fits) =
            region_loop-Fits need (w.base + w.length) q rest (suc i) b j some_need a.2 e in
          (suc k, omega (arith, at_k), Fits-later need low w q rest b k a fits)
    ]

-- No two neighbours leave a gap of `need` bytes.
abbrev pub IsTight : ℕ → List VmmRegion → Type 0
IsTight need [] = Unit
IsTight need (w ∷ []) = Unit
IsTight need (w ∷ q ∷ rest) = (q.base < w.base + w.length + need) × IsTight need (q ∷ rest)

region_loop-IsTight :
    (need low : ℕ) (w : VmmRegion) (rest : List VmmRegion) (i : ℕ)
    → 0 < need
    → Ascending low (w ∷ rest)
    → region_loop need w rest i ≡ none
    → IsTight need (w ∷ rest)
unfolding region_loop
region_loop-IsTight need low w [] i some_need a missed = tt
region_loop-IsTight need low w (q ∷ rest) i some_need a missed =
    elim (Bool-cases (leb need (q.base - end_of w))) [
      | inl wide ↦
          let e : ◌≡◌ {A = Option (ℕ × ℕ)} (some (end_of w, i)) none = rw wide at missed in cc e
      | inr tight ↦
          let e : region_loop need q rest (suc i) ≡ none = rw tight at missed in
          (
            omega (arith, lt_of_leb need _ tight, a.0.inside),
            region_loop-IsTight need (w.base + w.length) q rest (suc i) some_need a.2 e,
          )
    ]

-- A fresh region `e` of a successful allocation.
pub record IsNew (p : Pagemap) (amount : ℕ) (flags : VmmFlags) (e : VmmRegion) (t : Pagemap)
    : Type 0 where
  pub region : IsRegion e
  pub size : e.length ≡ align_up amount page_size
  pub enough : amount ≤ e.length
  pub flagged : e.flags ≡ flags
  pub ascending : Ascending 0 t.khead
  pub taken : take_region e.base t.khead ≡ some (e, p.khead)
  pub calls : t.calls ≡ p.calls ++ take_node e.base ∷ []
  pub nonzero : 0 < e.base

abbrev pub Allocates : Pagemap → ℕ → VmmFlags → Option (VmmRegion × Pagemap) → Type 0
Allocates p amount flags none = (flags.user ≡ true) ⊎ IsTight (needed amount) p.khead
Allocates p amount flags (some (e, t)) = IsNew p amount flags e t

module _ (amount : ℕ) (some_amount : 0 < amount) (fits : amount + 2 * page_size ≤ 2 ^ 64) where
  needed_bounds :
      (amount ≤ align_up amount page_size)
      × (align_up amount page_size + page_size ≡ needed amount)
      × (align_up amount page_size % page_size ≡ 0)
  needed_bounds = omega (arith, align_up_page amount (omega arith))

  region_loop-IsNew :
      (w : VmmRegion) (rest : List VmmRegion) (calls : List PageCall) (flags : VmmFlags) (b i : ℕ)
      → Ascending 0 (w ∷ rest)
      → region_loop (needed amount) w rest 0 ≡ some (b, i)
      → IsNew (pagemap (w ∷ rest) calls) amount flags (region b (align_up amount page_size) flags) (
          pagemap
            (insert_after i (region b (align_up amount page_size) flags) (w ∷ rest))
            (calls ++ take_node b ∷ []))
  region_loop-IsNew w rest calls flags b i a found =
      let (k, at_k, fit) =
        region_loop-Fits (needed amount) 0 w rest 0 b i (omega (arith, needed_bounds)) a found in
      let same : k ≡ i = omega arith in
      let l = align_up amount page_size in
      let r : IsRegion (region b l flags) = record {
        nonempty = omega (arith, needed_bounds);
        inside = omega (arith, needed_bounds, fit.inside);
        base_aligned = fit.aligned;
        length_aligned = needed_bounds.2;
      } in
      record {
        region = r;
        size = refl;
        enough = needed_bounds.0;
        flagged = refl;
        ascending = rw (← same) (fit.placed l flags r (omega (arith, needed_bounds)));
        taken = rw (← same) (fit.taken l flags);
        calls = refl;
        nonzero = omega (arith, fit.above, a.0.nonempty);
      }

  place-Allocates :
      (khead : List VmmRegion) (calls : List PageCall) (flags : VmmFlags)
      → Ascending 0 khead
      → Allocates (pagemap khead calls) amount flags (
          place
            (align_up amount page_size)
            flags
            (pagemap khead calls)
            (calculate_region_location amount khead))
  unfolding calculate_region_location
  place-Allocates [] calls flags a = inr tt
  place-Allocates (w ∷ rest) calls flags a =
      elim (Option-cases (region_loop (needed amount) w rest 0)) [
        | inl missed ↦
            rw (missed, place)
              (inr (
                region_loop-IsTight (needed amount) 0 w rest 0 (omega (arith, needed_bounds)) a
                  missed))
        | inr ((b, i), found) ↦ rw (found, place) (region_loop-IsNew w rest calls flags b i a found)
      ]

  -- An allocation by whole pages from an ascending list either yields a fresh region, as `IsNew`
  -- says, or panics; a panic of a kernel allocation means that no gap is wide enough.
  pub new_region-Allocates :
      (p : Pagemap) (flags : VmmFlags)
      → Ascending 0 p.khead
      → Allocates p amount flags (new_region amount flags p)
  unfolding new_region
  new_region-Allocates p flags a =
      guarded (Allocates p amount flags) flags.user none _ (λ user. inl user)
        (λ kernel. place-Allocates p.khead p.calls flags a)
