-- ===== src/Memory/Slab/Serving.antt =====
-- Allocation along the slabs of a cache (`slab_header::alloc` of kernel/src/memory/slab.rs).
use native.Mathlib.Nat.{le-div_iff_mul-le}
use nyaux_kc.Base.{
  ℕ, zero, suc, ◌+◌, ◌-◌, ◌/◌, ◌%◌, ◌≤◌, ◌<◌, ◌≡◌, ◌≢◌, refl, sym, ap, ◌∙◌, subst, true, false,
  Option, some, none, List, [], ◌∷◌, has, length, ◌==◌, if◌then◌else◌, arith, ne→==, Returns, ◌>>=◌,
  ◌*◌, ◌⊎◌, inl, inr, ==_self,
}
use nyaux_kc.Memory.Align.{page_size}
use nyaux_kc.Memory.Slab.{Heap, header_size, put_header, object, init, next_slab, alloc}
use nyaux_kc.Memory.Slab.Objects.{IsSlab, LinkedFrom}
use nyaux_kc.Memory.Slab.Taking.{Takes, alloc-Takes}
use nyaux_kc.Memory.Slab.Made.{down, init-IsSlab}

-- The slabs from `page` on, with the free objects of each.
abbrev pub SlabsFrom : Heap → (size page : ℕ) → (l : List ℕ) → List (List ℕ) → Type 0
SlabsFrom s size page l [] = IsSlab s page size l × ((s.header page).other_slabs ≡ 0)
SlabsFrom s size page l (m ∷ ls) =
    IsSlab s page size l
    × ((s.header page).other_slabs ≢ 0)
    × SlabsFrom s size (s.header page).other_slabs m ls

-- The object was free in a slab of this size, or it lies in the page `q`.
abbrev pub WasFree : Heap → (q page size index : ℕ) → Type 0
WasFree s q page size index =
    ((l : List ℕ) × IsSlab s page size l × (has index l ≡ true)) ⊎ (page ≡ q)

-- An object of some slab, inside its page, all cleared, that was free before in `s` or lies in the
-- page `q`, and is not free any more.
abbrev pub Serves : Heap → (q size : ℕ) → Option (ℕ × Heap) → Type 0
Serves s q size none = ⊥
Serves s q size (some (a, t)) =
    (page : ℕ) × (index : ℕ) × (left : List ℕ) × (a ≡ object page size index)
    × (header_size + index * size + size ≤ page_size)
    × ((i : ℕ) → i < size → t.next (a + i) ≡ 0)
    × WasFree s q page size index
    × IsSlab t page size left
    × (has index left ≡ false)

taken-Serves :
    (s : Heap) (q page size : ℕ) (l : List ℕ) (r : Option (ℕ × Heap))
    → IsSlab s page size l
    → Takes s page size l r
    → Serves s q size r
taken-Serves s q page size l none sound taken = taken
taken-Serves s q page size l (some (a, t)) sound k = (
  page,
  k.index,
  k.left,
  k.address,
  k.room,
  k.cleared,
  inl (l, sound, sym (k.members k.index) ∙ rw (==_self k.index) refl),
  k.slab,
  k.out,
)

-- The first allocation in the page `q`, whatever the heap was.
first-Serves :
    (s u : Heap) (q size : ℕ) (l : List ℕ) (r : Option (ℕ × Heap))
    → Takes u q size l r
    → Serves s q size r
first-Serves s u q size l none taken = taken
first-Serves s u q size l (some (a, t)) k =
    (q, k.index, k.left, k.address, k.room, k.cleared, inr refl, k.slab, k.out)

alloc-step :
    (k page : ℕ) (s : Heap)
    → (s.header page).obj ≡ 0
    → alloc (suc k) page s ≡ (next_slab page >>= alloc k) s
unfolding alloc
alloc-step k page s full = rw (alloc, full) refl

next_slab-other :
    (page : ℕ) (s : Heap)
    → (s.header page).other_slabs ≢ 0
    → next_slab page s ≡ some ((s.header page).other_slabs, s)
unfolding next_slab
next_slab-other page s other = rw (next_slab, ne→== (s.header page).other_slabs 0 other) refl

-- `a.other_slabs = cur_slab`
abbrev attached : (page p : ℕ) → Heap → Heap
attached page p t = record t {
  header = put_header t.header page (record (t.header page) { other_slabs = p });
}

next_slab-run :
    (page p : ℕ) (s t : Heap)
    → (s.header page).other_slabs ≡ 0
    → init (s.header page).obj_size s ≡ some (p, t)
    → next_slab page s ≡ some (p, attached page p t)
unfolding next_slab
next_slab-run page p s t last made =
    let ended : ((s.header page).other_slabs == 0) ≡ true = rw last refl in
    rw (next_slab, ended, if◌then◌else◌, ◌>>=◌, made) refl

-- Attaching changes no other slab.
attached-IsSlab :
    (page p q size : ℕ) (t : Heap) (l : List ℕ)
    → q ≢ page
    → IsSlab t q size l
    → IsSlab (attached page p t) q size l
attached-IsSlab page p q size t l fresh sound =
    let kept : (attached page p t).header q ≡ t.header q = rw (ne→== q page fresh) refl in
    record {
      real = sound.real;
      aligned = sound.aligned;
      some_size = sound.some_size;
      sized = ap (λ h. h.obj_size) kept ∙ sound.sized;
      linked = subst (λ h. LinkedFrom t.next q size h.obj l) (sym kept) sound.linked;
      inside = sound.inside;
      distinct = sound.distinct;
      counted = ap (λ h. h.obj_am) kept ∙ sound.counted;
    }

module _ (size q : ℕ) (rest : List ℕ) (some_size : 0 < size) (fits : header_size + size ≤ page_size)
    (aligned : q % page_size ≡ 0) (real : 0 < q) where
  -- An allocation right behind the making of a slab.
  made-Serves :
      (k page : ℕ) (s : Heap) (r : Option (ℕ × Heap))
      → (s.header page).other_slabs ≡ 0
      → (s.header page).obj ≡ 0
      → q ≢ page
      → init (s.header page).obj_size s ≡ r
      → Returns (λ p t. (p ≡ q) × IsSlab t q size (down ((page_size - header_size) / size))) r
      → Serves s q size (alloc (suc (suc k)) page s)
  made-Serves k page s none last full fresh ran made = absurd made
  made-Serves k page s (some (p, t)) last full fresh ran (same, sound) =
      let some_object : 0 < (page_size - header_size) / size =
        (le-div_iff_mul-le some_size).1 (omega arith) in
      let am : (page_size - header_size) / size ≡ suc ((page_size - header_size) / size - 1) =
        omega (arith, some_object) in
      let there =
        attached-IsSlab page p q size t (down ((page_size - header_size) / size)) fresh sound in
      let there' = subst (λ n. IsSlab (attached page p t) q size (down n)) am there in
      let walk : alloc (suc (suc k)) page s ≡ alloc (suc k) q (attached page p t) =
        alloc-step (suc k) page s full
        ∙ rw (◌>>=◌, next_slab-run page p s t last ran)
            (ap (λ z. alloc (suc k) z (attached page p t)) same) in
      rw walk (
        first-Serves s (attached page p t) q size _ _ (
          alloc-Takes (attached page p t) k q size ((page_size - header_size) / size - 1) _ there'))

  -- Along well-formed slabs of a cache, of objects that fit into a page behind the header, with a
  -- fresh page for one more, aligned, not null, and that no header points to: an allocation ends,
  -- with fuel for one slab more than there are, and yields a cleared object, free before in a slab
  -- of that size or in the fresh page, which is then not free.
  pub alloc-Serves :
      (ls : List (List ℕ)) (l : List ℕ) (k page : ℕ) (s : Heap)
      → SlabsFrom s size page l ls
      → s.pages ≡ q ∷ rest
      → length ls < k
      → ((p : ℕ) → (s.header p).other_slabs ≢ q)
      → q ≢ page
      → Serves s q size (alloc (suc k) page s)
  alloc-Serves ls l zero page s slabs given enough unlinked fresh = absurd (omega arith)
  alloc-Serves [] (o ∷ l) (suc k) page s slabs given enough unlinked fresh =
      taken-Serves s q page size (o ∷ l) _ slabs.0 (alloc-Takes s (suc k) page size o l slabs.0)
  alloc-Serves (m ∷ ls) (o ∷ l) (suc k) page s slabs given enough unlinked fresh =
      taken-Serves s q page size (o ∷ l) _ slabs.0 (alloc-Takes s (suc k) page size o l slabs.0)
  alloc-Serves [] [] (suc k) page s slabs given enough unlinked fresh =
      made-Serves k page s (init (s.header page).obj_size s) slabs.1 slabs.0.linked fresh refl (
        subst
          (λ n.
            Returns (λ p t. (p ≡ q) × IsSlab t q size (down ((page_size - header_size) / size)))
              (init n s))
          (sym slabs.0.sized)
          (subst
            (λ ps.
              Returns (λ p t. (p ≡ q) × IsSlab t q size (down ((page_size - header_size) / size)))
                (init size (record s { pages = ps })))
            (sym given) (init-IsSlab q size rest s.header s.next aligned real some_size fits)))
  alloc-Serves (m ∷ ls) [] (suc k) page s slabs given enough unlinked fresh =
      let other = (s.header page).other_slabs in
      let walk : alloc (suc (suc k)) page s ≡ alloc (suc k) other s =
        alloc-step (suc k) page s slabs.0.linked
        ∙ rw (◌>>=◌, next_slab-other page s slabs.1) refl in
      rw walk (
        alloc-Serves ls m k other s slabs.2 given (omega arith) unlinked
          (λ e. unlinked page (sym e)))
