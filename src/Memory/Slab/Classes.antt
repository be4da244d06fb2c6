-- ===== src/Memory/Slab/Classes.antt =====
-- The cache that `slab_alloc` chooses (kernel/src/memory/slab.rs).
use native.Mathlib.Nat.{pow-suc}
use nyaux_kc.Base.{
  ℕ, suc, ◌+◌, ◌*◌, ◌%◌, ◌^◌, ◌≤◌, ◌<◌, ◌≡◌, ◌≢◌, ◌⊎◌, inl, inr, refl, false, Option, none, some,
  List, [], ◌∷◌, length, ltb, if◌then◌else◌, arith, Bool-cases, ne→==, ge→ltb, lt→ltb, ltb→lt, pure,
  ◌>>=◌,
}
use nyaux_kc.Memory.Align.{page_size}
use nyaux_kc.Memory.Slab.{Heap, SlabCache, header_size, alloc, slab_alloc}
use nyaux_kc.Memory.Slab.Serving.{SlabsFrom, Serves, alloc-Serves}

-- The caches of `init_slab`, whose sizes double: each has its slabs, at most `k` of them, and `q` is
-- none of the first ones.
abbrev pub AreCaches : Heap → (k q low : ℕ) → List SlabCache → Type 0
AreCaches s k q low [] = Unit
AreCaches s k q low (c ∷ cs) =
    (c.size ≡ 2 * low)
    × (header_size + c.size ≤ page_size)
    × (0 < c.slabs)
    × (q ≢ c.slabs)
    × ((l : List ℕ) × (ls : List (List ℕ)) × SlabsFrom s c.size c.slabs l ls × (length ls < k))
    × AreCaches s k q c.size cs

-- A fresh page: aligned, not null, and no slab.
pub record IsFresh (s : Heap) (q : ℕ) (rest : List ℕ) : Type 0 where
  pub first : s.pages ≡ q ∷ rest
  pub aligned : q % page_size ≡ 0
  pub real : 0 < q
  pub unlinked : (p : ℕ) → (s.header p).other_slabs ≢ q

-- A cleared object with room for the size, of the least cache, that was free in `s` or lies in the
-- page `q`.
abbrev pub Fits : Heap → (q size : ℕ) → Option (Option ℕ × Heap) → Type 0
Fits s q size none = ⊥
Fits s q size (some (none, t)) = ⊥
Fits s q size (some (some a, t)) =
    (o : ℕ) × (size ≤ o) × ((o ≡ 16) ⊎ (o < 2 * size)) × Serves s q o (some (a, t))

slab_alloc-chosen :
    (fuel size : ℕ) (c : SlabCache) (cs : List SlabCache) (s : Heap)
    → size ≤ c.size
    → 0 < c.slabs
    → slab_alloc fuel size (c ∷ cs) s
      ≡ elim (alloc fuel c.slabs s) [ none ↦ none | some (a, t) ↦ some (some a, t) ]
unfolding slab_alloc
slab_alloc-chosen fuel size c cs s fits there =
    let room = ge→ltb c.size size fits in
    let real = ne→== c.slabs 0 (omega arith) in
    rw (slab_alloc, room, real, if◌then◌else◌, ◌>>=◌, pure) refl

slab_alloc-next :
    (fuel size : ℕ) (c : SlabCache) (cs : List SlabCache) (s : Heap)
    → c.size < size
    → slab_alloc fuel size (c ∷ cs) s ≡ slab_alloc fuel size cs s
unfolding slab_alloc
slab_alloc-next fuel size c cs s small =
    rw (slab_alloc, lt→ltb c.size size small, if◌then◌else◌) refl

served-Fits :
    (s : Heap) (q size o : ℕ) (r : Option (ℕ × Heap))
    → size ≤ o
    → (o ≡ 16) ⊎ (o < 2 * size)
    → Serves s q o r
    → Fits s q size (elim r [ none ↦ none | some (a, t) ↦ some (some a, t) ])
served-Fits s q size o none room near served = served
served-Fits s q size o (some (a, t)) room near served = (o, room, near, served)

not_small : (a b : ℕ) → ltb a b ≡ false → b ≤ a
not_small a b h = ground arith

doubling : (a b n : ℕ) → b ≡ 2 * a → a * 2 ^ suc n ≡ b * 2 ^ n
doubling a b n twice = rw (twice, pow-suc 2 n) (grind arith)

module _ (size k q : ℕ) (rest : List ℕ) (s : Heap) (fresh : IsFresh s q rest) where
  chosen-Fits :
      (low : ℕ) (c : SlabCache) (cs : List SlabCache)
      → AreCaches s k q low (c ∷ cs)
      → 0 < low
      → (low ≡ 8) ⊎ (low < size)
      → size ≤ c.size
      → Fits s q size (slab_alloc (suc k) size (c ∷ cs) s)
  chosen-Fits low c cs caches some_low near room =
      let (doubled, fits, real, apart, (l, ls, slabs, few), others) = caches in
      rw (slab_alloc-chosen (suc k) size c cs s room real) (
        served-Fits s q size c.size (alloc (suc k) c.slabs s) room (near_size near) (
          alloc-Serves c.size q rest (omega arith) fits fresh.aligned fresh.real ls l k c.slabs s
            slabs fresh.first few fresh.unlinked apart))
    where
      near_size : (low ≡ 8) ⊎ (low < size) → (c.size ≡ 16) ⊎ (c.size < 2 * size)
      near_size (inl first) = inl (omega (arith, caches.0))
      near_size (inr below) = inr (omega (arith, caches.0))

  -- Among caches whose sizes double, from 16 or from a size that is too small on, each with
  -- well-formed slabs, a size that some cache can hold gets a cleared object from the least such
  -- cache, with fuel for one slab more than a cache has.
  pub slab_alloc-Fits :
      (low : ℕ) (c : SlabCache) (cs : List SlabCache)
      → AreCaches s k q low (c ∷ cs)
      → 0 < low
      → (low ≡ 8) ⊎ (low < size)
      → size ≤ c.size * 2 ^ length cs
      → Fits s q size (slab_alloc (suc k) size (c ∷ cs) s)
  slab_alloc-Fits low c [] caches some_low near enough =
      chosen-Fits low c [] caches some_low near (omega arith)
  slab_alloc-Fits low c (d ∷ ds) caches some_low near enough =
      let (doubled, fits, real, apart, slabs, others) = caches in
      let twice : c.size * 2 ^ suc (length ds) ≡ d.size * 2 ^ length ds =
        doubling c.size d.size (length ds) others.0 in
      elim (Bool-cases (ltb c.size size)) [
        | inl small ↦
            let below = ltb→lt c.size size small in
            rw (slab_alloc-next (suc k) size c (d ∷ ds) s below) (
              slab_alloc-Fits c.size d ds others (omega arith) (inr below)
                (omega (arith, twice, enough)))
        | inr room ↦ chosen-Fits low c (d ∷ ds) caches some_low near (not_small c.size size room)
      ]
