-- ===== src/Memory/Slab/Giving.antt =====
-- Giving objects back (`slab_dealloc` of kernel/src/memory/slab.rs).
use nyaux_kc.Base.{
  ℕ, suc, ◌+◌, ◌*◌, ◌≤◌, ◌≡◌, ◌≢◌, refl, sym, ap, ◌∙◌, subst, true, false, ◌||◌, Option, none, some,
  List, ◌∷◌, has, ◌==◌, if◌then◌else◌, arith, Bool-cases, inl, inr, ==_self, ==→eq, ne→==, Returns,
  ◌<◌,
}
use nyaux_kc.Memory.Align.{page_size}
use nyaux_kc.Memory.Slab.{
  SlabHeader, Heap, header_size, put_header, put_next, wiped, object, alloc, page_of, slab_dealloc,
}
use nyaux_kc.Memory.Slab.Objects.{
  LinkedFrom, IsSlab, wiped_other, wiped_self, put_next_other, LinkedFrom-same, member_ne,
  page_of-object,
}
use nyaux_kc.Memory.Slab.Taking.{Takes, alloc-Takes}

-- Giving back an object of the slab that is not free.
module _ (t : Heap) (page size i : ℕ) (l : List ℕ) (sound : IsSlab t page size l)
    (room : header_size + i * size + size ≤ page_size) (out : has i l ≡ false) where
  abbrev addr : ℕ
  addr = object page size i

  abbrev top : ℕ
  top = (t.header page).obj

  abbrev relinked : ℕ → ℕ
  relinked = if top == 0 then wiped t.next addr size else put_next (wiped t.next addr size) addr top

  abbrev given_header : SlabHeader
  given_header = record (t.header page) { obj = addr; obj_am = (t.header page).obj_am + 1 }

  abbrev released : Heap
  released = record t { header = put_header t.header page given_header; next = relinked }

  slab_dealloc-run : slab_dealloc addr t ≡ some (tt, released)
  unfolding slab_dealloc
  slab_dealloc-run =
      let real : (addr == 0) ≡ false = ne→== addr 0 (omega (arith, sound.real)) in
      let here : page_of addr ≡ page =
        page_of-object page size i sound.aligned sound.some_size room in
      rw (slab_dealloc, real, here, sound.sized) refl

  relinked_self : relinked addr ≡ top
  relinked_self = elim (Bool-cases (top == 0)) [
    | inl null ↦ rw null (wiped_self t.next addr size sound.some_size ∙ sym (==→eq top 0 null))
    | inr other ↦ rw (other, ==_self addr) refl
  ]

  relinked_other :
      (j : ℕ) → has j l ≡ true → relinked (object page size j) ≡ t.next (object page size j)
  relinked_other j on =
      let apart : i ≢ j = member_ne j i l on out in
      let kept = wiped_other t.next page size i j sound.some_size apart in
      elim (Bool-cases (top == 0)) [
        | inl null ↦ rw null kept
        | inr other ↦
            rw other (
              put_next_other (wiped t.next addr size) page size i j top sound.some_size apart
              ∙ kept)
      ]

  released-IsSlab : IsSlab released page size (i ∷ l)
  released-IsSlab =
      let self : put_header t.header page given_header page ≡ given_header =
        rw (==_self page) refl in
      record {
        real = sound.real;
        aligned = sound.aligned;
        some_size = sound.some_size;
        sized = ap (λ x. x.obj_size) self ∙ sound.sized;
        linked = (
          ap (λ x. x.obj) self,
          subst (λ n. LinkedFrom relinked page size n l) (sym relinked_self)
              (LinkedFrom-same t.next relinked page size top l relinked_other sound.linked),
        );
        inside = (room, sound.inside);
        distinct = (out, sound.distinct);
        counted = ap (λ x. x.obj_am) self ∙ omega (arith, sound.counted);
      }

-- What `slab_dealloc` of the allocated object does.
abbrev pub Restores : (page size : ℕ) → List ℕ → Option (ℕ × Heap) → Type 0
Restores page size l none = ⊥
Restores page size l (some (a, t)) =
    (index : ℕ) × (left : List ℕ) × (a ≡ object page size index)
    × ((i : ℕ) → i < size → t.next (a + i) ≡ 0)
    × IsSlab t page size left
    × ((j : ℕ) → has j l ≡ ((j == index) || has j left))
    × (has index left ≡ false)
    × Returns (λ _ u. IsSlab u page size (index ∷ left)) (slab_dealloc a t)

restored :
    (s : Heap) (page size : ℕ) (l : List ℕ) (r : Option (ℕ × Heap))
    → Takes s page size l r
    → Restores page size l r
restored s page size l none taken = taken
restored s page size l (some (a, t)) k = (
  k.index,
  k.left,
  k.address,
  k.cleared,
  k.slab,
  (λ j. sym (k.members j)),
  k.out,
  subst (λ z. Returns (λ _ u. IsSlab u page size (k.index ∷ k.left)) (slab_dealloc z t))
      (sym k.address)
      (rw (slab_dealloc-run t page size k.index k.left k.slab k.room k.out)
        (released-IsSlab t page size k.index k.left k.slab k.room k.out)),
)

-- At a slab with a free object, an allocation yields one of the free objects, cleared at each of its
-- bytes' addresses, and leaves a well-formed slab whose free objects are exactly the others; giving the object back leaves a
-- well-formed slab with the same free objects as before.
pub alloc-slab_dealloc :
    (s : Heap) (fuel page size o : ℕ) (l : List ℕ)
    → IsSlab s page size (o ∷ l)
    → Restores page size (o ∷ l) (alloc (suc fuel) page s)
alloc-slab_dealloc s fuel page size o l sound =
    restored s page size (o ∷ l) (alloc (suc fuel) page s) (alloc-Takes s fuel page size o l sound)
