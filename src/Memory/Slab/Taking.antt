-- ===== src/Memory/Slab/Taking.antt =====
-- Allocation in a slab (`slab_header::alloc` of kernel/src/memory/slab.rs).
use nyaux_kc.Base.{
  ℕ, suc, ◌+◌, ◌-◌, ◌*◌, ◌≤◌, ◌≡◌, ◌≢◌, refl, sym, ap, ◌∙◌, subst, Bool, true, false, ◌||◌, Option,
  none, some, List, [], ◌∷◌, has, ◌==◌, arith, ==_self, ne→==, ◌<◌,
}
use nyaux_kc.Memory.Align.{page_size}
use nyaux_kc.Memory.Slab.{
  SlabHeader, Heap, header_size, put_header, put_next, wiped, object, take_object, alloc,
}
use nyaux_kc.Memory.Slab.Objects.{
  LinkedFrom, IsSlab, wiped_other, wiped_inside, put_next_other, LinkedFrom-same, member_ne,
}

-- An allocation at a slab with the free objects `l` takes one of them, clears the whole of it, and
-- leaves the others.
pub record IsTaken (s : Heap) (page size : ℕ) (l : List ℕ) (a : ℕ) (t : Heap) : Type 0 where
  pub index : ℕ
  pub left : List ℕ
  pub address : a ≡ object page size index
  pub room : header_size + index * size + size ≤ page_size
  pub cleared : (i : ℕ) → i < size → t.next (a + i) ≡ 0
  pub out : has index left ≡ false
  pub slab : IsSlab t page size left
  pub members : (j : ℕ) → has j (index ∷ left) ≡ has j l

take_object-last :
    (s : Heap) (page size o : ℕ)
    → IsSlab s page size (o ∷ [])
    → (t : Heap) × (take_object page s ≡ some (object page size o, t))
      × IsTaken s page size (o ∷ []) (object page size o) t
unfolding take_object
take_object-last s page size o sound =
    let h = s.header page in
    let head : h.obj ≡ object page size o = sound.linked.0 in
    let ended : (s.next h.obj == 0) ≡ true = rw (head, sound.linked.1) refl in
    let t : Heap = record s {
      header = put_header s.header page (record h { obj_am = h.obj_am - 1; obj = 0 });
      next = wiped s.next h.obj h.obj_size;
    } in
    let self : put_header s.header page (record h { obj_am = h.obj_am - 1; obj = 0 }) page
        ≡ record h { obj_am = h.obj_am - 1; obj = 0 } =
      rw (==_self page) refl in
    (
      t,
      rw (take_object, ended) (ap (λ a. some (a, t)) head),
      record {
        index = o;
        left = [];
        address = refl;
        room = sound.inside.0;
        cleared = λ i inside.
            rw (head, sound.sized) (wiped_inside s.next (object page size o) size i inside);
        out = refl;
        slab = record {
          real = sound.real;
          aligned = sound.aligned;
          some_size = sound.some_size;
          sized = ap (λ x. x.obj_size) self ∙ sound.sized;
          linked = ap (λ x. x.obj) self;
          inside = tt;
          distinct = tt;
          counted = ap (λ x. x.obj_am) self ∙ omega (arith, sound.counted);
        };
        members = λ j. refl;
      },
    )

-- The second object of the list is taken: it is unlinked from the first, and cleared.
module _ (s : Heap) (page size o b : ℕ) (l : List ℕ) (sound : IsSlab s page size (o ∷ b ∷ l)) where
  abbrev first : ℕ
  first = object page size o

  abbrev second : ℕ
  second = object page size b

  abbrev unlinked : ℕ → ℕ
  unlinked = wiped (put_next s.next first (s.next second)) second size

  abbrev header_after : SlabHeader
  header_after = record (s.header page) { obj_am = (s.header page).obj_am - 1 }

  abbrev after : Heap
  after = record s { header = put_header s.header page header_after; next = unlinked }

  b≢o : b ≢ o
  b≢o same =
      let bad : (o == b) ≡ true = rw (same) (==_self o) in absurd (ground (arith, sound.distinct.0))

  take_object-run : take_object page s ≡ some (second, after)
  unfolding take_object
  take_object-run =
      let next_first : s.next first ≡ second = sound.linked.1.0 in
      let more : (second == 0) ≡ false = ne→== second 0 (omega (arith, sound.real)) in
      rw (take_object, sound.linked.0, next_first, more, sound.sized) refl

  first-links : unlinked first ≡ s.next second
  first-links =
      wiped_other (put_next s.next first (s.next second)) page size b o sound.some_size b≢o
      ∙ rw (==_self first) refl

  others-link :
      (i : ℕ) → has i l ≡ true → unlinked (object page size i) ≡ s.next (object page size i)
  others-link i on =
      let from_b : b ≢ i = member_ne i b l on sound.distinct.1.0 in
      let o_out : has o l ≡ false = ground (arith, sound.distinct.0) in
      let from_o : o ≢ i = member_ne i o l on o_out in
      wiped_other (put_next s.next first (s.next second)) page size b i sound.some_size from_b
      ∙ put_next_other s.next page size o i (s.next second) sound.some_size from_o

  after-IsTaken : IsTaken s page size (o ∷ b ∷ l) second after
  after-IsTaken =
      let self : put_header s.header page header_after page ≡ header_after =
        rw (==_self page) refl in
      record {
        index = b;
        left = o ∷ l;
        address = refl;
        room = sound.inside.1.0;
        cleared =
            λ i inside. wiped_inside (put_next s.next first (s.next second)) second size i inside;
        out = rw (ne→== b o b≢o) sound.distinct.1.0;
        slab = record {
          real = sound.real;
          aligned = sound.aligned;
          some_size = sound.some_size;
          sized = ap (λ x. x.obj_size) self ∙ sound.sized;
          linked = (
            ap (λ x. x.obj) self ∙ sound.linked.0,
            subst (λ n. LinkedFrom unlinked page size n l) (sym first-links)
                (LinkedFrom-same s.next unlinked page size (s.next second) l others-link
                  sound.linked.1.1),
          );
          inside = (sound.inside.0, sound.inside.1.1);
          distinct = (ground (arith, sound.distinct.0), sound.distinct.1.1);
          counted = ap (λ x. x.obj_am) self ∙ omega (arith, sound.counted);
        };
        members = λ j. or_swap (j == b) (j == o) (has j l);
      }
    where
      or_swap : (x y z : Bool) → (x || (y || z)) ≡ (y || (x || z))
      or_swap true true z = refl
      or_swap true false z = refl
      or_swap false y z = refl

abbrev pub Takes : Heap → (page size : ℕ) → List ℕ → Option (ℕ × Heap) → Type 0
Takes s page size l none = ⊥
Takes s page size l (some (a, t)) = IsTaken s page size l a t

take_object-Takes :
    (s : Heap) (page size o : ℕ) (l : List ℕ)
    → IsSlab s page size (o ∷ l)
    → Takes s page size (o ∷ l) (take_object page s)
take_object-Takes s page size o [] sound =
    let (t, ran, taken) = take_object-last s page size o sound in rw ran taken
take_object-Takes s page size o (b ∷ l) sound =
    rw (take_object-run s page size o b l sound) (after-IsTaken s page size o b l sound)

pub alloc-Takes :
    (s : Heap) (fuel page size o : ℕ) (l : List ℕ)
    → IsSlab s page size (o ∷ l)
    → Takes s page size (o ∷ l) (alloc (suc fuel) page s)
unfolding alloc
alloc-Takes s fuel page size o l sound =
    let full : ((s.header page).obj == 0) ≡ false =
      ne→== (s.header page).obj 0 (omega (arith, sound.linked.0, sound.real)) in
    rw (alloc, full) (take_object-Takes s page size o l sound)
