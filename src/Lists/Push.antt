-- ===== src/Lists/Push.antt =====
-- `push_front` and `push_back` (kernel/src/util/lists/mod.rs).
use nyaux_kc.Base.{
  ℕ, ◌%◌, ◌^◌, ◌<◌, ◌≡◌, refl, true, false, some, List, [], ◌∷◌, ◌++◌, arith, has, head_or, last_or,
  last_or-append, length, length-append, max, sym, pos→ne_zero, Returns, ◌>>=◌, ◌==◌,
}
use nyaux_kc.Lists.{PushResult, ok, err, push_front, push_back, wrap_inc}
use nyaux_kc.Lists.Nodes.{
  Ptr, null, end_mark, InvasiveList, list, Memory, with_next, with_prev, load-real, access-real,
}
use nyaux_kc.Lists.Segments.{
  Segment, Segment-with_next_frame, Segment-with_prev_frame, Segment-with_prev, Segment-with_next,
  Segment-join, ne_of_has, has-last_or, lt_of_has, next_of_has,
}
use nyaux_kc.Lists.Shape.{IsList, SameOutside, not-has_of_null, with_shape}

module _ (m : Memory) (n : ℕ) (x : Ptr) (real : end_mark < x) (unlinked : (m x).next ≡ null) where
  push_front-empty :
      (l : Ptr)
      → push_front x (list m null l n)
        ≡ some (ok, list (with_prev (with_next m x end_mark) x end_mark) x x (wrap_inc n))
  unfolding push_front
  push_front-empty l =
      rw (
        load-real x _ real,
        unlinked,
        access-real x _ real,
        access-real x _ real,
        push_front,
        ◌>>=◌,
      )

  push_front-linked :
      (y l : Ptr)
      → end_mark < y
      → push_front x (list m y l n)
        ≡ some (ok, list (with_prev (with_prev (with_next m x y) x end_mark) y x) x l (wrap_inc n))
  unfolding push_front
  push_front-linked y l r =
      let top : max y end_mark ≡ y = omega arith in
      let some_first : (y == null) ≡ false = ground arith in
      rw (
        load-real x _ real,
        unlinked,
        top,
        access-real x _ real,
        access-real x _ real,
        some_first,
        access-real y _ r,
        push_front,
        ◌>>=◌,
      )

abbrev pub Pushed : Memory → List Ptr → List Ptr → PushResult → InvasiveList → Type 0
Pushed m changed xs r t = (r ≡ ok) × IsList t xs × SameOutside changed m t.mem

module _ (m : Memory) (n : ℕ) (x : Ptr) (real : end_mark < x) (unlinked : (m x).next ≡ null) where
  push_front_cells :
      (xs : List Ptr)
      → Segment m end_mark xs end_mark
      → has x xs ≡ false
      → n ≡ length xs % 2 ^ 64
      → Returns
          (Pushed m (x ∷ xs) (x ∷ xs))
          (push_front x (list m (head_or null xs) (last_or null xs) n))
  unfolding with_next with_prev wrap_inc
  push_front_cells [] c out count = rw (push_front-empty m n x real unlinked null) (
    refl,
    record { chain = ground arith; first = refl; last = refl; count = omega arith },
    λ a o. ground arith,
  )
  push_front_cells (y ∷ ys) c out count =
      let m1 = with_next m x y in
      let m2 = with_prev m1 x end_mark in
      let c1 = Segment-with_next_frame m end_mark (y ∷ ys) end_mark x y c out in
      let c2 = Segment-with_prev_frame m1 end_mark (y ∷ ys) end_mark x end_mark c1 out in
      let c3 = Segment-with_prev m2 end_mark y ys end_mark x c2 in
      rw (push_front-linked m n x real unlinked y (last_or y ys) c.0) (
        refl,
        record { chain = (real, ground arith, c3); first = refl; last = refl; count = omega arith },
        λ a o. ground arith,
      )

  push_back-empty :
      (f : Ptr)
      → push_back x (list m f null n)
        ≡ some (ok, list (with_next (with_prev m x end_mark) x end_mark) x x (wrap_inc n))
  unfolding push_back
  push_back-empty f =
      rw
        (load-real x _ real, unlinked, access-real x _ real, access-real x _ real, push_back, ◌>>=◌)

  push_back-linked :
      (y f : Ptr)
      → end_mark < y
      → push_back x (list m f y n)
        ≡ some (ok, list (with_next (with_next (with_prev m x y) x end_mark) y x) f x (wrap_inc n))
  unfolding push_back
  push_back-linked y f r =
      let top : max y end_mark ≡ y = omega arith in
      let some_last : (y == null) ≡ false = ground arith in
      rw (
        load-real x _ real,
        unlinked,
        top,
        access-real x _ real,
        access-real x _ real,
        some_last,
        access-real y _ r,
        push_back,
        ◌>>=◌,
      )

  push_back_cells :
      (xs : List Ptr)
      → Segment m end_mark xs end_mark
      → has x xs ≡ false
      → n ≡ length xs % 2 ^ 64
      → Returns
          (Pushed m (x ∷ xs) (xs ++ x ∷ []))
          (push_back x (list m (head_or null xs) (last_or null xs) n))
  unfolding wrap_inc
  push_back_cells [] c out count = rw (push_back-empty null) (
    refl,
    record {
      chain = unfold with_next with_prev in ground arith;
      first = refl;
      last = refl;
      count = omega arith;
    },
    λ a o. unfold with_next with_prev in ground arith,
  )
  push_back_cells (y ∷ ys) c out count =
      let z = last_or y ys in
      let m1 = with_prev m x z in
      let m2 = with_next m1 x end_mark in
      let c1 = Segment-with_prev_frame m end_mark (y ∷ ys) end_mark x z c out in
      let c2 = Segment-with_next_frame m1 end_mark (y ∷ ys) end_mark x end_mark c1 out in
      let c3 = Segment-with_next m2 end_mark y ys end_mark x c2 in
      let apart = ne_of_has z x (y ∷ ys) (has-last_or m y ys) out in
      rw (push_back-linked z y (lt_of_has m end_mark (y ∷ ys) end_mark z c (has-last_or m y ys))) (
        refl,
        record {
          chain =
              Segment-join (with_next m2 z x) end_mark (y ∷ ys) (x ∷ []) end_mark c3
                (real, unfold with_next with_prev in rw (apart) (ground arith), tt)
                (λ a i. ground (arith, ne_of_has a x (y ∷ ys) i out));
          first = refl;
          last = sym (last_or-append y ys (x ∷ []));
          count = omega (arith, length-append ys (x ∷ []));
        },
        λ a o.
            unfold with_next with_prev in
            ground (arith, ne_of_has z a (y ∷ ys) (has-last_or m y ys)),
      )

module _ {s : InvasiveList} {xs : List Ptr} (x : Ptr) (is : IsList s xs) where
  -- Pushing an unlinked item to the front succeeds: the list then stands for the item followed by
  -- the old items, and no node of any other list is touched.
  pub push_front-IsList :
      end_mark < x
      → (s.mem x).next ≡ null
      → Returns (Pushed s.mem (x ∷ xs) (x ∷ xs)) (push_front x s)
  push_front-IsList real unlinked =
      with_shape (λ t. Returns (Pushed s.mem (x ∷ xs) (x ∷ xs)) (push_front x t)) s xs is
        (push_front_cells s.mem s.len x real unlinked xs is.chain (not-has_of_null x is unlinked)
          is.count)

  pub push_back-IsList :
      end_mark < x
      → (s.mem x).next ≡ null
      → Returns (Pushed s.mem (x ∷ xs) (xs ++ x ∷ [])) (push_back x s)
  push_back-IsList real unlinked =
      with_shape (λ t. Returns (Pushed s.mem (x ∷ xs) (xs ++ x ∷ [])) (push_back x t)) s xs is
        (push_back_cells s.mem s.len x real unlinked xs is.chain (not-has_of_null x is unlinked)
          is.count)

  -- An item that stands in the list is refused by both pushes, and nothing changes.
  pub push-linked :
      has x xs ≡ true → (push_front x s ≡ some (err, s)) × (push_back x s ≡ some (err, s))
  unfolding push_front push_back
  push-linked i =
      let real = lt_of_has s.mem end_mark xs end_mark x is.chain i in
      let linked : ((s.mem x).next == null) ≡ false =
        pos→ne_zero _ (next_of_has s.mem end_mark xs end_mark x is.chain (omega arith) i) in
      (
        rw (load-real x s real, linked, push_front, ◌>>=◌),
        rw (load-real x s real, linked, push_back, ◌>>=◌),
      )
