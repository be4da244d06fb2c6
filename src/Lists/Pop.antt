-- ===== src/Lists/Pop.antt =====
-- `pop_front`, `pop_back`, `remove` and `try_remove` (kernel/src/util/lists/mod.rs).
use nyaux_kc.Base.{
  ℕ, ◌%◌, ◌^◌, ◌<◌, ◌≡◌, refl, false, none, some, List, [], ◌∷◌, ◌++◌, arith, has-middle, head_or,
  last_or, last_or-append, length, length-append, Returns, ◌>>=◌, ◌==◌, lt→ltb, pos→ne_zero,
}
use mathlib.Core.List.{append-nil}
use nyaux_kc.Lists.{pop_front, pop_back, remove, try_remove, wrap_dec}
use nyaux_kc.Lists.Nodes.{Ptr, null, end_mark, InvasiveList, list, Memory, load-real, access-real}
use nyaux_kc.Lists.Segments.{
  Segment, Segment-right, Segment-left, has-last_or, lt_of_has, prev_of_has,
}
use nyaux_kc.Lists.Shape.{IsList, IsUnlinked, SameOutside, with_shape}
use nyaux_kc.Lists.Unlink.{unlinked, Segment-unlinked, unlinked-IsUnlinked, unlinked-outside}

-- The state in which `x` is taken out from between `xs` and `ys`.
abbrev taken : Memory → List Ptr → Ptr → List Ptr → ℕ → InvasiveList
taken m xs x ys n =
    list (unlinked m xs x ys) (head_or null (xs ++ ys)) (last_or null (xs ++ ys)) (wrap_dec n)

-- `x` is out and unlinked, the rest is in order, and other nodes are as they were.
pub record Taken (m : Memory) (xs : List Ptr) (x : Ptr) (ys : List Ptr) (t : InvasiveList)
    : Type 0 where
  pub rest : IsList t (xs ++ ys)
  pub free : IsUnlinked (t.mem x)
  pub same : SameOutside (xs ++ x ∷ ys) m t.mem

module _ (m : Memory) (n : ℕ) (xs : List Ptr) (x : Ptr) (ys : List Ptr)
    (c : Segment m end_mark (xs ++ x ∷ ys) end_mark) where
  taken-Taken : n ≡ length (xs ++ x ∷ ys) % 2 ^ 64 → Taken m xs x ys (taken m xs x ys n)
  unfolding wrap_dec
  taken-Taken count = record {
    rest = record {
      chain = Segment-unlinked m xs x ys c;
      first = refl;
      last = refl;
      count = omega (arith, length-append xs ys, length-append xs (x ∷ ys));
    };
    free = unlinked-IsUnlinked m xs x ys c;
    same = unlinked-outside m xs x ys c;
  }

lt→ne_end : (a : Ptr) → end_mark < a → (a == end_mark) ≡ false
lt→ne_end a h = ground arith

module _ (m : Memory) (n : ℕ) (x : Ptr) where
  pop_front-run :
      (ys : List Ptr)
      → Segment m end_mark (x ∷ ys) end_mark
      → pop_front (list m x (last_or x ys) n) ≡ some (some x, taken m [] x ys n)
  unfolding pop_front
  pop_front-run [] c =
      rw (
        pos→ne_zero x (omega arith),
        load-real x _ c.0,
        c.1.1,
        access-real x _ c.0,
        pop_front,
        ◌>>=◌,
      )
  pop_front-run (y ∷ ys) c = rw (
    pos→ne_zero x (omega arith),
    load-real x _ c.0,
    c.1.1,
    lt→ltb _ _ c.2.0,
    access-real y _ c.2.0,
    access-real x _ c.0,
    c.1.1,
    pop_front,
    ◌>>=◌,
  )

  pop_back-run :
      (xs : List Ptr)
      → Segment m end_mark (xs ++ x ∷ []) end_mark
      → pop_back (list m (head_or null (xs ++ x ∷ [])) x n) ≡ some (some x, taken m xs x [] n)
  unfolding pop_back
  pop_back-run [] c =
      rw (
        pos→ne_zero x (omega arith),
        load-real x _ c.0,
        c.1.0,
        access-real x _ c.0,
        pop_back,
        ◌>>=◌,
      )
  pop_back-run (z ∷ zs) c =
      let p = last_or z zs in
      let right = Segment-right m end_mark (z ∷ zs) (x ∷ []) end_mark c in
      let left = Segment-left m end_mark (z ∷ zs) (x ∷ []) end_mark c in
      let real : end_mark < p = lt_of_has m end_mark (z ∷ zs) x p left (has-last_or m z zs) in
      rw (
        pos→ne_zero x (omega arith),
        load-real x _ right.0,
        right.1.0,
        lt→ltb _ _ real,
        access-real p _ real,
        access-real x _ right.0,
        right.1.0,
        append-nil,
        pop_back,
        ◌>>=◌,
      )

  remove-run :
      (xs ys : List Ptr)
      → Segment m end_mark (xs ++ x ∷ ys) end_mark
      → remove x (list m (head_or null (xs ++ x ∷ ys)) (last_or null (xs ++ x ∷ ys)) n)
        ≡ some (tt, taken m xs x ys n)
  unfolding remove
  remove-run [] [] c =
      rw (load-real x _ c.0, c.1.1, c.1.0, c.1.0, c.1.1, access-real x _ c.0, remove, ◌>>=◌)
  remove-run [] (y ∷ ys) c = rw (
    load-real x _ c.0,
    c.1.1,
    lt→ltb _ _ c.2.0,
    c.1.0,
    access-real y _ c.2.0,
    c.1.0,
    c.1.1,
    lt→ne_end y c.2.0,
    access-real x _ c.0,
    remove,
    ◌>>=◌,
  )
  remove-run (z ∷ zs) [] c =
      let p = last_or z zs in
      let right = Segment-right m end_mark (z ∷ zs) (x ∷ []) end_mark c in
      let left = Segment-left m end_mark (z ∷ zs) (x ∷ []) end_mark c in
      let real : end_mark < p = lt_of_has m end_mark (z ∷ zs) x p left (has-last_or m z zs) in
      rw (
        load-real x _ right.0,
        right.1.1,
        right.1.0,
        lt→ne_end p real,
        right.1.0,
        lt→ltb _ _ real,
        right.1.1,
        access-real p _ real,
        access-real x _ right.0,
        append-nil,
        remove,
        ◌>>=◌,
      )
  remove-run (z ∷ zs) (y ∷ ys) c =
      let p = last_or z zs in
      let right = Segment-right m end_mark (z ∷ zs) (x ∷ y ∷ ys) end_mark c in
      let left = Segment-left m end_mark (z ∷ zs) (x ∷ y ∷ ys) end_mark c in
      let real : end_mark < p = lt_of_has m end_mark (z ∷ zs) x p left (has-last_or m z zs) in
      rw
        (
          load-real x _ right.0,
          right.1.1,
          lt→ltb _ _ right.2.0,
          right.1.0,
          access-real y _ right.2.0,
          right.1.0,
          right.1.1,
          lt→ltb _ _ real,
          access-real p _ real,
          access-real x _ right.0,
          remove,
          ◌>>=◌,
        )
        (rw (last_or-append z zs (x ∷ y ∷ ys), last_or-append z zs (y ∷ ys)))

module _ {s : InvasiveList} where
  -- Popping the front of a non-empty list yields its first item, unlinked; the rest stays in order.
  pub pop_front-Taken :
      (x : Ptr) (xs : List Ptr)
      → IsList s (x ∷ xs)
      → Returns (λ r t. (r ≡ some x) × Taken s.mem [] x xs t) (pop_front s)
  pop_front-Taken x xs is =
      with_shape (λ t. Returns (λ r t. (r ≡ some x) × Taken s.mem [] x xs t) (pop_front t)) s
        (x ∷ xs) is
        (rw (pop_front-run s.mem s.len x xs is.chain)
          (refl, taken-Taken s.mem s.len [] x xs is.chain is.count))

  pub pop_back-Taken :
      (xs : List Ptr) (x : Ptr)
      → IsList s (xs ++ x ∷ [])
      → Returns (λ r t. (r ≡ some x) × Taken s.mem xs x [] t) (pop_back s)
  pop_back-Taken xs x is =
      with_shape (λ t. Returns (λ r t. (r ≡ some x) × Taken s.mem xs x [] t) (pop_back t)) s
        (xs ++ x ∷ []) is
        (rw (last_or-append null xs (x ∷ []), pop_back-run s.mem s.len x xs is.chain)
          (refl, taken-Taken s.mem s.len xs x [] is.chain is.count))

  -- On an empty list both pops answer that there is nothing, and change nothing.
  pub pop-empty : IsList s [] → (pop_front s ≡ some (none, s)) × (pop_back s ≡ some (none, s))
  unfolding pop_front pop_back
  pop-empty is = (rw (is.first, pop_front), rw (is.last, pop_back))

  pub remove-Taken :
      (xs : List Ptr) (x : Ptr) (ys : List Ptr)
      → IsList s (xs ++ x ∷ ys)
      → Returns (λ _. Taken s.mem xs x ys) (remove x s)
  remove-Taken xs x ys is =
      with_shape (λ t. Returns (λ _. Taken s.mem xs x ys) (remove x t)) s (xs ++ x ∷ ys) is
        (rw (remove-run s.mem s.len x xs ys is.chain)
          (taken-Taken s.mem s.len xs x ys is.chain is.count))

  -- Where the item stands in the list, `try_remove` takes out just that item; where it is linked
  -- nowhere, `try_remove` changes nothing.
  pub try_remove-cases :
      (x : Ptr)
      → ((xs ys : List Ptr)
          → IsList s (xs ++ x ∷ ys)
          → Returns (λ _. Taken s.mem xs x ys) (try_remove x s))
        × (end_mark < x → IsUnlinked (s.mem x) → try_remove x s ≡ some (tt, s))
  unfolding try_remove
  try_remove-cases x = (
    λ xs ys is.
        let right = Segment-right s.mem end_mark xs (x ∷ ys) end_mark is.chain in
        let linked =
          prev_of_has s.mem end_mark (xs ++ x ∷ ys) end_mark x is.chain (omega arith)
            (has-middle x xs ys) in
        rw (load-real x s right.0, pos→ne_zero _ linked, try_remove, ◌>>=◌)
          (remove-Taken xs x ys is),
    λ real free. rw (load-real x s real, free.0, try_remove, ◌>>=◌),
  )
