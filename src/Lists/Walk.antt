-- ===== src/Lists/Walk.antt =====
-- The operations that walk the list: `contains` and `clear` (kernel/src/util/lists/mod.rs). Fuel
-- above the number of items is enough for either.
use nyaux_kc.Base.{
  ℕ, zero, suc, ◌^◌, ◌<◌, ◌≡◌, refl, true, some, List, [], ◌∷◌, arith, has, head_or, length,
  Returns, ◌>>=◌, ◌==◌, leb, lt→leb, Bool-cases, inl, inr, ◌∙◌, subst, sym,
}
use nyaux_kc.Lists.{contains, contains_loop, clear, clear_loop}
use nyaux_kc.Lists.Nodes.{
  Ptr, null, end_mark, InvasiveList, list, Memory, with_next, with_prev, load-real, access-real,
}
use nyaux_kc.Lists.Segments.{Segment, Segment-with_next_frame, Segment-with_prev_frame}
use nyaux_kc.Lists.Shape.{IsList, IsUnlinked, SameOutside, not-has_of_null}

module _ (s : InvasiveList) (thing : Ptr) where
  contains_loop-has :
      (k : ℕ) (d : Ptr) (p : Ptr) (xs : List Ptr)
      → leb d end_mark ≡ true
      → Segment s.mem p xs end_mark
      → length xs < k
      → contains_loop thing k (head_or d xs) s ≡ some (has thing xs, s)
  unfolding contains_loop
  contains_loop-has zero d p xs stop c enough = absurd (omega arith)
  contains_loop-has (suc k) d p [] stop c enough = rw (stop, contains_loop)
  contains_loop-has (suc k) d p (x ∷ xs) stop c enough =
      let rest = contains_loop-has k end_mark x xs refl c.2 (omega arith) in
      elim (Bool-cases (x == thing)) [
        | inl same ↦
            let found : has thing (x ∷ xs) ≡ true = ground arith in
            rw (lt→leb x end_mark c.0, load-real x s c.0, same, found, contains_loop, ◌>>=◌)
        | inr other ↦
            let skip : has thing (x ∷ xs) ≡ has thing xs = ground arith in
            rw (lt→leb x end_mark c.0, load-real x s c.0, other, c.1.1, skip, contains_loop, ◌>>=◌)
              rest
      ]

module _ {s : InvasiveList} {xs : List Ptr} (is : IsList s xs) (fuel : ℕ)
    (enough : length xs < fuel) where
  -- With fuel above the number of items, `contains` says for every real address, linked or not,
  -- whether it is an item of the list, and changes nothing.
  pub contains-has :
      (thing : Ptr) → end_mark < thing → contains fuel thing s ≡ some (has thing xs, s)
  unfolding contains
  contains-has thing real = elim (Bool-cases ((s.mem thing).next == null)) [
    | inl free ↦
        let out = not-has_of_null thing is (ground arith) in
        rw (load-real thing s real, free, out, contains, ◌>>=◌)
    | inr linked ↦
        rw (load-real thing s real, linked, contains, ◌>>=◌)
          (subst (λ f. contains_loop thing fuel f s ≡ some (has thing xs, s)) (sym is.first)
            (contains_loop-has s thing fuel null end_mark xs refl is.chain enough))
  ]

-- The memory once the links of all of `xs` are cleared.
abbrev pub cleared : Memory → List Ptr → Memory
cleared m [] = m
cleared m (x ∷ xs) = cleared (with_prev (with_next m x null) x null) xs

pub cleared-outside : (m : Memory) (xs : List Ptr) → SameOutside xs m (cleared m xs)
unfolding with_prev with_next
cleared-outside m [] a o = refl
cleared-outside m (x ∷ xs) a o =
    cleared-outside (with_prev (with_next m x null) x null) xs a (ground arith) ∙ ground arith

pub cleared-IsUnlinked :
    (m : Memory) (p : Ptr) (xs : List Ptr) (q a : Ptr)
    → Segment m p xs q
    → has a xs ≡ true
    → IsUnlinked (cleared m xs a)
unfolding with_prev with_next
cleared-IsUnlinked m p [] q a c i = cc
cleared-IsUnlinked m p (x ∷ xs) q a c i =
    let m' = with_prev (with_next m x null) x null in
    let c' =
      Segment-with_prev_frame (with_next m x null) x xs q x null
        (Segment-with_next_frame m x xs q x null c.2 c.1.2) c.1.2 in
    elim (Bool-cases (has a xs)) [
      | inl rest ↦ cleared-IsUnlinked m' x xs q a c' rest
      | inr out ↦ rw (cleared-outside m' xs a out) (ground arith)
    ]

clear_loop-run :
    (k : ℕ) (d p : Ptr) (xs : List Ptr) (m : Memory) (f l : Ptr) (n : ℕ)
    → leb d end_mark ≡ true
    → Segment m p xs end_mark
    → length xs < k
    → clear_loop k (head_or d xs) (list m f l n) ≡ some (tt, list (cleared m xs) f l n)
unfolding clear_loop
clear_loop-run zero d p xs m f l n stop c enough = absurd (omega arith)
clear_loop-run (suc k) d p [] m f l n stop c enough = rw (stop, clear_loop)
clear_loop-run (suc k) d p (x ∷ xs) m f l n stop c enough =
    let m' = with_prev (with_next m x null) x null in
    let c' =
      Segment-with_prev_frame (with_next m x null) x xs end_mark x null
        (Segment-with_next_frame m x xs end_mark x null c.2 c.1.2) c.1.2 in
    rw
      (
        lt→leb x end_mark c.0,
        load-real x _ c.0,
        access-real x _ c.0,
        access-real x _ c.0,
        c.1.1,
        clear_loop,
        ◌>>=◌,
      )
      (clear_loop-run k end_mark x xs m' f l n refl c' (omega arith))

-- What `InvasiveList::clear` leaves behind.
pub record Cleared (s : InvasiveList) (xs : List Ptr) (t : InvasiveList) : Type 0 where
  pub first : t.first ≡ null
  pub last : t.last ≡ null
  pub len : t.len ≡ s.len
  pub free : (a : Ptr) → has a xs ≡ true → IsUnlinked (t.mem a)
  pub same : SameOutside xs s.mem t.mem

module _ {s : InvasiveList} {xs : List Ptr} (is : IsList s xs) (fuel : ℕ)
    (enough : length xs < fuel) where
  clear-run : clear fuel s ≡ some (tt, list (cleared s.mem xs) null null s.len)
  unfolding clear
  clear-run =
      rw (is.first, clear)
        (clear_loop-run fuel null end_mark xs s.mem null null s.len refl is.chain enough)

  cleared-Cleared : Cleared s xs (list (cleared s.mem xs) null null s.len)
  cleared-Cleared = record {
    first = refl;
    last = refl;
    len = refl;
    free = λ a i. cleared-IsUnlinked s.mem end_mark xs end_mark a is.chain i;
    same = cleared-outside s.mem xs;
  }

  -- With fuel above the number of items, `clear` resets both ends, unlinks exactly the items of the
  -- list, touches no other node, and leaves `len` as it was.
  pub clear-Cleared : Returns (λ _. Cleared s xs) (clear fuel s)
  clear-Cleared = rw (clear-run) cleared-Cleared

-- Where the list holds an item, and fewer than 2 ^ 64 of them, `InvasiveList::clear` with fuel above
-- their number returns with both ends null, exactly the items unlinked, every other node as it was,
-- and the old `len`, so that the list is no well-formed empty one.
pub clear-not-IsList :
    (s : InvasiveList) (x : Ptr) (xs : List Ptr) (fuel : ℕ)
    → IsList s (x ∷ xs)
    → suc (length xs) < fuel
    → suc (length xs) < 2 ^ 64
    → Returns (λ _ t. Cleared s (x ∷ xs) t × (¬ IsList t [])) (clear fuel s)
clear-not-IsList s x xs fuel is enough small =
    rw (clear-run is fuel enough)
      (cleared-Cleared is fuel enough, λ bad. omega (arith, is.count, bad.count))
