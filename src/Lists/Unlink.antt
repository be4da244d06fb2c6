-- ===== src/Lists/Unlink.antt =====
-- Taking a node out of a chain: its neighbours are linked to each other, and its own links are
-- cleared (kernel/src/util/lists/mod.rs).
use nyaux_kc.Base.{
  ◌≡◌, refl, true, false, List, [], ◌∷◌, ◌++◌, arith, has, has-append, head_or, last_or,
}
use nyaux_kc.Lists.Nodes.{Ptr, end_mark, new_node, Memory, write, with_next, with_prev}
use nyaux_kc.Lists.Segments.{
  Segment, Segment-with_next_frame, Segment-with_prev_frame, Segment-with_prev, Segment-with_next,
  Segment-join, Segment-left, Segment-right, Segment-apart, Segment-write, has-last_or, ne_of_has,
}
use nyaux_kc.Lists.Shape.{SameOutside, IsUnlinked}

-- The first node of `ys`, if there is one, gets `v` for its predecessor.
abbrev pub bridge_prev : Memory → List Ptr → Ptr → Memory
bridge_prev m [] v = m
bridge_prev m (y ∷ ys) v = with_prev m y v

-- The last node of `xs`, if there is one, gets `v` for its successor.
abbrev pub bridge_next : Memory → List Ptr → Ptr → Memory
bridge_next m [] v = m
bridge_next m (x ∷ xs) v = with_next m (last_or x xs) v

-- The memory once `x` is taken out from between `xs` and `ys`.
abbrev pub unlinked : Memory → List Ptr → Ptr → List Ptr → Memory
unlinked m xs x ys =
    write (bridge_next (bridge_prev m ys (last_or end_mark xs)) xs (head_or end_mark ys)) x new_node

abbrev Apart : List Ptr → List Ptr → Type 0
Apart xs ys = (a : Ptr) → has a xs ≡ true → has a ys ≡ false

Apart-sym : (xs ys : List Ptr) → Apart xs ys → Apart ys xs
Apart-sym xs ys h a i = ground (arith, h a)

module _ (m : Memory) (v : Ptr) where
  Segment-bridge_prev :
      (p : Ptr) (ys : List Ptr) (q : Ptr) → Segment m p ys q → Segment (bridge_prev m ys v) v ys q
  Segment-bridge_prev p [] q s = tt
  Segment-bridge_prev p (y ∷ ys) q s = Segment-with_prev m p y ys q v s

  Segment-bridge_next :
      (p : Ptr) (xs : List Ptr) (q : Ptr) → Segment m p xs q → Segment (bridge_next m xs v) p xs v
  Segment-bridge_next p [] q s = tt
  Segment-bridge_next p (x ∷ xs) q s = Segment-with_next m p x xs q v s

  Segment-bridge_prev_frame :
      (p : Ptr) (xs ys : List Ptr) (q : Ptr)
      → Segment m p xs q
      → Apart ys xs
      → Segment (bridge_prev m ys v) p xs q
  Segment-bridge_prev_frame p xs [] q s apart = s
  Segment-bridge_prev_frame p xs (y ∷ ys) q s apart =
      Segment-with_prev_frame m p xs q y v s (apart y (ground arith))

  Segment-bridge_next_frame :
      (p : Ptr) (xs ys : List Ptr) (q : Ptr)
      → Segment m p ys q
      → Apart xs ys
      → Segment (bridge_next m xs v) p ys q
  Segment-bridge_next_frame p [] ys q s apart = s
  Segment-bridge_next_frame p (x ∷ xs) ys q s apart =
      Segment-with_next_frame m p ys q (last_or x xs) v s (apart _ (has-last_or m x xs))

  bridge_prev-outside : (ys : List Ptr) → SameOutside ys m (bridge_prev m ys v)
  unfolding with_prev
  bridge_prev-outside [] a o = refl
  bridge_prev-outside (y ∷ ys) a o = ground arith

  bridge_next-outside : (xs : List Ptr) → SameOutside xs m (bridge_next m xs v)
  unfolding with_next
  bridge_next-outside [] a o = refl
  bridge_next-outside (x ∷ xs) a o =
      ground (arith, ne_of_has (last_or x xs) a (x ∷ xs) (has-last_or m x xs) o)

module _ (m : Memory) (xs : List Ptr) (x : Ptr) (ys : List Ptr)
    (c : Segment m end_mark (xs ++ x ∷ ys) end_mark) where
  -- What stands round the node is one chain again.
  pub Segment-unlinked : Segment (unlinked m xs x ys) end_mark (xs ++ ys) end_mark
  Segment-unlinked =
      let p = last_or end_mark xs in
      let q = head_or end_mark ys in
      let m1 = bridge_prev m ys p in
      let m2 = bridge_next m1 xs q in
      let apart : Apart xs (x ∷ ys) = Segment-apart m end_mark xs (x ∷ ys) end_mark c in
      let apart_ys : Apart xs ys = λ a i. ground (arith, apart a) in
      let left = Segment-left m end_mark xs (x ∷ ys) end_mark c in
      let right = Segment-right m end_mark xs (x ∷ ys) end_mark c in
      let l1 = Segment-bridge_prev_frame m p end_mark xs ys x left (Apart-sym xs ys apart_ys) in
      let l2 = Segment-bridge_next m1 q end_mark xs x l1 in
      let r1 = Segment-bridge_prev m p x ys end_mark right.2 in
      let r2 = Segment-bridge_next_frame m1 q p xs ys end_mark r1 apart_ys in
      let out : has x xs ≡ false = Apart-sym xs (x ∷ ys) apart x (ground arith) in
      Segment-join (unlinked m xs x ys) end_mark xs ys end_mark
        (Segment-write m2 end_mark xs q x new_node l2 out)
        (Segment-write m2 p ys end_mark x new_node r2 right.1.2) apart_ys

  pub unlinked-IsUnlinked : IsUnlinked (unlinked m xs x ys x)
  unfolding write
  unlinked-IsUnlinked = ground arith

  pub unlinked-outside : SameOutside (xs ++ x ∷ ys) m (unlinked m xs x ys)
  unfolding write
  unlinked-outside a o = ground (
    arith,
    has-append a xs (x ∷ ys),
    bridge_prev-outside m (last_or end_mark xs) ys a,
    bridge_next-outside (bridge_prev m ys (last_or end_mark xs)) (head_or end_mark ys) xs a,
  )
