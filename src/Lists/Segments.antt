-- ===== src/Lists/Segments.antt =====
-- Segments of the doubly linked chain: which nodes, in which order, between which neighbours.
use nyaux_kc.Base.{
  ◌<◌, ◌≡◌, true, false, List, [], ◌∷◌, ◌++◌, arith, ◌==◌, has, has-append, head_or, last_or,
  head_or-append,
}
use nyaux_kc.Lists.Nodes.{Ptr, end_mark, InvasiveListNode, Memory, write, with_next, with_prev}

-- The nodes `xs`, all distinct real addresses, linked both ways; `p` stands before them and `q`
-- after them.
abbrev pub Segment : Memory → Ptr → List Ptr → Ptr → Type 0
Segment m p [] q = Unit
Segment m p (x ∷ xs) q =
    (end_mark < x)
    × (((m x).prev ≡ p) × ((m x).next ≡ head_or q xs) × (has x xs ≡ false))
    × Segment m x xs q

-- A member is none of the outsiders.
pub ne_of_has : (a b : Ptr) (xs : List Ptr) → has a xs ≡ true → has b xs ≡ false → (b == a) ≡ false
ne_of_has a b [] i o = cc
ne_of_has a b (x ∷ xs) i o = ground (arith, ne_of_has a b xs)

-- A segment depends on the memory only at its own nodes.
pub Segment-frame :
    (m m' : Memory) (p : Ptr) (xs : List Ptr) (q : Ptr)
    → Segment m p xs q
    → ((a : Ptr) → has a xs ≡ true → m' a ≡ m a)
    → Segment m' p xs q
Segment-frame m m' p [] q s same = tt
Segment-frame m m' p (x ∷ xs) q s same =
    (s.0, ground (arith, same x), Segment-frame m m' x xs q s.2 (λ a i. same a (ground arith)))

module _ (m : Memory) where
  pub lt_of_head :
      (p : Ptr) (x : Ptr) (xs : List Ptr) (q : Ptr) → Segment m p (x ∷ xs) q → end_mark < x
  lt_of_head p x xs q s = s.0

  -- Every node of a segment is a real address.
  pub lt_of_has :
      (p : Ptr) (xs : List Ptr) (q a : Ptr) → Segment m p xs q → has a xs ≡ true → end_mark < a
  lt_of_has p [] q a s i = cc
  lt_of_has p (x ∷ xs) q a s i = ground (arith, lt_of_has x xs q a s.2)

  pub has-last_or : (x : Ptr) (xs : List Ptr) → has (last_or x xs) (x ∷ xs) ≡ true
  has-last_or x [] = ground arith
  has-last_or x (y ∷ ys) = ground (arith, has-last_or y ys)

  -- The neighbours of a node are never null.
  pub next_of_has :
      (p : Ptr) (xs : List Ptr) (q a : Ptr)
      → Segment m p xs q
      → 0 < q
      → has a xs ≡ true
      → 0 < (m a).next
  next_of_has p [] q a s z i = cc
  next_of_has p (x ∷ []) q a s z i = ground arith
  next_of_has p (x ∷ y ∷ ys) q a s z i = ground (arith, next_of_has x (y ∷ ys) q a s.2)

  pub prev_of_has :
      (p : Ptr) (xs : List Ptr) (q a : Ptr)
      → Segment m p xs q
      → 0 < p
      → has a xs ≡ true
      → 0 < (m a).prev
  prev_of_has p [] q a s z i = cc
  prev_of_has p (x ∷ xs) q a s z i = ground (arith, prev_of_has x xs q a s.2)

  -- A write to a node outside.
  pub Segment-write :
      (p : Ptr) (xs : List Ptr) (q a : Ptr) (n : InvasiveListNode)
      → Segment m p xs q
      → has a xs ≡ false
      → Segment (write m a n) p xs q
  unfolding write
  Segment-write p xs q a n s out = Segment-frame m (write m a n) p xs q s (λ b i. ground arith)

  pub Segment-with_next_frame :
      (p : Ptr) (xs : List Ptr) (q a v : Ptr)
      → Segment m p xs q
      → has a xs ≡ false
      → Segment (with_next m a v) p xs q
  unfolding with_next
  Segment-with_next_frame p xs q a v s out =
      Segment-frame m (with_next m a v) p xs q s (λ b i. ground arith)

  pub Segment-with_prev_frame :
      (p : Ptr) (xs : List Ptr) (q a v : Ptr)
      → Segment m p xs q
      → has a xs ≡ false
      → Segment (with_prev m a v) p xs q
  unfolding with_prev
  Segment-with_prev_frame p xs q a v s out =
      Segment-frame m (with_prev m a v) p xs q s (λ b i. ground arith)

  -- A new successor of the last node ends the segment there.
  pub Segment-with_next :
      (p x : Ptr) (xs : List Ptr) (q r : Ptr)
      → Segment m p (x ∷ xs) q
      → Segment (with_next m (last_or x xs) r) p (x ∷ xs) r
  unfolding with_next
  Segment-with_next p x [] q r s = ground arith
  Segment-with_next p x (y ∷ ys) q r s =
      let apart = ne_of_has (last_or y ys) x (y ∷ ys) (has-last_or y ys) s.1.2 in
      (s.0, rw (apart) s.1, Segment-with_next x y ys q r s.2)

  -- A new predecessor of the first node starts it there.
  pub Segment-with_prev :
      (p x : Ptr) (xs : List Ptr) (q r : Ptr)
      → Segment m p (x ∷ xs) q
      → Segment (with_prev m x r) r (x ∷ xs) q
  Segment-with_prev p x xs q r s =
      let rest = Segment-with_prev_frame x xs q x r s.2 s.1.2 in
      (s.0, unfold with_prev in ground arith, rest)

  -- Two segments in a row are one.
  pub Segment-join :
      (p : Ptr) (xs ys : List Ptr) (q : Ptr)
      → Segment m p xs (head_or q ys)
      → Segment m (last_or p xs) ys q
      → ((a : Ptr) → has a xs ≡ true → has a ys ≡ false)
      → Segment m p (xs ++ ys) q
  Segment-join p [] ys q s t apart = t
  Segment-join p (x ∷ xs) ys q s t apart = (
    s.0,
    ground (arith, apart x, has-append x xs ys, head_or-append q xs ys),
    Segment-join x xs ys q s.2 t (λ a i. apart a (ground arith)),
  )

  pub Segment-left :
      (p : Ptr) (xs ys : List Ptr) (q : Ptr)
      → Segment m p (xs ++ ys) q
      → Segment m p xs (head_or q ys)
  Segment-left p [] ys q s = tt
  Segment-left p (x ∷ xs) ys q s =
      (s.0, ground (arith, has-append x xs ys, head_or-append q xs ys), Segment-left x xs ys q s.2)

  pub Segment-right :
      (p : Ptr) (xs ys : List Ptr) (q : Ptr)
      → Segment m p (xs ++ ys) q
      → Segment m (last_or p xs) ys q
  Segment-right p [] ys q s = s
  Segment-right p (x ∷ xs) ys q s = Segment-right x xs ys q s.2

  pub Segment-apart :
      (p : Ptr) (xs ys : List Ptr) (q : Ptr)
      → Segment m p (xs ++ ys) q
      → (a : Ptr) → has a xs ≡ true
      → has a ys ≡ false
  Segment-apart p [] ys q s a i = cc
  Segment-apart p (x ∷ xs) ys q s a i =
      ground (arith, has-append x xs ys, Segment-apart x xs ys q s.2 a)
