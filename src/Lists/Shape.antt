-- ===== src/Lists/Shape.antt =====
-- What a list in memory stands for: the sequence of its items, front to back.
use nyaux_kc.Base.{
  ◌%◌, ◌^◌, ◌≡◌, false, List, arith, has, head_or, last_or, length, Bool-cases, inl, inr, subst,
  sym,
}
use nyaux_kc.Lists.Nodes.{Ptr, null, end_mark, InvasiveListNode, InvasiveList, list, Memory}
use nyaux_kc.Lists.Segments.{Segment, next_of_has}

-- The list holds exactly the items `xs`, in this order, and its `len` counts them.
pub record IsList (s : InvasiveList) (xs : List Ptr) : Type 0 where
  pub chain : Segment s.mem end_mark xs end_mark
  pub first : s.first ≡ head_or null xs
  pub last : s.last ≡ last_or null xs
  pub count : s.len ≡ length xs % 2 ^ 64

-- A node that stands in no list.
abbrev pub IsUnlinked : InvasiveListNode → Type 0
IsUnlinked n = (n.prev ≡ null) × (n.next ≡ null)

-- The memory is changed at most at the nodes `xs`.
abbrev pub SameOutside : List Ptr → Memory → Memory → Type 0
SameOutside xs m m' = (a : Ptr) → has a xs ≡ false → m' a ≡ m a

-- A node with a null link stands in no list.
pub not-has_of_null :
    {s : InvasiveList} {xs : List Ptr} (a : Ptr)
    → IsList s xs
    → (s.mem a).next ≡ null
    → has a xs ≡ false
not-has_of_null {s} {xs} a is e = elim (Bool-cases (has a xs)) [
  | inl i ↦
      absurd (omega (arith, next_of_has s.mem end_mark xs end_mark a is.chain (omega arith) i))
  | inr o ↦ o
]

-- To prove a property of a list it is enough to prove it of the fields that its items determine.
pub with_shape :
    (P : InvasiveList → Type 0) (s : InvasiveList) (xs : List Ptr)
    → IsList s xs
    → P (list s.mem (head_or null xs) (last_or null xs) s.len)
    → P s
with_shape P s xs is p =
    subst (λ l. P (list s.mem s.first l s.len)) (sym is.last)
      (subst (λ f. P (list s.mem f (last_or null xs) s.len)) (sym is.first) p)
