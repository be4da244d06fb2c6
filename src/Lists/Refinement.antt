-- ===== src/Lists/Refinement.antt =====
-- The list as an abstract deque of distinct items, and any sequence of its operations
-- (kernel/src/util/lists/mod.rs) against it.
use nyaux_kc.Base.{
  ◌<◌, ◌≡◌, refl, true, false, Option, none, some, List, [], ◌∷◌, ◌++◌, arith, has, has-append,
  has-snoc, ◌==◌, if◌then◌else◌, Returns, Returns-bind, pure, ◌>>=◌, ◌>>◌, Bool-cases, inl, inr,
  subst, sym, ap, ◌∙◌, last_or,
}
use mathlib.Core.List.{append-nil}
use mathlib.Core.Path.{ap₂}
use nyaux_kc.Lists.{PushResult, ok, err, push_front, push_back, pop_front, pop_back, try_remove}
use nyaux_kc.Lists.Nodes.{Ptr, end_mark, InvasiveList, Cmd}
use nyaux_kc.Lists.Shape.{IsList, IsUnlinked}
use nyaux_kc.Lists.Push.{Pushed, push_front-IsList, push_back-IsList, push-linked}
use nyaux_kc.Lists.Pop.{Taken, pop_front-Taken, pop_back-Taken, pop-empty, try_remove-cases}

pub data Op : Type 0 where
  push_first : Ptr → Op
  push_last : Ptr → Op
  pop_first : Op
  pop_last : Op
  drop_item : Ptr → Op

pub data Answer : Type 0 where
  pushed : PushResult → Answer
  popped : Option Ptr → Answer
  dropped : Answer

-- One operation of the code.
pub perform : Op → Cmd Answer
perform (push_first x) = do r ← push_front x; pure (pushed r)
perform (push_last x) = do r ← push_back x; pure (pushed r)
perform pop_first = do r ← pop_front; pure (popped r)
perform pop_last = do r ← pop_back; pure (popped r)
perform (drop_item x) = do try_remove x; pure dropped

pub perform_all : List Op → Cmd (List Answer)
unfolding perform
perform_all [] = pure []
perform_all (o ∷ os) = do r ← perform o; rs ← perform_all os; pure (r ∷ rs)

-- All but the last of `x ∷ xs`.
abbrev pub front_part : Ptr → List Ptr → List Ptr
front_part x [] = []
front_part x (y ∷ ys) = x ∷ front_part y ys

abbrev pub before : Ptr → List Ptr → List Ptr
before x [] = []
before x (y ∷ ys) = if x == y then [] else y ∷ before x ys

abbrev pub after : Ptr → List Ptr → List Ptr
after x [] = []
after x (y ∷ ys) = if x == y then ys else after x ys

-- The same operation on the sequence of items.
unfoldable pub abstract : Op → List Ptr → Answer × List Ptr
abstract (push_first x) xs = if has x xs then (pushed err, xs) else (pushed ok, x ∷ xs)
abstract (push_last x) xs = if has x xs then (pushed err, xs) else (pushed ok, xs ++ x ∷ [])
abstract pop_first [] = (popped none, [])
abstract pop_first (x ∷ xs) = (popped (some x), xs)
abstract pop_last [] = (popped none, [])
abstract pop_last (x ∷ xs) = (popped (some (last_or x xs)), front_part x xs)
abstract (drop_item x) xs = if has x xs then (dropped, before x xs ++ after x xs) else (dropped, xs)

unfoldable pub abstract_all : List Op → List Ptr → List Answer × List Ptr
unfolding abstract
abstract_all [] xs = ([], xs)
abstract_all (o ∷ os) xs =
    let (r, ys) = abstract o xs in let (rs, zs) = abstract_all os ys in (r ∷ rs, zs)

-- The list stands for `xs`, and no other node is linked anywhere.
pub record Represents (s : InvasiveList) (xs : List Ptr) : Type 0 where
  pub items : IsList s xs
  pub others : (a : Ptr) → has a xs ≡ false → IsUnlinked (s.mem a)

-- The items that an operation names are real addresses.
abbrev pub IsReal : Op → Type 0
IsReal (push_first x) = end_mark < x
IsReal (push_last x) = end_mark < x
IsReal (drop_item x) = end_mark < x
IsReal _ = Unit

abbrev pub AreReal : List Op → Type 0
AreReal [] = Unit
AreReal (o ∷ os) = IsReal o × AreReal os

abbrev pub Agrees : {A : Type 0} → A × List Ptr → A → InvasiveList → Type 0
Agrees (answer, xs) r t = (r ≡ answer) × Represents t xs

front_part-append : (x : Ptr) (xs : List Ptr) → x ∷ xs ≡ front_part x xs ++ last_or x xs ∷ []
front_part-append x [] = refl
front_part-append x (y ∷ ys) = ap (λ l. x ∷ l) (front_part-append y ys)

before-append-after :
    (x : Ptr) (xs : List Ptr) → has x xs ≡ true → xs ≡ before x xs ++ x ∷ after x xs
before-append-after x [] i = cc
before-append-after x (y ∷ ys) i = elim (Bool-cases (x == y)) [
  | inl same ↦ let e : x ≡ y = ground arith in rw same (rw e)
  | inr other ↦
      let later : has x ys ≡ true = ground arith in
      rw other (ap (λ l. y ∷ l) (before-append-after x ys later))
]

module _ {s : InvasiveList} where
  pub Pushed-Represents :
      (x : Ptr) (xs ys : List Ptr)
      → Represents s xs
      → ((a : Ptr) → has a ys ≡ false → has a (x ∷ xs) ≡ false)
      → (r : PushResult) (t : InvasiveList) → Pushed s.mem (x ∷ xs) ys r t
      → Agrees (pushed ok, ys) (pushed r) t
  Pushed-Represents x xs ys w cover r t (e, is, same) = (
    ap pushed e,
    record {
      items = is;
      others = λ a o.
          let out = cover a o in subst IsUnlinked (sym (same a out)) (w.others a (ground arith));
    },
  )

  pub Taken-Represents :
      (xs : List Ptr) (x : Ptr) (ys : List Ptr)
      → Represents s (xs ++ x ∷ ys)
      → (t : InvasiveList) → Taken s.mem xs x ys t
      → Represents t (xs ++ ys)
  Taken-Represents xs x ys w t taken = record {
    items = taken.rest;
    others = λ a o. elim (Bool-cases (a == x)) [
      | inl same ↦ let e : a ≡ x = ground arith in rw e taken.free
      | inr other ↦
          let out : has a (xs ++ x ∷ ys) ≡ false =
            ground (arith, has-append a xs ys, has-append a xs (x ∷ ys)) in
          subst IsUnlinked (sym (taken.same a out)) (w.others a out)
    ];
  }

module _ {s : InvasiveList} (xs : List Ptr) (w : Represents s xs) where
  push_first-Agrees :
      (x : Ptr)
      → end_mark < x
      → Returns (Agrees (abstract (push_first x) xs)) (perform (push_first x) s)
  unfolding perform abstract
  push_first-Agrees x real = elim (Bool-cases (has x xs)) [
    | inl i ↦ rw (i, (push-linked x w.items i).0, perform, ◌>>=◌) (refl, w)
    | inr o ↦ rw (o) (
        Returns-bind (Pushed s.mem (x ∷ xs) (x ∷ xs)) _ (push_front x s) _
          (push_front-IsList x w.items real (w.others x o).1)
          (Pushed-Represents x xs (x ∷ xs) w (λ a out. out)))
  ]

  push_last-Agrees :
      (x : Ptr)
      → end_mark < x
      → Returns (Agrees (abstract (push_last x) xs)) (perform (push_last x) s)
  unfolding perform abstract
  push_last-Agrees x real = elim (Bool-cases (has x xs)) [
    | inl i ↦ rw (i, (push-linked x w.items i).1, perform, ◌>>=◌) (refl, w)
    | inr o ↦ rw (o) (
        Returns-bind (Pushed s.mem (x ∷ xs) (xs ++ x ∷ [])) _ (push_back x s) _
          (push_back-IsList x w.items real (w.others x o).1)
          (Pushed-Represents x xs (xs ++ x ∷ []) w (λ a out. sym (has-snoc a x xs) ∙ out)))
  ]

  drop_item-Agrees :
      (x : Ptr)
      → end_mark < x
      → Returns (Agrees (abstract (drop_item x) xs)) (perform (drop_item x) s)
  unfolding perform abstract
  drop_item-Agrees x real = elim (Bool-cases (has x xs)) [
    | inl i ↦
        let split = before-append-after x xs i in
        let w' = subst (Represents s) split w in
        rw (i) (
          Returns-bind (λ _. Taken s.mem (before x xs) x (after x xs)) _ (try_remove x s) _
            ((try_remove-cases x).0 (before x xs) (after x xs) w'.items)
            (λ r t taken. (refl, Taken-Represents (before x xs) x (after x xs) w' t taken)))
    | inr o ↦
        let kept : try_remove x s ≡ some (tt, s) =
          (try_remove-cases {s = s} x).1 real (w.others x o) in
        rw (o, kept, perform, ◌>>=◌) (refl, w)
  ]

pop_first-Agrees :
    {s : InvasiveList} (xs : List Ptr)
    → Represents s xs
    → Returns (Agrees (abstract pop_first xs)) (perform pop_first s)
unfolding perform abstract
pop_first-Agrees {s} [] w = rw ((pop-empty w.items).0, perform, ◌>>=◌) (refl, w)
pop_first-Agrees {s} (x ∷ xs) w =
    Returns-bind (λ r t. (r ≡ some x) × Taken s.mem [] x xs t) _ (pop_front s) _
      (pop_front-Taken x xs w.items)
      (λ r t (e, taken). (ap popped e, Taken-Represents [] x xs w t taken))

pop_last-Agrees :
    {s : InvasiveList} (xs : List Ptr)
    → Represents s xs
    → Returns (Agrees (abstract pop_last xs)) (perform pop_last s)
unfolding perform abstract
pop_last-Agrees {s} [] w = rw ((pop-empty w.items).1, perform, ◌>>=◌) (refl, w)
pop_last-Agrees {s} (x ∷ xs) w =
    let split = front_part-append x xs in
    let w' = subst (Represents s) split w in
    Returns-bind
      (λ r t. (r ≡ some (last_or x xs)) × Taken s.mem (front_part x xs) (last_or x xs) [] t) _
      (pop_back s) _ (pop_back-Taken (front_part x xs) (last_or x xs) w'.items)
      (λ r t (e, taken). (
        ap popped e,
        subst (Represents t) (append-nil (front_part x xs))
            (Taken-Represents (front_part x xs) (last_or x xs) [] w' t taken),
      ))

perform-Agrees :
    (o : Op) {s : InvasiveList} (xs : List Ptr)
    → Represents s xs
    → IsReal o
    → Returns (Agrees (abstract o xs)) (perform o s)
perform-Agrees (push_first x) xs w real = push_first-Agrees xs w x real
perform-Agrees (push_last x) xs w real = push_last-Agrees xs w x real
perform-Agrees pop_first xs w real = pop_first-Agrees xs w
perform-Agrees pop_last xs w real = pop_last-Agrees xs w
perform-Agrees (drop_item x) xs w real = drop_item-Agrees xs w x real

-- Any sequence of pushes, pops and removals runs without a fault, and gives the answers and the
-- final items of the abstract deque; an item that is pushed while it stands in the list is refused.
pub perform_all-abstract_all :
    (os : List Op) {s : InvasiveList} (xs : List Ptr)
    → Represents s xs
    → AreReal os
    → Returns (Agrees (abstract_all os xs)) (perform_all os s)
unfolding perform_all abstract_all
perform_all-abstract_all [] xs w real = (refl, w)
perform_all-abstract_all (o ∷ os) {s} xs w real =
    Returns-bind (Agrees (abstract o xs)) _ (perform o s) _ (perform-Agrees o xs w real.0)
      (λ r t (e, w').
        Returns-bind (Agrees (abstract_all os (abstract o xs).1)) _ (perform_all os t) _
          (perform_all-abstract_all os (abstract o xs).1 w' real.1)
          (λ rs u (es, w''). (ap₂ (λ a b. a ∷ b) e es, w'')))
