-- ===== src/Lists/Arcs/Accounts.antt =====
-- Reference counts against ownership: every reference to an item is held by the list or elsewhere.
use nyaux_kc.Base.{
  ℕ, zero, suc, ◌+◌, ◌<◌, ◌≡◌, refl, Bool, true, false, Option, none, some, List, [], ◌∷◌, ◌++◌,
  arith, has, has-snoc, has-middle, head_or, length, leb, ◌==◌, if◌then◌else◌, Returns,
  Returns-bind, Returns-mono, ◌>>=◌, Bool-cases, inl, inr, sym, ◌∙◌, subst, lt→leb, pos→ne_zero,
}
use nyaux_kc.Lists.{PushResult, ok, err}
use nyaux_kc.Lists
use nyaux_kc.Lists.Nodes.{
  Ptr, null, end_mark, InvasiveList, Cmd, list, Memory, with_next, with_prev, load-real,
  access-real,
}
use nyaux_kc.Lists.Segments.{Segment, lt_of_has, Segment-with_next_frame, Segment-with_prev_frame}
use nyaux_kc.Lists.Walk.{contains-has, cleared, cleared-outside, cleared-IsUnlinked}
use nyaux_kc.Lists.Push.{Pushed, push_front-IsList, push_back-IsList, push-linked}
use nyaux_kc.Lists.Pop.{Taken, pop_front-Taken, pop-empty, remove-Taken}
use nyaux_kc.Lists.Refinement.{Represents, Pushed-Represents, Taken-Represents}
use nyaux_kc.Lists.Arcs.{
  ArcInvasiveList, lift, lowered, drop_arc, release_refused, push_front, push_back, pop_front,
  clear, clear_loop, remove,
}

-- One reference to `x`, and one to each item of a list.
abbrev pub one : Ptr → Ptr → ℕ
one x a = if a == x then 1 else 0

abbrev pub each : List Ptr → Ptr → ℕ
each xs a = if has a xs then 1 else 0

-- The list stands for `xs` and owns one reference to each of them; `outside` counts the others.
pub record Accounts (outside : Ptr → ℕ) (xs : List Ptr) (s : ArcInvasiveList) : Type 0 where
  pub shape : Represents s.inner xs
  pub counts : (a : Ptr) → s.strong a ≡ outside a + each xs a

abbrev pub with_one : (Ptr → ℕ) → Ptr → Ptr → ℕ
with_one outside x a = outside a + one x a

-- The answer to a push, and the accounts after it, where `inside` says whether the item already
-- stands among the items `xs`; if not, they become `ys`.
abbrev pub Spent : (Ptr → ℕ) → Bool → List Ptr → List Ptr → PushResult → ArcInvasiveList → Type 0
Spent outside true xs ys r t = (r ≡ err) × Accounts outside xs t
Spent outside false xs ys r t = (r ≡ ok) × Accounts outside ys t

lift-Returns_run :
    {A : Type 0} (P : A → InvasiveList → Type 0) (s : ArcInvasiveList)
    (r : Option (A × InvasiveList))
    → Returns P r
    → Returns
        (λ a t. P a t.inner × (t.strong ≡ s.strong))
        (elim r [ none ↦ none | some (a, t) ↦ some (a, record s { inner = t }) ])
lift-Returns_run P s none p = p
lift-Returns_run P s (some (a, t)) p = (p, refl)

lift-Returns :
    {A : Type 0} (P : A → InvasiveList → Type 0) (m : Cmd A) (s : ArcInvasiveList)
    → Returns P (m s.inner)
    → Returns (λ a t. P a t.inner × (t.strong ≡ s.strong)) (lift m s)
lift-Returns P m s p = lift-Returns_run P s (m s.inner) p

pub drop_arc-run :
    (x : Ptr) (s : ArcInvasiveList)
    → 0 < s.strong x
    → drop_arc x s ≡ some (tt, record s { strong = lowered s.strong x })
unfolding drop_arc
drop_arc-run x s held = rw (pos→ne_zero _ held)

module _ (outside : Ptr → ℕ) (s : ArcInvasiveList) (xs : List Ptr) (x : Ptr)
    (acc : Accounts (with_one outside x) xs s) where
  refused-Accounts :
      has x xs ≡ true
      → (t : ArcInvasiveList) → t.inner ≡ s.inner
      → t.strong ≡ s.strong
      → Returns (λ r u. (r ≡ err) × Accounts outside xs u) (release_refused x err t)
  refused-Accounts i t e f =
      let held : 0 < s.strong x = ground (arith, acc.counts x) in
      rw (drop_arc-run x t (subst (λ g. 0 < g x) (sym f) held), ◌>>=◌)
        (
          refl,
          record {
            shape = subst (λ u. Represents u xs) (sym e) acc.shape;
            counts = λ a. rw (f) (ground (arith, acc.counts a));
          },
        )

  accepted-Accounts :
      (ys : List Ptr)
      → has x xs ≡ false
      → ((a : Ptr) → has a ys ≡ has a (x ∷ xs))
      → (r : PushResult) (t : ArcInvasiveList)
      → Pushed s.inner.mem (x ∷ xs) ys r t.inner × (t.strong ≡ s.strong)
      → Returns (λ r u. (r ≡ ok) × Accounts outside ys u) (release_refused x r t)
  accepted-Accounts ys o same err t (p, f) = cc (p.0)
  accepted-Accounts ys o same ok t (p, f) = (
    refl,
    record {
      shape = (Pushed-Represents x xs ys acc.shape (λ a out. sym (same a) ∙ out) ok t.inner p).1;
      counts = λ a. rw (f) (ground (arith, acc.counts a, same a));
    },
  )

  -- A push is refused just when the item stands in the list. Either way the caller's reference is
  -- spent: the list takes it over, or it is dropped.
  pub push_front-Accounts :
      end_mark < x → Returns (Spent outside (has x xs) xs (x ∷ xs)) (push_front x s)
  unfolding push_front
  push_front-Accounts real = elim (Bool-cases (has x xs)) [
    | inl i ↦
        rw (i, (push-linked x acc.shape.items i).0, push_front, ◌>>=◌)
          (refused-Accounts i s refl refl)
    | inr o ↦ rw (o) (
        Returns-bind (λ r t. Pushed s.inner.mem (x ∷ xs) (x ∷ xs) r t.inner × (t.strong ≡ s.strong))
          _ (lift (Lists.push_front x) s) _
          (lift-Returns (Pushed s.inner.mem (x ∷ xs) (x ∷ xs)) (Lists.push_front x) s
            (push_front-IsList x acc.shape.items real (acc.shape.others x o).1))
          (accepted-Accounts (x ∷ xs) o (λ a. refl)))
  ]

  pub push_back-Accounts :
      end_mark < x → Returns (Spent outside (has x xs) xs (xs ++ x ∷ [])) (push_back x s)
  unfolding push_back
  push_back-Accounts real = elim (Bool-cases (has x xs)) [
    | inl i ↦
        rw (i, (push-linked x acc.shape.items i).1, push_back, ◌>>=◌)
          (refused-Accounts i s refl refl)
    | inr o ↦ rw (o) (
        Returns-bind
          (λ r t. Pushed s.inner.mem (x ∷ xs) (xs ++ x ∷ []) r t.inner × (t.strong ≡ s.strong)) _
          (lift (Lists.push_back x) s) _
          (lift-Returns (Pushed s.inner.mem (x ∷ xs) (xs ++ x ∷ [])) (Lists.push_back x) s
            (push_back-IsList x acc.shape.items real (acc.shape.others x o).1))
          (accepted-Accounts (xs ++ x ∷ []) o (λ a. has-snoc a x xs)))
  ]

-- The reference that the list held passes to whoever pops the item.
pub pop_front-Accounts :
    (outside : Ptr → ℕ) (s : ArcInvasiveList) (x : Ptr) (xs : List Ptr)
    → Accounts outside (x ∷ xs) s
    → Returns (λ r t. (r ≡ some x) × Accounts (with_one outside x) xs t) (pop_front s)
unfolding pop_front
pop_front-Accounts outside s x xs acc =
    Returns-mono (λ r t. ((r ≡ some x) × Taken s.inner.mem [] x xs t.inner) × (t.strong ≡ s.strong))
      _ _
      (lift-Returns (λ r t. (r ≡ some x) × Taken s.inner.mem [] x xs t) Lists.pop_front s
        (pop_front-Taken x xs acc.shape.items))
      (λ r t ((e, taken), f). (
        e,
        record {
          shape = Taken-Represents [] x xs acc.shape t.inner taken;
          counts = λ a. rw (f) (ground (arith, acc.counts a, acc.shape.items.chain.1.2));
        },
      ))

-- `remove` takes the item out of the list and keeps the reference that the list held: the item's
-- count stays one above the references that are left, so it is never freed.
pub remove-leaks :
    (outside : Ptr → ℕ) (s : ArcInvasiveList) (fuel : ℕ) (xs : List Ptr) (x : Ptr) (ys : List Ptr)
    → Accounts outside (xs ++ x ∷ ys) s
    → length (xs ++ x ∷ ys) < fuel
    → Returns
        (λ _ t. Represents t.inner (xs ++ ys) × (t.strong x ≡ outside x + 1))
        (remove fuel x s)
unfolding remove
remove-leaks outside s fuel xs x ys acc enough =
    let i = has-middle x xs ys in
    let real = lt_of_has s.inner.mem end_mark (xs ++ x ∷ ys) end_mark x acc.shape.items.chain i in
    rw (contains-has acc.shape.items fuel enough x real, i, remove, ◌>>=◌)
      (Returns-mono (λ r t. Taken s.inner.mem xs x ys t.inner × (t.strong ≡ s.strong)) _ _
        (lift-Returns (λ r t. Taken s.inner.mem xs x ys t) (Lists.remove x) s
          (remove-Taken xs x ys acc.shape.items))
        (λ r t (taken, f). (
          Taken-Represents xs x ys acc.shape t.inner taken,
          rw (f) (ground (arith, acc.counts x, i)),
        )))

abbrev dropped : (Ptr → ℕ) → List Ptr → Ptr → ℕ
dropped strong [] = strong
dropped strong (x ∷ xs) = dropped (lowered strong x) xs

lowered-each :
    (strong outside : Ptr → ℕ) (x : Ptr) (xs : List Ptr) (b : Ptr)
    → has x xs ≡ false
    → strong b ≡ outside b + each (x ∷ xs) b
    → lowered strong x b ≡ outside b + each xs b
lowered-each strong outside x xs b out e = ground arith

held-each :
    (strong outside : Ptr → ℕ) (x : Ptr) (xs : List Ptr)
    → strong x ≡ outside x + each (x ∷ xs) x
    → 0 < strong x
held-each strong outside x xs e = ground arith

dropped-each :
    (m : Memory) (p : Ptr) (xs : List Ptr) (q : Ptr) (strong outside : Ptr → ℕ)
    → Segment m p xs q
    → ((a : Ptr) → strong a ≡ outside a + each xs a)
    → (a : Ptr) → dropped strong xs a ≡ outside a
dropped-each m p [] q strong outside c counts a = ground (arith, counts a)
dropped-each m p (x ∷ xs) q strong outside c counts a =
    dropped-each m x xs q (lowered strong x) outside c.2
      (λ b. lowered-each strong outside x xs b c.1.2 (counts b)) a

clear_loop-run :
    (k : ℕ) (d p : Ptr) (xs : List Ptr) (m : Memory) (f l : Ptr) (n : ℕ) (strong outside : Ptr → ℕ)
    → leb d end_mark ≡ true
    → Segment m p xs end_mark
    → ((a : Ptr) → strong a ≡ outside a + each xs a)
    → length xs < k
    → clear_loop k (head_or d xs) (record { inner = list m f l n; strong = strong })
      ≡ some (tt, record { inner = list (cleared m xs) f l n; strong = dropped strong xs })
unfolding clear_loop
clear_loop-run zero d p xs m f l n strong outside stop c counts enough = absurd (omega arith)
clear_loop-run (suc k) d p [] m f l n strong outside stop c counts enough = rw (stop, clear_loop)
clear_loop-run (suc k) d p (x ∷ xs) m f l n strong outside stop c counts enough =
    let m' = with_prev (with_next m x null) x null in
    let c' =
      Segment-with_prev_frame (with_next m x null) x xs end_mark x null
        (Segment-with_next_frame m x xs end_mark x null c.2 c.1.2) c.1.2 in
    let held = held-each strong outside x xs (counts x) in
    let rest =
      clear_loop-run k end_mark x xs m' f l n (lowered strong x) outside refl c'
        (λ b. lowered-each strong outside x xs b c.1.2 (counts b)) (omega arith) in
    rw
      (
        lt→leb x end_mark c.0,
        load-real x _ c.0,
        access-real x _ c.0,
        access-real x _ c.0,
        drop_arc-run x (record { inner = list m' f l n; strong = strong }) held,
        c.1.1,
        clear_loop,
        ◌>>=◌,
      )
      rest

-- `clear` drops the list's reference to each item exactly once, and leaves a well-formed empty list.
pub clear-Accounts :
    (outside : Ptr → ℕ) (s : ArcInvasiveList) (fuel : ℕ) (xs : List Ptr)
    → Accounts outside xs s
    → length xs < fuel
    → Returns (λ _. Accounts outside []) (clear fuel s)
unfolding clear
clear-Accounts outside s fuel xs acc enough =
    let is = acc.shape.items in
    let m = s.inner.mem in
    let run =
      clear_loop-run fuel null end_mark xs m null null 0 s.strong outside refl is.chain acc.counts
        enough in
    rw (is.first, clear, run)
      (record {
        shape = record {
          items = record { chain = tt; first = refl; last = refl; count = refl };
          others = λ a o. elim (Bool-cases (has a xs)) [
            | inl i ↦ cleared-IsUnlinked m end_mark xs end_mark a is.chain i
            | inr out ↦ rw (cleared-outside m xs a out) (acc.shape.others a out)
          ];
        };
        counts = λ a.
            ground
              (arith, dropped-each m end_mark xs end_mark s.strong outside is.chain acc.counts a);
      })

pub pop_front-empty :
    (outside : Ptr → ℕ) (s : ArcInvasiveList) → Accounts outside [] s → pop_front s ≡ some (none, s)
unfolding pop_front
pop_front-empty outside s acc = rw ((pop-empty acc.shape.items).0, pop_front, lift)
