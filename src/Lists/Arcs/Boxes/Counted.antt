-- ===== src/Lists/Arcs/Boxes/Counted.antt =====
-- The list of boxes against the list of counted references (kernel/src/util/lists/mod.rs).
use nyaux_kc.Base.{
  ℕ, zero, suc, ◌≡◌, refl, ap, ◌∙◌, Bool, true, false, Bool-cases, inl, inr, Option, none, some,
  leb, ◌==◌, if◌then◌else◌, ==→eq, pure, fault, ◌>>=◌, ◌>>◌,
}
use nyaux_kc.Lists.{PushResult, ok, err}
use nyaux_kc.Lists
use nyaux_kc.Lists.Nodes.{
  Ptr, null, end_mark, InvasiveList, InvasiveListNode, Cmd, load, set_next, set_prev, set_first,
  set_last, set_len, get_list,
}
use nyaux_kc.Lists.Arcs.{
  ArcInvasiveList, ArcCmd, lift, lowered, drop_arc, release_refused, push_front, push_back,
  pop_front, pop_back, clear_loop, clear, remove,
}
use nyaux_kc.Lists.Arcs.Boxes.{
  BoxInvasiveList, BoxCmd, on_inner, freed, free_box, free_refused, box_push_front, box_push_back,
  box_pop_front, box_pop_back, box_clear_loop, box_clear, box_remove,
}

-- A box as a reference that is counted once.
abbrev pub count : (Ptr → Bool) → Ptr → ℕ
count allocated a = if allocated a then 1 else 0

abbrev pub counted : BoxInvasiveList → ArcInvasiveList
counted s = record { inner = s.inner; strong = count s.allocated }

abbrev pub counted_run : {A : Type 0} → Option (A × BoxInvasiveList) → Option (A × ArcInvasiveList)
counted_run none = none
counted_run (some (a, s)) = some (a, counted s)

-- The second does to the counted references what the first does to the boxes.
abbrev pub Matches : {A : Type 0} → BoxCmd A → ArcCmd A → Type 0
Matches m n = (s : BoxInvasiveList) → n (counted s) ≡ counted_run (m s)

pure-Matches : {A : Type 0} (a : A) → Matches (pure a) (pure a)
pure-Matches a s = refl

bind-Matches :
    {A B : Type 0} (m : BoxCmd A) (n : ArcCmd A) (f : A → BoxCmd B) (g : A → ArcCmd B)
    → Matches m n
    → ((a : A) → Matches (f a) (g a))
    → Matches (m >>= f) (n >>= g)
bind-Matches {A} {B} m n f g first next s = ap (go_on g) (first s) ∙ after (m s)
  where
    go_on : (A → ArcCmd B) → Option (A × ArcInvasiveList) → Option (B × ArcInvasiveList)
    go_on g none = none
    go_on g (some (a, t)) = g a t

    after :
        (r : Option (A × BoxInvasiveList))
        → go_on g (counted_run r) ≡ counted_run (elim r [ none ↦ none | some (a, t) ↦ f a t ])
    after none = refl
    after (some (a, t)) = next a t

inner-Matches : {A : Type 0} (m : Cmd A) → Matches (on_inner m) (lift m)
inner-Matches {A} m s = by_result (m s.inner)
  where
    by_result :
        (r : Option (A × InvasiveList))
        → (elim r [ none ↦ none | some (a, t) ↦ some (a, record (counted s) { inner = t }) ])
          ≡ counted_run (elim r [ none ↦ none | some (a, t) ↦ some (a, record s { inner = t }) ])
    by_result none = refl
    by_result (some (a, t)) = refl

lowered-freed :
    (allocated : Ptr → Bool) (x a : Ptr)
    → allocated x ≡ true
    → lowered (count allocated) x a ≡ count (freed allocated x) a
lowered-freed allocated x a live = elim (Bool-cases (a == x)) [
  | inl here ↦
      let live_a : allocated a ≡ true = ap allocated (==→eq a x here) ∙ live in
      rw (here, live_a) refl
  | inr other ↦ rw other refl
]

drop-Matches : (x : Ptr) → Matches (free_box x) (drop_arc x)
unfolding free_box drop_arc
drop-Matches x s = elim (Bool-cases (s.allocated x)) [
  | inl live ↦
      let same : (a : Ptr) → lowered (count s.allocated) x a ≡ count (freed s.allocated x) a =
        λ a. lowered-freed s.allocated x a live in
      rw live (λ i. some (tt, record { inner = s.inner; strong = λ a. same a i }))
  | inr dead ↦ rw dead refl
]

push-Matches :
    (item : Ptr) (push : Cmd PushResult)
    → Matches (on_inner push >>= free_refused item) (lift push >>= release_refused item)
push-Matches item push =
    bind-Matches (on_inner push) (lift push) (free_refused item) (release_refused item)
      (inner-Matches push) (refusal)
  where
    refusal : (r : PushResult) → Matches (free_refused item r) (release_refused item r)
    refusal ok = pure-Matches ok
    refusal err =
        bind-Matches (free_box item) (drop_arc item) _ _ (drop-Matches item) (λ _. pure-Matches err)

if-Matches :
    {A : Type 0} (b : Bool) (m m' : BoxCmd A) (n n' : ArcCmd A)
    → Matches m n
    → Matches m' n'
    → Matches (if b then m else m') (if b then n else n')
if-Matches true m m' n n' yes_case no_case = yes_case
if-Matches false m m' n n' yes_case no_case = no_case

then-Matches :
    {A B : Type 0} (m : BoxCmd A) (n : ArcCmd A) (m' : BoxCmd B) (n' : ArcCmd B)
    → Matches m n
    → Matches m' n'
    → Matches (m >> m') (n >> n')
then-Matches m n m' n' first next = bind-Matches m n (λ _. m') (λ _. n') first (λ _. next)

inner_then-Matches :
    {B : Type 0} (c : Cmd (Unit {0})) (m : BoxCmd B) (n : ArcCmd B)
    → Matches m n
    → Matches (on_inner c >> m) (lift c >> n)
inner_then-Matches c m n = then-Matches (on_inner c) (lift c) m n (inner-Matches c)

-- What an item of `clear` is turned into, and the rest of the loop.
item-Matches :
    (cur : Ptr) (m : BoxCmd (Unit {0})) (n : ArcCmd (Unit {0}))
    → Matches m n
    → Matches
        (on_inner (set_next cur null) >> (on_inner (set_prev cur null) >> (free_box cur >> m)))
        (lift (set_next cur null) >> (lift (set_prev cur null) >> (drop_arc cur >> n)))
item-Matches cur m n rest =
    inner_then-Matches (set_next cur null) (on_inner (set_prev cur null) >> (free_box cur >> m))
      (lift (set_prev cur null) >> (drop_arc cur >> n))
      (inner_then-Matches (set_prev cur null) (free_box cur >> m) (drop_arc cur >> n)
        (then-Matches (free_box cur) (drop_arc cur) m n (drop-Matches cur) rest))

clear_loop-Matches :
    (k : ℕ) (cur : Ptr) (s : BoxInvasiveList)
    → clear_loop k cur (counted s) ≡ counted_run (box_clear_loop k cur s)
unfolding box_clear_loop clear_loop
clear_loop-Matches zero cur s = refl
clear_loop-Matches (suc k) cur s = elim (Bool-cases (leb cur end_mark)) [
  | inl end ↦ rw end refl
  | inr more ↦
      let rest : Matches (on_inner (load cur) >>= box_item k cur)
          (lift (load cur) >>= arc_item k cur) =
        bind-Matches (on_inner (load cur)) (lift (load cur)) (box_item k cur) (arc_item k cur)
          (inner-Matches (load cur))
          (λ n.
            item-Matches cur (box_clear_loop k n.next) (clear_loop k n.next)
              (λ t. clear_loop-Matches k n.next t)) in
      rw more (rest s)
]
  where
    box_item : ℕ → Ptr → InvasiveListNode → BoxCmd (Unit {0})
    box_item k cur n =
        on_inner (set_next cur null)
        >> (on_inner (set_prev cur null) >> (free_box cur >> box_clear_loop k n.next))

    arc_item : ℕ → Ptr → InvasiveListNode → ArcCmd (Unit {0})
    arc_item k cur n =
        lift (set_next cur null)
        >> (lift (set_prev cur null) >> (drop_arc cur >> clear_loop k n.next))

emptied-Matches :
    (fuel : ℕ) (l : InvasiveList)
    → Matches
        (on_inner (set_first null)
          >> (on_inner (set_last null) >> (on_inner (set_len 0) >> box_clear_loop fuel l.first)))
        (lift (set_first null)
          >> (lift (set_last null) >> (lift (set_len 0) >> clear_loop fuel l.first)))
emptied-Matches fuel l =
    inner_then-Matches (set_first null)
      (on_inner (set_last null) >> (on_inner (set_len 0) >> box_clear_loop fuel l.first))
      (lift (set_last null) >> (lift (set_len 0) >> clear_loop fuel l.first))
      (inner_then-Matches (set_last null) (on_inner (set_len 0) >> box_clear_loop fuel l.first)
        (lift (set_len 0) >> clear_loop fuel l.first)
        (inner_then-Matches (set_len 0) (box_clear_loop fuel l.first) (clear_loop fuel l.first)
          (clear_loop-Matches fuel l.first)))

-- Each operation of the list of boxes, on items that are allocated or not, with any fuel, does to
-- the nodes and answers what the operation of the counted list does, its faults included, where an
-- allocated box is a reference that is counted once and a freed one is not counted.
pub box-Matches :
    (fuel : ℕ) (item : Ptr)
    → Matches (box_push_front item) (push_front item)
      × Matches (box_push_back item) (push_back item)
      × Matches box_pop_front pop_front
      × Matches box_pop_back pop_back
      × Matches (box_clear fuel) (clear fuel)
      × Matches (box_remove fuel item) (remove fuel item)
unfolding box_push_front box_push_back box_pop_front box_pop_back box_clear box_remove push_front
    push_back pop_front pop_back clear remove
box-Matches fuel item = (
  push-Matches item (Lists.push_front item),
  push-Matches item (Lists.push_back item),
  inner-Matches Lists.pop_front,
  inner-Matches Lists.pop_back,
  bind-Matches (on_inner get_list) (lift get_list)
      (λ l.
        on_inner (set_first null)
        >> (on_inner (set_last null) >> (on_inner (set_len 0) >> box_clear_loop fuel l.first)))
      (λ l.
        lift (set_first null)
        >> (lift (set_last null) >> (lift (set_len 0) >> clear_loop fuel l.first)))
      (inner-Matches get_list) (emptied-Matches fuel),
  bind-Matches (on_inner (Lists.contains fuel item)) (lift (Lists.contains fuel item))
      (λ inside. if inside then on_inner (Lists.remove item) else fault)
      (λ inside. if inside then lift (Lists.remove item) else fault)
      (inner-Matches (Lists.contains fuel item))
      (λ inside.
        if-Matches inside (on_inner (Lists.remove item)) fault (lift (Lists.remove item)) fault
          (inner-Matches (Lists.remove item)) (λ s. refl)),
)
