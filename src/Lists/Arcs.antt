-- ===== src/Lists/Arcs.antt =====
-- `ArcInvasiveList` (kernel/src/util/lists/mod.rs): the invasive list of items that are reference
-- counted. `Arc::into_raw` and `Arc::from_raw` leave the count alone; dropping an `Arc` lowers it,
-- and dropping one whose count is 0 is a fault.
pub mod Accounts
pub mod Boxes
use nyaux_kc.Base.{
  ℕ, zero, suc, ◌-◌, Bool, true, false, Option, none, some, leb, ◌==◌, if◌then◌else◌, M, pure,
  fault, ◌>>=◌, ◌>>◌,
}
use nyaux_kc.Lists.{PushResult, ok, err}
use nyaux_kc.Lists
use nyaux_kc.Lists.Nodes.{
  Ptr, null, end_mark, InvasiveList, Cmd, load, set_next, set_prev, set_first, set_last, set_len,
  get_list,
}

pub record ArcInvasiveList : Type 0 where
  pub inner : InvasiveList
  pub strong : Ptr → ℕ

abbrev pub ArcCmd : Type 0 → Type 0
ArcCmd = M ArcInvasiveList

-- An operation of the inner list.
abbrev pub lift : {A : Type 0} → Cmd A → ArcCmd A
lift m s = elim (m s.inner) [ none ↦ none | some (a, t) ↦ some (a, record s { inner = t }) ]

abbrev pub lowered : (Ptr → ℕ) → Ptr → Ptr → ℕ
lowered strong x a = if a == x then strong a - 1 else strong a

-- `drop(Arc::from_raw(x))`
unfoldable pub drop_arc : Ptr → ArcCmd (Unit {0})
drop_arc x s = if s.strong x == 0 then none else some (tt, record s { strong = lowered s.strong x })

-- What both pushes do with the result of the inner push.
abbrev pub release_refused : Ptr → PushResult → ArcCmd PushResult
release_refused item ok = pure ok
release_refused item err = do drop_arc item; pure err

pub push_front : Ptr → ArcCmd PushResult
push_front item = do r ← lift (Lists.push_front item); release_refused item r

pub push_back : Ptr → ArcCmd PushResult
push_back item = do r ← lift (Lists.push_back item); release_refused item r

pub pop_front : ArcCmd (Option Ptr)
pop_front = lift Lists.pop_front

pub pop_back : ArcCmd (Option Ptr)
pop_back = lift Lists.pop_back

pub clear_loop : ℕ → Ptr → ArcCmd (Unit {0})
clear_loop zero cur = fault
clear_loop (suc k) cur = if leb cur end_mark then pure tt else do
  n ← lift (load cur)
  lift (set_next cur null)
  lift (set_prev cur null)
  drop_arc cur
  clear_loop k n.next

pub clear : ℕ → ArcCmd (Unit {0})
unfolding clear_loop
clear fuel = do
  l ← lift get_list
  lift (set_first null)
  lift (set_last null)
  lift (set_len 0)
  clear_loop fuel l.first

-- The assertion that the item stands in the list panics if it does not.
pub remove : ℕ → Ptr → ArcCmd (Unit {0})
remove fuel thing = do
  inside ← lift (Lists.contains fuel thing)
  if inside then lift (Lists.remove thing) else fault
