-- ===== src/Lists/Arcs/Boxes.antt =====
-- `BoxInvasiveList` (kernel/src/util/lists/mod.rs): the invasive list of items that are owned. Freeing
-- a box that is not allocated is a fault.
pub mod Counted
mod Examples
use nyaux_kc.Base.{
  ℕ, zero, suc, Bool, true, false, Option, none, some, leb, ◌==◌, if◌then◌else◌, M, pure, fault,
  ◌>>=◌, ◌>>◌,
}
use nyaux_kc.Lists.{PushResult, ok, err}
use nyaux_kc.Lists
use nyaux_kc.Lists.Nodes.{
  Ptr, null, end_mark, InvasiveList, Cmd, load, set_next, set_prev, set_first, set_last, set_len,
  get_list,
}

pub record BoxInvasiveList : Type 0 where
  pub inner : InvasiveList
  pub allocated : Ptr → Bool

abbrev pub BoxCmd : Type 0 → Type 0
BoxCmd = M BoxInvasiveList

-- An operation of the inner list.
abbrev pub on_inner : {A : Type 0} → Cmd A → BoxCmd A
on_inner m s = elim (m s.inner) [ none ↦ none | some (a, t) ↦ some (a, record s { inner = t }) ]

abbrev pub freed : (Ptr → Bool) → Ptr → Ptr → Bool
freed allocated x a = if a == x then false else allocated a

-- `drop(Box::from_raw(x))`
unfoldable pub free_box : Ptr → BoxCmd (Unit {0})
free_box x s =
    if s.allocated x then some (tt, record s { allocated = freed s.allocated x }) else none

-- What both pushes do with the result of the inner push.
abbrev pub free_refused : Ptr → PushResult → BoxCmd PushResult
free_refused item ok = pure ok
free_refused item err = do free_box item; pure err

pub box_push_front : Ptr → BoxCmd PushResult
box_push_front item = do res ← on_inner (Lists.push_front item); free_refused item res

pub box_push_back : Ptr → BoxCmd PushResult
box_push_back item = do res ← on_inner (Lists.push_back item); free_refused item res

pub box_pop_front : BoxCmd (Option Ptr)
box_pop_front = on_inner Lists.pop_front

pub box_pop_back : BoxCmd (Option Ptr)
box_pop_back = on_inner Lists.pop_back

pub box_clear_loop : ℕ → Ptr → BoxCmd (Unit {0})
box_clear_loop zero cur = fault
box_clear_loop (suc k) cur = if leb cur end_mark then pure tt else do
  n ← on_inner (load cur)
  on_inner (set_next cur null)
  on_inner (set_prev cur null)
  free_box cur
  box_clear_loop k n.next

pub box_clear : ℕ → BoxCmd (Unit {0})
unfolding box_clear_loop
box_clear fuel = do
  l ← on_inner get_list
  on_inner (set_first null)
  on_inner (set_last null)
  on_inner (set_len 0)
  box_clear_loop fuel l.first

-- The assertion that the item stands in the list panics if it does not.
pub box_remove : ℕ → Ptr → BoxCmd (Unit {0})
box_remove fuel thing = do
  inside ← on_inner (Lists.contains fuel thing)
  if inside then on_inner (Lists.remove thing) else fault
