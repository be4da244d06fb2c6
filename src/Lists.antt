-- ===== src/Lists.antt =====
-- kernel/src/util/lists/mod.rs: the invasive doubly linked list. An item is named by the address
-- of its list node: `from_node` and `list_node` of `impl_has_list_node!` are inverse shifts by the
-- offset of the field. A null pointer is 0, and 1 marks an end of the list inside a node. The
-- assertions of `dlist_debug_assert!` are off by default and are left out.
pub mod Arcs
mod Examples
pub mod Nodes
pub mod Pop
pub mod Push
pub mod Refinement
pub mod Segments
pub mod Shape
pub mod Unlink
pub mod Walk
use Nodes.{
  Ptr, null, end_mark, InvasiveListNode, new_node, InvasiveList, Cmd, load, set_next, set_prev,
  write_node, get_list, set_first, set_last, set_len,
}
use nyaux_kc.Base.{
  ℕ, zero, suc, ◌+◌, ◌-◌, ◌%◌, ◌^◌, Bool, true, false, not, Option, none, some, leb, ltb, ◌==◌,
  if◌then◌else◌, max, pure, fault, ◌>>=◌, ◌>>◌,
}

-- The `Result<(), ()>` of the two pushes.
pub data PushResult : Type 0 where
  ok : PushResult
  err : PushResult

unfoldable pub wrap_inc : ℕ → ℕ
wrap_inc n = (n + 1) % 2 ^ 64

unfoldable pub wrap_dec : ℕ → ℕ
wrap_dec n = (n + 2 ^ 64 - 1) % 2 ^ 64

-- `InvasiveListNode::is_in_list`
abbrev pub is_in_list : InvasiveListNode → Bool
is_in_list n = not (n.prev == null)

inc_len : Cmd (Unit {0})
inc_len = do l ← get_list; set_len (wrap_inc l.len)

dec_len : Cmd (Unit {0})
dec_len = do l ← get_list; set_len (wrap_dec l.len)

pub push_front : Ptr → Cmd PushResult
unfolding inc_len
push_front item = do
  node ← load item
  if not (node.next == null) then pure err else do
    l ← get_list
    set_next item (max l.first end_mark)
    set_prev item end_mark
    if not (l.first == null) then set_prev l.first item else set_last item
    set_first item
    inc_len
    pure ok

pub push_back : Ptr → Cmd PushResult
unfolding inc_len
push_back item = do
  node ← load item
  if not (node.next == null) then pure err else do
    l ← get_list
    set_prev item (max l.last end_mark)
    set_next item end_mark
    if not (l.last == null) then set_next l.last item else set_first item
    set_last item
    inc_len
    pure ok

pub pop_front : Cmd (Option Ptr)
unfolding dec_len
pop_front = do
  l ← get_list
  if l.first == null then pure none else do
    n ← load l.first
    if ltb end_mark n.next
        then (set_prev n.next end_mark >> set_first n.next)
        else (set_first null >> set_last null)
    write_node l.first new_node
    dec_len
    pure (some l.first)

pub pop_back : Cmd (Option Ptr)
unfolding dec_len
pop_back = do
  l ← get_list
  if l.last == null then pure none else do
    n ← load l.last
    if ltb end_mark n.prev
        then (set_next n.prev end_mark >> set_last n.prev)
        else (set_first null >> set_last null)
    write_node l.last new_node
    dec_len
    pure (some l.last)

pub front : Cmd (Option Ptr)
front = do l ← get_list; if l.first == null then pure none else pure (some l.first)

pub back : Cmd (Option Ptr)
back = do l ← get_list; if l.last == null then pure none else pure (some l.last)

clear_loop : ℕ → Ptr → Cmd (Unit {0})
clear_loop zero cur = fault
clear_loop (suc k) cur =
    if leb cur end_mark
    then pure tt
    else do n ← load cur; set_next cur null; set_prev cur null; clear_loop k n.next

-- `InvasiveList::clear`, with fuel for its loop. It leaves `len` as it is.
pub clear : ℕ → Cmd (Unit {0})
unfolding clear_loop
clear fuel = do l ← get_list; set_first null; set_last null; clear_loop fuel l.first

-- The `for elem in self.iter()` of `contains`.
contains_loop : Ptr → ℕ → Ptr → Cmd Bool
contains_loop thing zero cur = fault
contains_loop thing (suc k) cur =
    if leb cur end_mark
    then pure false
    else do n ← load cur; if cur == thing then pure true else contains_loop thing k n.next

pub contains : ℕ → Ptr → Cmd Bool
unfolding contains_loop
contains fuel thing = do
  n ← load thing
  if n.next == null then pure false else do l ← get_list; contains_loop thing fuel l.first

pub remove : Ptr → Cmd (Unit {0})
unfolding dec_len
remove item = do
  n ← load item
  if ltb end_mark n.next
      then set_prev n.next n.prev
      else (if n.prev == end_mark then set_last null else set_last n.prev)
  if ltb end_mark n.prev
      then set_next n.prev n.next
      else (if n.next == end_mark then set_first null else set_first n.next)
  write_node item new_node
  dec_len

pub try_remove : Ptr → Cmd (Unit {0})
unfolding remove
try_remove item = do n ← load item; if is_in_list n then remove item else pure tt
