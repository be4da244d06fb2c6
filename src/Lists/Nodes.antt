-- ===== src/Lists/Nodes.antt =====
-- Nodes at addresses, the list's own fields, and the reads and writes of both
-- (kernel/src/util/lists/mod.rs). An access through 0 or through the end mark 1 is a fault.
use nyaux_kc.Base.{ℕ, ◌<◌, ◌≡◌, none, some, leb, ◌==◌, if◌then◌else◌, M, arith}

abbrev pub Ptr : Type 0
Ptr = ℕ

abbrev pub null : Ptr
null = 0

abbrev pub end_mark : Ptr
end_mark = 1

pub record InvasiveListNode : Type 0 where
  pub prev : Ptr
  pub next : Ptr

abbrev pub node : Ptr → Ptr → InvasiveListNode
node p n = record { prev = p; next = n }

abbrev pub new_node : InvasiveListNode
new_node = node null null

abbrev pub Memory : Type 0
Memory = Ptr → InvasiveListNode

pub record InvasiveList : Type 0 where
  pub mem : Memory
  pub first : Ptr
  pub last : Ptr
  pub len : ℕ

abbrev pub list : Memory → Ptr → Ptr → ℕ → InvasiveList
list m f l n = record { mem = m; first = f; last = l; len = n }

-- The empty list of `InvasiveList::new`, over some memory.
abbrev pub new_list : Memory → InvasiveList
new_list m = list m null null 0

abbrev pub Cmd : Type 0 → Type 0
Cmd = M InvasiveList

unfoldable pub write : Memory → Ptr → InvasiveListNode → Memory
write m p n a = if a == p then n else m a

unfoldable pub with_next : Memory → Ptr → Ptr → Memory
with_next m p q a = if a == p then node (m a).prev q else m a

unfoldable pub with_prev : Memory → Ptr → Ptr → Memory
with_prev m p q a = if a == p then node q (m a).next else m a

-- A write through a pointer that may be null or an end mark.
unfoldable pub access : Ptr → Memory → Cmd (Unit {0})
access p m s = if leb p end_mark then none else some (tt, record s { mem = m })

unfoldable pub load : Ptr → Cmd InvasiveListNode
load p s = if leb p end_mark then none else some (s.mem p, s)

abbrev pub set_next : Ptr → Ptr → Cmd (Unit {0})
set_next p q s = access p (with_next s.mem p q) s

abbrev pub set_prev : Ptr → Ptr → Cmd (Unit {0})
set_prev p q s = access p (with_prev s.mem p q) s

abbrev pub write_node : Ptr → InvasiveListNode → Cmd (Unit {0})
write_node p n s = access p (write s.mem p n) s

abbrev pub get_list : Cmd InvasiveList
get_list s = some (s, s)

abbrev pub set_first : Ptr → Cmd (Unit {0})
set_first p s = some (tt, record s { first = p })

abbrev pub set_last : Ptr → Cmd (Unit {0})
set_last p s = some (tt, record s { last = p })

abbrev pub set_len : ℕ → Cmd (Unit {0})
set_len n s = some (tt, record s { len = n })

module _ (p : Ptr) (s : InvasiveList) (real : end_mark < p) where
  pub load-real : load p s ≡ some (s.mem p, s)
  unfolding load
  load-real = ground arith

  pub access-real : (m : Memory) → access p m s ≡ some (tt, record s { mem = m })
  unfolding access
  access-real m = ground arith
