-- ===== src/Scheduler.antt =====
-- kernel/src/scheduler/mod.rs: `sched_yield` on one cpu, inside the lock `schedlock`, with
-- `context_switch` of kernel/src/arch/x86_64/mod.rs. A thread is named by the address of its list
-- node.
mod Examples
pub mod Fairness
pub mod RoundRobin
use nyaux_kc.Base.{
  ℕ, ◌+◌, ◌==◌, if◌then◌else◌, Option, none, some, List, length, M, pure, fault, ◌>>=◌, ◌>>◌,
}
use nyaux_kc.Lists.{PushResult, ok, err}
use nyaux_kc.Lists.Nodes.{Ptr}
use nyaux_kc.Lists.Arcs.{ArcInvasiveList, ArcCmd, push_back, pop_front, drop_arc}

-- The fields of `cpu_local` that the scheduler uses, what it uses of each thread, the interrupt
-- frame that `sched_yield` is given, and the time for which the timer was set last.
pub record Cpu : Type 0 where
  pub run_queue : ArcInvasiveList
  pub cur_thread : Option Ptr
  pub idle_thread : Option Ptr
  pub cpucontext : Ptr → List ℕ
  pub timeslice_in_ms : Ptr → ℕ
  pub frame : List ℕ
  pub timer : ℕ

abbrev pub CpuCmd : Type 0 → Type 0
CpuCmd = M Cpu

abbrev pub on_queue : {A : Type 0} → ArcCmd A → CpuCmd A
on_queue m s = elim (m s.run_queue) [
  | none ↦ none
  | some (a, t) ↦ some (a, record s { run_queue = t })
]

abbrev pub get_cpu : CpuCmd Cpu
get_cpu s = some (s, s)

abbrev pub set_cur : Option Ptr → CpuCmd (Unit {0})
set_cur c s = some (tt, record s { cur_thread = c })

abbrev pub set_idle : Option Ptr → CpuCmd (Unit {0})
set_idle i s = some (tt, record s { idle_thread = i })

abbrev pub raised : (Ptr → ℕ) → Ptr → Ptr → ℕ
raised strong x a = if a == x then strong a + 1 else strong a

-- `Arc::clone`
abbrev pub clone_arc : Ptr → ArcCmd (Unit {0})
clone_arc x s = some (tt, record s { strong = raised s.strong x })

-- `unwrap` of a push, and `expect` of the idle thread.
abbrev pub unwrap : PushResult → CpuCmd (Unit {0})
unwrap ok = pure tt
unwrap err = fault

abbrev pub expect : Option Ptr → CpuCmd Ptr
expect none = fault
expect (some t) = pure t

abbrev pub updated : (Ptr → List ℕ) → Ptr → List ℕ → Ptr → List ℕ
updated f x v a = if a == x then v else f a

-- `bypass.copy_from_slice(fra)`: a panic where the lengths differ.
unfoldable pub save_frame : Ptr → CpuCmd (Unit {0})
save_frame t s =
    if length (s.cpucontext t) == length s.frame
    then some (tt, record s { cpucontext = updated s.cpucontext t s.frame })
    else none

-- `fra.copy_from_slice(new_thread)`
unfoldable pub load_frame : Ptr → CpuCmd (Unit {0})
load_frame t s =
    if length s.frame == length (s.cpucontext t)
    then some (tt, record s { frame = s.cpucontext t })
    else none

-- The old thread's frame is saved first, and the reference to it is dropped.
abbrev pub save_old : Option Ptr → CpuCmd (Unit {0})
save_old none = pure tt
save_old (some t) = do save_frame t; on_queue (drop_arc t)

unfoldable pub context_switch : Option Ptr → Ptr → CpuCmd (Unit {0})
context_switch old_thread new_thread = do save_old old_thread; load_frame new_thread

abbrev pub set_timer_ms : ℕ → CpuCmd (Unit {0})
set_timer_ms ms s = some (tt, record s { timer = ms })

-- The first `if` of `sched_yield`: the running thread goes to the back of the queue.
abbrev pub requeue : Option Ptr → CpuCmd (Option Ptr)
requeue none = pure none
requeue (some t) = do
  set_cur none
  on_queue (clone_arc t)
  r ← on_queue (push_back t)
  unwrap r
  pure (some t)

-- The `match` of `sched_yield`: the front of the queue, or else the idle thread.
abbrev pub choose : Option Ptr → CpuCmd Ptr
choose (some t) = pure t
choose none = do cpu ← get_cpu; set_idle none; expect cpu.idle_thread

pub sched_yield : CpuCmd (Unit {0})
unfolding context_switch
sched_yield = do
  cpu ← get_cpu
  oldregs ← requeue cpu.cur_thread
  front ← on_queue pop_front
  next ← choose front
  context_switch oldregs next
  set_timer_ms (cpu.timeslice_in_ms next)
  set_cur (some next)
