-- ===== src/Interrupts/X86/Boot.antt =====
-- `thread::new` and `sched_init` (kernel/src/scheduler/mod.rs).
mod Examples
pub mod First
pub mod Tick
use nyaux_kc.Base.{
  ℕ, ◌+◌, ◌%◌, ◌^◌, Bool, true, false, Option, none, some, List, [], ◌∷◌, ◌==◌, if◌then◌else◌, M,
  pure, fault, ◌>>=◌, ◌>>◌,
}
use nyaux_kc.Lists.Nodes.{Ptr, write, new_node}
use nyaux_kc.Lists.Arcs.{ArcInvasiveList, push_back}
use nyaux_kc.Memory.Regions.{VmmFlags, Pagemap, vmm_alloc}
use nyaux_kc.Scheduler.{Cpu, CpuCmd, on_queue, unwrap, set_idle, set_timer_ms}
use nyaux_kc.Interrupts.X86.{prepare_thread}

-- The fields of `thread` that are set, without its list node.
pub record Thread : Type 0 where
  pub stack_ptr : ℕ
  pub cpucontext : List ℕ
  pub timeslice_in_ms : ℕ

abbrev pub stack_size : ℕ
stack_size = 0x40000

-- `VMMFlags::WRITE | VMMFlags::EXECUTABLE`
abbrev pub stack_flags : VmmFlags
stack_flags = record {
  write = true;
  executable = true;
  global = false;
  user = false;
  nocache = false;
}

abbrev pub with_context : (stack_pt timeslice : ℕ) → Option (List ℕ) → M Pagemap Thread
with_context stack_pt timeslice none = fault
with_context stack_pt timeslice (some ctx) =
    pure (record { stack_ptr = stack_pt; cpucontext = ctx; timeslice_in_ms = timeslice })

-- `thread::new`
pub thread_new : (func timeslice : ℕ) → (user : Bool) → M Pagemap Thread
unfolding prepare_thread
thread_new func timeslice user = do
  stack ← vmm_alloc stack_size stack_flags
  with_context ((stack + stack_size) % 2 ^ 64) timeslice
      (prepare_thread func ((stack + stack_size) % 2 ^ 64) user)

-- The cpu, the regions of the kernel, the addresses that `Arc::new` is given, the stack for
-- interrupts with its entry in the task state, and whether interrupts are on.
pub record Boot : Type 0 where
  pub cpu : Cpu
  pub pagemap : Pagemap
  pub fresh : List Ptr
  pub interrupt_stack : ℕ
  pub ist1 : ℕ
  pub interrupts : Bool

abbrev pub on_pagemap : {A : Type 0} → M Pagemap A → M Boot A
on_pagemap m s = elim (m s.pagemap) [
  | none ↦ none
  | some (a, p) ↦ some (a, record s { pagemap = p })
]

abbrev pub on_cpu : {A : Type 0} → CpuCmd A → M Boot A
on_cpu m s = elim (m s.cpu) [ none ↦ none | some (a, c) ↦ some (a, record s { cpu = c }) ]

abbrev pub set : {A : Type 0} → (Ptr → A) → Ptr → A → Ptr → A
set f p v a = if a == p then v else f a

-- The thread at a new address, with one reference to it and an unlinked node.
abbrev pub placed : Ptr → Thread → Cpu → Cpu
placed a t c = record c {
  run_queue = record c.run_queue {
    inner = record c.run_queue.inner { mem = write c.run_queue.inner.mem a new_node };
    strong = set c.run_queue.strong a 1;
  };
  cpucontext = set c.cpucontext a t.cpucontext;
  timeslice_in_ms = set c.timeslice_in_ms a t.timeslice_in_ms;
}

-- `Arc::new`
abbrev pub arc_new : Thread → M Boot Ptr
arc_new t s = elim s.fresh [
  | [] ↦ none
  | a ∷ rest ↦ some (a, record s { fresh = rest; cpu = placed a t s.cpu })
]

abbrev pub set_interrupt_stack : M Boot (Unit {0})
set_interrupt_stack s = some (tt, record s { ist1 = s.interrupt_stack })

abbrev pub enable_interrupts : M Boot (Unit {0})
enable_interrupts s = some (tt, record s { interrupts = true })

-- `sched_init` up to the loop that it ends in, with the addresses of `useless` and `kentry`; the lock
-- `schedlock` is left out.
pub sched_init : (useless kentry : ℕ) → M Boot (Unit {0})
unfolding thread_new
sched_init useless kentry = do
  set_interrupt_stack
  idle ← on_pagemap (thread_new useless 10 false)
  entry ← on_pagemap (thread_new kentry 1 false)
  thr ← arc_new entry
  r ← on_cpu (on_queue (push_back thr))
  on_cpu (unwrap r)
  i ← arc_new idle
  on_cpu (set_idle (some i))
  on_cpu (set_timer_ms 10)
  enable_interrupts
