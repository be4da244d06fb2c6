-- ===== src/Interrupts/X86/Boot/Tick.antt =====
-- The first timer interrupt after `sched_init` (kernel/src/scheduler/mod.rs).
use nyaux_kc.Base.{
  ℕ, ◌<◌, ◌≡◌, ◌≢◌, refl, ap, true, none, some, List, [], ◌∷◌, length, Returns, Returns-mono,
}
use nyaux_kc.Lists.Nodes.{Ptr, end_mark}
use nyaux_kc.Lists.Arcs.Accounts.{Accounts}
use nyaux_kc.Memory.Regions.{Pagemap, vmm_alloc}
use nyaux_kc.Scheduler.RoundRobin.{threads, Holds}
use nyaux_kc.Interrupts.X86.{Registers, Return, Handling, interrupt, prepare_thread}
use nyaux_kc.Interrupts.X86.Resume.{encode, interrupted}
use nyaux_kc.Interrupts.X86.Start.{Starts, interrupt-Starts}
use nyaux_kc.Interrupts.X86.Boot.{stack_size, stack_flags, Boot, sched_init}
use nyaux_kc.Interrupts.X86.Boot.First.{top_of, IsReady, sched_init-IsReady}

-- A timer interrupt in this state, with preemption on, whatever it interrupts, starts the thread.
abbrev pub FirstTick : (kentry stack_ptr : ℕ) → (m i : Ptr) → Boot → Type 0
FirstTick kentry stack_ptr m i t =
    (r : Registers) (to : Return) (below : List ℕ) (k : ℕ)
    → Returns
        (λ back u.
          Starts kentry stack_ptr back × Holds (λ x. 0) (threads (some m) (some i) []) u.cpu)
        (interrupt 0x21 (interrupted 0x21 0 r to below)
          (record { cpu = t.cpu; preempt = true; acknowledged = k }))

ready-FirstTick :
    (kentry useless entry_stack idle_stack : ℕ) (m i : Ptr) (t : Boot)
    → IsReady kentry useless entry_stack idle_stack m i t
    → FirstTick kentry (top_of entry_stack) m i t
unfolding prepare_thread
ready-FirstTick kentry useless entry_stack idle_stack m i t ready r to below k =
    let s : Handling = record { cpu = t.cpu; preempt = true; acknowledged = k } in
    interrupt-Starts (λ x. 0) (threads none (some i) (m ∷ [])) (threads (some m) (some i) []) m r to
      below s kentry (top_of entry_stack) refl (ready.holds (encode r 0x21 0 to) refl) refl
      (ap some ready.entry)

-- On a cpu without a thread and with an empty run queue whose saved contexts have 22 words, where
-- two stacks and two different real addresses are given: `sched_init` returns, and the first timer
-- interrupt with preemption on starts the kernel's thread at its entry, on its own stack, in the
-- kernel with interrupts on, while the idle thread stands by.
pub sched_init-FirstTick :
    (useless kentry a b : ℕ) (s : Boot) (p1 p2 : Pagemap) (m i : Ptr) (rest : List Ptr)
    → s.cpu.cur_thread ≡ none
    → Accounts (λ x. 0) [] s.cpu.run_queue
    → ((x : Ptr) → length (s.cpu.cpucontext x) ≡ 22)
    → s.fresh ≡ m ∷ i ∷ rest
    → end_mark < m
    → end_mark < i
    → i ≢ m
    → vmm_alloc stack_size stack_flags s.pagemap ≡ some (a, p1)
    → vmm_alloc stack_size stack_flags p1 ≡ some (b, p2)
    → Returns (λ _ t. FirstTick kentry (top_of b) m i t) (sched_init useless kentry s)
sched_init-FirstTick useless kentry a b s p1 p2 m i rest nobody acc sizes given real_m real_i apart
      idle_stack entry_stack =
    Returns-mono _ _ (sched_init useless kentry s)
      (sched_init-IsReady useless kentry a b s p1 p2 m i rest nobody acc sizes given real_m real_i
        apart idle_stack entry_stack)
      (λ _ t ready. ready-FirstTick kentry useless b a m i t ready)
