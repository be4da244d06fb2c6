-- ===== src/Interrupts/X86/Timer.antt =====
-- The timer interrupt, from one thread to the next (kernel/src/arch/x86_64/idt/mod.rs and
-- kernel/src/scheduler/mod.rs).
use nyaux_kc.Base.{
  ℕ, ◌+◌, ◌≡◌, refl, Bool, subst, ◌∙◌, true, Option, some, List, if◌then◌else◌, Returns,
  run_of_Returns,
}
use nyaux_kc.Lists.Nodes.{Ptr}
use nyaux_kc.Scheduler.{Cpu, sched_yield}
use nyaux_kc.Scheduler.RoundRobin.{
  Threads, Holds, Switched, saved, rotate, Yields, sched_yield-rotate,
}
use nyaux_kc.Interrupts.X86.{
  Registers, Return, Core, Handling, with_frame, on_cpu, dispatch, idt_handler, interrupt,
}
use nyaux_kc.Interrupts.X86.Resume.{encode, interrupted, resumed, interrupt-resumed}

preempts :
    (b : Bool) (x : Handling)
    → b ≡ true
    → (if b then on_cpu sched_yield x else some (tt, x)) ≡ on_cpu sched_yield x
preempts b x on = rw on refl

-- The handler of the timer, where it may preempt.
timer-yields :
    (r : Registers) (to : Return) (s : Handling) (c : Cpu)
    → s.preempt ≡ true
    → sched_yield (with_frame (encode r 0x21 0 to) s).cpu ≡ some (tt, c)
    → idt_handler (with_frame (encode r 0x21 0 to) s)
      ≡ some (tt, record s { cpu = c; acknowledged = s.acknowledged + 1 })
unfolding idt_handler dispatch
timer-yields r to s c may ran =
    let x = record (with_frame (encode r 0x21 0 to) s) { acknowledged = s.acknowledged + 1 } in
    preempts s.preempt x may ∙ rw (on_cpu, ran) refl

-- What the timer interrupt leaves: the program of the saved context goes on, the threads are
-- rotated, and the interrupt is acknowledged once.
pub record IsTicked (rest : Ptr → ℕ) (old : Option Ptr) (y : Ptr) (v : Threads) (f : List ℕ)
    (s : Handling) (goal back : Core × Return) (t : Handling) : Type 0 where
  pub program : back ≡ goal
  pub threads : Holds rest v t.cpu
  pub switched : Switched (with_frame f s).cpu old y t.cpu
  pub once : t.acknowledged ≡ s.acknowledged + 1

-- A timer interrupt of a program, where preemption is on and there is a thread to run: the next
-- thread of the round robin goes on exactly where its saved context says, with its registers, flags
-- and stack, the context of the interrupted thread is its registers and its place, its own context
-- if it is the only thread, and the interrupt is acknowledged once.
pub interrupt-IsTicked :
    (rest : Ptr → ℕ) (v v' : Threads) (y : Ptr) (r r' : Registers) (to to' : Return)
    (int' error' : ℕ) (below : List ℕ) (s : Handling)
    → s.preempt ≡ true
    → Holds rest v (with_frame (encode r 0x21 0 to) s).cpu
    → rotate v.cur v.idle v.queue ≡ some (y, v')
    → saved v.cur (with_frame (encode r 0x21 0 to) s).cpu y ≡ encode r' int' error' to'
    → Returns
        (IsTicked rest v.cur y v' (encode r 0x21 0 to) s (resumed r' to' below))
        (interrupt 0x21 (interrupted 0x21 0 r to below) s)
interrupt-IsTicked rest v v' y r r' to to' int' error' below s may holds next context =
    let f = with_frame (encode r 0x21 0 to) s in
    let yielded : Yields rest f.cpu v.cur (some (y, v')) (sched_yield f.cpu) =
      subst (λ z. Yields rest f.cpu v.cur z (sched_yield f.cpu)) next
        (sched_yield-rotate rest v f.cpu holds) in
    let (a, c, ran, (threads, switched)) = run_of_Returns _ (sched_yield f.cpu) yielded in
    rw
      (interrupt-resumed 0x21 0 r to below s
        (record s { cpu = c; acknowledged = s.acknowledged + 1 }) r' int' error' to'
        (timer-yields r to s c may ran) (switched.frame ∙ context))
      (record { program = refl; threads = threads; switched = switched; once = refl })
