-- ===== src/Interrupts/X86/Start.antt =====
-- The first run of a new thread (`Prepare_thread` of kernel/src/arch/x86_64/mod.rs).
use mathlib.Core.Option.{some-injective}
use nyaux_kc.Base.{ℕ, ◌/◌, ◌%◌, ◌^◌, ◌≡◌, refl, true, false, some, List, Returns, Returns-mono}
use nyaux_kc.Lists.Nodes.{Ptr}
use nyaux_kc.Scheduler.RoundRobin.{Threads, Holds, saved, rotate}
use nyaux_kc.Interrupts.X86.{
  Registers, Return, Core, Handling, with_frame, interrupt, prepare_thread,
}
use nyaux_kc.Interrupts.X86.Resume.{encode, interrupted, resumed}
use nyaux_kc.Interrupts.X86.Timer.{IsTicked, interrupt-IsTicked}

-- All registers zero.
abbrev pub cleared : Registers
cleared = record {
  rax = 0;
  rbx = 0;
  rcx = 0;
  rdx = 0;
  rbp = 0;
  rdi = 0;
  rsi = 0;
  r8 = 0;
  r9 = 0;
  r10 = 0;
  r11 = 0;
  r12 = 0;
  r13 = 0;
  r14 = 0;
  r15 = 0;
}

-- The program goes on at `entry`, on its stack, in the kernel's segments, with interrupts on (bit 9
-- of the flags).
pub record Starts (entry stack_ptr : ℕ) (back : Core × Return) : Type 0 where
  pub registers : back.0.registers ≡ cleared
  pub kernel_gs : back.0.kernel_gs ≡ true
  pub at_entry : back.1.rip ≡ entry
  pub own_stack : back.1.rsp ≡ stack_ptr
  pub ring : back.1.cs % 4 ≡ 0
  pub interrupts : back.1.rflags / 2 ^ 9 % 2 ≡ 1

-- A thread that `Prepare_thread` prepared for the kernel, when a timer interrupt with preemption on
-- chooses it for the first time: it starts at its entry, on its own stack, with cleared registers,
-- in the kernel's code segment and with interrupts on.
pub interrupt-Starts :
    (rest : Ptr → ℕ) (v v' : Threads) (y : Ptr) (r : Registers) (to : Return) (below : List ℕ)
    (s : Handling) (entry stack_ptr : ℕ)
    → s.preempt ≡ true
    → Holds rest v (with_frame (encode r 0x21 0 to) s).cpu
    → rotate v.cur v.idle v.queue ≡ some (y, v')
    → some (saved v.cur (with_frame (encode r 0x21 0 to) s).cpu y)
      ≡ prepare_thread entry stack_ptr false
    → Returns
        (λ back t. Starts entry stack_ptr back × Holds rest v' t.cpu)
        (interrupt 0x21 (interrupted 0x21 0 r to below) s)
unfolding prepare_thread
interrupt-Starts rest v v' y r to below s entry stack_ptr may holds next prepared =
    let to' : Return = record { rip = entry; cs = 8; rflags = 0x202; rsp = stack_ptr; ss = 16 } in
    Returns-mono (IsTicked rest v.cur y v' (encode r 0x21 0 to) s (resumed cleared to' below))
      (λ back t. Starts entry stack_ptr back × Holds rest v' t.cpu)
      (interrupt 0x21 (interrupted 0x21 0 r to below) s)
      (interrupt-IsTicked rest v v' y r cleared to to' 0 0 below s may holds next
        (some-injective _ _ prepared))
      (λ back t ticked. (rw (ticked.program) starts_there, ticked.threads))
  where
    starts_there : Starts entry stack_ptr (
        resumed cleared
          (record { rip = entry; cs = 8; rflags = 0x202; rsp = stack_ptr; ss = 16 })
          below)
    starts_there = record {
      registers = refl;
      kernel_gs = refl;
      at_entry = refl;
      own_stack = refl;
      ring = refl;
      interrupts = refl;
    }
