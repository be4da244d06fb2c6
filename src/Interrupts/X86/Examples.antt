-- ===== src/Interrupts/X86/Examples.antt =====
-- A program of the kernel that the timer interrupts, and a new thread that waits in the queue.
use nyaux_kc.Base.{refl, true, some, none, [], ◌∷◌, arith, ◌==◌, if◌then◌else◌, Returns}
use nyaux_kc.Lists.Nodes.{Memory, node, new_node, list}
use nyaux_kc.Scheduler.RoundRobin.{Threads, threads, Holds}
use nyaux_kc.Interrupts.X86.{Registers, Return, Handling, with_frame, interrupt}
use nyaux_kc.Interrupts.X86.Resume.{encode, interrupted, resumed}
use nyaux_kc.Interrupts.X86.Timer.{IsTicked, interrupt-IsTicked}
use nyaux_kc.Interrupts.X86.Start.{cleared}

abbrev busy : Registers
busy = record {
  rax = 1;
  rbx = 2;
  rcx = 3;
  rdx = 4;
  rbp = 5;
  rdi = 6;
  rsi = 7;
  r8 = 8;
  r9 = 9;
  r10 = 10;
  r11 = 11;
  r12 = 12;
  r13 = 13;
  r14 = 14;
  r15 = 15;
}

abbrev kernel_code : Return
kernel_code = record { rip = 0x1000; cs = 8; rflags = 0x202; rsp = 0x9000; ss = 16 }

abbrev new_thread : Return
new_thread = record { rip = 0x7000; cs = 8; rflags = 0x202; rsp = 0x50000; ss = 16 }

abbrev nodes : Memory
nodes a = if a == 32 then node 1 1 else new_node

abbrev two_cpu : Handling
two_cpu = record {
  cpu = record {
    run_queue = record {
      inner = list nodes 32 32 1;
      strong = λ a. if a == 16 then 1 else if a == 32 then 1 else 0;
    };
    cur_thread = some 16;
    idle_thread = none;
    cpucontext = λ a. encode cleared 0 0 new_thread;
    timeslice_in_ms = λ a. 10;
    frame = [];
    timer = 0;
  };
  preempt = true;
  acknowledged = 0;
}

abbrev two_threads : Threads
two_threads = threads (some 16) none (32 ∷ [])

abbrev after : Threads
after = threads (some 32) none (16 ∷ [])

two_cpu-Holds : Holds (λ a. 0) two_threads (with_frame (encode busy 0x21 0 kernel_code) two_cpu).cpu
two_cpu-Holds = record {
  cur = refl;
  idle = refl;
  accounts = record {
    shape = record {
      items = record {
        chain = (omega arith, (refl, refl, refl), tt);
        first = refl;
        last = refl;
        count = refl;
      };
      others = λ a o. ground arith;
    };
    counts = λ a. ground arith;
  };
  cur_apart = (omega arith, refl);
  idle_apart = tt;
  sizes = λ a. refl;
}

interrupt-IsTicked_example :
    Returns
      (IsTicked
        (λ a. 0)
        (some 16)
        32
        after
        (encode busy 0x21 0 kernel_code)
        two_cpu
        (resumed cleared new_thread []))
      (interrupt 0x21 (interrupted 0x21 0 busy kernel_code []) two_cpu)
interrupt-IsTicked_example =
    interrupt-IsTicked (λ a. 0) two_threads after 32 busy cleared kernel_code new_thread 0 0 []
      two_cpu refl two_cpu-Holds refl refl
