-- ===== src/Scheduler/Examples.antt =====
-- The scheduler's theorems on two threads, 16 running and 32 queued, and no idle thread.
use nyaux_kc.Base.{refl, none, some, [], ◌∷◌, arith, ◌==◌, if◌then◌else◌, Returns}
use nyaux_kc.Lists.Nodes.{Memory, node, new_node, list}
use nyaux_kc.Scheduler.{Cpu, sched_yield}
use nyaux_kc.Scheduler.RoundRobin.{Threads, threads, Holds, Yields, sched_yield-rotate}
use nyaux_kc.Scheduler.Fairness.{yields, yields-run}

abbrev nodes : Memory
nodes a = if a == 32 then node 1 1 else new_node

abbrev two_cpu : Cpu
two_cpu = record {
  run_queue = record {
    inner = list nodes 32 32 1;
    strong = λ a. if a == 16 then 1 else if a == 32 then 1 else 0;
  };
  cur_thread = some 16;
  idle_thread = none;
  cpucontext = λ a. a ∷ 0 ∷ [];
  timeslice_in_ms = λ a. 10;
  frame = 7 ∷ 8 ∷ [];
  timer = 0;
}

abbrev two_threads : Threads
two_threads = threads (some 16) none (32 ∷ [])

two_cpu-Holds : Holds (λ a. 0) two_threads two_cpu
two_cpu-Holds = record {
  cur = refl;
  idle = refl;
  accounts = record {
    shape = record {
      items = record {
        chain = (omega arith, (refl, refl, refl), tt);
        first = refl;
        last = refl;
        count = refl;
      };
      others = λ a o. ground arith;
    };
    counts = λ a. ground arith;
  };
  cur_apart = (omega arith, refl);
  idle_apart = tt;
  sizes = λ a. refl;
}

sched_yield-rotate_example :
    Yields
      (λ a. 0)
      two_cpu
      (some 16)
      (some (32, threads (some 32) none (16 ∷ [])))
      (sched_yield two_cpu)
sched_yield-rotate_example = sched_yield-rotate (λ a. 0) two_threads two_cpu two_cpu-Holds

yields-run_example :
    Returns (λ _. Holds (λ a. 0) (threads (some 32) none (16 ∷ []))) (yields 1 two_cpu)
yields-run_example = yields-run (λ a. 0) none 16 [] 32 [] two_cpu two_cpu-Holds
