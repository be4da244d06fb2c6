-- ===== src/Interrupts/X86/Boot/Examples.antt =====
-- A cpu as it starts, with a large gap between two regions.
use nyaux_kc.Base.{◌≡◌, refl, false, none, some, [], ◌∷◌, arith, Returns}
use nyaux_kc.Lists.Nodes.{new_node, new_list}
use nyaux_kc.Lists.Arcs.Accounts.{Accounts}
use nyaux_kc.Memory.Align.{align_up}
use nyaux_kc.Memory.Regions.{Pagemap, pagemap, region, map_region_alloc, vmm_alloc, take_node}
use nyaux_kc.Interrupts.X86.Boot.{Boot, stack_size, stack_flags, sched_init}
use nyaux_kc.Interrupts.X86.Boot.First.{first_context}
use nyaux_kc.Interrupts.X86.Boot.Tick.{FirstTick, sched_init-FirstTick}

abbrev gap : Pagemap
gap = pagemap (region 0x1000 0x1000 stack_flags ∷ region 0x10000000 0x1000 stack_flags ∷ []) []

abbrev one_stack : Pagemap
one_stack =
    pagemap
      (region 0x1000 0x1000 stack_flags
        ∷ region 0x2000 0x40000 stack_flags
        ∷ region 0x10000000 0x1000 stack_flags
        ∷ [])
      (take_node 0x2000 ∷ map_region_alloc 0x2000 0x40000 stack_flags ∷ [])

abbrev two_stacks : Pagemap
two_stacks =
    pagemap
      (region 0x1000 0x1000 stack_flags
        ∷ region 0x2000 0x40000 stack_flags
        ∷ region 0x42000 0x40000 stack_flags
        ∷ region 0x10000000 0x1000 stack_flags
        ∷ [])
      (take_node 0x2000
        ∷ map_region_alloc 0x2000 0x40000 stack_flags
        ∷ take_node 0x42000
        ∷ map_region_alloc 0x42000 0x40000 stack_flags
        ∷ [])

first_stack : vmm_alloc stack_size stack_flags gap ≡ some (0x2000, one_stack)
unfolding vmm_alloc align_up
first_stack = refl

second_stack : vmm_alloc stack_size stack_flags one_stack ≡ some (0x42000, two_stacks)
unfolding vmm_alloc align_up
second_stack = refl

abbrev at_boot : Boot
at_boot = record {
  cpu = record {
    run_queue = record { inner = new_list (λ a. new_node); strong = λ a. 0 };
    cur_thread = none;
    idle_thread = none;
    cpucontext = λ a. first_context 0 0;
    timeslice_in_ms = λ a. 0;
    frame = [];
    timer = 0;
  };
  pagemap = gap;
  fresh = 0x90 ∷ 0x50 ∷ [];
  interrupt_stack = 0xa0000;
  ist1 = 0;
  interrupts = false;
}

at_boot-Accounts : Accounts (λ x. 0) [] at_boot.cpu.run_queue
at_boot-Accounts = record {
  shape = record {
    items = record { chain = tt; first = refl; last = refl; count = refl };
    others = λ a out. (refl, refl);
  };
  counts = λ a. refl;
}

sched_init-FirstTick_example :
    Returns
      (λ _ t. FirstTick 0xffffffff80001000 0x82000 0x90 0x50 t)
      (sched_init 0xffffffff80002000 0xffffffff80001000 at_boot)
sched_init-FirstTick_example =
    sched_init-FirstTick 0xffffffff80002000 0xffffffff80001000 0x2000 0x42000 at_boot one_stack
      two_stacks 0x90 0x50 [] refl at_boot-Accounts (λ x. refl) refl (omega arith) (omega arith)
      (omega arith) first_stack second_stack
