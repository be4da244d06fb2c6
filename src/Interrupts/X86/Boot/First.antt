-- ===== src/Interrupts/X86/Boot/First.antt =====
-- From `sched_init` (kernel/src/scheduler/mod.rs) to the first thread.
use nyaux_kc.Base.{
  Returns, run_of_Returns, ne→==, ==_self, sym, ℕ, ◌+◌, ◌%◌, ◌^◌, ◌<◌, ◌≡◌, ◌≢◌, refl, ap, ◌∙◌,
  true, false, none, some, List, [], ◌∷◌, has, length, ◌==◌, Bool-cases, inl, inr, ==→eq, ◌>>=◌,
  ◌>>◌, arith,
}
use nyaux_kc.Lists.Nodes.{Ptr, end_mark, write}
use nyaux_kc.Lists.Segments.{Segment-frame, ne_of_has}
use nyaux_kc.Lists.Arcs.{ArcInvasiveList, push_back}
use nyaux_kc.Lists.Arcs.Accounts.{Accounts, with_one, push_back-Accounts}
use nyaux_kc.Memory.Regions.{Pagemap, vmm_alloc}
use nyaux_kc.Scheduler.{Cpu}
use nyaux_kc.Scheduler.RoundRobin.{threads, Holds}
use nyaux_kc.Lists.{ok}
use nyaux_kc.Interrupts.X86.{prepare_thread}
use nyaux_kc.Interrupts.X86.Resume.{encode}
use nyaux_kc.Interrupts.X86.Start.{cleared}
use nyaux_kc.Interrupts.X86.Boot.{
  Thread, thread_new, stack_size, stack_flags, Boot, set, placed, sched_init,
}

-- A new item at an address outside of the list.
placed-Accounts :
    (outside : Ptr → ℕ) (xs : List Ptr) (a : Ptr) (t : Thread) (c : Cpu)
    → Accounts outside xs c.run_queue
    → has a xs ≡ false
    → outside a ≡ 0
    → Accounts (with_one outside a) xs (placed a t c).run_queue
unfolding write
placed-Accounts outside xs a t c acc out unused = record {
  shape = record {
    items = record {
      chain = Segment-frame _ _ _ xs _ acc.shape.items.chain (λ b inside. rw (ne_of_b b inside));
      first = acc.shape.items.first;
      last = acc.shape.items.last;
      count = acc.shape.items.count;
    };
    others = λ b apart. elim (Bool-cases (b == a)) [
      | inl here ↦ rw here (refl, refl)
      | inr other ↦ rw other (acc.shape.others b apart)
    ];
  };
  counts = λ b. elim (Bool-cases (b == a)) [
    | inl here ↦
        let at_a = ==→eq b a here in
        let none_outside : outside b ≡ 0 = ap outside at_a ∙ unused in
        let none_inside : has b xs ≡ false = ap (λ x. has x xs) at_a ∙ out in
        rw (here, none_outside, none_inside) refl
    | inr other ↦ rw other (omega (arith, acc.counts b))
  ];
}
  where
    ne_of_b : (b : Ptr) → has b xs ≡ true → (b == a) ≡ false
    ne_of_b b inside = ground (arith, ne_of_has b a xs inside out)

-- The context of a new thread.
abbrev pub first_context : (entry stack_ptr : ℕ) → List ℕ
first_context entry stack_ptr =
    encode cleared 0 0 (record { rip = entry; cs = 8; rflags = 0x202; rsp = stack_ptr; ss = 16 })

abbrev pub top_of : (stack : ℕ) → ℕ
top_of stack = (stack + stack_size) % 2 ^ 64

abbrev thread : (entry timeslice stack : ℕ) → Thread
thread entry timeslice stack = record {
  stack_ptr = top_of stack;
  cpucontext = first_context entry (top_of stack);
  timeslice_in_ms = timeslice;
}

-- `thread::new` for the kernel, at a stack that `vmm_alloc` gives.
thread_new-run :
    (func timeslice a : ℕ) (p q : Pagemap)
    → vmm_alloc stack_size stack_flags p ≡ some (a, q)
    → thread_new func timeslice false p ≡ some (thread func timeslice a, q)
unfolding thread_new prepare_thread
thread_new-run func timeslice a p q given = rw (thread_new, ◌>>=◌, given) refl

-- The state after `sched_init`: the new thread is queued and the idle thread stands by, with their
-- contexts, and interrupts are on.
pub record IsReady (kentry useless entry_stack idle_stack : ℕ) (m i : Ptr) (t : Boot) : Type 0 where
  pub holds :
      (f : List ℕ)
      → length f ≡ 22
      → Holds (λ a. 0) (threads none (some i) (m ∷ [])) (record t.cpu { frame = f })
  pub entry : t.cpu.cpucontext m ≡ first_context kentry (top_of entry_stack)
  pub idle : t.cpu.cpucontext i ≡ first_context useless (top_of idle_stack)
  pub interrupts : t.interrupts ≡ true
  pub own_stack : t.ist1 ≡ t.interrupt_stack

module _ (useless kentry a b : ℕ) (s : Boot) (p1 p2 : Pagemap) (m i : Ptr) (rest : List Ptr)
    (nobody : s.cpu.cur_thread ≡ none) (acc : Accounts (λ x. 0) [] s.cpu.run_queue)
    (sizes : (x : Ptr) → length (s.cpu.cpucontext x) ≡ 22) (given : s.fresh ≡ m ∷ i ∷ rest)
    (real_m : end_mark < m) (real_i : end_mark < i) (apart : i ≢ m)
    (idle_stack : vmm_alloc stack_size stack_flags s.pagemap ≡ some (a, p1))
    (entry_stack : vmm_alloc stack_size stack_flags p1 ≡ some (b, p2)) where
  abbrev with_entry : Cpu
  with_entry = placed m (thread kentry 1 b) s.cpu

  abbrev queued : ArcInvasiveList → Cpu
  queued w = record with_entry { run_queue = w }

  abbrev with_idle : ArcInvasiveList → Cpu
  with_idle w = record (placed i (thread useless 10 a) (queued w)) {
    idle_thread = some i;
    timer = 10;
  }

  sched_init-run :
      (w : ArcInvasiveList)
      → push_back m with_entry.run_queue ≡ some (ok, w)
      → sched_init useless kentry s
        ≡ some (
          tt,
          record {
            cpu = with_idle w;
            pagemap = p2;
            fresh = rest;
            interrupt_stack = s.interrupt_stack;
            ist1 = s.interrupt_stack;
            interrupts = true;
          },
        )
  unfolding sched_init
  sched_init-run w pushed =
      rw
        (
          sched_init,
          ◌>>◌,
          ◌>>=◌,
          thread_new-run useless 10 a s.pagemap p1 idle_stack,
          thread_new-run kentry 1 b p1 p2 entry_stack,
          given,
          pushed,
        )
        refl

  set_sizes :
      (f : Ptr → List ℕ) (x : Ptr) (v : List ℕ)
      → ((y : Ptr) → length (f y) ≡ 22)
      → length v ≡ 22
      → (y : Ptr) → length (set f x v y) ≡ 22
  set_sizes f x v all one_of y = elim (Bool-cases (y == x)) [
    | inl here ↦ rw here one_of
    | inr other ↦ rw other (all y)
  ]

  ready :
      (w : ArcInvasiveList)
      → Accounts (λ x. 0) (m ∷ []) w
      → (f : List ℕ) → length f ≡ 22
      → Holds (λ x. 0) (threads none (some i) (m ∷ [])) (record (with_idle w) { frame = f })
  ready w acc_m f size =
      let out : has i (m ∷ []) ≡ false = rw (ne→== i m apart) refl in
      record {
        cur = nobody;
        idle = refl;
        accounts =
            placed-Accounts (λ x. 0) (m ∷ []) i (thread useless 10 a) (queued w) acc_m out refl;
        cur_apart = tt;
        idle_apart = (real_i, out);
        sizes = λ x.
            set_sizes (set s.cpu.cpucontext m (first_context kentry (top_of b))) i
              (first_context useless (top_of a))
              (set_sizes s.cpu.cpucontext m (first_context kentry (top_of b)) sizes refl) refl x
            ∙ sym size;
      }

  -- On a cpu without a thread and with an empty run queue, where two stacks and two addresses are
  -- given: `sched_init` returns with the new thread queued, the idle thread standing by, their first
  -- contexts on stacks of their own, and interrupts on.
  pub sched_init-IsReady :
      Returns (λ _ t. IsReady kentry useless b a m i t) (sched_init useless kentry s)
  sched_init-IsReady =
      let acc1 = placed-Accounts (λ x. 0) [] m (thread kentry 1 b) s.cpu acc refl refl in
      let (r, w, pushed, got) =
        run_of_Returns _ (push_back m with_entry.run_queue)
          (push_back-Accounts (λ x. 0) with_entry.run_queue [] m acc1 real_m) in
      rw (sched_init-run w (pushed ∙ ap (λ z. some (z, w)) got.0)) (record {
        holds = ready w got.1;
        entry = rw (ne→== m i (λ e. apart (sym e)), ==_self m) refl;
        idle = rw (==_self i) refl;
        interrupts = refl;
        own_stack = refl;
      })
