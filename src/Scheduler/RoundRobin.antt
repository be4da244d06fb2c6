-- ===== src/Scheduler/RoundRobin.antt =====
-- `sched_yield` against round robin on the threads' names.
use nyaux_kc.Base.{
  ℕ, ◌+◌, ◌<◌, ◌≡◌, refl, true, false, Option, none, some, List, [], ◌∷◌, ◌++◌, arith, has,
  has-snoc, ◌==◌, length, Returns, run_of_Returns, ◌>>=◌, eq→==, sym, subst, ◌∙◌,
}
use nyaux_kc.Lists.Nodes.{Ptr, end_mark}
use nyaux_kc.Lists.Arcs.{ArcInvasiveList, lowered, push_back, pop_front}
use nyaux_kc.Lists.Arcs.Accounts.{
  Accounts, Spent, one, each, with_one, push_back-Accounts, pop_front-Accounts, pop_front-empty,
  drop_arc-run,
}
use nyaux_kc.Scheduler.{Cpu, sched_yield, raised, updated, save_frame, load_frame}

-- The threads' names: who runs, who stands by as idle thread, and the queue.
pub record Threads : Type 0 where
  pub cur : Option Ptr
  pub idle : Option Ptr
  pub queue : List Ptr

abbrev pub threads : Option Ptr → Option Ptr → List Ptr → Threads
threads c i q = record { cur = c; idle = i; queue = q }

-- Round robin: who runs next, and the names after the switch.
abbrev pub rotate : Option Ptr → Option Ptr → List Ptr → Option (Ptr × Threads)
rotate (some t) i [] = some (t, threads (some t) i [])
rotate (some t) i (x ∷ xs) = some (x, threads (some x) i (xs ++ t ∷ []))
rotate none i (x ∷ xs) = some (x, threads (some x) i xs)
rotate none (some i) [] = some (i, threads (some i) none [])
rotate none none [] = none

abbrev pub one_of : Option Ptr → Ptr → ℕ
one_of none a = 0
one_of (some t) a = one t a

-- The named thread is a real address and stands neither in the queue nor in the other place.
abbrev pub IsApart : Option Ptr → Option Ptr → List Ptr → Type 0
IsApart none other q = Unit
IsApart (some t) none q = (end_mark < t) × (has t q ≡ false)
IsApart (some t) (some u) q = (end_mark < t) × (has t q ≡ false) × ((t == u) ≡ false)

-- The cpu holds these threads, each referred to once by its place and `rest` times by others, and
-- every saved context is as long as the frame.
pub record Holds (rest : Ptr → ℕ) (v : Threads) (s : Cpu) : Type 0 where
  pub cur : s.cur_thread ≡ v.cur
  pub idle : s.idle_thread ≡ v.idle
  pub accounts : Accounts (λ a. rest a + one_of v.cur a + one_of v.idle a) v.queue s.run_queue
  pub cur_apart : IsApart v.cur v.idle v.queue
  pub idle_apart : IsApart v.idle v.cur v.queue
  pub sizes : (a : Ptr) → length (s.cpucontext a) ≡ length s.frame

-- The contexts once the thread that ran has its frame saved.
abbrev pub saved : Option Ptr → Cpu → Ptr → List ℕ
saved none s = s.cpucontext
saved (some t) s = updated s.cpucontext t s.frame

-- The switch to `next`: its saved context is the frame, the frame of the thread that ran is saved,
-- no other context is touched, and the timer is set to the slice of `next`.
pub record Switched (s : Cpu) (old : Option Ptr) (next : Ptr) (t : Cpu) : Type 0 where
  pub frame : t.frame ≡ saved old s next
  pub contexts : (a : Ptr) → t.cpucontext a ≡ saved old s a
  pub timer : t.timer ≡ s.timeslice_in_ms next
  pub slices : (a : Ptr) → t.timeslice_in_ms a ≡ s.timeslice_in_ms a

abbrev cpu :
    ArcInvasiveList → Option Ptr → Option Ptr → (Ptr → List ℕ) → (Ptr → ℕ) → List ℕ → ℕ → Cpu
cpu q c i ctx ts fr tm = record {
  run_queue = q;
  cur_thread = c;
  idle_thread = i;
  cpucontext = ctx;
  timeslice_in_ms = ts;
  frame = fr;
  timer = tm;
}

-- What follows the push of the thread that ran.
IsApart-front :
    (i : Option Ptr) (t y : Ptr) (xs ys : List Ptr)
    → xs ++ t ∷ [] ≡ y ∷ ys
    → IsApart i (some t) xs
    → IsApart i (some y) ys
IsApart-front none t y xs ys split apart = tt
IsApart-front (some j) t y xs ys split apart =
    let out : has j (y ∷ ys) ≡ false =
      subst (λ l. has j l ≡ false) split (has-snoc j t xs ∙ ground (arith, apart)) in
    (apart.0, ground arith, ground arith)

IsApart-sym :
    (i : Option Ptr) (y : Ptr) (ys : List Ptr)
    → end_mark < y
    → has y ys ≡ false
    → IsApart i (some y) ys
    → IsApart (some y) i ys
IsApart-sym none y ys real out apart = (real, out)
IsApart-sym (some j) y ys real out apart = (real, out, ground (arith, apart))

IsApart-tail :
    (i : Option Ptr) (x : Ptr) (xs : List Ptr) → IsApart i none (x ∷ xs) → IsApart i (some x) xs
IsApart-tail none x xs apart = tt
IsApart-tail (some j) x xs apart = (apart.0, ground arith, ground arith)

real_of :
    (t : Ptr) (i : Option Ptr) (q : List Ptr)
    → IsApart (some t) i q
    → (end_mark < t) × (has t q ≡ false)
real_of t none q apart = apart
real_of t (some u) q apart = (apart.0, apart.1)

accounts_after :
    (rest strong : Ptr → ℕ) (i : Option Ptr) (t y : Ptr) (ys : List Ptr) (a : Ptr)
    → strong a ≡ with_one (λ b. rest b + one_of i b + one t b) y a + each ys a
    → lowered strong t a ≡ rest a + one y a + one_of i a + each ys a
accounts_after rest strong i t y ys a e = ground arith

length-updated :
    (ctx : Ptr → List ℕ) (fr : List ℕ) (t a : Ptr)
    → length (ctx a) ≡ length fr
    → length (updated ctx t fr a) ≡ length fr
length-updated ctx fr t a e = ground arith

module _ (rest : Ptr → ℕ) (q : ArcInvasiveList) (i : Option Ptr) (ctx : Ptr → List ℕ) (ts : Ptr → ℕ)
    (fr : List ℕ) (tm : ℕ) (sizes : (a : Ptr) → length (ctx a) ≡ length fr) where
  yield_running :
      (t : Ptr) (xs : List Ptr) (y : Ptr) (ys : List Ptr)
      → xs ++ t ∷ [] ≡ y ∷ ys
      → Accounts (λ a. rest a + one t a + one_of i a) xs q
      → end_mark < t
      → has t xs ≡ false
      → IsApart i (some t) xs
      → Returns
          (λ _ u.
            Holds rest (threads (some y) i ys) u
            × Switched (cpu q (some t) i ctx ts fr tm) (some t) y u)
          (sched_yield (cpu q (some t) i ctx ts fr tm))
  unfolding sched_yield save_frame load_frame
  yield_running t xs y ys split acc real out apart =
      let O : Ptr → ℕ = λ a. rest a + one_of i a + one t a in
      let q1 : ArcInvasiveList = record q { strong = raised q.strong t } in
      let acc1 : Accounts (with_one O t) xs q1 = record {
        shape = acc.shape;
        counts = λ a. ground (arith, acc.counts a);
      } in
      let (r, w1, e1, got) = run_of_Returns _ (push_back t q1) (
        subst (λ b. Returns (Spent O b xs (xs ++ t ∷ [])) (push_back t q1)) out
          (push_back-Accounts O q1 xs t acc1 real)) in
      let acc2 : Accounts O (y ∷ ys) w1 = subst (λ l. Accounts O l w1) split got.1 in
      let (r2, w2, e2, got2) =
        run_of_Returns _ (pop_front w1) (pop_front-Accounts O w1 y ys acc2) in
      let chain = acc2.shape.items.chain in
      let apart_y = IsApart-front i t y xs ys split apart in
      let held : 0 < w2.strong t = ground (arith, got2.1.counts t) in
      let same_size : (length (ctx t) == length fr) ≡ true = eq→== _ _ (sizes t) in
      let same_size_y : (length fr == length (updated ctx t fr y)) ≡ true =
        eq→== _ _ (sym (length-updated ctx fr t y (sizes y))) in
      rw (e1, got.0, e2, got2.0, same_size, drop_arc-run t w2 held, same_size_y, sched_yield, ◌>>=◌)
        (
          record {
            cur = refl;
            idle = refl;
            accounts = record {
              shape = got2.1.shape;
              counts = λ a. accounts_after rest w2.strong i t y ys a (got2.1.counts a);
            };
            cur_apart = IsApart-sym i y ys chain.0 chain.1.2 apart_y;
            idle_apart = apart_y;
            sizes = λ a.
                length-updated ctx fr t a (sizes a) ∙ sym (length-updated ctx fr t y (sizes y));
          },
          record { frame = refl; contexts = λ a. refl; timer = refl; slices = λ a. refl },
        )

  -- No thread ran, and the front `x` of the queue is taken.
  yield_front :
      (x : Ptr) (xs : List Ptr)
      → Accounts (λ a. rest a + 0 + one_of i a) (x ∷ xs) q
      → IsApart i none (x ∷ xs)
      → Returns
          (λ _ u.
            Holds rest (threads (some x) i xs) u × Switched (cpu q none i ctx ts fr tm) none x u)
          (sched_yield (cpu q none i ctx ts fr tm))
  unfolding sched_yield load_frame
  yield_front x xs acc apart =
      let (r, w, e, got) =
        run_of_Returns _ (pop_front q)
          (pop_front-Accounts (λ a. rest a + 0 + one_of i a) q x xs acc) in
      let chain = acc.shape.items.chain in
      let apart_x = IsApart-tail i x xs apart in
      rw (e, got.0, eq→== _ _ (sym (sizes x)), sched_yield, ◌>>=◌)
        (
          record {
            cur = refl;
            idle = refl;
            accounts = record { shape = got.1.shape; counts = λ a. omega (arith, got.1.counts a) };
            cur_apart = IsApart-sym i x xs chain.0 chain.1.2 apart_x;
            idle_apart = apart_x;
            sizes = λ a. sizes a ∙ sym (sizes x);
          },
          record { frame = refl; contexts = λ a. refl; timer = refl; slices = λ a. refl },
        )

-- Nothing is queued and no thread ran: the idle thread `j` runs, and leaves its place.
yield_idle :
    (rest : Ptr → ℕ) (q : ArcInvasiveList) (j : Ptr) (ctx : Ptr → List ℕ) (ts : Ptr → ℕ)
    (fr : List ℕ) (tm : ℕ)
    → ((a : Ptr) → length (ctx a) ≡ length fr)
    → Accounts (λ a. rest a + 0 + one j a) [] q
    → end_mark < j
    → Returns
        (λ _ u.
          Holds rest (threads (some j) none []) u
          × Switched (cpu q none (some j) ctx ts fr tm) none j u)
        (sched_yield (cpu q none (some j) ctx ts fr tm))
unfolding sched_yield load_frame
yield_idle rest q j ctx ts fr tm sizes acc real =
    rw (pop_front-empty _ q acc, eq→== _ _ (sym (sizes j)), sched_yield, ◌>>=◌)
      (
        record {
          cur = refl;
          idle = refl;
          accounts = record { shape = acc.shape; counts = λ a. omega (arith, acc.counts a) };
          cur_apart = (real, refl);
          idle_apart = tt;
          sizes = λ a. sizes a ∙ sym (sizes j);
        },
        record { frame = refl; contexts = λ a. refl; timer = refl; slices = λ a. refl },
      )

yield_nobody :
    (O : Ptr → ℕ) (q : ArcInvasiveList) (ctx : Ptr → List ℕ) (ts : Ptr → ℕ) (fr : List ℕ) (tm : ℕ)
    → Accounts O [] q
    → sched_yield (cpu q none none ctx ts fr tm) ≡ none
unfolding sched_yield
yield_nobody O q ctx ts fr tm acc = rw (pop_front-empty O q acc, sched_yield, ◌>>=◌)

-- What `sched_yield` is to do when round robin gives this answer.
abbrev pub Yields :
    (Ptr → ℕ) → Cpu → Option Ptr → Option (Ptr × Threads) → Option (Unit {0} × Cpu) → Type 0
Yields rest s old none r = r ≡ none
Yields rest s old (some (y, v)) r = Returns (λ _ t. Holds rest v t × Switched s old y t) r

yield_cells :
    (rest : Ptr → ℕ) (q : ArcInvasiveList) (c i : Option Ptr) (xs : List Ptr) (ctx : Ptr → List ℕ)
    (ts : Ptr → ℕ) (fr : List ℕ) (tm : ℕ)
    → ((a : Ptr) → length (ctx a) ≡ length fr)
    → Accounts (λ a. rest a + one_of c a + one_of i a) xs q
    → IsApart c i xs
    → IsApart i c xs
    → Yields rest (cpu q c i ctx ts fr tm) c (rotate c i xs) (sched_yield (cpu q c i ctx ts fr tm))
yield_cells rest q (some t) i [] ctx ts fr tm sizes acc ca ia =
    yield_running rest q i ctx ts fr tm sizes t [] t [] refl acc (real_of t i [] ca).0 refl ia
yield_cells rest q (some t) i (x ∷ xs) ctx ts fr tm sizes acc ca ia =
    let (real, out) = real_of t i (x ∷ xs) ca in
    yield_running rest q i ctx ts fr tm sizes t (x ∷ xs) x (xs ++ t ∷ []) refl acc real out ia
yield_cells rest q none i (x ∷ xs) ctx ts fr tm sizes acc ca ia =
    yield_front rest q i ctx ts fr tm sizes x xs acc ia
yield_cells rest q none (some j) [] ctx ts fr tm sizes acc ca ia =
    yield_idle rest q j ctx ts fr tm sizes acc ia.0
yield_cells rest q none none [] ctx ts fr tm sizes acc ca ia = yield_nobody _ q ctx ts fr tm acc

-- `sched_yield` is round robin: the thread that ran goes to the back of the queue with its frame
-- saved, the front of the queue runs from its saved frame under its own time slice, and the idle
-- thread is taken only where no thread ran and none is queued. Neither unwrap panics; the one
-- panic is where there is no thread at all.
pub sched_yield-rotate :
    (rest : Ptr → ℕ) (v : Threads) (s : Cpu)
    → Holds rest v s
    → Yields rest s v.cur (rotate v.cur v.idle v.queue) (sched_yield s)
sched_yield-rotate rest v s h =
    let fixed =
      λ (c i : Option Ptr). cpu s.run_queue c i s.cpucontext s.timeslice_in_ms s.frame s.timer in
    let answer = rotate v.cur v.idle v.queue in
    let cells =
      yield_cells rest s.run_queue v.cur v.idle v.queue s.cpucontext s.timeslice_in_ms s.frame
        s.timer h.sizes h.accounts h.cur_apart h.idle_apart in
    subst
      (λ i. Yields rest (fixed s.cur_thread i) v.cur answer (sched_yield (fixed s.cur_thread i)))
      (sym h.idle)
      (subst (λ c. Yields rest (fixed c v.idle) v.cur answer (sched_yield (fixed c v.idle)))
        (sym h.cur) cells)
