-- ===== src/Locks/Readers/Sharing.antt =====
-- Writers exclude one another and all readers (`RWSpinLock` of kernel/src/util/mod.rs).
use nyaux_kc.Base.{
  ℕ, zero, suc, ◌+◌, ◌-◌, ◌≤◌, ◌<◌, ◌≡◌, refl, sym, ap, subst, Bool, true, false, ◌&&◌, not, some,
  List, [], ◌∷◌, get_elem?, leb, ◌==◌, arith, Bool-cases, Option-cases, inl, inr, ◌⊎◌, ◌≢◌,
  ℕ_discrete, lt_of_leb,
}
use nyaux_kc.Locks.Readers.{
  RwPhase, outside, reading, loaded, read_waiting, reader, writing, write_waiting, writer, freed,
  RwCpu, all_ones, rw_act, RwLock, put_at, rw_acted, rw_step, rw_run, rw_start,
}

abbrev pub reads : RwPhase → ℕ
reads outside = 0
reads reading = 0
reads (loaded old) = 0
reads read_waiting = 0
reads reader = 1
reads writing = 0
reads write_waiting = 0
reads writer = 0
reads freed = 0

abbrev pub writes : RwPhase → ℕ
writes outside = 0
writes reading = 0
writes (loaded old) = 0
writes read_waiting = 0
writes reader = 0
writes writing = 0
writes write_waiting = 0
writes writer = 1
writes freed = 0

-- Interrupts are off from the start of an attempt to the end of the hold; a word that `lock_read`
-- goes on with leaves room for one reader more.
abbrev pub Quiet : RwPhase → Bool → Type 0
Quiet outside i = Unit
Quiet reading i = i ≡ false
Quiet (loaded old) i = (i ≡ false) × (old + 1 < all_ones)
Quiet read_waiting i = Unit
Quiet reader i = i ≡ false
Quiet writing i = i ≡ false
Quiet write_waiting i = Unit
Quiet writer i = i ≡ false
Quiet freed i = i ≡ false

-- The sum of a number over the cpus.
abbrev pub total : (RwPhase → ℕ) → List RwCpu → ℕ
total f [] = 0
total f (x ∷ l) = f x.phase + total f l

abbrev pub AllQuiet : List RwCpu → Type 0
AllQuiet [] = Unit
AllQuiet (x ∷ l) = Quiet x.phase x.interrupts × AllQuiet l

-- The word counts the readers and nobody writes, or it is the mark of the one writer.
abbrev pub Counts : (word readers writers : ℕ) → Type 0
Counts w r n = ((w < all_ones) × (w ≡ r) × (n ≡ 0)) ⊎ ((w ≡ all_ones) × (r ≡ 0) × (n ≡ 1))

pub record IsShared (s : RwLock) : Type 0 where
  pub counts : Counts s.word (total reads s.cpus) (total writes s.cpus)
  pub quiet : AllQuiet s.cpus

total-put_at :
    (f : RwPhase → ℕ) (c : ℕ) (x y : RwCpu) (l : List RwCpu)
    → get_elem? l c ≡ some x
    → total f (put_at c y l) + f x.phase ≡ total f l + f y.phase
total-put_at f c x y [] e = absurd (cc e)
total-put_at f zero x y (z ∷ l) e = let same : z ≡ x = cc e in rw (same) (omega arith)
total-put_at f (suc c) x y (z ∷ l) e = omega (arith, total-put_at f c x y l e)

AllQuiet-put_at :
    (c : ℕ) (y : RwCpu) (l : List RwCpu)
    → Quiet y.phase y.interrupts
    → AllQuiet l
    → AllQuiet (put_at c y l)
AllQuiet-put_at c y [] q all = tt
AllQuiet-put_at zero y (z ∷ l) q all = (q, all.1)
AllQuiet-put_at (suc c) y (z ∷ l) q all = (all.0, AllQuiet-put_at c y l q all.1)

AllQuiet-at :
    (c : ℕ) (x : RwCpu) (l : List RwCpu)
    → get_elem? l c ≡ some x
    → AllQuiet l
    → Quiet x.phase x.interrupts
AllQuiet-at c x [] e all = absurd (cc e)
AllQuiet-at zero x (z ∷ l) e all =
    let same : z ≡ x = cc e in subst (λ t. Quiet t.phase t.interrupts) same all.0
AllQuiet-at (suc c) x (z ∷ l) e all = AllQuiet-at c x l e all.1

total-at :
    (f : RwPhase → ℕ) (c : ℕ) (x : RwCpu) (l : List RwCpu)
    → get_elem? l c ≡ some x
    → f x.phase ≤ total f l
total-at f c x [] e = absurd (cc e)
total-at f zero x (z ∷ l) e = let same : z ≡ x = cc e in rw (← same) (omega arith)
total-at f (suc c) x (z ∷ l) e = omega (arith, total-at f c x l e)

-- What one step does to the word, to the holds, and to the interrupt flag.
rw_act-Counts :
    (p : RwPhase) (i v : Bool) (w r n : ℕ) (choice : Bool)
    → Quiet p i
    → Counts w (r + reads p) (n + writes p)
    → let o = rw_act p i v w choice in
      Counts o.word (r + reads o.self.phase) (n + writes o.self.phase)
      × Quiet o.self.phase o.self.interrupts
unfolding rw_act
rw_act-Counts outside i v w r n true q h = (h, refl)
rw_act-Counts outside i v w r n false q h = (h, refl)
rw_act-Counts reading i v w r n choice q h = elim (Bool-cases (leb (all_ones - 1) w)) [
  | inl full ↦ rw full (h, tt)
  | inr space ↦ rw space (h, (q, omega (arith, lt_of_leb (all_ones - 1) w space)))
]
rw_act-Counts (loaded old) i v w r n choice q h = elim (Bool-cases (w == old && not choice)) [
  | inl taken ↦
      let same : w ≡ old = ground arith in
      rw taken
        (elim h [ inl a ↦ inl (omega (arith, q.1)) | inr a ↦ absurd (omega (arith, q.1)) ], q.0)
  | inr failed ↦ rw failed (h, tt)
]
rw_act-Counts read_waiting i v w r n choice q h = (h, refl)
rw_act-Counts reader i v w r n choice q h =
    (elim h [ inl a ↦ inl (omega arith) | inr a ↦ absurd (omega arith) ], q)
rw_act-Counts writing i v w r n choice q h = elim (Bool-cases (w == 0 && not choice)) [
  | inl taken ↦
      let none_in : w ≡ 0 = ground arith in
      rw taken (elim h [ inl a ↦ inr (omega arith) | inr a ↦ absurd (omega arith) ], q)
  | inr failed ↦ rw failed (h, tt)
]
rw_act-Counts write_waiting i v w r n choice q h = (h, refl)
rw_act-Counts writer i v w r n choice q h =
    (elim h [ inl a ↦ absurd (omega arith) | inr a ↦ inl (omega arith) ], q)
rw_act-Counts freed i v w r n choice q h = (h, tt)

rw_step-IsShared : (c : ℕ) (choice : Bool) (s : RwLock) → IsShared s → IsShared (rw_step c choice s)
unfolding rw_step
rw_step-IsShared c choice s sound = elim (Option-cases (get_elem? s.cpus c)) [
  | inl gone ↦ rw (rw_step, gone) sound
  | inr (x, here) ↦
      let o = rw_acted x s.word choice in
      let q = AllQuiet-at c x s.cpus here sound.quiet in
      let r = total reads s.cpus - reads x.phase in
      let n = total writes s.cpus - writes x.phase in
      let at_r : r + reads x.phase ≡ total reads s.cpus =
        omega (arith, total-at reads c x s.cpus here) in
      let at_n : n + writes x.phase ≡ total writes s.cpus =
        omega (arith, total-at writes c x s.cpus here) in
      let (counted, quiet) = rw_act-Counts x.phase x.interrupts x.prev s.word r n choice q (
        subst (λ a. Counts s.word a (n + writes x.phase)) (sym at_r)
          (subst (λ b. Counts s.word (total reads s.cpus) b) (sym at_n) sound.counts)) in
      let new_r : r + reads o.self.phase ≡ total reads (put_at c o.self s.cpus) =
        omega (arith, at_r, total-put_at reads c x o.self s.cpus here) in
      let new_n : n + writes o.self.phase ≡ total writes (put_at c o.self s.cpus) =
        omega (arith, at_n, total-put_at writes c x o.self s.cpus here) in
      rw (rw_step, here)
        (record {
          counts =
              subst (λ a. Counts o.word a (total writes (put_at c o.self s.cpus))) new_r
                (subst (λ b. Counts o.word (r + reads o.self.phase) b) new_n counted);
          quiet = AllQuiet-put_at c o.self s.cpus quiet sound.quiet;
        })
]

rw_run-IsShared : (cs : List (ℕ × Bool)) (s : RwLock) → IsShared s → IsShared (rw_run cs s)
unfolding rw_run
rw_run-IsShared [] s sound = sound
rw_run-IsShared ((c, choice) ∷ rest) s sound =
    rw_run-IsShared rest (rw_step c choice s) (rw_step-IsShared c choice s sound)

rw_start-IsShared : (interrupts : List Bool) → IsShared (rw_start interrupts)
rw_start-IsShared interrupts = record {
  counts = inl (omega arith, sym (none_in reads refl interrupts), none_in writes refl interrupts);
  quiet = quiet interrupts;
}
  where
    none_in : (f : RwPhase → ℕ) → f outside ≡ 0 → (l : List Bool) → total f (rw_start l).cpus ≡ 0
    none_in f zero_out [] = refl
    none_in f zero_out (i ∷ l) = omega (arith, zero_out, none_in f zero_out l)

    quiet : (l : List Bool) → AllQuiet (rw_start l).cpus
    quiet [] = tt
    quiet (i ∷ l) = (tt, quiet l)

total-two :
    (f : RwPhase → ℕ) (a b : ℕ) (x y : RwCpu) (l : List RwCpu)
    → get_elem? l a ≡ some x
    → get_elem? l b ≡ some y
    → a ≢ b
    → f x.phase + f y.phase ≤ total f l
total-two f a b x y [] at_a at_b ne = absurd (cc at_a)
total-two f zero zero x y (z ∷ l) at_a at_b ne = absurd (ne refl)
total-two f zero (suc b) x y (z ∷ l) at_a at_b ne =
    let same : z ≡ x = cc at_a in rw (← same) (omega (arith, total-at f b y l at_b))
total-two f (suc a) zero x y (z ∷ l) at_a at_b ne =
    let same : z ≡ y = cc at_b in rw (← same) (omega (arith, total-at f a x l at_a))
total-two f (suc a) (suc b) x y (z ∷ l) at_a at_b ne =
    omega (arith, total-two f a b x y l at_a at_b (λ e. ne (ap suc e)))

-- Whatever the order in which the cpus step, which of them want to read, and which exchanges fail for
-- no reason: while a cpu has the lock for writing, no other has it at all, for reading or for
-- writing, and that cpu runs with interrupts off.
pub rw_run-exclusive :
    (interrupts : List Bool) (cs : List (ℕ × Bool)) (a b : ℕ) (x y : RwCpu)
    → get_elem? (rw_run cs (rw_start interrupts)).cpus a ≡ some x
    → get_elem? (rw_run cs (rw_start interrupts)).cpus b ≡ some y
    → x.phase ≡ writer
    → 0 < reads y.phase + writes y.phase
    → (a ≡ b) × (x.interrupts ≡ false)
rw_run-exclusive interrupts cs a b x y at_a at_b writes_a holds_b =
    let s = rw_run cs (rw_start interrupts) in
    let sound = rw_run-IsShared cs (rw_start interrupts) (rw_start-IsShared interrupts) in
    let one : writes x.phase ≡ 1 = ap writes writes_a in
    let nobody_reads : total reads s.cpus ≡ 0 = elim sound.counts [
      | inl c ↦ absurd (omega (arith, total-at writes a x s.cpus at_a))
      | inr c ↦ c.1
    ] in
    let one_writes : total writes s.cpus ≡ 1 = elim sound.counts [
      | inl c ↦ absurd (omega (arith, total-at writes a x s.cpus at_a))
      | inr c ↦ c.2
    ] in
    let y_writes : 0 < writes y.phase = omega (arith, total-at reads b y s.cpus at_b) in
    (
      elim (ℕ_discrete a b) [
        | yes same ↦ same
        | no ne ↦ absurd (omega (arith, total-two writes a b x y s.cpus at_a at_b ne))
      ],
      subst (λ p. Quiet p x.interrupts) writes_a (AllQuiet-at a x s.cpus at_a sound.quiet),
    )
