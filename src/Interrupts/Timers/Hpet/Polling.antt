-- ===== src/Interrupts/Timers/Hpet/Polling.antt =====
-- Waiting for a time (kernel/src/arch/x86_64/hpet/mod.rs).
use native.Mathlib.Nat.{mul-le-mul_right, add-mul}
use nyaux_kc.Base.{
  ℕ, zero, suc, ◌+◌, ◌-◌, ◌*◌, ◌/◌, ◌^◌, ◌≤◌, ◌<◌, ◌≡◌, false, Bool-cases, inl, inr, Option, some,
  none, ltb, ltb→lt, ==→eq, ◌==◌, subst, sym, ge→ltb, arith,
}
use nyaux_kc.Interrupts.Timers.Hpet.{Hpet, read_main_counter, get_ms, poll_loop, poll_for_ms}

-- What the clock reads while it is waited for: it advances at each reading, below the width of
-- the narrower counter.
pub record Advances (clock : ℕ → ℕ) (fuel : ℕ) : Type 0 where
  pub forward : (i : ℕ) → i < fuel → clock i < clock (suc i)
  pub narrow : (i : ℕ) → i ≤ fuel → clock i < 2 ^ 32

product_small : (a b : ℕ) → a < 2 ^ 32 → b < 2 ^ 32 → a * b < 2 ^ 64
product_small a b x y =
    let bound : a * b ≤ 2 ^ 32 * b = mul-le-mul_right b (omega arith) in omega arith

not_less : (a b : ℕ) → ltb a b ≡ false → b ≤ a
not_less a b h = ground arith

counter_small : (h : Hpet) (r : ℕ) → r < 2 ^ 32 → read_main_counter h r ≡ r
counter_small h r small = elim (Bool-cases h.morebitcounter) [
  | inl wide ↦ rw wide (omega arith)
  | inr narrow ↦ rw narrow (omega arith)
]

-- The time of a reading that does not wrap.
time_of :
    (h : Hpet) (r : ℕ)
    → r < 2 ^ 32
    → h.ctr_clk_period < 2 ^ 32
    → get_ms h r ≡ r * h.ctr_clk_period / 10 ^ 12
unfolding get_ms
time_of h r small period =
    let product = product_small r h.ctr_clk_period small period in
    rw (get_ms, counter_small h r small) (omega arith)

some_fuel : (fuel period ms : ℕ) → (ms + 1) * 10 ^ 12 ≤ fuel * period → 0 < fuel
some_fuel zero period ms enough = absurd (omega arith)
some_fuel (suc n) period ms enough = omega arith

module _ (h : Hpet) (clock : ℕ → ℕ) (ms fuel : ℕ) (period : h.ctr_clk_period < 2 ^ 32)
    (runs : Advances clock fuel) (enough : (ms + 1) * 10 ^ 12 ≤ fuel * h.ctr_clk_period) where
  -- The whole milliseconds since the counter started, at the `i`-th reading: a millisecond has
  -- 10 ^ 12 femtoseconds.
  abbrev time : ℕ → ℕ
  time i = clock i * h.ctr_clk_period / 1000000000000

  advanced : (i : ℕ) → i ≤ fuel → clock 0 + i ≤ clock i
  advanced zero small = omega arith
  advanced (suc i) small = omega (arith, advanced i (omega arith), runs.forward i (omega arith))

  abbrev femtoseconds : ℕ → ℕ
  femtoseconds i = clock i * h.ctr_clk_period

  time_at : (i : ℕ) → i ≤ fuel → get_ms h (clock i) ≡ time i
  time_at i small = time_of h (clock i) (runs.narrow i small) period

  not_before : (i : ℕ) → i ≤ fuel → time 0 ≤ time i
  not_before i small =
      let later : femtoseconds 0 ≤ femtoseconds i =
        mul-le-mul_right h.ctr_clk_period (omega (arith, advanced i small)) in
      omega (arith, later)

  -- The last reading that there is fuel for is late enough.
  late_enough : ms ≤ time fuel - time 0
  late_enough =
      let sum : (clock 0 + fuel) * h.ctr_clk_period ≤ femtoseconds fuel =
        mul-le-mul_right h.ctr_clk_period (advanced fuel (omega arith)) in
      omega (arith, add-mul (clock 0) fuel h.ctr_clk_period, sum)

  -- The wait ends at the first reading that is late enough.
  abbrev pub IsFirst : Option ℕ → Type 0
  IsFirst none = ⊥
  IsFirst (some i) =
      (0 < i)
      × (i ≤ fuel)
      × (ms ≤ time i - time 0)
      × ((j : ℕ) → 0 < j → j < i → time j - time 0 < ms)

  until :
      (i : ℕ)
      → ((j : ℕ) → 0 < j → j < i → time j - time 0 < ms)
      → time i - time 0 < ms
      → (j : ℕ) → 0 < j
      → j < suc i
      → time j - time 0 < ms
  until i early short j later below = elim (Bool-cases (j == i)) [
    | inl same ↦ subst (λ n. time n - time 0 < ms) (sym (==→eq j i same)) short
    | inr other ↦ early j later (ground arith)
  ]

  poll_loop-IsFirst :
      (k i : ℕ)
      → i + k ≡ suc fuel
      → 0 < i
      → ((j : ℕ) → 0 < j → j < i → time j - time 0 < ms)
      → IsFirst (poll_loop h clock (time 0) ms k i)
  unfolding poll_loop
  poll_loop-IsFirst zero i all later early =
      let some = some_fuel fuel h.ctr_clk_period ms enough in
      let early_last = early fuel some (omega arith) in
      absurd (omega (arith, early_last, late_enough))
  poll_loop-IsFirst (suc k) i all later early =
      let ahead = ge→ltb (time i) (time 0) (not_before i (omega arith)) in
      elim (Bool-cases (ltb (time i - time 0) ms)) [
        | inl wait ↦
            let short = ltb→lt (time i - time 0) ms wait in
            rw (time_at i (omega arith), ahead, wait)
              (poll_loop-IsFirst k (suc i) (omega arith) (omega arith) (until i early short))
        | inr end ↦
            rw (time_at i (omega arith), ahead, end) (later, omega arith, not_less _ _ end, early)
      ]

  -- With a counter that advances at each of `fuel` readings without wrapping at 32 bits, and as
  -- many readings as the time and one millisecond more take at the counter's period: `poll_for_ms`
  -- ends, at the first reading, later than the one it starts from, whose count of whole milliseconds
  -- of 10 ^ 12 femtoseconds is that much above the first one's.
  pub poll_for_ms-IsFirst : IsFirst (poll_for_ms h clock ms fuel)
  unfolding poll_for_ms
  poll_for_ms-IsFirst =
      rw (poll_for_ms, time_at 0 (omega arith))
        (poll_loop-IsFirst fuel 1 (omega arith) (omega arith)
          (λ j later below. absurd (omega arith)))
