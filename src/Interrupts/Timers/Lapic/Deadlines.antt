-- ===== src/Interrupts/Timers/Lapic/Deadlines.antt =====
-- The timer of the controller (kernel/src/arch/x86_64/lapic/mod.rs).
use nyaux_kc.Base.{
  ℕ, ◌+◌, ◌*◌, ◌%◌, ◌^◌, ◌<◌, ◌≡◌, ◌≢◌, refl, ◌∙◌, ap, sym, subst, some, ==_self, ne→==, arith,
  Returns, List, ◌/◌, false,
}
use nyaux_kc.Paging.{test_bit}
use nyaux_kc.Interrupts.Timers.Lapic.{
  LapicType, xapic, x2apic, Lapic, lapic, msr, ia32_lapic_lvt_timer, ia32_lapic_timer_init_count,
  read_as, write_as, mask, unmask, set_timer,
}

reg_same :
    (t : LapicType) (l : Lapic) (reg v : ℕ) → v < 2 ^ 32 → read_as t reg (write_as t reg v l) ≡ v
reg_same xapic l reg v small = rw (==_self (l.lapic_addr + reg)) refl
reg_same x2apic l reg v small = rw (==_self (msr reg)) (omega arith)

reg_other :
    (t : LapicType) (l : Lapic) (reg other v : ℕ)
    → reg % 16 ≡ 0
    → other % 16 ≡ 0
    → other ≢ reg
    → read_as t other (write_as t reg v l) ≡ read_as t other l
reg_other xapic l reg other v a b apart =
    rw (ne→== (l.lapic_addr + other) (l.lapic_addr + reg) (λ e. apart (omega arith))) refl
reg_other x2apic l reg other v a b apart =
    rw (ne→== (msr other) (msr reg) (λ e. apart (omega arith))) refl

type_kept : (t : LapicType) (reg v : ℕ) (l : Lapic) → (write_as t reg v l).lapic_type ≡ l.lapic_type
type_kept xapic reg v l = refl
type_kept x2apic reg v l = refl

-- The three writes of `set_timer`.
abbrev stopped : LapicType → Lapic → Lapic
stopped t l = write_as t ia32_lapic_lvt_timer (mask (read_as t ia32_lapic_lvt_timer l)) l

abbrev counted : LapicType → (ms : ℕ) → Lapic → Lapic
counted t ms l = write_as t ia32_lapic_timer_init_count (l.ticks_per_ms * ms % 2 ^ 32) (stopped t l)

abbrev started : LapicType → (ms : ℕ) → Lapic → Lapic
started t ms l =
    write_as t ia32_lapic_lvt_timer (unmask (read_as t ia32_lapic_lvt_timer (counted t ms l)))
      (counted t ms l)

set_timer_run :
    (t : LapicType) (a k ms : ℕ) (w m : ℕ → ℕ) (sent : List ℕ)
    → set_timer ms (lapic t a k w m sent) ≡ some (tt, started t ms (lapic t a k w m sent))
unfolding set_timer
set_timer_run xapic a k ms w m sent = refl
set_timer_run x2apic a k ms w m sent = refl

unmask-mask : (x : ℕ) → unmask (mask x) ≡ unmask x
unmask-mask x = ground arith

unmask-clear : (x : ℕ) → test_bit 16 (unmask x) ≡ false
unmask-clear x = ground arith

unmask-low : (x : ℕ) → unmask x % 2 ^ 16 ≡ x % 2 ^ 16
unmask-low x = ground arith

unmask-high : (x : ℕ) → unmask x / 2 ^ 17 ≡ x / 2 ^ 17
unmask-high x = ground arith

mask_small : (x : ℕ) → x < 2 ^ 32 → mask x < 2 ^ 32
mask_small x small = ground arith

unmask_small : (x : ℕ) → x < 2 ^ 32 → unmask x < 2 ^ 32
unmask_small x small = ground arith

-- The timer after `set_timer`: the mask, bit 16 of its register at 0x320, is clear, the vector and
-- the other bits below the mask and the mode above it are as they were, the count at 0x380 is that of
-- the time's ticks, and no other register is changed.
pub record IsArmed (ms : ℕ) (l t : Lapic) : Type 0 where
  pub same_type : t.lapic_type ≡ l.lapic_type
  pub armed : test_bit 16 (read_as l.lapic_type 0x320 t) ≡ false
  pub vector : read_as l.lapic_type 0x320 t % 2 ^ 16 ≡ read_as l.lapic_type 0x320 l % 2 ^ 16
  pub mode : read_as l.lapic_type 0x320 t / 2 ^ 17 ≡ read_as l.lapic_type 0x320 l / 2 ^ 17
  pub count : read_as l.lapic_type 0x380 t ≡ l.ticks_per_ms * ms % 2 ^ 32
  pub others :
      (reg : ℕ)
      → reg % 16 ≡ 0
      → reg ≢ 0x320
      → reg ≢ 0x380
      → read_as l.lapic_type reg t ≡ read_as l.lapic_type reg l

module _ (t : LapicType) (l : Lapic) (ms : ℕ)
    (word : read_as t ia32_lapic_lvt_timer l < 2 ^ 32) where
  lvt_counted :
      read_as t ia32_lapic_lvt_timer (counted t ms l) ≡ mask (read_as t ia32_lapic_lvt_timer l)
  lvt_counted =
      reg_other t (stopped t l) ia32_lapic_timer_init_count ia32_lapic_lvt_timer _ refl refl
        (omega arith)
      ∙ reg_same t l ia32_lapic_lvt_timer (mask (read_as t ia32_lapic_lvt_timer l))
          (mask_small _ word)

  lvt_started :
      read_as t ia32_lapic_lvt_timer (started t ms l) ≡ unmask (read_as t ia32_lapic_lvt_timer l)
  lvt_started =
      reg_same t (counted t ms l) ia32_lapic_lvt_timer _
        (unmask_small _ (subst (λ x. x < 2 ^ 32) (sym lvt_counted) (mask_small _ word)))
      ∙ ap unmask lvt_counted
      ∙ unmask-mask (read_as t ia32_lapic_lvt_timer l)

  count_started :
      read_as t ia32_lapic_timer_init_count (started t ms l) ≡ l.ticks_per_ms * ms % 2 ^ 32
  count_started =
      reg_other t (counted t ms l) ia32_lapic_lvt_timer ia32_lapic_timer_init_count _ refl refl
        (omega arith)
      ∙ reg_same t (stopped t l) ia32_lapic_timer_init_count (l.ticks_per_ms * ms % 2 ^ 32)
          (omega arith)

  other_started :
      (reg : ℕ)
      → reg % 16 ≡ 0
      → reg ≢ ia32_lapic_lvt_timer
      → reg ≢ ia32_lapic_timer_init_count
      → read_as t reg (started t ms l) ≡ read_as t reg l
  other_started reg aligned a b =
      reg_other t (counted t ms l) ia32_lapic_lvt_timer reg _ refl aligned a
      ∙ reg_other t (stopped t l) ia32_lapic_timer_init_count reg _ refl aligned b
      ∙ reg_other t l ia32_lapic_lvt_timer reg _ refl aligned a

-- On either kind of controller, where the timer's register holds 32 bits: `set_timer` returns with
-- the timer's mask bit clear, its vector and mode as before, its count the ticks of the milliseconds on 32
-- bits, and every other register as it was.
pub set_timer-IsArmed :
    (l : Lapic) (ms : ℕ)
    → read_as l.lapic_type ia32_lapic_lvt_timer l < 2 ^ 32
    → Returns (λ _ t. IsArmed ms l t) (set_timer ms l)
set_timer-IsArmed l ms word =
    let t = l.lapic_type in
    rw (set_timer_run t l.lapic_addr l.ticks_per_ms ms l.words l.msrs l.sent) (record {
      same_type =
          type_kept t ia32_lapic_lvt_timer _ (counted t ms l)
          ∙ type_kept t ia32_lapic_timer_init_count _ (stopped t l)
          ∙ type_kept t ia32_lapic_lvt_timer _ l;
      armed = rw (lvt_started t l ms word) (unmask-clear (read_as t ia32_lapic_lvt_timer l));
      vector = rw (lvt_started t l ms word) (unmask-low (read_as t ia32_lapic_lvt_timer l));
      mode = rw (lvt_started t l ms word) (unmask-high (read_as t ia32_lapic_lvt_timer l));
      count = count_started t l ms word;
      others = other_started t l ms word;
    })
