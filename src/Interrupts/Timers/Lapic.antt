-- ===== src/Interrupts/Timers/Lapic.antt =====
-- kernel/src/arch/x86_64/lapic/mod.rs: the local interrupt controller of a cpu, by its memory or by
-- model registers. A register that the controller changes by itself is a parameter where it is
-- read.
mod Examples
pub mod Deliveries
pub mod Deadlines
use nyaux_kc.Base.{
  ℕ, zero, suc, ◌+◌, ◌-◌, ◌*◌, ◌/◌, ◌%◌, ◌^◌, Bool, true, false, Option, none, some, List, [], ◌∷◌,
  ◌==◌, if◌then◌else◌, M, pure, fault, ◌>>=◌, ◌>>◌,
}
use nyaux_kc.Paging.{test_bit}

-- `lapic_type`
pub data LapicType : Type 0 where
  xapic : LapicType
  x2apic : LapicType

-- The fields of `lapic` that its operations use, the 32-bit words of its memory, the model registers
-- of the cpu, and the commands that the controller has sent: 64 bits each, the newest first.
pub record Lapic : Type 0 where
  pub lapic_type : LapicType
  pub lapic_addr : ℕ
  pub ticks_per_ms : ℕ
  pub words : ℕ → ℕ
  pub msrs : ℕ → ℕ
  pub sent : List ℕ

abbrev pub lapic : LapicType → (addr ticks : ℕ) → (words msrs : ℕ → ℕ) → List ℕ → Lapic
lapic t a k w m c = record {
  lapic_type = t;
  lapic_addr = a;
  ticks_per_ms = k;
  words = w;
  msrs = m;
  sent = c;
}

abbrev pub put : (ℕ → ℕ) → ℕ → ℕ → ℕ → ℕ
put f p v a = if a == p then v else f a

abbrev pub ia32_x2apic_base_msr : ℕ
ia32_x2apic_base_msr = 0x800

abbrev pub lapic_icr_low : ℕ
lapic_icr_low = 0x300

abbrev pub lapic_icr_high : ℕ
lapic_icr_high = 0x310

abbrev pub ia32_lapic_eoi : ℕ
ia32_lapic_eoi = 0xb0

abbrev pub ia32_lapic_lvt_timer : ℕ
ia32_lapic_lvt_timer = 0x320

abbrev pub ia32_lapic_timer_init_count : ℕ
ia32_lapic_timer_init_count = 0x380

abbrev pub ia32_lapic_timer_div : ℕ
ia32_lapic_timer_div = 0x3e0

-- The model register for a register of the controller.
abbrev pub msr : (reg : ℕ) → ℕ
msr reg = ia32_x2apic_base_msr + reg / 2 ^ 4

abbrev pub read_as : LapicType → (reg : ℕ) → Lapic → ℕ
read_as xapic reg l = l.words (l.lapic_addr + reg)
read_as x2apic reg l = l.msrs (msr reg) % 2 ^ 32

pub read : (reg : ℕ) → M Lapic ℕ
read reg l = some (read_as l.lapic_type reg l, l)

-- The controller sends a command when its low half, at 0x300, is written, with the high half, at
-- 0x310, that stands there then.
abbrev pub commanded : (reg val : ℕ) → Lapic → List ℕ
commanded reg val l =
    if reg == 0x300 then (l.words (l.lapic_addr + 0x310) * 2 ^ 32 + val) ∷ l.sent else l.sent

abbrev pub write_as : LapicType → (reg val : ℕ) → Lapic → Lapic
write_as xapic reg val l = record l {
  words = put l.words (l.lapic_addr + reg) val;
  sent = commanded reg val l;
}
write_as x2apic reg val l = record l { msrs = put l.msrs (msr reg) val }

pub write : (reg val : ℕ) → M Lapic (Unit {0})
write reg val l = some (tt, write_as l.lapic_type reg val l)

-- Of 64 bits, a panic on `xapic`. To the command register, at 0x830, it sends a command.
pub write_64 : (reg val : ℕ) → M Lapic (Unit {0})
write_64 reg val l = elim l.lapic_type [
  | xapic ↦ none
  | x2apic ↦ some (
    tt,
    record l {
      msrs = put l.msrs (msr reg) val;
      sent = if msr reg == 0x830 then val ∷ l.sent else l.sent;
    },
  )
]

-- `|= 0x10000` and `&= !0x10000`
abbrev pub mask : ℕ → ℕ
mask lvt = if test_bit 16 lvt then lvt else lvt + 2 ^ 16

abbrev pub unmask : ℕ → ℕ
unmask lvt = if test_bit 16 lvt then lvt - 2 ^ 16 else lvt

pub disable_timer : M Lapic (Unit {0})
unfolding read write
disable_timer = do lvt ← read ia32_lapic_lvt_timer; write ia32_lapic_lvt_timer (mask lvt)

pub enable_timer : M Lapic (Unit {0})
unfolding read write
enable_timer = do lvt ← read ia32_lapic_lvt_timer; write ia32_lapic_lvt_timer (unmask lvt)

pub set_timer : (ms : ℕ) → M Lapic (Unit {0})
unfolding disable_timer enable_timer
set_timer ms = do
  disable_timer
  (λ l. write ia32_lapic_timer_init_count (l.ticks_per_ms * ms % 2 ^ 32) l)
  enable_timer

-- The count that is left after `poll_for_ms(10)` is a parameter.
pub calibrate_timer : (cur : ℕ) → M Lapic (Unit {0})
unfolding write
calibrate_timer cur = do
  write ia32_lapic_lvt_timer (0x21 + 2 ^ 16)
  write ia32_lapic_timer_div 0xb
  write ia32_lapic_timer_init_count 0xffffffff
  (λ l. pure tt (record l { ticks_per_ms = (0xffffffff - cur) / 10 }))
  write ia32_lapic_timer_init_count 0

pub send_eoi : M Lapic (Unit {0})
unfolding write
send_eoi = write ia32_lapic_eoi 0

-- The loop of `send_icr`: the words that it reads until one has the bit 12 clear; without one it
-- never ends.
pub wait_delivered : (polls : List ℕ) → M Lapic (Unit {0})
wait_delivered [] = fault
wait_delivered (w ∷ ws) = if test_bit 12 w then wait_delivered ws else pure tt

-- With `icr` below 2 ^ 32, to which the destination is added.
pub send_icr_as : LapicType → (polls : List ℕ) → (apic_id icr : ℕ) → M Lapic (Unit {0})
unfolding write write_64 wait_delivered
send_icr_as xapic polls apic_id icr = do
  write lapic_icr_high ((icr + apic_id * 2 ^ 56) % 2 ^ 64 / 2 ^ 32)
  write lapic_icr_low (icr % 2 ^ 32)
  wait_delivered polls
send_icr_as x2apic polls apic_id icr = write_64 lapic_icr_low (icr + apic_id * 2 ^ 32)

pub send_icr : (polls : List ℕ) → (apic_id icr : ℕ) → M Lapic (Unit {0})
unfolding send_icr_as
send_icr polls apic_id icr l = send_icr_as l.lapic_type polls apic_id icr l

-- The vector, of 8 bits, with `IA32_LAPIC_SHORTHAND_NONE`.
pub send_ipi : (polls : List ℕ) → (apic_id vector : ℕ) → M Lapic (Unit {0})
unfolding send_icr
send_ipi polls apic_id vector = send_icr polls apic_id vector

-- With `IA32_LAPIC_SHORTHAND_ALL_EXCL_SELF`; the argument `apic_id` is not used.
pub broadcast_ipi : (polls : List ℕ) → (apic_id vector : ℕ) → M Lapic (Unit {0})
unfolding send_icr
broadcast_ipi polls apic_id vector = send_icr polls 0 (0xc0000 + vector)
