-- ===== src/Interrupts/Timers/Hpet.antt =====
-- kernel/src/arch/x86_64/hpet/mod.rs: times from the readings of the main counter.
mod Examples
pub mod Polling
use nyaux_kc.Base.{
  ℕ, zero, suc, ◌+◌, ◌-◌, ◌*◌, ◌/◌, ◌%◌, ◌^◌, Bool, Option, none, some, ltb, leb, if◌then◌else◌,
}

-- The width of the counter and its period in femtoseconds.
pub record Hpet : Type 0 where
  pub morebitcounter : Bool
  pub ctr_clk_period : ℕ

-- The capability register, as `hpet::new` reads it.
pub from_capabilities : (cap : ℕ) → Hpet
from_capabilities cap = record {
  morebitcounter = leb 1 (cap / 2 ^ 13 % 2);
  ctr_clk_period = cap / 2 ^ 32 % 2 ^ 32;
}

-- The register at 0x0f0 read at its width.
abbrev pub read_main_counter : Hpet → (register : ℕ) → ℕ
read_main_counter h register = if h.morebitcounter then register % 2 ^ 64 else register % 2 ^ 32

pub get_ms : Hpet → (register : ℕ) → ℕ
get_ms h register = read_main_counter h register * h.ctr_clk_period / 10 ^ 12 % 2 ^ 64

pub get_ns : Hpet → (register : ℕ) → ℕ
get_ns h register = read_main_counter h register * h.ctr_clk_period / 10 ^ 6 % 2 ^ 64

-- The loop of `poll_for_ms`, where the register reads `clock i` at the `i`-th reading, with fuel for
-- its rounds: how many readings it took. A clock that runs back makes the subtraction panic, `none`.
pub poll_loop : Hpet → (clock : ℕ → ℕ) → (inital ms : ℕ) → (fuel i : ℕ) → Option ℕ
unfolding get_ms
poll_loop h clock inital ms zero i = none
poll_loop h clock inital ms (suc k) i =
    let rest = poll_loop h clock inital ms k (suc i) in
    if ltb (get_ms h (clock i)) inital
    then none
    else if ltb (get_ms h (clock i) - inital) ms
    then rest
    else some i

pub poll_for_ms : Hpet → (clock : ℕ → ℕ) → (ms : ℕ) → (fuel : ℕ) → Option ℕ
unfolding poll_loop
poll_for_ms h clock ms fuel = poll_loop h clock (get_ms h (clock 0)) ms fuel 1
