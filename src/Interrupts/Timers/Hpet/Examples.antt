-- ===== src/Interrupts/Timers/Hpet/Examples.antt =====
-- A counter of one tick per microsecond that is read once per millisecond.
use nyaux_kc.Base.{ℕ, ◌*◌, true, arith}
use nyaux_kc.Interrupts.Timers.Hpet.{Hpet, poll_for_ms}
use nyaux_kc.Interrupts.Timers.Hpet.Polling.{Advances, IsFirst, poll_for_ms-IsFirst}

abbrev microseconds : Hpet
microseconds = record { morebitcounter = true; ctr_clk_period = 1000000000 }

abbrev clock : ℕ → ℕ
clock i = 1000 * i

clock-Advances : Advances clock 3000
clock-Advances = record { forward = λ i below. omega arith; narrow = λ i below. omega arith }

poll_for_ms-IsFirst_example :
    IsFirst microseconds clock 2 3000
      (omega arith)
      clock-Advances
      (omega arith)
      (poll_for_ms microseconds clock 2 3000)
poll_for_ms-IsFirst_example =
    poll_for_ms-IsFirst microseconds clock 2 3000 (omega arith) clock-Advances (omega arith)
