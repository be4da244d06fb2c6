-- ===== src/Interrupts/Timers/Lapic/Examples.antt =====
-- A controller of either kind.
use nyaux_kc.Base.{[], arith, Returns}
use nyaux_kc.Interrupts.Timers.Lapic.{Lapic, lapic, xapic, x2apic, set_timer}
use nyaux_kc.Interrupts.Timers.Lapic.Deadlines.{IsArmed, set_timer-IsArmed}

abbrev by_msr : Lapic
by_msr = lapic x2apic 0xfee00000 62500 (λ a. 0) (λ a. 0x10021) []

abbrev by_memory : Lapic
by_memory = lapic xapic 0xfee00000 62500 (λ a. 0) (λ a. 0) []

set_timer-IsArmed_example : Returns (λ _ t. IsArmed 10 by_msr t) (set_timer 10 by_msr)
set_timer-IsArmed_example = set_timer-IsArmed by_msr 10 (omega arith)
