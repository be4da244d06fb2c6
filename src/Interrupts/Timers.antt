-- ===== src/Interrupts/Timers.antt =====
-- The timers of kernel/src/arch/x86_64.
pub mod Hpet
pub mod Lapic
