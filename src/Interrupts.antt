-- ===== src/Interrupts.antt =====
-- Traps: from the interrupted program to the handler and back.
pub mod Tables
pub mod Timers
pub mod X86
