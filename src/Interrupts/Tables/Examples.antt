-- ===== src/Interrupts/Tables/Examples.antt =====
-- Stubs in the upper half of the address space.
use nyaux_kc.Base.{ℕ, ◌+◌, ◌*◌, if◌then◌else◌, ◌==◌, arith}
use nyaux_kc.Interrupts.Tables.{new_gate, idt_init}
use nyaux_kc.Interrupts.Tables.Gates.{IsGate, idt_init-IsGate}

abbrev stub : ℕ → ℕ
stub n = 0xffffffff80001000 + 32 * n

idt_init-IsGate_example :
    IsGate
      (stub 0x21)
      (if 0x21 == 0x21 then 1 else 0)
      (idt_init stub (λ n. new_gate 0 0 0 0 0) 0x21)
idt_init-IsGate_example =
    idt_init-IsGate stub (λ n. new_gate 0 0 0 0 0) 0x21 (omega arith) (omega arith)
