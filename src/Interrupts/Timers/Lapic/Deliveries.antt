-- ===== src/Interrupts/Timers/Lapic/Deliveries.antt =====
-- Interrupts between cpus (kernel/src/arch/x86_64/lapic/mod.rs).
use nyaux_kc.Base.{ℕ, ◌+◌, ◌*◌, ◌^◌, ◌≡◌, false, Bool, not, ◌||◌, List, [], ◌∷◌}
use nyaux_kc.Paging.{test_bit}
use nyaux_kc.Interrupts.Timers.Lapic.{xapic, x2apic, Lapic}

-- Some reading has the delivery bit clear.
abbrev pub is_delivered : List ℕ → Bool
is_delivered [] = false
is_delivered (w ∷ ws) = not (test_bit 12 w) || is_delivered ws

-- One command more has been sent: its destination, bits 56 to 63 in the memory's format and 32 to 63
-- in the model register's, is the cpu, its low byte is the vector, and all else is 0, which means
-- fixed delivery, a physical destination, an edge, and no shorthand.
abbrev pub Reaches : (apic_id number : ℕ) → Lapic → Lapic → Type 0
Reaches apic_id number l t =
    t.sent
    ≡ (elim l.lapic_type [ xapic ↦ apic_id * 2 ^ 56 | x2apic ↦ apic_id * 2 ^ 32 ] + number) ∷ l.sent
