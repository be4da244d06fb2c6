-- ===== src/Interrupts/Tables/Gates.antt =====
-- What the processor reads from the descriptors (kernel/src/arch/x86_64/idt/mod.rs and
-- kernel/src/arch/x86_64/gdt/mod.rs).
use nyaux_kc.Base.{
  ◌∙◌, sym, ℕ, zero, suc, ◌+◌, ◌*◌, ◌/◌, ◌%◌, ◌^◌, ◌<◌, ◌≡◌, refl, ap, sym, Bool, true, false, ◌==◌,
  if◌then◌else◌, Bool-cases, inl, inr, ==→eq, arith,
}
use nyaux_kc.Interrupts.Tables.{
  GateDesc, new_gate, put_gate, set_gates, idt_init, GdtDesc, GdtTss, gdt_table,
}

-- The address of the handler: its parts in the gate put together.
abbrev pub handler : GateDesc → ℕ
handler g = g.offset_lo + g.offset_mid * 2 ^ 16 + g.offset_hi * 2 ^ 32

-- A gate of the kernel with interrupts off (type 14), present, for the privileged level.
pub record IsGate (at ist : ℕ) (g : GateDesc) : Type 0 where
  pub address : handler g ≡ at
  pub segment : g.seg_sel ≡ 8
  pub stack : g.ist ≡ ist
  pub present : g.flags / 2 ^ 7 ≡ 1
  pub level : g.flags / 2 ^ 5 % 2 ^ 2 ≡ 0
  pub kind : g.flags % 2 ^ 4 ≡ 14

new_gate-IsGate :
    (address ist : ℕ) → address < 2 ^ 64 → IsGate address ist (new_gate address 8 0 14 ist)
unfolding new_gate
new_gate-IsGate address ist small = record {
  address = omega arith;
  segment = refl;
  stack = refl;
  present = refl;
  level = refl;
  kind = refl;
}

module _ (inter_stub : ℕ → ℕ) (entries : ℕ → GateDesc) where
  set_gates-set :
      (k n : ℕ) → n < k → set_gates inter_stub k entries n ≡ new_gate (inter_stub n) 8 0 14 0
  unfolding set_gates
  set_gates-set zero n small = absurd (omega arith)
  set_gates-set (suc k) n small = elim (Bool-cases (n == k)) [
    | inl last ↦
        rw last (ap (λ m. new_gate (inter_stub m) 8 0 14 0) (omega (arith, ==→eq n k last)))
    | inr before ↦ rw before (set_gates-set k n (ground arith))
  ]

  -- The change of the timer's gate, in a table that is set.
  timer-IsGate :
      (n : ℕ) (set : ℕ → GateDesc)
      → inter_stub n < 2 ^ 64
      → set n ≡ new_gate (inter_stub n) 8 0 14 0
      → IsGate
          (inter_stub n)
          (if n == 0x21 then 1 else 0)
          (put_gate set 0x21 (record (set 0x21) { ist = 1 }) n)
  unfolding new_gate
  timer-IsGate n set small known = elim (Bool-cases (n == 0x21)) [
    | inl timer ↦
        let here : set 0x21 ≡ new_gate (inter_stub n) 8 0 14 0 =
          ap set (sym (==→eq n 0x21 timer)) ∙ known in
        rw (timer, here) (new_gate-IsGate (inter_stub n) 1 small)
    | inr other ↦ rw (other, known) (new_gate-IsGate (inter_stub n) 0 small)
  ]

  -- After `idt_init`, each of the 256 gates leads to its stub, at any 64-bit address, in the
  -- kernel's code segment, with interrupts off; only the timer's, 0x21, has a stack of its own.
  pub idt_init-IsGate :
      (n : ℕ)
      → n < 256
      → inter_stub n < 2 ^ 64
      → IsGate (inter_stub n) (if n == 0x21 then 1 else 0) (idt_init inter_stub entries n)
  unfolding idt_init
  idt_init-IsGate n few small =
      timer-IsGate n (set_gates inter_stub 256 entries) small (set_gates-set 256 n few)

-- The address in a descriptor of the task state.
abbrev pub base : GdtTss → ℕ
base d =
    d.base_addr_low
    + d.base_addr_low_hi * 2 ^ 16
    + d.base_addr_hi_low * 2 ^ 24
    + d.base_addr_hi_hi * 2 ^ 32

-- Code or data of a ring, present, by the access byte.
abbrev pub IsSegment : (code : Bool) → (ring : ℕ) → GdtDesc → Type 0
IsSegment code ring d =
    (d.access_byte / 2 ^ 7 ≡ 1)
    × (d.access_byte / 2 ^ 5 % 2 ^ 2 ≡ ring)
    × (d.access_byte / 2 ^ 4 % 2 ≡ 1)
    × (d.access_byte / 2 ^ 3 % 2 ≡ (if code then 1 else 0))

-- The table: code and data of the kernel in ring 0 and of programs in ring 3, all present, and the
-- task state with its 104 bytes, at any 64-bit address.
pub gdt_table-IsSegment :
    (addr : ℕ)
    → addr < 2 ^ 64
    → IsSegment true 0 (gdt_table addr).kernelcode
      × IsSegment false 0 (gdt_table addr).kerneldata
      × IsSegment false 3 (gdt_table addr).userdata
      × IsSegment true 3 (gdt_table addr).usercode
      × (base (gdt_table addr).tss ≡ addr)
      × ((gdt_table addr).tss.seg_lim + 1 ≡ 104)
unfolding gdt_table
gdt_table-IsSegment addr small = (
  (refl, refl, refl, refl),
  (refl, refl, refl, refl),
  (refl, refl, refl, refl),
  (refl, refl, refl, refl),
  omega arith,
  refl,
)
