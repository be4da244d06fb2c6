-- ===== src/Interrupts/Tables.antt =====
-- The descriptors of kernel/src/arch/x86_64/idt/mod.rs, kernel/src/arch/x86_64/gdt/mod.rs and
-- kernel/src/arch/x86_64/tss/mod.rs.
mod Examples
pub mod Gates
use Prim.Native.Nat.{bit_or}
use nyaux_kc.Base.{
  ℕ, zero, suc, ◌+◌, ◌-◌, ◌*◌, ◌/◌, ◌%◌, ◌^◌, Bool, true, false, ◌==◌, if◌then◌else◌,
}
use nyaux_kc.Paging.{bit}

pub record GateDesc : Type 0 where
  pub offset_lo : ℕ
  pub seg_sel : ℕ
  pub ist : ℕ
  pub flags : ℕ
  pub offset_mid : ℕ
  pub offset_hi : ℕ
  pub reversed : ℕ

-- `GateDesc::new`, on machine words.
pub new_gate : (offset seg dpl gate_type ist : ℕ) → GateDesc
new_gate offset seg dpl gate_type ist = record {
  offset_lo = offset % 2 ^ 16;
  seg_sel = seg;
  ist = ist;
  flags = bit_or (bit_or (2 ^ 7) (dpl % 2 ^ 2 * 2 ^ 6 % 2 ^ 8)) (gate_type % 2 ^ 4);
  offset_mid = offset / 2 ^ 16 % 2 ^ 16;
  offset_hi = offset / 2 ^ 32 % 2 ^ 32;
  reversed = 0;
}

abbrev pub interrupt_gate : ℕ
interrupt_gate = 0xe

-- `offset_of!(GdtTable, kernelcode)`, behind one descriptor of 8 bytes.
abbrev pub kernelcode_offset : ℕ
kernelcode_offset = 8

abbrev pub put_gate : (ℕ → GateDesc) → ℕ → GateDesc → ℕ → GateDesc
put_gate t n g a = if a == n then g else t a

-- `IDT.entries[N] = ...` for the first `k` numbers.
pub set_gates : (inter_stub : ℕ → ℕ) → (k : ℕ) → (ℕ → GateDesc) → ℕ → GateDesc
unfolding new_gate
set_gates inter_stub zero t = t
set_gates inter_stub (suc k) t =
    put_gate (set_gates inter_stub k t) k
      (new_gate (inter_stub k) kernelcode_offset 0 interrupt_gate 0)

-- `idt_init`, before the table is loaded, with the addresses of the stubs.
pub idt_init : (inter_stub : ℕ → ℕ) → (ℕ → GateDesc) → ℕ → GateDesc
unfolding set_gates
idt_init inter_stub entries =
    let set = set_gates inter_stub 256 entries in put_gate set 0x21 (record (set 0x21) { ist = 1 })

pub record GdtDesc : Type 0 where
  pub limit_low : ℕ
  pub base_low : ℕ
  pub base_mid : ℕ
  pub access_byte : ℕ
  pub flags_and_limhi : ℕ
  pub base_hi : ℕ

-- `GDTdesc::new`: the flags stand at different bits.
pub new_desc : (p rw dc e s : Bool) → (dpl : ℕ) → GdtDesc
new_desc p rw dc e s dpl = record {
  limit_low = 0xffff;
  base_low = 0;
  base_mid = 0;
  access_byte = (bit 7 p + bit 1 rw + bit 2 dc + bit 3 e + bit 4 s + dpl * 2 ^ 5 + 1) % 2 ^ 8;
  flags_and_limhi = 2 ^ 7 + 2 ^ 5 + 0xf;
  base_hi = 0;
}

pub record GdtTss : Type 0 where
  pub seg_lim : ℕ
  pub base_addr_low : ℕ
  pub base_addr_low_hi : ℕ
  pub access_byte : ℕ
  pub flags_and_lim : ℕ
  pub base_addr_hi_low : ℕ
  pub base_addr_hi_hi : ℕ
  pub reserved : ℕ

-- `size_of::<tss>()`
abbrev pub tss_size : ℕ
tss_size = 104

-- `GDTtss::new`
pub new_tss : (addr : ℕ) → GdtTss
new_tss addr = record {
  seg_lim = (tss_size - 1) % 2 ^ 16;
  base_addr_low = addr % 2 ^ 16;
  base_addr_low_hi = addr / 2 ^ 16 % 2 ^ 8;
  access_byte = 2 ^ 7 + 9;
  flags_and_lim = (tss_size - 1) / 2 ^ 16 % 2 ^ 4;
  base_addr_hi_low = addr / 2 ^ 24 % 2 ^ 8;
  base_addr_hi_hi = addr / 2 ^ 32 % 2 ^ 32;
  reserved = 0;
}

pub record GdtTable : Type 0 where
  pub null : GdtDesc
  pub kernelcode : GdtDesc
  pub kerneldata : GdtDesc
  pub userdata : GdtDesc
  pub usercode : GdtDesc
  pub tss : GdtTss

-- `GdtTable::new`, with the descriptor that `bsp_gdt_init` puts in for the task state at `addr`.
pub gdt_table : (addr : ℕ) → GdtTable
unfolding new_desc new_tss
gdt_table addr = record {
  null = record {
    limit_low = 0;
    base_low = 0;
    base_mid = 0;
    access_byte = 0;
    flags_and_limhi = 0;
    base_hi = 0;
  };
  kernelcode = new_desc true true false true true 0;
  kerneldata = new_desc true true false false true 0;
  userdata = new_desc true true false false true 3;
  usercode = new_desc true true false true true 3;
  tss = new_tss addr;
}
