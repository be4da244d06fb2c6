-- ===== src/Interrupts/X86.antt =====
-- kernel/src/arch/x86_64/idt/mod.rs: the stubs of the interrupts, which are in assembly, and
-- `idt_handler`, with `Prepare_thread` of kernel/src/arch/x86_64/mod.rs.
mod Examples
pub mod Boot
pub mod Resume
pub mod Start
pub mod Timer
use nyaux_kc.Base.{
  ℕ, zero, suc, ◌+◌, ◌-◌, ◌%◌, Bool, true, false, not, ◌&&◌, ◌||◌, Option, none, some, List, [],
  ◌∷◌, leb, ◌==◌, if◌then◌else◌, get_elem?, ◌++◌, M, pure, fault, ◌>>=◌, ◌>>◌, take, drop,
}
use nyaux_kc.Scheduler.{Cpu, CpuCmd, sched_yield}

-- The general registers that the stubs save.
pub record Registers : Type 0 where
  pub rax : ℕ
  pub rbx : ℕ
  pub rcx : ℕ
  pub rdx : ℕ
  pub rbp : ℕ
  pub rdi : ℕ
  pub rsi : ℕ
  pub r8 : ℕ
  pub r9 : ℕ
  pub r10 : ℕ
  pub r11 : ℕ
  pub r12 : ℕ
  pub r13 : ℕ
  pub r14 : ℕ
  pub r15 : ℕ

-- What the processor pushes at an interrupt, and `iretq` pops.
pub record Return : Type 0 where
  pub rip : ℕ
  pub cs : ℕ
  pub rflags : ℕ
  pub rsp : ℕ
  pub ss : ℕ

-- In a stub: the registers, the words of the stack from its top, and whether `gs` is the kernel's.
pub record Core : Type 0 where
  pub registers : Registers
  pub stack : List ℕ
  pub kernel_gs : Bool

abbrev pub core : Registers → List ℕ → Bool → Core
core r w g = record { registers = r; stack = w; kernel_gs = g }

-- `push`
abbrev pub push : ℕ → Core → Core
push x c = core c.registers (x ∷ c.stack) c.kernel_gs

-- `test byte ptr [rsp + 8 * i], 0x3`, `jz`, `swapgs`
abbrev pub swapgs_if : (i : ℕ) → Core → Core
swapgs_if i c = core c.registers c.stack (elim (get_elem? c.stack i) [
  | none ↦ c.kernel_gs
  | some x ↦ if x % 4 == 0 then c.kernel_gs else not c.kernel_gs
])

-- `.if ({i} == 8 || ...)`: the interrupts for which the processor pushes an error code.
abbrev pub has_error : ℕ → Bool
has_error i = i == 8 || (leb 10 i && leb i 14) || i == 17 || i == 21 || i == 29 || i == 30

-- A zero in place of an error code.
abbrev pub with_error : (i : ℕ) → Core → Core
with_error i c = if has_error i then c else push 0 c

-- The number and the registers.
abbrev pub save : (i : ℕ) → Core → Core
save i c =
    let r = c.registers in
    let low =
      push r.rdi (push r.rbp (push r.rdx (push r.rcx (push r.rbx (push r.rax (push i c)))))) in
    let middle = push r.r11 (push r.r10 (push r.r9 (push r.r8 (push r.rsi low)))) in
    push r.r15 (push r.r14 (push r.r13 (push r.r12 middle)))

-- `inter_stub` up to its call.
pub inter_stub : (i : ℕ) → Core → Core
inter_stub i c = save i (swapgs_if 2 (with_error i c))

-- `iretq`: the program goes on where the words on the stack say.
abbrev pub iretq : Core → Option (Core × Return)
iretq c = elim c.stack [
  | rip ∷ cs ∷ rflags ∷ rsp ∷ ss ∷ rest ↦ some (
    core c.registers rest c.kernel_gs,
    record { rip = rip; cs = cs; rflags = rflags; rsp = rsp; ss = ss },
  )
  | _ ↦ none
]

-- `inter_return`: `add rsp, 16` passes over the number and the error code.
pub inter_return : Core → Option (Core × Return)
inter_return c = elim c.stack [
  | r15 ∷ r14 ∷ r13 ∷ r12 ∷ r11 ∷ r10 ∷ r9 ∷ r8 ∷ rsi ∷ rdi ∷ rbp ∷ rdx ∷ rcx ∷ rbx ∷ rax ∷ int ∷
        error ∷ rest ↦
      iretq (
        swapgs_if 1 (
          core
            (record {
              rax = rax;
              rbx = rbx;
              rcx = rcx;
              rdx = rdx;
              rbp = rbp;
              rdi = rdi;
              rsi = rsi;
              r8 = r8;
              r9 = r9;
              r10 = r10;
              r11 = r11;
              r12 = r12;
              r13 = r13;
              r14 = r14;
              r15 = r15;
            })
            rest c.kernel_gs))
  | _ ↦ none
]

-- The cpu of the scheduler, whether it may preempt, and how often it told the interrupt controller
-- that an interrupt was handled.
pub record Handling : Type 0 where
  pub cpu : Cpu
  pub preempt : Bool
  pub acknowledged : ℕ

abbrev pub acknowledge_interrupt : M Handling (Unit {0})
acknowledge_interrupt s = some (tt, record s { acknowledged = s.acknowledged + 1 })

abbrev pub on_cpu : CpuCmd (Unit {0}) → M Handling (Unit {0})
on_cpu m s = elim (m s.cpu) [ none ↦ none | some (a, c) ↦ some (a, record s { cpu = c }) ]

-- The `match` of `idt_handler`.
pub dispatch : (int : ℕ) → M Handling (Unit {0})
dispatch int =
    if int == 0xe
    then fault
    else if int == 0xff
    then pure tt
    else if int == 0x21
    then (do acknowledge_interrupt; (λ s. if s.preempt then on_cpu sched_yield s else some (tt, s)))
    else fault

-- The number of the interrupt is a word of the frame.
pub idt_handler : M Handling (Unit {0})
unfolding dispatch
idt_handler s = elim (get_elem? s.cpu.frame 15) [ none ↦ none | some int ↦ dispatch int s ]

-- `size_of::<x86_64Context>()`, in words.
abbrev pub frame_size : ℕ
frame_size = 22

abbrev pub with_frame : List ℕ → Handling → Handling
with_frame f s = record s { cpu = record s.cpu { frame = f } }

-- The call of the handler, on the frame that is on the stack, and the jump behind it.
pub handled : Core → M Handling (Core × Return)
unfolding inter_return idt_handler
handled c s = elim (idt_handler (with_frame (take frame_size c.stack) s)) [
  | none ↦ none
  | some (a, t) ↦
      elim (inter_return (core c.registers (t.cpu.frame ++ drop frame_size c.stack) c.kernel_gs)) [
        | none ↦ none
        | some back ↦ some (back, t)
      ]
]

-- The interrupt `i`, from where the processor enters the stub.
pub interrupt : (i : ℕ) → Core → M Handling (Core × Return)
unfolding inter_stub handled
interrupt i c = handled (inter_stub i c)

-- `Prepare_thread` on a slice of zeros; a user thread is a `todo!()`. The segments are the offsets of
-- `kernelcode` and `kerneldata` in `GdtTable`.
pub prepare_thread : (entry stack_ptr : ℕ) → (user : Bool) → Option (List ℕ)
prepare_thread entry stack_ptr true = none
prepare_thread entry stack_ptr false = some (
    0 ∷ 0 ∷ 0 ∷ 0 ∷ 0 ∷ 0 ∷ 0 ∷ 0 ∷ 0 ∷ 0 ∷ 0 ∷ 0 ∷ 0 ∷ 0 ∷ 0 ∷ 0 ∷ 0 ∷ entry ∷ 8 ∷ 0x202
    ∷ stack_ptr ∷ 16 ∷ [])
