-- ===== src/Interrupts/X86/Resume.antt =====
-- From an interrupt back to a program (kernel/src/arch/x86_64/idt/mod.rs).
use nyaux_kc.Base.{
  ℕ, ◌%◌, ◌≡◌, refl, ap, ◌∙◌, Bool, true, false, not, Option, none, some, List, [], ◌∷◌, ◌++◌, ◌==◌,
  if◌then◌else◌,
}
use nyaux_kc.Interrupts.X86.{
  Registers, Return, Core, core, push, swapgs_if, has_error, with_error, save, handled, inter_stub,
  inter_return, Handling, with_frame, idt_handler, interrupt,
}

-- The fields of `x86_64Context` in their order.
abbrev pub encode : Registers → (int error : ℕ) → Return → List ℕ
encode r int error to =
    r.r15 ∷ r.r14 ∷ r.r13 ∷ r.r12 ∷ r.r11 ∷ r.r10 ∷ r.r9 ∷ r.r8 ∷ r.rsi ∷ r.rdi ∷ r.rbp ∷ r.rdx
    ∷ r.rcx ∷ r.rbx ∷ r.rax ∷ int ∷ error ∷ to.rip ∷ to.cs ∷ to.rflags ∷ to.rsp ∷ to.ss ∷ []

-- What the processor pushes, with an error code where there is one.
abbrev pub pushed : (i error : ℕ) → Return → List ℕ → List ℕ
pushed i error to rest =
    let words = to.rip ∷ to.cs ∷ to.rflags ∷ to.rsp ∷ to.ss ∷ rest in
    if has_error i then error ∷ words else words

-- The error code in the frame.
abbrev pub error_of : (i error : ℕ) → ℕ
error_of i error = if has_error i then error else 0

-- `gs` is the kernel's exactly where code of the kernel runs.
abbrev pub in_kernel : Return → Bool
in_kernel to = to.cs % 4 == 0

-- The program that was interrupted, and the program that goes on.
abbrev pub interrupted : (i error : ℕ) → Registers → Return → List ℕ → Core
interrupted i error r to rest = core r (pushed i error to rest) (in_kernel to)

abbrev pub resumed : Registers → Return → List ℕ → Core × Return
resumed r to rest = (core r rest (in_kernel to), to)

with_error-pushed :
    (i error : ℕ) (r : Registers) (to : Return) (rest : List ℕ) (g : Bool)
    → with_error i (core r (pushed i error to rest) g)
      ≡ core r (error_of i error ∷ to.rip ∷ to.cs ∷ to.rflags ∷ to.rsp ∷ to.ss ∷ rest) g
with_error-pushed i error r to rest g = by_error (has_error i)
  where
    words : List ℕ
    words = to.rip ∷ to.cs ∷ to.rflags ∷ to.rsp ∷ to.ss ∷ rest

    by_error :
        (b : Bool)
        → (if b
            then core r (if b then error ∷ words else words) g
            else push 0 (core r (if b then error ∷ words else words) g))
          ≡ core r ((if b then error else 0) ∷ words) g
    by_error true = refl
    by_error false = refl

kernel_after : (b : Bool) → (if b then b else not b) ≡ true
kernel_after true = refl
kernel_after false = refl

kernel_back : (b : Bool) → (if b then true else not true) ≡ b
kernel_back true = refl
kernel_back false = refl

inter_stub-encode :
    (i error : ℕ) (r : Registers) (to : Return) (rest : List ℕ)
    → inter_stub i (interrupted i error r to rest)
      ≡ core r (encode r i (error_of i error) to ++ rest) true
unfolding inter_stub
inter_stub-encode i error r to rest =
    ap (λ c. save i (swapgs_if 2 c)) (with_error-pushed i error r to rest (in_kernel to))
    ∙ ap (core r (encode r i (error_of i error) to ++ rest)) (kernel_after (in_kernel to))

inter_return-encode :
    (r r' : Registers) (int error : ℕ) (to : Return) (rest : List ℕ)
    → inter_return (core r (encode r' int error to ++ rest) true) ≡ some (resumed r' to rest)
unfolding inter_return
inter_return-encode r r' int error to rest =
    ap (λ g. some (core r' rest g, to)) (kernel_back (in_kernel to))

abbrev with_state : Handling → Option (Core × Return) → Option ((Core × Return) × Handling)
with_state t none = none
with_state t (some back) = some (back, t)

handled_run :
    (r : Registers) (int error : ℕ) (to : Return) (rest : List ℕ) (s t : Handling) (f : List ℕ)
    → idt_handler (with_frame (encode r int error to) s) ≡ some (tt, t)
    → t.cpu.frame ≡ f
    → handled (core r (encode r int error to ++ rest) true) s
      ≡ with_state t (inter_return (core r (f ++ rest) true))
unfolding handled
handled_run r int error to rest s t f ran same =
    rw (handled, ran) (ap (λ x. with_state t (inter_return (core r (x ++ rest) true))) same)

-- An interrupt whose handler returns, with some saved context in the frame: the program of that
-- context goes on with the registers, the flags and the place of the context, the stack below the
-- frame is as before, and `gs` is the kernel's exactly if the program is the kernel's.
pub interrupt-resumed :
    (i error : ℕ) (r : Registers) (to : Return) (rest : List ℕ) (s t : Handling) (r' : Registers)
    (int' error' : ℕ) (to' : Return)
    → idt_handler (with_frame (encode r i (error_of i error) to) s) ≡ some (tt, t)
    → t.cpu.frame ≡ encode r' int' error' to'
    → interrupt i (interrupted i error r to rest) s ≡ some (resumed r' to' rest, t)
unfolding interrupt
interrupt-resumed i error r to rest s t r' int' error' to' ran same =
    ap (λ c. handled c s) (inter_stub-encode i error r to rest)
    ∙ handled_run r i (error_of i error) to rest s t (encode r' int' error' to') ran same
    ∙ ap (with_state t) (inter_return-encode r r' int' error' to' rest)
