-- ===== src/Paging.antt =====
-- Page tables: memory by words, and the pages that the tables take from the page allocator
-- (kernel/src/memory/pmm/mod.rs). Addresses are physical: the constant offset at which physical
-- memory is mapped is added and taken away again around every access, and is left out.
pub mod Bits
pub mod Format
pub mod RiscV
pub mod X86
use nyaux_kc.Base.{
  ℕ, ◌+◌, ◌*◌, ◌/◌, ◌%◌, ◌^◌, Bool, true, false, ◌&&◌, Option, none, some, List, [], ◌∷◌, ltb, leb,
  ◌==◌, if◌then◌else◌, M,
}
use nyaux_kc.Memory.Align.{page_size}

-- The words at addresses that are multiples of 8, and the free pages in the order in which they
-- are handed out.
pub record Ram : Type 0 where
  pub word : ℕ → ℕ
  pub free : List ℕ

abbrev pub ram : (ℕ → ℕ) → List ℕ → Ram
ram w f = record { word = w; free = f }

abbrev pub put : (ℕ → ℕ) → ℕ → ℕ → ℕ → ℕ
put f p v a = if a == p then v else f a

abbrev pub in_page : ℕ → ℕ → Bool
in_page p a = leb p a && ltb a (p + page_size)

abbrev pub cleared : (ℕ → ℕ) → ℕ → ℕ → ℕ
cleared f p a = if in_page p a then 0 else f a

abbrev pub load : ℕ → M Ram ℕ
load p s = some (s.word p, s)

abbrev pub store : ℕ → ℕ → M Ram (Unit {0})
store p v s = some (tt, ram (put s.word p v) s.free)

-- A page that is handed out is cleared. Running out of pages is a fault here.
abbrev pub take_page : (ℕ → ℕ) → List ℕ → Option (ℕ × Ram)
take_page w [] = none
take_page w (q ∷ qs) = some (q, ram (cleared w q) qs)

abbrev pub allocate_page : M Ram ℕ
allocate_page s = take_page s.word s.free

-- The content of a free page is not looked at.
abbrev pub deallocate_page : ℕ → M Ram (Unit {0})
deallocate_page q s = some (tt, ram (cleared s.word q) (q ∷ s.free))

-- `x & (1 << k) != 0`
abbrev pub test_bit : ℕ → ℕ → Bool
test_bit k x = (x / 2 ^ k) % 2 == 1

-- `1 << k` if the flag is set: flags stand at different bits, so `|=` adds them.
abbrev pub bit : ℕ → Bool → ℕ
bit k b = if b then 2 ^ k else 0
