-- ===== src/Memory/Slab/Objects.antt =====
-- The free objects of one slab (kernel/src/memory/slab.rs).
use native.Mathlib.Nat.{mul-le-mul_right}
use nyaux_kc.Base.{
  ℕ, suc, ◌+◌, ◌*◌, ◌%◌, ◌≤◌, ◌<◌, ◌≡◌, ◌≢◌, ◌⊎◌, refl, sym, ap, ◌∙◌, true, false, List, [], ◌∷◌,
  has, length, arith, inl, inr, ==_self, dec_lt,
}
use nyaux_kc.Memory.Align.{page_size}
use nyaux_kc.Memory.Slab.{Heap, header_size, put_next, wiped, object, page_of}

-- The objects with these indices follow one another from `h` on, to the null pointer.
abbrev pub LinkedFrom : (ℕ → ℕ) → (page size h : ℕ) → List ℕ → Type 0
LinkedFrom f page size h [] = h ≡ 0
LinkedFrom f page size h (i ∷ l) =
    (h ≡ object page size i) × LinkedFrom f page size (f (object page size i)) l

abbrev pub Distinct : List ℕ → Type 0
Distinct [] = Unit
Distinct (x ∷ l) = (has x l ≡ false) × Distinct l

abbrev pub InPage : ℕ → List ℕ → Type 0
InPage size [] = Unit
InPage size (i ∷ l) = (header_size + i * size + size ≤ page_size) × InPage size l

-- A slab with these free objects.
pub record IsSlab (s : Heap) (page size : ℕ) (l : List ℕ) : Type 0 where
  pub real : 0 < page
  pub aligned : page % page_size ≡ 0
  pub some_size : 0 < size
  pub sized : (s.header page).obj_size ≡ size
  pub linked : LinkedFrom s.next page size (s.header page).obj l
  pub inside : InPage size l
  pub distinct : Distinct l
  pub counted : (s.header page).obj_am ≡ length l

-- Objects do not overlap.
pub object-apart :
    (page size i j : ℕ)
    → i ≢ j
    → (object page size i + size ≤ object page size j)
      ⊎ (object page size j + size ≤ object page size i)
object-apart page size i j ne = elim (dec_lt i j) [
  | yes below ↦ let far : suc i * size ≤ j * size = mul-le-mul_right size below in inl (omega arith)
  | no above ↦
      let far : suc j * size ≤ i * size = mul-le-mul_right size (omega arith) in inr (omega arith)
]

pub wiped_other :
    (f : ℕ → ℕ) (page size i j : ℕ)
    → 0 < size
    → i ≢ j
    → wiped f (object page size i) size (object page size j) ≡ f (object page size j)
wiped_other f page size i j some_size ne = ground (arith, object-apart page size i j ne)

pub wiped_self : (f : ℕ → ℕ) (a size : ℕ) → 0 < size → wiped f a size a ≡ 0
wiped_self f a size some_size = ground arith

pub wiped_inside : (f : ℕ → ℕ) (a size i : ℕ) → i < size → wiped f a size (a + i) ≡ 0
wiped_inside f a size i inside = ground arith

pub put_next_other :
    (f : ℕ → ℕ) (page size i j v : ℕ)
    → 0 < size
    → i ≢ j
    → put_next f (object page size i) v (object page size j) ≡ f (object page size j)
put_next_other f page size i j v some_size ne = ground (arith, object-apart page size i j ne)

pub LinkedFrom-same :
    (f g : ℕ → ℕ) (page size h : ℕ) (l : List ℕ)
    → ((i : ℕ) → has i l ≡ true → g (object page size i) ≡ f (object page size i))
    → LinkedFrom f page size h l
    → LinkedFrom g page size h l
LinkedFrom-same f g page size h [] same e = e
LinkedFrom-same f g page size h (i ∷ l) same e = (
  e.0,
  rw (same i (rw (==_self i) refl)) (
      LinkedFrom-same f g page size (f (object page size i)) l
        (λ j on. same j (rw on (ground arith))) e.1),
)

-- A member is not a number that is not in the list.
pub member_ne : (i j : ℕ) (l : List ℕ) → has i l ≡ true → has j l ≡ false → j ≢ i
member_ne i j l on out same =
    let bad : true ≡ false = sym on ∙ ap (λ z. has z l) (sym same) ∙ out in cc bad

pub page_of-object :
    (page size i : ℕ)
    → page % page_size ≡ 0
    → 0 < size
    → header_size + i * size + size ≤ page_size
    → page_of (object page size i) ≡ page
page_of-object page size i aligned some_size inside = omega arith
