-- ===== src/Memory/Slab/Made.antt =====
-- New slabs (`slab_header::init` of kernel/src/memory/slab.rs).
use native.Mathlib.Nat.{div-add-mod', le-div_iff_mul-le}
use nyaux_kc.Base.{
  ℕ, zero, suc, ◌+◌, ◌-◌, ◌*◌, ◌/◌, ◌%◌, ◌≤◌, ◌<◌, ◌≡◌, refl, sym, subst, true, false, List, [],
  ◌∷◌, has, length, ◌==◌, arith, Bool-cases, inl, inr, ==_self, ==→eq, Returns,
}
use nyaux_kc.Memory.Align.{page_size}
use nyaux_kc.Memory.Slab.{SlabHeader, header_size, put_next, wiped, object, init_loop, init}
use nyaux_kc.Memory.Slab.Objects.{
  LinkedFrom, Distinct, InPage, IsSlab, LinkedFrom-same, put_next_other,
}

-- `n - 1`, …, `1`, `0`.
abbrev pub down : ℕ → List ℕ
down zero = []
down (suc n) = n ∷ down n

down-below : (n j : ℕ) → has j (down n) ≡ true → j < n
down-below zero j on = absurd (cc on)
down-below (suc n) j on = elim (Bool-cases (j == n)) [
  | inl here ↦ omega (arith, ==→eq j n here)
  | inr other ↦
      let later : has j (down n) ≡ true = ground arith in omega (arith, down-below n j later)
]

down-out : (n j : ℕ) → n ≤ j → has j (down n) ≡ false
down-out n j above = elim (Bool-cases (has j (down n))) [
  | inl on ↦ absurd (omega (arith, down-below n j on))
  | inr off ↦ off
]

down-Distinct : (n : ℕ) → Distinct (down n)
down-Distinct zero = tt
down-Distinct (suc n) = (down-out n n (omega arith), down-Distinct n)

length-down : (n : ℕ) → length (down n) ≡ n
length-down zero = refl
length-down (suc n) = omega (arith, length-down n)

down-InPage : (size n : ℕ) → header_size + n * size ≤ page_size → InPage size (down n)
down-InPage size zero room = tt
down-InPage size (suc n) room =
    let step : suc n * size ≡ n * size + size = omega arith in
    (omega (arith, step), down-InPage size n (omega (arith, step)))

init_loop-LinkedFrom :
    (k i page size obj : ℕ) (f : ℕ → ℕ)
    → 0 < size
    → LinkedFrom f page size obj (down i)
    → LinkedFrom
        (init_loop k i page size obj f).1
        page
        size
        (init_loop k i page size obj f).0
        (down (k + i))
unfolding init_loop
init_loop-LinkedFrom zero i page size obj f some_size linked =
    let none_left : 0 + i ≡ i = omega arith in rw none_left linked
init_loop-LinkedFrom (suc k) i page size obj f some_size linked =
    let f' = put_next f (object page size i) obj in
    let more : suc k + i ≡ k + (i + 1) = omega arith in
    let one : i + 1 ≡ suc i = omega arith in
    let put_self : f' (object page size i) ≡ obj = rw (==_self (object page size i)) refl in
    let longer : LinkedFrom f' page size (object page size i) (down (suc i)) = (
      refl,
      subst (λ h. LinkedFrom f' page size h (down i)) (sym put_self)
          (LinkedFrom-same f f' page size obj (down i)
            (λ j on.
              put_next_other f page size i j obj some_size (omega (arith, down-below i j on)))
            linked),
    ) in
    subst
      (λ n.
        LinkedFrom (init_loop (suc k) i page size obj f).1 page size
          (init_loop (suc k) i page size obj f).0 (down n))
      (sym more)
      (init_loop-LinkedFrom k (i + 1) page size (object page size i) f' some_size
        (subst (λ n. LinkedFrom f' page size (object page size i) (down n)) (sym one) longer))

-- A new slab of a page, for objects that fit: it holds as many objects as fit behind the header, all
-- free, in a list from the last to the first, and it is well formed.
pub init-IsSlab :
    (page size : ℕ) (rest : List ℕ) (headers : ℕ → SlabHeader) (f : ℕ → ℕ)
    → page % page_size ≡ 0
    → 0 < page
    → 0 < size
    → header_size + size ≤ page_size
    → Returns
        (λ p t. (p ≡ page) × IsSlab t page size (down ((page_size - header_size) / size)))
        (init size (record { header = headers; next = f; pages = page ∷ rest }))
unfolding init
init-IsSlab page size rest headers f aligned real some_size fits =
    let am = (page_size - header_size) / size in
    let product : am * size ≤ page_size - header_size =
      omega (arith, div-add-mod' (page_size - header_size) size) in
    let some_object : 0 < am = (le-div_iff_mul-le some_size).1 (omega arith) in
    let total : am - 1 + 1 ≡ am = omega arith in
    let start : LinkedFrom (wiped f page page_size) page size (object page size 0) (down 1) =
      let place : object page size 0 ≡ page + 32 = omega arith in (refl, rw place (ground arith)) in
    let linked =
      init_loop-LinkedFrom (am - 1) 1 page size (object page size 0) (wiped f page page_size)
        some_size start in
    (
      refl,
      record {
        real = real;
        aligned = aligned;
        some_size = some_size;
        sized = rw (==_self page) refl;
        linked = rw (==_self page) (
            subst
              (λ n.
                LinkedFrom
                  (init_loop (am - 1) 1 page size (object page size 0) (wiped f page page_size)).1
                  page size
                  (init_loop (am - 1) 1 page size (object page size 0) (wiped f page page_size)).0
                  (down n))
              total linked);
        inside = down-InPage size am (omega (arith, product));
        distinct = down-Distinct am;
        counted = rw (==_self page) (sym (length-down am));
      },
    )
