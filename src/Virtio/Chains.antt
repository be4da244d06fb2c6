-- ===== src/Virtio/Chains.antt =====
-- Chains of descriptors and the free list (kernel/src/virtio/mod.rs).
use nyaux_kc.Base.{
  ℕ, zero, suc, ◌^◌, ◌≤◌, ◌<◌, ◌≡◌, refl, sym, ap, ◌∙◌, true, false, ◌||◌, List, [], ◌∷◌, ◌++◌,
  ◌==◌, arith, length, has, Bool-cases, inl, inr, ==_self, ==→eq, has-append, last_or,
}
use nyaux_kc.Virtio.{VirtqDesc, DescPool, put, has_next}

-- The descriptors `l` follow one another from `h` on.
abbrev pub FreeFrom : (ℕ → VirtqDesc) → ℕ → List ℕ → Type 0
FreeFrom t h [] = Unit
FreeFrom t h (x ∷ l) = (h ≡ x) × FreeFrom t (t x).next l

-- The descriptors `x ∷ l` are a chain that starts at `h` and ends.
abbrev pub ChainFrom : (ℕ → VirtqDesc) → (h x : ℕ) → List ℕ → Type 0
ChainFrom t h x [] = (h ≡ x) × (has_next (t x) ≡ false)
ChainFrom t h x (y ∷ l) = (h ≡ x) × (has_next (t x) ≡ true) × ChainFrom t (t x).next y l

abbrev pub Below : ℕ → List ℕ → Type 0
Below n [] = Unit
Below n (x ∷ l) = (x < n) × Below n l

abbrev pub Distinct : List ℕ → Type 0
Distinct [] = Unit
Distinct (x ∷ l) = (has x l ≡ false) × Distinct l

-- A pool with these free descriptors, in the order in which they are handed out.
pub record IsPool (p : DescPool) (free : List ℕ) : Type 0 where
  pub linked : FreeFrom p.table p.head free
  pub inside : Below p.queue_size free
  pub distinct : Distinct free
  pub counted : p.num_free ≡ length free
  pub small : length free < 2 ^ 16

pub FreeFrom-links :
    (t t' : ℕ → VirtqDesc) (h : ℕ) (l : List ℕ)
    → ((a : ℕ) → has a l ≡ true → (t' a).next ≡ (t a).next)
    → FreeFrom t h l
    → FreeFrom t' h l
FreeFrom-links t t' h [] same f = tt
FreeFrom-links t t' h (x ∷ l) same f = (
  f.0,
  rw (same x (rw (==_self x) refl))
      (FreeFrom-links t t' (t x).next l (λ a on. same a (rw on (ground arith))) f.1),
)

pub FreeFrom-take :
    (t : ℕ → VirtqDesc) (h : ℕ) (l rest : List ℕ) → FreeFrom t h (l ++ rest) → FreeFrom t h l
FreeFrom-take t h [] rest f = tt
FreeFrom-take t h (x ∷ l) rest f = (f.0, FreeFrom-take t (t x).next l rest f.1)

-- The rest of a free list starts behind the last descriptor of its first part.
pub FreeFrom-drop :
    (t : ℕ → VirtqDesc) (h x : ℕ) (l rest : List ℕ)
    → FreeFrom t h (x ∷ (l ++ rest))
    → FreeFrom t (t (last_or x l)).next rest
FreeFrom-drop t h x [] rest f = f.1
FreeFrom-drop t h x (y ∷ l) rest f = FreeFrom-drop t (t x).next y l rest f.1

pub Below-split : (n : ℕ) (l rest : List ℕ) → Below n (l ++ rest) → Below n l × Below n rest
Below-split n [] rest b = (tt, b)
Below-split n (x ∷ l) rest b = let (left, right) = Below-split n l rest b.1 in ((b.0, left), right)

pub Below-append : (n : ℕ) (l rest : List ℕ) → Below n l → Below n rest → Below n (l ++ rest)
Below-append n [] rest a b = b
Below-append n (x ∷ l) rest a b = (a.0, Below-append n l rest a.1 b)

pub Distinct-split : (l rest : List ℕ) → Distinct (l ++ rest) → Distinct l × Distinct rest
Distinct-split [] rest d = (tt, d)
Distinct-split (x ∷ l) rest d =
    let (left, right) = Distinct-split l rest d.1 in
    let out : (has x l || has x rest) ≡ false = sym (has-append x l rest) ∙ d.0 in
    ((ground arith, left), right)

pub Distinct-apart :
    (a : ℕ) (l rest : List ℕ) → Distinct (l ++ rest) → has a rest ≡ true → has a l ≡ false
Distinct-apart a [] rest d on = refl
Distinct-apart a (x ∷ l) rest d on =
    let out : (has x l || has x rest) ≡ false = sym (has-append x l rest) ∙ d.0 in
    let later = Distinct-apart a l rest d.1 on in
    elim (Bool-cases (a == x)) [
      | inl here ↦ let same : has x rest ≡ true = rw (← ==→eq a x here) on in absurd (ground arith)
      | inr other ↦ rw other later
    ]

-- The first `k` of a list.
pub split_at :
    (k : ℕ) (l : List ℕ)
    → k ≤ length l
    → (taken : List ℕ) × (rest : List ℕ) × (l ≡ taken ++ rest) × (length taken ≡ k)
split_at zero l lo = ([], l, refl, refl)
split_at (suc k) [] lo = absurd (omega arith)
split_at (suc k) (x ∷ l) lo =
    let (taken, rest, same, size) = split_at k l (omega arith) in
    (x ∷ taken, rest, ap (λ z. x ∷ z) same, omega arith)

pub put_other : (t : ℕ → VirtqDesc) (a x : ℕ) (d : VirtqDesc) → (a == x) ≡ false → put t x d a ≡ t a
put_other t a x d ne = rw ne refl

pub put_self : (t : ℕ → VirtqDesc) (x : ℕ) (d : VirtqDesc) → put t x d x ≡ d
put_self t x d = rw (==_self x) refl

-- A number that is not in a list is not its last one.
pub apart_last : (a x : ℕ) (l : List ℕ) → has a (x ∷ l) ≡ false → (a == last_or x l) ≡ false
apart_last a x [] h = ground arith
apart_last a x (y ∷ l) h = apart_last a y l (ground arith)

pub Below-last : (n x : ℕ) (l : List ℕ) → Below n (x ∷ l) → last_or x l < n
Below-last n x [] b = b.0
Below-last n x (y ∷ l) b = Below-last n y l b.1

-- Every descriptor of `x ∷ l` but the last is changed by `g`.
abbrev pub swept : (VirtqDesc → VirtqDesc) → (ℕ → VirtqDesc) → (x : ℕ) → List ℕ → ℕ → VirtqDesc
swept g t x [] = t
swept g t x (y ∷ l) = swept g (put t x (g (t x))) y l

module _ (g : VirtqDesc → VirtqDesc) where
  pub swept_other :
      (l : List ℕ) (t : ℕ → VirtqDesc) (x a : ℕ) → has a (x ∷ l) ≡ false → swept g t x l a ≡ t a
  swept_other [] t x a h = refl
  swept_other (y ∷ l) t x a h =
      swept_other l (put t x (g (t x))) y a (ground arith)
      ∙ put_other t a x (g (t x)) (ground arith)

  module _ (keeps : (d : VirtqDesc) → (g d).next ≡ d.next) where
    pub put-links : (t : ℕ → VirtqDesc) (x a : ℕ) → (put t x (g (t x)) a).next ≡ (t a).next
    put-links t x a = elim (Bool-cases (a == x)) [
      | inl here ↦ rw here (keeps (t x) ∙ ap (λ b. (t b).next) (sym (==→eq a x here)))
      | inr other ↦ rw other refl
    ]

    pub swept-links :
        (l : List ℕ) (t : ℕ → VirtqDesc) (x a : ℕ) → (swept g t x l a).next ≡ (t a).next
    swept-links [] t x a = refl
    swept-links (y ∷ l) t x a = swept-links l (put t x (g (t x))) y a ∙ put-links t x a
