-- ===== src/Paging/Format.antt =====
-- Page tables as trees of tables with 512 entries each: what the two formats of
-- kernel/src/arch/x86_64/pt/mod.rs and kernel/src/arch/risc_v/pt/mod.rs share. Levels count from the
-- lowest, 0, up.
pub mod Links
pub mod Mapping
pub mod Walk
use nyaux_kc.Base.{
  ℕ, zero, suc, ◌+◌, ◌*◌, ◌%◌, ◌^◌, ◌<◌, ◌≡◌, refl, Bool, ◌&&◌, ◌||◌, true, false, Option, none,
  some, List, [], ◌∷◌, length, ◌∙◌, has, if◌then◌else◌, arith,
}
use nyaux_kc.Paging.{Ram}

-- A format of entries, and what holds of it.
pub record Format : Type 0 where
  pub valid : ℕ → Bool
  -- above the lowest level, an entry for a large page
  pub leaf : ℕ → Bool
  -- at the lowest level, an entry for a page
  pub page : ℕ → Bool
  -- the table or page that an entry points to
  pub next : ℕ → ℕ
  -- the entry for a table
  pub link : ℕ → ℕ
  -- the kernel takes the entry for what the hardware takes it for
  pub plain : ℕ → Bool
  pub index : (level virt : ℕ) → ℕ
  -- physical addresses are below it
  pub limit : ℕ
  pub leaf_is_valid : (e : ℕ) → leaf e ≡ true → valid e ≡ true
  pub page_is_valid : (e : ℕ) → page e ≡ true → valid e ≡ true
  pub index_small : (k virt : ℕ) → index k virt < 512
  pub zero_is_void : valid 0 ≡ false
  pub zero_is_plain : plain 0 ≡ true
  pub link_is_valid : (q : ℕ) → q % 4096 ≡ 0 → q < limit → valid (link q) ≡ true
  pub link_leads_down : (q : ℕ) → q % 4096 ≡ 0 → q < limit → leaf (link q) ≡ false
  pub link_is_plain : (q : ℕ) → q % 4096 ≡ 0 → q < limit → plain (link q) ≡ true
  pub link_points : (q : ℕ) → q % 4096 ≡ 0 → q < limit → next (link q) ≡ q

abbrev pub entry_at : (table i : ℕ) → ℕ
entry_at table i = table + 8 * i

-- What the hardware makes of an entry at level `k`: a fault, a leaf, or what it finds below.
found : Format → (k pte : ℕ) → Option (ℕ × ℕ) → Option (ℕ × ℕ)
found F zero pte below = if F.valid pte then (if F.page pte then some (0, pte) else below) else none
found F (suc k) pte below =
    if F.valid pte then (if F.leaf pte then some (suc k, pte) else below) else none

-- The walk of the hardware, `k` levels down from `table`: the leaf entry that it finds, and the
-- level where it stands.
pub translate : Format → (word : ℕ → ℕ) → (k virt table : ℕ) → Option (ℕ × ℕ)
unfolding found
translate F word zero virt table = none
translate F word (suc k) virt table =
    let pte = word (entry_at table (F.index k virt)) in
    found F k pte (translate F word k virt (F.next pte))

found-void :
    (F : Format) (k pte : ℕ) (below : Option (ℕ × ℕ))
    → F.valid pte ≡ false
    → found F k pte below ≡ none
unfolding found
found-void F zero pte below off = rw off refl
found-void F (suc k) pte below off = rw off refl

module _ (F : Format) (word : ℕ → ℕ) (virt table pte : ℕ) where
  pub translate-none : translate F word 0 virt table ≡ none
  unfolding translate
  translate-none = refl

  pub translate_page :
      word (entry_at table (F.index 0 virt)) ≡ pte
      → F.page pte ≡ true
      → translate F word 1 virt table ≡ some (0, pte)
  unfolding translate
  translate_page here leaf = rw (here, found, leaf, F.page_is_valid pte leaf) refl

  module _ (k : ℕ) (here : word (entry_at table (F.index k virt)) ≡ pte) where
    pub translate_void : F.valid pte ≡ false → translate F word (suc k) virt table ≡ none
    unfolding translate
    translate_void off = rw here (found-void F k pte (translate F word k virt (F.next pte)) off)

  module _ (k : ℕ) (here : word (entry_at table (F.index (suc k) virt)) ≡ pte) where
    pub translate_down :
        F.leaf pte ≡ false
        → F.valid pte ≡ true
        → translate F word (suc (suc k)) virt table ≡ translate F word (suc k) virt (F.next pte)
    unfolding translate
    translate_down inner on = rw (here, found, inner, on) refl

-- At the lowest level only the entry matters.
pub translate_last :
    (F : Format) (v w : ℕ → ℕ) (virt t u : ℕ)
    → v (entry_at t (F.index 0 virt)) ≡ w (entry_at u (F.index 0 virt))
    → translate F v 1 virt t ≡ translate F w 1 virt u
unfolding translate
translate_last F v w virt t u same = rw same

-- The indices of an address at the `n` levels from `k` on.
abbrev pub path : Format → (k n virt : ℕ) → List ℕ
path F k zero virt = []
path F k (suc n) virt = F.index k virt ∷ path F (suc k) n virt

-- Where a table stands: the indices that lead to it from the root, the last one first.
abbrev pub Label : Type 0
Label = ℕ → Option (List ℕ)

-- Free pages are no tables, and distinct.
abbrev pub AreFree : Format → Label → List ℕ → Type 0
AreFree F label [] = Unit
AreFree F label (q ∷ qs) =
    (label q ≡ none) × (q % 4096 ≡ 0) × (q < F.limit) × (has q qs ≡ false) × AreFree F label qs

-- Every table has one place, and the entries above the lowest level are void or lead to
-- tables.
pub record IsSound (F : Format) (levels root : ℕ) (label : Label) (s : Ram) : Type 0 where
  pub top : label root ≡ some []
  pub aligned : (t : ℕ) (p : List ℕ) → label t ≡ some p → t % 4096 ≡ 0
  pub linked :
      (t i : ℕ) (p : List ℕ)
      → label t ≡ some p
      → length p + 1 < levels
      → i < 512
      → F.valid (s.word (entry_at t i)) ≡ true
      → (F.leaf (s.word (entry_at t i)) ≡ false)
        × (label (F.next (s.word (entry_at t i))) ≡ some (i ∷ p))
  pub agreed :
      (t i : ℕ) (p : List ℕ)
      → label t ≡ some p
      → length p + 1 < levels
      → i < 512
      → F.plain (s.word (entry_at t i)) ≡ true
  pub spare : AreFree F label s.free

-- The entries of two tables do not overlap.
pub entry_at_inj :
    (t u i j : ℕ)
    → t % 4096 ≡ 0
    → u % 4096 ≡ 0
    → i < 512
    → j < 512
    → entry_at t i ≡ entry_at u j
    → (t ≡ u) × (i ≡ j)
entry_at_inj t u i j at au hi hj e = (omega arith, omega arith)

pub length-path : (F : Format) (k n virt : ℕ) → length (path F k n virt) ≡ n
length-path F k zero virt = refl
length-path F k (suc n) virt = omega (arith, length-path F (suc k) n virt)

-- What a step may do to the tables: add some, and leave alone every valid entry above the lowest
-- level and all that the hardware finds.
pub record Extends (F : Format) (levels : ℕ) (label : Label) (s : Ram) (label' : Label) (t : Ram)
    : Type 0 where
  pub placed : (u : ℕ) (r : List ℕ) → label u ≡ some r → label' u ≡ some r
  pub kept :
      (u j : ℕ) (r : List ℕ)
      → label u ≡ some r
      → j < 512
      → F.valid (s.word (entry_at u j)) ≡ true
      → t.word (entry_at u j) ≡ s.word (entry_at u j)
  pub same :
      (k virt u : ℕ) (r : List ℕ)
      → label u ≡ some r
      → length r + k ≡ levels
      → translate F t.word k virt u ≡ translate F s.word k virt u

pub Extends-refl :
    (F : Format) (levels : ℕ) (label : Label) (s : Ram) → Extends F levels label s label s
Extends-refl F levels label s = record {
  placed = λ u r e. e;
  kept = λ u j r e hj valid. refl;
  same = λ k virt u r e depth. refl;
}

pub Extends-trans :
    (F : Format) (levels : ℕ) (label label' label'' : Label) (s t u : Ram)
    → Extends F levels label s label' t
    → Extends F levels label' t label'' u
    → Extends F levels label s label'' u
Extends-trans F levels label label' label'' s t u a b = record {
  placed = λ x r e. b.placed x r (a.placed x r e);
  kept = λ x j r e hj valid.
      let first = a.kept x j r e hj valid in
      b.kept x j r (a.placed x r e) hj (rw first valid) ∙ first;
  same = λ k virt x r e depth. b.same k virt x r (a.placed x r e) depth ∙ a.same k virt x r e depth;
}
