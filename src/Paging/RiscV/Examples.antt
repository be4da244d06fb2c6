-- ===== src/Paging/RiscV/Examples.antt =====
-- Three levels, an empty root table and two free pages.
use nyaux_kc.Base.{
  ℕ, ◌≡◌, refl, true, false, Option, none, some, List, [], ◌∷◌, ◌==◌, if◌then◌else◌, arith, Returns,
  Bool-cases, inl, inr, ==→eq,
}
use nyaux_kc.Paging.{Ram, ram}
use nyaux_kc.Paging.RiscV.{Pt, pt, map4kib}
use nyaux_kc.Paging.Format.{Label, IsSound}
use nyaux_kc.Paging.RiscV.Mapping.{format, IsMapped, map4kib-IsMapped}

abbrev read_write : Pt
read_write = pt true true true false false true

abbrev empty_tables : Ram
empty_tables = ram (λ a. 0) (0x2000 ∷ 0x3000 ∷ [])

abbrev only_root : Label
only_root a = if a == 0x1000 then some [] else none

only_root-aligned : (t : ℕ) (p : List ℕ) → only_root t ≡ some p → t ≡ 0x1000
only_root-aligned t p e = elim (Bool-cases (t == 0x1000)) [
  | inl h ↦ ==→eq t 0x1000 h
  | inr h ↦ let bad : ◌≡◌ {A = Option (List ℕ)} none (some p) = rw h at e in cc bad
]

empty_tables-IsSound : IsSound format 3 0x1000 only_root empty_tables
empty_tables-IsSound = record {
  top = refl;
  aligned = λ t p e. omega (arith, only_root-aligned t p e);
  linked = λ t i p e above hi valid. cc valid;
  agreed = λ t i p e above hi. refl;
  spare = (refl, refl, omega arith, refl, (refl, refl, omega arith, refl, tt));
}

map4kib-IsMapped_example :
    Returns
      (λ done t.
        (done ≡ true)
        × (label' : Label) × (pte : ℕ) × IsMapped 3 0x1000 0x40201000 0x5000 read_write empty_tables
            label' t pte)
      (map4kib 3 0x1000 0x40201000 0x5000 read_write empty_tables)
map4kib-IsMapped_example =
    map4kib-IsMapped 2 0x1000 0x40201000 0x5000 read_write only_root empty_tables
      empty_tables-IsSound (omega arith) (omega arith) refl refl refl
