-- ===== src/Paging/X86/Mapping.antt =====
-- `map4kib` (kernel/src/arch/x86_64/pt/mod.rs) against the walk of the hardware.
use nyaux_kc.Base.{
  ℕ, suc, ◌*◌, ◌/◌, ◌%◌, ◌^◌, ◌<◌, ◌≡◌, ◌≢◌, refl, Bool, true, false, ◌&&◌, Option, some, ◌==◌,
  if◌then◌else◌, arith, M,
}
use nyaux_kc.Paging.{Ram, test_bit}
use nyaux_kc.Paging.Format.{Format, translate, path, Label, IsSound}
use nyaux_kc.Paging.X86.{Pt, index, table_entry, get_table_loop}
use nyaux_kc.Paging.X86.Hardware.{level_index, frame, rights}

-- The hardware finds an entry void by its lowest bit, the kernel by the whole of it; and the kernel
-- keeps the bits 52 to 62, which are for software.
abbrev agrees : ℕ → Bool
agrees e = if test_bit 0 e then e / 2 ^ 52 % 2 ^ 11 == 0 else e == 0

pub and_right : (a b : Bool) → (a && b) ≡ true → b ≡ true
and_right a true h = refl
and_right true false h = h
and_right false false h = h

pub link_fields :
    (q : ℕ)
    → q % 4096 ≡ 0
    → q < 2 ^ 52
    → (test_bit 0 (table_entry q) ≡ true)
      × ((test_bit 7 (table_entry q) && test_bit 0 (table_entry q)) ≡ false)
      × (agrees (table_entry q) ≡ true)
      × (frame (table_entry q) ≡ q)
link_fields q aligned small = (ground arith, ground arith, ground arith, omega arith)

-- The entries of four-level paging, as the hardware reads them.
abbrev pub format : Format
format = record {
  valid = test_bit 0;
  leaf = λ e. test_bit 7 e && test_bit 0 e;
  page = test_bit 0;
  next = frame;
  link = table_entry;
  plain = agrees;
  index = level_index;
  limit = 2 ^ 52;
  leaf_is_valid = λ e leaf. and_right (test_bit 7 e) (test_bit 0 e) leaf;
  page_is_valid = λ e page. page;
  index_small = λ k virt. omega arith;
  zero_is_void = refl;
  zero_is_plain = refl;
  link_is_valid = λ q aligned small. (link_fields q aligned small).0;
  link_leads_down = λ q aligned small. (link_fields q aligned small).1;
  link_is_plain = λ q aligned small. (link_fields q aligned small).2;
  link_points = λ q aligned small. (link_fields q aligned small).3;
}

-- The loop of `get_table`, `k` levels above the lowest one.
abbrev walk : (k virt table : ℕ) → M Ram (Option ℕ)
walk k virt table = get_table_loop (suc k) virt true table

-- The state after `map4kib`: well-formed tables, where the hardware finds an entry for the address at
-- the lowest level, reads this page and these rights in it, and finds for other pages what it found
-- before.
pub record HasPage (root virt phys : ℕ) (flags : Pt) (s : Ram) (label : Label) (t : Ram) (pte : ℕ)
    : Type 0 where
  pub sound : IsSound format 4 root label t
  pub found : translate format t.word 4 virt root ≡ some (0, pte)
  pub page : frame pte ≡ phys / 4096 * 4096
  pub permissions : rights pte ≡ flags
  pub others :
      (v : ℕ)
      → path format 0 4 v ≢ path format 0 4 virt
      → translate format t.word 4 v root ≡ translate format s.word 4 v root
