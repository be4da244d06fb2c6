-- ===== src/Paging/RiscV/Mapping.antt =====
-- `map4kib` (kernel/src/arch/risc_v/pt/mod.rs) against the walk of the hardware.
use nyaux_kc.Base.{
  ℕ, suc, ◌+◌, ◌-◌, ◌*◌, ◌/◌, ◌%◌, ◌^◌, ◌≤◌, ◌<◌, ◌≡◌, ◌≢◌, refl, Bool, true, false, ◌&&◌, ◌||◌,
  Option, some, List, ◌∷◌, length, ◌==◌, if◌then◌else◌, arith, ==_self, ◌∙◌, ap, M, ◌>>=◌, Returns,
  sym, not,
}
use nyaux_kc.Paging.{Ram, ram, put, cleared, test_bit}
use nyaux_kc.Paging.Format.{Format, translate, path, Label, IsSound}
use nyaux_kc.Paging.Format.Walk.{IsWalk}
use nyaux_kc.Paging.Format.Mapping.{walk-IsMapped}
use nyaux_kc.Paging.RiscV.{
  Pt, new, is_leaf, build_permissions, index, entry_at, entry, next_table, get_table_loop, map4kib,
}
use nyaux_kc.Paging.RiscV.Hardware.{
  level_index, frame, ordinary, valid, leaf, rights, index_same, frame_same, leaf_same,
  valid_of_leaf, first_bit, no_first_bit,
}
use nyaux_kc.Paging.RiscV.Flags.{entry_fields, table_entry}

pub link_fields :
    (q : ℕ)
    → q % 4096 ≡ 0
    → q < 2 ^ 56
    → (valid (entry q 1) ≡ true)
      × (leaf (entry q 1) ≡ false)
      × (ordinary (entry q 1) ≡ true)
      × (frame (entry q 1) ≡ q)
link_fields q aligned small = (ground arith, ground arith, ground arith, omega arith)

-- The entries of Sv39, Sv48 and Sv57, as the hardware reads them.
abbrev pub format : Format
format = record {
  valid = valid;
  leaf = leaf;
  page = leaf;
  next = frame;
  link = λ q. entry q 1;
  plain = ordinary;
  index = level_index;
  limit = 2 ^ 56;
  leaf_is_valid = valid_of_leaf;
  page_is_valid = valid_of_leaf;
  index_small = λ k virt. omega arith;
  zero_is_void = refl;
  zero_is_plain = refl;
  link_is_valid = λ q aligned small. (link_fields q aligned small).0;
  link_leads_down = λ q aligned small. (link_fields q aligned small).1;
  link_is_plain = λ q aligned small. (link_fields q aligned small).2;
  link_points = λ q aligned small. (link_fields q aligned small).3;
}

-- The loop of `get_table`, `k` levels above the lowest one.
abbrev walk : (k virt table : ℕ) → M Ram (Option ℕ)
walk k virt table = get_table_loop (suc k) 0 virt true table

loop_last :
    (virt table : ℕ) (s : Ram)
    → get_table_loop 1 0 virt true table s ≡ some (some (entry_at table (index 0 virt)), s)
unfolding get_table_loop
loop_last virt table s = refl

next_valid :
    (b : ℕ) (w : ℕ → ℕ) (free : List ℕ)
    → test_bit 0 (w b) ≡ true
    → next_table true b (ram w free) ≡ some (some (frame (w b)), ram w free)
unfolding next_table
next_valid b w free on = rw (next_table, on, frame_same (w b)) refl

next_void :
    (b q : ℕ) (w : ℕ → ℕ) (free : List ℕ)
    → q % 4096 ≡ 0
    → q < 2 ^ 56
    → test_bit 0 (w b) ≡ false
    → next_table true b (ram w (q ∷ free))
      ≡ some (some q, ram (put (cleared w q) b (entry q 1)) free)
unfolding next_table
next_void b q w free aligned small off =
    rw (next_table, off, ==_self b, (table_entry q aligned small).2) refl

loop_down :
    (k virt table below b : ℕ) (s t : Ram)
    → entry_at table (index (suc k) virt) ≡ b
    → is_leaf (new (s.word b)) ≡ false
    → next_table true b s ≡ some (some below, t)
    → get_table_loop (suc (suc k)) 0 virt true table s ≡ get_table_loop (suc k) 0 virt true below t
unfolding get_table_loop
loop_down k virt table below b s t here inner next =
    let level : 0 + suc k ≡ suc k = omega arith in
    let more : (suc k == 0) ≡ false = ground arith in
    rw (get_table_loop, ◌>>=◌, level, here, inner, more, ◌||◌, if◌then◌else◌, next) refl

no_leaf : (e : ℕ) → test_bit 0 e ≡ false → is_leaf (new e) ≡ false
no_leaf e off = and_false (test_bit 1 e || test_bit 2 e || test_bit 3 e) (test_bit 0 e) off
  where
    and_false : (a b : Bool) → b ≡ false → (a && b) ≡ false
    and_false true b h = h
    and_false false b h = refl

walk-IsWalk : IsWalk format walk
walk-IsWalk = record {
  ends = loop_last;
  goes_down = λ k virt table s on inner plain.
      let b = entry_at table (level_index (suc k) virt) in
      loop_down k virt table _ b s s (ap (entry_at table) (index_same (suc k) virt))
        (leaf_same (s.word b) plain ∙ inner) (next_valid b s.word s.free (first_bit (s.word b) on));
  allocates = λ k virt table q w free aligned small off plain.
      let b = entry_at table (level_index (suc k) virt) in
      let null = no_first_bit (w b) plain off in
      loop_down k virt table q b (ram w (q ∷ free)) (ram (put (cleared w q) b (entry q 1)) free)
        (ap (entry_at table) (index_same (suc k) virt)) (no_leaf (w b) null)
        (next_void b q w free aligned small null);
}

-- The state after `map4kib`: well-formed tables, where the hardware finds an entry for the address at
-- the lowest level, reads this page and these rights in it, and finds for other pages what it found
-- before.
pub record IsMapped (levels root virt phys : ℕ) (flags : Pt) (s : Ram) (label : Label) (t : Ram)
    (pte : ℕ) : Type 0 where
  pub sound : IsSound format levels root label t
  pub found : translate format t.word levels virt root ≡ some (0, pte)
  pub page : frame pte ≡ phys / 4096 * 4096
  pub permissions : rights pte ≡ flags
  pub others :
      (v : ℕ)
      → path format 0 levels v ≢ path format 0 levels virt
      → translate format t.word levels v root ≡ translate format s.word levels v root

map4kib_run :
    (d root virt phys ble : ℕ) (flags : Pt) (s t : Ram)
    → get_table_loop (suc d) 0 virt true root s ≡ some (some ble, t)
    → map4kib (suc d) root virt phys flags s
      ≡ some (true, ram (put t.word ble (entry phys (build_permissions flags))) t.free)
unfolding map4kib
map4kib_run d root virt phys ble flags s t walked =
    let all : suc d - 0 ≡ suc d = omega arith in rw (map4kib, ◌>>=◌, all, walked) refl

leaf_of :
    (e : ℕ) (flags : Pt)
    → rights e ≡ flags
    → flags.valid ≡ true
    → (flags.read || flags.execute) ≡ true
    → (not flags.write || flags.read) ≡ true
    → leaf e ≡ true
leaf_of e flags fields on some_right no_reserved =
    let shape : leaf e
        ≡ ((flags.valid && (not flags.write || flags.read)) && (flags.read || flags.execute)) =
      ap (λ p. (p.valid && (not p.write || p.read)) && (p.read || p.execute)) fields in
    shape ∙ rw (on, some_right, no_reserved) refl

-- `map4kib` on well-formed tables with a free page for each level below the root, of a page below
-- 2 ^ 56 with flags that are valid, to read or execute, and to write only where they are to read: it
-- succeeds, the tables stay well formed, the hardware then finds the page with its flags at the
-- address, and all other pages are mapped as before.
pub map4kib-IsMapped :
    (d root virt phys : ℕ) (flags : Pt) (label : Label) (s : Ram)
    → IsSound format (suc d) root label s
    → d ≤ length s.free
    → phys < 2 ^ 56
    → flags.valid ≡ true
    → (flags.read || flags.execute) ≡ true
    → (not flags.write || flags.read) ≡ true
    → Returns
        (λ done t.
          (done ≡ true)
          × (label' : Label) × (pte : ℕ) × IsMapped (suc d) root virt phys flags s label' t pte)
        (map4kib (suc d) root virt phys flags s)
map4kib-IsMapped d root virt phys flags label s sound enough small on some_right no_reserved =
    let x = entry phys (build_permissions flags) in
    let fields = entry_fields phys flags small in
    let (ble, t, label', ran, mapped) =
      walk-IsMapped format walk walk-IsWalk d root virt x label s sound enough
        (leaf_of x flags fields.1 on some_right no_reserved) in
    rw (map4kib_run d root virt phys ble flags s t ran) (
      refl,
      label',
      x,
      record {
        sound = mapped.sound;
        found = mapped.found;
        page = sym (frame_same x) ∙ fields.0;
        permissions = fields.1;
        others = mapped.others;
      },
    )
