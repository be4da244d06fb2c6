-- ===== src/Paging/X86.antt =====
-- kernel/src/arch/x86_64/pt/mod.rs: four levels of page tables.
mod Examples
pub mod Hardware
pub mod Mapping
pub mod Flags
use nyaux_kc.Base.{
  ℕ, zero, suc, ◌+◌, ◌-◌, ◌*◌, ◌/◌, ◌%◌, ◌^◌, Bool, true, false, not, ◌&&◌, ◌||◌, Option, none,
  some, List, [], ◌∷◌, ltb, ◌==◌, if◌then◌else◌, M, pure, fault, ◌>>=◌, ◌>>◌,
}
use nyaux_kc.Memory.Align.{page_size}
use nyaux_kc.Memory.Regions.{VmmFlags}
use nyaux_kc.Paging.{Ram, load, store, allocate_page, deallocate_page, test_bit, bit}

-- `pte & 0x000F_FFFF_FFFF_F000`
abbrev pub extract_phys_from_pte : ℕ → ℕ
extract_phys_from_pte pte = ((pte / 2 ^ 12) % 2 ^ 40) * 2 ^ 12

-- `PT`, a bool to a flag.
pub record Pt : Type 0 where
  pub present : Bool
  pub write : Bool
  pub user : Bool
  pub nexec : Bool
  pub global : Bool
  pub gigapage : Bool
  pub megapage : Bool
  pub pwt : Bool
  pub pcd : Bool
  pub pat : Bool

pub from_vmmflags : VmmFlags → Pt
from_vmmflags fla = record {
  present = true;
  write = fla.write;
  user = fla.user;
  nexec = not fla.executable;
  global = fla.global;
  gigapage = false;
  megapage = false;
  pwt = fla.nocache;
  pcd = fla.nocache;
  pat = false;
}

-- The `match lvl` of `PT::new`: `GLOBAL`, `GIGAPAGE`, `MEGAPAGE` and `PAT`.
abbrev pub level_flags : (lvl check : ℕ) → Bool × Bool × Bool × Bool
level_flags lvl check =
    if lvl == 3
    then (
      test_bit 7 check && test_bit 8 check,
      test_bit 7 check,
      false,
      test_bit 7 check && test_bit 12 check,
    )
    else (if lvl == 2
        then (
          test_bit 7 check && test_bit 8 check,
          false,
          test_bit 7 check,
          test_bit 7 check && test_bit 12 check,
        )
        else (if lvl == 1
            then (test_bit 8 check, false, false, test_bit 7 check)
            else (false, false, false, false)))

-- `PT::new`
abbrev pub new : (check lvl : ℕ) → Pt
new check lvl =
    let level = level_flags lvl check in
    record {
      present = test_bit 0 check;
      write = test_bit 1 check;
      user = test_bit 2 check;
      nexec = test_bit 63 check;
      global = level.0;
      gigapage = level.1;
      megapage = level.2;
      pwt = test_bit 3 check;
      pcd = test_bit 4 check;
      pat = level.3;
    }

-- The `match lvl` of `build_permissions`.
abbrev pub level_bits : Pt → (lvl : ℕ) → ℕ
level_bits p lvl =
    if lvl == 3
    then (if p.gigapage then 2 ^ 7 + bit 8 p.global + bit 12 p.pat else 0)
    else (if lvl == 2
        then (if p.megapage then 2 ^ 7 + bit 8 p.global + bit 12 p.pat else 0)
        else (if lvl == 1 then bit 8 p.global + bit 7 p.pat else 0))

abbrev pub build_permissions : Pt → (lvl : ℕ) → ℕ
build_permissions p lvl =
    bit 0 p.present
    + bit 2 p.user
    + bit 1 p.write
    + bit 3 p.pwt
    + bit 4 p.pcd
    + bit 63 p.nexec
    + level_bits p lvl

-- `(x & !0xFFF) & !(1 << 63)`
abbrev pub table_of : ℕ → ℕ
table_of x = ((x / 2 ^ 12) % 2 ^ 51) * 2 ^ 12

-- The shift at a level; other levels panic, and are not reached.
abbrev pub shift : ℕ → ℕ
shift j =
    if j == 4
    then 39
    else (if j == 3 then 30 else (if j == 2 then 21 else (if j == 1 then 12 else 0)))

abbrev pub index : (j virt : ℕ) → ℕ
index j virt = (virt / 2 ^ shift j) % 512

-- `targetted_table[vi]`, on words of 8 bytes.
abbrev pub entry_at : (table index : ℕ) → ℕ
entry_at table vi = table + 8 * vi

-- The entry for a new table: `(PRESENT | USER | WRITE).bits()` is 7.
abbrev pub table_entry : ℕ → ℕ
table_entry page = page + 7

-- The table below an entry: a null entry gets a new one, or is the error.
pub next_table : (alloc : Bool) → (slot : ℕ) → M Ram (Option ℕ)
next_table alloc slot = do
  next ← load slot
  if next == 0
      then (if alloc
          then (do
            page ← allocate_page
            store slot (table_entry page)
            filled ← load slot
            pure (some (table_of filled)))
          else pure none)
      else pure (some (table_of next))

-- The loop of `get_table` from level `j` on; `none` is its error.
pub get_table_loop : (j virt : ℕ) → (alloc : Bool) → (targetted_table : ℕ) → M Ram (Option ℕ)
get_table_loop zero virt alloc targetted_table = pure none
get_table_loop (suc j) virt alloc targetted_table = do
  next ← load (entry_at targetted_table (index (suc j) virt))
  if ((new next (suc j)).megapage || (new next (suc j)).gigapage) || (j == 0)
      then pure (some (entry_at targetted_table (index (suc j) virt)))
      else (do
        below ← next_table alloc (entry_at targetted_table (index (suc j) virt))
        elim below [ none ↦ pure none | some table ↦ get_table_loop j virt alloc table ])

pub get_table : (self virt : ℕ) → (alloc : Bool) → M Ram (Option ℕ)
unfolding get_table_loop
get_table self virt alloc = get_table_loop 4 virt alloc (table_of self)

-- The flush of the translation cache is left out.
pub unmap : (self virt : ℕ) → M Ram (Unit {0})
unfolding get_table
unmap self virt = do
  bro ← get_table self virt false
  elim bro [
    | none ↦ pure tt
    | some h ↦ do pte ← load h; deallocate_page (extract_phys_from_pte pte); store h 0
  ]

-- `extract_phys_from_pte(phys) | build_permissions(1)`, at different bits; `true` for `Ok(())`.
pub map4kib : (self virt phys : ℕ) → Pt → M Ram Bool
unfolding get_table
map4kib self virt phys flags = do
  answer ← get_table self virt true
  elim answer [
    | none ↦ pure false
    | some p_t ↦ do store p_t (extract_phys_from_pte phys + build_permissions flags 1); pure true
  ]

abbrev pub unwrap : Bool → M Ram (Unit {0})
unwrap true = pure tt
unwrap false = fault

-- `(base..base + length).step_by(PAGE_SIZE)`, with fuel for its rounds.
pub arch_map_region_alloc_loop : (fuel self i top : ℕ) → VmmFlags → M Ram (Unit {0})
unfolding map4kib
arch_map_region_alloc_loop zero self i top flags = pure tt
arch_map_region_alloc_loop (suc k) self i top flags =
    if ltb i top
    then (do
      page ← allocate_page
      done ← map4kib self i page (from_vmmflags flags)
      unwrap done
      arch_map_region_alloc_loop k self (i + page_size) top flags)
    else pure tt

pub arch_map_region_alloc : (self base length : ℕ) → VmmFlags → M Ram (Unit {0})
unfolding arch_map_region_alloc_loop
arch_map_region_alloc self base length flags =
    arch_map_region_alloc_loop (suc length) self base (base + length) flags

-- With the addresses of the pages; one too few is a panic.
pub arch_map_region_loop : (fuel self i top : ℕ) → List ℕ → VmmFlags → M Ram (Unit {0})
unfolding map4kib
arch_map_region_loop zero self i top phys flags = pure tt
arch_map_region_loop (suc k) self i top [] flags = if ltb i top then fault else pure tt
arch_map_region_loop (suc k) self i top (pa ∷ rest) flags =
    if ltb i top
    then (do
      done ← map4kib self i pa (from_vmmflags flags)
      unwrap done
      arch_map_region_loop k self (i + page_size) top rest flags)
    else pure tt

pub arch_map_region : (self base length : ℕ) → List ℕ → VmmFlags → M Ram (Unit {0})
unfolding arch_map_region_loop
arch_map_region self base length phys flags =
    arch_map_region_loop (suc length) self base (base + length) phys flags

pub arch_unmap_region_loop : (fuel self i top : ℕ) → M Ram (Unit {0})
unfolding unmap
arch_unmap_region_loop zero self i top = pure tt
arch_unmap_region_loop (suc k) self i top =
    if ltb i top
    then (do unmap self i; arch_unmap_region_loop k self (i + page_size) top)
    else pure tt

pub arch_unmap_region : (self base length : ℕ) → M Ram (Unit {0})
unfolding arch_unmap_region_loop
arch_unmap_region self base length = arch_unmap_region_loop (suc length) self base (base + length)
