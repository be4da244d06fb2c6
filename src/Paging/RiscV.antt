-- ===== src/Paging/RiscV.antt =====
-- kernel/src/arch/risc_v/pt/mod.rs: Sv39, Sv48 and Sv57 page tables. `levels` is `SV_LEVELS`.
mod Examples
pub mod Flags
pub mod Hardware
pub mod Mapping
use nyaux_kc.Base.{
  ℕ, zero, suc, ◌+◌, ◌-◌, ◌*◌, ◌/◌, ◌%◌, ◌^◌, Bool, true, false, not, ◌&&◌, ◌||◌, Option, none,
  some, List, [], ◌∷◌, ltb, ◌==◌, if◌then◌else◌, M, pure, fault, ◌>>=◌, ◌>>◌,
}
use nyaux_kc.Memory.Align.{page_size}
use nyaux_kc.Memory.Regions.{VmmFlags}
use nyaux_kc.Paging.{Ram, load, store, allocate_page, deallocate_page, test_bit, bit}

-- `PT`, a bool to a flag.
pub record Pt : Type 0 where
  pub valid : Bool
  pub read : Bool
  pub write : Bool
  pub execute : Bool
  pub user : Bool
  pub global : Bool

abbrev pub pt : (valid read write execute user global : Bool) → Pt
pt v r w x u g = record { valid = v; read = r; write = w; execute = x; user = u; global = g }

pub from_vmmflags : VmmFlags → Pt
from_vmmflags fla = pt true true fla.write fla.executable fla.user fla.global

-- `PT::new`
abbrev pub new : ℕ → Pt
new see =
    pt (test_bit 0 see) (test_bit 1 see) (test_bit 2 see) (test_bit 3 see) (test_bit 4 see)
      (test_bit 5 see)

abbrev pub build_permissions : Pt → ℕ
build_permissions p =
    bit 0 p.valid + bit 1 p.read + bit 2 p.write + bit 3 p.execute + bit 4 p.user + bit 5 p.global

abbrev pub extract_phys_from_pte : ℕ → ℕ
extract_phys_from_pte pte = ((pte / 2 ^ 10) % 2 ^ 44) * 2 ^ 12

-- `(ppn << 10) | flags`, where the flags are below 2 ^ 10.
abbrev pub entry : (phys flags : ℕ) → ℕ
entry phys flags = (phys / 2 ^ 12 * 2 ^ 10) % 2 ^ 64 + flags

abbrev pub index : (level virt : ℕ) → ℕ
index level virt = (virt / 2 ^ (12 + level * 9)) % 512

-- `table.add(index)`, on words of 8 bytes.
abbrev pub entry_at : (table index : ℕ) → ℕ
entry_at table i = table + 8 * i

-- A leaf: `perm.intersects(READ | WRITE | EXECUTE) && perm.contains(VALID)`.
abbrev pub is_leaf : Pt → Bool
is_leaf p = (p.read || p.write || p.execute) && p.valid

-- The table below an entry: the one that it points to, or a new one.
pub next_table : (alloc : Bool) → (ble : ℕ) → M Ram (Option ℕ)
next_table alloc ble = do
  pte ← load ble
  if (new pte).valid
      then pure (some (extract_phys_from_pte pte))
      else (if alloc
          then (do
            page ← allocate_page
            store ble (entry page 1)
            written ← load ble
            pure (some (extract_phys_from_pte written)))
          else pure none)

-- The loop of `get_table`, with `k` levels from `target_level` on left; `none` is its error.
pub get_table_loop : (k target_level virt : ℕ) → (alloc : Bool) → (table : ℕ) → M Ram (Option ℕ)
get_table_loop zero target_level virt alloc table = pure none
get_table_loop (suc k) target_level virt alloc table = do
  pte ← load (entry_at table (index (target_level + k) virt))
  if (k == 0) || is_leaf (new pte)
      then pure (some (entry_at table (index (target_level + k) virt)))
      else (do
        next ← next_table alloc (entry_at table (index (target_level + k) virt))
        elim next [
          | none ↦ pure none
          | some below ↦ get_table_loop k target_level virt alloc below
        ])

pub get_table : (root virt levels target_level : ℕ) → (alloc : Bool) → M Ram (Option ℕ)
unfolding get_table_loop
get_table root virt levels target_level alloc =
    get_table_loop (levels - target_level) target_level virt alloc root

-- `true` for `Ok(())`.
pub map4kib : (levels root virt phys : ℕ) → Pt → M Ram Bool
unfolding get_table
map4kib levels root virt phys flags = do
  yum ← get_table root virt levels 0 true
  elim yum [
    | none ↦ pure false
    | some ble ↦ do store ble (entry phys (build_permissions flags)); pure true
  ]

-- A panic where the walk fails. The flush of the translation cache is left out.
pub unmap4kib : (levels root virt : ℕ) → M Ram (Unit {0})
unfolding get_table
unmap4kib levels root virt = do
  bro ← get_table root virt levels 0 true
  elim bro [
    | none ↦ fault
    | some ble ↦
        if ble == 0
        then pure tt
        else do pte ← load ble; deallocate_page (extract_phys_from_pte pte); store ble 0
  ]

abbrev pub unwrap : Bool → M Ram (Unit {0})
unwrap true = pure tt
unwrap false = fault

-- `(base..base + length).step_by(PAGE_SIZE)`, with fuel for its rounds.
pub arch_map_region_alloc_loop : (fuel levels root i top : ℕ) → VmmFlags → M Ram (Unit {0})
unfolding map4kib
arch_map_region_alloc_loop zero levels root i top flags = pure tt
arch_map_region_alloc_loop (suc k) levels root i top flags =
    if ltb i top
    then (do
      page ← allocate_page
      done ← map4kib levels root i page (from_vmmflags flags)
      unwrap done
      arch_map_region_alloc_loop k levels root (i + page_size) top flags)
    else pure tt

pub arch_map_region_alloc : (levels root base length : ℕ) → VmmFlags → M Ram (Unit {0})
unfolding arch_map_region_alloc_loop
arch_map_region_alloc levels root base length flags =
    arch_map_region_alloc_loop (suc length) levels root base (base + length) flags

-- With the addresses of the pages; one too few is a panic.
pub arch_map_region_loop : (fuel levels root i top : ℕ) → List ℕ → VmmFlags → M Ram (Unit {0})
unfolding map4kib
arch_map_region_loop zero levels root i top phys flags = pure tt
arch_map_region_loop (suc k) levels root i top [] flags = if ltb i top then fault else pure tt
arch_map_region_loop (suc k) levels root i top (pa ∷ rest) flags =
    if ltb i top
    then (do
      done ← map4kib levels root i pa (from_vmmflags flags)
      unwrap done
      arch_map_region_loop k levels root (i + page_size) top rest flags)
    else pure tt

pub arch_map_region : (levels root base length : ℕ) → List ℕ → VmmFlags → M Ram (Unit {0})
unfolding arch_map_region_loop
arch_map_region levels root base length phys flags =
    arch_map_region_loop (suc length) levels root base (base + length) phys flags

pub arch_unmap_region_loop : (fuel levels root i top : ℕ) → M Ram (Unit {0})
unfolding unmap4kib
arch_unmap_region_loop zero levels root i top = pure tt
arch_unmap_region_loop (suc k) levels root i top =
    if ltb i top
    then (do unmap4kib levels root i; arch_unmap_region_loop k levels root (i + page_size) top)
    else pure tt

pub arch_unmap_region : (levels root base length : ℕ) → M Ram (Unit {0})
unfolding arch_unmap_region_loop
arch_unmap_region levels root base length =
    arch_unmap_region_loop (suc length) levels root base (base + length)
