-- ===== src/Memory/Pages.antt =====
-- kernel/src/memory/pmm/mod.rs: the free list of physical pages, threaded through the pages
-- themselves. A page is named by its physical address; `offset` is where physical memory is mapped
-- (the response of the HHDM request). `next` is the first word of each page.
pub mod FreeList
mod Examples
use nyaux_kc.Base.{
  ℕ, zero, suc, ◌+◌, ◌-◌, ◌%◌, ◌^◌, Bool, Option, none, some, List, [], ◌∷◌, ltb, ◌==◌,
  if◌then◌else◌, M, pure, fault, ◌>>=◌, ◌>>◌,
}
use nyaux_kc.Memory.Align.{page_size}

pub record Pmm : Type 0 where
  pub freelist : Option ℕ
  pub next : ℕ → ℕ

abbrev pub stored : (ℕ → ℕ) → ℕ → ℕ → ℕ → ℕ
stored f p v a = if a == p then v else f a

-- `FREELIST.unwrap_or(null)`
abbrev pub unwrap_or_null : Option ℕ → ℕ
unwrap_or_null none = 0
unwrap_or_null (some p) = p

-- One round of the loop over a usable entry: page 0 is left out.
abbrev pub add_page : ℕ → Pmm → Pmm
add_page i s =
    if i == 0
    then s
    else record { freelist = some i; next = stored s.next i (unwrap_or_null s.freelist) }

-- `(base..base + length).step_by(PAGE_SIZE)`, with fuel for its rounds.
pub add_pages : ℕ → ℕ → ℕ → Pmm → Pmm
add_pages zero i top s = s
add_pages (suc k) i top s =
    let rest = add_pages k (i + page_size) top (add_page i s) in if ltb i top then rest else s

-- An entry of the memory map.
pub record Entry : Type 0 where
  pub base : ℕ
  pub length : ℕ
  pub usable : Bool

pub init : List Entry → Pmm → Pmm
unfolding add_pages
init [] s = s
init (e ∷ es) s =
    init es (if e.usable then add_pages (suc e.length) e.base (e.base + e.length) s else s)

-- The page at the head is cleared and handed out at its mapped address; with no list it panics.
pub allocate_page : ℕ → M Pmm ℕ
allocate_page offset s = elim s.freelist [
  | none ↦ none
  | some phy ↦
      some (phy + offset, record { freelist = some (s.next phy); next = stored s.next phy 0 })
]

pub deallocate_page : ℕ → ℕ → M Pmm (Unit {0})
deallocate_page offset ptr s = elim s.freelist [
  | none ↦ none
  | some o ↦
      let phy = ptr - offset in
      some (tt, record { freelist = some phy; next = stored s.next phy o })
]
