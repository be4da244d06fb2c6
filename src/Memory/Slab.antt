-- ===== src/Memory/Slab.antt =====
-- kernel/src/memory/slab.rs: slabs, each one page with a header and objects of one size. `next` is the
-- first word of each object; the headers, which stand at the pages' starts, are kept apart.
mod Examples
pub mod Classes
pub mod Giving
pub mod Made
pub mod Objects
pub mod Serving
pub mod Taking
use nyaux_kc.Base.{
  ℕ, zero, suc, ◌+◌, ◌-◌, ◌*◌, ◌/◌, ◌^◌, Bool, true, false, ◌&&◌, Option, none, some, List, [], ◌∷◌,
  leb, ltb, ◌==◌, if◌then◌else◌, M, pure, fault, ◌>>=◌, ◌>>◌,
}
use nyaux_kc.Memory.Align.{page_size}

pub record SlabHeader : Type 0 where
  pub obj_am : ℕ
  pub obj_size : ℕ
  pub obj : ℕ
  pub other_slabs : ℕ

-- The headers by their pages, the objects' words, and the pages that the allocator hands out.
pub record Heap : Type 0 where
  pub header : ℕ → SlabHeader
  pub next : ℕ → ℕ
  pub pages : List ℕ

-- `size_of::<slab_header>()`
abbrev pub header_size : ℕ
header_size = 32

abbrev pub put_header : (ℕ → SlabHeader) → ℕ → SlabHeader → ℕ → SlabHeader
put_header f p h a = if a == p then h else f a

abbrev pub put_next : (ℕ → ℕ) → ℕ → ℕ → ℕ → ℕ
put_next f p v a = if a == p then v else f a

-- `write_bytes(0, size)`
abbrev pub wiped : (ℕ → ℕ) → (addr size : ℕ) → ℕ → ℕ
wiped f addr size a = if leb addr a && ltb a (addr + size) then 0 else f a

-- A page of the allocator, which clears it; without one it panics.
abbrev pub take_page : List ℕ → (ℕ → SlabHeader) → (ℕ → ℕ) → Option (ℕ × Heap)
take_page [] h f = none
take_page (p ∷ rest) h f = some (p, record { header = h; next = wiped f p page_size; pages = rest })

abbrev pub allocate_page : M Heap ℕ
allocate_page s = take_page s.pages s.header s.next

abbrev pub object : (page size i : ℕ) → ℕ
object page size i = page + header_size + i * size

-- The loop of `init` from object `i` on, of which `k` are left.
pub init_loop : (k i page size obj : ℕ) → (ℕ → ℕ) → ℕ × (ℕ → ℕ)
init_loop zero i page size obj f = (obj, f)
init_loop (suc k) i page size obj f =
    init_loop k (i + 1) page size (object page size i) (put_next f (object page size i) obj)

pub init : (size : ℕ) → M Heap ℕ
unfolding init_loop
init size = do
  page ← allocate_page
  (λ s.
      let am = (page_size - header_size) / size in
      let built = init_loop (am - 1) 1 page size (object page size 0) s.next in
      some (
        page,
        record s {
          header =
              put_header s.header page
                (record { obj_am = am; obj_size = size; obj = built.0; other_slabs = 0 });
          next = built.1;
        },
      ))

-- An object of a slab whose list is not empty: the second of the list, or the only one.
pub take_object : (cur_slab : ℕ) → M Heap ℕ
take_object cur_slab s =
    let h = s.header cur_slab in
    let bro = s.next h.obj in
    if bro == 0
    then some (
      h.obj,
      record s {
        header = put_header s.header cur_slab (record h { obj_am = h.obj_am - 1; obj = 0 });
        next = wiped s.next h.obj h.obj_size;
      },
    )
    else some (
      bro,
      record s {
        header = put_header s.header cur_slab (record h { obj_am = h.obj_am - 1 });
        next = wiped (put_next s.next h.obj (s.next bro)) bro h.obj_size;
      },
    )

-- The slab behind this one, which is made where there is none.
pub next_slab : (cur_slab : ℕ) → M Heap ℕ
unfolding init
next_slab cur_slab s =
    let h = s.header cur_slab in
    if h.other_slabs == 0
    then (do
      new ← init h.obj_size
      (λ t. some (
        new,
        record t {
          header = put_header t.header cur_slab (record (t.header cur_slab) { other_slabs = new });
        },
      )))
        s
    else some (h.other_slabs, s)

-- `slab_header::alloc`; `none` stands for a panic or for fuel that has run out.
pub alloc : (fuel cur_slab : ℕ) → M Heap ℕ
unfolding take_object next_slab
alloc zero cur_slab s = none
alloc (suc k) cur_slab s =
    if (s.header cur_slab).obj == 0
    then (next_slab cur_slab >>= alloc k) s
    else take_object cur_slab s

-- `slabcache`, whose `slabs` is null before `init_slab`.
pub record SlabCache : Type 0 where
  pub size : ℕ
  pub slabs : ℕ

-- `slabcache::init`; a size that does not fit is unwrapped by `init_slab`, a panic.
pub init_cache : (size : ℕ) → M Heap SlabCache
unfolding init
init_cache size =
    if ltb page_size (header_size + size)
    then fault
    else (do h ← init size; pure (record { size = size; slabs = h }))

pub init_caches : List ℕ → M Heap (List SlabCache)
unfolding init_cache
init_caches [] = pure []
init_caches (size ∷ rest) = do c ← init_cache size; cs ← init_caches rest; pure (c ∷ cs)

pub init_slab : M Heap (List SlabCache)
unfolding init_caches
init_slab = init_caches (16 ∷ 32 ∷ 64 ∷ 128 ∷ 256 ∷ 512 ∷ 1024 ∷ [])

-- The first cache whose objects are large enough; `some none` is the error.
pub slab_alloc : (fuel size : ℕ) → List SlabCache → M Heap (Option ℕ)
unfolding alloc
slab_alloc fuel size [] = pure none
slab_alloc fuel size (c ∷ cs) =
    if ltb c.size size
    then slab_alloc fuel size cs
    else (if c.slabs == 0 then fault else do addr ← alloc fuel c.slabs; pure (some addr))

-- `addr & !0xFFF`
abbrev pub page_of : ℕ → ℕ
page_of addr = addr / 2 ^ 12 * 2 ^ 12

pub slab_dealloc : (addr : ℕ) → M Heap (Unit {0})
slab_dealloc addr s =
    let h = s.header (page_of addr) in
    let cleared = wiped s.next addr h.obj_size in
    if addr == 0
    then some (tt, s)
    else some (
      tt,
      record s {
        header =
            put_header s.header (page_of addr) (record h { obj = addr; obj_am = h.obj_am + 1 });
        next = if h.obj == 0 then cleared else put_next cleared addr h.obj;
      },
    )
