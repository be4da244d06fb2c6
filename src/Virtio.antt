-- ===== src/Virtio.antt =====
-- kernel/src/virtio/mod.rs: the pool of descriptors with its free list, and the rings of a queue.
-- Memory is taken as the device and the driver leave it; barriers and output are left out.
mod Examples
pub mod Chains
pub mod Pool
pub mod Queue
use nyaux_kc.Base.{
  ℕ, zero, suc, ◌+◌, ◌-◌, ◌*◌, ◌/◌, ◌%◌, ◌^◌, Bool, true, false, ◌||◌, Option, none, some, ltb,
  ◌==◌, if◌then◌else◌, M, pure, fault, ◌>>=◌, ◌>>◌,
}

pub record VirtqDesc : Type 0 where
  pub addr : ℕ
  pub len : ℕ
  pub flags : ℕ
  pub next : ℕ

-- `freelistdescpool`, with the descriptors that `virtq_desc_pool` points to.
pub record DescPool : Type 0 where
  pub table : ℕ → VirtqDesc
  pub queue_size : ℕ
  pub head : ℕ
  pub num_free : ℕ

abbrev pub put : (ℕ → VirtqDesc) → ℕ → VirtqDesc → ℕ → VirtqDesc
put t i d j = if j == i then d else t j

-- `flags & VIRTQ_DESC_F_NEXT != 0`
abbrev pub has_next : VirtqDesc → Bool
has_next d = d.flags % 2 == 1

-- `flags |= VIRTQ_DESC_F_NEXT`
abbrev pub with_next : VirtqDesc → VirtqDesc
with_next d = record d { flags = d.flags / 2 * 2 + 1 }

-- `t[i]` of a slice of `queue_size` descriptors; outside of it is a panic.
abbrev pub at : ℕ → M DescPool VirtqDesc
at i p = if ltb i p.queue_size then some (p.table i, p) else none

abbrev pub set : ℕ → VirtqDesc → M DescPool (Unit {0})
set i d p = if ltb i p.queue_size then some (tt, record p { table = put p.table i d }) else none

-- The page is handed out cleared, and the links are set.
pub new_pool : ℕ → DescPool
new_pool queue_size = record {
  table = λ i. record {
    addr = 0;
    len = 0;
    flags = 0;
    next = if i == queue_size - 1 then 0 else (i + 1) % 2 ^ 16;
  };
  queue_size = queue_size;
  head = 0;
  num_free = queue_size % 2 ^ 16;
}

-- The loop of `allocate_chain`, with `n` rounds left.
pub allocate_loop : (n cur : ℕ) → M DescPool ℕ
allocate_loop zero cur = pure cur
allocate_loop (suc n) cur = do d ← at cur; set cur (with_next d); allocate_loop n d.next

-- The end of `allocate_chain`, at the last descriptor of the chain.
pub allocate_last : (chainlength cur : ℕ) → M DescPool (Unit {0})
allocate_last chainlength cur = do
  o ← at cur
  set cur (record o { flags = o.flags / 2 * 2; next = 0 })
  (λ p. some (tt, record p { head = o.next; num_free = p.num_free - chainlength }))

-- The head of the chain; `none` is its error.
pub allocate_chain : (chainlength : ℕ) → M DescPool (Option ℕ)
unfolding allocate_loop allocate_last
allocate_chain chainlength p =
    if (chainlength == 0) || ltb p.num_free chainlength
    then some (none, p)
    else (do
      cur ← allocate_loop (chainlength - 1) p.head
      allocate_last chainlength cur
      pure (some p.head))
        p

abbrev pub count_one : M DescPool (Unit {0})
count_one p = some (tt, record p { num_free = (p.num_free + 1) % 2 ^ 16 })

-- The loop of `deallocate_chain`; a chain that does not end leaves `none`.
pub deallocate_loop : (fuel cur : ℕ) → M DescPool ℕ
deallocate_loop zero cur = fault
deallocate_loop (suc k) cur = do
  d ← at cur
  if has_next d
      then (do set cur (record d { flags = 0 }); count_one; deallocate_loop k d.next)
      else pure cur

pub deallocate_last : (headofthechain cur : ℕ) → M DescPool (Unit {0})
deallocate_last headofthechain cur p =
    (do
      d ← at cur
      set cur (record d { next = p.head; flags = 0 })
      count_one
      (λ q. some (tt, record q { head = headofthechain })))
      p

pub deallocate_chain : (fuel headofthechain : ℕ) → M DescPool (Unit {0})
unfolding deallocate_loop deallocate_last
deallocate_chain fuel headofthechain = do
  cur ← deallocate_loop fuel headofthechain
  deallocate_last headofthechain cur
