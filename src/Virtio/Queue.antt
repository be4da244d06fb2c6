-- ===== src/Virtio/Queue.antt =====
-- The rings of a queue (`virtq` of kernel/src/virtio/mod.rs). The device moves the index of the used
-- ring; what the driver reads there is given by a list.
pub mod Ring
use nyaux_kc.Base.{
  ℕ, zero, suc, ◌+◌, ◌-◌, ◌*◌, ◌/◌, ◌%◌, ◌^◌, Bool, true, false, Option, none, some, List, [], ◌∷◌,
  ◌++◌, ltb, leb, ◌==◌, if◌then◌else◌, M, pure, fault, ◌>>=◌, ◌>>◌,
}
use nyaux_kc.Virtio.{VirtqDesc, DescPool, put, new_pool, allocate_chain, deallocate_chain}

pub record VirtqUsedElem : Type 0 where
  pub id : ℕ
  pub len : ℕ

-- `virtq`, with the two rings that it points to, whether there is an address to notify, and the
-- notifications so far.
pub record Virtq : Type 0 where
  pub consumer_used_idx : ℕ
  pub desc : DescPool
  pub avail_idx : ℕ
  pub avail_ring : ℕ → ℕ
  pub used_ring : ℕ → VirtqUsedElem
  pub has_notify : Bool
  pub notified : List ℕ

pub new_virtq : (queue_size : ℕ) → Virtq
new_virtq queue_size = record {
  consumer_used_idx = 0;
  desc = new_pool queue_size;
  avail_idx = 0;
  avail_ring = λ i. 0;
  used_ring = λ i. record { id = 0; len = 0 };
  has_notify = false;
  notified = [];
}

pub notify : (queue_idx : ℕ) → M Virtq (Unit {0})
notify queue_idx v =
    if v.has_notify then some (tt, record v { notified = v.notified ++ queue_idx ∷ [] }) else none

abbrev pub put_entry : (ℕ → ℕ) → ℕ → ℕ → ℕ → ℕ
put_entry ring i x j = if j == i then x else ring j

pub submit : (command_chain : ℕ) → Virtq → Virtq
submit command_chain v = record v {
  avail_ring = put_entry v.avail_ring (v.avail_idx % v.desc.queue_size) command_chain;
  avail_idx = (v.avail_idx + 1) % 2 ^ 16;
}

-- `a.idx.wrapping_sub(self.consumer_used_idx)`
abbrev pub in_flight : Virtq → ℕ
in_flight v = (v.avail_idx + 2 ^ 16 - v.consumer_used_idx) % 2 ^ 16

-- `true` for `Ok(())`.
pub submit_to_queue : (command_chain : ℕ) → M Virtq Bool
unfolding submit
submit_to_queue command_chain v =
    if leb (v.desc.queue_size % 2 ^ 16) (in_flight v)
    then some (false, v)
    else some (true, submit command_chain v)

-- The indices that the loop reads; `none` where it waits for longer.
pub read_used_queue_blocking : List ℕ → M Virtq VirtqUsedElem
read_used_queue_blocking [] v = none
read_used_queue_blocking (deviceidx ∷ later) v =
    let waiting = read_used_queue_blocking later v in
    if deviceidx == v.consumer_used_idx
    then waiting
    else some (
      v.used_ring (v.consumer_used_idx % v.desc.queue_size),
      record v { consumer_used_idx = (v.consumer_used_idx + 1) % 2 ^ 16 },
    )

abbrev pub on_desc : {A : Type 0} → M DescPool A → M Virtq A
on_desc run v = elim (run v.desc) [ none ↦ none | some (a, p) ↦ some (a, record v { desc = p }) ]

abbrev pub unwrap_ok : Bool → M Virtq (Unit {0})
unwrap_ok true = pure tt
unwrap_ok false = fault

-- `get_desc_mutable`, which checks no bound.
abbrev pub write_desc : ℕ → VirtqDesc → M Virtq (Unit {0})
write_desc i d v = some (tt, record v { desc = record v.desc { table = put v.desc.table i d } })

-- The command with two descriptors, for the pages `req` and `resp` that the allocator gave, their
-- sizes, and the offset at which physical memory is mapped.
pub submit_simple_command :
    (req resp req_size resp_size offset : ℕ) → List ℕ → M Virtq VirtqUsedElem
unfolding submit_to_queue read_used_queue_blocking notify
submit_simple_command req resp req_size resp_size offset polls = do
  chain ← on_desc (allocate_chain 2)
  elim chain [
    | none ↦ fault
    | some head ↦ do
      write_desc head (record { addr = req - offset; len = req_size; flags = 1; next = head + 1 })
      write_desc (head + 1) (record { addr = resp - offset; len = resp_size; flags = 2; next = 0 })
      ok ← submit_to_queue head
      unwrap_ok ok
      notify 0
      read_used_queue_blocking polls
  ]

-- `deallocate_page` of the two pages is left to the page allocator.
pub simple_command_cleanup : (fuel : ℕ) → VirtqUsedElem → M Virtq (Unit {0})
simple_command_cleanup fuel cmd = on_desc (deallocate_chain fuel (cmd.id % 2 ^ 16))
