-- ===== src/Virtio/Queue/Ring/Examples.antt =====
-- A ring of four entries.
use nyaux_kc.Base.{refl, true, arith}
use nyaux_kc.Virtio.{new_pool}
use nyaux_kc.Virtio.Queue.{Virtq, new_virtq, submit_to_queue}
use nyaux_kc.Virtio.Queue.Ring.{IsQueue, Submits, submit_to_queue-Submits}

-- The indices are about to wrap around, with one chain in flight.
abbrev wrapping : Virtq
wrapping = record (new_virtq 4) { consumer_used_idx = 65535; avail_idx = 0; has_notify = true }

wrapping-IsQueue : IsQueue wrapping
unfolding new_virtq new_pool
wrapping-IsQueue = record {
  divides = ∣ (16384, refl) ∣₁;
  positive = omega arith;
  small = omega arith;
  consumer = omega arith;
  avail = omega arith;
  room = omega arith;
}

submit_to_queue-Submits_example : Submits 7 wrapping (submit_to_queue 7 wrapping)
submit_to_queue-Submits_example = submit_to_queue-Submits wrapping 7 wrapping-IsQueue
