-- ===== src/Virtio/Queue/Ring.antt =====
-- The available ring as a bounded queue (`submit_to_queue` and `read_used_queue_blocking` of
-- kernel/src/virtio/mod.rs).
mod Examples
use native.Mathlib.Nat.{mod-lt, mod-eq_of_lt, mod-eq-sub-mod, mod-add-mod, mod-mod_of_dvd}
use Prim.Native.Nat.{◌∣◌}
use nyaux_kc.Base.{
  ℕ, zero, suc, ◌+◌, ◌-◌, ◌*◌, ◌/◌, ◌%◌, ◌^◌, ◌≤◌, ◌<◌, ◌≡◌, ◌≢◌, refl, sym, ap, ◌∙◌, subst, Bool,
  true, false, Option, none, some, List, [], ◌∷◌, ◌++◌, leb, ltb, ◌==◌, if◌then◌else◌, arith,
  length, Bool-cases, inl, inr, dec_lt, ne→==, ==_self, ==→eq, leb→le, lt_of_leb,
}
use nyaux_kc.Virtio.{DescPool}
use nyaux_kc.Virtio.Queue.{Virtq, VirtqUsedElem, put_entry, submit, in_flight, submit_to_queue}

-- Numbers at a distance below `q` have different remainders.
separate : (a d q : ℕ) → 0 < d → d < q → (a + d) % q ≢ a % q
separate a d q some_way near same =
    let r : a % q < q = mod-lt a (omega arith) in
    let sum : (a % q + d) % q ≡ a % q = mod-add-mod a q d ∙ same in
    elim (dec_lt (a % q + d) q) [
      | yes below ↦ omega (arith, sym (mod-eq_of_lt below) ∙ sum)
      | no above ↦
          let down : (a % q + d) % q ≡ a % q + d - q =
            mod-eq-sub-mod (omega arith) ∙ mod-eq_of_lt (omega arith) in
          omega (arith, sym down ∙ sum)
    ]

-- The `n` entries of the ring from index `start` on, oldest first.
abbrev pub entries : (ℕ → ℕ) → (q start n : ℕ) → List ℕ
entries ring q start zero = []
entries ring q start (suc n) = ring (start % q) ∷ entries ring q (start + 1) n

-- The chains that were submitted and of which no answer was read.
pub pending : Virtq → List ℕ
pending v = entries v.avail_ring v.desc.queue_size v.consumer_used_idx (in_flight v)

entries-put :
    (ring : ℕ → ℕ) (q start n s x : ℕ)
    → ((i : ℕ) → i < n → (start + i) % q ≢ s)
    → entries (put_entry ring s x) q start n ≡ entries ring q start n
entries-put ring q start zero s x apart = refl
entries-put ring q start (suc n) s x apart =
    let here : (start % q == s) ≡ false =
      ne→== (start % q) s (subst (λ a. a % q ≢ s) (omega arith) (apart 0 (omega arith))) in
    let later =
      entries-put ring q (start + 1) n s x
        (λ i lo. subst (λ a. a % q ≢ s) (omega arith) (apart (suc i) (omega arith))) in
    rw (here, later) refl

entries-snoc :
    (ring : ℕ → ℕ) (q start n : ℕ)
    → entries ring q start (suc n) ≡ entries ring q start n ++ ring ((start + n) % q) ∷ []
entries-snoc ring q start zero = ap (λ a. ring (a % q) ∷ []) (omega arith)
entries-snoc ring q start (suc n) =
    ap (λ l. ring (start % q) ∷ l)
      (entries-snoc ring q (start + 1) n
        ∙ ap (λ a. entries ring q (start + 1) n ++ ring (a % q) ∷ []) (omega arith))

length-entries : (ring : ℕ → ℕ) (q start n : ℕ) → length (entries ring q start n) ≡ n
length-entries ring q start zero = refl
length-entries ring q start (suc n) = omega (arith, length-entries ring q (start + 1) n)

-- A queue whose size divides 2 ^ 16, with no more chains in flight than it has entries.
pub record IsQueue (v : Virtq) : Type 0 where
  pub divides : v.desc.queue_size ∣ 2 ^ 16
  pub positive : 0 < v.desc.queue_size
  pub small : v.desc.queue_size < 2 ^ 16
  pub consumer : v.consumer_used_idx < 2 ^ 16
  pub avail : v.avail_idx < 2 ^ 16
  pub room : in_flight v ≤ v.desc.queue_size

module _ (v : Virtq) (sound : IsQueue v) (chain : ℕ) where
  abbrev q : ℕ
  q = v.desc.queue_size

  abbrev n : ℕ
  n = in_flight v

  -- The next entry stands behind those in flight.
  avail-slot : v.avail_idx % q ≡ (v.consumer_used_idx + n) % q
  avail-slot =
      let whole : v.avail_idx ≡ (v.consumer_used_idx + n) % 2 ^ 16 =
        omega (arith, sound.consumer, sound.avail) in
      ap (λ a. a % q) whole ∙ mod-mod_of_dvd q (v.consumer_used_idx + n) sound.divides

  module _ (open_place : n < q) where
    one-more : in_flight (submit chain v) ≡ suc n
    unfolding submit
    one-more = omega (arith, sound.consumer, sound.avail, sound.small)

    submit-pending : pending (submit chain v) ≡ pending v ++ chain ∷ []
    unfolding pending submit
    submit-pending =
        let ring' = put_entry v.avail_ring (v.avail_idx % q) chain in
        let apart : (i : ℕ) → i < n → (v.consumer_used_idx + i) % q ≢ v.avail_idx % q = λ i lo same.
          separate (v.consumer_used_idx + i) (n - i) q (omega arith) (omega arith)
            (ap (λ a. a % q) (omega arith) ∙ sym avail-slot ∙ sym same) in
        let newest : ring' ((v.consumer_used_idx + n) % q) ≡ chain =
          rw (← avail-slot, ==_self (v.avail_idx % q)) refl in
        ap (λ k. entries ring' q v.consumer_used_idx k) one-more
        ∙ entries-snoc ring' q v.consumer_used_idx n
        ∙ ap (λ l. l ++ ring' ((v.consumer_used_idx + n) % q) ∷ [])
            (entries-put v.avail_ring q v.consumer_used_idx n (v.avail_idx % q) chain apart)
        ∙ ap (λ x. pending v ++ x ∷ []) newest

    submit-IsQueue : IsQueue (submit chain v)
    unfolding submit
    submit-IsQueue = record {
      divides = sound.divides;
      positive = sound.positive;
      small = sound.small;
      consumer = sound.consumer;
      avail = omega arith;
      room = omega (arith, one-more);
    }

-- What a submission does: the queue is full and stays as it is, or has one chain more at its end.
abbrev pub Submits : (chain : ℕ) → Virtq → Option (Bool × Virtq) → Type 0
Submits chain v none = ⊥
Submits chain v (some (false, t)) = (t ≡ v) × (length (pending v) ≡ v.desc.queue_size)
Submits chain v (some (true, t)) =
    IsQueue t × (pending t ≡ pending v ++ chain ∷ []) × (length (pending v) < v.desc.queue_size)

-- For a queue whose size divides 2 ^ 16 and is below it, with no more chains in flight than it has
-- entries, the available ring is a bounded queue of chains: a submission puts the chain behind
-- those of which no answer was read yet, and overwrites none of them, although the ring and its
-- index wrap around; it is refused, and changes nothing, exactly where there are as many of them as
-- the queue has entries.
pub submit_to_queue-Submits :
    (v : Virtq) (chain : ℕ) → IsQueue v → Submits chain v (submit_to_queue chain v)
unfolding submit_to_queue pending
submit_to_queue-Submits v chain sound =
    let size : v.desc.queue_size % 2 ^ 16 ≡ v.desc.queue_size = omega (arith, sound.small) in
    let count = length-entries v.avail_ring v.desc.queue_size v.consumer_used_idx (in_flight v) in
    elim (Bool-cases (leb (v.desc.queue_size % 2 ^ 16) (in_flight v))) [
      | inl full ↦ rw full (refl, omega (arith, count, size, sound.room, leb→le _ _ full))
      | inr space ↦
          let open_place : in_flight v < v.desc.queue_size =
            omega (arith, size, lt_of_leb _ _ space) in
          rw space (
            submit-IsQueue v sound chain open_place,
            submit-pending v sound chain open_place,
            omega (arith, count),
          )
    ]

-- The state after an answer was read.
abbrev advanced : Virtq → Virtq
advanced v = record v { consumer_used_idx = (v.consumer_used_idx + 1) % 2 ^ 16 }

-- The driver reads the index of the device until it has moved.
abbrev pub polls : Virtq → (waits : ℕ) → (moved : ℕ) → List ℕ
polls v zero moved = moved ∷ []
polls v (suc waits) moved = v.consumer_used_idx ∷ polls v waits moved

-- The oldest chain is taken out of the queue, and its answer is what is read.
abbrev pub Answers : Virtq → Option (VirtqUsedElem × Virtq) → Type 0
Answers v none = ⊥
Answers v (some (answer, t)) =
    (answer ≡ v.used_ring (v.consumer_used_idx % v.desc.queue_size))
    × IsQueue t
    × (chain : ℕ) × (pending v ≡ chain ∷ pending t)
