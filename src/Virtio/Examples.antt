-- ===== src/Virtio/Examples.antt =====
-- A queue of four descriptors.
use nyaux_kc.Base.{ℕ, ◌+◌, refl, List, [], ◌∷◌, arith}
use nyaux_kc.Virtio.{VirtqDesc, new_pool, allocate_chain}
use nyaux_kc.Virtio.Chains.{IsPool}
use nyaux_kc.Virtio.Pool.Release.{Regains, allocate_chain-deallocate_chain}

abbrev all_free : List ℕ
all_free = 0 ∷ 1 ∷ 2 ∷ 3 ∷ []

four_free : IsPool (new_pool 4) all_free
unfolding new_pool
four_free = record {
  linked = (refl, (refl, (refl, (refl, tt))));
  inside = (omega arith, (omega arith, (omega arith, (omega arith, tt))));
  distinct = (refl, (refl, (refl, (refl, tt))));
  counted = refl;
  small = omega arith;
}

-- The driver writes an address and a length.
abbrev fill : ℕ → VirtqDesc → VirtqDesc
fill a d = record d { addr = 0x5000 + a; len = 24 }

allocate_chain-deallocate_chain_example : Regains fill 4 all_free (allocate_chain 3 (new_pool 4))
allocate_chain-deallocate_chain_example =
    allocate_chain-deallocate_chain fill (λ a d. refl) (λ a d. refl) (new_pool 4) 4 3 all_free
      four_free (omega arith) (omega arith) (omega arith)
