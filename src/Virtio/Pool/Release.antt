-- ===== src/Virtio/Pool/Release.antt =====
-- Giving a chain back to the pool (`deallocate_chain` of kernel/src/virtio/mod.rs).
use nyaux_kc.Base.{
  ℕ, zero, suc, ◌+◌, ◌%◌, ◌^◌, ◌≤◌, ◌<◌, ◌≡◌, refl, sym, ap, ◌∙◌, subst, true, false, Option, none,
  some, List, [], ◌∷◌, ◌++◌, ◌==◌, arith, length, has, Bool-cases, inl, inr, ==_self, ==→eq,
  last_or, lt→ltb, ◌>>=◌, ◌>>◌, length-append, Returns,
}
use nyaux_kc.Virtio.{
  VirtqDesc, DescPool, at, set, put, has_next, deallocate_loop, deallocate_last, deallocate_chain,
  allocate_chain,
}
use nyaux_kc.Virtio.Chains.{
  FreeFrom, ChainFrom, Below, Distinct, IsPool, FreeFrom-links, Below-append, Below-split,
  Distinct-split, put_other, put_self, apart_last, Below-last, swept, swept_other, put-links,
}
use nyaux_kc.Virtio.Pool.{Takes, allocate_chain-Takes}

abbrev wipe : VirtqDesc → VirtqDesc
wipe d = record d { flags = 0 }

ChainFrom-same :
    (t t' : ℕ → VirtqDesc) (l : List ℕ) (h x : ℕ)
    → ((a : ℕ) → has a (x ∷ l) ≡ true → t' a ≡ t a)
    → ChainFrom t h x l
    → ChainFrom t' h x l
ChainFrom-same t t' [] h x same c = (c.0, ap has_next (same x (rw (==_self x) refl)) ∙ c.1)
ChainFrom-same t t' (y ∷ l) h x same c =
    let at_x = same x (rw (==_self x) refl) in
    (
      c.0,
      ap has_next at_x ∙ c.1,
      subst (λ n. ChainFrom t' n y l) (sym (ap (λ d. d.next) at_x))
          (ChainFrom-same t t' l (t x).next y (λ a on. same a (ground arith)) c.2),
    )

-- A change at a descriptor outside of the chain.
ChainFrom-put :
    (t : ℕ → VirtqDesc) (a : ℕ) (d : VirtqDesc) (l : List ℕ) (h x : ℕ)
    → has a (x ∷ l) ≡ false
    → ChainFrom t h x l
    → ChainFrom (put t a d) h x l
ChainFrom-put t a d l h x out =
    ChainFrom-same t (put t a d) l h x (λ b on. put_other t b a d (outside b on))
  where
    outside : (b : ℕ) → has b (x ∷ l) ≡ true → (b == a) ≡ false
    outside b on = elim (Bool-cases (b == a)) [
      | inl same ↦
          let bad : true ≡ false = sym on ∙ ap (λ z. has z (x ∷ l)) (==→eq b a same) ∙ out in cc bad
      | inr other ↦ other
    ]

-- With the last descriptor linked to the free list, the wiped chain stands at its head.
wiped-FreeFrom :
    (l rest : List ℕ) (t : ℕ → VirtqDesc) (h x top : ℕ) (d : VirtqDesc)
    → ChainFrom t h x l
    → Distinct (x ∷ (l ++ rest))
    → FreeFrom t top rest
    → d.next ≡ top
    → FreeFrom (put (swept wipe t x l) (last_or x l) d) h (x ∷ (l ++ rest))
wiped-FreeFrom [] rest t h x top d c distinct free linked =
    let outside : (a : ℕ) → has a rest ≡ true → (a == x) ≡ false = λ a on.
      elim (Bool-cases (a == x)) [
        | inl same ↦
            let bad : true ≡ false = sym on ∙ ap (λ z. has z rest) (==→eq a x same) ∙ distinct.0 in
            cc bad
        | inr other ↦ other
      ] in
    (
      c.0,
      subst (λ n. FreeFrom (put t x d) n rest) (sym (ap (λ e. e.next) (put_self t x d) ∙ linked))
          (FreeFrom-links t (put t x d) top rest
            (λ a on. ap (λ e. e.next) (put_other t a x d (outside a on))) free),
    )
wiped-FreeFrom (y ∷ l) rest t h x top d c distinct free linked =
    let t1 = put t x (wipe (t x)) in
    let apart : has x (y ∷ l) ≡ false = (Distinct-split (x ∷ y ∷ l) rest distinct).0.0 in
    let at_x : put (swept wipe t1 y l) (last_or y l) d x ≡ wipe (t x) =
      put_other (swept wipe t1 y l) x (last_or y l) d (apart_last x y l apart)
      ∙ swept_other wipe l t1 y x apart
      ∙ put_self t x (wipe (t x)) in
    let later =
      wiped-FreeFrom l rest t1 (t x).next y top d
        (ChainFrom-put t x (wipe (t x)) l (t x).next y apart c.2) distinct.1
        (FreeFrom-links t t1 top rest (λ a _. put-links wipe (λ e. refl) t x a) free) linked in
    (
      c.0,
      subst (λ n. FreeFrom (put (swept wipe t1 y l) (last_or y l) d) n (y ∷ (l ++ rest)))
          (sym (ap (λ e. e.next) at_x)) later,
    )

deallocate_loop-step :
    (k x : ℕ) (p : DescPool)
    → x < p.queue_size
    → has_next (p.table x) ≡ true
    → deallocate_loop (suc k) x p
      ≡ deallocate_loop k (p.table x).next (record p {
        table = put p.table x (wipe (p.table x));
        num_free = (p.num_free + 1) % 2 ^ 16;
      })
unfolding deallocate_loop
deallocate_loop-step k x p inside more =
    let ok = lt→ltb x p.queue_size inside in
    rw (deallocate_loop, ◌>>=◌, at, ok, more, ◌>>◌, ◌>>=◌, set, ok) refl

deallocate_loop-stop :
    (k x : ℕ) (p : DescPool)
    → x < p.queue_size
    → has_next (p.table x) ≡ false
    → deallocate_loop (suc k) x p ≡ some (x, p)
unfolding deallocate_loop
deallocate_loop-stop k x p inside ended =
    let ok = lt→ltb x p.queue_size inside in rw (deallocate_loop, ◌>>=◌, at, ok, ended) refl

deallocate_loop-swept :
    (l : List ℕ) (fuel h x : ℕ) (p : DescPool)
    → ChainFrom p.table h x l
    → Below p.queue_size (x ∷ l)
    → Distinct (x ∷ l)
    → length l < fuel
    → p.num_free + length l < 2 ^ 16
    → deallocate_loop fuel h p
      ≡ some (
        last_or x l,
        record p { table = swept wipe p.table x l; num_free = p.num_free + length l },
      )
deallocate_loop-swept l zero h x p c inside distinct enough small = absurd (omega arith)
deallocate_loop-swept [] (suc k) h x p c inside distinct enough small =
    let none_more : p.num_free + 0 ≡ p.num_free = omega arith in
    rw (c.0, none_more) (deallocate_loop-stop k x p inside.0 c.1)
deallocate_loop-swept (y ∷ l) (suc k) h x p c inside distinct enough small =
    let count : (p.num_free + 1) % 2 ^ 16 ≡ p.num_free + 1 = omega arith in
    let total : p.num_free + 1 + length l ≡ p.num_free + suc (length l) = omega arith in
    let p1 : DescPool = record p {
      table = put p.table x (wipe (p.table x));
      num_free = p.num_free + 1;
    } in
    rw (c.0, ← total)
      (deallocate_loop-step k x p inside.0 c.1
        ∙ ap
            (λ n.
              deallocate_loop k (p.table x).next
                (record p { table = put p.table x (wipe (p.table x)); num_free = n }))
            count
        ∙ deallocate_loop-swept l k (p.table x).next y p1
            (ChainFrom-put p.table x (wipe (p.table x)) l (p.table x).next y distinct.0 c.2)
            inside.1 distinct.1 (omega arith) (omega arith))

deallocate_last-run :
    (h cur : ℕ) (p : DescPool)
    → cur < p.queue_size
    → deallocate_last h cur p
      ≡ some (
        tt,
        record p {
          table = put p.table cur (record (p.table cur) { next = p.head; flags = 0 });
          head = h;
          num_free = (p.num_free + 1) % 2 ^ 16;
        },
      )
unfolding deallocate_last
deallocate_last-run h cur p inside =
    let ok = lt→ltb cur p.queue_size inside in
    rw (deallocate_last, ◌>>=◌, at, ok, ◌>>◌, ◌>>=◌, set, ok) refl

-- Giving back a chain that ends, and is apart from the free list: its descriptors stand at the head
-- of the free list, in the order of the chain, where fuel for the length of the chain is given.
deallocate_chain-IsPool :
    (p : DescPool) (fuel h x : ℕ) (l rest : List ℕ)
    → IsPool p rest
    → ChainFrom p.table h x l
    → Below p.queue_size (x ∷ l)
    → Distinct ((x ∷ l) ++ rest)
    → length ((x ∷ l) ++ rest) < 2 ^ 16
    → length l < fuel
    → Returns (λ _ t. IsPool t ((x ∷ l) ++ rest)) (deallocate_chain fuel h p)
unfolding deallocate_chain
deallocate_chain-IsPool p fuel h x l rest sound c inside distinct small enough =
    let sizes : length ((x ∷ l) ++ rest) ≡ suc (length l) + length rest =
      length-append (x ∷ l) rest in
    let last = last_or x l in
    let t1 = swept wipe p.table x l in
    let p1 : DescPool = record p { table = t1; num_free = p.num_free + length l } in
    let d : VirtqDesc = record (t1 last) { next = p.head; flags = 0 } in
    let walked =
      deallocate_loop-swept l fuel h x p c inside (Distinct-split (x ∷ l) rest distinct).0 enough
        (omega (arith, sound.counted)) in
    let ended = deallocate_last-run h last p1 (Below-last p.queue_size x l inside) in
    rw (deallocate_chain, ◌>>=◌, walked, ended)
      (record {
        linked = wiped-FreeFrom l rest p.table h x p.head d c distinct sound.linked refl;
        inside = Below-append p.queue_size (x ∷ l) rest inside sound.inside;
        distinct = distinct;
        counted = omega (arith, sound.counted);
        small = small;
      })

-- What the driver writes into the descriptors.
abbrev pub filled : (ℕ → VirtqDesc → VirtqDesc) → DescPool → DescPool
filled fill p = record p { table = λ a. fill a (p.table a) }

-- The chain that an allocation yields is given back after the descriptors were filled.
abbrev pub Regains :
    (ℕ → VirtqDesc → VirtqDesc) → ℕ → List ℕ → Option (Option ℕ × DescPool) → Type 0
Regains fill fuel free none = ⊥
Regains fill fuel free (some (none, t)) = ⊥
Regains fill fuel free (some (some h, t)) =
    Returns (λ _ u. IsPool u free) (deallocate_chain fuel h (filled fill t))

module _ (fill : ℕ → VirtqDesc → VirtqDesc)
    (keeps_next : (a : ℕ) (d : VirtqDesc) → (fill a d).next ≡ d.next)
    (keeps_flag : (a : ℕ) (d : VirtqDesc) → has_next (fill a d) ≡ has_next d) where
  filled-ChainFrom :
      (t : ℕ → VirtqDesc) (l : List ℕ) (h x : ℕ)
      → ChainFrom t h x l
      → ChainFrom (λ a. fill a (t a)) h x l
  filled-ChainFrom t [] h x c = (c.0, keeps_flag x (t x) ∙ c.1)
  filled-ChainFrom t (y ∷ l) h x c = (
    c.0,
    keeps_flag x (t x) ∙ c.1,
    subst (λ n. ChainFrom (λ a. fill a (t a)) n y l) (sym (keeps_next x (t x)))
        (filled-ChainFrom t l (t x).next y c.2),
  )

  filled-IsPool : (p : DescPool) (free : List ℕ) → IsPool p free → IsPool (filled fill p) free
  filled-IsPool p free sound = record {
    linked =
        FreeFrom-links p.table (λ a. fill a (p.table a)) p.head free
          (λ a _. keeps_next a (p.table a)) sound.linked;
    inside = sound.inside;
    distinct = sound.distinct;
    counted = sound.counted;
    small = sound.small;
  }

  taken-Regains :
      (p : DescPool) (fuel k : ℕ) (free : List ℕ) (r : Option (Option ℕ × DescPool))
      → IsPool p free
      → 0 < k
      → k ≤ length free
      → k ≤ fuel
      → Takes p k free r
      → Regains fill fuel free r
  taken-Regains p fuel k free none sound some_asked enough fuelled r = r
  taken-Regains p fuel k free (some (none, t)) sound some_asked enough fuelled r = elim r.1 [
    | inl e ↦ absurd (omega arith)
    | inr e ↦ absurd (omega arith)
  ]
  taken-Regains p fuel k free (some (some h, t)) sound some_asked enough fuelled r =
      subst (λ z. Returns (λ _ u. IsPool u z) (deallocate_chain fuel h (filled fill t)))
        (sym r.split)
        (deallocate_chain-IsPool (filled fill t) fuel h r.first r.others r.rest
          (filled-IsPool t r.rest r.pool) (filled-ChainFrom t.table r.others h r.first r.chain)
          (subst (λ n. Below n (r.first ∷ r.others)) (sym r.size)
            (Below-split p.queue_size (r.first ∷ r.others) r.rest
              (subst (Below p.queue_size) r.split sound.inside)).0)
          (subst Distinct r.split sound.distinct) (omega (arith, sound.small, ap length r.split))
          (omega (arith, r.chain_length)))

  -- A chain of at least one and at most as many descriptors as are free that is taken out of a
  -- well-formed pool and given back, whatever the driver wrote into the descriptors but their
  -- `next` and the flag for it, leaves the free list as it was, with fuel for the length of the
  -- chain.
  pub allocate_chain-deallocate_chain :
      (p : DescPool) (fuel k : ℕ) (free : List ℕ)
      → IsPool p free
      → 0 < k
      → k ≤ length free
      → k ≤ fuel
      → Regains fill fuel free (allocate_chain k p)
  allocate_chain-deallocate_chain p fuel k free sound some_asked enough fuelled =
      taken-Regains p fuel k free (allocate_chain k p) sound some_asked enough fuelled
        (allocate_chain-Takes p k free sound)
