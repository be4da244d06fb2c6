-- ===== src/Virtio/Pool.antt =====
-- Taking chains out of the pool and giving them back (`allocate_chain`, `deallocate_chain` of
-- kernel/src/virtio/mod.rs).
pub mod Release
use nyaux_kc.Base.{
  ℕ, zero, suc, ◌+◌, ◌-◌, ◌*◌, ◌/◌, ◌%◌, ◌^◌, ◌≤◌, ◌<◌, ◌≡◌, refl, sym, ap, ◌∙◌, subst, Bool, true,
  false, ◌||◌, Option, none, some, List, [], ◌∷◌, ◌++◌, ltb, ◌==◌, if◌then◌else◌, arith, length,
  has, Bool-cases, inl, inr, ◌⊎◌, ==_self, ==→eq, eq→==, ne→==, has-append, last_or, lt→ltb, pure,
  ◌>>=◌, ◌>>◌, ge→ltb, length-append,
}
use nyaux_kc.Virtio.{
  VirtqDesc, DescPool, at, set, put, has_next, with_next, allocate_loop, allocate_last,
  allocate_chain,
}
use nyaux_kc.Virtio.Chains.{
  FreeFrom, ChainFrom, Below, Distinct, IsPool, FreeFrom-links, FreeFrom-take, FreeFrom-drop,
  Below-split, Distinct-split, Distinct-apart, split_at, put_other, put_self, apart_last,
  Below-last, swept, swept_other, put-links, swept-links,
}

abbrev marked : (ℕ → VirtqDesc) → (x : ℕ) → List ℕ → ℕ → VirtqDesc
marked = swept with_next

has_next-with_next : (d : VirtqDesc) → has_next (with_next d) ≡ true
has_next-with_next d = eq→== ((d.flags / 2 * 2 + 1) % 2) 1 (omega arith)

-- With its last descriptor closed, the marked part is a chain.
marked-ChainFrom :
    (l : List ℕ) (t : ℕ → VirtqDesc) (h x : ℕ) (d : VirtqDesc)
    → FreeFrom t h (x ∷ l)
    → Distinct (x ∷ l)
    → has_next d ≡ false
    → ChainFrom (put (marked t x l) (last_or x l) d) h x l
marked-ChainFrom [] t h x d free distinct closed = (free.0, rw (==_self x) closed)
marked-ChainFrom (y ∷ l) t h x d free distinct closed =
    let t1 = put t x (with_next (t x)) in
    let at_x : put (marked t1 y l) (last_or y l) d x ≡ with_next (t x) =
      put_other (marked t1 y l) x (last_or y l) d (apart_last x y l distinct.0)
      ∙ swept_other with_next l t1 y x distinct.0
      ∙ put_self t x (with_next (t x)) in
    let rest =
      marked-ChainFrom l t1 (t x).next y d
        (FreeFrom-links t t1 (t x).next (y ∷ l) (λ a _. put-links with_next (λ d. refl) t x a)
          free.1)
        distinct.1 closed in
    (
      free.0,
      ap has_next at_x ∙ has_next-with_next (t x),
      subst (λ n. ChainFrom (put (marked t1 y l) (last_or y l) d) n y l)
          (sym (ap (λ e. e.next) at_x)) rest,
    )

allocate_loop-step :
    (n x : ℕ) (p : DescPool)
    → x < p.queue_size
    → allocate_loop (suc n) x p
      ≡ allocate_loop n
          (p.table x).next
          (record p { table = put p.table x (with_next (p.table x)) })
unfolding allocate_loop
allocate_loop-step n x p inside =
    let ok = lt→ltb x p.queue_size inside in
    rw (allocate_loop, ◌>>=◌, at, ok, ◌>>◌, ◌>>=◌, set, ok) refl

allocate_loop-marked :
    (l : List ℕ) (p : DescPool) (h x : ℕ)
    → FreeFrom p.table h (x ∷ l)
    → Below p.queue_size (x ∷ l)
    → allocate_loop (length l) h p ≡ some (last_or x l, record p { table = marked p.table x l })
unfolding allocate_loop
allocate_loop-marked [] p h x free inside = rw (allocate_loop, free.0) refl
allocate_loop-marked (y ∷ l) p h x free inside = rw (free.0) (
    allocate_loop-step (length l) x p inside.0
    ∙ allocate_loop-marked l (record p { table = put p.table x (with_next (p.table x)) })
        (p.table x).next y
        (FreeFrom-links p.table (put p.table x (with_next (p.table x))) (p.table x).next (y ∷ l)
          (λ a _. put-links with_next (λ d. refl) p.table x a) free.1)
        inside.1)

-- A chain of `k` descriptors is taken from the head of the free list.
pub record IsTaken (p : DescPool) (k : ℕ) (free : List ℕ) (h : ℕ) (t : DescPool) : Type 0 where
  pub first : ℕ
  pub others : List ℕ
  pub rest : List ℕ
  pub split : free ≡ (first ∷ others) ++ rest
  pub chain_length : length (first ∷ others) ≡ k
  pub chain : ChainFrom t.table h first others
  pub pool : IsPool t rest
  pub size : t.queue_size ≡ p.queue_size
  pub untouched : (a : ℕ) → has a (first ∷ others) ≡ false → t.table a ≡ p.table a

abbrev pub Takes : DescPool → ℕ → List ℕ → Option (Option ℕ × DescPool) → Type 0
Takes p k free none = ⊥
Takes p k free (some (none, t)) = (t ≡ p) × ((k ≡ 0) ⊎ (length free < k))
Takes p k free (some (some h, t)) = IsTaken p k free h t

allocate_last-run :
    (k cur : ℕ) (p : DescPool)
    → cur < p.queue_size
    → allocate_last k cur p
      ≡ some (
        tt,
        record p {
          table =
              put p.table cur
                (record (p.table cur) { flags = (p.table cur).flags / 2 * 2; next = 0 });
          head = (p.table cur).next;
          num_free = p.num_free - k;
        },
      )
unfolding allocate_last
allocate_last-run k cur p inside =
    let ok = lt→ltb cur p.queue_size inside in
    rw (allocate_last, ◌>>=◌, at, ok, ◌>>◌, ◌>>=◌, set, ok) refl

module _ (p : DescPool) (x : ℕ) (l rest : List ℕ) (sound : IsPool p (x ∷ (l ++ rest))) where
  abbrev last : ℕ
  last = last_or x l

  abbrev after : ℕ → VirtqDesc
  after = marked p.table x l

  abbrev closed : VirtqDesc
  closed = record (after last) { flags = (after last).flags / 2 * 2; next = 0 }

  abbrev taken : DescPool
  taken = record p {
    table = put after last closed;
    head = (after last).next;
    num_free = p.num_free - suc (length l);
  }

  allocate_chain-run : allocate_chain (suc (length l)) p ≡ some (some p.head, taken)
  unfolding allocate_chain
  allocate_chain-run =
      let inside = (Below-split p.queue_size (x ∷ l) rest sound.inside).0 in
      let enough : ltb p.num_free (suc (length l)) ≡ false =
        ge→ltb p.num_free (suc (length l)) (omega (arith, sound.counted, length-append l rest)) in
      let walked =
        allocate_loop-marked l p p.head x (FreeFrom-take p.table p.head (x ∷ l) rest sound.linked)
          inside in
      let nonzero : (suc (length l) == 0) ≡ false = ground arith in
      let rounds : suc (length l) - 1 ≡ length l = omega arith in
      let ended =
        allocate_last-run (suc (length l)) last (record p { table = after })
          (Below-last p.queue_size x l inside) in
      rw
        (
          allocate_chain, nonzero, ◌||◌, enough, if◌then◌else◌, rounds, ◌>>=◌, walked, ◌>>◌, ◌>>=◌,
          ended, pure,
        )
        refl

  taken-IsTaken : IsTaken p (suc (length l)) (x ∷ (l ++ rest)) p.head taken
  taken-IsTaken =
      let apart_rest : (a : ℕ) → has a rest ≡ true → has a (x ∷ l) ≡ false =
        λ a on. Distinct-apart a (x ∷ l) rest sound.distinct on in
      record {
        first = x;
        others = l;
        rest = rest;
        split = refl;
        chain_length = refl;
        chain =
            marked-ChainFrom l p.table p.head x closed
              (FreeFrom-take p.table p.head (x ∷ l) rest sound.linked)
              (Distinct-split (x ∷ l) rest sound.distinct).0
              (ne→== ((after last).flags / 2 * 2 % 2) 1 (omega arith));
        pool = record {
          linked =
              FreeFrom-links p.table (put after last closed) (after last).next rest
                (λ a on.
                  ap (λ d. d.next)
                    (put_other after a last closed (apart_last a x l (apart_rest a on)))
                  ∙ swept-links with_next (λ d. refl) l p.table x a)
                (subst (λ n. FreeFrom p.table n rest)
                  (sym (swept-links with_next (λ d. refl) l p.table x last))
                  (FreeFrom-drop p.table p.head x l rest sound.linked));
          inside = (Below-split p.queue_size (x ∷ l) rest sound.inside).1;
          distinct = (Distinct-split (x ∷ l) rest sound.distinct).1;
          counted = omega (arith, sound.counted, length-append l rest);
          small = omega (arith, sound.small, length-append l rest);
        };
        size = refl;
        untouched = λ a out.
            put_other after a last closed (apart_last a x l out)
            ∙ swept_other with_next l p.table x a out;
      }

granted-Takes :
    (p : DescPool) (c rest : List ℕ)
    → 0 < length c
    → IsPool p (c ++ rest)
    → Takes p (length c) (c ++ rest) (allocate_chain (length c) p)
granted-Takes p [] rest some_asked sound = absurd (omega arith)
granted-Takes p (x ∷ l) rest some_asked sound =
    rw (allocate_chain-run p x l rest sound) (taken-IsTaken p x l rest sound)

-- Taking a chain out of a pool: it fails, and changes nothing, exactly where nothing is asked for or
-- too few descriptors are free; otherwise the first descriptors of the free list become a chain
-- that ends at the last of them, and the rest stays a pool.
pub allocate_chain-Takes :
    (p : DescPool) (k : ℕ) (free : List ℕ) → IsPool p free → Takes p k free (allocate_chain k p)
unfolding allocate_chain
allocate_chain-Takes p k free sound = elim (Bool-cases ((k == 0) || ltb p.num_free k)) [
  | inl refused ↦ rw refused (refl, ground (arith, sound.counted))
  | inr granted ↦
      let some_asked : 0 < k = ground arith in
      let enough : k ≤ length free = ground (arith, sound.counted) in
      let (c, rest, same, size) = split_at k free enough in
      subst (λ n. Takes p n free (allocate_chain n p)) size
        (subst (λ z. Takes p (length c) z (allocate_chain (length c) p)) (sym same)
          (granted-Takes p c rest (omega arith) (subst (IsPool p) same sound)))
]
