-- ===== src/Memory/Pages/FreeList.antt =====
-- What the free list stands for, and what taking and giving back a page do to it
-- (kernel/src/memory/pmm/mod.rs).
use nyaux_kc.Base.{
  ℕ, ◌+◌, ◌-◌, ◌<◌, ◌≡◌, refl, false, some, List, [], ◌∷◌, arith, has, head_or, ◌==◌, Returns, ◌∙◌,
  ==_self, ◌>>=◌, ◌>>◌, Option-cases, inl, inr, sym, ap,
}
use nyaux_kc.Memory.Pages.{Pmm, stored, unwrap_or_null, allocate_page, deallocate_page}

-- The pages `ps`, distinct and none of them 0, are linked in this order, and the last leads to 0.
abbrev pub Linked : (ℕ → ℕ) → List ℕ → Type 0
Linked next [] = Unit
Linked next (p ∷ ps) = (0 < p) × (has p ps ≡ false) × (next p ≡ head_or 0 ps) × Linked next ps

pub record IsFree (s : Pmm) (ps : List ℕ) : Type 0 where
  pub linked : Linked s.next ps
  pub first : unwrap_or_null s.freelist ≡ head_or 0 ps

head_ne : (p q : ℕ) (ps : List ℕ) → has p (q ∷ ps) ≡ false → (q == p) ≡ false
head_ne p q ps out = ground arith

pub Linked-stored :
    (next : ℕ → ℕ) (p v : ℕ) (ps : List ℕ)
    → has p ps ≡ false
    → Linked next ps
    → Linked (stored next p v) ps
Linked-stored next p v [] out l = tt
Linked-stored next p v (q ∷ ps) out l =
    (l.0, l.1, rw (head_ne p q ps out) l.2, Linked-stored next p v ps (ground (arith, out)) l.3)

-- Taking a page: the head of the list is handed out at its mapped address, cleared, and the rest
-- of the list stays as it is.
pub allocate_page-IsFree :
    (offset : ℕ) (s : Pmm) (p : ℕ) (ps : List ℕ)
    → IsFree s (p ∷ ps)
    → Returns (λ a t. (a ≡ p + offset) × IsFree t ps × (t.next p ≡ 0)) (allocate_page offset s)
unfolding allocate_page
allocate_page-IsFree offset s p ps free = elim (Option-cases s.freelist) [
  | inl nothing ↦ absurd (omega (arith, free.linked.0, sym free.first ∙ ap unwrap_or_null nothing))
  | inr (phy, here) ↦
      let same : phy ≡ p = sym (ap unwrap_or_null here) ∙ free.first in
      rw (here, same, allocate_page)
        (
          refl,
          record {
            linked = Linked-stored s.next p 0 ps free.linked.1 free.linked.3;
            first = free.linked.2;
          },
          rw (==_self p),
        )
]

-- Giving back a page that is not in the list puts it at the head, if the list has been set up.
pub deallocate_page-IsFree :
    (offset : ℕ) (s : Pmm) (o q : ℕ) (ps : List ℕ)
    → IsFree s ps
    → s.freelist ≡ some o
    → 0 < q
    → has q ps ≡ false
    → Returns (λ _ t. IsFree t (q ∷ ps)) (deallocate_page offset (q + offset) s)
unfolding deallocate_page
deallocate_page-IsFree offset s o q ps free here real out =
    let page : q + offset - offset ≡ q = omega arith in
    let head : o ≡ head_or 0 ps = sym (ap unwrap_or_null here) ∙ free.first in
    rw (here, page, deallocate_page)
      (record {
        linked = (real, out, rw (==_self q) head, Linked-stored s.next q o ps out free.linked);
        first = refl;
      })

-- Once the last page is taken, the list is `Some(null)` and not `None`: the next allocation does
-- not panic, and hands out physical page 0, which was never in the list.
pub allocate_page-exhausted :
    (offset : ℕ) (s : Pmm) (p : ℕ)
    → IsFree s (p ∷ [])
    → Returns (λ a _. a ≡ 0 + offset) ((allocate_page offset >> allocate_page offset) s)
unfolding allocate_page
allocate_page-exhausted offset s p free = elim (Option-cases s.freelist) [
  | inl nothing ↦ absurd (omega (arith, free.linked.0, sym free.first ∙ ap unwrap_or_null nothing))
  | inr (phy, here) ↦
      let same : phy ≡ p = sym (ap unwrap_or_null here) ∙ free.first in
      rw (here, same, free.linked.2, allocate_page, ◌>>=◌) refl
]
