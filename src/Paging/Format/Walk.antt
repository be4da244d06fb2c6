-- ===== src/Paging/Format/Walk.antt =====
-- A walk of the kernel that allocates the tables it misses: it ends at the lowest entry for the
-- address, and the hardware gets there too.
use nyaux_kc.Base.{
  ℕ, zero, suc, ◌+◌, ◌-◌, ◌%◌, ◌≤◌, ◌<◌, ◌≡◌, refl, true, false, Option, some, List, [], ◌∷◌,
  length, arith, Bool-cases, inl, inr, ◌∙◌, ap, M, Returns, Returns-mono, ==_self,
}
use nyaux_kc.Paging.{Ram, ram}
use nyaux_kc.Paging.Format.{
  Format, entry_at, path, length-path, Label, IsSound, Extends, Extends-refl, Extends-trans,
}
use nyaux_kc.Paging.Format.Links.{linked_ram, placed, at_link, link-IsSound, link-Extends}

-- What a walk of the kernel, `k` levels above the lowest one, does at one table: at the lowest level
-- it yields the address of the entry, and above it goes on below a valid entry, or puts the first
-- free page there as a new table.
pub record IsWalk (F : Format) (loop : (k virt table : ℕ) → M Ram (Option ℕ)) : Type 0 where
  pub ends :
      (virt table : ℕ) (s : Ram)
      → loop 0 virt table s ≡ some (some (entry_at table (F.index 0 virt)), s)
  pub goes_down :
      (k virt table : ℕ) (s : Ram)
      → F.valid (s.word (entry_at table (F.index (suc k) virt))) ≡ true
      → F.leaf (s.word (entry_at table (F.index (suc k) virt))) ≡ false
      → F.plain (s.word (entry_at table (F.index (suc k) virt))) ≡ true
      → loop (suc k) virt table s
        ≡ loop k virt (F.next (s.word (entry_at table (F.index (suc k) virt)))) s
  pub allocates :
      (k virt table q : ℕ) (w : ℕ → ℕ) (free : List ℕ)
      → q % 4096 ≡ 0
      → q < F.limit
      → F.valid (w (entry_at table (F.index (suc k) virt))) ≡ false
      → F.plain (w (entry_at table (F.index (suc k) virt))) ≡ true
      → loop (suc k) virt table (ram w (q ∷ free))
        ≡ loop k virt q (linked_ram F w q free table (F.index (suc k) virt))

-- The hardware comes from `table`, `k` levels up, to the table `t0` at the lowest level.
abbrev pub Reaches : Format → (word : ℕ → ℕ) → (k virt table t0 : ℕ) → Type 0
Reaches F word zero virt table t0 = table ≡ t0
Reaches F word (suc k) virt table t0 =
    (F.valid (word (entry_at table (F.index (suc k) virt))) ≡ true)
    × (F.leaf (word (entry_at table (F.index (suc k) virt))) ≡ false)
    × Reaches F word k virt (F.next (word (entry_at table (F.index (suc k) virt)))) t0

-- What a walk from `table`, `k` levels up, leaves: the tables `label'`, and the lowest table `t0`.
pub record IsWalked (F : Format) (levels root k virt table : ℕ) (label : Label) (s : Ram)
    (label' : Label) (t0 : ℕ) (t : Ram) : Type 0 where
  pub sound : IsSound F levels root label' t
  pub extends : Extends F levels label s label' t
  pub reaches : Reaches F t.word k virt table t0
  pub last : label' t0 ≡ some (path F 1 (levels - 1) virt)

abbrev pub Walks : Format → (levels root k virt table : ℕ) → Label → Ram → Option ℕ → Ram → Type 0
Walks F levels root k virt table label s r t =
    (label' : Label) × (t0 : ℕ) × (r ≡ some (entry_at t0 (F.index 0 virt)))
    × IsWalked F levels root k virt table label s label' t0 t

-- One level further up: the entry there is valid and leads down.
IsWalked-down :
    (F : Format) (levels root k virt table : ℕ) (label label1 : Label) (s s1 : Ram) (label' : Label)
    (t0 : ℕ) (t : Ram) (r : List ℕ)
    → Extends F levels label s label1 s1
    → label1 table ≡ some r
    → F.valid (s1.word (entry_at table (F.index (suc k) virt))) ≡ true
    → F.leaf (s1.word (entry_at table (F.index (suc k) virt))) ≡ false
    → IsWalked F levels root k virt
        (F.next (s1.word (entry_at table (F.index (suc k) virt))))
        label1
        s1
        label'
        t0
        t
    → IsWalked F levels root (suc k) virt table label s label' t0 t
IsWalked-down F levels root k virt table label label1 s s1 label' t0 t r first at_table on inner
      walked =
    let word =
      walked.extends.kept table (F.index (suc k) virt) r at_table (F.index_small (suc k) virt) on in
    record {
      sound = walked.sound;
      extends = Extends-trans F levels label label1 label' s s1 t first walked.extends;
      reaches = rw word (on, inner, walked.reaches);
      last = walked.last;
    }

module _ (F : Format) (loop : (k virt table : ℕ) → M Ram (Option ℕ)) (walk : IsWalk F loop)
    (levels root : ℕ) where
  Walks-down :
      (k n virt table q : ℕ) (label : Label) (s : Ram) (label1 : Label) (s1 : Ram)
      → label1 table ≡ some (path F (suc (suc k)) n virt)
      → F.valid (s1.word (entry_at table (F.index (suc k) virt))) ≡ true
      → F.leaf (s1.word (entry_at table (F.index (suc k) virt))) ≡ false
      → F.next (s1.word (entry_at table (F.index (suc k) virt))) ≡ q
      → Extends F levels label s label1 s1
      → (r : Option ℕ) (t : Ram) → Walks F levels root k virt q label1 s1 r t
      → Walks F levels root (suc k) virt table label s r t
  Walks-down k n virt table q label s label1 s1 at_table on inner down first r t
        (label', t0, result, walked) =
      (
        label',
        t0,
        result,
        IsWalked-down F levels root k virt table label label1 s s1 label' t0 t _ first at_table on
            inner (rw down walked),
      )

  -- A void entry gets a new table, through which the rest of the walk goes.
  Walks-void :
      (k n virt table : ℕ)
      → ((q : ℕ) (label1 : Label) (w1 : ℕ → ℕ) (qs : List ℕ)
          → IsSound F levels root label1 (ram w1 qs)
          → label1 q ≡ some (path F (suc k) (suc n) virt)
          → k ≤ length qs
          → Returns (Walks F levels root k virt q label1 (ram w1 qs)) (loop k virt q (ram w1 qs)))
      → (label : Label) (w : ℕ → ℕ) (free : List ℕ) → IsSound F levels root label (ram w free)
      → label table ≡ some (path F (suc (suc k)) n virt)
      → n + suc (suc k) ≡ levels
      → suc k ≤ length free
      → F.valid (w (entry_at table (F.index (suc k) virt))) ≡ false
      → Returns
          (Walks F levels root (suc k) virt table label (ram w free))
          (loop (suc k) virt table (ram w free))
  Walks-void k n virt table ih label w [] sound at_table depth enough off = absurd (omega arith)
  Walks-void k n virt table ih label w (q ∷ qs) sound at_table depth enough off =
      let i = F.index (suc k) virt in
      let p = path F (suc (suc k)) n virt in
      let hi = F.index_small (suc k) virt in
      let above : length p + 1 < levels = omega (arith, length-path F (suc (suc k)) n virt) in
      let s1 = linked_ram F w q qs table i in
      let label1 = placed label q (i ∷ p) in
      let word : s1.word (entry_at table i) ≡ F.link q =
        at_link F levels root label w q qs table i p sound at_table above hi off in
      let first = link-Extends F levels root label w q qs table i p sound at_table above hi off in
      let sound1 = link-IsSound F levels root label w q qs table i p sound at_table above hi off in
      let placed_q : label1 q ≡ some (i ∷ p) = rw (==_self q) in
      let plain = sound.agreed table i p at_table above hi in
      let step = walk.allocates k virt table q w qs sound.spare.1 sound.spare.2 off plain in
      rw step (
        Returns-mono _ _ _ (ih q label1 s1.word qs sound1 placed_q (omega arith)) (
          Walks-down k n virt table q label (ram w (q ∷ qs)) label1 s1
            (first.placed table p at_table)
            (ap F.valid word ∙ F.link_is_valid q sound.spare.1 sound.spare.2)
            (ap F.leaf word ∙ F.link_leads_down q sound.spare.1 sound.spare.2)
            (ap F.next word ∙ F.link_points q sound.spare.1 sound.spare.2) first))

  -- The walk returns the entry of the address in the lowest table, if there are enough free pages.
  pub loop-Walks :
      (k n virt table : ℕ) (label : Label) (w : ℕ → ℕ) (free : List ℕ)
      → IsSound F levels root label (ram w free)
      → label table ≡ some (path F (suc k) n virt)
      → n + suc k ≡ levels
      → k ≤ length free
      → Returns
          (Walks F levels root k virt table label (ram w free))
          (loop k virt table (ram w free))
  loop-Walks zero n virt table label w free sound at_table depth enough =
      let below : n ≡ levels - 1 = omega arith in
      rw (walk.ends virt table (ram w free)) (
        label,
        table,
        refl,
        record {
          sound = sound;
          extends = Extends-refl F levels label (ram w free);
          reaches = refl;
          last = rw (← below) at_table;
        },
      )
  loop-Walks (suc k) n virt table label w free sound at_table depth enough =
      elim (Bool-cases (F.valid (w (entry_at table (F.index (suc k) virt))))) [
        | inl on ↦
            let i = F.index (suc k) virt in
            let (inner, below) =
              sound.linked table i _ at_table (omega (arith, length-path F (suc (suc k)) n virt))
                (F.index_small (suc k) virt) on in
            let plain =
              sound.agreed table i _ at_table (omega (arith, length-path F (suc (suc k)) n virt))
                (F.index_small (suc k) virt) in
            let step = walk.goes_down k virt table (ram w free) on inner plain in
            rw step (
              Returns-mono _ _ _
                (loop-Walks k (suc n) virt _ label w free sound below (omega arith) (omega arith))
                (Walks-down k n virt table _ label (ram w free) label (ram w free) at_table on inner
                  refl (Extends-refl F levels label (ram w free))))
        | inr off ↦
            Walks-void k n virt table
              (λ q label1 w1 qs s1 at1 enough1.
                loop-Walks k (suc n) virt q label1 w1 qs s1 at1 (omega arith) enough1)
              label w free sound at_table depth enough off
      ]
