-- ===== src/Paging/Format/Mapping.antt =====
-- A page mapped after a walk of the kernel, against the walk of the hardware.
use nyaux_kc.Base.{
  ℕ, zero, suc, ◌+◌, ◌-◌, ◌≤◌, ◌<◌, ◌≡◌, ◌≢◌, refl, true, Option, some, List, [], length, ◌==◌,
  arith, Bool-cases, inl, inr, ==→eq, ==_self, ◌∙◌, sym, ap, M, run_of_Returns,
}
use nyaux_kc.Paging.{Ram, ram, put}
use nyaux_kc.Paging.Format.{
  Format, entry_at, translate, translate_page, translate_void, translate_down, translate_last, path,
  length-path, Label, IsSound, entry_at_inj,
}
use nyaux_kc.Paging.Format.Walk.{IsWalk, Reaches, Walks, loop-Walks}

-- A write to the entry `i` of a table `t0` at the lowest level.
module _ (F : Format) (levels root : ℕ) (label : Label) (s : Ram) (t0 virt x : ℕ)
    (sound : IsSound F levels root label s) (at_t0 : label t0 ≡ some (path F 1 (levels - 1) virt))
    (some_level : 0 < levels) where
  abbrev written : ℕ → ℕ
  written = put s.word (entry_at t0 (F.index 0 virt)) x

  at_entry : written (entry_at t0 (F.index 0 virt)) ≡ x
  at_entry = rw (==_self (entry_at t0 (F.index 0 virt)))

  same_entry :
      (u j : ℕ) (r : List ℕ)
      → label u ≡ some r
      → j < 512
      → (entry_at u j == entry_at t0 (F.index 0 virt)) ≡ true
      → (r ≡ path F 1 (levels - 1) virt) × (j ≡ F.index 0 virt)
  same_entry u j r e hj h =
      let (same_t, same_i) =
        entry_at_inj u t0 j (F.index 0 virt) (sound.aligned u r e) (sound.aligned t0 _ at_t0) hj
          (F.index_small 0 virt) (==→eq _ _ h) in
      (cc (same_t, e, at_t0), same_i)

  -- A table above the lowest level is not touched.
  at_upper :
      (u j : ℕ) (r : List ℕ)
      → label u ≡ some r
      → length r + 1 < levels
      → j < 512
      → written (entry_at u j) ≡ s.word (entry_at u j)
  at_upper u j r e above hj = elim (Bool-cases (entry_at u j == entry_at t0 (F.index 0 virt))) [
    | inl h ↦
        let same = (same_entry u j r e hj h).0 in
        absurd (omega (arith, ap length same, length-path F 1 (levels - 1) virt))
    | inr h ↦ rw h
  ]

  written-IsSound : IsSound F levels root label (ram written s.free)
  written-IsSound = record {
    top = sound.top;
    aligned = sound.aligned;
    linked = λ u j r e above hj valid.
        let word = at_upper u j r e above hj in
        rw word (sound.linked u j r e above hj (rw (← word) valid));
    agreed = λ u j r e above hj. rw (at_upper u j r e above hj) (sound.agreed u j r e above hj);
    spare = sound.spare;
  }

  -- The hardware finds the new entry for the address.
  written_found :
      (k n u : ℕ)
      → label u ≡ some (path F (suc k) n virt)
      → n + suc k ≡ levels
      → Reaches F s.word k virt u t0
      → F.page x ≡ true
      → translate F written (suc k) virt u ≡ some (0, x)
  written_found zero n u e depth here leaf =
      translate_last F written written virt u t0
        (ap (λ a. written (entry_at a (F.index 0 virt))) here)
      ∙ translate_page F written virt t0 x at_entry leaf
  written_found (suc k) n u e depth (on, inner, rest) leaf =
      let j = F.index (suc k) virt in
      let above : length (path F (suc (suc k)) n virt) + 1 < levels =
        omega (arith, length-path F (suc (suc k)) n virt) in
      let hj = F.index_small (suc k) virt in
      let below = (sound.linked u j _ e above hj on).1 in
      translate_down F written virt u (s.word (entry_at u j)) k (at_upper u j _ e above hj) inner on
      ∙ written_found k (suc n) _ below (omega arith) rest leaf

  -- For the other pages it finds what it found before.
  written_other :
      (v : ℕ)
      → path F 0 levels v ≢ path F 0 levels virt
      → (k n u : ℕ) → label u ≡ some (path F (suc k) n v)
      → n + suc k ≡ levels
      → translate F written (suc k) v u ≡ translate F s.word (suc k) v u
  written_other v other zero n u e depth =
      elim (Bool-cases (entry_at u (F.index 0 v) == entry_at t0 (F.index 0 virt))) [
        | inl h ↦
            let (same_r, same_i) = same_entry u (F.index 0 v) _ e (F.index_small 0 v) h in
            let size : levels ≡ suc n = omega arith in
            let below : levels - 1 ≡ n = omega arith in
            let rest : path F 1 n v ≡ path F 1 n virt = rw below at same_r in
            absurd (other (rw size (cc (rest, same_i))))
        | inr h ↦ translate_last F written s.word v u u (rw h)
      ]
  written_other v other (suc k) n u e depth =
      let j = F.index (suc k) v in
      let above : length (path F (suc (suc k)) n v) + 1 < levels =
        omega (arith, length-path F (suc (suc k)) n v) in
      let hj = F.index_small (suc k) v in
      let word = at_upper u j _ e above hj in
      let pte = s.word (entry_at u j) in
      elim (Bool-cases (F.valid pte)) [
        | inr off ↦
            translate_void F written v u pte (suc k) word off
            ∙ sym (translate_void F s.word v u pte (suc k) refl off)
        | inl on ↦
            let was = sound.linked u j _ e above hj on in
            translate_down F written v u pte k word was.0 on
            ∙ written_other v other k (suc n) _ was.1 (omega arith)
            ∙ sym (translate_down F s.word v u pte k refl was.0 on)
      ]

-- The state after a page is mapped: well-formed tables, where the hardware finds this entry for the
-- address, at the lowest level, and for other pages what it found before.
pub record IsMapped (F : Format) (levels root virt x : ℕ) (s : Ram) (label : Label) (t : Ram)
    : Type 0 where
  pub sound : IsSound F levels root label t
  pub found : translate F t.word levels virt root ≡ some (0, x)
  pub others :
      (v : ℕ)
      → path F 0 levels v ≢ path F 0 levels virt
      → translate F t.word levels v root ≡ translate F s.word levels v root

-- A walk with enough free pages, and a write of an entry for a page at its end.
pub walk-IsMapped :
    (F : Format) (loop : (k virt table : ℕ) → M Ram (Option ℕ))
    → IsWalk F loop
    → (d root virt x : ℕ) (label : Label) (s : Ram) → IsSound F (suc d) root label s
    → d ≤ length s.free
    → F.page x ≡ true
    → (ble : ℕ) × (t : Ram) × (label' : Label) × (loop d virt root s ≡ some (some ble, t))
      × IsMapped F (suc d) root virt x s label' (ram (put t.word ble x) t.free)
walk-IsMapped F loop walk d root virt x label s sound enough leaf =
    let (r, t, ran, walked_to) = run_of_Returns (Walks F (suc d) root d virt root label s) _ (
      loop-Walks F loop walk (suc d) root d 0 virt root label s.word s.free sound sound.top
        (omega arith) enough) in
    let (label', t0, result, walked) = walked_to in
    (
      entry_at t0 (F.index 0 virt),
      t,
      label',
      ran ∙ ap (λ z. some (z, t)) result,
      record {
        sound =
            written-IsSound F (suc d) root label' t t0 virt x walked.sound walked.last
              (omega arith);
        found =
            written_found F (suc d) root label' t t0 virt x walked.sound walked.last (omega arith) d
              0 root walked.sound.top (omega arith) walked.reaches leaf;
        others = λ v other.
            written_other F (suc d) root label' t t0 virt x walked.sound walked.last (omega arith) v
              other d 0 root walked.sound.top (omega arith)
            ∙ walked.extends.same (suc d) v root [] sound.top (omega arith);
      },
    )
