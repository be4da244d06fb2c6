-- ===== src/Paging/Format/Links.antt =====
-- A new table at a void entry: the tables stay well formed, and
-- the hardware reads what it read before.
use nyaux_kc.Base.{
  ne→==, ge→ltb, le→leb, lt→leb, dec_lt, ◌≢◌, ℕ, zero, suc, ◌+◌, ◌%◌, ◌≤◌, ◌<◌, ◌≡◌, refl, true,
  false, Option, none, some, List, [], ◌∷◌, length, has, ◌==◌, if◌then◌else◌, arith, Bool-cases,
  inl, inr, ==→eq, ==_self, ◌∙◌, sym, ap,
}
use nyaux_kc.Memory.Align.{page_size}
use nyaux_kc.Paging.{Ram, ram, put, cleared, in_page}
use nyaux_kc.Paging.Format.{
  Format, entry_at, translate, translate-none, translate_void, translate_down, translate_last,
  Label, AreFree, Extends, IsSound, entry_at_inj,
}

outside_page :
    (q t i : ℕ)
    → q % 4096 ≡ 0
    → t % 4096 ≡ 0
    → i < 512
    → (t == q) ≡ false
    → in_page q (entry_at t i) ≡ false
outside_page q t i aq at hi ne = elim (dec_lt t q) [
  | yes below ↦ rw (lt→leb q (entry_at t i) (omega arith))
  | no above ↦
      let other : t ≢ q = λ e. cc (ne, ==_self q, e) in
      let far : q + page_size ≤ entry_at t i = omega (arith, other) in
      rw (le→leb q (entry_at t i) (omega arith), ge→ltb (entry_at t i) (q + page_size) far)
]

inside_page : (q i : ℕ) → i < 512 → in_page q (entry_at q i) ≡ true
inside_page q i hi = ground arith

-- The table `q` is put at the entry `i` of the table `t`.
abbrev pub linked_ram : Format → (ℕ → ℕ) → (q : ℕ) → List ℕ → (t i : ℕ) → Ram
linked_ram F w q qs t i = ram (put (cleared w q) (entry_at t i) (F.link q)) qs

abbrev pub placed : Label → ℕ → List ℕ → Label
placed label q p a = if a == q then some p else label a

module _ (F : Format) (levels root : ℕ) (label : Label) (w : ℕ → ℕ) (q : ℕ) (qs : List ℕ) (t i : ℕ)
    (p : List ℕ) (sound : IsSound F levels root label (ram w (q ∷ qs))) (at_t : label t ≡ some p)
    (above : length p + 1 < levels) (in_table : i < 512)
    (void : F.valid (w (entry_at t i)) ≡ false) where
  abbrev after : ℕ → ℕ
  after = (linked_ram F w q qs t i).word

  -- A table is none of the free pages.
  not_free : (u : ℕ) (r : List ℕ) → label u ≡ some r → (u == q) ≡ false
  not_free u r e = elim (Bool-cases (u == q)) [
    | inl h ↦ cc (e, ==→eq u q h, sound.spare.0)
    | inr h ↦ h
  ]

  pub still_placed : (u : ℕ) (r : List ℕ) → label u ≡ some r → placed label q (i ∷ p) u ≡ some r
  still_placed u r e = rw (not_free u r e) e

  pub at_link : after (entry_at t i) ≡ F.link q
  at_link = rw (==_self (entry_at t i))

  -- Every other entry of a table is as it was.
  pub at_other :
      (u j : ℕ) (r : List ℕ)
      → label u ≡ some r
      → j < 512
      → (entry_at u j == entry_at t i) ≡ false
      → after (entry_at u j) ≡ w (entry_at u j)
  at_other u j r e hj other =
      rw (other, outside_page q u j sound.spare.1 (sound.aligned u r e) hj (not_free u r e))

  at_new : (j : ℕ) → j < 512 → after (entry_at q j) ≡ 0
  at_new j hj =
      let apart : (entry_at q j == entry_at t i) ≡ false = ne→== _ _ λ e.
        let same : q ≡ t =
          (entry_at_inj q t j i sound.spare.1 (sound.aligned t p at_t) hj in_table e).0 in
        cc (same, at_t, sound.spare.0) in
      rw (apart, inside_page q j hj)

  -- An entry of a table, if it is the link, is the one that was void.
  is_link :
      (u j : ℕ) (r : List ℕ)
      → label u ≡ some r
      → j < 512
      → (entry_at u j == entry_at t i) ≡ true
      → (u ≡ t) × (j ≡ i)
  is_link u j r e hj h =
      entry_at_inj u t j i (sound.aligned u r e) (sound.aligned t p at_t) hj in_table (==→eq _ _ h)

  linked_after :
      (u j : ℕ) (r : List ℕ)
      → placed label q (i ∷ p) u ≡ some r
      → length r + 1 < levels
      → j < 512
      → F.valid (after (entry_at u j)) ≡ true
      → (F.leaf (after (entry_at u j)) ≡ false)
        × (placed label q (i ∷ p) (F.next (after (entry_at u j))) ≡ some (j ∷ r))
  linked_after u j r e low hj valid = elim (Bool-cases (u == q)) [
    | inl h ↦
        let zero_word : after (entry_at u j) ≡ 0 =
          ap (λ x. after (entry_at x j)) (==→eq u q h) ∙ at_new j hj in
        let bad : F.valid 0 ≡ true = rw zero_word at valid in cc (bad, F.zero_is_void)
    | inr h ↦
        let old : label u ≡ some r = rw h at e in
        elim (Bool-cases (entry_at u j == entry_at t i)) [
          | inl link ↦
              let (same_t, same_i) = is_link u j r old hj link in
              let word : after (entry_at u j) ≡ F.link q = ap after (==→eq _ _ link) ∙ at_link in
              rw
                (
                  word,
                  F.link_leads_down q sound.spare.1 sound.spare.2,
                  F.link_points q sound.spare.1 sound.spare.2,
                  ==_self q,
                )
                (refl, cc (same_t, same_i, old, at_t))
          | inr other ↦
              let word = at_other u j r old hj other in
              let was = sound.linked u j r old low hj (rw (← word) valid) in
              rw word (was.0, still_placed _ (j ∷ r) was.1)
        ]
  ]

  agreed_after :
      (u j : ℕ) (r : List ℕ)
      → placed label q (i ∷ p) u ≡ some r
      → length r + 1 < levels
      → j < 512
      → F.plain (after (entry_at u j)) ≡ true
  agreed_after u j r e low hj = elim (Bool-cases (u == q)) [
    | inl h ↦
        let zero_word : after (entry_at u j) ≡ 0 =
          ap (λ x. after (entry_at x j)) (==→eq u q h) ∙ at_new j hj in
        rw zero_word F.zero_is_plain
    | inr h ↦
        let old : label u ≡ some r = rw h at e in
        elim (Bool-cases (entry_at u j == entry_at t i)) [
          | inl link ↦
              let word : after (entry_at u j) ≡ F.link q = ap after (==→eq _ _ link) ∙ at_link in
              rw word (F.link_is_plain q sound.spare.1 sound.spare.2)
          | inr other ↦ rw (at_other u j r old hj other) (sound.agreed u j r old low hj)
        ]
  ]

  spare_after :
      (rs : List ℕ) → has q rs ≡ false → AreFree F label rs → AreFree F (placed label q (i ∷ p)) rs
  spare_after [] out f = tt
  spare_after (r ∷ rs) out f =
      let apart : (r == q) ≡ false = ground arith in
      (rw apart f.0, f.1, f.2, f.3, spare_after rs (ground arith) f.4)

  pub link-IsSound : IsSound F levels root (placed label q (i ∷ p)) (linked_ram F w q qs t i)
  link-IsSound = record {
    top = still_placed root [] sound.top;
    aligned = λ u r e. elim (Bool-cases (u == q)) [
      | inl h ↦ rw (==→eq u q h) sound.spare.1
      | inr h ↦ sound.aligned u r (rw h at e)
    ];
    linked = linked_after;
    agreed = agreed_after;
    spare = spare_after qs sound.spare.3 sound.spare.4;
  }

  -- Through the new table nothing is found.
  none_below : (k virt : ℕ) → translate F after k virt q ≡ none
  none_below zero virt = translate-none F after virt q 0
  none_below (suc k) virt =
      translate_void F after virt q 0 k (at_new (F.index k virt) (F.index_small k virt))
        F.zero_is_void

  translate_link :
      (k virt u : ℕ)
      → (entry_at u (F.index (suc k) virt) == entry_at t i) ≡ true
      → translate F after (suc (suc k)) virt u ≡ translate F w (suc (suc k)) virt u
  translate_link k virt u link =
      let at = entry_at u (F.index (suc k) virt) in
      let word : after at ≡ F.link q = ap after (==→eq at (entry_at t i) link) ∙ at_link in
      let gone : F.valid (w at) ≡ false =
        ap (λ a. F.valid (w a)) (==→eq at (entry_at t i) link) ∙ void in
      translate_down F after virt u (F.link q) k word
        (F.link_leads_down q sound.spare.1 sound.spare.2)
        (F.link_is_valid q sound.spare.1 sound.spare.2)
      ∙ ap (λ z. translate F after (suc k) virt z) (F.link_points q sound.spare.1 sound.spare.2)
      ∙ none_below (suc k) virt
      ∙ sym (translate_void F w virt u _ (suc k) refl gone)

  -- The hardware finds what it found before, from every table and for every address.
  pub link-translate :
      (k virt u : ℕ) (r : List ℕ)
      → label u ≡ some r
      → length r + k ≡ levels
      → translate F after k virt u ≡ translate F w k virt u
  link-translate zero virt u r e depth =
      translate-none F after virt u 0 ∙ sym (translate-none F w virt u 0)
  link-translate (suc zero) virt u r e depth =
      elim (Bool-cases (entry_at u (F.index 0 virt) == entry_at t i)) [
        | inl link ↦
            let (same_t, same_i) = is_link u (F.index 0 virt) r e (F.index_small 0 virt) link in
            let same : ◌≡◌ {A = Option (List ℕ)} (some r) (some p) = cc (same_t, e, at_t) in
            let lengths : r ≡ p = cc same in absurd (omega (arith, ap length lengths))
        | inr other ↦
            translate_last F after w virt u u
              (at_other u (F.index 0 virt) r e (F.index_small 0 virt) other)
      ]
  link-translate (suc (suc k)) virt u r e depth =
      let j = F.index (suc k) virt in
      elim (Bool-cases (entry_at u j == entry_at t i)) [
        | inl link ↦ translate_link k virt u link
        | inr other ↦
            let word = at_other u j r e (F.index_small (suc k) virt) other in
            let pte = w (entry_at u j) in
            elim (Bool-cases (F.valid pte)) [
              | inr off ↦
                  translate_void F after virt u pte (suc k) word off
                  ∙ sym (translate_void F w virt u pte (suc k) refl off)
              | inl on ↦
                  let was = sound.linked u j r e (omega arith) (F.index_small (suc k) virt) on in
                  translate_down F after virt u pte k word was.0 on
                  ∙ link-translate (suc k) virt _ (j ∷ r) was.1 (omega arith)
                  ∙ sym (translate_down F w virt u pte k refl was.0 on)
            ]
      ]

  pub link-Extends :
      Extends F levels label (ram w (q ∷ qs)) (placed label q (i ∷ p)) (linked_ram F w q qs t i)
  link-Extends = record {
    placed = still_placed;
    kept = λ u j r e hj valid. elim (Bool-cases (entry_at u j == entry_at t i)) [
      | inl link ↦
          let gone : F.valid (w (entry_at u j)) ≡ false =
            ap (λ a. F.valid (w a)) (==→eq _ _ link) ∙ void in
          cc (gone, valid)
      | inr other ↦ at_other u j r e hj other
    ];
    same = link-translate;
  }
