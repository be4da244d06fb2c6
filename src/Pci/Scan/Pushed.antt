-- ===== src/Pci/Scan/Pushed.antt =====
-- What the bus scan pushes, in terms of its own tests (`pci_scan` of kernel/src/pci/mod.rs).
use mathlib.Core.List.{Memᴰ, append-nil, append_assoc}
use mathlib.Core.List.Memᴰ
use nyaux_kc.Base.{
  ℕ, zero, suc, ◌+◌, ◌≤◌, ◌<◌, ◌≡◌, refl, sym, ap, ◌∙◌, subst, true, false, List, [], ◌∷◌, ◌++◌,
  some, ◌⊎◌, inl, inr, arith, Bool-cases, ℕ_discrete,
}
use nyaux_kc.Pci.{PciInfo, Bytes}
use nyaux_kc.Pci.Scan.{
  Device, Scan, before, absent, has_functions, is_bridge, secondary_bus, scan_function,
  scan_functions, scan_slot, scan_slots, pci_scan,
}

-- The run pushes exactly the devices of `S`, and ends.
record Adds (run : Scan) (S : Device → Type 0) : Type 0 where
  new : List Device
  runs : (found : List Device) → run found ≡ some (found ++ new)
  sound : (d : Device) → Memᴰ d new → S d
  complete : (d : Device) → S d → Memᴰ d new

Adds-none : (S : Device → Type 0) → ((d : Device) → ¬ S d) → Adds some S
Adds-none S never = record {
  new = [];
  runs = λ found. ap some (sym (append-nil found));
  sound = λ d h. absurd (Memᴰ.not-nil h);
  complete = λ d h. absurd (never d h);
}

Adds-mono :
    (run run' : Scan) (S T : Device → Type 0)
    → Adds run S
    → ((found : List Device) → run' found ≡ run found)
    → ((d : Device) → S d → T d)
    → ((d : Device) → T d → S d)
    → Adds run' T
Adds-mono run run' S T a same there back = record {
  new = a.new;
  runs = λ found. same found ∙ a.runs found;
  sound = λ d h. there d (a.sound d h);
  complete = λ d h. a.complete d (back d h);
}

Adds-before :
    (run next : Scan) (S T : Device → Type 0)
    → Adds run S
    → Adds next T
    → Adds (before run next) (λ d. S d ⊎ T d)
Adds-before run next S T a b = record {
  new = a.new ++ b.new;
  runs = λ found.
      rw (before, a.runs found, b.runs (found ++ a.new)) (ap some (append_assoc found a.new b.new));
  sound = λ d h. elim (Memᴰ.append_cases a.new h) [
    | inl l ↦ inl (a.sound d l)
    | inr r ↦ inr (b.sound d r)
  ];
  complete = λ d h. elim h [
    | inl l ↦ Memᴰ.append_left b.new (a.complete d l)
    | inr r ↦ Memᴰ.append_right a.new (b.complete d r)
  ];
}

module _ (info : PciInfo) (m : Bytes) where
  -- The function answers, and the scan asks for it: it is the first one, or the first one announces
  -- that there are others.
  pub record IsAsked (bus slot func : ℕ) : Type 0 where
    pub slots : slot < 32
    pub functions : func < 8
    pub first : absent info m bus slot 0 ≡ false
    pub itself : absent info m bus slot func ≡ false
    pub announced : (func ≡ 0) ⊎ (has_functions info m bus slot ≡ true)

  -- The devices on a bus and on the buses behind its bridges.
  pub data Pushed : ℕ → Device → Type 0 where
    here : {bus slot func : ℕ} → IsAsked bus slot func → Pushed bus (bus, slot, func)
    behind :
        {bus slot func : ℕ} {d : Device}
        → IsAsked bus slot func
        → is_bridge info m bus slot func ≡ true
        → Pushed (secondary_bus info m bus slot func) d
        → Pushed bus d

  -- The function itself, and what is behind it.
  AtFunction : (bus slot func : ℕ) → Device → Type 0
  AtFunction bus slot func d =
      (d ≡ (bus, slot, func))
      ⊎ ((is_bridge info m bus slot func ≡ true) × Pushed (secondary_bus info m bus slot func) d)

  AtFunctions : (bus slot k j : ℕ) → Device → Type 0
  unfolding AtFunction
  AtFunctions bus slot k j d =
      (f : ℕ) × (j ≤ f) × (f < j + k) × (absent info m bus slot f ≡ false) × AtFunction bus slot f d

  AtSlot : (bus slot : ℕ) → Device → Type 0
  unfolding AtFunction
  AtSlot bus slot d = (f : ℕ) × IsAsked bus slot f × AtFunction bus slot f d

  AtSlots : (bus k i : ℕ) → Device → Type 0
  unfolding AtSlot
  AtSlots bus k i d = (s : ℕ) × (i ≤ s) × (s < i + k) × AtSlot bus s d

  module _ (rec : ℕ → Scan) (bus : ℕ)
      (ih : (s f : ℕ)
        → IsAsked bus s f
        → is_bridge info m bus s f ≡ true
        → Adds (rec (secondary_bus info m bus s f)) (Pushed (secondary_bus info m bus s f))) where
    function-Adds :
        (s f : ℕ) → IsAsked bus s f → Adds (scan_function info m rec bus s f) (AtFunction bus s f)
    unfolding scan_function AtFunction
    function-Adds s f shown = elim (Bool-cases (is_bridge info m bus s f)) [
      | inl bridge ↦
          let a = ih s f shown bridge in
          record {
            new = (bus, s, f) ∷ a.new;
            runs = λ found.
                rw (scan_function, bridge)
                  (a.runs (found ++ (bus, s, f) ∷ [])
                    ∙ ap some (append_assoc found ((bus, s, f) ∷ []) a.new));
            sound = λ d h. elim (Memᴰ.cases_cons h) [
              | inl e ↦ inl e
              | inr t ↦ inr (bridge, a.sound d t)
            ];
            complete = λ d h. elim h [ inl e ↦ Memᴰ.head e | inr t ↦ Memᴰ.tail (a.complete d t.1) ];
          }
      | inr leaf ↦ record {
        new = (bus, s, f) ∷ [];
        runs = λ found. rw (scan_function, leaf) refl;
        sound = λ d h. elim (Memᴰ.cases_cons h) [ inl e ↦ inl e | inr t ↦ absurd (Memᴰ.not-nil t) ];
        complete = λ d h. elim h [
          | inl e ↦ Memᴰ.head e
          | inr t ↦ let bad : true ≡ false = cc (t.0, leaf) in cc bad
        ];
      }
    ]

    functions-Adds :
        (s k j : ℕ)
        → s < 32
        → j + k ≤ 8
        → absent info m bus s 0 ≡ false
        → has_functions info m bus s ≡ true
        → Adds (scan_functions info m rec bus s k j) (AtFunctions bus s k j)
    unfolding scan_functions AtFunctions
    functions-Adds s zero j lo hi first several = Adds-none _ (λ d h. omega (arith, h.1, h.2))
    functions-Adds s (suc k) j lo hi first several =
        let rest = functions-Adds s k (j + 1) lo (omega arith) first several in
        elim (Bool-cases (absent info m bus s j)) [
          | inl none_here ↦
              Adds-mono _ _ _ _ rest (λ found. rw (before, none_here) refl)
                (λ d h. (h.0, omega (arith, h.1), omega (arith, h.2), h.3, h.4))
                (λ d h. elim (ℕ_discrete h.0 j) [
                  | yes e ↦
                      let bad : true ≡ false =
                        sym none_here ∙ ap (absent info m bus s) (sym e) ∙ h.3 in
                      cc bad
                  | no ne ↦ (h.0, omega (arith, h.1, ne), omega (arith, h.2), h.3, h.4)
                ])
          | inr one_here ↦
              let shown : IsAsked bus s j = record {
                slots = lo;
                functions = omega arith;
                first = first;
                itself = one_here;
                announced = inr several;
              } in
              Adds-mono _ _ _ _ (Adds-before _ _ _ _ (function-Adds s j shown) rest)
                (λ found. rw (before, one_here) refl)
                (λ d h. elim h [
                  | inl l ↦ (j, omega arith, omega arith, one_here, l)
                  | inr r ↦ (r.0, omega (arith, r.1), omega (arith, r.2), r.3, r.4)
                ])
                (λ d h. elim (ℕ_discrete h.0 j) [
                  | yes e ↦ inl (subst (λ f. AtFunction bus s f d) e h.4)
                  | no ne ↦ inr (h.0, omega (arith, h.1, ne), omega (arith, h.2), h.3, h.4)
                ])
        ]

    slot-Adds : (s : ℕ) → s < 32 → Adds (scan_slot info m rec bus s) (AtSlot bus s)
    unfolding scan_slot AtSlot AtFunctions
    slot-Adds s lo = elim (Bool-cases (absent info m bus s 0)) [
      | inl none_here ↦
          Adds-mono _ _ _ _
            (Adds-none (AtSlot bus s)
              (λ d h. let bad : true ≡ false = sym none_here ∙ h.1.first in cc bad))
            (λ found. rw (scan_slot, none_here) refl) (λ d h. h) (λ d h. h)
      | inr first ↦ elim (Bool-cases (has_functions info m bus s)) [
        | inl several ↦
            Adds-mono _ _ _ _ (functions-Adds s 8 0 lo (omega arith) first several)
              (λ found. rw (scan_slot, first, several) refl)
              (λ d h. (
                h.0,
                record {
                  slots = lo;
                  functions = omega (arith, h.2);
                  first = first;
                  itself = h.3;
                  announced = inr several;
                },
                h.4,
              ))
              (λ d h. (h.0, omega arith, omega (arith, h.1.functions), h.1.itself, h.2))
        | inr single ↦
            let shown : IsAsked bus s 0 = record {
              slots = lo;
              functions = omega arith;
              first = first;
              itself = first;
              announced = inl refl;
            } in
            Adds-mono _ _ _ _ (function-Adds s 0 shown)
              (λ found. rw (scan_slot, first, single) refl) (λ d h. (0, shown, h))
              (λ d h. elim h.1.announced [
                | inl e ↦ subst (λ f. AtFunction bus s f d) e h.2
                | inr t ↦ let bad : true ≡ false = sym t ∙ single in cc bad
              ])
      ]
    ]

    slots-Adds : (k i : ℕ) → i + k ≤ 32 → Adds (scan_slots info m rec bus k i) (AtSlots bus k i)
    unfolding scan_slots AtSlots
    slots-Adds zero i hi = Adds-none _ (λ d h. omega (arith, h.1, h.2))
    slots-Adds (suc k) i hi =
        Adds-mono _ _ _ _
          (Adds-before _ _ _ _ (slot-Adds i (omega arith)) (slots-Adds k (i + 1) (omega arith)))
          (λ found. refl)
          (λ d h. elim h [
            | inl l ↦ (i, omega arith, omega arith, l)
            | inr r ↦ (r.0, omega (arith, r.1), omega (arith, r.2), r.3)
          ])
          (λ d h. elim (ℕ_discrete h.0 i) [
            | yes e ↦ inl (subst (λ s. AtSlot bus s d) e h.3)
            | no ne ↦ inr (h.0, omega (arith, h.1, ne), omega (arith, h.2), h.3)
          ])

  -- What the slots show together is what the bus shows.
  AtSlots-Pushed : (bus : ℕ) (d : Device) → AtSlots bus 32 0 d → Pushed bus d
  unfolding AtSlots AtFunction
  AtSlots-Pushed bus d h =
      let (f, shown, at) = h.3 in
      elim at [ inl e ↦ subst (Pushed bus) (sym e) (here shown) | inr b ↦ behind shown b.0 b.1 ]

  Pushed-AtSlots : (bus : ℕ) (d : Device) → Pushed bus d → AtSlots bus 32 0 d
  unfolding AtSlots AtFunction
  Pushed-AtSlots bus _ (here {slot} {func} shown) =
      (slot, omega arith, omega (arith, shown.slots), (func, shown, inl refl))
  Pushed-AtSlots bus d (behind {slot} {func} shown bridge far) =
      (slot, omega arith, omega (arith, shown.slots), (func, shown, inr (bridge, far)))

  module _
      (deeper : (b s f : ℕ)
        → b < 256
        → info.root_bus ≤ b
        → IsAsked b s f
        → is_bridge info m b s f ≡ true
        → b < secondary_bus info m b s f) where
    scan-Adds :
        (fuel bus : ℕ)
        → bus < 256
        → info.root_bus ≤ bus
        → 256 ≤ fuel + bus
        → Adds (pci_scan info m fuel bus) (Pushed bus)
    unfolding pci_scan secondary_bus
    scan-Adds zero bus lo hi enough = absurd (omega arith)
    scan-Adds (suc fuel) bus lo hi enough =
        Adds-mono _ _ _ _
          (slots-Adds (pci_scan info m fuel) bus
            (λ s f shown bridge.
              scan-Adds fuel (secondary_bus info m bus s f) (omega arith)
                (omega (arith, hi, deeper bus s f lo hi shown bridge))
                (omega (arith, deeper bus s f lo hi shown bridge)))
            32 0 (omega arith))
          (λ found. refl) (AtSlots-Pushed bus) (Pushed-AtSlots bus)

    -- Where every bridge leads to a bus with a higher number, 256 - bus levels of recursion are
    -- enough: the scan ends, and it pushes exactly the functions that answer on the bus and on the
    -- buses that bridges reach from it, behind what was found before.
    pub pci_scan-Pushed :
        (fuel bus : ℕ) (found : List Device)
        → bus < 256
        → info.root_bus ≤ bus
        → 256 ≤ fuel + bus
        → (new : List Device) × (pci_scan info m fuel bus found ≡ some (found ++ new))
          × ((d : Device) → Memᴰ d new → Pushed bus d)
          × ((d : Device) → Pushed bus d → Memᴰ d new)
    pci_scan-Pushed fuel bus found lo hi enough =
        let a = scan-Adds fuel bus lo hi enough in (a.new, a.runs found, a.sound, a.complete)
