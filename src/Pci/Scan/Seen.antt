-- ===== src/Pci/Scan/Seen.antt =====
-- What the bus scan finds, in terms of the bytes that devices show (`pci_scan` of
-- kernel/src/pci/mod.rs).
use mathlib.Core.List.{Memᴰ}
use nyaux_kc.Base.{
  ℕ, ◌+◌, ◌*◌, ◌/◌, ◌%◌, ◌^◌, ◌≤◌, ◌<◌, ◌≡◌, refl, sym, ap, ◌∙◌, true, false, Bool, ◌&&◌, not, List,
  ◌++◌, ◌==◌, some, ◌⊎◌, inl, inr, arith, subst,
}
use nyaux_kc.Pci.{PciInfo, Bytes, config_address, dword_at, pci_read_word, pci_read_dword}
use nyaux_kc.Pci.Access.{above_base, address_above_base}
use nyaux_kc.Pci.Scan.{
  Device, pci_device_print, absent, has_functions, is_bridge, secondary_bus, pci_scan,
}
use nyaux_kc.Pci.Scan.Pushed.{IsAsked, Pushed, here, behind, pci_scan-Pushed}

module _ (info : PciInfo) (m : Bytes) where
  -- The byte of a function's configuration space at an offset.
  abbrev pub shown_byte : (bus slot func offset : ℕ) → ℕ
  shown_byte bus slot func offset = m (info.ecam_base_addr + above_base info bus slot func offset)

  -- The vendor at 0x0 is not 0xffff.
  abbrev pub answers : (bus slot func : ℕ) → Bool
  answers bus slot func =
      not (shown_byte bus slot func 0x0 + 0x100 * shown_byte bus slot func 0x1 == 0xffff)

  -- Bit 7 of the header type at 0xe: there are other functions.
  abbrev pub announces : (bus slot : ℕ) → Bool
  announces bus slot = shown_byte bus slot 0 0xe / 0x80 % 2 == 1

  -- The class at 0xb is that of bridges, and the subclass at 0xa that of bridges to another bus.
  abbrev pub leads_on : (bus slot func : ℕ) → Bool
  leads_on bus slot func = shown_byte bus slot func 0xb == 6 && shown_byte bus slot func 0xa == 4

  -- The number of the bus behind a bridge, at 0x19.
  abbrev pub bus_behind : (bus slot func : ℕ) → ℕ
  bus_behind bus slot func = shown_byte bus slot func 0x19

  -- The function answers, and it is the first one of its slot or the first one answers and announces
  -- others.
  pub record IsShown (bus slot func : ℕ) : Type 0 where
    pub slots : slot < 32
    pub functions : func < 8
    pub first : answers bus slot 0 ≡ true
    pub itself : answers bus slot func ≡ true
    pub announced : (func ≡ 0) ⊎ (announces bus slot ≡ true)

  -- The devices on a bus and on the buses behind its bridges.
  pub data Seen : ℕ → Device → Type 0 where
    on_bus : {bus slot func : ℕ} → IsShown bus slot func → Seen bus (bus, slot, func)
    beyond :
        {bus slot func : ℕ} {d : Device}
        → IsShown bus slot func
        → leads_on bus slot func ≡ true
        → Seen (bus_behind bus slot func) d
        → Seen bus d

  module _ (space : info.ecam_base_addr + 2 ^ 28 ≤ 2 ^ 64) (bytes : (a : ℕ) → m a < 256) where
    -- What the code reads of a function.
    module _ (bus slot func : ℕ) (from_root : info.root_bus ≤ bus) (bus_byte : bus < 256)
        (slots : slot < 32) (functions : func < 8) where
      address :
          (offset : ℕ)
          → offset % 4 ≡ 0
          → offset < 4096
          → config_address info bus slot func offset
            ≡ info.ecam_base_addr + above_base info bus slot func offset
      address offset aligned in_space = address_above_base info space bus slot func offset (record {
        from_root = from_root;
        bus_byte = bus_byte;
        slot_bits = slots;
        func_bits = functions;
        in_space = in_space;
        aligned = aligned;
      })

      further :
          (offset i : ℕ)
          → info.ecam_base_addr + above_base info bus slot func (offset + i)
            ≡ info.ecam_base_addr + above_base info bus slot func offset + i
      further offset i = omega arith

      absent_same : absent info m bus slot func ≡ not (answers bus slot func)
      unfolding absent pci_read_word
      absent_same =
          rw (address 0x0 refl (omega arith), further 0x0 0x1)
            (not-not (
              m (info.ecam_base_addr + above_base info bus slot func 0x0)
                + 0x100 * m (info.ecam_base_addr + above_base info bus slot func 0x0 + 1)
              == 0xffff))
        where
          not-not : (b : Bool) → b ≡ not (not b)
          not-not true = refl
          not-not false = refl

      class_same : is_bridge info m bus slot func ≡ leads_on bus slot func
      unfolding is_bridge pci_device_print pci_read_dword
      class_same =
          let a = info.ecam_base_addr + above_base info bus slot func 0x8 in
          let class : dword_at m a / 2 ^ 24 % 256 ≡ m (a + 3) =
            omega (arith, bytes a, bytes (a + 1), bytes (a + 2), bytes (a + 3)) in
          let subclass : dword_at m a / 2 ^ 16 % 256 ≡ m (a + 2) =
            omega (arith, bytes a, bytes (a + 1), bytes (a + 2), bytes (a + 3)) in
          rw (address 0x8 refl (omega arith), class, subclass, further 0x8 0x3, further 0x8 0x2)
            refl

      bus_same : secondary_bus info m bus slot func ≡ bus_behind bus slot func
      unfolding secondary_bus pci_read_word
      bus_same =
          let a = info.ecam_base_addr + above_base info bus slot func 0x18 in
          rw (address 0x18 refl (omega arith), further 0x18 0x1)
            (omega (arith, bytes a, bytes (a + 1)))

    module _ (bus slot : ℕ) (from_root : info.root_bus ≤ bus) (bus_byte : bus < 256)
        (slots : slot < 32) where
      functions_same : has_functions info m bus slot ≡ announces bus slot
      unfolding has_functions pci_read_dword
      functions_same =
          let a = info.ecam_base_addr + above_base info bus slot 0 0xc in
          let kind : dword_at m a / 2 ^ 16 % 256 ≡ m (a + 2) =
            omega (arith, bytes a, bytes (a + 1), bytes (a + 2), bytes (a + 3)) in
          rw
            (
              address bus slot 0 from_root bus_byte slots (omega arith) 0xc refl (omega arith),
              kind,
              further bus slot 0 from_root bus_byte slots (omega arith) 0xc 0x2,
            )
            refl

      shown-IsAsked : (func : ℕ) → IsShown bus slot func → IsAsked info m bus slot func
      shown-IsAsked func shown = record {
        slots = slots;
        functions = shown.functions;
        first = absent_same bus slot 0 from_root bus_byte slots (omega arith) ∙ ap not shown.first;
        itself =
            absent_same bus slot func from_root bus_byte slots shown.functions
            ∙ ap not shown.itself;
        announced = elim shown.announced [
          | inl only ↦ inl only
          | inr others ↦ inr (functions_same ∙ others)
        ];
      }

      asked-IsShown : (func : ℕ) → IsAsked info m bus slot func → IsShown bus slot func
      asked-IsShown func asked = record {
        slots = slots;
        functions = asked.functions;
        first =
            present _
              (sym (absent_same bus slot 0 from_root bus_byte slots (omega arith)) ∙ asked.first);
        itself = present _ (
            sym (absent_same bus slot func from_root bus_byte slots asked.functions)
            ∙ asked.itself);
        announced = elim asked.announced [
          | inl only ↦ inl only
          | inr others ↦ inr (sym functions_same ∙ others)
        ];
      }
        where
          present : (b : Bool) → not b ≡ false → b ≡ true
          present true h = refl
          present false h = cc h

    module _
        (deeper : (b s f : ℕ)
          → b < 256
          → info.root_bus ≤ b
          → IsShown b s f
          → leads_on b s f ≡ true
          → b < bus_behind b s f) where
      deeper_asked :
          (b s f : ℕ)
          → b < 256
          → info.root_bus ≤ b
          → IsAsked info m b s f
          → is_bridge info m b s f ≡ true
          → b < secondary_bus info m b s f
      deeper_asked b s f lo hi asked bridge =
          let on = sym (class_same b s f hi lo asked.slots asked.functions) ∙ bridge in
          omega (
            arith,
            bus_same b s f hi lo asked.slots asked.functions,
            deeper b s f lo hi (asked-IsShown b s hi lo asked.slots f asked) on,
          )

      Pushed-Seen :
          (bus : ℕ) (d : Device)
          → bus < 256
          → info.root_bus ≤ bus
          → Pushed info m bus d
          → Seen bus d
      Pushed-Seen bus _ lo hi (here {slot} {func} asked) =
          on_bus (asked-IsShown bus slot hi lo asked.slots func asked)
      Pushed-Seen bus d lo hi (behind {slot} {func} asked bridge far) =
          let same = bus_same bus slot func hi lo asked.slots asked.functions in
          let on = sym (class_same bus slot func hi lo asked.slots asked.functions) ∙ bridge in
          let next = deeper_asked bus slot func lo hi asked bridge in
          let below : secondary_bus info m bus slot func < 256 =
            omega (arith, same, bytes (info.ecam_base_addr + above_base info bus slot func 0x19)) in
          beyond (asked-IsShown bus slot hi lo asked.slots func asked) on (
            subst (λ b. Seen b d) same
              (Pushed-Seen (secondary_bus info m bus slot func) d below (omega arith) far))

      Seen-Pushed :
          (bus : ℕ) (d : Device)
          → bus < 256
          → info.root_bus ≤ bus
          → Seen bus d
          → Pushed info m bus d
      Seen-Pushed bus _ lo hi (on_bus {slot} {func} shown) =
          here (shown-IsAsked bus slot hi lo shown.slots func shown)
      Seen-Pushed bus d lo hi (beyond {slot} {func} shown on far) =
          let same = bus_same bus slot func hi lo shown.slots shown.functions in
          let bridge = class_same bus slot func hi lo shown.slots shown.functions ∙ on in
          let next = deeper bus slot func lo hi shown on in
          behind (shown-IsAsked bus slot hi lo shown.slots func shown) bridge (
            subst (λ b. Pushed info m b d) (sym same)
              (Seen-Pushed (bus_behind bus slot func) d (bytes _) (omega arith) far))

      -- In a configuration space of bytes below 2 ^ 64, where every bridge, by the class that it
      -- shows, leads to a bus with a higher number, 256 - bus levels of recursion are enough: the
      -- scan of a bus from the root bus on ends, and the devices that it pushes behind what was
      -- found before are the functions that answer on the bus and on the buses that bridges reach
      -- from it, all of them and no others; one that several bridges reach may stand there
      -- repeatedly.
      pub pci_scan-Seen :
          (fuel bus : ℕ) (found : List Device)
          → bus < 256
          → info.root_bus ≤ bus
          → 256 ≤ fuel + bus
          → (new : List Device) × (pci_scan info m fuel bus found ≡ some (found ++ new))
            × ((d : Device) → Memᴰ d new → Seen bus d)
            × ((d : Device) → Seen bus d → Memᴰ d new)
      pci_scan-Seen fuel bus found lo hi enough =
          let (new, ran, sound, complete) =
            pci_scan-Pushed info m deeper_asked fuel bus found lo hi enough in
          (
            new,
            ran,
            (λ d h. Pushed-Seen bus d lo hi (sound d h)),
            (λ d h. complete d (Seen-Pushed bus d lo hi h)),
          )
