-- ===== src/Acpi/Devices/Handles.antt =====
-- Handles from when they are opened to when they are closed (kernel/src/uacpi/mod.rs).
use nyaux_kc.Base.{
  ℕ, ◌≡◌, ◌≢◌, refl, Bool-cases, inl, inr, Option, none, some, List, ◌∷◌, ◌==◌, ==→eq, ==_self,
  ne→==, ap, sym, ◌∙◌, M, Returns,
}
use nyaux_kc.Acpi.Devices.{
  PciAddress, Boxed, pci_address, io_range, Devices, put, new_box, drop_box,
  uacpi_kernel_pci_device_open, uacpi_kernel_pci_device_close, uacpi_kernel_io_map,
  uacpi_kernel_io_unmap,
}

-- Opening yields a handle for the box, with all others as before; closing it leaves the boxes that
-- were there at first.
abbrev pub OpensCloses :
    {Io : Type 0} → Boxed → Devices Io → M (Devices Io) ℕ → (ℕ → M (Devices Io) (Unit {0})) → Type 0
OpensCloses b s opening closing =
    Returns
      (λ handle t.
        (t.boxes handle ≡ some b)
        × ((other : ℕ) → other ≢ handle → t.boxes other ≡ s.boxes other)
        × Returns (λ _ u. (p : ℕ) → u.boxes p ≡ s.boxes p) (closing handle t))
      (opening s)

module _ {Io : Type 0} (s : Devices Io) (a : ℕ) (rest : List ℕ) (given : s.fresh ≡ a ∷ rest)
    (unused : s.boxes a ≡ none) where
  closed : (b : Option Boxed) (p : ℕ) → put (put s.boxes a b) a none p ≡ s.boxes p
  closed b p = elim (Bool-cases (p == a)) [
    | inl here ↦ rw (here, ==→eq p a here) (sym unused)
    | inr other ↦ rw other refl
  ]

  closing :
      (b : Boxed) (t : Devices Io)
      → t.boxes ≡ put s.boxes a (some b)
      → Returns (λ _ u. (p : ℕ) → u.boxes p ≡ s.boxes p) (drop_box a t)
  closing b t same =
      let here : t.boxes a ≡ some b = ap (λ f. f a) same ∙ rw (==_self a) refl in
      rw (drop_box, here, Returns) (λ p. rw same (closed (some b) p))

  box-OpensCloses : (b : Boxed) → OpensCloses b s (new_box b) drop_box
  box-OpensCloses b =
      rw (new_box, given)
        (rw (==_self a) refl, (λ other apart. rw (ne→== other a apart) refl), closing b _ refl)

  -- At a free address for the box, a device and a range of ports are opened under a handle of their
  -- own, which disturbs no other, and closing it leaves the boxes that were there before.
  pub open-close :
      (address : PciAddress) (base len : ℕ)
      → OpensCloses
          (pci_address address)
          s
          (uacpi_kernel_pci_device_open address)
          uacpi_kernel_pci_device_close
        × OpensCloses
            (io_range (record { base = base; len = len }))
            s
            (uacpi_kernel_io_map base len)
            uacpi_kernel_io_unmap
  unfolding uacpi_kernel_pci_device_open uacpi_kernel_pci_device_close uacpi_kernel_io_map
      uacpi_kernel_io_unmap
  open-close address base len = (
    box-OpensCloses (pci_address address),
    box-OpensCloses (io_range (record { base = base; len = len })),
  )
