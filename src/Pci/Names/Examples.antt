-- ===== src/Pci/Names/Examples.antt =====
-- Names from the tables.
use nyaux_kc.Base.{◌≡◌, refl}
use nyaux_kc.Pci.Names.{vendor_name, first_arm, vendor_arms, prog_if_name, prog_if_arms}

virtio_name : vendor_name 0x1AF4 ≡ "VirtIO"
unfolding vendor_name first_arm vendor_arms
virtio_name = refl

unknown_interface : prog_if_name 0x01 0x01 0x77 ≡ "Unknown"
unfolding prog_if_name first_arm prog_if_arms
unknown_interface = refl
