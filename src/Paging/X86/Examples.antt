-- ===== src/Paging/X86/Examples.antt =====
-- Four levels, an empty root table and three free pages.
use nyaux_kc.Base.{true, false, none, some, [], ◌∷◌, ◌==◌, if◌then◌else◌}
use nyaux_kc.Paging.{Ram, ram}
use nyaux_kc.Paging.Format.{Label}
use nyaux_kc.Paging.X86.{Pt}

abbrev framebuffer : Pt
framebuffer = record {
  present = true;
  write = true;
  user = false;
  nexec = true;
  global = true;
  gigapage = false;
  megapage = false;
  pwt = true;
  pcd = false;
  pat = true;
}

abbrev empty_tables : Ram
empty_tables = ram (λ a. 0) (0x2000 ∷ 0x3000 ∷ 0x4000 ∷ [])

abbrev only_root : Label
only_root a = if a == 0x1000 then some [] else none
