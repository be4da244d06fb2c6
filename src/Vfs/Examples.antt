-- ===== src/Vfs/Examples.antt =====
-- A root directory with one file in it.
use nyaux_kc.Base.{
  ℕ, ◌≡◌, ◌≢◌, refl, Option, none, some, List, [], ◌∷◌, arith, if◌then◌else◌, ◌==◌, Returns, ◌⊎◌,
}
use nyaux_kc.Errno.{ok, err, ebusy}
use nyaux_kc.Vfs.{
  Str, Dentry, Vops, ramfsfile, ramfsdir, vreg, vdir, new_vnode, Vnodes, slash, vops_lookup,
  vops_mkdir, vops_create, call, mount, lookup,
}
use nyaux_kc.Vfs.Files.{pos, vops_read, vops_write}
use nyaux_kc.Vfs.Files.Reads.{write-read}
use nyaux_kc.Vfs.Names.{IsCreated, IsDir, IsMade, mkdir-IsMade, create-IsMade}
use nyaux_kc.Vfs.Paths.{path_of, walk, lookup-walk}
use nyaux_kc.Vfs.Ustar.{UstarInode, magic, ustar_file, transmute_to_ramfs}
use nyaux_kc.Vfs.Ustar.Loss.{transmute_to_ramfs-loses}
use nyaux_kc.Vfs.Mounts.{IsMounted, mount-IsMounted}

-- "a" and "b"
abbrev name_a : Str
name_a = 0x61 ∷ []

abbrev name_b : Str
name_b = 0x62 ∷ []

abbrev entries : List Dentry
entries = record { name = name_a; inner = some 1 } ∷ []

abbrev root : Vnodes
root = record {
  at = λ a.
      if a == 0
      then new_vnode (some 7) vdir (ramfsdir entries)
      else new_vnode (some 7) vreg (ramfsfile (1 ∷ 2 ∷ 3 ∷ []));
  count = 2;
}

root-IsDir : IsDir 0 entries root
root-IsDir = record { here = omega arith; objects = refl; filled = ((1, refl, omega arith), tt) }

-- "/a" leads to the file, and "/b" nowhere.
lookups : (lookup 0 (slash ∷ name_a) root ≡ some 1) × (lookup 0 (slash ∷ name_b) root ≡ none)
unfolding lookup
lookups = (refl, refl)

write-read_example :
    (new : List ℕ) × (vops_write (8 ∷ 9 ∷ []) 5 (ramfsfile (1 ∷ [])) ≡ some (pos 2, ramfsfile new))
    × (vops_read (4 ∷ 4 ∷ []) 5 (ramfsfile new) ≡ some (pos 2, 8 ∷ 9 ∷ []))
write-read_example = write-read (8 ∷ 9 ∷ []) (4 ∷ 4 ∷ []) 5 (1 ∷ []) (omega arith) refl

mkdir-IsMade_example :
    Returns
      (λ r u. (r ≡ ok 2) × IsMade 0 entries name_a vdir (ramfsdir []) root u)
      (call (vops_mkdir (some 7) name_a) 0 root)
mkdir-IsMade_example = mkdir-IsMade 0 entries name_a root root-IsDir

create-IsMade_example :
    Returns (IsCreated 0 entries name_b root) (call (vops_create (some 7) name_b) 0 root)
create-IsMade_example = create-IsMade 0 entries name_b root root-IsDir

lookup-walk_example :
    lookup 0 (path_of (name_a ∷ name_b ∷ [])) root ≡ walk root 0 (name_a ∷ name_b ∷ [])
lookup-walk_example =
    lookup-walk 0 (name_a ∷ name_b ∷ []) root ((λ e. cc e), refl, ((λ e. cc e), refl, tt))

mount-IsMounted_example :
    Returns
      (λ r u.
        ((◌≡◌ {A = Option Vops} none none) × (r ≡ ok tt) × IsMounted 0 (ramfsdir []) root u)
        ⊎ ((◌≢◌ {A = Option Vops} none none) × (r ≡ err ebusy) × (u ≡ root)))
      (mount 0 (ramfsdir []) root)
mount-IsMounted_example = mount-IsMounted 0 (ramfsdir []) root tt

-- A file "b" of three bytes.
abbrev header_b : UstarInode
header_b = record {
  name = name_b;
  file_size = 0x30 ∷ 0x33 ∷ [];
  typ = ustar_file;
  ustar_ind = magic;
}

transmute_to_ramfs-loses_example :
    Returns
      (λ r u.
        (r ≡ 3) × (vops_lookup name_b (u.at 0).v_data ≡ some 2) × ((u.at 2).v_data ≡ ramfsfile []))
      (transmute_to_ramfs header_b (1 ∷ 2 ∷ 3 ∷ 4 ∷ []) 0 root)
unfolding vops_lookup
transmute_to_ramfs-loses_example =
    transmute_to_ramfs-loses header_b 3 (1 ∷ 2 ∷ 3 ∷ 4 ∷ []) 0 entries root 0x62 [] root-IsDir refl
      refl refl refl refl refl (omega arith) (omega arith)
