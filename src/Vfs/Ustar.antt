-- ===== src/Vfs/Ustar.antt =====
-- One entry of the initial archive (`transmute_to_ramfs`, kernel/src/vfs/ustar.rs). The header's
-- strings are those before the first zero byte.
pub mod Loss
use nyaux_kc.Base.{
  ℕ, zero, suc, ◌+◌, ◌-◌, ◌*◌, ◌^◌, ◌≤◌, ◌<◌, ◌≡◌, refl, Bool, true, false, not, ◌&&◌, ◌||◌, Option,
  none, some, List, [], ◌∷◌, ◌++◌, arith, length, has, leb, ltb, ◌==◌, if◌then◌else◌, M, pure,
  fault, ◌>>=◌, ◌>>◌, Returns, Bool-cases, inl, inr, ◌∙◌, sym, ap,
}
use nyaux_kc.Errno.{EResult, ok, err}
use nyaux_kc.Vfs.{
  Str, same_str, Dentry, Vops, ramfsfile, ramfsdir, vreg, vdir, Vnode, Vnodes, new_vnode, put,
  slash, split, split_terminator, vops_lookup, vops_mkdir, vops_create, Method, call, load,
}
use nyaux_kc.Vfs.Bytes.{take}
use nyaux_kc.Vfs.Files.{ℤ, vops_write}

-- The fields that are used of `ustar_inode`.
pub record UstarInode : Type 0 where
  pub name : Str
  pub file_size : Str
  pub typ : ℕ
  pub ustar_ind : Str

-- `usize::from_str_radix(.., 8)`: digits below 2 ^ 64, behind a `+` or not.
abbrev octal_digits : ℕ → Str → Option ℕ
octal_digits n [] = some n
octal_digits n (c ∷ cs) =
    let rest = octal_digits (n * 8 + (c - 48)) cs in
    if (leb 48 c && leb c 55) && ltb (n * 8 + (c - 48)) (2 ^ 64) then rest else none

abbrev some_digits : Str → Option ℕ
some_digits [] = none
some_digits (c ∷ cs) = octal_digits 0 (c ∷ cs)

abbrev pub octal_to_num : Str → Option ℕ
octal_to_num [] = none
octal_to_num (c ∷ cs) = if c == 0x2B then some_digits cs else some_digits (c ∷ cs)

-- `unwrap` of an `Option` and of an `EResult`.
abbrev pub unwrap_some : {A : Type 0} → Option A → M Vnodes A
unwrap_some none = fault
unwrap_some (some a) = pure a

abbrev pub unwrap_ok : EResult ℕ → M Vnodes ℕ
unwrap_ok (ok v) = pure v
unwrap_ok (err e) = fault

-- `v_data.write(buf, offset)`
abbrev pub write_method : List ℕ → ℕ → Method ℤ
write_method buf offset d s = elim (vops_write buf offset d) [
  | none ↦ none
  | some (r, e) ↦ some (r, e, s)
]

-- "ustar"
abbrev pub magic : Str
magic = 117 ∷ 115 ∷ 116 ∷ 97 ∷ 114 ∷ []

abbrev pub ustar_file : ℕ
ustar_file = 48

abbrev pub ustar_dir : ℕ
ustar_dir = 53

-- The `match` for a last component that does not exist, at the node `cur`. The write goes to `cur`.
pub make_last : UstarInode → ℕ → List ℕ → Str → ℕ → M Vnodes (Unit {0})
make_last h fz ptr i cur = do
  meow ← load cur
  if h.typ == ustar_file
      then (do
        r ← call (vops_create meow.v_vfs i) cur
        unwrap_ok r
        if (fz == 0) || ltb (length ptr) fz
            then fault
            else do call (write_method (take fz ptr) 0) cur; pure tt)
      else (if h.typ == ustar_dir
          then (do r ← call (vops_mkdir meow.v_vfs i) cur; unwrap_ok r; pure tt)
          else pure tt)

abbrev pub last_of : List Str → Option Str
last_of [] = none
last_of (p ∷ []) = some p
last_of (p ∷ q ∷ ps) = last_of (q ∷ ps)

pub transmute_loop : UstarInode → ℕ → List ℕ → Str → List Str → ℕ → M Vnodes (Unit {0})
unfolding make_last
transmute_loop h fz ptr lastcomp [] cur = pure tt
transmute_loop h fz ptr lastcomp ([] ∷ rest) cur = transmute_loop h fz ptr lastcomp rest cur
transmute_loop h fz ptr lastcomp ((c ∷ cs) ∷ rest) cur = do
  meow ← load cur
  elim (vops_lookup (c ∷ cs) meow.v_data) [
    | some found ↦ transmute_loop h fz ptr lastcomp rest found
    | none ↦
        if same_str (c ∷ cs) lastcomp
        then (make_last h fz ptr (c ∷ cs) cur >> transmute_loop h fz ptr lastcomp rest cur)
        else (do
          r ← call (vops_mkdir meow.v_vfs (c ∷ cs)) cur
          new ← unwrap_ok r
          transmute_loop h fz ptr lastcomp rest new)
  ]

pub transmute_to_ramfs : UstarInode → List ℕ → ℕ → M Vnodes ℕ
unfolding transmute_loop
transmute_to_ramfs h ptr fs =
    if not (same_str h.ustar_ind magic) || same_str h.name [] then fault else do
      fz ← unwrap_some (octal_to_num h.file_size)
      lastcomp ← unwrap_some (last_of (split_terminator h.name))
      transmute_loop h fz ptr lastcomp (split_terminator h.name) fs
      pure fz
