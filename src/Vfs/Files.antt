-- ===== src/Vfs/Files.antt =====
-- `read` and `write` of `vops` (kernel/src/vfs/ramfs.rs).
pub mod Reads
pub mod Writes
use nyaux_kc.Base.{
  ℕ, zero, suc, ◌+◌, ◌-◌, ◌^◌, ◌≤◌, ◌<◌, ◌≡◌, refl, Bool, true, false, ◌&&◌, Option, none, some,
  List, [], ◌∷◌, ◌++◌, arith, length, ltb, leb, min, max, if◌then◌else◌, length-append, Bool-cases,
  inl, inr, ◌∙◌, sym, ap, lt→ltb, lt→leb, ltb→lt, dec_lt, subst, guarded, leb→le,
}
use mathlib.Core.List.{append-nil}
use nyaux_kc.Vfs.{Vops, ramfsfile, ramfsdir, nullfs}
use nyaux_kc.Vfs.Bytes.{
  take, drop, resize, byte, length-take, length-drop, length-resize, byte-take, byte-drop,
  byte-resize, byte-append-left, byte-append-right, take-append, drop-append, drop_all,
}

-- `isize`
pub data ℤ : Type 0 where
  pos : ℕ → ℤ
  negsuc : ℕ → ℤ

-- The caller's buffer after the read is part of the result.
pub vops_read : List ℕ → ℕ → Vops → Option (ℤ × List ℕ)
vops_read buf offset (ramfsfile file) =
    if leb (length file) offset
    then some (pos 0, buf)
    else let byte_amount = min (length buf) (length file - offset) in
      some (pos byte_amount, take byte_amount (drop offset file) ++ drop byte_amount buf)
vops_read buf offset (ramfsdir entries) = some (negsuc 0, buf)
vops_read buf offset nullfs = none

-- The file with the range that begins at `offset` replaced.
abbrev pub spliced : List ℕ → ℕ → List ℕ → List ℕ
spliced buf offset file = take offset file ++ (buf ++ drop (offset + length buf) file)

-- `self.buf[offset..offset + buf.len()].copy_from_slice(buf)`; a range that ends behind the file is a
-- panic.
abbrev pub copy_into : List ℕ → ℕ → List ℕ → Option (List ℕ)
copy_into buf offset file =
    if leb (offset + length buf) (length file) then some (spliced buf offset file) else none

abbrev pub grown : ℕ → List ℕ → List ℕ
grown n file = if ltb (length file) n then resize n file else file

-- A file that would be 2 ^ 63 bytes long or longer is a panic: `Vec` holds at most `isize::MAX`
-- bytes, and a sum that overflows is no end of a slice.
pub vops_write : List ℕ → ℕ → Vops → Option (ℤ × Vops)
vops_write buf offset (ramfsfile file) =
    if ltb (offset + length buf) (2 ^ 63)
    then elim (copy_into buf offset (grown (offset + length buf) file)) [
      | none ↦ none
      | some new ↦ some (pos (length buf), ramfsfile new)
    ]
    else none
vops_write buf offset (ramfsdir entries) = some (negsuc 0, ramfsdir entries)
vops_write buf offset nullfs = none
