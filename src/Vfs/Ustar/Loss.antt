-- ===== src/Vfs/Ustar/Loss.antt =====
-- What becomes of a file of the initial archive (kernel/src/vfs/ustar.rs).
use nyaux_kc.Base.{
  ge→ltb, ℕ, ◌≤◌, ◌<◌, ◌≡◌, refl, false, none, some, List, [], ◌∷◌, arith, length, has, ◌==◌, ◌>>=◌,
  ◌>>◌, Returns, inl, inr, ◌∙◌, ap, run_of_Returns, pos→ne_zero,
}
use nyaux_kc.Errno.{ok}
use nyaux_kc.Vfs.{
  Str, Dentry, ramfsfile, ramfsdir, Vnodes, put, slash, split, split_terminator, vops_lookup,
  vops_create, call, drop_last_empty, create_entry,
}
use nyaux_kc.Vfs.Bytes.{take}
use nyaux_kc.Vfs.Files.{negsuc}
use nyaux_kc.Vfs.Files.Writes.{vops_write-ramfsdir}
use nyaux_kc.Vfs.Names.{
  IsCreated, IsDir, find_inner, create-IsMade, put_back, call_run, same_str_self,
}
use nyaux_kc.Vfs.Ustar.{
  UstarInode, octal_to_num, write_method, magic, ustar_file, make_last, transmute_loop,
  transmute_to_ramfs,
}

-- A name without a separator is one piece.
split_plain : (p : Str) → has slash p ≡ false → split p ≡ p ∷ []
unfolding split
split_plain [] h = refl
split_plain (d ∷ ds) h =
    let apart : (d == slash) ≡ false = ground arith in
    let later : has slash ds ≡ false = ground arith in rw (apart, split_plain ds later)

split_terminator_plain :
    (c : ℕ) (cs : Str) → has slash (c ∷ cs) ≡ false → split_terminator (c ∷ cs) ≡ (c ∷ cs) ∷ []
unfolding split_terminator
split_terminator_plain c cs h = ap drop_last_empty (split_plain (c ∷ cs) h)

-- The state after the write to a directory: as it was.
abbrev rewritten : ℕ → List Dentry → Vnodes → Vnodes
rewritten n es u = record u { at = put u.at n (record (u.at n) { v_data = ramfsdir es }) }

write_dir :
    (buf : List ℕ) (n : ℕ) (es : List Dentry) (u : Vnodes)
    → (u.at n).v_data ≡ ramfsdir es
    → call (write_method buf 0) n u ≡ some (negsuc 0, rewritten n es u)
write_dir buf n es u e =
    call_run (write_method buf 0) n u u (negsuc 0) (ramfsdir es)
      (rw (e, write_method, vops_write-ramfsdir buf 0 es) refl)

make_last_file :
    (h : UstarInode) (fz : ℕ) (ptr : List ℕ) (i : Str) (n k : ℕ) (es : List Dentry) (s u : Vnodes)
    → h.typ ≡ ustar_file
    → 0 < fz
    → fz ≤ length ptr
    → call (vops_create (s.at n).v_vfs i) n s ≡ some (ok k, u)
    → (u.at n).v_data ≡ ramfsdir es
    → make_last h fz ptr i n s ≡ some (tt, rewritten n es u)
unfolding make_last
make_last_file h fz ptr i n k es s u is_file some_bytes enough made dir =
    rw
      (
        is_file,
        make_last,
        ◌>>=◌,
        made,
        pos→ne_zero fz some_bytes,
        ge→ltb (length ptr) fz enough,
        write_dir (take fz ptr) n es u dir,
      )
      refl

module _ (h : UstarInode) (fz : ℕ) (ptr : List ℕ) (n : ℕ) (es : List Dentry) (s : Vnodes) (c : ℕ)
    (cs : Str) where
  module _ (u : Vnodes) (made : make_last h fz ptr (c ∷ cs) n s ≡ some (tt, u)) where
    loop_one :
        (s.at n).v_data ≡ ramfsdir es
        → find_inner (c ∷ cs) es ≡ none
        → transmute_loop h fz ptr (c ∷ cs) ((c ∷ cs) ∷ []) n s ≡ some (tt, u)
    unfolding transmute_loop
    loop_one dir absent = rw (transmute_loop, ◌>>=◌, dir, absent, same_str_self (c ∷ cs), made) refl

    transmute_one :
        (s.at n).v_data ≡ ramfsdir es
        → find_inner (c ∷ cs) es ≡ none
        → h.name ≡ c ∷ cs
        → has slash (c ∷ cs) ≡ false
        → h.ustar_ind ≡ magic
        → octal_to_num h.file_size ≡ some fz
        → transmute_to_ramfs h ptr n s ≡ some (fz, u)
    unfolding transmute_to_ramfs
    transmute_one dir absent named plain marked sized =
        rw
          (
            marked,
            named,
            transmute_to_ramfs,
            ◌>>=◌,
            sized,
            named,
            split_terminator_plain c cs plain,
            named,
            split_terminator_plain c cs plain,
            ◌>>◌,
            loop_one dir absent,
          )
          refl

  -- An archive entry for a regular file, with the right magic, a size that is not 0 and is available,
  -- and a name that has no separator and is new in the directory that the walk begins in: the
  -- file is made, but it stays empty, since its bytes go to the directory, which takes none.
  pub transmute_to_ramfs-loses :
      IsDir n es s
      → h.name ≡ c ∷ cs
      → has slash (c ∷ cs) ≡ false
      → find_inner (c ∷ cs) es ≡ none
      → h.ustar_ind ≡ magic
      → h.typ ≡ ustar_file
      → octal_to_num h.file_size ≡ some fz
      → 0 < fz
      → fz ≤ length ptr
      → Returns
          (λ r u.
            (r ≡ fz)
            × (vops_lookup (c ∷ cs) (u.at n).v_data ≡ some s.count)
            × ((u.at s.count).v_data ≡ ramfsfile []))
          (transmute_to_ramfs h ptr n s)
  transmute_to_ramfs-loses dir named plain absent marked is_file sized some_bytes enough =
      let (r, u, ran, outcome) =
        run_of_Returns (IsCreated n es (c ∷ cs) s) _ (create-IsMade n es (c ∷ cs) s dir) in
      elim outcome [
        | inl (k, taken, _, _) ↦ absurd (cc (taken, absent))
        | inr (_, good, seen, made) ↦
            let e = create_entry (c ∷ cs) s.count es in
            let last =
              make_last_file h fz ptr (c ∷ cs) n s.count e s u is_file some_bytes enough
                (ran ∙ ap (λ x. some (x, u)) good) made.entries in
            let same = put_back n e u made.entries in
            rw (transmute_one (rewritten n e u) last dir.objects absent named plain marked sized)
              (refl, rw (same n) seen, rw (same s.count, made.fresh) refl)
      ]
