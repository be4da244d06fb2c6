-- ===== src/Vfs/Names.antt =====
-- The entries of a directory (kernel/src/vfs/ramfs.rs): what `create` and `mkdir` do to lookups.
use nyaux_kc.Base.{
  ne→==, ℕ, ◌+◌, ◌<◌, ◌≡◌, ◌≢◌, refl, true, false, Option, none, some, List, [], ◌∷◌, arith, ◌==◌,
  if◌then◌else◌, Bool-cases, Option-cases, inl, inr, ==→eq, ==_self, Returns, ◌∙◌, sym, ap, ◌⊎◌,
}
use nyaux_kc.Errno.{EResult, ok, err, eexist}
use nyaux_kc.Vfs.{
  Str, same_str, Dentry, Vops, ramfsfile, ramfsdir, VType, vreg, vdir, new_vnode, Vnodes, put, find,
  vops_lookup, create_entry, vops_mkdir, vops_create, call, Method, make_entry,
}

pub same_str_self : (s : Str) → same_str s s ≡ true
same_str_self [] = refl
same_str_self (c ∷ cs) = rw (==_self c, same_str_self cs)

pub same_str→eq : (s t : Str) → same_str s t ≡ true → s ≡ t
same_str→eq [] [] h = refl
same_str→eq [] (d ∷ ds) h = cc
same_str→eq (c ∷ cs) [] h = cc
same_str→eq (c ∷ cs) (d ∷ ds) h = elim (Bool-cases (c == d)) [
  | inl e ↦ let t : same_str cs ds ≡ true = rw e at h in cc (==→eq c d e, same_str→eq cs ds t)
  | inr e ↦ let f : false ≡ true = rw e at h in cc f
]

-- Every entry leads to a vnode that exists.
abbrev pub IsFilled : ℕ → List Dentry → Type 0
IsFilled count [] = Unit
IsFilled count (e ∷ es) = ((k : ℕ) × (e.inner ≡ some k) × (k < count)) × IsFilled count es

abbrev pub find_inner : Str → List Dentry → Option ℕ
find_inner str es = vops_lookup str (ramfsdir es)

-- The first of two.
abbrev pub or_else : Option ℕ → Option ℕ → Option ℕ
or_else none o = o
or_else (some k) o = some k

-- An entry that is pushed is found under its name, unless an earlier one has that name.
pub find-create_entry :
    (str name : Str) (vn count : ℕ) (es : List Dentry)
    → IsFilled count es
    → find_inner str (create_entry name vn es)
      ≡ or_else (find_inner str es) (if same_str name str then some vn else none)
unfolding vops_lookup find
find-create_entry str name vn count [] filled = elim (Bool-cases (same_str name str)) [
  | inl h ↦ rw h
  | inr h ↦ rw h
]
find-create_entry str name vn count (e ∷ es) filled = elim (Bool-cases (same_str e.name str)) [
  | inl h ↦ rw (h, filled.0.1)
  | inr h ↦ rw h (find-create_entry str name vn count es filled.1)
]

-- The entries of a vnode are a directory's, and all of them lead to vnodes that exist.
pub record IsDir (n : ℕ) (es : List Dentry) (s : Vnodes) : Type 0 where
  pub here : n < s.count
  pub objects : (s.at n).v_data ≡ ramfsdir es
  pub filled : IsFilled s.count es

-- A new entry `name` was made in directory `n`, for a new vnode with the objects `ops`.
pub record IsMade (n : ℕ) (es : List Dentry) (name : Str) (t : VType) (ops : Vops) (s u : Vnodes)
    : Type 0 where
  pub count : u.count ≡ s.count + 1
  pub entries : (u.at n).v_data ≡ ramfsdir (create_entry name s.count es)
  pub fresh : u.at s.count ≡ new_vnode (s.at n).v_vfs t ops
  pub found :
      (str : Str)
      → vops_lookup str (u.at n).v_data
        ≡ or_else (find_inner str es) (if same_str name str then some s.count else none)
  pub others : (a : ℕ) → a ≢ n → a ≢ s.count → u.at a ≡ s.at a

make_entry-IsMade :
    (n : ℕ) (es : List Dentry) (name : Str) (t : VType) (ops : Vops) (s : Vnodes)
    → IsDir n es s
    → IsMade n es name t ops s (record {
      at =
          put
            (put s.at s.count (new_vnode (s.at n).v_vfs t ops))
            n
            (record (put s.at s.count (new_vnode (s.at n).v_vfs t ops) n) {
              v_data = ramfsdir (create_entry name s.count es);
            });
      count = s.count + 1;
    })
make_entry-IsMade n es name t ops s dir =
    let before : (s.count == n) ≡ false = ne→== s.count n (λ e. absurd (omega (arith, dir.here))) in
    record {
      count = refl;
      entries = rw (==_self n);
      fresh = rw (before, ==_self s.count);
      found = λ str. rw (==_self n) (find-create_entry str name s.count s.count es dir.filled);
      others = λ a ne_n ne_c. rw (ne→== a n ne_n, ne→== a s.count ne_c);
    }

pub call_run :
    {A : Type 0} (m : Method A) (n : ℕ) (s t : Vnodes) (a : A) (d : Vops)
    → m (s.at n).v_data s ≡ some (a, d, t)
    → call m n s ≡ some (a, record t { at = put t.at n (record (t.at n) { v_data = d }) })
unfolding call
call_run m n s t a d e = rw (e, call)

-- `mkdir` in a directory makes a new, empty directory, but never refuses a name that is taken: the
-- lookup of that name then still leads to the old vnode. No other lookup and no other vnode changes.
pub mkdir-IsMade :
    (n : ℕ) (es : List Dentry) (name : Str) (s : Vnodes)
    → IsDir n es s
    → Returns
        (λ r u. (r ≡ ok s.count) × IsMade n es name vdir (ramfsdir []) s u)
        (call (vops_mkdir (s.at n).v_vfs name) n s)
unfolding vops_mkdir
mkdir-IsMade n es name s dir =
    let v = new_vnode (s.at n).v_vfs vdir (ramfsdir []) in
    let run : vops_mkdir (s.at n).v_vfs name (s.at n).v_data s ≡ make_entry name v es s =
      rw (dir.objects) in
    rw (call_run (vops_mkdir (s.at n).v_vfs name) n s _ _ _ run)
      (refl, make_entry-IsMade n es name vdir (ramfsdir []) s dir)

pub put_back :
    (n : ℕ) (es : List Dentry) (s : Vnodes)
    → (s.at n).v_data ≡ ramfsdir es
    → (a : ℕ) → put s.at n (record (s.at n) { v_data = ramfsdir es }) a ≡ s.at a
put_back n es s e a = elim (Bool-cases (a == n)) [
  | inl h ↦ rw (h, ← e) (ap s.at (sym (==→eq a n h)))
  | inr h ↦ rw h
]

-- The two outcomes of `create`.
abbrev pub IsCreated : ℕ → List Dentry → Str → Vnodes → EResult ℕ → Vnodes → Type 0
IsCreated n es name s r u =
    ((k : ℕ) × (find_inner name es ≡ some k) × (r ≡ err eexist) × ((a : ℕ) → u.at a ≡ s.at a))
    ⊎ ((find_inner name es ≡ none)
        × (r ≡ ok s.count)
        × (vops_lookup name (u.at n).v_data ≡ some s.count)
        × IsMade n es name vreg (ramfsfile []) s u)

-- `create` refuses a name that is taken, changing nothing that a lookup sees, and makes a new,
-- empty file otherwise, which the lookup of the name then finds.
pub create-IsMade :
    (n : ℕ) (es : List Dentry) (name : Str) (s : Vnodes)
    → IsDir n es s
    → Returns (IsCreated n es name s) (call (vops_create (s.at n).v_vfs name) n s)
unfolding vops_create
create-IsMade n es name s dir = elim (Option-cases (find_inner name es)) [
  | inl absent ↦
      let made = make_entry-IsMade n es name vreg (ramfsfile []) s dir in
      let v = new_vnode (s.at n).v_vfs vreg (ramfsfile []) in
      let run : vops_create (s.at n).v_vfs name (s.at n).v_data s ≡ make_entry name v es s =
        rw (dir.objects, absent, vops_create) in
      rw (call_run (vops_create (s.at n).v_vfs name) n s _ _ _ run)
        (inr (absent, refl, made.found name ∙ rw (absent, same_str_self name), made))
  | inr (k, taken) ↦
      let run : vops_create (s.at n).v_vfs name (s.at n).v_data s
          ≡ some (err eexist, ramfsdir es, s) =
        rw (dir.objects, taken, vops_create) in
      rw (call_run (vops_create (s.at n).v_vfs name) n s _ _ _ run)
        (inl (k, taken, refl, put_back n es s dir.objects))
]
