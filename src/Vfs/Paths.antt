-- ===== src/Vfs/Paths.antt =====
-- Lookups along a path (kernel/src/vfs/mod.rs).
use mathlib.Core.Path.{ap₂, fun_ext}
use mathlib.Core.List.{append-nil}
use nyaux_kc.Base.{
  ◌≡◌, refl, Option, none, some, List, [], ◌∷◌, ◌++◌, ℕ, ◌==◌, Bool-cases, Option-cases, inl, inr,
  ◌∙◌, sym, ap, ◌≢◌, has, false, arith,
}
use nyaux_kc.Vfs.{
  Str, Vnodes, vops_lookup, slash, push_char, split, drop_last_empty, lookup_loop, lookup,
}

-- The lookup of `q` from where the first lookup led.
abbrev pub then_from : Option ℕ → (ℕ → Option ℕ) → Option ℕ
then_from none f = none
then_from (some a) f = f a

split_nonempty : (p : Str) → (x : Str) × (xs : List Str) × (split p ≡ x ∷ xs)
unfolding split
split_nonempty [] = ([], [], refl)
split_nonempty (c ∷ cs) =
    let (x, xs, e) = split_nonempty cs in
    elim (Bool-cases (c == slash)) [ inl h ↦ ([], split cs, rw h) | inr h ↦ (c ∷ x, xs, rw (h, e)) ]

push_char-append :
    (c : ℕ) (ps qs : List Str) (x : Str) (xs : List Str)
    → ps ≡ x ∷ xs
    → push_char c (ps ++ qs) ≡ push_char c ps ++ qs
push_char-append c ps qs x xs e = rw e

-- The pieces of two paths that a separator joins.
split-append : (p q : Str) → split (p ++ slash ∷ q) ≡ split p ++ split q
unfolding split
split-append [] q = refl
split-append (c ∷ cs) q =
    let (x, xs, e) = split_nonempty cs in
    elim (Bool-cases (c == slash)) [
      | inl h ↦ rw (h, split-append cs q)
      | inr h ↦ rw (h, split-append cs q) (push_char-append c (split cs) (split q) x xs e)
    ]

-- Empty pieces are skipped.
lookup_loop-drop_last_empty :
    (ps : List Str) (a : ℕ) (s : Vnodes) → lookup_loop (drop_last_empty ps) a s ≡ lookup_loop ps a s
unfolding lookup_loop
lookup_loop-drop_last_empty [] a s = refl
lookup_loop-drop_last_empty ([] ∷ []) a s = refl
lookup_loop-drop_last_empty ((c ∷ cs) ∷ []) a s = refl
lookup_loop-drop_last_empty ([] ∷ q ∷ ps) a s = lookup_loop-drop_last_empty (q ∷ ps) a s
lookup_loop-drop_last_empty ((c ∷ cs) ∷ q ∷ ps) a s =
    elim (Option-cases (vops_lookup (c ∷ cs) (s.at a).v_data)) [
      | inl h ↦ rw (h, lookup_loop)
      | inr (f, h) ↦ rw (h, lookup_loop) (lookup_loop-drop_last_empty (q ∷ ps) f s)
    ]

lookup_loop-append :
    (ps qs : List Str) (a : ℕ) (s : Vnodes)
    → lookup_loop (ps ++ qs) a s ≡ then_from (lookup_loop ps a s) (λ b. lookup_loop qs b s)
unfolding lookup_loop
lookup_loop-append [] qs a s = refl
lookup_loop-append ([] ∷ ps) qs a s = lookup_loop-append ps qs a s
lookup_loop-append ((c ∷ cs) ∷ ps) qs a s =
    elim (Option-cases (vops_lookup (c ∷ cs) (s.at a).v_data)) [
      | inl h ↦ rw (h, lookup_loop)
      | inr (f, h) ↦ rw (h, lookup_loop) (lookup_loop-append ps qs f s)
    ]

lookup_loop-lookup : (n : ℕ) (p : Str) (s : Vnodes) → lookup n p s ≡ lookup_loop (split p) n s
unfolding lookup
lookup_loop-lookup n p s = lookup_loop-drop_last_empty (split p) n s

-- A lookup of `p/q` is a lookup of `p`, and from there one of `q`.
lookup-join :
    (n : ℕ) (p q : Str) (s : Vnodes)
    → lookup n (p ++ slash ∷ q) s ≡ then_from (lookup n p s) (λ m. lookup m q s)
lookup-join n p q s =
    lookup_loop-lookup n (p ++ slash ∷ q) s
    ∙ ap (λ ps. lookup_loop ps n s) (split-append p q)
    ∙ lookup_loop-append (split p) (split q) n s
    ∙ sym (ap₂ then_from (lookup_loop-lookup n p s) (fun_ext λ m. lookup_loop-lookup m q s))

-- The names of a path, each without separators and not empty.
abbrev pub AreNames : List Str → Type 0
AreNames [] = Unit
AreNames (x ∷ xs) = (x ≢ []) × (has slash x ≡ false) × AreNames xs

-- The path `/x/y/z`.
abbrev pub path_of : List Str → Str
path_of [] = []
path_of (x ∷ xs) = slash ∷ x ++ path_of xs

-- From each vnode to the one that its own lookup operation answers for the next name.
abbrev pub walk : Vnodes → ℕ → List Str → Option ℕ
walk s n [] = some n
walk s n (x ∷ xs) = then_from (vops_lookup x (s.at n).v_data) (λ m. walk s m xs)

split-name : (x : Str) → has slash x ≡ false → split x ≡ x ∷ []
unfolding split
split-name [] out = refl
split-name (c ∷ cs) out =
    let here : (c == slash) ≡ false = ground arith in rw (here, split-name cs (ground arith)) refl

lookup-name :
    (n : ℕ) (x : Str) (s : Vnodes)
    → x ≢ []
    → has slash x ≡ false
    → lookup n x s ≡ vops_lookup x (s.at n).v_data
unfolding lookup_loop
lookup-name n [] s some_name out = absurd (some_name refl)
lookup-name n (c ∷ cs) s some_name out =
    lookup_loop-lookup n (c ∷ cs) s
    ∙ ap (λ ps. lookup_loop ps n s) (split-name (c ∷ cs) out)
    ∙ one_name n c cs s
  where
    one_name :
        (n c : ℕ) (cs : Str) (s : Vnodes)
        → lookup_loop ((c ∷ cs) ∷ []) n s ≡ vops_lookup (c ∷ cs) (s.at n).v_data
    one_name n c cs s = elim (Option-cases (vops_lookup (c ∷ cs) (s.at n).v_data)) [
      | inl h ↦ rw (h, lookup_loop) refl
      | inr (f, h) ↦ rw (h, lookup_loop) refl
    ]

then_from-some : (v : Option ℕ) → then_from v some ≡ v
then_from-some none = refl
then_from-some (some a) = refl

lookup-slash : (n : ℕ) (q : Str) (s : Vnodes) → lookup n (slash ∷ q) s ≡ lookup n q s
unfolding split lookup_loop
lookup-slash n q s = lookup-join n [] q s ∙ rw (lookup_loop-lookup n [] s) refl

-- For names that are not empty and have no separator: the lookup of the absolute path `/x/y/z` goes
-- from the start to what its lookup operation answers for the first name, from there to what that
-- one answers for the second, and so on; it ends at the last one, or fails with the first that fails.
pub lookup-walk :
    (n : ℕ) (xs : List Str) (s : Vnodes) → AreNames xs → lookup n (path_of xs) s ≡ walk s n xs
unfolding split lookup_loop
lookup-walk n [] s names = lookup_loop-lookup n [] s
lookup-walk n (x ∷ []) s (some_name, out, names) =
    lookup-slash n (x ++ []) s
    ∙ ap (λ p. lookup n p s) (append-nil x)
    ∙ lookup-name n x s some_name out
    ∙ sym (then_from-some (vops_lookup x (s.at n).v_data))
lookup-walk n (x ∷ y ∷ ys) s (some_name, out, names) =
    lookup-slash n (x ++ path_of (y ∷ ys)) s
    ∙ lookup-join n x (y ++ path_of ys) s
    ∙ ap₂ then_from (lookup-name n x s some_name out)
        (fun_ext λ m. sym (lookup-slash m (y ++ path_of ys) s) ∙ lookup-walk m (y ∷ ys) s names)
