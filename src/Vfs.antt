-- ===== src/Vfs.antt =====
-- The virtual file system (kernel/src/vfs/mod.rs) over the ram file system (kernel/src/vfs/ramfs.rs).
-- A vnode is named by a number in place of its `Arc`, and the vnodes stand in one store. The locks
-- are left out, and a weak reference to a file system is taken to be alive when it is upgraded, as
-- the root file system is never dropped. A `Box<dyn vops>` is one of its three implementations.
pub mod Bytes
mod Examples
pub mod Files
pub mod Mounts
pub mod Names
pub mod Paths
pub mod Ustar
use nyaux_kc.Base.{
  ℕ, zero, suc, ◌+◌, ◌-◌, ◌^◌, Bool, true, false, ◌&&◌, Option, none, some, List, [], ◌∷◌, ◌++◌,
  length, ltb, ◌==◌, min, if◌then◌else◌, M, pure, fault, ◌>>=◌, ◌>>◌,
}
use nyaux_kc.Errno.{EResult, ok, err, Errno, eexist, enotdir, eopnotsupp, ebusy}

-- A string is the list of its characters.
abbrev pub Str : Type 0
Str = List ℕ

abbrev pub same_str : Str → Str → Bool
same_str [] [] = true
same_str [] (d ∷ ds) = false
same_str (c ∷ cs) [] = false
same_str (c ∷ cs) (d ∷ ds) = (c == d) && same_str cs ds

pub data VType : Type 0 where
  vreg : VType
  vdir : VType

pub record Dentry : Type 0 where
  pub name : Str
  pub inner : Option ℕ

pub data Vops : Type 0 where
  ramfsfile : (buf : List ℕ) → Vops
  ramfsdir : (entries : List Dentry) → Vops
  nullfs : Vops

pub record Vnode : Type 0 where
  pub v_type : VType
  pub v_prev_data : Option Vops
  pub v_data : Vops
  pub v_vfs : Option ℕ

-- `vnode::new`
abbrev pub new_vnode : Option ℕ → VType → Vops → Vnode
new_vnode v t d = record { v_type = t; v_prev_data = none; v_data = d; v_vfs = v }

-- The vnodes that exist are those below `count`.
pub record Vnodes : Type 0 where
  pub at : ℕ → Vnode
  pub count : ℕ

abbrev pub put : (ℕ → Vnode) → ℕ → Vnode → ℕ → Vnode
put f n v a = if a == n then v else f a

-- `Arc::new(RWSpinLock::new(v))`
abbrev pub new_arc : Vnode → Vnodes → Vnodes
new_arc v s = record { at = put s.at s.count v; count = s.count + 1 }

-- The first entry of this name.
pub find : Str → List Dentry → Option Dentry
find str [] = none
find str (a ∷ rest) = let later = find str rest in if same_str a.name str then some a else later

abbrev pub inner_of : Option Dentry → Option ℕ
inner_of none = none
inner_of (some f) = f.inner

-- `vops::lookup`
pub vops_lookup : Str → Vops → Option ℕ
unfolding find
vops_lookup str (ramfsfile buf) = none
vops_lookup str (ramfsdir entries) = inner_of (find str entries)
vops_lookup str nullfs = none

abbrev pub create_entry : Str → ℕ → List Dentry → List Dentry
create_entry name vn entries = entries ++ record { name = name; inner = some vn } ∷ []

-- A method of `vops` that changes its object, and perhaps makes vnodes.
abbrev pub Method : Type 0 → Type 0
Method A = Vops → Vnodes → Option (A × Vops × Vnodes)

-- A new vnode with an entry for it.
abbrev pub make_entry : Str → Vnode → List Dentry → Vnodes → Option (EResult ℕ × Vops × Vnodes)
make_entry name v entries s =
    some (ok s.count, ramfsdir (create_entry name s.count entries), new_arc v s)

-- `vops::mkdir`
pub vops_mkdir : Option ℕ → Str → Method (EResult ℕ)
vops_mkdir v name (ramfsfile buf) s = some (err enotdir, ramfsfile buf, s)
vops_mkdir v name (ramfsdir entries) s = make_entry name (new_vnode v vdir (ramfsdir [])) entries s
vops_mkdir v name nullfs s = none

-- `vops::create`
pub vops_create : Option ℕ → Str → Method (EResult ℕ)
unfolding vops_lookup
vops_create v name (ramfsfile buf) s = none
vops_create v name (ramfsdir entries) s = elim (vops_lookup name (ramfsdir entries)) [
  | some old ↦ some (err eexist, ramfsdir entries, s)
  | none ↦ make_entry name (new_vnode v vreg (ramfsfile [])) entries s
]
vops_create v name nullfs s = some (err eopnotsupp, nullfs, s)

-- `vops::mount` and `vops::unmount` of the two ram file system objects do nothing.
abbrev pub vops_mount : Vops → M Vnodes (Unit {0})
vops_mount (ramfsfile buf) = pure tt
vops_mount (ramfsdir entries) = pure tt
vops_mount nullfs = fault

abbrev pub load : ℕ → M Vnodes Vnode
load n s = some (s.at n, s)

abbrev pub store : ℕ → Vnode → M Vnodes (Unit {0})
store n v s = some (tt, record s { at = put s.at n v })

-- `vnode.lock_write().v_data.f(..)`
pub call : {A : Type 0} → Method A → ℕ → M Vnodes A
call m n s = elim (m (s.at n).v_data s) [
  | none ↦ none
  | some (a, d, t) ↦ some (a, record t { at = put t.at n (record (t.at n) { v_data = d }) })
]

-- `mount` of the objects `ops` over the vnode.
pub mount : ℕ → Vops → M Vnodes (EResult (Unit {0}))
mount n ops = do
  vops_mount ops
  g ← load n
  elim g.v_prev_data [
    | some old ↦ pure (err ebusy)
    | none ↦ do store n (record g { v_prev_data = some g.v_data; v_data = ops }); pure (ok tt)
  ]

abbrev pub unwrap : Option Vops → M Vnodes Vops
unwrap none = fault
unwrap (some o) = pure o

pub unmount : ℕ → M Vnodes (EResult (Unit {0}))
unmount n = do
  g ← load n
  vops_mount g.v_data
  o ← unwrap g.v_prev_data
  store n (record g { v_prev_data = none; v_data = o })
  pure (ok tt)

-- `split('/')`: the pieces between the separators, of which there is always one.
abbrev pub push_char : ℕ → List Str → List Str
push_char c [] = (c ∷ []) ∷ []
push_char c (p ∷ ps) = (c ∷ p) ∷ ps

abbrev pub slash : ℕ
slash = 0x2F

pub split : Str → List Str
split [] = [] ∷ []
split (c ∷ cs) = let rest = split cs in if c == slash then [] ∷ rest else push_char c rest

-- `split_terminator('/')`: an empty last piece is left out.
abbrev pub drop_last_empty : List Str → List Str
drop_last_empty [] = []
drop_last_empty ([] ∷ []) = []
drop_last_empty ((c ∷ cs) ∷ []) = (c ∷ cs) ∷ []
drop_last_empty (p ∷ q ∷ ps) = p ∷ drop_last_empty (q ∷ ps)

pub split_terminator : Str → List Str
unfolding split
split_terminator path = drop_last_empty (split path)

-- The loop of `lookup`, from vnode `a`.
pub lookup_loop : List Str → ℕ → Vnodes → Option ℕ
unfolding vops_lookup
lookup_loop [] a s = some a
lookup_loop ([] ∷ rest) a s = lookup_loop rest a s
lookup_loop ((c ∷ cs) ∷ rest) a s = elim (vops_lookup (c ∷ cs) (s.at a).v_data) [
  | none ↦ none
  | some f ↦ lookup_loop rest f s
]

pub lookup : ℕ → Str → Vnodes → Option ℕ
unfolding split_terminator lookup_loop
lookup vnod path s = lookup_loop (split_terminator path) vnod s
