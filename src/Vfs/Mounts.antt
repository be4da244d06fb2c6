-- ===== src/Vfs/Mounts.antt =====
-- `mount` and `unmount` (kernel/src/vfs/mod.rs).
use nyaux_kc.Base.{
  ne→==, ℕ, ◌≡◌, ◌≢◌, refl, none, some, ◌==◌, Bool-cases, Option-cases, inl, inr, ◌⊎◌, ==→eq,
  ==_self, Returns, ◌>>=◌, ◌>>◌, sym, ap,
}
use nyaux_kc.Errno.{ok, err, ebusy}
use nyaux_kc.Vfs.{Vops, ramfsfile, ramfsdir, nullfs, Vnodes, put, vops_mount, mount, unmount}

-- Objects that have a `mount`, and do not stand for an absent file system.
abbrev pub IsRamfs : Vops → Type 0
IsRamfs (ramfsfile buf) = Unit
IsRamfs (ramfsdir entries) = Unit
IsRamfs nullfs = ⊥

vops_mount-real : (o : Vops) (s : Vnodes) → IsRamfs o → vops_mount o s ≡ some (tt, s)
vops_mount-real (ramfsfile buf) s r = refl
vops_mount-real (ramfsdir entries) s r = refl
vops_mount-real nullfs s r = absurd r

abbrev mounted : ℕ → Vops → Vnodes → Vnodes
mounted n ops s = record s {
  at = put s.at n (record (s.at n) { v_prev_data = some (s.at n).v_data; v_data = ops });
}

mount_free :
    (n : ℕ) (ops : Vops) (s : Vnodes)
    → IsRamfs ops
    → (s.at n).v_prev_data ≡ none
    → mount n ops s ≡ some (ok tt, mounted n ops s)
unfolding mount
mount_free n ops s real free = rw (mount, ◌>>=◌, vops_mount-real ops s real, free) refl

mount_taken :
    (n : ℕ) (ops old : Vops) (s : Vnodes)
    → IsRamfs ops
    → (s.at n).v_prev_data ≡ some old
    → mount n ops s ≡ some (err ebusy, s)
unfolding mount
mount_taken n ops old s real taken = rw (mount, ◌>>=◌, vops_mount-real ops s real, taken) refl

unmount-mounted :
    (n : ℕ) (ops : Vops) (s : Vnodes)
    → IsRamfs ops
    → unmount n (mounted n ops s)
      ≡ some (
        ok tt,
        record s { at = put (mounted n ops s).at n (record (s.at n) { v_prev_data = none }) },
      )
unfolding unmount
unmount-mounted n ops s real =
    rw (unmount, ◌>>=◌, ==_self n, vops_mount-real ops (mounted n ops s) real, ==_self n, ==_self n)
      refl

-- What a mount leaves: the new objects in place, the old ones kept.
pub record IsMounted (n : ℕ) (ops : Vops) (s u : Vnodes) : Type 0 where
  pub count : u.count ≡ s.count
  pub now : (u.at n).v_data ≡ ops
  pub kept : (u.at n).v_prev_data ≡ some (s.at n).v_data
  pub others : (a : ℕ) → a ≢ n → u.at a ≡ s.at a

-- A mount of ram file system objects over a vnode that nothing is mounted on puts the new objects
-- in place and keeps the old ones; over one that something is mounted on it yields EBUSY and
-- changes nothing.
pub mount-IsMounted :
    (n : ℕ) (ops : Vops) (s : Vnodes)
    → IsRamfs ops
    → Returns
        (λ r u.
          (((s.at n).v_prev_data ≡ none) × (r ≡ ok tt) × IsMounted n ops s u)
          ⊎ (((s.at n).v_prev_data ≢ none) × (r ≡ err ebusy) × (u ≡ s)))
        (mount n ops s)
mount-IsMounted n ops s real = elim (Option-cases (s.at n).v_prev_data) [
  | inl free ↦ rw (mount_free n ops s real free) (
      inl (
        free,
        refl,
        record {
          count = refl;
          now = rw (==_self n);
          kept = rw (==_self n);
          others = λ a h. rw (ne→== a n h);
        },
      ))
  | inr (old, taken) ↦
      rw (mount_taken n ops old s real taken) (inr ((λ e. cc (taken, e)), refl, refl))
]

-- Unmounting after a mount of ram file system objects, over a vnode that nothing was mounted on,
-- brings every vnode back to what it was.
pub mount-unmount :
    (n : ℕ) (ops : Vops) (s : Vnodes)
    → IsRamfs ops
    → (s.at n).v_prev_data ≡ none
    → Returns
        (λ r u. (r ≡ ok tt) × (u.count ≡ s.count) × ((a : ℕ) → u.at a ≡ s.at a))
        ((mount n ops >> unmount n) s)
mount-unmount n ops s real free =
    rw (mount_free n ops s real free, ◌>>=◌, unmount-mounted n ops s real)
      (
        refl,
        refl,
        λ a. elim (Bool-cases (a == n)) [
          | inl h ↦ rw (h, ← free) (ap s.at (sym (==→eq a n h)))
          | inr h ↦ rw h
        ],
      )
