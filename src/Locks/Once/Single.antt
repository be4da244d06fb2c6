-- ===== src/Locks/Once/Single.antt =====
-- `Once` runs one closure (kernel/src/util/mod.rs).
use nyaux_kc.Base.{
  ℕ, suc, ◌≡◌, refl, false, Option, some, List, [], ◌∷◌, ◌==◌, Bool-cases, inl, inr, ==→eq, ==_self,
  ◌∙◌, sym, ap, subst, arith,
}
use nyaux_kc.Locks.Once.{
  OnceState, uninit, running, done, Progress, calling, chosen, written, spinning, returned, Once,
  once, moved, once_act, once_step, once_run, get, new,
}

-- A cpu before or in the loop.
abbrev Idle : Progress → Type 0
Idle calling = Unit
Idle chosen = ⊥
Idle written = ⊥
Idle spinning = Unit
Idle returned = ⊥

-- A cpu after the data is there.
abbrev Settled : Progress → Type 0
Settled calling = Unit
Settled chosen = ⊥
Settled written = ⊥
Settled spinning = Unit
Settled returned = Unit

module _ {A : Type 0} (v : ℕ → A) where
  -- The cpu that was chosen, before and after it has run its closure.
  abbrev Winner : Progress → ℕ → Option A → ℕ → Type 0
  Winner chosen w d n = n ≡ 0
  Winner written w d n = (d ≡ some (v w)) × (n ≡ 1)
  Winner _ w d n = ⊥

  abbrev Valid : OnceState → Option A → ℕ → (ℕ → Progress) → Type 0
  Valid uninit d n f = (n ≡ 0) × ((a : ℕ) → Idle (f a))
  Valid running d n f = (w : ℕ) × Winner (f w) w d n × ((a : ℕ) → (a == w) ≡ false → Idle (f a))
  Valid done d n f = (w : ℕ) × (d ≡ some (v w)) × (n ≡ 1) × ((a : ℕ) → Settled (f a))

  -- The cpu that is not idle is the chosen one.
  winner_is :
      (c w : ℕ) (f : ℕ → Progress)
      → ((a : ℕ) → (a == w) ≡ false → Idle (f a))
      → (Idle (f c) → ⊥)
      → c ≡ w
  winner_is c w f others busy = elim (Bool-cases (c == w)) [
    | inl h ↦ ==→eq c w h
    | inr h ↦ absurd (busy (others c h))
  ]

  -- Moving a cpu within a pointwise condition.
  moved_all :
      (P : Progress → Type 0) (f : ℕ → Progress) (c : ℕ) (p : Progress)
      → P p
      → ((a : ℕ) → P (f a))
      → (a : ℕ) → P (moved f c p a)
  moved_all P f c p here there a = elim (Bool-cases (a == c)) [
    | inl h ↦ rw h here
    | inr h ↦ rw h (there a)
  ]

  Idle-Settled : (p : Progress) → Idle p → Settled p
  Idle-Settled calling i = tt
  Idle-Settled chosen i = i
  Idle-Settled written i = i
  Idle-Settled spinning i = tt
  Idle-Settled returned i = tt

  abbrev IsValid : Once A → Type 0
  IsValid o = Valid o.state o.data_of o.calls o.at

  begin-Valid :
      (c n : ℕ) (d : Option A) (f : ℕ → Progress)
      → Valid uninit d n f
      → Valid running d n (moved f c chosen)
  begin-Valid c n d f (zero_calls, idle) =
      (c, rw (==_self c) zero_calls, λ a other. rw other (idle a))

  wait-Valid :
      (c n : ℕ) (d : Option A) (f : ℕ → Progress)
      → f c ≡ calling
      → Valid running d n f
      → Valid running d n (moved f c spinning)
  wait-Valid c n d f at_c (w, win, others) = elim (Bool-cases (w == c)) [
    | inl h ↦ absurd (subst (λ p. Winner p w d n) (ap f (==→eq w c h) ∙ at_c) win)
    | inr h ↦ (
      w,
      rw h win,
      λ a other. elim (Bool-cases (a == c)) [ inl e ↦ rw e tt | inr e ↦ rw e (others a other) ],
    )
  ]

  compute-Valid :
      (c n : ℕ) (d : Option A) (f : ℕ → Progress)
      → f c ≡ chosen
      → Valid running d n f
      → Valid running (some (v c)) (suc n) (moved f c written)
  compute-Valid c n d f at_c (w, win, others) =
      let same : c ≡ w = winner_is c w f others (λ i. subst Idle at_c i) in
      let none_yet : n ≡ 0 = subst (λ p. Winner p w d n) (ap f (sym same) ∙ at_c) win in
      (
        c,
        rw (==_self c) (refl, omega (arith, none_yet)),
        λ a other. rw other (others a (rw (← same) other)),
      )

  finish-Valid :
      (c n : ℕ) (d : Option A) (f : ℕ → Progress)
      → f c ≡ written
      → Valid running d n f
      → Valid done d n (moved f c returned)
  finish-Valid c n d f at_c (w, win, others) =
      let same : c ≡ w = winner_is c w f others (λ i. subst Idle at_c i) in
      let full : (d ≡ some (v w)) × (n ≡ 1) =
        subst (λ p. Winner p w d n) (ap f (sym same) ∙ at_c) win in
      (
        w,
        full.0,
        full.1,
        λ a. elim (Bool-cases (a == c)) [
          | inl h ↦ rw h tt
          | inr h ↦ rw h (Idle-Settled (f a) (others a (rw (← same) h)))
        ],
      )

  once_act-Valid :
      (c n : ℕ) (p : Progress) (s : OnceState) (d : Option A) (f : ℕ → Progress)
      → f c ≡ p
      → Valid s d n f
      → IsValid (once_act c (v c) p s d n f)
  unfolding once_act
  once_act-Valid c n calling uninit d f e o = begin-Valid c n d f o
  once_act-Valid c n calling running d f e o = wait-Valid c n d f e o
  once_act-Valid c n calling done d f e (w, full, one, settled) =
      (w, full, one, moved_all Settled f c spinning tt settled)
  once_act-Valid c n chosen uninit d f e (z, idle) = absurd (subst Idle e (idle c))
  once_act-Valid c n chosen running d f e o = compute-Valid c n d f e o
  once_act-Valid c n chosen done d f e (w, full, one, settled) =
      absurd (subst Settled e (settled c))
  once_act-Valid c n written uninit d f e (z, idle) = absurd (subst Idle e (idle c))
  once_act-Valid c n written running d f e o = finish-Valid c n d f e o
  once_act-Valid c n written done d f e (w, full, one, settled) =
      absurd (subst Settled e (settled c))
  once_act-Valid c n spinning uninit d f e o = o
  once_act-Valid c n spinning running d f e o = o
  once_act-Valid c n spinning done d f e (w, full, one, settled) =
      (w, full, one, moved_all Settled f c returned tt settled)
  once_act-Valid c n returned s d f e o = o

  once_run-Valid : (cs : List ℕ) (o : Once A) → IsValid o → IsValid (once_run v cs o)
  unfolding once_run
  once_run-Valid [] o valid = valid
  once_run-Valid (c ∷ cs) o valid =
      once_run-Valid cs (once_step v c o)
        (once_act-Valid c o.calls (o.at c) o.state o.data_of o.at refl valid)

  returned_get :
      (s : OnceState) (d : Option A) (n a : ℕ) (f : ℕ → Progress)
      → Valid s d n f
      → f a ≡ returned
      → (w : ℕ) × (get (once s d n f) ≡ some (v w)) × (n ≡ 1)
  returned_get uninit d n a f (z, idle) e = absurd (subst Idle e (idle a))
  returned_get running d n a f (w, win, others) e =
      let same : a ≡ w = winner_is a w f others (λ i. subst Idle e i) in
      absurd (subst (λ p. Winner p w d n) (ap f (sym same) ∙ e) win)
  returned_get done d n a f (w, full, one, settled) e = (w, full, one)

  -- In whatever order the cpus step: once a `call_once` has returned, exactly one closure was run, and
  -- `get` yields its value.
  pub once_run-get :
      (cs : List ℕ) (a : ℕ)
      → (once_run v cs new).at a ≡ returned
      → (w : ℕ) × (get (once_run v cs new) ≡ some (v w)) × ((once_run v cs new).calls ≡ 1)
  once_run-get cs a e =
      let o = once_run v cs new in
      returned_get o.state o.data_of o.calls a o.at (once_run-Valid cs new (refl, λ b. tt)) e
