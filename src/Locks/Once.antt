-- ===== src/Locks/Once.antt =====
-- `Once` (kernel/src/util/mod.rs): cpus that all run `call_once` with a closure of their own, each
-- access to the state being a step, in any order. `calls` counts the closures that were run.
mod Examples
pub mod Single
use nyaux_kc.Base.{
  ℕ, suc, ◌+◌, ◌≤◌, ◌≡◌, refl, Bool, true, false, Option, none, some, List, [], ◌∷◌, ◌==◌,
  if◌then◌else◌, Bool-cases, inl, inr, ==→eq, ==_self, ◌∙◌, sym, ap, subst, arith,
}

pub data OnceState : Type 0 where
  uninit : OnceState
  running : OnceState
  done : OnceState

-- Where a cpu stands in `call_once`: before the exchange, before the closure, before the store of
-- `DONE`, in the loop, and after the call.
pub data Progress : Type 0 where
  calling : Progress
  chosen : Progress
  written : Progress
  spinning : Progress
  returned : Progress

pub record Once (A : Type 0) : Type 0 where
  pub state : OnceState
  pub data_of : Option A
  pub calls : ℕ
  pub at : ℕ → Progress

abbrev pub once : {A : Type 0} → OnceState → Option A → ℕ → (ℕ → Progress) → Once A
once s d n f = record { state = s; data_of = d; calls = n; at = f }

abbrev pub moved : (ℕ → Progress) → ℕ → Progress → ℕ → Progress
moved f c p a = if a == c then p else f a

-- One access by the cpu `c`, whose closure yields `v`.
pub once_act : {A : Type 0} → ℕ → A → Progress → OnceState → Option A → ℕ → (ℕ → Progress) → Once A
once_act c v calling uninit d n f = once running d n (moved f c chosen)
once_act c v calling running d n f = once running d n (moved f c spinning)
once_act c v calling done d n f = once done d n (moved f c spinning)
once_act c v chosen s d n f = once s (some v) (suc n) (moved f c written)
once_act c v written s d n f = once done d n (moved f c returned)
once_act c v spinning uninit d n f = once uninit d n f
once_act c v spinning running d n f = once running d n f
once_act c v spinning done d n f = once done d n (moved f c returned)
once_act c v returned s d n f = once s d n f

abbrev pub once_step : {A : Type 0} → (ℕ → A) → ℕ → Once A → Once A
once_step v c o = once_act c (v c) (o.at c) o.state o.data_of o.calls o.at

pub once_run : {A : Type 0} → (ℕ → A) → List ℕ → Once A → Once A
unfolding once_act
once_run v [] o = o
once_run v (c ∷ cs) o = once_run v cs (once_step v c o)

abbrev get_of : {A : Type 0} → OnceState → Option A → Option A
get_of uninit d = none
get_of running d = none
get_of done d = d

-- `Once::get`
abbrev pub get : {A : Type 0} → Once A → Option A
get o = get_of o.state o.data_of

-- `Once::new`, before any call.
abbrev pub new : {A : Type 0} → Once A
new = once uninit none 0 (λ a. calling)
