-- ===== src/Locks.antt =====
-- `SpinLock` (kernel/src/util/mod.rs): the lock flag, the interrupt flag that is kept in the lock, and
-- the cpus, each of which takes the lock and gives it back again and again. A step is one access to
-- the lock with the changes of the cpu's own interrupt flag around it. Steps of the cpus interleave
-- in any order; the accesses are taken to be sequentially consistent.
mod Examples
pub mod Exclusion
pub mod Interrupts
pub mod Once
pub mod Readers
use nyaux_kc.Base.{ℕ, Bool, true, false, List, [], ◌∷◌, ◌==◌, if◌then◌else◌}

-- Where a cpu stands in `lock` and `unlock`.
pub data Phase : Type 0 where
  outside : Phase
  -- interrupts are off, before the swap
  trying : Phase
  -- the swap found the lock taken
  waiting : Phase
  -- the swap took the lock, before `prev` is stored
  acquired : Phase
  -- `lock` has returned
  holding : Phase
  -- `unlock` has loaded `prev`, before the flag is cleared
  releasing : Phase
  -- the flag is cleared
  freed : Phase

-- `prev` is the local variable of `lock`, and `loaded` that of `unlock`.
pub record Cpu : Type 0 where
  pub phase : Phase
  pub interrupts : Bool
  pub prev : Bool
  pub loaded : Bool

abbrev pub cpu : Phase → Bool → Bool → Bool → Cpu
cpu p i v l = record { phase = p; interrupts = i; prev = v; loaded = l }

-- `SpinLock(locked, saved)` and the cpus.
pub record Spin : Type 0 where
  pub locked : Bool
  pub saved : Bool
  pub cpus : ℕ → Cpu

-- A cpu's step yields the cpu and the two fields of the lock.
pub record Out : Type 0 where
  pub self : Cpu
  pub locked : Bool
  pub saved : Bool

abbrev pub out : Cpu → Bool → Bool → Out
out c l s = record { self = c; locked = l; saved = s }

pub act : Phase → (interrupts prev loaded locked saved : Bool) → Out
act outside i v l k s = out (cpu trying false i l) k s
act trying i v l false s = out (cpu acquired i v l) true s
act trying i v l true s = out (cpu waiting (if v then true else i) v l) true s
act waiting i v l k s = out (cpu trying false v l) k s
act acquired i v l k s = out (cpu holding i v l) k v
act holding i v l k s = out (cpu releasing i v s) k s
act releasing i v l k s = out (cpu freed i v l) false s
act freed i v l k s = out (cpu outside (if l then true else i) v l) k s

abbrev pub acted : Cpu → Bool → Bool → Out
acted x k s = act x.phase x.interrupts x.prev x.loaded k s

abbrev pub put : (ℕ → Cpu) → ℕ → Cpu → ℕ → Cpu
put f c x a = if a == c then x else f a

abbrev pub step : ℕ → Spin → Spin
step c s =
    let o = acted (s.cpus c) s.locked s.saved in
    record { locked = o.locked; saved = o.saved; cpus = put s.cpus c o.self }

-- The cpus that step, in this order.
pub run : List ℕ → Spin → Spin
unfolding act
run [] s = s
run (c ∷ cs) s = run cs (step c s)

-- `SpinLock::new`, with every cpu outside.
abbrev pub start : (ℕ → Bool) → Spin
start interrupts = record {
  locked = false;
  saved = false;
  cpus = λ a. cpu outside (interrupts a) false false;
}
