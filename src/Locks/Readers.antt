-- ===== src/Locks/Readers.antt =====
-- `RWSpinLock` (kernel/src/util/mod.rs): the word of the lock and the cpus, each of which takes it for
-- reading or for writing and gives it back again and again. A step is one access to the word with the
-- changes of the cpu's interrupt flag around it; steps interleave in any order.
mod Examples
pub mod Sharing
use nyaux_kc.Base.{
  ℕ, zero, suc, ◌+◌, ◌-◌, ◌%◌, ◌^◌, Bool, true, false, ◌&&◌, not, Option, none, some, List, [], ◌∷◌,
  map, get_elem?, leb, ◌==◌, if◌then◌else◌,
}

-- Where a cpu stands in `lock_read`, `lock_write` and the two `drop`s.
pub data RwPhase : Type 0 where
  outside : RwPhase
  -- before the load of `lock_read`
  reading : RwPhase
  -- after it
  loaded : (old : ℕ) → RwPhase
  read_waiting : RwPhase
  reader : RwPhase
  -- before the exchange of `lock_write`
  writing : RwPhase
  write_waiting : RwPhase
  writer : RwPhase
  -- the word is given back, the interrupt flag not yet
  freed : RwPhase

pub record RwCpu : Type 0 where
  pub phase : RwPhase
  pub interrupts : Bool
  pub prev : Bool

abbrev pub rw_cpu : RwPhase → Bool → Bool → RwCpu
rw_cpu p i v = record { phase = p; interrupts = i; prev = v }

pub record RwOut : Type 0 where
  pub self : RwCpu
  pub word : ℕ

abbrev pub rw_out : RwCpu → ℕ → RwOut
rw_out c w = record { self = c; word = w }

-- `u32::MAX`
abbrev pub all_ones : ℕ
all_ones = 4294967295

-- `choice` is, outside, whether the cpu wants to read, and at an exchange, which is a weak one,
-- whether it fails although the word is the expected one.
pub rw_act : RwPhase → (interrupts prev : Bool) → (word : ℕ) → (choice : Bool) → RwOut
rw_act outside i v w true = rw_out (rw_cpu reading false i) w
rw_act outside i v w false = rw_out (rw_cpu writing false i) w
rw_act reading i v w choice =
    if leb (all_ones - 1) w
    then rw_out (rw_cpu read_waiting (if v then true else i) v) w
    else rw_out (rw_cpu (loaded w) i v) w
rw_act (loaded old) i v w choice =
    if w == old && not choice
    then rw_out (rw_cpu reader i v) ((old + 1) % 2 ^ 32)
    else rw_out (rw_cpu read_waiting (if v then true else i) v) w
rw_act read_waiting i v w choice = rw_out (rw_cpu reading false v) w
rw_act reader i v w choice = rw_out (rw_cpu freed i v) ((w + (2 ^ 32 - 1)) % 2 ^ 32)
rw_act writing i v w choice =
    if w == 0 && not choice
    then rw_out (rw_cpu writer i v) all_ones
    else rw_out (rw_cpu write_waiting (if v then true else i) v) w
rw_act write_waiting i v w choice = rw_out (rw_cpu writing false v) w
rw_act writer i v w choice = rw_out (rw_cpu freed i v) 0
rw_act freed i v w choice = rw_out (rw_cpu outside (if v then true else i) v) w

pub record RwLock : Type 0 where
  pub word : ℕ
  pub cpus : List RwCpu

abbrev pub put_at : ℕ → RwCpu → List RwCpu → List RwCpu
put_at i y [] = []
put_at zero y (x ∷ l) = y ∷ l
put_at (suc i) y (x ∷ l) = x ∷ put_at i y l

abbrev pub rw_acted : RwCpu → ℕ → Bool → RwOut
rw_acted x w choice = rw_act x.phase x.interrupts x.prev w choice

pub rw_step : ℕ → Bool → RwLock → RwLock
unfolding rw_act
rw_step c choice s = elim (get_elem? s.cpus c) [
  | none ↦ s
  | some x ↦
      let o = rw_acted x s.word choice in record { word = o.word; cpus = put_at c o.self s.cpus }
]

-- The cpus that step, in this order, with their choices.
pub rw_run : List (ℕ × Bool) → RwLock → RwLock
unfolding rw_step
rw_run [] s = s
rw_run ((c, choice) ∷ rest) s = rw_run rest (rw_step c choice s)

-- `RWSpinLock::new`, with every cpu outside.
abbrev pub rw_start : (interrupts : List Bool) → RwLock
rw_start interrupts = record { word = 0; cpus = map (λ i. rw_cpu outside i false) interrupts }
