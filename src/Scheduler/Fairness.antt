-- ===== src/Scheduler/Fairness.antt =====
-- Repeated `sched_yield`: how long a queued thread waits.
use nyaux_kc.Base.{
  ℕ, zero, suc, ◌≡◌, Option, some, List, [], ◌∷◌, ◌++◌, length, Returns, Returns-bind, pure, ◌>>◌,
  subst,
}
use mathlib.Core.List.{append_assoc}
use nyaux_kc.Lists.Nodes.{Ptr}
use nyaux_kc.Scheduler.{Cpu, CpuCmd, sched_yield}
use nyaux_kc.Scheduler.RoundRobin.{threads, Holds, Switched, sched_yield-rotate}

pub yields : ℕ → CpuCmd (Unit {0})
yields zero = pure tt
yields (suc n) = sched_yield >> yields n

-- The thread behind `xs` in the queue runs after exactly `length xs + 1` yields; those that ran
-- before it stand behind the rest of the queue, in the order in which they ran.
pub yields-run :
    (rest : Ptr → ℕ) (i : Option Ptr) (t : Ptr) (xs : List Ptr) (y : Ptr) (ys : List Ptr) (s : Cpu)
    → Holds rest (threads (some t) i (xs ++ y ∷ ys)) s
    → Returns (λ _. Holds rest (threads (some y) i (ys ++ t ∷ xs))) (yields (suc (length xs)) s)
unfolding yields
yields-run rest i t [] y ys s h =
    Returns-bind (λ _ u. Holds rest (threads (some y) i (ys ++ t ∷ [])) u × Switched s (some t) y u)
      _ (sched_yield s) _ (sched_yield-rotate rest (threads (some t) i (y ∷ ys)) s h) (λ _ u p. p.0)
yields-run rest i t (x ∷ xs) y ys s h =
    let queue = (xs ++ y ∷ ys) ++ t ∷ [] in
    Returns-bind (λ _ u. Holds rest (threads (some x) i queue) u × Switched s (some t) x u) _
      (sched_yield s) _ (sched_yield-rotate rest (threads (some t) i (x ∷ xs ++ y ∷ ys)) s h)
      (λ _ u p.
        let split : queue ≡ xs ++ y ∷ (ys ++ t ∷ []) = append_assoc xs (y ∷ ys) (t ∷ []) in
        let start = subst (λ q. Holds rest (threads (some x) i q) u) split p.0 in
        subst (λ q. Returns (λ _. Holds rest (threads (some y) i q)) (yields (suc (length xs)) u))
          (append_assoc ys (t ∷ []) (x ∷ xs)) (yields-run rest i x xs y (ys ++ t ∷ []) u start))
