-- ===== src/CoreSystem/Scheduler/RoundRobin.antt =====
-- Fairness of the scheduler: a round of passes, one for each process in the ready queue.
use trinity_v4_ai_brain.Prelude.{
  ℕ, ◌+◌, ◌≡◌, refl, sym, ap, ◌∙◌, Bool, false, Option, none, some, List, [], ◌∷◌, ◌++◌, nat_eq,
  length, count, inl, inr, Option-cases, arith,
}
use mathlib.Core.List.{append_assoc, append-nil}
use trinity_v4_ai_brain.Host.{Host}
use trinity_v4_ai_brain.Dict.{get}
use trinity_v4_ai_brain.Process.{ProcessInfo, ProcessState}
use trinity_v4_ai_brain.CoreSystem.{System, state_of}
use trinity_v4_ai_brain.CoreSystem.Scheduler.{run_scheduler, scheduler_loop}
use trinity_v4_ai_brain.CoreSystem.Scheduler.Pass.{run_scheduler-front, get-ran}
use trinity_v4_ai_brain.CoreSystem.Scheduling.{IsScheduled}
use trinity_v4_ai_brain.CoreSystem.Scheduling.Kept.{run_scheduler-IsScheduled}

-- Rounds in which nobody asks the loop to stop.
abbrev pub rounds : {F : Type 0} → List F → List (Bool × F)
rounds [] = []
rounds (t ∷ ts) = (false, t) ∷ rounds ts

module _ {H : Host} where
  abbrev switches_of : Option (ProcessInfo H) → ℕ
  switches_of none = 0
  switches_of (some p) = p.context_switches

  -- How often a process has had its turn.
  abbrev pub switches : System H → ℕ → ℕ
  switches s pid = switches_of (get s.processes pid)

  -- The process at the front is in the table, and READY.
  front_is_ready :
      (pid : ℕ) (rest : List ℕ) (s : System H)
      → s.ready_queue ≡ pid ∷ rest
      → IsScheduled s
      → (p : ProcessInfo H) × (get s.processes pid ≡ some p) × (p.state ≡ ProcessState.ready)
  unfolding count
  front_is_ready pid rest s e h = elim (Option-cases (get s.processes pid)) [
    | inl missing ↦ absurd (ground (arith, h.queued pid, ap (count pid) e))
    | inr (p, there) ↦ (p, there, ground (arith, h.queued pid, ap (count pid) e))
  ]

  -- The first part `xs` of the queue has its turns and goes behind the rest.
  record Turned (xs ys : List ℕ) (s t : System H) : Type 0 where
    queue : t.ready_queue ≡ ys ++ xs
    turns : (j : ℕ) → switches t j ≡ switches s j + count j xs
    states : (j : ℕ) → state_of t j ≡ state_of s j

  scheduler_loop-Turned :
      (times : List H.Float) (xs ys : List ℕ) (s : System H)
      → length times ≡ length xs
      → s.ready_queue ≡ xs ++ ys
      → IsScheduled s
      → Turned xs ys s (scheduler_loop (rounds times) s)
  unfolding scheduler_loop count
  scheduler_loop-Turned [] [] ys s l e h = record {
    queue = e ∙ sym (append-nil ys);
    turns = λ j. omega arith;
    states = λ j. refl;
  }
  scheduler_loop-Turned [] (x ∷ xs) ys s l e h = absurd (omega arith)
  scheduler_loop-Turned (now ∷ times) [] ys s l e h = absurd (omega arith)
  scheduler_loop-Turned (now ∷ times) (x ∷ xs) ys s l e h =
      let (p, there, is_ready) = front_is_ready x (xs ++ ys) s e h in
      let step = run_scheduler-front now x p (xs ++ ys) s e there in
      let rest =
        scheduler_loop-Turned times xs (ys ++ x ∷ []) (run_scheduler now s) (omega arith)
          (ap (λ (t : System H). t.ready_queue) step ∙ append_assoc xs ys (x ∷ []))
          (run_scheduler-IsScheduled now s h) in
      record {
        queue = rest.queue ∙ append_assoc ys (x ∷ []) xs;
        turns = λ j.
            rest.turns j
            ∙ ap (λ (t : System H). switches t j + count j xs) step
            ∙ simp get-ran (ground (arith, there));
        states = λ j.
            rest.states j
            ∙ ap (λ (t : System H). state_of t j) step
            ∙ simp get-ran (ground (arith, there, is_ready));
      }

  -- From a consistent schedule, after as many passes of the scheduler as the ready queue is long,
  -- the queue is as it was, each process in it has had exactly one turn, whatever its priority
  -- and policy, and no other process has had any, and no state has changed.
  pub round_robin :
      (times : List H.Float) (s : System H)
      → length times ≡ length s.ready_queue
      → IsScheduled s
      → let t = scheduler_loop (rounds times) s in
        (t.ready_queue ≡ s.ready_queue)
        × ((pid : ℕ) → switches t pid ≡ switches s pid + count pid s.ready_queue)
        × ((pid : ℕ) → state_of t pid ≡ state_of s pid)
  round_robin times s l h =
      let turned =
        scheduler_loop-Turned times s.ready_queue [] s l (sym (append-nil s.ready_queue)) h in
      (turned.queue, turned.turns, turned.states)
