-- ===== src/CoreSystem/Reach/Bounds.antt =====
-- How long the ready queue can grow.
use trinity_v4_ai_brain.Prelude.{
  ℕ, ◌≤◌, ◌<◌, ◌≡◌, Bool, true, false, nat_eq, is_some, length, length-count, count, arith,
  indicator, Option-cases, inl, inr, ap, ◌∙◌,
}
use trinity_v4_ai_brain.Host.{Host}
use trinity_v4_ai_brain.Dict.{get, keys}
use trinity_v4_ai_brain.Dict.Laws.{get-keys}
use trinity_v4_ai_brain.Process.{is_ready}
use trinity_v4_ai_brain.CoreSystem.{System, init, status}
use trinity_v4_ai_brain.CoreSystem.Scheduling.{IsScheduled, places}
use trinity_v4_ai_brain.CoreSystem.Reach.{Reach}
use trinity_v4_ai_brain.CoreSystem.Reach.Invariant.{reach-IsSound}

indicator_bound : (b : Bool) (n : ℕ) → 0 < n → indicator b ≤ n
indicator_bound true n h = omega arith
indicator_bound false n h = omega arith

module _ {H : Host} where
  queue_bound :
      (s : System H)
      → IsScheduled s
      → (pid : ℕ) → count pid s.ready_queue ≤ count pid (keys s.processes)
  queue_bound s h pid = elim (Option-cases (get s.processes pid)) [
    | inl missing ↦ ground (arith, h.queued pid, missing)
    | inr (p, there) ↦
        let one : 0 < count pid (keys s.processes) = get-keys s.processes pid (ap is_some there) in
        let placed : count pid s.ready_queue ≡ indicator (is_ready p.state) =
          h.queued pid ∙ ap (λ o. places (status o)) there in
        rw (placed) (indicator_bound (is_ready p.state) _ one)
  ]

  -- In every state that a new CoreSystem reaches, by the steps of a history, the ready queue is
  -- at most as long as the process table.
  pub reach-queue_bound :
      (t : System H) → Reach init t → length t.ready_queue ≤ length (keys t.processes)
  reach-queue_bound t r =
      length-count t.ready_queue (keys t.processes) (queue_bound t (reach-IsSound t r).scheduled)
