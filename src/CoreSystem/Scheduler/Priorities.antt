-- ===== src/CoreSystem/Scheduler/Priorities.antt =====
-- What the scheduler does not look at: the priority and the policy of a process.
use trinity_v4_ai_brain.Prelude.{
  ℕ, ◌⊎◌, ◌≡◌, refl, ap, ◌∙◌, sym, Bool, true, false, Option, none, some, List, [], ◌∷◌, ◌++◌, ◌+◌,
  nat_eq, ◌==◌, inl, inr, Option-cases, Bool-cases,
}
use trinity_v4_ai_brain.Host.{Host}
use trinity_v4_ai_brain.Dict.{Dict, get, put, find, write, adjust}
use trinity_v4_ai_brain.Process.{ProcessInfo, ProcessState, ProcessPriority, SchedulingPolicy}
use trinity_v4_ai_brain.CoreSystem.{System}
use trinity_v4_ai_brain.CoreSystem.Scheduler.{run_scheduler, scheduler_loop}
use trinity_v4_ai_brain.CoreSystem.Scheduler.Pass.{
  ran, running_table, after_turn, run_scheduler-idle, run_scheduler-missing, run_scheduler-front,
}

-- Cases of a list.
list-cases : (xs : List ℕ) → (xs ≡ []) ⊎ ((x : ℕ) × ((rest : List ℕ) × (xs ≡ x ∷ rest)))
list-cases [] = inl refl
list-cases (x ∷ rest) = inr (x, (rest, refl))

module _ {H : Host} (levels : ℕ → ProcessPriority) (rules : ℕ → SchedulingPolicy) where
  abbrev ranked : ℕ → ProcessInfo H → ProcessInfo H
  ranked pid p = record p { priority = levels pid; policy = rules pid }

  abbrev ranked_option : ℕ → Option (ProcessInfo H) → Option (ProcessInfo H)
  ranked_option pid none = none
  ranked_option pid (some p) = some (ranked pid p)

  unfoldable pub ranked_items : List (ℕ × ProcessInfo H) → List (ℕ × ProcessInfo H)
  ranked_items [] = []
  ranked_items ((pid, p) ∷ rest) = (pid, ranked pid p) ∷ ranked_items rest

  -- The system with these priorities and policies for its processes, and everything else as it is.
  abbrev pub reranked : System H → System H
  reranked s = record s { processes = record { items = ranked_items s.processes.items } }

  find-ranked :
      (pid : ℕ) (xs : List (ℕ × ProcessInfo H))
      → find pid (ranked_items xs) ≡ ranked_option pid (find pid xs)
  unfolding find ranked_items
  find-ranked pid [] = refl
  find-ranked pid ((j, p) ∷ rest) = elim (Bool-cases (j == pid)) [
    | inl e ↦ rw (e) (ap (λ i. some (ranked i p)) ((nat_eq.beq_iff j pid).0 e))
    | inr e ↦ rw (e) (find-ranked pid rest)
  ]

  write-ranked :
      (pid : ℕ) (p : ProcessInfo H) (xs : List (ℕ × ProcessInfo H))
      → write pid (ranked pid p) (ranked_items xs) ≡ ranked_items (write pid p xs)
  unfolding write ranked_items
  write-ranked pid p [] = refl
  write-ranked pid p ((j, q) ∷ rest) = elim (Bool-cases (j == pid)) [
    | inl e ↦
        rw (e) (ap (λ i. (j, ranked i p) ∷ ranked_items rest) (sym ((nat_eq.beq_iff j pid).0 e)))
    | inr e ↦ rw (e) (ap (λ xs. (j, ranked j q) ∷ xs) (write-ranked pid p rest))
  ]

  abbrev ranked_dict : Dict ℕ (ProcessInfo H) → Dict ℕ (ProcessInfo H)
  ranked_dict d = record { items = ranked_items d.items }

  get-ranked :
      (d : Dict ℕ (ProcessInfo H)) (pid : ℕ)
      → get (ranked_dict d) pid ≡ ranked_option pid (get d pid)
  unfolding get
  get-ranked d pid = find-ranked pid d.items

  put-ranked :
      (d : Dict ℕ (ProcessInfo H)) (pid : ℕ) (p : ProcessInfo H)
      → put (ranked_dict d) pid (ranked pid p) ≡ ranked_dict (put d pid p)
  unfolding put
  put-ranked d pid p = ap (λ xs. record { items = xs }) (write-ranked pid p d.items)

  adjust-ranked :
      (d : Dict ℕ (ProcessInfo H)) (pid : ℕ) (f : ProcessInfo H → ProcessInfo H)
      → ((p : ProcessInfo H) → f (ranked pid p) ≡ ranked pid (f p))
      → adjust (ranked_dict d) pid f ≡ ranked_dict (adjust d pid f)
  unfolding adjust
  adjust-ranked d pid f same = elim (Option-cases (get d pid)) [
    | inl absent ↦ rw (get-ranked, absent, adjust) refl
    | inr (p, there) ↦ rw (get-ranked, there, adjust, same) (put-ranked d pid (f p))
  ]

  ran-ranked :
      (now : H.Float) (pid : ℕ) (p : ProcessInfo H) (d : Dict ℕ (ProcessInfo H))
      → ran now pid (ranked pid p) (ranked_dict d) ≡ ranked_dict (ran now pid p d)
  unfolding ran running_table
  ran-ranked now pid p d =
      rw
        (
          put-ranked d pid (record p { state = ProcessState.running; last_run = now }),
          adjust-ranked (put d pid (record p { state = ProcessState.running; last_run = now })) pid
              (λ q. record q {
                runtime = H.add q.runtime p.time_slice;
                context_switches = q.context_switches + 1;
              })
              (λ q. refl),
        )
        (put-ranked _ pid (after_turn now p))

  run_scheduler-reranked :
      (now : H.Float) (s : System H)
      → run_scheduler now (reranked s) ≡ reranked (run_scheduler now s)
  run_scheduler-reranked now s = elim (list-cases s.ready_queue) [
    | inl e ↦ run_scheduler-idle now (reranked s) e ∙ ap reranked (sym (run_scheduler-idle now s e))
    | inr (pid, (rest, e)) ↦ elim (Option-cases (get s.processes pid)) [
      | inl absent ↦
          run_scheduler-missing now (reranked s) pid rest e
            (get-ranked s.processes pid ∙ ap (ranked_option pid) absent)
          ∙ ap reranked (sym (run_scheduler-missing now s pid rest e absent))
      | inr (p, there) ↦
          run_scheduler-front now pid (ranked pid p) rest (reranked s) e
            (get-ranked s.processes pid ∙ ap (ranked_option pid) there)
          ∙ ap (λ d. record (reranked s) { processes = d; ready_queue = rest ++ pid ∷ [] })
              (ran-ranked now pid p s.processes)
          ∙ ap reranked (sym (run_scheduler-front now pid p rest s e there))
    ]
  ]

  -- The scheduler looks at no priority and no policy: with any others for the processes, any
  -- rounds of its loop do the same from any state, and leave them as they are.
  pub scheduler_loop-reranked :
      (rounds : List (Bool × H.Float)) (s : System H)
      → scheduler_loop rounds (reranked s) ≡ reranked (scheduler_loop rounds s)
  unfolding scheduler_loop
  scheduler_loop-reranked [] s = refl
  scheduler_loop-reranked ((true, now) ∷ rounds) s = refl
  scheduler_loop-reranked ((false, now) ∷ rounds) s =
      ap (scheduler_loop rounds) (run_scheduler-reranked now s)
      ∙ scheduler_loop-reranked rounds (run_scheduler now s)
