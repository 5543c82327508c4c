-- ===== src/CoreSystem/Processes/Cases.antt =====
-- The states in which the process calls can leave the system, one premise for each.
use trinity_v4_ai_brain.Prelude.{
  ℕ, ◌+◌, ℤ, String, ◌≡◌, none, some, inl, inr, nat_eq, string_eq, ◌==◌, remove, Bool-cases,
  Option-cases,
}
use trinity_v4_ai_brain.Host.{Host, Env}
use trinity_v4_ai_brain.Dict.{get}
use trinity_v4_ai_brain.Process.{
  ProcessInfo, ProcessState, ProcessPriority, SchedulingPolicy, new_process, is_terminated,
  priority_of, policy_of, last_policy,
}
use trinity_v4_ai_brain.CoreSystem.{System, Reason}
use trinity_v4_ai_brain.CoreSystem.Actions.{block}
use trinity_v4_ai_brain.CoreSystem.Processes.{
  clamp, launch, terminate, process_create, process_exit, process_wait,
}

module _ {H : Host} (P : System H → Type 0) (s : System H) where
  pub process_create_cases :
      (process_id : ℕ) (name : String) (priority policy : ℤ) (env : Env H)
      → P s
      → P (record s { next_pid = s.next_pid + 1 })
      → ((level : ProcessPriority) (rule : SchedulingPolicy)
          → P (
              launch s.next_pid
                (new_process s.next_pid process_id name ProcessState.created level rule
                  (env.created 0))
                env.created
                (record s { next_pid = s.next_pid + 1 })))
      → P (process_create process_id name priority policy env s).1
  unfolding process_create
  process_create_cases process_id name priority policy env refused numbered launched =
      elim (Bool-cases (name == "")) [
        | inl e ↦ rw (e, process_create) refused
        | inr e ↦ elim (Option-cases (priority_of (clamp priority 50))) [
          | inl e1 ↦ rw (e, process_create) (rw e1 numbered)
          | inr (level, e1) ↦ elim (Option-cases (policy_of (clamp policy last_policy))) [
            | inl e2 ↦ rw (e, process_create) (rw e1 (rw e2 numbered))
            | inr (rule, e2) ↦ rw (e, process_create) (rw e1 (rw e2 (launched level rule)))
          ]
        ]
      ]

  pub process_exit_cases :
      (process_id : ℕ) (code : ℤ)
      → P s
      → ((p : ProcessInfo H)
          → get s.processes process_id ≡ some p
          → P (terminate process_id p code s))
      → P (process_exit process_id code s).1
  unfolding process_exit
  process_exit_cases process_id code refused ended =
      elim (Option-cases (get s.processes process_id)) [
        | inl e ↦ rw (e, process_exit) refused
        | inr (p, e) ↦ rw (e, process_exit) (ended p e)
      ]

  pub process_wait_cases :
      (process_id wait_pid : ℕ)
      → P s
      → (get s.processes process_id ≡ none
          → P (record s { ready_queue = remove process_id s.ready_queue }))
      → ((p : ProcessInfo H)
          → get s.processes process_id ≡ some p
          → P (block process_id p (Reason.wait wait_pid) s))
      → P (process_wait process_id wait_pid s).1
  unfolding process_wait
  process_wait_cases process_id wait_pid kept missing blocks =
      elim (Option-cases (get s.processes wait_pid)) [
        | inl e ↦ rw (e, process_wait) kept
        | inr (target, e) ↦ elim (Bool-cases (is_terminated target.state)) [
          | inl over ↦ rw (e, process_wait) (rw over kept)
          | inr runs ↦ elim (Option-cases (get s.processes process_id)) [
            | inl e' ↦ rw (e, process_wait) (rw runs (rw e' (missing e')))
            | inr (p, e') ↦ rw (e, process_wait) (rw runs (rw e' (blocks p e')))
          ]
        ]
      ]
