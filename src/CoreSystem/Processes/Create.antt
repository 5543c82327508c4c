-- ===== src/CoreSystem/Processes/Create.antt =====
-- process_create, by the number of the policy that it is given.
use trinity_v4_ai_brain.Prelude.{
  ℕ, ◌+◌, ◌*◌, ℤ, pos, ltb_ℤ, String, ◌≡◌, ◌≢◌, refl, true, false, none, some, [], ◌∷◌, ◌++◌,
  nat_eq, string_eq, ◌==◌, inl, inr, Option-cases, arith,
}
use trinity_v4_ai_brain.Enum.{find_member_value}
use trinity_v4_ai_brain.Host.{Host, Env, value_error}
use trinity_v4_ai_brain.Dict.{get}
use trinity_v4_ai_brain.Dict.Laws.{dict_laws}
use trinity_v4_ai_brain.Process.{
  ProcessInfo, ProcessState, ProcessPriority, SchedulingPolicy, new_process, priority_of, policy_of,
  policy_value, all_policies, last_policy,
}
use trinity_v4_ai_brain.Memory.{RegionId}
use trinity_v4_ai_brain.Syscall.{Value, returned, succeed}
use trinity_v4_ai_brain.CoreSystem.{System}
use trinity_v4_ai_brain.CoreSystem.Actions.{raise, listed}
use trinity_v4_ai_brain.CoreSystem.Regions.{init_process_memory}
use trinity_v4_ai_brain.CoreSystem.Messages.{inbox}
use trinity_v4_ai_brain.CoreSystem.Processes.{clamp, launch, process_create}

-- The members count from 1, so a number from 1 on is clamped to a member, yet never to the last.
positive_policy :
    (policy : ℤ)
    → ltb_ℤ (pos 0) policy ≡ true
    → (rule : SchedulingPolicy) × (policy_of (clamp policy last_policy) ≡ some rule)
      × (rule ≢ SchedulingPolicy.fair)
positive_policy policy h = elim (Option-cases (policy_of (clamp policy last_policy))) [
  | inl e ↦ absurd (ground (arith, e, h))
  | inr (rule, e) ↦
      let value = find_member_value policy_value all_policies (clamp policy last_policy) rule e in
      (rule, e, λ same. ground (arith, value, same))
]

-- Every other number is clamped to 0, which is no member.
other_policy :
    (policy : ℤ) → ltb_ℤ (pos 0) policy ≡ false → policy_of (clamp policy last_policy) ≡ none
other_policy policy h = ground (arith, h)

module _ {H : Host} where
  -- The new process as the table has it at the end.
  launch-entry :
      (pid : ℕ) (p : ProcessInfo H) (now : ℕ → H.Float) (s : System H)
      → (usage : ℤ) × (get (launch pid p now s).processes pid
          ≡ some (record p { state = ProcessState.ready; memory_usage = usage }))
  unfolding launch init_process_memory
  launch-entry pid p now s = (pos (7 * (1024 * 1024)), simp dict_laws (ground arith))

  launch-places :
      (pid : ℕ) (p : ProcessInfo H) (now : ℕ → H.Float) (s : System H)
      → let t = launch pid p now s in
        (t.ready_queue ≡ s.ready_queue ++ pid ∷ [])
        × (listed (get t.process_memory pid)
            ≡ RegionId.code_segment pid
              ∷ RegionId.data_segment pid
              ∷ RegionId.stack_segment pid
              ∷ [])
        × (inbox t pid ≡ [])
  unfolding launch init_process_memory
  launch-places pid p now s = (refl, simp dict_laws (ground arith), simp dict_laws (ground arith))

  launch-next :
      (pid : ℕ) (p : ProcessInfo H) (now : ℕ → H.Float) (s : System H)
      → (launch pid p now s).next_pid ≡ s.next_pid
  unfolding launch init_process_memory
  launch-next pid p now s = refl

  -- With a name, a priority that is clamped to a member, and a policy number from 1 on,
  -- process_create returns the next id and gives it out; the new process, a child of the caller
  -- with that priority, is READY at the end of the queue, with its three segments listed, no
  -- message, and a policy that is never FAIR.
  pub process_create_launches :
      (pid : ℕ) (name : String) (priority policy : ℤ) (level : ProcessPriority) (env : Env H)
      (s : System H)
      → (name == "") ≡ false
      → priority_of (clamp priority 50) ≡ some level
      → ltb_ℤ (pos 0) policy ≡ true
      → let (outcome, t) = process_create pid name priority policy env s in
        (outcome ≡ returned (succeed (Value.pid s.next_pid)))
        × (t.next_pid ≡ s.next_pid + 1)
        × ((p : ProcessInfo H) × (get t.processes s.next_pid ≡ some p)
            × (p.state ≡ ProcessState.ready)
            × (p.parent_id ≡ pid)
            × (p.priority ≡ level)
            × (p.policy ≢ SchedulingPolicy.fair))
        × (t.ready_queue ≡ s.ready_queue ++ s.next_pid ∷ [])
        × (listed (get t.process_memory s.next_pid)
            ≡ RegionId.code_segment s.next_pid
              ∷ RegionId.data_segment s.next_pid
              ∷ RegionId.stack_segment s.next_pid
              ∷ [])
        × (inbox t s.next_pid ≡ [])
  unfolding process_create
  process_create_launches pid name priority policy level env s named valid positive =
      let (rule, e, not_fair) = positive_policy policy positive in
      let p = new_process s.next_pid pid name ProcessState.created level rule (env.created 0) in
      let numbered = record s { next_pid = s.next_pid + 1 } in
      let (usage, entry) = launch-entry s.next_pid p env.created numbered in
      let (queue, memory, messages) = launch-places s.next_pid p env.created numbered in
      rw (named, process_create)
        (rw valid (
          rw e (
            refl,
            launch-next s.next_pid p env.created numbered,
            (_, entry, refl, refl, refl, not_fair),
            queue,
            memory,
            messages,
          )))

  -- With a name and a priority that is clamped to a member, but a policy number of 0, the
  -- default, or below, process_create raises a ValueError, and of the state only the next id has
  -- changed.
  pub process_create_rejects :
      (pid : ℕ) (name : String) (priority policy : ℤ) (level : ProcessPriority) (env : Env H)
      (s : System H)
      → (name == "") ≡ false
      → priority_of (clamp priority 50) ≡ some level
      → ltb_ℤ (pos 0) policy ≡ false
      → process_create pid name priority policy env s
        ≡ raise
            (value_error "SchedulingPolicy" (clamp policy last_policy))
            (record s { next_pid = s.next_pid + 1 })
  unfolding process_create
  process_create_rejects pid name priority policy level env s named valid other =
      rw (named, process_create) (rw valid (rw (other_policy policy other) refl))
