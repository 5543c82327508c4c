-- ===== src/CoreSystem/Tests/Ranks.antt =====
-- The scheduler with other priorities for the processes of the small history.
use trinity_v4_ai_brain.Prelude.{ℕ, ◌≡◌, false, true, ◌∷◌, [], ◌==◌, nat_eq, if◌then◌else◌}
use trinity_v4_ai_brain.Process.{ProcessPriority, SchedulingPolicy}
use trinity_v4_ai_brain.CoreSystem.Scheduler.{scheduler_loop}
use trinity_v4_ai_brain.CoreSystem.Scheduler.Priorities.{reranked, scheduler_loop-reranked}
use trinity_v4_ai_brain.CoreSystem.Tests.{with_server}

-- The worker is an IDLE process now, and all others are SYSTEM processes.
abbrev levels : ℕ → ProcessPriority
levels pid = if pid == 1000 then ProcessPriority.idle else ProcessPriority.system

abbrev rules : ℕ → SchedulingPolicy
rules pid = SchedulingPolicy.priority

scheduler_loop-reranked_example :
    scheduler_loop ((false, 310) ∷ (true, 320) ∷ []) (reranked levels rules with_server)
    ≡ reranked levels rules (scheduler_loop ((false, 310) ∷ (true, 320) ∷ []) with_server)
scheduler_loop-reranked_example =
    scheduler_loop-reranked levels rules ((false, 310) ∷ (true, 320) ∷ []) with_server
