-- ===== src/CoreSystem/Dispatch/Kept.antt =====
-- A predicate that each handler keeps is kept by `invoke_syscall`, on every path.
use trinity_v4_ai_brain.Prelude.{
  ℕ, ℤ, String, Bool, ◌≡◌, Option, none, some, inl, inr, nat_eq, Bool-cases, Option-cases,
}
use trinity_v4_ai_brain.Host.{Host, Env, Exception}
use trinity_v4_ai_brain.Dict.{Dict, get}
use trinity_v4_ai_brain.Memory.{RegionId, region_id_eq}
use trinity_v4_ai_brain.Syscall.{
  Handler, Kwargs, SyscallStats, Outcome, Target, returned, raised, takes_only,
}
use trinity_v4_ai_brain.CoreSystem.{System}
use trinity_v4_ai_brain.CoreSystem.Processes.{process_create, process_exit, process_wait}
use trinity_v4_ai_brain.CoreSystem.Regions.{memory_allocate, memory_free, memory_map}
use trinity_v4_ai_brain.CoreSystem.Messages.{ipc_send, ipc_receive}
use trinity_v4_ai_brain.CoreSystem.Dispatch.{
  parameters, bind, run_bound, call, tally, finish, invoke_syscall,
}

-- The uuid that a call draws is in no use yet.
abbrev pub IsFresh : {H : Host} → Env H → System H → Type 0
IsFresh env s = get s.memory_regions (RegionId.uuid env.uuid) ≡ none

-- `P` is what each handler keeps, where `Q` holds of the id of the caller.
pub record KeptByHandlers {H : Host} (Q : ℕ → System H → Type 0) (P : System H → Type 0)
    : Type 0 where
  pub creates :
      (pid : ℕ) (name : String) (priority policy : ℤ) (env : Env H) (s : System H)
      → Q pid s
      → P s
      → P (process_create pid name priority policy env s).1
  pub exits : (pid : ℕ) (code : ℤ) (s : System H) → Q pid s → P s → P (process_exit pid code s).1
  pub waits : (pid wait_pid : ℕ) (s : System H) → Q pid s → P s → P (process_wait pid wait_pid s).1
  pub allocates :
      (pid : ℕ) (size permissions : ℤ) (env : Env H) (s : System H)
      → IsFresh env s
      → Q pid s
      → P s
      → P (memory_allocate pid size permissions env s).1
  pub frees :
      (pid : ℕ) (rid : RegionId) (s : System H) → Q pid s → P s → P (memory_free pid rid s).1
  pub maps :
      (pid : ℕ) (target : Target) (address permissions : ℤ) (env : Env H) (s : System H)
      → IsFresh env s
      → Q pid s
      → P s
      → P (memory_map pid target address permissions env s).1
  pub sends :
      (pid : ℕ) (target : Target) (subject : String) (kind : ℤ) (payload : H.Any)
      (timeout : H.Float) (env : Env H) (s : System H)
      → Q pid s
      → P s
      → P (ipc_send pid target subject kind payload timeout env s).1
  pub receives :
      (pid : ℕ) (wait : Bool) (s : System H) → Q pid s → P s → P (ipc_receive pid wait s).1

-- `Q` and `P` do not look at the statistics.
pub record KeptByCounts {H : Host} (Q : ℕ → System H → Type 0) (P : System H → Type 0)
    : Type 0 where
  pub callers :
      (pid : ℕ) (stats : Dict ℕ (SyscallStats H)) (s : System H)
      → Q pid s
      → Q pid (record s { syscall_stats = stats })
  pub counts :
      (stats : Dict ℕ (SyscallStats H)) (s : System H)
      → P s
      → P (record s { syscall_stats = stats })

module _ {H : Host} {Q : ℕ → System H → Type 0} {P : System H → Type 0} (kept : KeptByHandlers Q P)
    (env : Env H) where
  abbrev Runs : System H → Option (System H → Outcome H × System H) → Type 0
  Runs s none = Unit {0}
  Runs s (some run) = P (run s).1

  bind-kept :
      (h : Handler) (pid : ℕ) (k : Kwargs H) (s : System H)
      → IsFresh env s
      → Q pid s
      → P s
      → Runs s (bind h pid k env)
  unfolding bind
  bind-kept Handler.process_create pid k s new q p = elim (Option-cases k.name) [
    | inl e ↦ rw (e, bind) tt
    | inr (name, e) ↦ rw (e, bind) (kept.creates pid name _ _ env s q p)
  ]
  bind-kept Handler.process_exit pid k s new q p = kept.exits pid _ s q p
  bind-kept Handler.process_wait pid k s new q p = elim (Option-cases k.wait_pid) [
    | inl e ↦ rw (e, bind) tt
    | inr (w, e) ↦ rw (e, bind) (kept.waits pid w s q p)
  ]
  bind-kept Handler.memory_allocate pid k s new q p = elim (Option-cases k.size) [
    | inl e ↦ rw (e, bind) tt
    | inr (size, e) ↦ rw (e, bind) (kept.allocates pid size _ env s new q p)
  ]
  bind-kept Handler.memory_free pid k s new q p = elim (Option-cases k.region_id) [
    | inl e ↦ rw (e, bind) tt
    | inr (rid, e) ↦ rw (e, bind) (kept.frees pid rid s q p)
  ]
  bind-kept Handler.memory_map pid k s new q p = elim (Option-cases k.target_id) [
    | inl e ↦ rw (e, bind) tt
    | inr (target, e) ↦ elim (Option-cases k.local_address) [
      | inl e1 ↦ rw (e, bind) (rw e1 tt)
      | inr (address, e1) ↦ rw (e, bind) (rw e1 (kept.maps pid target address _ env s new q p))
    ]
  ]
  bind-kept Handler.ipc_send pid k s new q p = elim (Option-cases k.target_id) [
    | inl e ↦ rw (e, bind) tt
    | inr (target, e) ↦ elim (Option-cases k.subject) [
      | inl e1 ↦ rw (e, bind) (rw e1 tt)
      | inr (subject, e1) ↦ rw (e, bind) (rw e1 (kept.sends pid target subject _ _ _ env s q p))
    ]
  ]
  bind-kept Handler.ipc_receive pid k s new q p = kept.receives pid _ s q p

  run_bound-kept :
      (e : Exception) (o : Option (System H → Outcome H × System H)) (s : System H)
      → P s
      → Runs s o
      → P (run_bound e o s).1
  unfolding run_bound
  run_bound-kept e none s p runs = p
  run_bound-kept e (some run) s p runs = runs

  pub call-kept :
      (h : Handler) (name : String) (pid : ℕ) (k : Kwargs H) (s : System H)
      → IsFresh env s
      → Q pid s
      → P s
      → P (call h name pid k env s).1
  unfolding call
  call-kept h name pid k s new q p = elim (Bool-cases (takes_only (parameters h) k)) [
    | inl e ↦ rw (e, call) (run_bound-kept _ (bind h pid k env) s p (bind-kept h pid k s new q p))
    | inr e ↦ rw (e, call) p
  ]

module _ {H : Host} {Q : ℕ → System H → Type 0} {P : System H → Type 0} (counted : KeptByCounts Q P)
    (env : Env H) where
  tally-kept :
      (number : ℕ) (f : SyscallStats H → SyscallStats H) (s : System H) → P s → P (tally number f s)
  unfolding tally
  tally-kept number f s p = elim (Option-cases (get s.syscall_stats number)) [
    | inl e ↦ rw (e, tally) p
    | inr (st, e) ↦ rw (e, tally) (counted.counts _ s p)
  ]

  tally-callers :
      (pid number : ℕ) (f : SyscallStats H → SyscallStats H) (s : System H)
      → Q pid s
      → Q pid (tally number f s)
  unfolding tally
  tally-callers pid number f s q = elim (Option-cases (get s.syscall_stats number)) [
    | inl e ↦ rw (e, tally) q
    | inr (st, e) ↦ rw (e, tally) (counted.callers pid _ s q)
  ]

  finish-kept : (number : ℕ) (r : Outcome H × System H) → P r.1 → P (finish number env r).1
  unfolding finish
  finish-kept number (returned r, s) p = tally-kept number _ s p
  finish-kept number (raised e, s) p = tally-kept number _ s p

module _ {H : Host} (env : Env H) where
  pub tally-IsFresh :
      (number : ℕ) (f : SyscallStats H → SyscallStats H) (s : System H)
      → IsFresh env s
      → IsFresh env (tally number f s)
  unfolding tally
  tally-IsFresh number f s new = elim (Option-cases (get s.syscall_stats number)) [
    | inl e ↦ rw (e, tally) new
    | inr (st, e) ↦ rw (e, tally) new
  ]

module _ {H : Host} {Q : ℕ → System H → Type 0} {P : System H → Type 0} (kept : KeptByHandlers Q P)
    (counted : KeptByCounts Q P) (env : Env H) where
  pub invoke_syscall-kept :
      (pid number : ℕ) (k : Kwargs H) (s : System H)
      → IsFresh env s
      → Q pid s
      → P s
      → P (invoke_syscall pid number k env s).1
  unfolding invoke_syscall
  invoke_syscall-kept pid number k s new q p = elim (Option-cases (get s.syscalls number)) [
    | inl e ↦ rw (e, invoke_syscall) p
    | inr (syscall, e) ↦
        rw (e, invoke_syscall)
          (finish-kept counted env number _ (
            call-kept kept env syscall.handler syscall.name pid k _
              (tally-IsFresh env number _ s new) (tally-callers counted env pid number _ s q)
              (tally-kept counted env number _ s p)))
  ]
