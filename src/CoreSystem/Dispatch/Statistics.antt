-- ===== src/CoreSystem/Dispatch/Statistics.antt =====
-- What the statistics count.
use trinity_v4_ai_brain.Prelude.{
  ℕ, ◌+◌, ◌≡◌, refl, ◌∙◌, Option, none, some, nat_eq, ◌==◌, if◌then◌else◌, inl, inr, Option-cases,
  arith,
}
use trinity_v4_ai_brain.Host.{Host, Env}
use trinity_v4_ai_brain.Dict.{Dict, get, put}
use trinity_v4_ai_brain.Dict.Laws.{get-put}
use trinity_v4_ai_brain.Syscall.{
  Kwargs, Syscall, SyscallResult, SyscallStats, Outcome, returned, raised, failure,
}
use trinity_v4_ai_brain.CoreSystem.{System}
use trinity_v4_ai_brain.CoreSystem.Regions.{
  init_process_memory, free_process_memory, register, discard,
}
use trinity_v4_ai_brain.CoreSystem.Actions.{block}
use trinity_v4_ai_brain.CoreSystem.Processes.{launch, terminate}
use trinity_v4_ai_brain.CoreSystem.Processes.Cases.{
  process_create_cases, process_exit_cases, process_wait_cases,
}
use trinity_v4_ai_brain.CoreSystem.Regions.Cases.{
  memory_allocate_cases, memory_free_cases, memory_map_cases,
}
use trinity_v4_ai_brain.CoreSystem.Messages.{enqueue, wake}
use trinity_v4_ai_brain.CoreSystem.Messages.Cases.{ipc_send_cases, ipc_receive_cases}
use trinity_v4_ai_brain.CoreSystem.{Reason, wait, ipc_receive}
use trinity_v4_ai_brain.CoreSystem.Dispatch.{call, tally, finish, invoke_syscall}
use trinity_v4_ai_brain.CoreSystem.Dispatch.Kept.{KeptByHandlers, IsFresh, call-kept, tally-IsFresh}

module _ {H : Host} (d : Dict ℕ (SyscallStats H)) where
  Has : System H → Type 0
  Has s = s.syscall_stats ≡ d

  free-Has : (pid : ℕ) (s : System H) → Has s → Has (free_process_memory pid s)
  unfolding Has free_process_memory
  free-Has pid s h = elim (Option-cases (get s.process_memory pid)) [
    | inl e ↦ rw (e, free_process_memory) h
    | inr (rids, e) ↦ rw (e, free_process_memory) h
  ]

  wake-Has : (pid : ℕ) (s : System H) → Has s → Has (wake pid s)
  unfolding Has wake
  wake-Has pid s h = go (get s.blocked_processes pid) refl
    where
      go : (o : Option Reason) → get s.blocked_processes pid ≡ o → Has (wake pid s)
      go none e = rw (e, wake) h
      go (some (wait x)) e = rw (e, wake) h
      go (some ipc_receive) e = rw (e, wake) h

  -- No handler touches the statistics.
  Has-KeptByHandlers : KeptByHandlers {H = H} (λ pid s. Unit {0}) Has
  unfolding Has register discard enqueue launch init_process_memory terminate block
  Has-KeptByHandlers = record {
    creates = λ pid name priority policy env s q h.
        process_create_cases Has s pid name priority policy env h h (λ level rule. h);
    exits = λ pid code s q h. process_exit_cases Has s pid code h (λ p e. free-Has pid _ h);
    waits = λ pid w s q h. process_wait_cases Has s pid w h (λ e. h) (λ p e. h);
    allocates = λ pid size permissions env s new q h.
        memory_allocate_cases Has s pid size permissions env h (λ start access e. h);
    frees = λ pid rid s q h. memory_free_cases Has s pid rid h (λ r e mine. h);
    maps = λ pid target address permissions env s new q h.
        memory_map_cases Has s pid target address permissions env h (λ rid t start access. h);
    sends = λ pid target subject kind payload timeout env s q h.
        ipc_send_cases Has s pid target subject kind payload timeout env h
          (λ to m. wake-Has to _ h);
    receives = λ pid b s q h. ipc_receive_cases Has s pid b h (λ m rest e. h) (λ p e. h);
  }

module _ {H : Host} where
  -- What the caller gets.
  abbrev pub answer : Outcome H → SyscallResult H
  answer (returned r) = r
  answer (raised e) = failure (H.str e)

module _ {H : Host} (number : ℕ) (env : Env H) where
  -- The state in which the handler of a call starts.
  abbrev pub counted : System H → System H
  counted = tally number λ st. record st { calls = st.calls + 1 }

  -- What a call that ends so adds to the statistics of its number.
  abbrev pub entered : Outcome H → SyscallStats H → SyscallStats H
  entered (returned r) st = record st {
    calls = st.calls + 1;
    total_time = H.add st.total_time (H.sub env.finished env.started);
  }
  entered (raised e) st = record st { calls = st.calls + 1; errors = st.errors + 1 }

  got-counted :
      (st : SyscallStats H) (d : Dict ℕ (SyscallStats H)) (t : System H)
      → t.syscall_stats ≡ put d number (record st { calls = st.calls + 1 })
      → get t.syscall_stats number ≡ some (record st { calls = st.calls + 1 })
  got-counted st d t e = rw e (simp get-put (ground arith))

  finish-stats :
      (st : SyscallStats H) (d : Dict ℕ (SyscallStats H)) (o : Outcome H) (t : System H)
      → t.syscall_stats ≡ put d number (record st { calls = st.calls + 1 })
      → get d number ≡ some st
      → ((finish number env (o, t)).0 ≡ answer o)
        × ((j : ℕ)
            → get (finish number env (o, t)).1.syscall_stats j
              ≡ (if number == j then some (entered o st) else get d j))
  unfolding finish tally
  finish-stats st d (returned r) t e there =
      let found = got-counted st d t e in
      rw (found, tally) (refl, λ j. rw e (simp get-put (ground arith)))
  finish-stats st d (raised x) t e there =
      let found = got-counted st d t e in
      rw (found, tally) (refl, λ j. rw e (simp get-put (ground arith)))

  counted-stats :
      (st : SyscallStats H) (s : System H)
      → get s.syscall_stats number ≡ some st
      → (counted s).syscall_stats ≡ put s.syscall_stats number (record st { calls = st.calls + 1 })
  unfolding tally
  counted-stats st s there = rw (there, tally) refl

  -- A call of a number in the call table, with a new uuid, returns what its handler returns, or a
  -- failure with the text of the exception that it raises. In the statistics of that number it
  -- adds one call, and either the elapsed time or one error, as the handler returns or raises;
  -- the statistics of every other number stay.
  pub invoke_syscall_counts :
      (pid : ℕ) (k : Kwargs H) (s : System H) (syscall : Syscall) (st : SyscallStats H)
      → IsFresh env s
      → get s.syscalls number ≡ some syscall
      → get s.syscall_stats number ≡ some st
      → let ended = call syscall.handler syscall.name pid k env (counted s) in
        let r = invoke_syscall pid number k env s in
        (r.0 ≡ answer ended.0)
        × ((j : ℕ)
            → get r.1.syscall_stats j
              ≡ (if number == j then some (entered ended.0 st) else get s.syscall_stats j))
  unfolding invoke_syscall Has
  invoke_syscall_counts pid k s syscall st new known there =
      let ended = call syscall.handler syscall.name pid k env (counted s) in
      let untouched =
        call-kept (Has-KeptByHandlers (counted s).syscall_stats) env syscall.handler syscall.name
          pid k (counted s) (tally-IsFresh env number _ s new) tt refl in
      rw (known, invoke_syscall)
        (finish-stats st s.syscall_stats ended.0 ended.1 (untouched ∙ counted-stats st s there)
          there)
