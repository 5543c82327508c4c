-- ===== src/CoreSystem/Boot/Cases.antt =====
-- The states in which `initialize`, `start` and `stop` can leave the system.
use trinity_v4_ai_brain.Prelude.{ℕ, ◌≡◌, Bool, true, false, if_cases}
use trinity_v4_ai_brain.Host.{Host}
use trinity_v4_ai_brain.CoreSystem.{System}
use trinity_v4_ai_brain.CoreSystem.Boot.{
  Probe, found, not_installed, failed, boot, boot_from, initialize, run_thread, start, stop,
}

module _ {H : Host} (P : System H → Type 0) where
  pub initialize_cases :
      (probe : Probe) (now : ℕ → H.Float) (s : System H)
      → P s
      → (s.initialized ≡ false → (total available : ℕ) → P (boot total available now s))
      → P (initialize probe now s).1
  unfolding initialize
  initialize_cases probe now s kept booted =
      if_cases (λ r. P r.1) s.initialized (true, s) (boot_from probe now s) (λ e. kept) (go probe)
    where
      go : (probe : Probe) → s.initialized ≡ false → P (boot_from probe now s).1
      go (found total available) e = booted e total available
      go not_installed e = booted e _ _
      go failed e = kept

  run_thread_cases :
      (begun : Bool) (r : Bool × System H)
      → P r.1
      → ((s : System H) (b c d : Bool)
          → P s
          → P (record s { stop_requested = b; scheduler_thread = c; running = d }))
      → P (run_thread begun r).1
  unfolding run_thread
  run_thread_cases begun (false, s) p flags = p
  run_thread_cases begun (true, s) p flags =
      if_cases (λ (r : Bool × System H). P r.1) s.running (true, s) _ (λ e. p)
        (λ e. flags s _ _ _ p)

  pub start_cases :
      (begun : Bool) (probe : Probe) (now : ℕ → H.Float) (s : System H)
      → P (initialize probe now s).1
      → ((t : System H) (b c d : Bool)
          → P t
          → P (record t { stop_requested = b; scheduler_thread = c; running = d }))
      → P (start begun probe now s).1
  unfolding start
  start_cases begun probe now s = run_thread_cases begun (initialize probe now s)

  pub stop_cases :
      (s : System H)
      → P s
      → ((t : System H) (b c d : Bool)
          → P t
          → P (record t { stop_requested = b; scheduler_thread = c; running = d }))
      → P (stop s).1
  unfolding stop
  stop_cases s p flags =
      if_cases (λ (r : Bool × System H). P r.1) s.running _ (true, s) (λ e. flags s _ _ _ p)
        (λ e. p)
