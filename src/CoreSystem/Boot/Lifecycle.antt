-- ===== src/CoreSystem/Boot/Lifecycle.antt =====
-- Starting, stopping and starting again.
use trinity_v4_ai_brain.Prelude.{ℕ, ◌≡◌, refl, ◌∙◌, ap, Bool, true, false, if◌then◌else◌, if_cases}
use trinity_v4_ai_brain.Host.{Host}
use trinity_v4_ai_brain.CoreSystem.{System}
use trinity_v4_ai_brain.CoreSystem.Boot.{
  Probe, found, not_installed, failed, boot, boot_from, initialize, run_thread, start, stop,
}

module _ {H : Host} where
  initialize-again :
      (probe : Probe) (now : ℕ → H.Float) (s : System H)
      → s.initialized ≡ true
      → initialize probe now s ≡ (true, s)
  unfolding initialize
  initialize-again probe now s e = ap (λ b. if b then (true, s) else boot_from probe now s) e

  -- A successful end is an initialized one.
  Booted : Bool × System H → Type 0
  Booted r = r.0 ≡ true → r.1.initialized ≡ true

  initialize-Booted :
      (probe : Probe) (now : ℕ → H.Float) (s : System H) → Booted (initialize probe now s)
  unfolding Booted initialize boot_from boot
  initialize-Booted probe now s =
      if_cases Booted s.initialized (true, s) (boot_from probe now s) (λ e _. e) (λ e. go probe)
    where
      go : (probe : Probe) → Booted (boot_from probe now s)
      go (found total available) = λ _. refl
      go not_installed = λ _. refl
      go failed = λ e. cc

  Running : Bool × System H → Type 0
  Running r = r.0 ≡ true → (r.1.running ≡ true) × (r.1.initialized ≡ true)

  run_thread-Running : (r : Bool × System H) → Booted r → Running (run_thread true r)
  unfolding Booted Running run_thread
  run_thread-Running (false, s) h = λ e. cc
  run_thread-Running (true, s) h =
      if_cases Running s.running (true, s) _ (λ e _. (e, h refl)) (λ e _. (refl, h refl))

  stop-running :
      (s : System H)
      → s.running ≡ true
      → stop s
        ≡ (true, record s { stop_requested = true; scheduler_thread = false; running = false })
  unfolding stop
  stop-running s e =
      ap
        (λ b.
          if b
          then (true, record s { stop_requested = true; scheduler_thread = false; running = false })
          else (true, s))
        e

  start-initialized :
      (probe : Probe) (now : ℕ → H.Float) (s : System H)
      → s.initialized ≡ true
      → s.running ≡ false
      → start true probe now s
        ≡ (true, record s { stop_requested = false; scheduler_thread = true; running = true })
  unfolding start run_thread
  start-initialized probe now s e idle =
      ap (run_thread true) (initialize-again probe now s e)
      ∙ ap
          (λ b. if b then (true, s) else (
            true,
            record s { stop_requested = false; scheduler_thread = true; running = true },
          ))
          idle

  -- When start succeeds, and its thread can be started, the system is running and initialized;
  -- stop then succeeds and changes the three flags of the scheduler alone; starting again
  -- succeeds, without initializing anew whatever psutil answers, and changes those flags alone.
  pub start_stop_start :
      (probe again : Probe) (now later : ℕ → H.Float) (s : System H)
      → (start true probe now s).0 ≡ true
      → let t = (start true probe now s).1 in
        let u = record t { stop_requested = true; scheduler_thread = false; running = false } in
        (t.running ≡ true)
        × (t.initialized ≡ true)
        × (stop t ≡ (true, u))
        × (start true again later u
            ≡ (true, record t { stop_requested = false; scheduler_thread = true; running = true }))
  unfolding start Running
  start_stop_start probe again now later s e =
      let (runs, booted) =
        run_thread-Running (initialize probe now s) (initialize-Booted probe now s) e in
      (runs, booted, stop-running _ runs, start-initialized again later _ booted refl)
