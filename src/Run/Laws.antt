-- ===== src/Run/Laws.antt =====
-- The agent over every sequence of events (rust/src/supervisor/mod.rs, `tick` and `handle`).
use open_code_server.Base.{
  ℕ, Bool, ◌≡◌, ◌≢◌, ◌⊎◌, inl, inr, refl, ◌∙◌, ◌+◌, ◌≤◌, List, [], ◌∷◌, Option, none, some, Result,
  ok, err, arith,
}
use open_code_server.Protocol.{Command}
use open_code_server.RuntimeState.{ProcessRecord}
use open_code_server.World.{World, IoError}
use open_code_server.Process.Cleanup.{sigkill}
use open_code_server.Process.Group.{
  signal_owned, signal_validated, signal_observed, validate_live_leader,
}
use open_code_server.Process.Managed.{ManagedProcess, signal, signal_attached}
use open_code_server.Supervisor.State.{Supervisor}
use open_code_server.Supervisor.Lifecycle.{force_stop, kill_process, after_kill}
use open_code_server.Supervisor.Tick.{handle}
use open_code_server.Trace.Score.{Tariff, total, score, FreeLaunch}
use open_code_server.Trace.Process.{
  observe_members-score, validate_live_leader-score, identity_matches-score, signal-score,
}
use open_code_server.Trace.Tick.{tick-score, poll_now-score, refresh_now-score, handle-score}
use open_code_server.Run.{
  Event, step, run, forces, force_stops, kills, kill_tariff, unmarked_launches, unmarked_tariff,
}

module _ (c : Tariff) (number : ℕ) (one : (group : ℕ) → c.on_signal group number ≤ 1) where
  signal_validated-bound :
      (w : World) (r : ProcessRecord) (pid : ℕ) (valid : Result IoError (Unit {0}))
      → score c (signal_validated w r pid number valid).1 ≤ 1 + score c w
  unfolding signal_validated signal_observed total
  signal_validated-bound w r pid (err e) = omega arith
  signal_validated-bound w r pid (ok _) =
      grind (arith, observe_members-score, one r.process_group_id)

  signal_owned-bound :
      (w : World) (r : ProcessRecord) (pid : ℕ) (exited : Bool)
      → score c (signal_owned w r pid exited number).1 ≤ 1 + score c w
  unfolding signal_owned total
  signal_owned-bound w r pid exited = ground (
    arith,
    signal_validated-bound w r pid (ok tt),
    signal_validated-bound (validate_live_leader w r pid).1 r pid (validate_live_leader w r pid).0,
    validate_live_leader-score c w r pid,
  )

  signal_attached-bound :
      (w : World) (same : Result IoError Bool) (r : ProcessRecord)
      → score c (signal_attached w same r number).1 ≤ 1 + score c w
  unfolding signal_attached total
  signal_attached-bound w same r = ground (arith, one r.process_group_id)

  -- One request for a signal sends at most one.
  pub signal-bound :
      (w : World) (p : ManagedProcess) → score c (signal w p number).1 ≤ 1 + score c w
  unfolding signal total
  signal-bound w (ManagedProcess.child pid r cleanup failed) = grind (arith, signal_owned-bound)
  signal-bound w (ManagedProcess.attached r) =
      grind (arith, signal_attached-bound, identity_matches-score)

after_kill-score :
    (c : Tariff) (sent : Result IoError (Unit {0})) (s : Supervisor)
    → score c (after_kill sent s).1.world ≡ score c s.world
unfolding after_kill
after_kill-score c (ok _) s = refl
after_kill-score c (err e) s = refl

kill_process-bound :
    (p : Option ManagedProcess) (s : Supervisor)
    → kills (kill_process p s).1.world.trace ≤ 1 + kills s.world.trace
unfolding kill_process
kill_process-bound none s = omega arith
kill_process-bound (some p) s =
    grind (arith, after_kill-score, signal-bound kill_tariff sigkill (λ group. omega arith))

force_stop-bound : (s : Supervisor) → kills (force_stop s).1.world.trace ≤ 1 + kills s.world.trace
unfolding force_stop
force_stop-bound s = grind (arith, kill_process-bound)

is_force_stop-cases :
    (c : Command)
    → (c ≡ Command.force_stop) ⊎ ((c ≢ Command.force_stop) × (forces (Event.command c) ≡ 0))
is_force_stop-cases Command.force_stop = inl refl
is_force_stop-cases Command.status = inr ((λ e. cc), refl)
is_force_stop-cases Command.start = inr ((λ e. cc), refl)
is_force_stop-cases Command.stop = inr ((λ e. cc), refl)
is_force_stop-cases Command.continue_stop = inr ((λ e. cc), refl)
is_force_stop-cases Command.restart = inr ((λ e. cc), refl)
is_force_stop-cases Command.refresh_fda = inr ((λ e. cc), refl)
is_force_stop-cases Command.refresh_credentials = inr ((λ e. cc), refl)
is_force_stop-cases Command.credential_changed = inr ((λ e. cc), refl)
is_force_stop-cases Command.credential_removed = inr ((λ e. cc), refl)
is_force_stop-cases Command.validate_config = inr ((λ e. cc), refl)
is_force_stop-cases Command.subscribe = inr ((λ e. cc), refl)

force_command-kills :
    (s : Supervisor) → kills (handle s Command.force_stop).1.world.trace ≤ 1 + kills s.world.trace
unfolding handle
force_command-kills s = grind (arith, force_stop-bound)

command-kills :
    (s : Supervisor) (c : Command)
    → kills (handle s c).1.world.trace ≤ forces (Event.command c) + kills s.world.trace
command-kills s c = elim (is_force_stop-cases c) [
  | inl e ↦ rw e (force_command-kills s)
  | inr (h, free) ↦
      ground (arith, handle-score kill_tariff (λ group. refl) (λ t marked. refl) s c h)
]

step-kills :
    (s : Supervisor) (event : Event)
    → kills (step s event).world.trace ≤ forces event + kills s.world.trace
unfolding step
step-kills s Event.turn =
    ground (arith, tick-score kill_tariff (λ group. refl) (λ t marked. refl) s)
step-kills s Event.child_exit =
    ground (arith, poll_now-score kill_tariff (λ group. refl) (λ t marked. refl) s)
step-kills s Event.config_changed =
    ground (arith, refresh_now-score kill_tariff (λ group. refl) (λ t marked. refl) s)
step-kills s (Event.command c) = command-kills s c
step-kills s (Event.environment services) = omega arith

-- Over every sequence of turns, reported exits, configuration changes, commands and changes of the
-- rest of the system, the number of SIGKILLs that the supervisor sends to process groups of OpenCode
-- is at most the number of forced stops among the commands. The signals that the version query sends
-- to its own subprocess are not counted.
pub run-kills :
    (s : Supervisor) (events : List Event)
    → kills (run s events).world.trace ≤ force_stops events + kills s.world.trace
unfolding run force_stops
run-kills s [] = omega arith
run-kills s (event ∷ events) = ground (arith, run-kills (step s event) events, step-kills s event)

-- A launch whose marker is the last synced thing is free.
pub unmarked-FreeLaunch : FreeLaunch unmarked_tariff
unmarked-FreeLaunch t marked = rw marked refl

unmarked_kill-score :
    (p : Option ManagedProcess) (s : Supervisor)
    → unmarked_launches (kill_process p s).1.world.trace ≡ unmarked_launches s.world.trace
unfolding kill_process
unmarked_kill-score none s = refl
unmarked_kill-score (some p) s =
    grind (arith, after_kill-score, signal-score unmarked_tariff sigkill (λ group. refl))

force_command-unmarked :
    (s : Supervisor)
    → unmarked_launches (handle s Command.force_stop).1.world.trace
      ≡ unmarked_launches s.world.trace
unfolding handle force_stop
force_command-unmarked s = grind (arith, unmarked_kill-score)

command-unmarked :
    (s : Supervisor) (c : Command)
    → unmarked_launches (handle s c).1.world.trace ≡ unmarked_launches s.world.trace
command-unmarked s c = elim (is_force_stop-cases c) [
  | inl e ↦ rw e (force_command-unmarked s)
  | inr (h, free) ↦ handle-score unmarked_tariff (λ group. refl) unmarked-FreeLaunch s c h
]

step-unmarked :
    (s : Supervisor) (event : Event)
    → unmarked_launches (step s event).world.trace ≡ unmarked_launches s.world.trace
unfolding step
step-unmarked s Event.turn = tick-score unmarked_tariff (λ group. refl) unmarked-FreeLaunch s
step-unmarked s Event.child_exit =
    poll_now-score unmarked_tariff (λ group. refl) unmarked-FreeLaunch s
step-unmarked s Event.config_changed =
    refresh_now-score unmarked_tariff (λ group. refl) unmarked-FreeLaunch s
step-unmarked s (Event.command c) = command-unmarked s c
step-unmarked s (Event.environment services) = refl

-- Over every sequence of turns, reported exits, configuration changes, commands and changes of the
-- rest of the system, the supervisor makes no launch of OpenCode without having synced, as its last
-- change before it, a state file with a launch marker.
pub run-unmarked :
    (s : Supervisor) (events : List Event)
    → unmarked_launches (run s events).world.trace ≡ unmarked_launches s.world.trace
unfolding run
run-unmarked s [] = refl
run-unmarked s (event ∷ events) = run-unmarked (step s event) events ∙ step-unmarked s event
