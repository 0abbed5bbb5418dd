-- ===== src/Safety/Single.antt =====
-- Launches of a start and of the commands (rust/src/supervisor/lifecycle.rs).
use open_code_server.Base.{
  Bool, true, ok, err, ◌≡◌, refl, ap, ◌∙◌, Option, none, some, arith, is_some,
}
use open_code_server.Protocol.{Command, DesiredState}
use open_code_server.Config.{ValidatedConfig}
use open_code_server.Credential.{is_access_pending}
use open_code_server.Supervisor.Start.{start_with}
use open_code_server.Process.Cleanup.{sigterm, sigkill}
use open_code_server.Process.Managed.{ManagedProcess}
use open_code_server.Supervisor.State.{
  Supervisor, Message, StartTrigger, PendingLifecycleIntent, has_process,
}
use open_code_server.Supervisor.Durability.{
  CommandResult, persist_desired_state, settle_desired_state, persist_runtime_detailed, settle_save,
}
use open_code_server.Supervisor.Lifecycle.{
  and_then, apply_start, request_start, stop_process, begin_stop, apply_stop, request_stop,
  restart_process, apply_restart, request_restart, after_kill, kill_process, force_stop,
}
use open_code_server.Supervisor.Tick.{respond, handle}
use open_code_server.Trace.Score.{total}
use open_code_server.Trace.Process.{signal-score}
use open_code_server.Trace.State.{persist_desired_state-score, schedule_next_restart-score}
use open_code_server.Trace.Lifecycle.{defer_stop-score, after_terminate-score, continue_stop-score}
use open_code_server.Trace.Tick.{
  refresh_fda-score, request_refresh-score, changed-score, removed-score,
}
use open_code_server.Run.{launches, launch_tariff}

stop_process-launches :
    (p : Option ManagedProcess) (s : Supervisor) (restarting : Bool)
    → is_some p ≡ true
    → launches (stop_process p s restarting).world.trace ≡ launches s.world.trace
unfolding stop_process
stop_process-launches none s restarting h = cc
stop_process-launches (some p) s restarting h =
    grind (arith, after_terminate-score, signal-score launch_tariff sigterm (λ group. refl))

begin_stop-launches :
    (s : Supervisor) (restarting : Bool)
    → has_process s ≡ true
    → launches (begin_stop s restarting).world.trace ≡ launches s.world.trace
unfolding begin_stop
begin_stop-launches s restarting h = ground (
  arith,
  defer_stop-score launch_tariff s restarting,
  stop_process-launches s.process s restarting h,
)

apply_start-launches :
    (s : Supervisor)
    → has_process s ≡ true
    → launches (apply_start s).1.world.trace ≡ launches s.world.trace
unfolding apply_start
apply_start-launches s h = ground arith

apply_stop-launches :
    (s : Supervisor)
    → has_process s ≡ true
    → launches (apply_stop s).1.world.trace ≡ launches s.world.trace
unfolding apply_stop
apply_stop-launches s h = grind (arith, begin_stop-launches)

restart_process-launches :
    (reason : Option Message) (s : Supervisor)
    → has_process s ≡ true
    → launches (restart_process reason s).1.world.trace ≡ launches s.world.trace
unfolding restart_process
restart_process-launches (some m) s h = refl
restart_process-launches none s h = begin_stop-launches s true h

apply_restart-launches :
    (s : Supervisor)
    → has_process s ≡ true
    → launches (apply_restart s).1.world.trace ≡ launches s.world.trace
unfolding apply_restart
apply_restart-launches s h = grind (arith, restart_process-launches)

persist_desired_state-process :
    (s : Supervisor) (desired : DesiredState) (intent : PendingLifecycleIntent)
    → (persist_desired_state s desired intent).1.process ≡ s.process
unfolding persist_desired_state settle_desired_state persist_runtime_detailed settle_save
persist_desired_state-process s desired intent = ground arith

kill_process-launches :
    (p : Option ManagedProcess) (s : Supervisor)
    → launches (kill_process p s).1.world.trace ≡ launches s.world.trace
unfolding kill_process after_kill
kill_process-launches none s = refl
kill_process-launches (some p) s = grind (arith, signal-score launch_tariff sigkill (λ group. refl))

request_start-launches :
    (s : Supervisor)
    → has_process s ≡ true
    → launches (request_start s).1.world.trace ≡ launches s.world.trace
unfolding request_start
request_start-launches s h = ground (
  arith,
  persist_desired_state-score launch_tariff s DesiredState.running PendingLifecycleIntent.start,
  apply_start-launches (persist_desired_state s DesiredState.running PendingLifecycleIntent.start).1
      (ap is_some
          (persist_desired_state-process s DesiredState.running PendingLifecycleIntent.start)
        ∙ h),
)

request_stop-launches :
    (s : Supervisor)
    → has_process s ≡ true
    → launches (request_stop s).1.world.trace ≡ launches s.world.trace
unfolding request_stop
request_stop-launches s h = ground (
  arith,
  persist_desired_state-score launch_tariff s DesiredState.stopped PendingLifecycleIntent.stop,
  apply_stop-launches (persist_desired_state s DesiredState.stopped PendingLifecycleIntent.stop).1 (
      ap is_some (persist_desired_state-process s DesiredState.stopped PendingLifecycleIntent.stop)
      ∙ h),
)

request_restart-launches :
    (s : Supervisor)
    → has_process s ≡ true
    → launches (request_restart s).1.world.trace ≡ launches s.world.trace
unfolding request_restart
request_restart-launches s h = ground (
  arith,
  persist_desired_state-score launch_tariff s DesiredState.running PendingLifecycleIntent.restart,
  apply_restart-launches
      (persist_desired_state s DesiredState.running PendingLifecycleIntent.restart).1
      (ap is_some
          (persist_desired_state-process s DesiredState.running PendingLifecycleIntent.restart)
        ∙ h),
)

force_stop-launches :
    (s : Supervisor) → launches (force_stop s).1.world.trace ≡ launches s.world.trace
unfolding force_stop
force_stop-launches s = ground (arith, kill_process-launches s.process s)

command-launches :
    (s : Supervisor) (command : Command)
    → has_process s ≡ true
    → launches (handle s command).1.world.trace ≡ launches s.world.trace
unfolding handle total
command-launches s Command.status h = refl
command-launches s Command.start h = ground (arith, request_start-launches s h)
command-launches s Command.stop h = ground (arith, request_stop-launches s h)
command-launches s Command.continue_stop h = ground (arith, continue_stop-score launch_tariff s)
command-launches s Command.force_stop h = ground (arith, force_stop-launches s)
command-launches s Command.restart h = ground (arith, request_restart-launches s h)
command-launches s Command.refresh_fda h = refresh_fda-score launch_tariff s
command-launches s Command.refresh_credentials h = request_refresh-score launch_tariff s
command-launches s Command.credential_changed h = changed-score launch_tariff s
command-launches s Command.credential_removed h = removed-score launch_tariff s
command-launches s Command.subscribe h = refl
command-launches s Command.validate_config h = refl

apply_start-accepted : (s : Supervisor) → has_process s ≡ true → (apply_start s).0 ≡ ok tt
unfolding apply_start
apply_start-accepted s h = ground arith

and_then-apply_start :
    (saved : CommandResult) (h : has_process saved.1 ≡ true)
    → (and_then saved apply_start).0 ≡ saved.0
and_then-apply_start (ok _, s) h = apply_start-accepted s h
and_then-apply_start (err e, s) h = refl

-- While a process is managed, the answer of a start is that of the save of the desired state.
request_start-accepted :
    (s : Supervisor)
    → has_process s ≡ true
    → (request_start s).0
      ≡ (persist_desired_state s DesiredState.running PendingLifecycleIntent.start).0
unfolding request_start
request_start-accepted s h =
    and_then-apply_start (persist_desired_state s DesiredState.running PendingLifecycleIntent.start)
      (ap is_some
          (persist_desired_state-process s DesiredState.running PendingLifecycleIntent.start)
        ∙ h)

respond-same : (x y : CommandResult) → x.0 ≡ y.0 → (respond x).0 ≡ (respond y).0
respond-same (ok _, s) (ok _, t) e = refl
respond-same (ok _, s) (err b, t) e = ground arith
respond-same (err a, s) (ok _, t) e = ground arith
respond-same (err a, s) (err b, t) e = ground arith

handle_start-accepted :
    (s : Supervisor)
    → has_process s ≡ true
    → (handle s Command.start).0
      ≡ (respond (persist_desired_state s DesiredState.running PendingLifecycleIntent.start)).0
unfolding handle
handle_start-accepted s h = respond-same (request_start s) _ (request_start-accepted s h)

-- While a process is managed, no command launches another one, whatever the disk, the kernel and the
-- Keychain answer. A start then answers exactly what the save of its desired state answers: success
-- where that is durable, and otherwise the error of the save.
pub handle-launches :
    (s : Supervisor) (command : Command)
    → has_process s ≡ true
    → (launches (handle s command).1.world.trace ≡ launches s.world.trace)
      × ((handle s Command.start).0
          ≡ (respond (persist_desired_state s DesiredState.running PendingLifecycleIntent.start)).0)
handle-launches s command h = (command-launches s command h, handle_start-accepted s h)

-- While the Keychain's answer is pending, a start launches nothing, whatever its trigger is: OpenCode
-- is not started without a password that may exist.
pub start_with-launches :
    (config : Option ValidatedConfig) (s : Supervisor) (trigger : StartTrigger)
    → is_access_pending s.credentials.credential_state ≡ true
    → launches (start_with config s trigger).world.trace ≡ launches s.world.trace
unfolding start_with
start_with-launches none s trigger h = grind (arith, schedule_next_restart-score launch_tariff)
start_with-launches (some config) s trigger h =
    grind (arith, schedule_next_restart-score launch_tariff)
