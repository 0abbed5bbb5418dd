-- ===== src/Supervisor/Lifecycle.antt =====
-- The lifecycle commands (rust/src/supervisor/lifecycle.rs).
use open_code_server.Base.{
  ℕ, Bool, true, false, not, ◌&&◌, ◌||◌, ◌+◌, Option, none, some, Result, ok, err, if◌then◌else◌,
  is_none,
}
use open_code_server.Protocol.{
  DesiredState, ServerState, HealthState, is_stop_timed_out, is_stop_phase,
}
use open_code_server.World.{IoError, ErrorKind, now}
use open_code_server.Credential.{is_access_pending}
use open_code_server.Process.Managed.{ManagedProcess, send_terminate, send_kill}
use open_code_server.Supervisor.State.{
  Supervisor, Message, StartTrigger, PendingLifecycleIntent, PendingDurableConvergence,
  command_error, has_process, launch_is_pending,
}
use open_code_server.Supervisor.Durability.{
  CommandResult, persist_desired_state, defer_durable_convergence, defer_lifecycle_intent,
}
use open_code_server.Supervisor.Start.{start_now, forget_retries, failed_unknown}

abbrev pub graceful_stop : ℕ
graceful_stop = 15000

abbrev pub start_refusal : Supervisor → Option Message
start_refusal s =
    if s.unverified_process_record && is_none s.process
    then some Message.unverified_running
    else if is_access_pending s.credentials.credential_state
    then some Message.keychain_not_granted
    else none

abbrev pub refused : Message → Supervisor → CommandResult
refused reason s = (
  err (command_error ErrorKind.permission_denied reason),
  record s { last_error = some reason; server_state = ServerState.failed },
)

-- An error of the runtime state after a start is the command's error.
abbrev pub report_runtime_error : Supervisor → CommandResult
report_runtime_error s = elim s.runtime_state_error [
  | none ↦ (ok tt, s)
  | some m ↦ (err (command_error ErrorKind.other m), s)
]

abbrev forget_pending : Supervisor → Supervisor
forget_pending s = record s { pending_process_exit = none; pending_durable_convergence = none }

abbrev pub forget_schedule : Supervisor → Supervisor
forget_schedule s = record (forget_retries s) { next_restart = none }

unfoldable pub start_or_refuse : Option Message → Supervisor → CommandResult
start_or_refuse (some reason) s = refused reason s
start_or_refuse none s =
    report_runtime_error
      (start_now (record (forget_schedule s) { restart_attempt_index = 0 }) StartTrigger.cold)

unfoldable pub apply_start : Supervisor → CommandResult
unfolding start_or_refuse
apply_start s =
    if has_process s
    then (ok tt, forget_pending s)
    else start_or_refuse (start_refusal (forget_pending s)) (forget_pending s)

-- `self.persist_desired_state(…)?` before the action.
abbrev pub and_then : CommandResult → (Supervisor → CommandResult) → CommandResult
and_then (ok _, s) k = k s
and_then (err e, s) k = (err e, s)

unfoldable pub request_start : Supervisor → CommandResult
request_start s =
    and_then (persist_desired_state s DesiredState.running PendingLifecycleIntent.start) apply_start

abbrev restart_intent : Bool → PendingLifecycleIntent
restart_intent true = PendingLifecycleIntent.restart
restart_intent false = PendingLifecycleIntent.stop

abbrev restart_convergence : Bool → PendingDurableConvergence
restart_convergence true = PendingDurableConvergence.start StartTrigger.after_stop
restart_convergence false = PendingDurableConvergence.stop

-- An unfinished launch: the stop is deferred, and none is claimed.
unfoldable pub defer_stop : Supervisor → Bool → Supervisor
defer_stop s restarting =
    if not s.launch_pending_clear_requested
    then s
    else if has_process s
    then defer_lifecycle_intent s (restart_intent restarting)
    else defer_durable_convergence s (restart_convergence restarting)

unfoldable pub after_terminate : Result IoError (Unit {0}) → Supervisor → Bool → Supervisor
after_terminate (ok _) s restarting =
    let (at, w) = now s.world in
    record s {
      server_state = ServerState.stopping;
      health_state = HealthState.unknown;
      stop_deadline = some (at + graceful_stop);
      restart_after_stop = restarting;
      last_error = none;
      world = w;
    }
after_terminate (err e) s restarting = record s {
  server_state = ServerState.failed;
  last_error = some (Message.os_error e.text);
}

unfoldable pub stop_without_process : Supervisor → Bool → Supervisor
stop_without_process s restarting =
    if s.unverified_process_record
    then record s {
      server_state = ServerState.failed;
      last_error = some Message.identity_never_confirmed;
    }
    else if restarting
    then start_now s StartTrigger.after_stop
    else record s {
      server_state = ServerState.stopped;
      health_state = HealthState.unknown;
      last_error = none;
    }

unfoldable pub stop_process : Option ManagedProcess → Supervisor → Bool → Supervisor
unfolding after_terminate stop_without_process
stop_process none s restarting = stop_without_process s restarting
stop_process (some p) s restarting =
    let (sent, w) = send_terminate s.world p in
    after_terminate sent (record s { world = w }) restarting

unfoldable pub begin_stop : Supervisor → Bool → Supervisor
unfolding stop_process defer_stop
begin_stop s restarting =
    if launch_is_pending s || s.launch_pending_clear_requested
    then record (failed_unknown (defer_stop s restarting)) {
      last_error = some Message.launch_unresolved;
    }
    else stop_process s.process s restarting

abbrev stop_answer : Supervisor → CommandResult
stop_answer s =
    if launch_is_pending s || s.launch_pending_clear_requested
    then (err (command_error ErrorKind.other Message.stop_not_claimed), s)
    else (ok tt, s)

unfoldable pub apply_stop : Supervisor → CommandResult
apply_stop s = stop_answer (
    begin_stop
      (record (forget_schedule (forget_pending s)) {
        restart_after_stop = false;
        group_cleanup_recovery = false;
      })
      false)

unfoldable pub request_stop : Supervisor → CommandResult
request_stop s =
    and_then (persist_desired_state s DesiredState.stopped PendingLifecycleIntent.stop) apply_stop

unfoldable pub restart_process : Option Message → Supervisor → CommandResult
restart_process (some reason) s = refused reason (record s { restart_after_stop = false })
restart_process none s = (ok tt, begin_stop s true)

unfoldable pub restart_stopped : Option Message → Supervisor → CommandResult
restart_stopped (some reason) s = refused reason s
restart_stopped none s = report_runtime_error (start_now s StartTrigger.after_stop)

unfoldable pub apply_restart : Supervisor → CommandResult
unfolding restart_process restart_stopped
apply_restart s =
    let cleared = record (forget_schedule (forget_pending s)) {
      group_cleanup_recovery = false;
      restart_after_stop = has_process s;
      restart_attempt_index = 0;
    } in
    if has_process s
    then restart_process (start_refusal cleared) cleared
    else restart_stopped (start_refusal cleared) cleared

unfoldable pub request_restart : Supervisor → CommandResult
request_restart s =
    and_then (persist_desired_state s DesiredState.running PendingLifecycleIntent.restart)
      apply_restart

unfoldable pub apply_pending_lifecycle_intent : PendingLifecycleIntent → Supervisor → Supervisor
apply_pending_lifecycle_intent PendingLifecycleIntent.start s = (apply_start s).1
apply_pending_lifecycle_intent PendingLifecycleIntent.stop s = (apply_stop s).1
apply_pending_lifecycle_intent PendingLifecycleIntent.restart s = (apply_restart s).1

unfoldable pub continue_stop : Supervisor → CommandResult
continue_stop s =
    if not (is_stop_timed_out s.server_state)
    then (err (command_error ErrorKind.invalid_input Message.not_waiting), s)
    else let (at, w) = now s.world in
      (
        ok tt,
        record s {
          server_state = ServerState.stopping;
          stop_deadline = some (at + graceful_stop);
          last_error = none;
          world = w;
        },
      )

unfoldable pub after_kill : Result IoError (Unit {0}) → Supervisor → CommandResult
after_kill (err e) s = (err (command_error e.kind (Message.os_error e.text)), s)
after_kill (ok _) s = (
  ok tt,
  record s { server_state = ServerState.stopping; stop_deadline = none; last_error = none },
)

unfoldable pub kill_process : Option ManagedProcess → Supervisor → CommandResult
unfolding after_kill
kill_process none s = (err (command_error ErrorKind.not_found Message.not_running), s)
kill_process (some p) s =
    let (sent, w) = send_kill s.world p in after_kill sent (record s { world = w })

unfoldable pub force_stop : Supervisor → CommandResult
unfolding kill_process
force_stop s =
    if not (is_stop_phase s.server_state)
    then (err (command_error ErrorKind.invalid_input Message.force_unavailable), s)
    else kill_process s.process s
