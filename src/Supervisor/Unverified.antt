-- ===== src/Supervisor/Unverified.antt =====
-- Records that cannot be verified, and those that are discarded (rust/src/supervisor/reattach.rs).
use open_code_server.Base.{
  ℕ, String, Bool, true, false, ◌+◌, Option, none, some, Result, ok, if◌then◌else◌,
}
use open_code_server.Protocol.{ServerState, HealthState, wants_running}
use open_code_server.RuntimeState.{ProcessRecord}
use open_code_server.World.{IoError, now}
use open_code_server.Process.Identity.{RecordIdentity, inspect_record_identity}
use open_code_server.Process.Group.{observe_attached}
use open_code_server.Process.Managed.{attach}
use open_code_server.Supervisor.State.{Supervisor, Message, StartTrigger, PendingDurableConvergence}
use open_code_server.Supervisor.Durability.{
  RuntimePersistence, persist_runtime, persist_runtime_detailed,
}
use open_code_server.Supervisor.Start.{start_now, failed_unknown}

abbrev pub unverified_check_interval : ℕ
unverified_check_interval = 3000

abbrev pub set_record : Supervisor → Option ProcessRecord → Supervisor
set_record s r = record s { runtime = record (s.runtime) { process = r } }

abbrev pub check_later : Supervisor → Supervisor
check_later s =
    let (at, w) = now s.world in
    record s {
      unverified_process_record = true;
      unverified_check_at = some (at + unverified_check_interval);
      world = w;
    }

unfoldable pub mark_unverified_process : Supervisor → ProcessRecord → Supervisor
mark_unverified_process s r =
    (persist_runtime (record (check_later (set_record s (some r))) {
      server_state = ServerState.failed;
      last_error = some Message.left_running;
    })).1

unfoldable pub attach_unconfirmed_process : Supervisor → ProcessRecord → Supervisor
attach_unconfirmed_process s r =
    (persist_runtime (record (check_later (set_record s (some r))) {
      process = some (attach r);
      server_state = ServerState.failed;
      last_error = some Message.attached_unconfirmed;
    })).1

abbrev pub failed_unless : Bool × Supervisor → Supervisor
failed_unless (persisted, s) = if persisted then s else failed_unknown s

unfoldable pub attach_stale_config_process : Supervisor → ProcessRecord → String → Supervisor
attach_stale_config_process s r reason = failed_unless (
    persist_runtime (record (set_record s (some r)) {
      process = some (attach r);
      active_config = none;
      stale_config_process = true;
      server_state = ServerState.unhealthy;
      health_state = HealthState.unknown;
      last_error = some (Message.previous_configuration reason);
    }))

abbrev trigger_after_discard : Supervisor → StartTrigger
trigger_after_discard s =
    if s.restart_after_stop then StartTrigger.after_stop else StartTrigger.cold

abbrev convergence_after_discard : Supervisor → PendingDurableConvergence
convergence_after_discard s =
    if wants_running s.runtime.desired_state
    then PendingDurableConvergence.start (trigger_after_discard s)
    else PendingDurableConvergence.stop

unfoldable pub settle_discard :
    RuntimePersistence → Supervisor → Option ProcessRecord → Bool × Supervisor
settle_discard RuntimePersistence.durable s previous = (true, s)
settle_discard RuntimePersistence.failed s previous =
    (false, record (check_later (set_record s previous)) { server_state = ServerState.failed })
settle_discard RuntimePersistence.uncertain s previous = (
  false,
  record (failed_unknown s) { pending_durable_convergence = some (convergence_after_discard s) },
)

unfoldable pub discard_stale_process_record : Supervisor → Bool × Supervisor
unfolding settle_discard
discard_stale_process_record s =
    let (outcome, s') = persist_runtime_detailed (record (set_record s none) {
      unverified_process_record = false;
      unverified_check_at = none;
    }) in
    settle_discard outcome s' s.runtime.process

abbrev fresh_start : Supervisor → StartTrigger → Supervisor
fresh_start s trigger =
    start_now (record s { restart_attempt_index = 0; next_restart = none }) trigger

unfoldable pub converge_discarded : Bool × Supervisor → Supervisor
converge_discarded (false, s) = s
converge_discarded (true, s) =
    if s.restart_after_stop
    then fresh_start (record s { restart_after_stop = false }) StartTrigger.after_stop
    else if wants_running s.runtime.desired_state
    then fresh_start s StartTrigger.cold
    else record s { server_state = ServerState.stopped; last_error = none }

unfoldable pub check_group : Result IoError Bool → Supervisor → Supervisor
unfolding converge_discarded
check_group (ok false) s = converge_discarded (discard_stale_process_record s)
check_group _ s = s

unfoldable pub check_identity :
    Result IoError RecordIdentity → Supervisor → ProcessRecord → Supervisor
unfolding check_group
check_identity (ok RecordIdentity.missing) s r =
    let (members, w) = observe_attached s.world r in check_group members (record s { world = w })
check_identity _ s r = s

unfoldable pub check_record : Option ProcessRecord → Supervisor → Supervisor
unfolding check_identity
check_record none s = s
check_record (some r) s =
    let (identity, w) = inspect_record_identity s.world r in
    check_identity identity (record s { world = w }) r

unfoldable pub check_unverified_process : Supervisor → ℕ → Supervisor
unfolding check_record
check_unverified_process s at =
    check_record s.runtime.process
      (record s { unverified_check_at = some (at + unverified_check_interval) })
