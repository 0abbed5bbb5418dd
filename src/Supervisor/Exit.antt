-- ===== src/Supervisor/Exit.antt =====
-- The exit of OpenCode (rust/src/supervisor/process_exit.rs).
use open_code_server.Base.{
  Bool, true, false, not, ◌&&◌, ◌+◌, Option, none, some, Result, ok, err, if◌then◌else◌, is_none,
  or_option, map_option,
}
use open_code_server.Protocol.{ServerState, HealthState, is_stop_phase}
use open_code_server.RuntimeState.{ProcessRecord}
use open_code_server.World.{World, IoError, ExitReason, now}
use open_code_server.Process.Group.{observe_attached}
use open_code_server.Process.Managed.{
  ManagedProcess, record_of, pending_group_exit, pending_group_authorized, is_owned_child,
  mark_identity_failed, poll_exit, confirm_unconfirmed_identity,
}
use open_code_server.Supervisor.State.{Supervisor, Message}
use open_code_server.Supervisor.Durability.{
  RuntimePersistence, persist_runtime, persist_runtime_detailed,
}
use open_code_server.Supervisor.Start.{failed_unknown}
use open_code_server.Supervisor.Lifecycle.{graceful_stop}
use open_code_server.Supervisor.Retry.{resume_after_process_exit}
use open_code_server.Supervisor.Unverified.{set_record, check_later, mark_unverified_process}

abbrev confirm_answer : Bool × Supervisor → Bool × Supervisor
confirm_answer (persisted, s) = if persisted then (true, s) else (false, failed_unknown s)

abbrev confirmed : Bool × ManagedProcess × World → Supervisor → Bool × Supervisor
confirmed (false, p, w) s = (true, record s { process = some p; world = w })
confirmed (true, p, w) s =
    confirm_answer
      (persist_runtime (record (set_record s (some (record_of p))) { process = some p; world = w }))

unfoldable pub upgrade_process : Option ManagedProcess → Supervisor → Bool × Supervisor
upgrade_process none s = (true, s)
upgrade_process (some p) s = confirmed (confirm_unconfirmed_identity s.world p) s

unfoldable pub upgrade_unconfirmed_identity : Supervisor → Bool × Supervisor
unfolding upgrade_process
upgrade_unconfirmed_identity s = upgrade_process s.process s

abbrev exit_answer :
    Result IoError (Option ExitReason) × ManagedProcess × World
    → Supervisor
    → Option ExitReason × Supervisor
exit_answer (ok exit, p, w) s = (exit, record s { process = some p; world = w })
exit_answer (err e, p, w) s = (
  none,
  record s { process = some p; world = w; last_error = some (Message.inspection_failed e.text) },
)

unfoldable pub poll_managed : Option ManagedProcess → Supervisor → Option ExitReason × Supervisor
poll_managed none s = (none, s)
poll_managed (some p) s = exit_answer (poll_exit s.world p) s

unfoldable pub poll_process_exit : Supervisor → Option ExitReason × Supervisor
unfolding poll_managed
poll_process_exit s = poll_managed s.process s

-- The leader has exited while its authorized group still has members.
unfoldable pub wait_for_group : Supervisor → Bool → Supervisor
wait_for_group s was_explicit_stop =
    let s1 =
      if not was_explicit_stop && not s.group_cleanup_recovery
      then record s { group_cleanup_recovery = true; restart_after_stop = false }
      else s in
    if is_stop_phase s1.server_state
    then s1
    else let (at, w) = now s1.world in
      (persist_runtime (record s1 {
        server_state = ServerState.stopping;
        health_state = HealthState.unknown;
        stop_deadline = some (at + graceful_stop);
        last_error = some Message.waiting_for_group;
        world = w;
      })).1

unfoldable pub cleanup_process : Option ManagedProcess → Supervisor → Bool → Bool × Supervisor
unfolding wait_for_group
cleanup_process none s was_explicit_stop = (false, s)
cleanup_process (some p) s was_explicit_stop =
    if is_none (pending_group_exit p)
    then (false, s)
    else if not (pending_group_authorized p)
    then (
      true,
      (persist_runtime (record s {
        stop_deadline = none;
        server_state = ServerState.failed;
        last_error = some Message.group_unverified;
      })).1,
    )
    else (true, wait_for_group s was_explicit_stop)

unfoldable pub handle_pending_group_cleanup : Supervisor → Bool → Bool × Supervisor
unfolding cleanup_process
handle_pending_group_cleanup s was_explicit_stop = cleanup_process s.process s was_explicit_stop

abbrev pub unconfirmed : ProcessRecord → ProcessRecord
unconfirmed r = record r { identity_unconfirmed = true; start_seconds = 0; start_microseconds = 0 }

unfoldable pub leader_gone : Result IoError Bool → Supervisor → ProcessRecord → Bool × Supervisor
leader_gone (ok false) s r = (false, s)
leader_gone _ s r = (
  true,
  mark_unverified_process
      (record s {
        process = none;
        active_config = none;
        stale_config_process = false;
        running_version = none;
        health_state = HealthState.unknown;
        stop_deadline = none;
        process_started = none;
        restart_after_stop = false;
        group_cleanup_recovery = false;
        next_restart = none;
      })
      (unconfirmed r),
)

abbrev is_disappeared : ExitReason → Bool
is_disappeared ExitReason.disappeared = true
is_disappeared _ = false

abbrev is_identity_changed : ExitReason → Bool
is_identity_changed ExitReason.identity_changed = true
is_identity_changed _ = false

unfoldable pub attached_disappearance : Option ManagedProcess → Supervisor → Bool × Supervisor
unfolding leader_gone
attached_disappearance none s = (false, s)
attached_disappearance (some p) s =
    if is_owned_child p
    then (false, s)
    else let (members, w) = observe_attached s.world (record_of p) in
      leader_gone members (record s { world = w }) (record_of p)

unfoldable pub handle_attached_leader_disappearance : Supervisor → ExitReason → Bool × Supervisor
unfolding attached_disappearance
handle_attached_leader_disappearance s exit =
    if is_disappeared exit then attached_disappearance s.process s else (false, s)

-- An owned child is kept, without signal authority, so that it can be reaped.
abbrev keep_owned : ManagedProcess → Option ManagedProcess
keep_owned p = if is_owned_child p then some (mark_identity_failed p) else none

unfoldable pub identity_changed_process : Option ManagedProcess → Supervisor → Bool × Supervisor
identity_changed_process none s = (true, s)
identity_changed_process (some p) s = (
  true,
  mark_unverified_process
      (record s {
        process = keep_owned p;
        active_config = none;
        stale_config_process = false;
        running_version = none;
        health_state = HealthState.unknown;
      })
      (unconfirmed (record_of p)),
)

unfoldable pub handle_identity_changed : Supervisor → ExitReason → Bool × Supervisor
unfolding identity_changed_process
handle_identity_changed s exit =
    if is_identity_changed exit then identity_changed_process s.process s else (false, s)

unfoldable pub clear_live_process_state : Supervisor → Supervisor
clear_live_process_state s = record s {
  process = none;
  active_config = none;
  stale_config_process = false;
  running_version = none;
  health_state = HealthState.unknown;
  stop_deadline = none;
  process_started = none;
  unverified_process_record = false;
  unverified_check_at = none;
}

abbrev forget_restarts : Supervisor → Supervisor
forget_restarts s = record s {
  next_restart = none;
  next_port_retry = none;
  port_release_deadline = none;
  pending_start_trigger = none;
}

unfoldable pub settle_clear :
    RuntimePersistence → Supervisor → Option ProcessRecord → Bool → ExitReason → Bool × Supervisor
settle_clear RuntimePersistence.durable s previous was_explicit_stop exit = (true, s)
settle_clear RuntimePersistence.failed s previous was_explicit_stop exit =
    (false, failed_unknown (forget_restarts (check_later (set_record s previous))))
settle_clear RuntimePersistence.uncertain s previous was_explicit_stop exit = (
  false,
  failed_unknown (
      forget_restarts (record s {
        pending_process_exit = some (record { was_explicit_stop = was_explicit_stop; exit = exit });
      })),
)

unfoldable pub clear_process_record_durably :
    Supervisor → Option ProcessRecord → Bool → ExitReason → Bool × Supervisor
unfolding settle_clear
clear_process_record_durably s previous was_explicit_stop exit =
    let (outcome, s') = persist_runtime_detailed (set_record s none) in
    settle_clear outcome s' previous was_explicit_stop exit

abbrev resume_cleared : Bool × Supervisor → Bool → ExitReason → Supervisor
resume_cleared (cleared, s) was_explicit_stop exit =
    if cleared then resume_after_process_exit s was_explicit_stop exit else s

unfoldable pub complete_process_exit : Supervisor → Bool → ExitReason → Supervisor
complete_process_exit s was_explicit_stop exit =
    let previous = or_option s.runtime.process (map_option record_of s.process) in
    resume_cleared
      (clear_process_record_durably (clear_live_process_state (set_record s none)) previous
        was_explicit_stop exit)
      was_explicit_stop exit

unfoldable pub finish_exit : Bool × Supervisor → Bool → ExitReason → Supervisor
finish_exit (true, s) was_explicit_stop exit = s
finish_exit (false, s) was_explicit_stop exit = complete_process_exit s was_explicit_stop exit

abbrev or_else : Bool × Supervisor → (Supervisor → Bool × Supervisor) → Bool × Supervisor
or_else (handled, s) k = if handled then (true, s) else k s

unfoldable pub handle_exit : Option ExitReason → Supervisor → Bool → Supervisor
unfolding finish_exit
handle_exit none s was_explicit_stop = s
handle_exit (some exit) s was_explicit_stop =
    finish_exit
      (or_else (handle_attached_leader_disappearance s exit)
        (λ s'. handle_identity_changed s' exit))
      was_explicit_stop exit

unfoldable pub after_cleanup : Bool × Supervisor → Option ExitReason → Bool → Supervisor
unfolding handle_exit
after_cleanup (true, s) exit was_explicit_stop = s
after_cleanup (false, s) exit was_explicit_stop = handle_exit exit s was_explicit_stop

unfoldable pub after_upgrade : Bool × Supervisor → Supervisor
unfolding after_cleanup
after_upgrade (false, s) = s
after_upgrade (true, s) =
    let was_explicit_stop = is_stop_phase s.server_state in
    let (exit, s') = poll_process_exit s in
    after_cleanup (handle_pending_group_cleanup s' was_explicit_stop) exit was_explicit_stop

unfoldable pub poll_process : Supervisor → Supervisor
unfolding after_upgrade
poll_process s = after_upgrade (upgrade_unconfirmed_identity s)
