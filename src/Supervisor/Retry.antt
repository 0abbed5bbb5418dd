-- ===== src/Supervisor/Retry.antt =====
-- What goes on once a save is durable (rust/src/supervisor/runtime_durability.rs,
-- `resume_pending_durable_convergence`, `retry_runtime_state_if_due`;
-- rust/src/supervisor/process_exit.rs, `resume_after_process_exit`).
use open_code_server.Base.{
  ℕ, Bool, true, false, not, ◌&&◌, ◌||◌, Option, none, some, if◌then◌else◌, is_none, due,
}
use open_code_server.Protocol.{ServerState, HealthState, NotificationKind, wants_running}
use open_code_server.World.{ExitReason}
use open_code_server.Supervisor.State.{
  Supervisor, Message, PendingExit, StartTrigger, PendingLifecycleIntent, PendingDurableConvergence,
  has_process, launch_is_pending,
}
use open_code_server.Supervisor.Durability.{
  RuntimePersistence, persist_runtime_detailed, is_durable,
}
use open_code_server.Supervisor.Launch.{set_launch_pending}
use open_code_server.Supervisor.Recovery.{emit_notification, schedule_next_restart}
use open_code_server.Supervisor.Start.{start_now}
use open_code_server.Supervisor.Lifecycle.{begin_stop, apply_pending_lifecycle_intent}

unfoldable pub converge_stopped : Supervisor → Supervisor
converge_stopped s = if has_process s then begin_stop s false else record s {
  server_state = ServerState.stopped;
  health_state = HealthState.unknown;
  last_error = none;
}

unfoldable pub converge : PendingDurableConvergence → Supervisor → Supervisor
unfolding converge_stopped
converge (PendingDurableConvergence.start trigger) s =
    if wants_running s.runtime.desired_state && is_none s.process && not s.unverified_process_record
    then start_now s trigger
    else s
converge PendingDurableConvergence.stop s =
    if not (wants_running s.runtime.desired_state) && not s.unverified_process_record
    then converge_stopped s
    else s

unfoldable pub take_convergence : Option PendingDurableConvergence → Supervisor → Supervisor
unfolding converge
take_convergence none s = s
take_convergence (some convergence) s =
    converge convergence (record s { pending_durable_convergence = none })

unfoldable pub resume_pending_durable_convergence : Supervisor → Supervisor
unfolding take_convergence
resume_pending_durable_convergence s =
    if not s.runtime_state_loaded
      || not s.runtime_state_reliable
      || s.runtime_state_retry_pending
      || launch_is_pending s
      || s.launch_pending_clear_requested
    then s
    else take_convergence s.pending_durable_convergence s

-- After an explicit stop: a stopped intent wins over recovery, and recovery over a restart.
unfoldable pub resume_after_stop : Supervisor → Supervisor
resume_after_stop s =
    if not (wants_running s.runtime.desired_state)
    then record s {
      group_cleanup_recovery = false;
      restart_after_stop = false;
      next_restart = none;
      server_state = ServerState.stopped;
      last_error = none;
    }
    else if s.group_cleanup_recovery
    then schedule_next_restart (record s { group_cleanup_recovery = false })
    else if s.restart_after_stop
    then start_now (record s { restart_after_stop = false }) StartTrigger.after_stop
    else record s { server_state = ServerState.stopped; last_error = none }

abbrev announce_failure : Supervisor → Supervisor
announce_failure s =
    if s.recovery_incident_active
    then s
    else (emit_notification (record s { recovery_incident_active = true }) NotificationKind.failure
        "OpenCode stopped unexpectedly"
        "OpenCodeServer is attempting bounded automatic recovery.").1

unfoldable pub resume_after_crash : Supervisor → ExitReason → Supervisor
resume_after_crash s exit =
    if wants_running s.runtime.desired_state
    then schedule_next_restart
        (announce_failure (record s { last_error = some (Message.exited_recovery_pending exit) }))
    else record s { server_state = ServerState.stopped }

unfoldable pub resume_after_process_exit : Supervisor → Bool → ExitReason → Supervisor
unfolding resume_after_stop resume_after_crash
resume_after_process_exit s was_explicit_stop exit =
    if was_explicit_stop then resume_after_stop s else resume_after_crash s exit

unfoldable pub resume_exit : Option PendingExit → Supervisor → Supervisor
resume_exit none s = resume_pending_durable_convergence s
resume_exit (some p) s =
    resume_after_process_exit (record s { pending_process_exit = none }) p.was_explicit_stop p.exit

unfoldable pub resume_intent : Option PendingLifecycleIntent → Supervisor → Supervisor
unfolding resume_exit
resume_intent none s = resume_exit s.pending_process_exit s
resume_intent (some intent) s =
    apply_pending_lifecycle_intent intent
      (record s { pending_lifecycle_intent = none; pending_process_exit = none })

-- A marker whose own save was uncertain is taken back by a second save.
unfoldable pub unwind_marker : RuntimePersistence × Supervisor → RuntimePersistence × Supervisor
unwind_marker (outcome, s) =
    if is_durable outcome && s.launch_pending_clear_requested && launch_is_pending s
    then persist_runtime_detailed (set_launch_pending s none)
    else (outcome, s)

abbrev resume_if_durable : RuntimePersistence × Supervisor → Supervisor
resume_if_durable (outcome, s) =
    if is_durable outcome then resume_intent s.pending_lifecycle_intent s else s

unfoldable pub retry_runtime_state_if_due : Supervisor → ℕ → Supervisor
unfolding resume_intent unwind_marker
retry_runtime_state_if_due s at =
    if not s.runtime_state_loaded
      || not s.runtime_state_retry_pending
      || not (due s.runtime_state_retry_at at)
    then s
    else resume_if_durable
        (unwind_marker (persist_runtime_detailed (record s { runtime_state_retry_at = none })))
