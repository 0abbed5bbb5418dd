-- ===== src/Trace/State.antt =====
-- The price of what only records and saves (rust/src/supervisor/runtime_durability.rs,
-- launch_transaction.rs, and the parts of the other files that start and stop nothing).
use open_code_server.Base.{ℕ, String, ◌≡◌, refl, ◌∙◌, Option, none, some, Result, ok, err, arith}
use open_code_server.Protocol.{DesiredState, NotificationKind}
use open_code_server.Config.{ValidatedConfig}
use open_code_server.RuntimeState.{ProcessRecord, LaunchPending}
use open_code_server.Storage.{RuntimeStateSaveOutcome}
use open_code_server.Process.Managed.{ManagedProcess}
use open_code_server.Supervisor.State.{
  Supervisor, PendingLifecycleIntent, PendingDurableConvergence,
}
use open_code_server.Supervisor.Durability.{
  RuntimePersistence, settle_save, persist_runtime_detailed, persist_runtime, settle_desired_state,
  persist_desired_state, runtime_state_ready, defer_durable_convergence, defer_lifecycle_intent,
  set_desired_state,
}
use open_code_server.Supervisor.Launch.{
  settle_launch, begin_launch, commit_spawned_process, abort_launch, set_launch_pending,
}
use open_code_server.Supervisor.Recovery.{
  announce_exhausted, emit, emit_notification, finish_recovery_failure, schedule_next_restart,
  schedule_at,
}
use open_code_server.Supervisor.Configuration.{
  stale_task, task_for, task_of, current_health_task, sync_health_generation, recheck_config,
  recheck_record, recheck_stale_process, merge_loaded, adopt_config, apply_loaded, refresh_config,
}
use open_code_server.Supervisor.Unverified.{
  mark_unverified_process, attach_unconfirmed_process, attach_stale_config_process, settle_discard,
  discard_stale_process_record,
}
use open_code_server.Trace.Score.{Tariff, total, score}
use open_code_server.Trace.Process.{write_json_atomically-score, inspect_record_identity-score}
use open_code_server.Trace.Services.{merge_credentials-score}

module _ (c : Tariff) where
  settle_save-score :
      (o : RuntimeStateSaveOutcome) (s : Supervisor)
      → score c (settle_save o s).1.world ≡ score c s.world
  unfolding settle_save total
  settle_save-score o s = ground arith

  pub persist_runtime_detailed-score :
      (s : Supervisor) → score c (persist_runtime_detailed s).1.world ≡ score c s.world
  unfolding persist_runtime_detailed
  persist_runtime_detailed-score s = grind (arith, settle_save-score, write_json_atomically-score)

  pub persist_runtime-score :
      (s : Supervisor) → score c (persist_runtime s).1.world ≡ score c s.world
  unfolding persist_runtime
  persist_runtime-score s = ground (arith, persist_runtime_detailed-score s)

  settle_desired_state-score :
      (o : RuntimePersistence) (old s : Supervisor) (intent : PendingLifecycleIntent)
      → score c (settle_desired_state o old s intent).1.world ≡ score c s.world
  unfolding settle_desired_state
  settle_desired_state-score o old s intent = ground arith

  pub persist_desired_state-score :
      (s : Supervisor) (desired : DesiredState) (intent : PendingLifecycleIntent)
      → score c (persist_desired_state s desired intent).1.world ≡ score c s.world
  unfolding persist_desired_state
  persist_desired_state-score s desired intent = ground (
    arith,
    settle_desired_state-score (persist_runtime_detailed (set_desired_state s desired)).0 s
        (persist_runtime_detailed (set_desired_state s desired)).1 intent,
    persist_runtime_detailed-score (set_desired_state s desired),
  )

  pub runtime_state_ready-score :
      (s : Supervisor) → score c (runtime_state_ready s).1.world ≡ score c s.world
  unfolding runtime_state_ready
  runtime_state_ready-score s = ground arith

  pub defer_durable_convergence-score :
      (s : Supervisor) (p : PendingDurableConvergence)
      → score c (defer_durable_convergence s p).world ≡ score c s.world
  unfolding defer_durable_convergence total
  defer_durable_convergence-score s p = ground arith

  pub defer_lifecycle_intent-score :
      (s : Supervisor) (p : PendingLifecycleIntent)
      → score c (defer_lifecycle_intent s p).world ≡ score c s.world
  unfolding defer_lifecycle_intent total
  defer_lifecycle_intent-score s p = ground arith

  settle_launch-score :
      (o : RuntimePersistence) (s : Supervisor) (previous : Option LaunchPending)
      → score c (settle_launch o s previous).1.world ≡ score c s.world
  unfolding settle_launch
  settle_launch-score o s previous = ground arith

  pub begin_launch-score :
      (s : Supervisor) (m : LaunchPending) → score c (begin_launch s m).1.world ≡ score c s.world
  unfolding begin_launch
  begin_launch-score s m = ground (
    arith,
    settle_launch-score (persist_runtime_detailed (set_launch_pending s (some m))).0
        (persist_runtime_detailed (set_launch_pending s (some m))).1 s.runtime.launch_pending,
    persist_runtime_detailed-score (set_launch_pending s (some m)),
  )

  pub commit_spawned_process-score :
      (s : Supervisor) (p : ManagedProcess)
      → score c (commit_spawned_process s p).1.world ≡ score c s.world
  unfolding commit_spawned_process
  commit_spawned_process-score s p = persist_runtime-score _

  pub abort_launch-score : (s : Supervisor) → score c (abort_launch s).1.world ≡ score c s.world
  unfolding abort_launch
  abort_launch-score s = grind (arith, persist_runtime-score)

  pub emit_notification-score :
      (s : Supervisor) (kind : NotificationKind) (title message : String)
      → score c (emit_notification s kind title message).1.world ≡ score c s.world
  unfolding emit_notification emit total
  emit_notification-score s kind title message = grind (arith, persist_runtime-score)

  pub finish_recovery_failure-score :
      (s : Supervisor) → score c (finish_recovery_failure s).world ≡ score c s.world
  unfolding finish_recovery_failure announce_exhausted
  finish_recovery_failure-score s = grind (arith, emit_notification-score)

  schedule_at-score :
      (delay : Option ℕ) (s : Supervisor) → score c (schedule_at delay s).world ≡ score c s.world
  unfolding schedule_at total
  schedule_at-score delay s = ground (arith, finish_recovery_failure-score s)

  pub schedule_next_restart-score :
      (s : Supervisor) → score c (schedule_next_restart s).world ≡ score c s.world
  unfolding schedule_next_restart
  schedule_next_restart-score s = grind (arith, schedule_at-score, finish_recovery_failure-score)

  task_for-score :
      (s : Supervisor) (r : ProcessRecord) (active : Option ValidatedConfig)
      → score c (task_for s r active).1 ≡ score c s.world
  unfolding task_for stale_task
  task_for-score s r active = ground (arith, inspect_record_identity-score c s.world r)

  task_of-score :
      (s : Supervisor) (p : Option ManagedProcess) → score c (task_of s p).1 ≡ score c s.world
  unfolding task_of
  task_of-score s none = refl
  task_of-score s (some p) = task_for-score s _ _

  pub current_health_task-score :
      (s : Supervisor) → score c (current_health_task s).1 ≡ score c s.world
  unfolding current_health_task
  current_health_task-score s = task_of-score s s.process

  pub sync_health_generation-score :
      (s : Supervisor) → score c (sync_health_generation s).world ≡ score c s.world
  unfolding sync_health_generation
  sync_health_generation-score s = ground (arith, current_health_task-score s)

  recheck_config-score :
      (config : Option ValidatedConfig) (s : Supervisor) (r : ProcessRecord)
      → score c (recheck_config config s r).world ≡ score c s.world
  unfolding recheck_config
  recheck_config-score config s r = ground (arith, inspect_record_identity-score c s.world r)

  recheck_record-score :
      (r : Option ProcessRecord) (s : Supervisor)
      → score c (recheck_record r s).world ≡ score c s.world
  unfolding recheck_record
  recheck_record-score r s = grind (arith, inspect_record_identity-score, recheck_config-score)

  pub recheck_stale_process-score :
      (s : Supervisor) → score c (recheck_stale_process s).world ≡ score c s.world
  unfolding recheck_stale_process
  recheck_stale_process-score s = ground (arith, recheck_record-score s.runtime.process s)

  pub merge_loaded-score :
      (s : Supervisor) (config : ValidatedConfig)
      → score c (merge_loaded s config).1.world ≡ score c s.world
  unfolding merge_loaded
  merge_loaded-score s config =
      merge_credentials-score c s.world s.credentials config s.latest_config

  adopt_config-score :
      (config : ValidatedConfig) (s : Supervisor)
      → score c (adopt_config config s).world ≡ score c s.world
  unfolding adopt_config
  adopt_config-score config s =
      grind (arith, recheck_stale_process-score, sync_health_generation-score)

  apply_loaded-score :
      (loaded : Result String ValidatedConfig) (s : Supervisor)
      → score c (apply_loaded loaded s).world ≡ score c s.world
  unfolding apply_loaded
  apply_loaded-score (ok config) s =
      adopt_config-score (merge_loaded s config).0 (merge_loaded s config).1
      ∙ merge_loaded-score s config
  apply_loaded-score (err text) s = refl

  pub refresh_config-score : (s : Supervisor) → score c (refresh_config s).world ≡ score c s.world
  unfolding refresh_config total
  refresh_config-score s = grind (arith, apply_loaded-score)

  pub mark_unverified_process-score :
      (s : Supervisor) (r : ProcessRecord)
      → score c (mark_unverified_process s r).world ≡ score c s.world
  unfolding mark_unverified_process total
  mark_unverified_process-score s r = grind (arith, persist_runtime-score)

  pub attach_unconfirmed_process-score :
      (s : Supervisor) (r : ProcessRecord)
      → score c (attach_unconfirmed_process s r).world ≡ score c s.world
  unfolding attach_unconfirmed_process total
  attach_unconfirmed_process-score s r = grind (arith, persist_runtime-score)

  pub attach_stale_config_process-score :
      (s : Supervisor) (r : ProcessRecord) (reason : String)
      → score c (attach_stale_config_process s r reason).world ≡ score c s.world
  unfolding attach_stale_config_process
  attach_stale_config_process-score s r reason = grind (arith, persist_runtime-score)

  settle_discard-score :
      (o : RuntimePersistence) (s : Supervisor) (previous : Option ProcessRecord)
      → score c (settle_discard o s previous).1.world ≡ score c s.world
  unfolding settle_discard total
  settle_discard-score o s previous = ground arith

  pub discard_stale_process_record-score :
      (s : Supervisor) → score c (discard_stale_process_record s).1.world ≡ score c s.world
  unfolding discard_stale_process_record
  discard_stale_process_record-score s =
      grind (arith, settle_discard-score, persist_runtime_detailed-score)
