-- ===== src/Trace/Health.antt =====
-- The price of health supervision (rust/src/supervisor/health.rs).
use open_code_server.Base.{
  ℕ, String, Bool, true, false, ◌≡◌, refl, Option, none, some, Result, ok, err, arith,
}
use open_code_server.Config.{ValidatedConfig}
use open_code_server.RuntimeState.{ProcessRecord}
use open_code_server.World.{HealthResult, HealthError}
use open_code_server.Process.Identity.{inspect_record_identity}
use open_code_server.Process.Managed.{ManagedProcess}
use open_code_server.HealthWorker.{HealthCheckKey, HealthCheckCompletion}
use open_code_server.Supervisor.State.{Supervisor}
use open_code_server.Supervisor.Configuration.{HealthTask}
use open_code_server.Supervisor.Health.{
  dispatch_task, dispatch_health_check, record_version, announce_recovered, apply_healthy,
  report_incident, settle_unhealthy, apply_unhealthy, apply_health_result, upgrade_stale,
  stale_with_config, stale_with_process, apply_stale_health_result, apply_current,
  complete_health_check, poll_health_check,
}
use open_code_server.Trace.Score.{Tariff, score}
use open_code_server.Trace.Process.{inspect_record_identity-score}
use open_code_server.Trace.Services.{health_dispatch-score, health_poll-score}
use open_code_server.Trace.State.{
  persist_runtime-score, runtime_state_ready-score, emit_notification-score,
  current_health_task-score, sync_health_generation-score,
}

module _ (c : Tariff) where
  dispatch_task-score :
      (task : Option HealthTask) (s : Supervisor) (at : ℕ)
      → score c (dispatch_task task s at).world ≡ score c s.world
  unfolding dispatch_task
  dispatch_task-score none s at = refl
  dispatch_task-score (some (key, config)) s at = health_dispatch-score c s.world _ at key

  pub dispatch_health_check-score :
      (s : Supervisor) (at : ℕ) → score c (dispatch_health_check s at).world ≡ score c s.world
  unfolding dispatch_health_check
  dispatch_health_check-score s at = grind (
    arith, dispatch_task-score, current_health_task-score, runtime_state_ready-score,
    sync_health_generation-score,
  )

  record_version-score :
      (p : Option ManagedProcess) (s : Supervisor) (version : String)
      → score c (record_version p s version).1.world ≡ score c s.world
  unfolding record_version
  record_version-score none s version = refl
  record_version-score (some p) s version = persist_runtime-score c _

  announce_recovered-score :
      (s : Supervisor) → score c (announce_recovered s).world ≡ score c s.world
  unfolding announce_recovered
  announce_recovered-score s = grind (arith, emit_notification-score)

  apply_healthy-score :
      (s : Supervisor) (version : String)
      → score c (apply_healthy s version).world ≡ score c s.world
  unfolding apply_healthy
  apply_healthy-score s version = grind (arith, announce_recovered-score, record_version-score)

  report_incident-score :
      (s : Supervisor) (unauthorized : Bool)
      → score c (report_incident s unauthorized).world ≡ score c s.world
  unfolding report_incident
  report_incident-score s unauthorized = grind (arith, emit_notification-score)

  settle_unhealthy-score :
      (starting : Bool) (s : Supervisor) (unauthorized : Bool)
      → score c (settle_unhealthy starting s unauthorized).world ≡ score c s.world
  unfolding settle_unhealthy
  settle_unhealthy-score true s unauthorized = refl
  settle_unhealthy-score false s unauthorized = report_incident-score _ unauthorized

  apply_unhealthy-score :
      (s : Supervisor) (at : ℕ) (unauthorized : Bool)
      → score c (apply_unhealthy s at unauthorized).world ≡ score c s.world
  unfolding apply_unhealthy
  apply_unhealthy-score s at unauthorized = grind (arith, settle_unhealthy-score)

  apply_health_result-score :
      (result : Result HealthError HealthResult) (s : Supervisor) (at : ℕ)
      → score c (apply_health_result result s at).world ≡ score c s.world
  unfolding apply_health_result
  apply_health_result-score (ok result) s at =
      ground (arith, apply_healthy-score s result.version, apply_unhealthy-score s at false)
  apply_health_result-score (err e) s at = apply_unhealthy-score s at _

  upgrade_stale-score :
      (s : Supervisor) (r : ProcessRecord) (version : String) (config : ValidatedConfig) (at : ℕ)
      → score c (upgrade_stale s r version config at).world ≡ score c s.world
  unfolding upgrade_stale
  upgrade_stale-score s r version config at = grind (arith, persist_runtime-score)

  stale_with_config-score :
      (config : Option ValidatedConfig) (s : Supervisor) (r : ProcessRecord) (key : HealthCheckKey)
      (version : String) (at : ℕ)
      → score c (stale_with_config config s r key version at).world ≡ score c s.world
  unfolding stale_with_config
  stale_with_config-score none s r key version at = refl
  stale_with_config-score (some config) s r key version at = ground (
    arith,
    upgrade_stale-score (record s { world = (inspect_record_identity s.world r).1 }) r version
        config at,
    inspect_record_identity-score c s.world r,
  )

  stale_with_process-score :
      (p : Option ManagedProcess) (s : Supervisor) (key : HealthCheckKey) (version : String)
      (at : ℕ)
      → score c (stale_with_process p s key version at).world ≡ score c s.world
  unfolding stale_with_process
  stale_with_process-score none s key version at = refl
  stale_with_process-score (some p) s key version at =
      stale_with_config-score s.latest_config s _ key version at

  apply_stale-score :
      (result : Result HealthError HealthResult) (s : Supervisor) (key : HealthCheckKey) (at : ℕ)
      → score c (apply_stale_health_result result s key at).world ≡ score c s.world
  unfolding apply_stale_health_result
  apply_stale-score (err e) s key at = refl
  apply_stale-score (ok result) s key at = grind (arith, stale_with_process-score)

  apply_current-score :
      (task : Option HealthTask) (s : Supervisor) (completion : HealthCheckCompletion) (at : ℕ)
      → score c (apply_current task s completion at).world ≡ score c s.world
  unfolding apply_current
  apply_current-score none s completion at = refl
  apply_current-score (some (key, config)) s completion at =
      grind (arith, apply_stale-score, apply_health_result-score)

  complete-score :
      (completion : Option HealthCheckCompletion) (s : Supervisor) (at : ℕ)
      → score c (complete_health_check completion s at).world ≡ score c s.world
  unfolding complete_health_check
  complete-score none s at = refl
  complete-score (some completion) s at =
      grind (arith, apply_current-score, current_health_task-score, runtime_state_ready-score)

  pub poll_health_check-score :
      (s : Supervisor) (at : ℕ) → score c (poll_health_check s at).world ≡ score c s.world
  unfolding poll_health_check
  poll_health_check-score s at = grind (
    arith, complete-score, health_poll-score, current_health_task-score,
    sync_health_generation-score,
  )
