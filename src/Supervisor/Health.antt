-- ===== src/Supervisor/Health.antt =====
-- Health supervision (rust/src/supervisor/health.rs).
use open_code_server.Base.{
  ℕ, String, Bool, true, false, not, ◌&&◌, ◌||◌, ◌+◌, ◌-◌, Option, none, some, Result, ok, err, ltb,
  leb, if◌then◌else◌, is_none, is_some_and, map_or, map_option, same_text,
}
use open_code_server.Protocol.{
  ServerState, HealthState, NotificationKind, is_stop_phase, is_starting,
}
use open_code_server.Config.{ValidatedConfig}
use open_code_server.RuntimeState.{ProcessRecord}
use open_code_server.World.{HealthResult, HealthError}
use open_code_server.Credential.{CredentialState}
use open_code_server.Process.Identity.{inspect_record_identity}
use open_code_server.Process.Managed.{ManagedProcess, record_of, with_record, attach}
use open_code_server.HealthWorker.{HealthCheckKey, HealthCheckCompletion, dispatch, poll, same_key}
use open_code_server.Supervisor.State.{Supervisor, Message}
use open_code_server.Supervisor.Durability.{persist_runtime, runtime_state_ready}
use open_code_server.Supervisor.Recovery.{emit_notification}
use open_code_server.Supervisor.Configuration.{
  HealthTask, current_health_task, sync_health_generation, is_intact,
}
use open_code_server.Supervisor.Start.{failed_unknown}
use open_code_server.Supervisor.Unverified.{set_record, failed_unless}

abbrev pub health_interval : ServerState → ℕ
health_interval ServerState.starting = 1000
health_interval ServerState.unhealthy = 1000
health_interval _ = 3000

abbrev pub health_due : Supervisor → ℕ → ℕ
health_due s at = map_or s.last_health_check at (λ last. last + health_interval s.server_state)

abbrev pub startup_health_allowance : ℕ
startup_health_allowance = 15000

unfoldable pub dispatch_task : Option HealthTask → Supervisor → ℕ → Supervisor
dispatch_task none s at = s
dispatch_task (some (key, config)) s at =
    let (sent, checks, w) = dispatch s.world s.health_checks at key in
    record s { last_health_check = some at; health_checks = checks; world = w }

abbrev dispatch_ready : Bool × Supervisor → ℕ → Supervisor
dispatch_ready (ready, s) at =
    if not ready || is_stop_phase s.server_state
    then s
    else let (task, w) = current_health_task s in dispatch_task task (record s { world = w }) at

unfoldable pub dispatch_health_check : Supervisor → ℕ → Supervisor
unfolding dispatch_task
dispatch_health_check s at = dispatch_ready (runtime_state_ready (sync_health_generation s)) at

abbrev pub unauthorized_credential_message : CredentialState → Message
unauthorized_credential_message CredentialState.not_configured = Message.password_removed
unauthorized_credential_message _ = Message.password_rejected

-- The version that a healthy answer reports is recorded before anything is announced.
unfoldable pub record_version : Option ManagedProcess → Supervisor → String → Bool × Supervisor
record_version none s version = (true, record s { running_version = some version })
record_version (some p) s version =
    let r = record (record_of p) { running_version = some version } in
    persist_runtime (record (set_record s (some r)) {
      running_version = some version;
      process = some (with_record p r);
    })

abbrev version_step : Supervisor → String → Bool × Supervisor
version_step s version =
    if same_text s.running_version (some version)
    then (true, s)
    else record_version s.process s version

unfoldable pub announce_recovered : Supervisor → Supervisor
announce_recovered s =
    if s.recovery_incident_active
    then (emit_notification
        (record s { recovery_incident_active = false; health_incident_active = false })
        NotificationKind.recovered "OpenCode recovered" "OpenCode is healthy again.").1
    else if s.health_incident_active
    then (emit_notification (record s { health_incident_active = false }) NotificationKind.recovered
        "OpenCode health recovered" "The health endpoint is responding normally again.").1
    else s

abbrev announce_if : Bool × Supervisor → Supervisor
announce_if (persisted, s) = if persisted then announce_recovered s else failed_unknown s

unfoldable pub apply_healthy : Supervisor → String → Supervisor
unfolding record_version announce_recovered
apply_healthy s version = announce_if (
    version_step
      (record s {
        health_state = HealthState.healthy;
        server_state = ServerState.healthy;
        health_failures = 0;
        last_error = none;
      })
      version)

abbrev pub u32_max : ℕ
u32_max = 4294967295

abbrev failure_count : ℕ → ℕ
failure_count n = if leb u32_max n then n else n + 1

abbrev still_starting : Supervisor → ℕ → Bool
still_starting s at =
    is_some_and s.process_started (λ started. ltb (at - started) startup_health_allowance)
    && is_starting s.server_state

abbrev incident_text : Bool → String
incident_text true =
    "The stored password was rejected (HTTP 401). Re-save the password in Settings and restart OpenCode; the process was left running."
incident_text false =
    "The process is still running; OpenCodeServer will not restart it solely because a health check failed."

unfoldable pub report_incident : Supervisor → Bool → Supervisor
report_incident s unauthorized =
    if leb 3 s.health_failures && not s.health_incident_active
    then (emit_notification (record s { health_incident_active = true }) NotificationKind.failure
        "OpenCode is not healthy" (incident_text unauthorized)).1
    else s

-- A process that is still starting is not reported.
unfoldable pub settle_unhealthy : Bool → Supervisor → Bool → Supervisor
unfolding report_incident
settle_unhealthy true s unauthorized = s
settle_unhealthy false s unauthorized =
    report_incident
      (record s {
        server_state = ServerState.unhealthy;
        last_error = some (
            if unauthorized
            then unauthorized_credential_message s.credentials.credential_state
            else Message.not_healthy);
      })
      unauthorized

unfoldable pub apply_unhealthy : Supervisor → ℕ → Bool → Supervisor
unfolding settle_unhealthy
apply_unhealthy s at unauthorized =
    settle_unhealthy (still_starting s at)
      (record s {
        health_failures = failure_count s.health_failures;
        health_state = HealthState.unhealthy;
      })
      unauthorized

abbrev is_unauthorized : HealthError → Bool
is_unauthorized HealthError.unauthorized = true
is_unauthorized (HealthError.other text) = false

unfoldable pub apply_health_result : Result HealthError HealthResult → Supervisor → ℕ → Supervisor
unfolding apply_healthy apply_unhealthy
apply_health_result (ok result) s at =
    if result.healthy then apply_healthy s result.version else apply_unhealthy s at false
apply_health_result (err e) s at = apply_unhealthy s at (is_unauthorized e)

unfoldable pub upgrade_stale :
    Supervisor → ProcessRecord → String → ValidatedConfig → ℕ → Supervisor
upgrade_stale s r version config at =
    let r' = record r {
      running_version = some version;
      config_fingerprint = s.config_fingerprint_key.fingerprint config;
    } in
    failed_unless (
      persist_runtime (record (set_record s (some r')) {
        running_version = some version;
        process = some (attach r');
        active_config = some config;
        stale_config_process = false;
        server_state = ServerState.healthy;
        health_state = HealthState.healthy;
        last_error = none;
        process_started = some at;
      }))

unfoldable pub stale_with_config :
    Option ValidatedConfig → Supervisor → ProcessRecord → HealthCheckKey → String → ℕ → Supervisor
unfolding upgrade_stale
stale_with_config none s r key version at = s
stale_with_config (some config) s r key version at =
    if not (s.config_fingerprint_key.verifies key.config_fingerprint config)
    then s
    else let (identity, w) = inspect_record_identity s.world r in
      if is_intact identity
      then upgrade_stale (record s { world = w }) r version config at
      else record s { world = w }

unfoldable pub stale_with_process :
    Option ManagedProcess → Supervisor → HealthCheckKey → String → ℕ → Supervisor
unfolding stale_with_config
stale_with_process none s key version at = s
stale_with_process (some p) s key version at =
    stale_with_config s.latest_config s (record_of p) key version at

unfoldable pub apply_stale_health_result :
    Result HealthError HealthResult → Supervisor → HealthCheckKey → ℕ → Supervisor
unfolding stale_with_process
apply_stale_health_result (err e) s key at = s
apply_stale_health_result (ok result) s key at =
    if not result.healthy then s else stale_with_process s.process s key result.version at

-- A result is applied only where its key is still that of the current task.
unfoldable pub apply_current :
    Option HealthTask → Supervisor → HealthCheckCompletion → ℕ → Supervisor
unfolding apply_health_result apply_stale_health_result
apply_current none s completion at = s
apply_current (some (key, config)) s completion at =
    if not (same_key key completion.key)
    then s
    else if is_none s.active_config && s.stale_config_process
    then apply_stale_health_result completion.result s completion.key at
    else apply_health_result completion.result s at

abbrev complete_ready : Bool × Supervisor → HealthCheckCompletion → ℕ → Supervisor
complete_ready (ready, s) completion at =
    if not ready || is_stop_phase s.server_state
    then s
    else let (task, w) = current_health_task s in
      apply_current task (record s { world = w }) completion at

unfoldable pub complete_health_check : Option HealthCheckCompletion → Supervisor → ℕ → Supervisor
unfolding apply_current
complete_health_check none s at = s
complete_health_check (some completion) s at =
    complete_ready (runtime_state_ready (record s { last_health_check = some at })) completion at

abbrev key_of : HealthTask → HealthCheckKey
key_of (key, config) = key

unfoldable pub poll_health_check : Supervisor → ℕ → Supervisor
unfolding complete_health_check
poll_health_check s at =
    let synced = sync_health_generation s in
    let (task, w1) = current_health_task synced in
    let (completion, checks, w2) = poll w1 synced.health_checks at (map_option key_of task) in
    complete_health_check completion (record synced { health_checks = checks; world = w2 }) at
