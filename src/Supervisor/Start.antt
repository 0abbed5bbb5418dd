-- ===== src/Supervisor/Start.antt =====
-- Starting OpenCode (rust/src/supervisor/lifecycle.rs, `start_now` and its two retries).
use open_code_server.Base.{
  ℕ, Bool, true, false, ◌&&◌, ◌+◌, Option, none, some, Result, ok, err, leb, if◌then◌else◌,
  unwrap_or,
}
use open_code_server.Protocol.{ServerState, HealthState}
use open_code_server.Config.{ValidatedConfig}
use open_code_server.RuntimeState.{LaunchPending}
use open_code_server.World.{IoError, ErrorKind, now}
use open_code_server.Credential.{is_access_pending, refresh_in_flight}
use open_code_server.Process.Managed.{ManagedProcess}
use open_code_server.Process.Spawn.{SpawnError, spawn}
use open_code_server.Supervisor.State.{
  Supervisor, Message, StartTrigger, PendingDurableConvergence, is_recovery, is_after_stop,
  launch_is_pending,
}
use open_code_server.Supervisor.Durability.{runtime_state_ready, defer_durable_convergence}
use open_code_server.Supervisor.Launch.{begin_launch, commit_spawned_process, abort_launch}
use open_code_server.Supervisor.Recovery.{schedule_next_restart, finish_recovery_failure}
use open_code_server.Supervisor.Configuration.{refresh_config}

abbrev pub port_release_retry_interval : ℕ
port_release_retry_interval = 250

abbrev pub port_release_retry_budget : ℕ
port_release_retry_budget = 10000

abbrev pub is_addr_in_use : ErrorKind → Bool
is_addr_in_use ErrorKind.addr_in_use = true
is_addr_in_use _ = false

abbrev pub is_addr_not_available : ErrorKind → Bool
is_addr_not_available ErrorKind.addr_not_available = true
is_addr_not_available _ = false

-- `get_or_insert` of the deadline, then the retry while it lies ahead.
unfoldable pub schedule_port_release_retry : Supervisor → Bool × Supervisor
schedule_port_release_retry s =
    let (at, w) = now s.world in
    let deadline = unwrap_or s.port_release_deadline (at + port_release_retry_budget) in
    let kept = record s { port_release_deadline = some deadline; world = w } in
    if leb deadline at then (false, kept) else (
      true,
      record kept {
        next_port_retry = some (at + port_release_retry_interval);
        server_state = ServerState.waiting_to_restart;
        health_state = HealthState.unknown;
        last_error = none;
      },
    )

unfoldable pub schedule_network_wait_retry : Supervisor → StartTrigger → Bool × Supervisor
schedule_network_wait_retry s trigger =
    let (at, w) = now s.world in
    let deadline = unwrap_or s.network_wait_deadline (at + s.options.network_wait_budget) in
    let kept = record s { network_wait_deadline = some deadline; world = w } in
    if leb deadline at then (false, kept) else (
      true,
      record kept {
        pending_start_trigger = some trigger;
        next_port_retry = some (at + port_release_retry_interval);
        server_state = ServerState.waiting_to_restart;
        health_state = HealthState.unknown;
        last_error = none;
      },
    )

abbrev pub forget_retries : Supervisor → Supervisor
forget_retries s = record s {
  next_port_retry = none;
  port_release_deadline = none;
  network_wait_deadline = none;
  pending_start_trigger = none;
}

abbrev pub failed_unknown : Supervisor → Supervisor
failed_unknown s = record s {
  server_state = ServerState.failed;
  health_state = HealthState.unknown;
}

abbrev recover : StartTrigger → Supervisor → Supervisor
recover trigger s = if is_recovery trigger then schedule_next_restart s else s

abbrev finish_started : Bool × Supervisor → Supervisor
finish_started (persisted, s) =
    if persisted then record s { last_error = none } else failed_unknown s

-- The child was created and confirmed.
unfoldable pub started : ManagedProcess → Supervisor → ValidatedConfig → Supervisor
started p s config =
    let (persisted, s1) = commit_spawned_process s p in
    let (at, w) = now s1.world in
    finish_started (
      persisted,
      record s1 {
        active_config = some config;
        running_version = none;
        server_state = ServerState.starting;
        health_state = HealthState.unknown;
        health_failures = 0;
        last_health_check = none;
        process_started = some at;
        group_cleanup_recovery = false;
        next_port_retry = none;
        port_release_deadline = none;
        network_wait_deadline = none;
        pending_start_trigger = none;
        world = w;
      },
    )

-- A child that could not be confirmed and did not stop is kept.
unfoldable pub keep_survivor : ManagedProcess → Supervisor → Supervisor
keep_survivor p s =
    let (persisted, s1) = commit_spawned_process s p in
    let (at, w) = now s1.world in
    record s1 {
      active_config = none;
      server_state = ServerState.failed;
      health_state = HealthState.unknown;
      process_started = some at;
      last_error = if persisted then some Message.kept_under_supervision else s1.last_error;
      world = w;
    }

abbrev start_error : IoError → ValidatedConfig → Message
start_error e config =
    if is_addr_in_use e.kind
    then Message.port_conflict config.source.hostname config.source.port
    else Message.start_failed e.text

abbrev after_failed_start : Supervisor → IoError → StartTrigger → Supervisor
after_failed_start s e StartTrigger.recovery =
    if is_addr_in_use e.kind then finish_recovery_failure s else schedule_next_restart s
after_failed_start s e _ = s

-- No retry is left for this failure.
unfoldable pub report_failed_start :
    Supervisor → IoError → ValidatedConfig → StartTrigger → Supervisor
report_failed_start s e config trigger =
    after_failed_start
      (record (failed_unknown (forget_retries s)) { last_error = some (start_error e config) }) e
      trigger

abbrev retried : Bool × Supervisor → (Supervisor → Supervisor) → Supervisor
retried (done, s) k = if done then s else k s

abbrev retry_network : IoError → StartTrigger → Supervisor → Bool × Supervisor
retry_network e trigger s =
    if is_addr_not_available e.kind then schedule_network_wait_retry s trigger else (false, s)

abbrev retry_port : IoError → StartTrigger → Supervisor → Bool × Supervisor
retry_port e trigger s =
    if is_addr_in_use e.kind && is_after_stop trigger
    then schedule_port_release_retry s
    else (false, s)

unfoldable pub after_abort :
    Bool × Supervisor → IoError → ValidatedConfig → StartTrigger → Supervisor
unfolding report_failed_start
after_abort (false, s) e config trigger = forget_retries (failed_unknown s)
after_abort (true, s) e config trigger =
    retried (retry_port e trigger s)
      (λ s1. retried (retry_network e trigger s1) (λ s2. report_failed_start s2 e config trigger))

unfoldable pub failed_start :
    Option ManagedProcess → IoError → Supervisor → ValidatedConfig → StartTrigger → Supervisor
unfolding keep_survivor after_abort
failed_start (some p) e s config trigger = keep_survivor p s
failed_start none e s config trigger = after_abort (abort_launch s) e config trigger

unfoldable pub after_spawn :
    Result SpawnError ManagedProcess → Supervisor → ValidatedConfig → StartTrigger → Supervisor
unfolding started failed_start
after_spawn (ok p) s config trigger = started p s config
after_spawn (err e) s config trigger = failed_start e.survivor e.error s config trigger

-- After the launch marker: only a durable one lets the child be created.
unfoldable pub after_begin : Bool × Supervisor → ValidatedConfig → StartTrigger → Supervisor
unfolding after_spawn
after_begin (false, s) config trigger = failed_unknown (
    if launch_is_pending s && s.launch_pending_clear_requested && s.runtime_state_retry_pending
    then record s { pending_durable_convergence = some (PendingDurableConvergence.start trigger) }
    else s)
after_begin (true, s) config trigger =
    let (spawned, w) = spawn s.world config none (s.config_fingerprint_key.fingerprint config) in
    after_spawn spawned (record s { world = w }) config trigger

abbrev pub marker_for : Supervisor → ValidatedConfig → LaunchPending
marker_for s config = record {
  executable = config.configured_executable;
  config_fingerprint = s.config_fingerprint_key.fingerprint config;
}

unfoldable pub start_with : Option ValidatedConfig → Supervisor → StartTrigger → Supervisor
unfolding after_begin
start_with none s trigger =
    recover trigger (record s { server_state = ServerState.failed; last_error = s.config_error })
start_with (some config) s trigger =
    if is_access_pending s.credentials.credential_state
    then (if refresh_in_flight s.credentials
        then s
        else recover trigger
            (record (failed_unknown s) { last_error = some Message.keychain_not_granted }))
    else after_begin (begin_launch s (marker_for s config)) config trigger

abbrev start_refreshed : Supervisor → StartTrigger → Supervisor
start_refreshed s trigger = start_with s.latest_config s trigger

unfoldable pub start_ready : Bool × Supervisor → StartTrigger → Supervisor
unfolding start_with
start_ready (false, s) trigger =
    failed_unknown (defer_durable_convergence s (PendingDurableConvergence.start trigger))
start_ready (true, s) trigger = start_refreshed (refresh_config s) trigger

unfoldable pub start_now : Supervisor → StartTrigger → Supervisor
unfolding start_ready
start_now s trigger = start_ready (runtime_state_ready s) trigger
