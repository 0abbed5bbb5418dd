-- ===== src/Supervisor/Startup.antt =====
-- The start of the agent (rust/src/supervisor/mod.rs, `with_options`). The fingerprint key and what
-- `RuntimeState::load` returned are arguments.
use open_code_server.Base.{
  ℕ, String, Bool, true, false, not, ◌&&◌, Option, none, some, Result, ok, err, if◌then◌else◌,
  is_none, unwrap_or,
}
use open_code_server.Protocol.{ServerState, HealthState, wants_running}
use open_code_server.Config.{ValidatedConfig, ConfigFingerprintKey}
use open_code_server.RuntimeState.{RuntimeState, ProcessRecord, default}
use open_code_server.World.{World, ask, now}
use open_code_server.Credential
use open_code_server.VersionQuery
use open_code_server.Fda.{probe_full_disk_access}
use open_code_server.Supervisor.State.{
  Supervisor, SupervisorOptions, Message, StartTrigger, PendingDurableConvergence, has_process,
  launch_is_pending,
}
use open_code_server.Supervisor.Durability.{
  RuntimePersistence, persist_runtime_detailed, is_durable,
}
use open_code_server.Supervisor.Configuration.{merge_loaded}
use open_code_server.Supervisor.Start.{failed_unknown}
use open_code_server.Supervisor.Lifecycle.{begin_stop}
use open_code_server.Supervisor.Retry.{resume_pending_durable_convergence}
use open_code_server.Supervisor.Unverified.{set_record}
use open_code_server.Supervisor.Reattach.{try_reattach}

abbrev pub health_observation_bound : ℕ
health_observation_bound = 10000

abbrev runtime_of : Result String RuntimeState → RuntimeState
runtime_of (ok runtime) = runtime
runtime_of (err text) = default

abbrev is_loaded : Result String RuntimeState → Bool
is_loaded (ok runtime) = true
is_loaded (err text) = false

abbrev load_error : Result String RuntimeState → Option Message
load_error (ok runtime) = none
load_error (err text) = some (Message.load_failed text)

abbrev config_of : Result String ValidatedConfig → Option ValidatedConfig
config_of (ok config) = some config
config_of (err text) = none

abbrev config_error_of : Result String ValidatedConfig → Option Message
config_error_of (ok config) = none
config_error_of (err text) = some (Message.config_error text)

-- The record as it is first built.
unfoldable pub fresh :
    ConfigFingerprintKey → SupervisorOptions → Result String RuntimeState → World → Supervisor
fresh key options loaded w =
    let (config, w1) = ask w w.config in
    let (fda, w2) = probe_full_disk_access w1 in
    let (at, w3) = now w2 in
    record {
      config_fingerprint_key = key;
      options = options;
      agent_started = at;
      runtime = runtime_of loaded;
      runtime_state_loaded = is_loaded loaded;
      runtime_state_reliable = is_loaded loaded;
      runtime_state_retry_pending = false;
      runtime_state_retry_at = none;
      runtime_state_error = load_error loaded;
      launch_pending_clear_requested = false;
      pending_process_exit = none;
      pending_lifecycle_intent = none;
      pending_durable_convergence = none;
      process = none;
      latest_config = config_of config;
      active_config = none;
      server_state = ServerState.stopped;
      health_state = HealthState.unknown;
      fda_state = fda;
      installed_version = none;
      running_version = none;
      config_error = config_error_of config;
      last_error = load_error loaded;
      notification = (runtime_of loaded).notification;
      last_health_check = none;
      health_generation = 0;
      health_generation_basis = none;
      last_config_check = at;
      credentials = Credential.new;
      version_queries = VersionQuery.new;
      health_checks = record {
        in_flight = none;
        overdue_logged = false;
        observation_bound = health_observation_bound;
      };
      process_started = none;
      stop_deadline = none;
      restart_after_stop = false;
      group_cleanup_recovery = false;
      next_restart = none;
      next_port_retry = none;
      port_release_deadline = none;
      network_wait_deadline = none;
      pending_start_trigger = none;
      restart_attempt_index = 0;
      recovery_incident_active = false;
      health_incident_active = false;
      health_failures = 0;
      unverified_process_record = false;
      unverified_check_at = none;
      stale_config_process = false;
      world = w3;
    }

abbrev keep_merged : ValidatedConfig × Supervisor → Supervisor
keep_merged (config, s) = record s { latest_config = some config }

-- The configuration is taken out while the Keychain's credential is merged into it.
unfoldable pub merge_fresh : Option ValidatedConfig → Supervisor → Supervisor
merge_fresh none s = s
merge_fresh (some config) s = keep_merged (merge_loaded (record s { latest_config = none }) config)

unfoldable pub reattach_recorded : Option ProcessRecord → Supervisor → Supervisor
reattach_recorded none s = s
reattach_recorded (some r) s = try_reattach s r

abbrev first_convergence : Supervisor → PendingDurableConvergence
first_convergence s =
    if wants_running s.runtime.desired_state
    then PendingDurableConvergence.start StartTrigger.cold
    else PendingDurableConvergence.stop

unfoldable pub converge_first : RuntimePersistence × Supervisor → Supervisor
converge_first (outcome, s) =
    if is_durable outcome then resume_pending_durable_convergence s else failed_unknown s

abbrev or_convergence :
    Option PendingDurableConvergence → PendingDurableConvergence → PendingDurableConvergence
or_convergence pending first = unwrap_or pending first

abbrev pub without_record : Supervisor → Supervisor
without_record s = record (set_record s none) {
  pending_durable_convergence =
      some (or_convergence s.pending_durable_convergence (first_convergence s));
}

unfoldable pub after_reattach : Supervisor → Supervisor
unfolding converge_first
after_reattach s =
    if is_none s.process && not s.unverified_process_record
    then converge_first (persist_runtime_detailed (without_record s))
    else if has_process s && not (wants_running s.runtime.desired_state)
    then begin_stop s false
    else s

-- An unreadable state and an unfinished launch are left to an explicit repair.
unfoldable pub converge_startup : Supervisor → Supervisor
unfolding after_reattach reattach_recorded
converge_startup s =
    if s.runtime_state_loaded && not (launch_is_pending s)
    then after_reattach (reattach_recorded s.runtime.process s)
    else if not s.runtime_state_loaded
    then record s { server_state = ServerState.failed }
    else record (failed_unknown s) {
      runtime_state_error = some Message.launch_interrupted;
      last_error = some Message.launch_interrupted;
    }

unfoldable pub with_options :
    ConfigFingerprintKey → SupervisorOptions → Result String RuntimeState → World → Supervisor
unfolding converge_startup merge_fresh fresh
with_options key options loaded w =
    let s = fresh key options loaded w in converge_startup (merge_fresh s.latest_config s)
