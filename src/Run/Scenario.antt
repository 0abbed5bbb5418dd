-- ===== src/Run/Scenario.antt =====
-- A small concrete agent: one configuration, a disk that saves, a kernel that knows one process.
use open_code_server.Base.{ℕ, true, false, ◌+◌, none, some, List, [], ◌∷◌, ok}
use open_code_server.Protocol.{ServerState, HealthState, FdaState}
use open_code_server.Config.{
  ValidatedConfig, ConfigFingerprint, ConfigFingerprintKey, same_fingerprint,
}
use open_code_server.RuntimeState.{ProcessRecord, default}
use open_code_server.World.{
  World, Services, Call, ExitReason, KeychainProbe, TryRecv, ProcessSnapshot, FdaProbeOutcome,
}
use open_code_server.Credential
use open_code_server.VersionQuery
use open_code_server.Process.Managed.{ManagedProcess}
use open_code_server.Supervisor.State.{Supervisor}

abbrev pub config : ValidatedConfig
config = record {
  source = record {
    schema_version = 1;
    hostname = "127.0.0.1";
    port = 4096;
    username = "";
    password = "";
    mdns = false;
    executable_path = "/bin/opencode";
  };
  configured_executable = "/bin/opencode";
  canonical_executable = "/bin/opencode";
  effective_username = "opencode";
}

abbrev pub print : ConfigFingerprint
print = record { version = 1; hmac_sha256 = "tag" }

abbrev pub key : ConfigFingerprintKey
key = record { fingerprint = λ c. print; verifies = λ f c. same_fingerprint f print }

-- A clock that moves by 50 ms with every call.
unfoldable pub clock : List Call → ℕ
clock [] = 1000
clock (call ∷ t) = 50 + clock t

abbrev pub leader : ProcessSnapshot
leader = record {
  pid = 700;
  process_group_id = 700;
  effective_uid = 501;
  start_seconds = 10;
  start_microseconds = 20;
  executable = some "/bin/opencode";
}

abbrev pub leader_record : ProcessRecord
leader_record = record {
  pid = 700;
  process_group_id = 700;
  start_seconds = 10;
  start_microseconds = 20;
  executable = "/bin/opencode";
  started_at_unix_seconds = 5;
  running_version = none;
  config_fingerprint = print;
  identity_unconfirmed = false;
}

abbrev pub services : Services
services = record {
  effective_uid = 501;
  own_process_group = 600;
  instant = clock;
  unix_seconds = λ t. 5;
  storage = λ t step. none;
  canonicalize = λ t path. some path;
  snapshot = λ t pid. ok leader;
  peek_exit = λ t pid. ok none;
  group_members = λ t group. ok (700 ∷ []);
  deliver = λ t group number. ok tt;
  wait = λ t pid. ok (ExitReason.exited 0);
  endpoint = λ t c. ok tt;
  launch = λ t c. ok 700;
  config = λ t. ok config;
  event_id = λ t. some "event";
  probe_item = λ t account. KeychainProbe.not_configured;
  team = λ t. none;
  grant_covers = λ t account. false;
  grant_team = λ t account. none;
  credential_answer = λ t. TryRecv.empty;
  health_check = λ t c. ok (record { healthy = true; version = "1.0" });
  health_answer = λ t. TryRecv.empty;
  version_answer = λ t. TryRecv.empty;
  worker_starts = λ t. true;
  home_is_set = true;
  product_major_version = some 26;
  fda_targets = λ t. some FdaProbeOutcome.accessible ∷ [];
  config_is_valid = λ t. true;
}

abbrev pub world : World
world = record { trace = []; file = none; services = services }

-- An agent with nothing running.
abbrev pub idle : Supervisor
idle = record {
  config_fingerprint_key = key;
  options = record { network_wait_budget = 10000; version_query_timeout = 5000 };
  agent_started = 1000;
  runtime = default;
  runtime_state_loaded = true;
  runtime_state_reliable = true;
  runtime_state_retry_pending = false;
  runtime_state_retry_at = none;
  runtime_state_error = none;
  launch_pending_clear_requested = false;
  pending_process_exit = none;
  pending_lifecycle_intent = none;
  pending_durable_convergence = none;
  process = none;
  latest_config = some config;
  active_config = none;
  server_state = ServerState.stopped;
  health_state = HealthState.unknown;
  fda_state = FdaState.unable_to_determine;
  installed_version = none;
  running_version = none;
  config_error = none;
  last_error = none;
  notification = none;
  last_health_check = none;
  health_generation = 0;
  health_generation_basis = none;
  last_config_check = 1000;
  credentials = Credential.new;
  version_queries = VersionQuery.new;
  health_checks = record { in_flight = none; overdue_logged = false; observation_bound = 10000 };
  process_started = none;
  stop_deadline = none;
  restart_after_stop = false;
  group_cleanup_recovery = false;
  next_restart = none;
  next_port_retry = none;
  port_release_deadline = none;
  network_wait_deadline = none;
  pending_start_trigger = none;
  restart_attempt_index = 0;
  recovery_incident_active = false;
  health_incident_active = false;
  health_failures = 0;
  unverified_process_record = false;
  unverified_check_at = none;
  stale_config_process = false;
  world = world;
}

-- The agent with OpenCode attached.
abbrev pub managing : Supervisor
managing = record idle {
  runtime = record default { process = some leader_record };
  process = some (ManagedProcess.attached leader_record);
  active_config = some config;
  server_state = ServerState.healthy;
}
