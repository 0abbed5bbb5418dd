-- ===== src/Supervisor/State.antt =====
-- The supervisor's state (rust/src/supervisor/mod.rs, `Supervisor`), with its fields in the source's
-- order, and the messages that it reports. Times are milliseconds of the monotonic clock.
use open_code_server.Base.{ℕ, String, Bool, true, false, Option, is_some}
use open_code_server.Protocol.{ServerState, HealthState, FdaState, NotificationEvent}
use open_code_server.Config.{ValidatedConfig, ConfigFingerprintKey}
use open_code_server.RuntimeState.{RuntimeState}
use open_code_server.World.{World, ErrorKind, ExitReason}
use open_code_server.Credential.{CredentialController}
use open_code_server.HealthWorker.{HealthCheckCoordinator, HealthCheckKey}
use open_code_server.VersionQuery.{VersionQueryCoordinator}
use open_code_server.Process.Managed.{ManagedProcess}

pub data StartTrigger : Type 0 where
  cold recovery after_stop : StartTrigger

abbrev pub is_recovery : StartTrigger → Bool
is_recovery StartTrigger.recovery = true
is_recovery _ = false

abbrev pub is_after_stop : StartTrigger → Bool
is_after_stop StartTrigger.after_stop = true
is_after_stop _ = false

pub data PendingLifecycleIntent : Type 0 where
  start stop restart : PendingLifecycleIntent

pub data PendingDurableConvergence : Type 0 where
  start : StartTrigger → PendingDurableConvergence
  stop : PendingDurableConvergence

pub record SupervisorOptions : Type 0 where
  pub network_wait_budget : ℕ
  pub version_query_timeout : ℕ

-- The texts of `last_error`, `runtime_state_error` and of the errors that a command returns, one
-- constructor for each text of the source, with the values that the text shows.
pub data Message : Type 0 where
  save_failed load_failed : String → Message
  not_durably_available launch_not_finalized launch_interrupted : Message
  unverified_running keychain_not_granted stop_not_claimed launch_unresolved : Message
  identity_never_confirmed stop_timed_out not_waiting force_unavailable not_running : Message
  os_error config_error : String → Message
  kept_under_supervision : Message
  port_conflict : String → ℕ → Message
  start_failed inspection_failed : String → Message
  group_unverified waiting_for_group left_running attached_unconfirmed : Message
  previous_configuration : String → Message
  exited_recovery_pending : ExitReason → Message
  attempt_scheduled : ℕ → ℕ → Message
  attempts_exhausted password_removed password_rejected not_healthy : Message
  subscriptions_elsewhere : Message

-- An `io::Error` that a command returns.
pub record CommandError : Type 0 where
  pub kind : ErrorKind
  pub message : Message

abbrev pub command_error : ErrorKind → Message → CommandError
command_error k m = record { kind = k; message = m }

-- What a process exit that is not yet durable still has to do.
pub record PendingExit : Type 0 where
  pub was_explicit_stop : Bool
  pub exit : ExitReason

pub record Supervisor : Type 0 where
  pub config_fingerprint_key : ConfigFingerprintKey
  pub options : SupervisorOptions
  pub agent_started : ℕ
  pub runtime : RuntimeState
  pub runtime_state_loaded : Bool
  pub runtime_state_reliable : Bool
  pub runtime_state_retry_pending : Bool
  pub runtime_state_retry_at : Option ℕ
  pub runtime_state_error : Option Message
  pub launch_pending_clear_requested : Bool
  pub pending_process_exit : Option PendingExit
  pub pending_lifecycle_intent : Option PendingLifecycleIntent
  pub pending_durable_convergence : Option PendingDurableConvergence
  pub process : Option ManagedProcess
  pub latest_config : Option ValidatedConfig
  pub active_config : Option ValidatedConfig
  pub server_state : ServerState
  pub health_state : HealthState
  pub fda_state : FdaState
  pub installed_version : Option String
  pub running_version : Option String
  pub config_error : Option Message
  pub last_error : Option Message
  pub notification : Option NotificationEvent
  pub last_health_check : Option ℕ
  pub health_generation : ℕ
  pub health_generation_basis : Option HealthCheckKey
  pub last_config_check : ℕ
  pub credentials : CredentialController
  pub version_queries : VersionQueryCoordinator
  pub health_checks : HealthCheckCoordinator
  pub process_started : Option ℕ
  pub stop_deadline : Option ℕ
  pub restart_after_stop : Bool
  pub group_cleanup_recovery : Bool
  pub next_restart : Option ℕ
  pub next_port_retry : Option ℕ
  pub port_release_deadline : Option ℕ
  pub network_wait_deadline : Option ℕ
  pub pending_start_trigger : Option StartTrigger
  pub restart_attempt_index : ℕ
  pub recovery_incident_active : Bool
  pub health_incident_active : Bool
  pub health_failures : ℕ
  pub unverified_process_record : Bool
  pub unverified_check_at : Option ℕ
  pub stale_config_process : Bool
  -- The rest of the system, not a field of the source.
  pub world : World

abbrev pub has_process : Supervisor → Bool
has_process s = is_some s.process

abbrev pub launch_is_pending : Supervisor → Bool
launch_is_pending s = is_some s.runtime.launch_pending
