-- ===== src/RuntimeState.antt =====
-- The durable runtime state of the agent (rust/src/runtime_state.rs): the record of a launched
-- process, the marker of an unfinished launch, and the state file's contents.
use open_code_server.Base.{ℕ, String, Bool, Option, none}
use open_code_server.Protocol.{DesiredState, NotificationEvent}
use open_code_server.Config.{ConfigFingerprint}

pub record ProcessRecord : Type 0 where
  pub pid : ℕ
  pub process_group_id : ℕ
  pub start_seconds : ℕ
  pub start_microseconds : ℕ
  pub executable : String
  pub started_at_unix_seconds : ℕ
  pub running_version : Option String
  pub config_fingerprint : ConfigFingerprint
  pub identity_unconfirmed : Bool

pub record LaunchPending : Type 0 where
  pub executable : String
  pub config_fingerprint : ConfigFingerprint

pub record RuntimeState : Type 0 where
  pub schema_version : ℕ
  pub desired_state : DesiredState
  pub process : Option ProcessRecord
  pub launch_pending : Option LaunchPending
  pub notification : Option NotificationEvent

abbrev pub default : RuntimeState
default = record {
  schema_version = 2;
  desired_state = DesiredState.running;
  process = none;
  launch_pending = none;
  notification = none;
}
