-- ===== src/Protocol/Messages.antt =====
-- The messages of the control socket (rust/src/protocol.rs): requests, status snapshots, the part of a
-- snapshot that subscribers are told about, and responses.
use open_code_server.Base.{ℕ, String, Bool, true, false, Option, none, some, List}
use open_code_server.Protocol.{
  Command, DesiredState, ServerState, HealthState, FdaState, ActionCapabilities, NotificationEvent,
}

abbrev pub protocol_version : ℕ
protocol_version = 6

abbrev pub max_message_bytes : ℕ
max_message_bytes = 65_536

pub record Request : Type 0 where
  pub version : ℕ
  pub command : Command

pub data PasswordState : Type 0 where
  not_configured access_pending configured : PasswordState

-- Of rust/src/config.rs.
pub record ValidationReport : Type 0 where
  pub valid : Bool
  pub issues : List String
  pub selected_executable : Option String
  pub candidates : List String

pub record Status : Type 0 where
  pub protocol_version : ℕ
  pub agent_version : String
  pub agent_uptime_seconds : ℕ
  pub desired_state : DesiredState
  pub server_state : ServerState
  pub health : HealthState
  pub fda : FdaState
  pub uptime_seconds : Option ℕ
  pub endpoint : String
  pub username : String
  pub password_state : PasswordState
  pub authentication_enabled : Bool
  pub action_capabilities : ActionCapabilities
  pub installed_version : Option String
  pub running_version : Option String
  pub version_pending : Bool
  pub config_pending : Bool
  pub config_error : Option String
  pub last_error : Option String
  pub pid : Option ℕ
  pub stop_grace_remaining_seconds : Option ℕ
  pub notification : Option NotificationEvent
  pub process_started_at_unix_seconds : Option ℕ
  pub bundle_version : String

pub record StatusFingerprint : Type 0 where
  pub desired_state : DesiredState
  pub server_state : ServerState
  pub health : HealthState
  pub fda : FdaState
  pub endpoint : String
  pub username : String
  pub password_state : PasswordState
  pub action_capabilities : ActionCapabilities
  pub installed_version : Option String
  pub running_version : Option String
  pub version_pending : Bool
  pub config_pending : Bool
  pub config_error : Option String
  pub last_error : Option String
  pub pid : Option ℕ
  pub notification : Option NotificationEvent
  pub process_started_at_unix_seconds : Option ℕ

-- `StatusFingerprint::from`
abbrev pub fingerprint_of : Status → StatusFingerprint
fingerprint_of s = record {
  desired_state = s.desired_state;
  server_state = s.server_state;
  health = s.health;
  fda = s.fda;
  endpoint = s.endpoint;
  username = s.username;
  password_state = s.password_state;
  action_capabilities = s.action_capabilities;
  installed_version = s.installed_version;
  running_version = s.running_version;
  version_pending = s.version_pending;
  config_pending = s.config_pending;
  config_error = s.config_error;
  last_error = s.last_error;
  pid = s.pid;
  notification = s.notification;
  process_started_at_unix_seconds = s.process_started_at_unix_seconds;
}

pub record Response : Type 0 where
  pub version : ℕ
  pub ok : Bool
  pub error : Option String
  pub status : Option Status
  pub validation : Option ValidationReport

abbrev pub success_response : Status → Response
success_response s = record {
  version = protocol_version;
  ok = true;
  error = none;
  status = some s;
  validation = none;
}

abbrev pub validation_response : ValidationReport → Status → Response
validation_response report s = record {
  version = protocol_version;
  ok = report.valid;
  error = none;
  status = some s;
  validation = some report;
}

abbrev pub error_response : String → Option Status → Response
error_response message s = record {
  version = protocol_version;
  ok = false;
  error = some message;
  status = s;
  validation = none;
}
