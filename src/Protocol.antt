-- ===== src/Protocol.antt =====
-- The versioned protocol between the agent and its clients (rust/src/protocol.rs): commands, the
-- states that a status reports, and the fields on which a subscriber's push depends.
use open_code_server.Base.{String, Bool, true, false}
pub mod Messages

pub data Command : Type 0 where
  status start stop continue_stop force_stop restart refresh_fda : Command
  refresh_credentials credential_changed credential_removed validate_config subscribe : Command

pub data DesiredState : Type 0 where
  running stopped : DesiredState

pub data ServerState : Type 0 where
  stopped starting healthy unhealthy stopping stop_timed_out waiting_to_restart failed : ServerState

pub data HealthState : Type 0 where
  unknown healthy unhealthy : HealthState

pub data FdaState : Type 0 where
  verified not_verified unable_to_determine : FdaState

pub record ActionCapabilities : Type 0 where
  pub start : Bool
  pub stop : Bool
  pub restart : Bool
  pub continue_stop : Bool
  pub force_stop : Bool

pub data NotificationKind : Type 0 where
  failure recovered final_failure : NotificationKind

pub record NotificationEvent : Type 0 where
  pub event_id : String
  pub kind : NotificationKind
  pub title : String
  pub message : String

-- `matches!` and `==` on the enums, as the code uses them.
abbrev pub is_stop_timed_out : ServerState → Bool
is_stop_timed_out ServerState.stop_timed_out = true
is_stop_timed_out _ = false

abbrev pub is_stopping : ServerState → Bool
is_stopping ServerState.stopping = true
is_stopping _ = false

abbrev pub is_starting : ServerState → Bool
is_starting ServerState.starting = true
is_starting _ = false

abbrev pub is_stop_phase : ServerState → Bool
is_stop_phase ServerState.stopping = true
is_stop_phase ServerState.stop_timed_out = true
is_stop_phase _ = false

abbrev pub wants_running : DesiredState → Bool
wants_running DesiredState.running = true
wants_running DesiredState.stopped = false

abbrev pub is_healthy : HealthState → Bool
is_healthy HealthState.healthy = true
is_healthy _ = false
