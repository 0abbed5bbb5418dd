-- ===== src/World.antt =====
-- What the agent does not decide itself: the clock, the file system, the kernel's process table,
-- sockets, worker threads, the Keychain. Each call of such a service is recorded in `trace`, newest
-- first, and its answer is any function of the calls before it, so that a service may answer every
-- call differently. The state file is the one piece of the disk that is kept (`file`).
use open_code_server.Base.{Contents, ℕ, String, Bool, Option, List, ◌∷◌, Result}
use open_code_server.Config.{ValidatedConfig}
use open_code_server.RuntimeState.{RuntimeState}

pub data ErrorKind : Type 0 where
  addr_in_use addr_not_available permission_denied invalid_input not_found other : ErrorKind

-- `io::Error`: its kind, whether its raw OS code is ESRCH, and its text.
pub record IoError : Type 0 where
  pub kind : ErrorKind
  pub is_esrch : Bool
  pub text : String

-- An error that the code makes itself, `io::Error::new` and `io::Error::other`.
abbrev pub io_error : ErrorKind → String → IoError
io_error k t = record { kind = k; is_esrch = Bool.false; text = t }

-- The file-system calls of one save of the state file, in their order.
pub data StorageStep : Type 0 where
  parent create_dir set_permissions serialize open_temporary write_all sync_all rename : StorageStep
  sync_directory remove_temporary : StorageStep

pub data ExitReason : Type 0 where
  exited signaled : ℕ → ExitReason
  disappeared identity_changed : ExitReason

pub data KeychainProbe : Type 0 where
  exists not_configured : KeychainProbe
  failed : ℕ → KeychainProbe

pub data KeychainRead : Type 0 where
  found : String → KeychainRead
  not_configured access_pending : KeychainRead
  failed : ℕ → KeychainRead

pub record HealthResult : Type 0 where
  pub healthy : Bool
  pub version : String

-- Of the errors of a health check only HTTP 401 is told apart.
pub data HealthError : Type 0 where
  unauthorized : HealthError
  other : String → HealthError

pub data VersionQueryResult : Type 0 where
  available : String → VersionQueryResult
  unavailable quarantined : VersionQueryResult

-- `Receiver::try_recv`.
pub data TryRecv {ℓ} (A : Type ℓ) : Type ℓ where
  received : A → TryRecv A
  empty disconnected : TryRecv A

pub record ProcessSnapshot : Type 0 where
  pub pid : ℕ
  pub process_group_id : ℕ
  pub effective_uid : ℕ
  pub start_seconds : ℕ
  pub start_microseconds : ℕ
  pub executable : Option String

-- What opening one of the probe's targets showed; `none` stands for a target that does not exist.
pub data FdaProbeOutcome : Type 0 where
  accessible denied unknown : FdaProbeOutcome

pub data Call : Type 0 where
  -- A call that changes nothing outside the agent.
  read : Call
  storage : StorageStep → Call
  -- The rename of a temporary file over the state file, with what it held.
  renamed : Contents RuntimeState → Call
  -- The directory entry of the state file was synced, with the state that it then held.
  synced : Option RuntimeState → Call
  -- `posix_spawn` of OpenCode; the process group that it got.
  spawned : ℕ → Call
  -- A signal to a process group: the group, then the number.
  signaled : ℕ → ℕ → Call
  -- `thread::sleep` for so many milliseconds.
  slept : ℕ → Call
  -- A worker thread was started.
  worker : Call
  -- The grant marker was written or removed.
  marker : Call

pub record Services : Type 0 where
  pub effective_uid : ℕ
  pub own_process_group : ℕ
  -- Milliseconds of the monotonic clock.
  pub instant : List Call → ℕ
  pub unix_seconds : List Call → ℕ
  pub storage : List Call → StorageStep → Option IoError
  pub canonicalize : List Call → String → Option String
  pub snapshot : List Call → ℕ → Result IoError ProcessSnapshot
  pub peek_exit : List Call → ℕ → Result IoError (Option ExitReason)
  pub group_members : List Call → ℕ → Result IoError (List ℕ)
  pub deliver : List Call → ℕ → ℕ → Result IoError (Unit {0})
  pub wait : List Call → ℕ → Result IoError ExitReason
  pub endpoint : List Call → ValidatedConfig → Result IoError (Unit {0})
  pub launch : List Call → ValidatedConfig → Result IoError ℕ
  pub config : List Call → Result String ValidatedConfig
  pub event_id : List Call → Option String
  pub probe_item : List Call → String → KeychainProbe
  pub team : List Call → Option String
  pub grant_covers : List Call → String → Bool
  pub grant_team : List Call → String → Option String
  pub credential_answer : List Call → TryRecv KeychainRead
  pub health_check : List Call → ValidatedConfig → Result HealthError HealthResult
  pub health_answer : List Call → TryRecv (Result HealthError HealthResult)
  pub version_answer : List Call → TryRecv VersionQueryResult
  pub worker_starts : List Call → Bool
  pub home_is_set : Bool
  pub product_major_version : Option ℕ
  pub fda_targets : List Call → List (Option FdaProbeOutcome)
  pub config_is_valid : List Call → Bool

pub record World : Type 0 where
  pub trace : List Call
  pub file : Option RuntimeState
  pub services : Services
  pub open services use *

abbrev pub push : World → Call → World
push w c = record w { trace = c ∷ w.trace }

-- One question to a service.
abbrev pub ask {ℓ} : {A : Type ℓ} → World → (List Call → A) → A × World
ask w f = (f w.trace, push w Call.read)

-- `Instant::now()`
abbrev pub now : World → ℕ × World
now w = ask w w.instant
