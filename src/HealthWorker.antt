-- ===== src/HealthWorker.antt =====
-- The single-flight health worker (rust/src/supervisor/health_worker.rs).
use open_code_server.Base.{
  ℕ, String, Bool, true, false, ◌&&◌, ◌||◌, ◌+◌, Option, none, some, Result, str_eq, ◌==◌, ltb,
  if◌then◌else◌, is_some, is_some_and,
}
use open_code_server.Config.{ConfigFingerprint, same_fingerprint}
use open_code_server.RuntimeState.{ProcessRecord}
use open_code_server.World.{World, Call, HealthResult, HealthError, TryRecv, ask, push}

pub record HealthCheckKey : Type 0 where
  pub generation : ℕ
  pub pid : ℕ
  pub process_group_id : ℕ
  pub start_seconds : ℕ
  pub start_microseconds : ℕ
  pub executable : String
  pub config_fingerprint : ConfigFingerprint

abbrev pub from_record : ProcessRecord → ConfigFingerprint → HealthCheckKey
from_record r fingerprint = record {
  generation = 0;
  pid = r.pid;
  process_group_id = r.process_group_id;
  start_seconds = r.start_seconds;
  start_microseconds = r.start_microseconds;
  executable = r.executable;
  config_fingerprint = fingerprint;
}

abbrev pub with_generation : HealthCheckKey → ℕ → HealthCheckKey
with_generation k g = record k { generation = g }

-- The derived equality of keys.
unfoldable pub same_key : HealthCheckKey → HealthCheckKey → Bool
same_key a b =
    a.generation == b.generation
    && a.pid == b.pid
    && a.process_group_id == b.process_group_id
    && a.start_seconds == b.start_seconds
    && a.start_microseconds == b.start_microseconds
    && str_eq a.executable b.executable
    && same_fingerprint a.config_fingerprint b.config_fingerprint

unfoldable pub same_basis : Option HealthCheckKey → Option HealthCheckKey → Bool
unfolding same_key
same_basis none none = true
same_basis (some a) (some b) = same_key a b
same_basis _ _ = false

pub record HealthCheckInFlight : Type 0 where
  pub dispatched : ℕ
  pub key : HealthCheckKey

pub record HealthCheckCompletion : Type 0 where
  pub key : HealthCheckKey
  pub result : Result HealthError HealthResult

pub record HealthCheckCoordinator : Type 0 where
  pub in_flight : Option HealthCheckInFlight
  pub overdue_logged : Bool
  pub observation_bound : ℕ

unfoldable pub dispatch :
    World → HealthCheckCoordinator → ℕ → HealthCheckKey → Bool × HealthCheckCoordinator × World
dispatch w c at key =
    if is_some c.in_flight
    then (false, c, w)
    else if w.worker_starts w.trace
    then (
      true,
      record c { in_flight = some (record { dispatched = at; key = key }); overdue_logged = false },
      push w Call.worker,
    )
    else (false, c, push w Call.read)

abbrev pub Polled : Type 0
Polled = Option HealthCheckCompletion × HealthCheckCoordinator × World

unfoldable pub receive :
    TryRecv (Result HealthError HealthResult)
    → World
    → HealthCheckCoordinator
    → HealthCheckInFlight
    → ℕ
    → Option HealthCheckKey
    → Polled
receive (TryRecv.received result) w c flight at current = (
  if is_some_and current (λ k. same_key k flight.key)
      then some (record { key = flight.key; result = result })
      else none,
  record c { in_flight = none; overdue_logged = false },
  w,
)
receive TryRecv.disconnected w c flight at current =
    (none, record c { in_flight = none; overdue_logged = false }, w)
receive TryRecv.empty w c flight at current = (
  none,
  record c {
    overdue_logged = c.overdue_logged || ltb (flight.dispatched + c.observation_bound) at;
  },
  w,
)

unfoldable pub poll_flight :
    Option HealthCheckInFlight → World → HealthCheckCoordinator → ℕ → Option HealthCheckKey → Polled
unfolding receive
poll_flight none w c at current = (none, c, w)
poll_flight (some flight) w c at current =
    let (answer, w') = ask w w.health_answer in receive answer w' c flight at current

unfoldable pub poll : World → HealthCheckCoordinator → ℕ → Option HealthCheckKey → Polled
unfolding poll_flight
poll w c at current = poll_flight c.in_flight w c at current
