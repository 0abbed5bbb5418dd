-- ===== src/VersionQuery.antt =====
-- The installed-version query (rust/src/supervisor/version.rs, `VersionQueryCoordinator`).
use open_code_server.Base.{
  ℕ, String, Bool, false, not, ◌||◌, ◌+◌, ◌-◌, ◌*◌, Option, none, some, str_eq, ltb, leb,
  if◌then◌else◌, is_some_and, is_none_or, same_text,
}
use open_code_server.World.{World, Call, VersionQueryResult, TryRecv, ask, push, now}

abbrev pub version_interval : ℕ
version_interval = 60000

abbrev pub version_retry_interval : ℕ
version_retry_interval = 5000

pub record VersionQueryInFlight : Type 0 where
  pub dispatched : ℕ
  pub executable : String

pub record VersionQueryCoordinator : Type 0 where
  pub version_query : Option VersionQueryInFlight
  pub version_query_overdue_logged : Bool
  pub last_version_attempt : Option ℕ
  pub version_query_quarantined_executable : Option String

abbrev pub new : VersionQueryCoordinator
new = record {
  version_query = none;
  version_query_overdue_logged = false;
  last_version_attempt = none;
  version_query_quarantined_executable = none;
}

pub data VersionQueryOutcome : Type 0 where
  available : String → VersionQueryOutcome
  unavailable quarantined : VersionQueryOutcome

abbrev interval : Bool → ℕ
interval has_version = if has_version then version_interval else version_retry_interval

unfoldable pub due_for : VersionQueryCoordinator → ℕ → String → Bool → Bool
due_for c at executable has_version =
    if is_some_and c.version_query_quarantined_executable (λ q. str_eq q executable)
    then false
    else is_none_or c.last_version_attempt (λ last. leb (interval has_version) (at - last))

unfoldable pub due : VersionQueryCoordinator → ℕ → Option String → Bool → Bool
unfolding due_for
due c at none has_version = false
due c at (some executable) has_version = due_for c at executable has_version

abbrev pub Polled : Type 0
Polled = Option VersionQueryOutcome × VersionQueryCoordinator × World

-- No query is in flight: start one if it is due.
unfoldable pub start_query : Option String → World → VersionQueryCoordinator → ℕ → Bool → Polled
unfolding due_for
start_query none w c at has_version = (none, c, w)
start_query (some executable) w c at has_version =
    if not (due_for c at executable has_version)
    then (none, c, w)
    else if w.worker_starts w.trace
    then (
      none,
      record c { version_query = some (record { dispatched = at; executable = executable }) },
      push w Call.worker,
    )
    else (none, record c { last_version_attempt = some at }, push w Call.read)

abbrev released : VersionQueryCoordinator → VersionQueryCoordinator
released c = record c { version_query = none; version_query_overdue_logged = false }

unfoldable pub apply_result :
    VersionQueryResult → World → VersionQueryCoordinator → VersionQueryInFlight → ℕ → Polled
apply_result (VersionQueryResult.available version) w c flight at =
    let (later, w') = now w in
    (
      some (VersionQueryOutcome.available version),
      record c { version_query_quarantined_executable = none; last_version_attempt = some later },
      w',
    )
apply_result VersionQueryResult.unavailable w c flight at =
    let (later, w') = now w in
    (some VersionQueryOutcome.unavailable, record c { last_version_attempt = some later }, w')
apply_result VersionQueryResult.quarantined w c flight at = (
  some VersionQueryOutcome.quarantined,
  record c {
    last_version_attempt = some at;
    version_query_quarantined_executable = some flight.executable;
  },
  w,
)

unfoldable pub receive :
    TryRecv VersionQueryResult
    → World
    → VersionQueryCoordinator
    → VersionQueryInFlight
    → ℕ
    → Option String
    → ℕ
    → Polled
unfolding apply_result
receive (TryRecv.received outcome) w c flight at executable timeout =
    if not (same_text executable (some flight.executable))
    then (
      none,
      record c {
        version_query = none;
        version_query_overdue_logged = false;
        last_version_attempt = some at;
      },
      w,
    )
    else apply_result outcome w (released c) flight at
receive TryRecv.disconnected w c flight at executable timeout = (
  none,
  record c {
    version_query = none;
    version_query_overdue_logged = false;
    last_version_attempt = some at;
  },
  w,
)
receive TryRecv.empty w c flight at executable timeout = (
  none,
  record c {
    version_query_overdue_logged =
        c.version_query_overdue_logged || ltb (flight.dispatched + timeout * 2) at;
  },
  w,
)

unfoldable pub poll_flight :
    Option VersionQueryInFlight
    → World
    → VersionQueryCoordinator
    → ℕ
    → Option String
    → ℕ
    → Bool
    → Polled
unfolding receive start_query
poll_flight none w c at executable timeout has_version = start_query executable w c at has_version
poll_flight (some flight) w c at executable timeout has_version =
    let (answer, w') = ask w w.version_answer in receive answer w' c flight at executable timeout

unfoldable pub poll : World → VersionQueryCoordinator → ℕ → Option String → ℕ → Bool → Polled
unfolding poll_flight
poll w c at executable timeout has_version =
    poll_flight c.version_query w c at executable timeout has_version
