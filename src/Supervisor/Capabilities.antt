-- ===== src/Supervisor/Capabilities.antt =====
-- What the supervisor offers (rust/src/supervisor/mod.rs): the actions of a status snapshot, and the
-- event loop's next deadline.
use open_code_server.Base.{
  ℕ, Bool, not, ◌&&◌, ◌||◌, ◌+◌, Option, none, some, ltb, leb, if◌then◌else◌, is_none, is_some,
  is_some_and, map_option, unwrap_or,
}
use open_code_server.Protocol.{ActionCapabilities, is_stop_timed_out, is_stop_phase, wants_running}
use open_code_server.Process.Managed.{signal_authorized}
use open_code_server.Credential.{is_access_pending, refresh_in_flight}
use open_code_server.VersionQuery
use open_code_server.Supervisor.State.{Supervisor, has_process, launch_is_pending}
use open_code_server.Supervisor.Configuration.{current_health_task}
use open_code_server.Supervisor.Health.{health_due}
use open_code_server.Supervisor.Tick.{config_recheck_interval, stable_run_interval}
use open_code_server.Supervisor.Unverified.{unverified_check_interval}

unfoldable pub lifecycle_persistence_ready : Supervisor → Bool
lifecycle_persistence_ready s =
    s.runtime_state_loaded
    && s.runtime_state_reliable
    && not s.runtime_state_retry_pending
    && is_none s.runtime_state_error
    && not (launch_is_pending s)
    && not s.launch_pending_clear_requested

unfoldable pub action_capabilities : Supervisor → ActionCapabilities
unfolding lifecycle_persistence_ready
action_capabilities s =
    let ready = lifecycle_persistence_ready s in
    let process_signal_authorized = is_some_and s.process signal_authorized in
    let no_process_to_start = is_none s.process && not s.unverified_process_record in
    let credential_available = not (is_access_pending s.credentials.credential_state) in
    record {
      start = ready && no_process_to_start && credential_available;
      stop =
          ready
          && (process_signal_authorized
              || (no_process_to_start && wants_running s.runtime.desired_state));
      restart = ready && credential_available && (process_signal_authorized || no_process_to_start);
      continue_stop = is_stop_timed_out s.server_state;
      force_stop = is_stop_timed_out s.server_state && process_signal_authorized;
    }

-- Only instants strictly in the future are candidates.
abbrev pub future_deadline : ℕ → ℕ → Option ℕ
future_deadline instant at = if ltb at instant then some instant else none

abbrev min_of : Option ℕ → ℕ → Option ℕ
min_of none b = some b
min_of (some a) b = if leb a b then some a else some b

abbrev merge_deadline : Option ℕ → Option ℕ → Option ℕ
merge_deadline earliest none = earliest
merge_deadline earliest (some b) = min_of earliest b

unfoldable pub consider : ℕ → Option ℕ → ℕ → Option ℕ
consider at earliest instant = merge_deadline earliest (future_deadline instant at)

unfoldable pub consider_optional : ℕ → Option ℕ → Option ℕ → Option ℕ
consider_optional at earliest none = earliest
consider_optional at earliest (some instant) = consider at earliest instant

abbrev credential_deadline : Supervisor → ℕ → Option ℕ
credential_deadline s at = if refresh_in_flight s.credentials then some (at + 200) else none

abbrev version_deadline : Supervisor → ℕ → Option ℕ
version_deadline s at =
    if is_some s.version_queries.version_query
    then some (at + 200)
    else if VersionQuery.due s.version_queries at
        (map_option (λ c. c.configured_executable) s.latest_config) (is_some s.installed_version)
    then some at
    else none

abbrev health_deadline : Supervisor → ℕ → Option ℕ
health_deadline s at =
    if is_some s.health_checks.in_flight
    then some (if s.health_checks.overdue_logged then at + 5000 else at + 200)
    else if is_some (current_health_task s).0 && not (is_stop_phase s.server_state)
    then some (health_due s at)
    else none

abbrev when_managed : Supervisor → Option ℕ → Option ℕ
when_managed s deadline = if has_process s then deadline else none

abbrev unverified_deadline : Supervisor → ℕ → Option ℕ
unverified_deadline s at =
    if s.unverified_process_record && is_none s.process
    then some (unwrap_or s.unverified_check_at (at + unverified_check_interval))
    else none

unfoldable pub next_deadline : Supervisor → ℕ → Option ℕ
next_deadline s at =
    let add = consider_optional at in
    let d1 = add none (some (s.last_config_check + config_recheck_interval)) in
    let d2 = add d1 (credential_deadline s at) in
    let d3 = add d2 (version_deadline s at) in
    let d4 = add d3 (health_deadline s at) in
    let d5 = add d4 (when_managed s s.stop_deadline) in
    let d6 =
      add d5 (
        when_managed s (map_option (λ started. started + stable_run_interval) s.process_started)) in
    let d7 = add d6 s.next_restart in
    let d8 = add d7 s.next_port_retry in
    let d9 = add d8 s.runtime_state_retry_at in add d9 (unverified_deadline s at)
