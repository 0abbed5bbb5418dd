-- ===== src/Supervisor/Tick.antt =====
-- One turn of the event loop, and the dispatch of a command (rust/src/supervisor/mod.rs, `tick` and
-- `handle`), with the polls of the version query and the credential worker
-- (rust/src/supervisor/version.rs, credential.rs).
use open_code_server.Base.{
  ℕ, String, Bool, true, false, not, ◌&&◌, ◌-◌, Option, none, some, ok, err, leb, if◌then◌else◌,
  is_none, is_some, is_some_and, map_option, map_or, unwrap_or, due,
}
use open_code_server.Protocol.{Command, ServerState, is_stopping, is_stop_phase, wants_running}
use open_code_server.World.{ErrorKind, ask, now}
use open_code_server.Process.Managed.{ManagedProcess, record_of, with_record}
use open_code_server.Credential
use open_code_server.VersionQuery.{VersionQueryOutcome}
use open_code_server.VersionQuery
use open_code_server.Fda.{probe_full_disk_access}
use open_code_server.Supervisor.State.{
  Supervisor, Message, StartTrigger, command_error, has_process,
}
use open_code_server.Supervisor.Durability.{CommandResult, persist_runtime}
use open_code_server.Supervisor.Configuration.{refresh_config, recheck_stale_process}
use open_code_server.Supervisor.Start.{start_now}
use open_code_server.Supervisor.Lifecycle.{
  request_start, request_stop, request_restart, continue_stop, force_stop, forget_schedule,
}
use open_code_server.Supervisor.Retry.{retry_runtime_state_if_due}
use open_code_server.Supervisor.Unverified.{set_record, failed_unless, check_unverified_process}
use open_code_server.Supervisor.Exit.{poll_process}
use open_code_server.Supervisor.Health.{health_due, poll_health_check, dispatch_health_check}

abbrev pub config_recheck_interval : ℕ
config_recheck_interval = 60000

abbrev pub stable_run_interval : ℕ
stable_run_interval = 300000

-- The version goes into the record of a process that has none.
unfoldable pub record_installed : Option ManagedProcess → Supervisor → String → Supervisor
record_installed none s version = s
record_installed (some p) s version =
    if is_some (record_of p).running_version
    then s
    else let r = record (record_of p) { running_version = some version } in
      failed_unless
        (persist_runtime (record (set_record s (some r)) { process = some (with_record p r) }))

abbrev or_version : Option String → String → Option String
or_version none version = some version
or_version (some v) version = some v

unfoldable pub apply_installed_version : Supervisor → String → Supervisor
unfolding record_installed
apply_installed_version s version =
    record_installed s.process
      (record s {
        installed_version = some version;
        running_version = or_version s.running_version version;
      })
      version

unfoldable pub apply_version_outcome : Option VersionQueryOutcome → Supervisor → Supervisor
unfolding apply_installed_version
apply_version_outcome none s = s
apply_version_outcome (some (VersionQueryOutcome.available version)) s =
    apply_installed_version s version
apply_version_outcome (some VersionQueryOutcome.unavailable) s = s
apply_version_outcome (some VersionQueryOutcome.quarantined) s = record s {
  installed_version = none;
}

unfoldable pub poll_version_query : Supervisor → ℕ → Supervisor
unfolding apply_version_outcome
poll_version_query s at =
    let (outcome, queries, w) =
      VersionQuery.poll s.world s.version_queries at
        (map_option (λ c. c.configured_executable) s.latest_config) s.options.version_query_timeout
        (is_some s.installed_version) in
    apply_version_outcome outcome (record s { version_queries = queries; world = w })

abbrev pub account_of : Supervisor → String
account_of s = map_or s.latest_config "opencode" (λ c. c.effective_username)

unfoldable pub apply_password : Bool → Supervisor → Supervisor
apply_password false s = s
apply_password true s = recheck_stale_process (
    if is_none s.process && not s.unverified_process_record && wants_running s.runtime.desired_state
    then start_now (record (forget_schedule s) { restart_attempt_index = 0 }) StartTrigger.cold
    else s)

unfoldable pub poll_credential_refresh : Supervisor → ℕ → Supervisor
unfolding apply_password
poll_credential_refresh s at =
    let (applied, credentials, latest, w) =
      Credential.poll_credential_refresh s.world s.credentials at s.latest_config in
    apply_password applied
      (record s { credentials = credentials; latest_config = latest; world = w })

unfoldable pub check_unverified : Supervisor → ℕ → Supervisor
check_unverified s at =
    if s.unverified_process_record && is_none s.process && due s.unverified_check_at at
    then check_unverified_process s at
    else s

unfoldable pub expire_stop : Supervisor → ℕ → Supervisor
expire_stop s at =
    if is_stopping s.server_state && due s.stop_deadline at
    then record s {
      server_state = ServerState.stop_timed_out;
      stop_deadline = none;
      last_error = some Message.stop_timed_out;
    }
    else s

unfoldable pub run_recovery : Supervisor → ℕ → Supervisor
run_recovery s at =
    if due s.next_restart at && is_none s.process
    then start_now (record s { next_restart = none }) StartTrigger.recovery
    else s

unfoldable pub run_port_retry : Supervisor → ℕ → Supervisor
run_port_retry s at =
    if due s.next_port_retry at && is_none s.process
    then start_now (record s { next_port_retry = none; pending_start_trigger = none })
        (unwrap_or s.pending_start_trigger StartTrigger.after_stop)
    else s

unfoldable pub recheck_config : Supervisor → ℕ → Supervisor
recheck_config s at =
    if leb config_recheck_interval (at - s.last_config_check)
    then record (refresh_config s) { last_config_check = at }
    else s

unfoldable pub dispatch_health : Supervisor → ℕ → Supervisor
dispatch_health s at =
    if has_process s && not (is_stop_phase s.server_state) && leb (health_due s at) at
    then dispatch_health_check s at
    else s

unfoldable pub settle_stable_run : Supervisor → ℕ → Supervisor
settle_stable_run s at =
    if has_process s
      && is_some_and s.process_started (λ started. leb stable_run_interval (at - started))
    then record s { restart_attempt_index = 0 }
    else s

-- The turn at the instant `at`, which was read first.
unfoldable pub tick_at : Supervisor → ℕ → Supervisor
unfolding check_unverified expire_stop run_recovery run_port_retry recheck_config dispatch_health
    settle_stable_run
tick_at s at =
    let s1 = retry_runtime_state_if_due s at in
    let s2 = poll_process s1 in
    let s3 = check_unverified s2 at in
    let s4 = expire_stop s3 at in
    let s5 = run_recovery s4 at in
    let s6 = run_port_retry s5 at in
    let s7 = recheck_config s6 at in
    let s8 = poll_health_check s7 at in
    let s9 = dispatch_health s8 at in
    let s10 = poll_version_query s9 at in
    let s11 = poll_credential_refresh s10 at in settle_stable_run s11 at

unfoldable pub tick : Supervisor → Supervisor
unfolding tick_at
tick s = let (at, w) = now s.world in tick_at (record s { world = w }) at

abbrev done : Supervisor → CommandResult
done s = (ok tt, s)

unfoldable pub refresh_fda : Supervisor → Supervisor
refresh_fda s =
    let (state, w) = probe_full_disk_access s.world in record s { fda_state = state; world = w }

unfoldable pub request_credential_refresh : Supervisor → Supervisor
request_credential_refresh s =
    let (credentials, w) =
      Credential.request_credential_refresh s.world s.credentials (account_of s) in
    record s { credentials = credentials; world = w }

unfoldable pub mark_credential_changed : Supervisor → Supervisor
mark_credential_changed s =
    let (credentials, w) =
      Credential.mark_credential_changed s.world s.credentials (account_of s) in
    record s { credentials = credentials; world = w }

unfoldable pub mark_credential_removed : Supervisor → Supervisor
mark_credential_removed s =
    let (credentials, latest, w) =
      Credential.mark_credential_removed s.world s.credentials (account_of s) s.latest_config in
    record s { credentials = credentials; latest_config = latest; world = w }

-- The exit of the child is looked at outside a turn; the time that is read is not used.
unfoldable pub poll_process_now : Supervisor → Supervisor
poll_process_now s = let (at, w) = now s.world in poll_process (record s { world = w })

unfoldable pub refresh_config_now : Supervisor → Supervisor
refresh_config_now s =
    let s' = refresh_config s in
    let (at, w) = now s'.world in record s' { last_config_check = at; world = w }

-- What a response says beside the status: success, or the error's text.
pub record Response : Type 0 where
  pub succeeded : Bool
  pub error : Option Message

abbrev pub respond : CommandResult → Response × Supervisor
respond (ok _, s) = (record { succeeded = true; error = none }, s)
respond (err e, s) = (record { succeeded = false; error = some e.message }, s)

unfoldable pub handle : Supervisor → Command → Response × Supervisor
handle s Command.status = respond (done s)
handle s Command.start = respond (request_start s)
handle s Command.stop = respond (request_stop s)
handle s Command.continue_stop = respond (continue_stop s)
handle s Command.force_stop = respond (force_stop s)
handle s Command.restart = respond (request_restart s)
handle s Command.refresh_fda = respond (done (refresh_fda s))
handle s Command.refresh_credentials = respond (done (request_credential_refresh s))
handle s Command.credential_changed = respond (done (mark_credential_changed s))
handle s Command.credential_removed = respond (done (mark_credential_removed s))
handle s Command.subscribe =
    respond (err (command_error ErrorKind.invalid_input Message.subscriptions_elsewhere), s)
handle s Command.validate_config =
    let (valid, w) = ask s.world s.world.config_is_valid in
    (record { succeeded = valid; error = none }, record s { world = w })
