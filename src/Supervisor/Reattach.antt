-- ===== src/Supervisor/Reattach.antt =====
-- Reattachment at startup (rust/src/supervisor/reattach.rs, `try_reattach`).
use open_code_server.Base.{String, Bool, false, some, Result, ok, err, if◌then◌else◌, is_some_and}
use open_code_server.Protocol.{ServerState, HealthState}
use open_code_server.Config.{ValidatedConfig}
use open_code_server.RuntimeState.{ProcessRecord}
use open_code_server.World.{IoError, HealthResult, HealthError, ask, now}
use open_code_server.Process.Identity.{RecordIdentity, inspect_record_identity}
use open_code_server.Process.Group.{observe_attached}
use open_code_server.Process.Managed.{attach}
use open_code_server.Supervisor.State.{Supervisor}
use open_code_server.Supervisor.Durability.{persist_runtime}
use open_code_server.Supervisor.Policy.{
  HealthVerdict, InitialAction, FinalAction, Observed, decide_initial, decide_after_health,
}
use open_code_server.Supervisor.Unverified.{
  set_record, failed_unless, mark_unverified_process, attach_unconfirmed_process,
  attach_stale_config_process, discard_stale_process_record,
}

-- `map_err(|_| ())`
abbrev pub observed : Result IoError RecordIdentity → Observed
observed (ok identity) = ok identity
observed (err e) = err tt

abbrev pub verdict : Result HealthError HealthResult → HealthVerdict
verdict (ok result) =
    if result.healthy then HealthVerdict.healthy result.version else HealthVerdict.unhealthy
verdict (err e) = HealthVerdict.failed

unfoldable pub reattach_healthy : Supervisor → ProcessRecord → String → ValidatedConfig → Supervisor
reattach_healthy s r version config =
    let r' = record r {
      running_version = some version;
      config_fingerprint = s.config_fingerprint_key.fingerprint config;
    } in
    let (at, w) = now s.world in
    failed_unless (
      persist_runtime (record (set_record s (some r')) {
        running_version = some version;
        process = some (attach r');
        active_config = some config;
        server_state = ServerState.healthy;
        health_state = HealthState.healthy;
        process_started = some at;
        world = w;
      }))

unfoldable pub apply_final : FinalAction → Supervisor → ProcessRecord → Supervisor
unfolding reattach_healthy
apply_final (FinalAction.reattach_healthy version config) s r = reattach_healthy s r version config
apply_final (FinalAction.discard_stale_record reason) s r = (discard_stale_process_record s).1
apply_final (FinalAction.mark_unverified reason) s r = mark_unverified_process s r
apply_final (FinalAction.attach_unconfirmed reason) s r = attach_unconfirmed_process s r

-- The health check is made here at once, before the event loop runs.
unfoldable pub apply_initial : InitialAction → Supervisor → ProcessRecord → Supervisor
unfolding apply_final
apply_initial (InitialAction.discard_stale_record reason) s r = (discard_stale_process_record s).1
apply_initial (InitialAction.mark_unverified reason) s r = mark_unverified_process s r
apply_initial (InitialAction.attach_unconfirmed reason) s r = attach_unconfirmed_process s r
apply_initial (InitialAction.attach_stale_config reason) s r =
    attach_stale_config_process s r reason
apply_initial (InitialAction.needs_health_check config) s r =
    let (health, w1) = ask s.world (λ t. s.world.health_check t config) in
    let (identity, w2) = inspect_record_identity w1 r in
    apply_final (decide_after_health (observed identity) (verdict health) config)
      (record s { world = w2 }) r

abbrev matches_latest : Supervisor → ProcessRecord → Bool
matches_latest s r =
    is_some_and s.latest_config (s.config_fingerprint_key.verifies r.config_fingerprint)

unfoldable pub decide_and_apply :
    Result IoError RecordIdentity → Supervisor → ProcessRecord → Supervisor
unfolding apply_initial
decide_and_apply identity s r =
    apply_initial
      (decide_initial r.identity_unconfirmed (observed identity) s.latest_config
        (matches_latest s r) s.credentials.credential_state)
      s r

-- A missing leader is not stale while its group has members or cannot be observed.
unfoldable pub after_group : Result IoError Bool → Supervisor → ProcessRecord → Supervisor
unfolding decide_and_apply
after_group (ok false) s r = decide_and_apply (ok RecordIdentity.missing) s r
after_group _ s r = mark_unverified_process s r

unfoldable pub reattach_identity :
    Result IoError RecordIdentity → Supervisor → ProcessRecord → Supervisor
unfolding after_group
reattach_identity (ok RecordIdentity.missing) s r =
    let (members, w) = observe_attached s.world r in after_group members (record s { world = w }) r
reattach_identity identity s r = decide_and_apply identity s r

unfoldable pub try_reattach : Supervisor → ProcessRecord → Supervisor
unfolding reattach_identity
try_reattach s r =
    let (identity, w) = inspect_record_identity s.world r in
    reattach_identity identity (record s { world = w }) r
