-- ===== src/Supervisor/Policy.antt =====
-- The pure reattachment policy (rust/src/supervisor/reattach_policy.rs).
use open_code_server.Base.{String, Bool, not, Option, none, some, Result, ok, err, if◌then◌else◌}
use open_code_server.Config.{ValidatedConfig}
use open_code_server.Process.Identity.{RecordIdentity}
use open_code_server.Credential.{CredentialState, is_access_pending}

pub data HealthVerdict : Type 0 where
  healthy : String → HealthVerdict
  unhealthy failed : HealthVerdict

pub data InitialAction : Type 0 where
  discard_stale_record mark_unverified attach_unconfirmed attach_stale_config :
      String → InitialAction
  needs_health_check : ValidatedConfig → InitialAction

pub data FinalAction : Type 0 where
  reattach_healthy : String → ValidatedConfig → FinalAction
  discard_stale_record mark_unverified attach_unconfirmed : String → FinalAction

-- `Result<RecordIdentity, ()>`
abbrev pub Observed : Type 0
Observed = Result (Unit {0}) RecordIdentity

-- Gate 0: a record that was never confirmed.
unfoldable pub decide_unconfirmed : Observed → InitialAction
decide_unconfirmed (ok RecordIdentity.missing) =
    InitialAction.discard_stale_record "the unconfirmed recorded PID is no longer running"
decide_unconfirmed _ =
    InitialAction.mark_unverified "the recorded process identity was never confirmed after spawn"

-- Gates 2 and 3: the configuration.
unfoldable pub decide_config : Option ValidatedConfig → Bool → CredentialState → InitialAction
decide_config none config_matches credential_state =
    InitialAction.mark_unverified "configuration is unavailable"
decide_config (some config) config_matches credential_state =
    if not config_matches
    then InitialAction.attach_stale_config (
        if is_access_pending credential_state
        then "grant Keychain access, then restart"
        else "restart to apply the changes")
    else InitialAction.needs_health_check config

-- Gate 1: the first identity inspection.
unfoldable pub decide_confirmed :
    Observed → Option ValidatedConfig → Bool → CredentialState → InitialAction
unfolding decide_config
decide_confirmed (ok RecordIdentity.missing) config config_matches credential_state =
    InitialAction.discard_stale_record "recorded PID is no longer running"
decide_confirmed (ok RecordIdentity.mismatched) config config_matches credential_state =
    InitialAction.discard_stale_record "recorded PID no longer has the recorded process identity"
decide_confirmed (ok RecordIdentity.current) config config_matches credential_state =
    decide_config config config_matches credential_state
decide_confirmed (ok RecordIdentity.executable_vanished) config config_matches credential_state =
    decide_config config config_matches credential_state
decide_confirmed (ok RecordIdentity.executable_mismatch) config config_matches credential_state =
    InitialAction.attach_unconfirmed "executable identity could not be confirmed"
decide_confirmed (ok RecordIdentity.group_escaped) config config_matches credential_state =
    InitialAction.mark_unverified
      "the process kept its identity but abandoned its dedicated process group"
decide_confirmed (err _) config config_matches credential_state =
    InitialAction.mark_unverified "process identity could not be inspected"

unfoldable pub decide_initial :
    Bool → Observed → Option ValidatedConfig → Bool → CredentialState → InitialAction
unfolding decide_unconfirmed decide_confirmed
decide_initial identity_unconfirmed identity config config_matches credential_state =
    if identity_unconfirmed
    then decide_unconfirmed identity
    else decide_confirmed identity config config_matches credential_state

-- Gate 4 after a healthy answer: the second identity inspection.
unfoldable pub decide_healthy : Observed → String → ValidatedConfig → FinalAction
decide_healthy (ok RecordIdentity.current) version config =
    FinalAction.reattach_healthy version config
decide_healthy (ok RecordIdentity.executable_vanished) version config =
    FinalAction.reattach_healthy version config
decide_healthy (ok RecordIdentity.executable_mismatch) version config =
    FinalAction.attach_unconfirmed "executable identity changed during reattachment"
decide_healthy (ok RecordIdentity.group_escaped) version config =
    FinalAction.mark_unverified
      "the process abandoned its dedicated process group during reattachment"
decide_healthy (ok RecordIdentity.missing) version config =
    FinalAction.discard_stale_record "recorded process exited during reattachment"
decide_healthy (ok RecordIdentity.mismatched) version config =
    FinalAction.discard_stale_record "recorded process identity changed during reattachment"
decide_healthy (err _) version config =
    FinalAction.mark_unverified "process identity could not be rechecked after health verification"

unfoldable pub decide_after_health : Observed → HealthVerdict → ValidatedConfig → FinalAction
unfolding decide_healthy
decide_after_health identity (HealthVerdict.healthy version) config =
    decide_healthy identity version config
decide_after_health identity HealthVerdict.unhealthy config =
    FinalAction.mark_unverified "health endpoint did not report healthy"
decide_after_health identity HealthVerdict.failed config =
    FinalAction.mark_unverified "health endpoint could not be verified"
