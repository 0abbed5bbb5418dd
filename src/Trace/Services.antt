-- ===== src/Trace/Services.antt =====
-- The price of the credential machine, the health worker and the version query.
use open_code_server.Base.{ℕ, String, Bool, ◌≡◌, refl, Option, arith}
use open_code_server.Config.{ValidatedConfig}
use open_code_server.World.{World}
use open_code_server.Credential.{
  CredentialController, request_credential_refresh_for, dispatch_automatic_credential_read,
  merge_by_grant, merge_credentials, mark_credential_changed, mark_credential_removed,
  request_credential_refresh, poll_credential_refresh,
}
use open_code_server.HealthWorker.{HealthCheckCoordinator, HealthCheckKey}
use open_code_server.HealthWorker
use open_code_server.VersionQuery.{VersionQueryCoordinator}
use open_code_server.VersionQuery
use open_code_server.Trace.Score.{Tariff, total, score}

module _ (c : Tariff) where
  request_for-score :
      (w : World) (k : CredentialController) (account : String)
      → score c (request_credential_refresh_for w k account).1 ≡ score c w
  unfolding request_credential_refresh_for total
  request_for-score w k account = ground arith

  dispatch_automatic-score :
      (w : World) (k : CredentialController) (account : String)
      → score c (dispatch_automatic_credential_read w k account).2 ≡ score c w
  unfolding dispatch_automatic_credential_read total
  dispatch_automatic-score w k account = ground arith

  merge_by_grant-score :
      (w : World) (k : CredentialController) (config : ValidatedConfig) (account : String)
      → score c (merge_by_grant w k config account).2 ≡ score c w
  unfolding merge_by_grant total
  merge_by_grant-score w k config account = ground arith

  pub merge_credentials-score :
      (w : World) (k : CredentialController) (config : ValidatedConfig)
      (previous : Option ValidatedConfig)
      → score c (merge_credentials w k config previous).2 ≡ score c w
  unfolding merge_credentials total
  merge_credentials-score w k config previous = ground arith

  pub mark_credential_changed-score :
      (w : World) (k : CredentialController) (account : String)
      → score c (mark_credential_changed w k account).1 ≡ score c w
  unfolding mark_credential_changed total
  mark_credential_changed-score w k account = ground arith

  pub mark_credential_removed-score :
      (w : World) (k : CredentialController) (account : String) (latest : Option ValidatedConfig)
      → score c (mark_credential_removed w k account latest).2 ≡ score c w
  unfolding mark_credential_removed total
  mark_credential_removed-score w k account latest = refl

  pub request_credential_refresh-score :
      (w : World) (k : CredentialController) (account : String)
      → score c (request_credential_refresh w k account).1 ≡ score c w
  unfolding request_credential_refresh total
  request_credential_refresh-score w k account = ground arith

  pub poll_credential_refresh-score :
      (w : World) (k : CredentialController) (at : ℕ) (latest : Option ValidatedConfig)
      → score c (poll_credential_refresh w k at latest).3 ≡ score c w
  unfolding poll_credential_refresh total
  poll_credential_refresh-score w k at latest = ground arith

  pub health_dispatch-score :
      (w : World) (h : HealthCheckCoordinator) (at : ℕ) (key : HealthCheckKey)
      → score c (HealthWorker.dispatch w h at key).2 ≡ score c w
  unfolding HealthWorker.dispatch total
  health_dispatch-score w h at key = ground arith

  pub health_poll-score :
      (w : World) (h : HealthCheckCoordinator) (at : ℕ) (key : Option HealthCheckKey)
      → score c (HealthWorker.poll w h at key).2 ≡ score c w
  unfolding HealthWorker.poll total
  health_poll-score w h at key = ground arith

  pub version_poll-score :
      (w : World) (v : VersionQueryCoordinator) (at : ℕ) (executable : Option String) (timeout : ℕ)
      (has_version : Bool)
      → score c (VersionQuery.poll w v at executable timeout has_version).2 ≡ score c w
  unfolding VersionQuery.poll total
  version_poll-score w v at executable timeout has_version = ground arith
