-- ===== src/Trace/Tick.antt =====
-- The price of a turn of the event loop and of every command but a forced stop
-- (rust/src/supervisor/mod.rs).
use open_code_server.Base.{ℕ, String, Bool, true, false, ◌≡◌, ◌≢◌, refl, Option, none, some, arith}
use open_code_server.Protocol.{Command}
use open_code_server.Process.Managed.{ManagedProcess}
use open_code_server.VersionQuery.{VersionQueryOutcome}
use open_code_server.Supervisor.State.{Supervisor}
use open_code_server.Supervisor.Tick.{
  record_installed, apply_installed_version, apply_version_outcome, poll_version_query,
  apply_password, check_unverified, expire_stop, run_recovery, run_port_retry, recheck_config,
  dispatch_health, settle_stable_run, poll_credential_refresh, tick_at, tick, refresh_fda,
  request_credential_refresh, mark_credential_changed, mark_credential_removed, handle, account_of,
  poll_process_now, refresh_config_now,
}
use open_code_server.Fda.{probe_full_disk_access}
use open_code_server.Trace.Score.{Tariff, total, score, FreeTerm, FreeLaunch}
use open_code_server.Trace.Services.{
  poll_credential_refresh-score, version_poll-score, mark_credential_changed-score,
  request_credential_refresh-score, mark_credential_removed-score,
}
use open_code_server.Trace.State.{
  persist_runtime-score, recheck_stale_process-score, refresh_config-score,
}
use open_code_server.Trace.Start.{start_now-score}
use open_code_server.Trace.Lifecycle.{
  request_start-score, request_stop-score, request_restart-score, continue_stop-score,
  retry_runtime_state-score,
}
use open_code_server.Trace.Exit.{poll_process-score, check_unverified-score}
use open_code_server.Trace.Health.{dispatch_health_check-score, poll_health_check-score}

module _ (c : Tariff) where
  record_installed-score :
      (p : Option ManagedProcess) (s : Supervisor) (version : String)
      → score c (record_installed p s version).world ≡ score c s.world
  unfolding record_installed
  record_installed-score none s version = refl
  record_installed-score (some p) s version = grind (arith, persist_runtime-score)

  apply_outcome-score :
      (outcome : Option VersionQueryOutcome) (s : Supervisor)
      → score c (apply_version_outcome outcome s).world ≡ score c s.world
  unfolding apply_version_outcome apply_installed_version
  apply_outcome-score none s = refl
  apply_outcome-score (some (VersionQueryOutcome.available version)) s =
      record_installed-score s.process _ version
  apply_outcome-score (some VersionQueryOutcome.unavailable) s = refl
  apply_outcome-score (some VersionQueryOutcome.quarantined) s = refl

  poll_version_query-score :
      (s : Supervisor) (at : ℕ) → score c (poll_version_query s at).world ≡ score c s.world
  unfolding poll_version_query
  poll_version_query-score s at = grind (arith, apply_outcome-score, version_poll-score)

  expire_stop-score : (s : Supervisor) (at : ℕ) → score c (expire_stop s at).world ≡ score c s.world
  unfolding expire_stop
  expire_stop-score s at = ground arith

  recheck_config-score :
      (s : Supervisor) (at : ℕ) → score c (recheck_config s at).world ≡ score c s.world
  unfolding recheck_config
  recheck_config-score s at = grind (arith, refresh_config-score)

  dispatch_health-score :
      (s : Supervisor) (at : ℕ) → score c (dispatch_health s at).world ≡ score c s.world
  unfolding dispatch_health
  dispatch_health-score s at = grind (arith, dispatch_health_check-score)

  settle_stable_run-score :
      (s : Supervisor) (at : ℕ) → score c (settle_stable_run s at).world ≡ score c s.world
  unfolding settle_stable_run
  settle_stable_run-score s at = ground arith

  pub refresh_fda-score : (s : Supervisor) → score c (refresh_fda s).world ≡ score c s.world
  unfolding refresh_fda probe_full_disk_access total
  refresh_fda-score s = ground arith

  pub request_refresh-score :
      (s : Supervisor) → score c (request_credential_refresh s).world ≡ score c s.world
  unfolding request_credential_refresh
  request_refresh-score s = request_credential_refresh-score c s.world s.credentials (account_of s)

  pub changed-score : (s : Supervisor) → score c (mark_credential_changed s).world ≡ score c s.world
  unfolding mark_credential_changed
  changed-score s = mark_credential_changed-score c s.world s.credentials (account_of s)

  pub removed-score : (s : Supervisor) → score c (mark_credential_removed s).world ≡ score c s.world
  unfolding mark_credential_removed
  removed-score s =
      mark_credential_removed-score c s.world s.credentials (account_of s) s.latest_config

module _ (c : Tariff) (free : FreeTerm c) (launch : FreeLaunch c) where
  apply_password-score :
      (applied : Bool) (s : Supervisor) → score c (apply_password applied s).world ≡ score c s.world
  unfolding apply_password
  apply_password-score false s = refl
  apply_password-score true s = grind (arith, start_now-score, recheck_stale_process-score)

  poll_refresh-score :
      (s : Supervisor) (at : ℕ) → score c (poll_credential_refresh s at).world ≡ score c s.world
  unfolding poll_credential_refresh
  poll_refresh-score s at = grind (arith, apply_password-score, poll_credential_refresh-score)

  check_unverified_if_due-score :
      (s : Supervisor) (at : ℕ) → score c (check_unverified s at).world ≡ score c s.world
  unfolding check_unverified
  check_unverified_if_due-score s at = grind (arith, check_unverified-score)

  run_recovery-score :
      (s : Supervisor) (at : ℕ) → score c (run_recovery s at).world ≡ score c s.world
  unfolding run_recovery
  run_recovery-score s at = grind (arith, start_now-score)

  run_port_retry-score :
      (s : Supervisor) (at : ℕ) → score c (run_port_retry s at).world ≡ score c s.world
  unfolding run_port_retry
  run_port_retry-score s at = grind (arith, start_now-score)

  tick_at-score : (s : Supervisor) (at : ℕ) → score c (tick_at s at).world ≡ score c s.world
  unfolding tick_at
  tick_at-score s at = grind (
    arith, retry_runtime_state-score, poll_process-score, check_unverified_if_due-score,
    expire_stop-score, run_recovery-score, run_port_retry-score, recheck_config-score,
    poll_health_check-score, dispatch_health-score, poll_version_query-score, poll_refresh-score,
    settle_stable_run-score,
  )

  pub tick-score : (s : Supervisor) → score c (tick s).world ≡ score c s.world
  unfolding tick total
  tick-score s = grind (arith, tick_at-score)

  pub handle-score :
      (s : Supervisor) (command : Command)
      → command ≢ Command.force_stop
      → score c (handle s command).1.world ≡ score c s.world
  unfolding handle total
  handle-score s Command.status h = refl
  handle-score s Command.start h = grind (arith, request_start-score)
  handle-score s Command.stop h = grind (arith, request_stop-score)
  handle-score s Command.continue_stop h = grind (arith, continue_stop-score c)
  handle-score s Command.force_stop h = elim (h refl) [ ]
  handle-score s Command.restart h = grind (arith, request_restart-score)
  handle-score s Command.refresh_fda h = refresh_fda-score c s
  handle-score s Command.refresh_credentials h = request_refresh-score c s
  handle-score s Command.credential_changed h = changed-score c s
  handle-score s Command.credential_removed h = removed-score c s
  handle-score s Command.subscribe h = refl
  handle-score s Command.validate_config h = refl

  pub poll_now-score : (s : Supervisor) → score c (poll_process_now s).world ≡ score c s.world
  unfolding poll_process_now total
  poll_now-score s = grind (arith, poll_process-score)

  pub refresh_now-score : (s : Supervisor) → score c (refresh_config_now s).world ≡ score c s.world
  unfolding refresh_config_now total
  refresh_now-score s = grind (arith, refresh_config-score)
