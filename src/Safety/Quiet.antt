-- ===== src/Safety/Quiet.antt =====
-- Signals and launches of reattachment and of health supervision (rust/src/supervisor/reattach.rs,
-- health.rs).
use open_code_server.Base.{ℕ, String, Bool, true, false, ◌≡◌, List, Result, ok, err, arith}
use open_code_server.Config.{ValidatedConfig}
use open_code_server.RuntimeState.{ProcessRecord}
use open_code_server.World.{Call, IoError}
use open_code_server.Process.Identity.{RecordIdentity}
use open_code_server.Supervisor.State.{Supervisor}
use open_code_server.Supervisor.Policy.{InitialAction, FinalAction}
use open_code_server.Supervisor.Reattach.{
  reattach_healthy, apply_final, apply_initial, decide_and_apply, after_group, reattach_identity,
  try_reattach,
}
use open_code_server.Supervisor.Health.{poll_health_check, dispatch_health_check}
use open_code_server.Trace.Score.{Tariff, total, score}
use open_code_server.Trace.Process.{inspect_record_identity-score, observe_attached-score}
use open_code_server.Trace.State.{
  persist_runtime-score, mark_unverified_process-score, attach_unconfirmed_process-score,
  attach_stale_config_process-score, discard_stale_process_record-score,
}
use open_code_server.Trace.Health.{dispatch_health_check-score, poll_health_check-score}

abbrev pub activity_tariff : Tariff
activity_tariff = record { on_signal = λ group number. 1; on_spawn = λ t. 1 }

-- The number of signals and launches in a trace.
abbrev pub activity : List Call → ℕ
activity t = total activity_tariff t

module _ (c : Tariff) where
  reattach_healthy-score :
      (s : Supervisor) (r : ProcessRecord) (version : String) (config : ValidatedConfig)
      → score c (reattach_healthy s r version config).world ≡ score c s.world
  unfolding reattach_healthy total
  reattach_healthy-score s r version config = grind (arith, persist_runtime-score)

  apply_final-score :
      (action : FinalAction) (s : Supervisor) (r : ProcessRecord)
      → score c (apply_final action s r).world ≡ score c s.world
  unfolding apply_final
  apply_final-score (FinalAction.reattach_healthy version config) s r =
      reattach_healthy-score s r version config
  apply_final-score (FinalAction.discard_stale_record reason) s r =
      discard_stale_process_record-score c s
  apply_final-score (FinalAction.mark_unverified reason) s r = mark_unverified_process-score c s r
  apply_final-score (FinalAction.attach_unconfirmed reason) s r =
      attach_unconfirmed_process-score c s r

  apply_initial-score :
      (action : InitialAction) (s : Supervisor) (r : ProcessRecord)
      → score c (apply_initial action s r).world ≡ score c s.world
  unfolding apply_initial total
  apply_initial-score (InitialAction.discard_stale_record reason) s r =
      discard_stale_process_record-score c s
  apply_initial-score (InitialAction.mark_unverified reason) s r =
      mark_unverified_process-score c s r
  apply_initial-score (InitialAction.attach_unconfirmed reason) s r =
      attach_unconfirmed_process-score c s r
  apply_initial-score (InitialAction.attach_stale_config reason) s r =
      attach_stale_config_process-score c s r reason
  apply_initial-score (InitialAction.needs_health_check config) s r =
      grind (arith, apply_final-score, inspect_record_identity-score)

  decide_and_apply-score :
      (identity : Result IoError RecordIdentity) (s : Supervisor) (r : ProcessRecord)
      → score c (decide_and_apply identity s r).world ≡ score c s.world
  unfolding decide_and_apply
  decide_and_apply-score identity s r = apply_initial-score _ s r

  after_group-score :
      (members : Result IoError Bool) (s : Supervisor) (r : ProcessRecord)
      → score c (after_group members s r).world ≡ score c s.world
  unfolding after_group
  after_group-score (ok false) s r = decide_and_apply-score (ok RecordIdentity.missing) s r
  after_group-score (ok true) s r = mark_unverified_process-score c s r
  after_group-score (err e) s r = mark_unverified_process-score c s r

  reattach_identity-score :
      (identity : Result IoError RecordIdentity) (s : Supervisor) (r : ProcessRecord)
      → score c (reattach_identity identity s r).world ≡ score c s.world
  unfolding reattach_identity
  reattach_identity-score (ok RecordIdentity.current) s r =
      decide_and_apply-score (ok RecordIdentity.current) s r
  reattach_identity-score (ok RecordIdentity.executable_vanished) s r =
      decide_and_apply-score (ok RecordIdentity.executable_vanished) s r
  reattach_identity-score (ok RecordIdentity.executable_mismatch) s r =
      decide_and_apply-score (ok RecordIdentity.executable_mismatch) s r
  reattach_identity-score (ok RecordIdentity.group_escaped) s r =
      decide_and_apply-score (ok RecordIdentity.group_escaped) s r
  reattach_identity-score (ok RecordIdentity.mismatched) s r =
      decide_and_apply-score (ok RecordIdentity.mismatched) s r
  reattach_identity-score (err e) s r = decide_and_apply-score (err e) s r
  reattach_identity-score (ok RecordIdentity.missing) s r =
      grind (arith, after_group-score, observe_attached-score)

  pub try_reattach-score :
      (s : Supervisor) (r : ProcessRecord) → score c (try_reattach s r).world ≡ score c s.world
  unfolding try_reattach
  try_reattach-score s r = grind (arith, reattach_identity-score, inspect_record_identity-score)

-- Reattachment to a recorded process sends no signal and launches nothing, whatever the kernel, the
-- disk and the health endpoint answer.
pub try_reattach-quiet :
    (s : Supervisor) (r : ProcessRecord)
    → activity (try_reattach s r).world.trace ≡ activity s.world.trace
try_reattach-quiet s r = try_reattach-score activity_tariff s r

-- Health supervision sends no signal and launches nothing: a failed check never stops or restarts
-- OpenCode, neither where its result is applied nor where the next check is dispatched.
pub health-quiet :
    (s : Supervisor) (at : ℕ)
    → (activity (poll_health_check s at).world.trace ≡ activity s.world.trace)
      × (activity (dispatch_health_check s at).world.trace ≡ activity s.world.trace)
health-quiet s at =
    (poll_health_check-score activity_tariff s at, dispatch_health_check-score activity_tariff s at)
