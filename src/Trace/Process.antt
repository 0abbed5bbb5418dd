-- ===== src/Trace/Process.antt =====
-- The price of inspecting, saving, signalling and polling (rust/src/process*.rs, runtime_state.rs).
use open_code_server.Base.{
  ℕ, String, Bool, true, ◌≡◌, refl, ◌∙◌, Contents, Option, none, some, List, [], ◌∷◌, Result, ok,
  err, arith,
}
use open_code_server.RuntimeState.{RuntimeState, ProcessRecord}
use open_code_server.World.{World, IoError, ExitReason, ProcessSnapshot, StorageStep}
use open_code_server.Storage.{
  prepare, fill, perform, after_sync, after_rename, after_prepare, sync_parent,
  write_json_atomically, steps_before_rename,
}
use open_code_server.Process.Identity.{
  paths_equal, identity_probe, inspect_snapshot, inspect_record_identity, matches_snapshot,
  identity_matches, owned_matches_snapshot, owned_identity_matches,
}
use open_code_server.Process.Group.{
  GroupObservation, observe_list, observe_listing, observe_members, observe_owned, observe_attached,
  validate_live_leader, signal_observed, signal_validated, signal_owned,
}
use open_code_server.Process.Cleanup.{
  PendingGroupCleanup, converge_exited, poll_exited_leader, poll_leader, poll_failed_leader,
  poll_pending_group, poll_owned_child, sigterm,
}
use open_code_server.Process.Managed.{
  ManagedProcess, poll_exit, signal_attached, signal, confirm_snapshot, executable_is,
  confirm_unconfirmed_identity,
}
use open_code_server.Trace.Score.{Tariff, total, score, FreeTerm}

module _ (c : Tariff) where
  prepare-score :
      (w : World) (state : RuntimeState) (t : Contents RuntimeState) (steps : List StorageStep)
      → score c (prepare w state t steps).2 ≡ score c w
  unfolding prepare total
  prepare-score w state t [] = refl
  prepare-score w state t (step ∷ steps) =
      ground (arith, prepare-score (perform w step).1 state (fill state step t) steps)

  after_prepare-score :
      (error : Option IoError) (w : World) (t : Contents RuntimeState)
      → score c (after_prepare error w t).1 ≡ score c w
  unfolding after_prepare after_rename sync_parent after_sync total
  after_prepare-score error w t = ground arith

  pub write_json_atomically-score :
      (w : World) (state : RuntimeState) → score c (write_json_atomically w state).1 ≡ score c w
  unfolding write_json_atomically total
  write_json_atomically-score w state =
      after_prepare-score (prepare w state Contents.absent steps_before_rename).0
        (prepare w state Contents.absent steps_before_rename).2
        (prepare w state Contents.absent steps_before_rename).1
      ∙ prepare-score w state Contents.absent steps_before_rename

  pub paths_equal-score : (w : World) (l r : String) → score c (paths_equal w l r).1 ≡ score c w
  unfolding paths_equal total
  paths_equal-score w l r = refl

  pub identity_probe-score :
      (w : World) (s : ProcessSnapshot) (r : ProcessRecord)
      → score c (identity_probe w s r).1 ≡ score c w
  unfolding identity_probe total
  identity_probe-score w s r = ground arith

  inspect_snapshot-score :
      (w : World) (s : Result IoError ProcessSnapshot) (r : ProcessRecord)
      → score c (inspect_snapshot w s r).1 ≡ score c w
  unfolding inspect_snapshot total
  inspect_snapshot-score w (ok s) r = identity_probe-score w s r
  inspect_snapshot-score w (err e) r = refl

  pub inspect_record_identity-score :
      (w : World) (r : ProcessRecord) → score c (inspect_record_identity w r).1 ≡ score c w
  unfolding inspect_record_identity total
  inspect_record_identity-score w r = grind (arith, inspect_snapshot-score)

  matches_snapshot-score :
      (w : World) (s : Result IoError ProcessSnapshot) (r : ProcessRecord)
      → score c (matches_snapshot w s r).1 ≡ score c w
  unfolding matches_snapshot total
  matches_snapshot-score w (ok s) r = identity_probe-score w s r
  matches_snapshot-score w (err e) r = refl

  pub identity_matches-score :
      (w : World) (r : ProcessRecord) → score c (identity_matches w r).1 ≡ score c w
  unfolding identity_matches total
  identity_matches-score w r = grind (arith, matches_snapshot-score)

  owned_matches_snapshot-score :
      (w : World) (s : Result IoError ProcessSnapshot) (r : ProcessRecord)
      → score c (owned_matches_snapshot w s r).1 ≡ score c w
  unfolding owned_matches_snapshot total
  owned_matches_snapshot-score w (ok s) r = identity_probe-score w s r
  owned_matches_snapshot-score w (err e) r = refl

  pub owned_identity_matches-score :
      (w : World) (r : ProcessRecord) → score c (owned_identity_matches w r).1 ≡ score c w
  unfolding owned_identity_matches total
  owned_identity_matches-score w r = grind (arith, owned_matches_snapshot-score)

  observe_list-score :
      (w : World) (g : ℕ) (skip : Option ℕ) (pids : List ℕ) (seen : GroupObservation)
      → score c (observe_list w g skip pids seen).1 ≡ score c w
  unfolding observe_list total
  observe_list-score w g skip [] seen = refl
  observe_list-score w g skip (pid ∷ pids) seen =
      grind
        (arith, λ (w' : World) (seen' : GroupObservation). observe_list-score w' g skip pids seen')

  pub observe_members-score :
      (w : World) (g : ℕ) (skip : Option ℕ) → score c (observe_members w g skip).1 ≡ score c w
  unfolding observe_members observe_listing total
  observe_members-score w g skip = grind (arith, observe_list-score)

  pub observe_owned-score :
      (w : World) (r : ProcessRecord) (pid : ℕ) → score c (observe_owned w r pid).1 ≡ score c w
  unfolding observe_owned total
  observe_owned-score w r pid = grind (arith, observe_members-score)

  pub observe_attached-score :
      (w : World) (r : ProcessRecord) → score c (observe_attached w r).1 ≡ score c w
  unfolding observe_attached total
  observe_attached-score w r = grind (arith, observe_members-score)

  pub validate_live_leader-score :
      (w : World) (r : ProcessRecord) (pid : ℕ)
      → score c (validate_live_leader w r pid).1 ≡ score c w
  unfolding validate_live_leader total
  validate_live_leader-score w r pid = ground arith

module _ (c : Tariff) (number : ℕ) (free : (group : ℕ) → c.on_signal group number ≡ 0) where
  signal_validated-score :
      (w : World) (r : ProcessRecord) (pid : ℕ) (valid : Result IoError (Unit {0}))
      → score c (signal_validated w r pid number valid).1 ≡ score c w
  unfolding signal_validated signal_observed total
  signal_validated-score w r pid (err e) = refl
  signal_validated-score w r pid (ok _) =
      grind (arith, observe_members-score, free r.process_group_id)

  pub signal_owned-score :
      (w : World) (r : ProcessRecord) (pid : ℕ) (exited : Bool)
      → score c (signal_owned w r pid exited number).1 ≡ score c w
  unfolding signal_owned total
  signal_owned-score w r pid exited = ground (
    arith,
    signal_validated-score w r pid (ok tt),
    signal_validated-score (validate_live_leader w r pid).1 r pid (validate_live_leader w r pid).0,
    validate_live_leader-score c w r pid,
  )

  signal_attached-score :
      (w : World) (same : Result IoError Bool) (r : ProcessRecord)
      → score c (signal_attached w same r number).1 ≡ score c w
  unfolding signal_attached total
  signal_attached-score w same r = ground (arith, free r.process_group_id)

  pub signal-score : (w : World) (p : ManagedProcess) → score c (signal w p number).1 ≡ score c w
  unfolding signal total
  signal-score w (ManagedProcess.child pid r cleanup failed) = grind (arith, signal_owned-score)
  signal-score w (ManagedProcess.attached r) =
      grind (arith, signal_attached-score, identity_matches-score)

module _ (c : Tariff) (free : FreeTerm c) where
  converge_exited-score :
      (o : Result IoError GroupObservation) (p : PendingGroupCleanup) (w : World)
      (r : ProcessRecord) (pid : ℕ)
      → score c (converge_exited o p w r pid).2 ≡ score c w
  unfolding converge_exited total
  converge_exited-score o p w r pid = ground (arith, signal_owned-score c sigterm free w r pid true)

  poll_exited_leader-score :
      (w : World) (r : ProcessRecord) (pid : ℕ) (exit : ExitReason)
      → score c (poll_exited_leader w r pid exit).2 ≡ score c w
  unfolding poll_exited_leader total
  poll_exited_leader-score w r pid exit = grind (arith, converge_exited-score, observe_owned-score)

  poll_leader-score :
      (exit : Result IoError (Option ExitReason)) (w : World) (r : ProcessRecord) (pid : ℕ)
      → score c (poll_leader exit w r pid).2 ≡ score c w
  unfolding poll_leader total
  poll_leader-score (err e) w r pid = refl
  poll_leader-score (ok none) w r pid = ground (arith, owned_identity_matches-score c w r)
  poll_leader-score (ok (some exit)) w r pid =
      grind (arith, owned_identity_matches-score, poll_exited_leader-score)

  poll_failed_leader-score :
      (exit : Result IoError (Option ExitReason)) (w : World) (r : ProcessRecord) (pid : ℕ)
      → score c (poll_failed_leader exit w r pid).2 ≡ score c w
  unfolding poll_failed_leader total
  poll_failed_leader-score exit w r pid = ground (arith, observe_owned-score c w r pid)

  poll_pending_group-score :
      (w : World) (r : ProcessRecord) (pid : ℕ) (p : PendingGroupCleanup)
      → score c (poll_pending_group w r pid p).2 ≡ score c w
  unfolding poll_pending_group total
  poll_pending_group-score w r pid p = ground (
    arith,
    observe_owned-score c w r pid,
    signal_owned-score c sigterm free (observe_owned w r pid).1 r pid true,
  )

  poll_owned_child-score :
      (w : World) (r : ProcessRecord) (pid : ℕ) (cleanup : Option PendingGroupCleanup)
      (failed : Bool)
      → score c (poll_owned_child w r pid cleanup failed).2 ≡ score c w
  unfolding poll_owned_child total
  poll_owned_child-score w r pid cleanup failed =
      grind (arith, poll_pending_group-score, poll_leader-score, poll_failed_leader-score)

  pub poll_exit-score : (w : World) (p : ManagedProcess) → score c (poll_exit w p).2 ≡ score c w
  unfolding poll_exit total
  poll_exit-score w (ManagedProcess.child pid r cleanup failed) =
      poll_owned_child-score w r pid cleanup failed
  poll_exit-score w (ManagedProcess.attached r) = grind (arith, identity_probe-score)

module _ (c : Tariff) where
  pub executable_is-score :
      (w : World) (path : Option String) (recorded : String)
      → score c (executable_is w path recorded).1 ≡ score c w
  unfolding executable_is total
  executable_is-score w none recorded = refl
  executable_is-score w (some path) recorded = paths_equal-score c w path recorded

  confirm_snapshot-score :
      (w : World) (s : Result IoError ProcessSnapshot) (pid : ℕ) (r : ProcessRecord)
      (cleanup : Option PendingGroupCleanup) (failed : Bool)
      → score c (confirm_snapshot w s pid r cleanup failed).2 ≡ score c w
  unfolding confirm_snapshot total
  confirm_snapshot-score w (err e) pid r cleanup failed = refl
  confirm_snapshot-score w (ok s) pid r cleanup failed =
      ground (arith, executable_is-score w s.executable r.executable)

  pub confirm_unconfirmed_identity-score :
      (w : World) (p : ManagedProcess) → score c (confirm_unconfirmed_identity w p).2 ≡ score c w
  unfolding confirm_unconfirmed_identity total
  confirm_unconfirmed_identity-score w (ManagedProcess.attached r) = refl
  confirm_unconfirmed_identity-score w (ManagedProcess.child pid r cleanup failed) =
      grind (arith, confirm_snapshot-score)
