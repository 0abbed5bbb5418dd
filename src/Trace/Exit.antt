-- ===== src/Trace/Exit.antt =====
-- The price of watching a process and its record (rust/src/supervisor/process_exit.rs, reattach.rs).
use open_code_server.Base.{
  ℕ, Bool, true, false, ◌≡◌, refl, Option, none, some, Result, ok, err, arith,
}
use open_code_server.RuntimeState.{ProcessRecord}
use open_code_server.World.{IoError, ExitReason}
use open_code_server.Process.Identity.{RecordIdentity}
use open_code_server.Process.Managed.{ManagedProcess}
use open_code_server.Supervisor.State.{Supervisor}
use open_code_server.Supervisor.Durability.{RuntimePersistence}
use open_code_server.Supervisor.Unverified.{
  converge_discarded, check_group, check_identity, check_record, check_unverified_process,
}
use open_code_server.Supervisor.Exit.{
  upgrade_process, upgrade_unconfirmed_identity, poll_managed, poll_process_exit, wait_for_group,
  cleanup_process, handle_pending_group_cleanup, leader_gone, attached_disappearance,
  handle_attached_leader_disappearance, identity_changed_process, handle_identity_changed,
  clear_live_process_state, settle_clear, clear_process_record_durably, complete_process_exit,
  finish_exit, handle_exit, after_cleanup, after_upgrade, poll_process,
}
use open_code_server.Trace.Score.{Tariff, total, score, FreeTerm, FreeLaunch}
use open_code_server.Trace.Process.{
  inspect_record_identity-score, observe_attached-score, poll_exit-score,
  confirm_unconfirmed_identity-score,
}
use open_code_server.Trace.State.{
  persist_runtime-score, persist_runtime_detailed-score, mark_unverified_process-score,
  discard_stale_process_record-score,
}
use open_code_server.Trace.Start.{start_now-score}
use open_code_server.Trace.Lifecycle.{resume_after_exit-score}

module _ (c : Tariff) where
  upgrade_process-score :
      (p : Option ManagedProcess) (s : Supervisor)
      → score c (upgrade_process p s).1.world ≡ score c s.world
  unfolding upgrade_process
  upgrade_process-score none s = refl
  upgrade_process-score (some p) s =
      grind (arith, persist_runtime-score, confirm_unconfirmed_identity-score)

  upgrade-score :
      (s : Supervisor) → score c (upgrade_unconfirmed_identity s).1.world ≡ score c s.world
  unfolding upgrade_unconfirmed_identity
  upgrade-score s = upgrade_process-score s.process s

  wait_for_group-score :
      (s : Supervisor) (was_explicit_stop : Bool)
      → score c (wait_for_group s was_explicit_stop).world ≡ score c s.world
  unfolding wait_for_group total
  wait_for_group-score s was_explicit_stop = grind (arith, persist_runtime-score)

  cleanup_process-score :
      (p : Option ManagedProcess) (s : Supervisor) (was_explicit_stop : Bool)
      → score c (cleanup_process p s was_explicit_stop).1.world ≡ score c s.world
  unfolding cleanup_process
  cleanup_process-score none s was_explicit_stop = refl
  cleanup_process-score (some p) s was_explicit_stop =
      grind (arith, persist_runtime-score, wait_for_group-score)

  cleanup-score :
      (s : Supervisor) (was_explicit_stop : Bool)
      → score c (handle_pending_group_cleanup s was_explicit_stop).1.world ≡ score c s.world
  unfolding handle_pending_group_cleanup
  cleanup-score s was_explicit_stop = cleanup_process-score s.process s was_explicit_stop

  leader_gone-score :
      (members : Result IoError Bool) (s : Supervisor) (r : ProcessRecord)
      → score c (leader_gone members s r).1.world ≡ score c s.world
  unfolding leader_gone
  leader_gone-score (ok false) s r = refl
  leader_gone-score (ok true) s r = mark_unverified_process-score c _ _
  leader_gone-score (err e) s r = mark_unverified_process-score c _ _

  attached_disappearance-score :
      (p : Option ManagedProcess) (s : Supervisor)
      → score c (attached_disappearance p s).1.world ≡ score c s.world
  unfolding attached_disappearance
  attached_disappearance-score none s = refl
  attached_disappearance-score (some p) s = grind (arith, leader_gone-score, observe_attached-score)

  leader_disappearance-score :
      (s : Supervisor) (exit : ExitReason)
      → score c (handle_attached_leader_disappearance s exit).1.world ≡ score c s.world
  unfolding handle_attached_leader_disappearance
  leader_disappearance-score s exit = grind (arith, attached_disappearance-score)

  identity_changed_process-score :
      (p : Option ManagedProcess) (s : Supervisor)
      → score c (identity_changed_process p s).1.world ≡ score c s.world
  unfolding identity_changed_process
  identity_changed_process-score none s = refl
  identity_changed_process-score (some p) s = mark_unverified_process-score c _ _

  identity_changed-score :
      (s : Supervisor) (exit : ExitReason)
      → score c (handle_identity_changed s exit).1.world ≡ score c s.world
  unfolding handle_identity_changed
  identity_changed-score s exit = grind (arith, identity_changed_process-score)

  settle_clear-score :
      (o : RuntimePersistence) (s : Supervisor) (previous : Option ProcessRecord)
      (was_explicit_stop : Bool) (exit : ExitReason)
      → score c (settle_clear o s previous was_explicit_stop exit).1.world ≡ score c s.world
  unfolding settle_clear total
  settle_clear-score o s previous was_explicit_stop exit = ground arith

  clear_record-score :
      (s : Supervisor) (previous : Option ProcessRecord) (was_explicit_stop : Bool)
      (exit : ExitReason)
      → score c (clear_process_record_durably s previous was_explicit_stop exit).1.world
        ≡ score c s.world
  unfolding clear_process_record_durably
  clear_record-score s previous was_explicit_stop exit =
      grind (arith, settle_clear-score, persist_runtime_detailed-score)

module _ (c : Tariff) (free : FreeTerm c) where
  poll_managed-score :
      (p : Option ManagedProcess) (s : Supervisor)
      → score c (poll_managed p s).1.world ≡ score c s.world
  unfolding poll_managed
  poll_managed-score none s = refl
  poll_managed-score (some p) s = grind (arith, poll_exit-score c free)

  poll_process_exit-score :
      (s : Supervisor) → score c (poll_process_exit s).1.world ≡ score c s.world
  unfolding poll_process_exit
  poll_process_exit-score s = poll_managed-score s.process s

module _ (c : Tariff) (free : FreeTerm c) (launch : FreeLaunch c) where
  complete_exit-score :
      (s : Supervisor) (was_explicit_stop : Bool) (exit : ExitReason)
      → score c (complete_process_exit s was_explicit_stop exit).world ≡ score c s.world
  unfolding complete_process_exit clear_live_process_state
  complete_exit-score s was_explicit_stop exit =
      grind (arith, resume_after_exit-score, clear_record-score)

  finish_exit-score :
      (x : Bool × Supervisor) (was_explicit_stop : Bool) (exit : ExitReason)
      → score c (finish_exit x was_explicit_stop exit).world ≡ score c x.1.world
  unfolding finish_exit
  finish_exit-score (true, s) was_explicit_stop exit = refl
  finish_exit-score (false, s) was_explicit_stop exit = complete_exit-score s was_explicit_stop exit

  handle_exit-score :
      (exit : Option ExitReason) (s : Supervisor) (was_explicit_stop : Bool)
      → score c (handle_exit exit s was_explicit_stop).world ≡ score c s.world
  unfolding handle_exit
  handle_exit-score none s was_explicit_stop = refl
  handle_exit-score (some exit) s was_explicit_stop =
      grind (arith, finish_exit-score, leader_disappearance-score, identity_changed-score)

  after_cleanup-score :
      (x : Bool × Supervisor) (exit : Option ExitReason) (was_explicit_stop : Bool)
      → score c (after_cleanup x exit was_explicit_stop).world ≡ score c x.1.world
  unfolding after_cleanup
  after_cleanup-score (true, s) exit was_explicit_stop = refl
  after_cleanup-score (false, s) exit was_explicit_stop = handle_exit-score exit s was_explicit_stop

  after_upgrade-score :
      (x : Bool × Supervisor) → score c (after_upgrade x).world ≡ score c x.1.world
  unfolding after_upgrade
  after_upgrade-score (false, s) = refl
  after_upgrade-score (true, s) =
      grind (arith, after_cleanup-score, cleanup-score, poll_process_exit-score c free)

  pub poll_process-score : (s : Supervisor) → score c (poll_process s).world ≡ score c s.world
  unfolding poll_process
  poll_process-score s = grind (arith, after_upgrade-score, upgrade-score)

  converge_discarded-score :
      (x : Bool × Supervisor) → score c (converge_discarded x).world ≡ score c x.1.world
  unfolding converge_discarded
  converge_discarded-score (false, s) = refl
  converge_discarded-score (true, s) = grind (arith, start_now-score)

  check_group-score :
      (members : Result IoError Bool) (s : Supervisor)
      → score c (check_group members s).world ≡ score c s.world
  unfolding check_group
  check_group-score members s =
      grind (arith, converge_discarded-score, discard_stale_process_record-score)

  check_identity-score :
      (identity : Result IoError RecordIdentity) (s : Supervisor) (r : ProcessRecord)
      → score c (check_identity identity s r).world ≡ score c s.world
  unfolding check_identity
  check_identity-score identity s r = grind (arith, check_group-score, observe_attached-score)

  check_record-score :
      (r : Option ProcessRecord) (s : Supervisor)
      → score c (check_record r s).world ≡ score c s.world
  unfolding check_record
  check_record-score none s = refl
  check_record-score (some r) s = grind (arith, check_identity-score, inspect_record_identity-score)

  pub check_unverified-score :
      (s : Supervisor) (at : ℕ) → score c (check_unverified_process s at).world ≡ score c s.world
  unfolding check_unverified_process
  check_unverified-score s at = check_record-score s.runtime.process _
