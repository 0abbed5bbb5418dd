-- ===== src/Trace/Lifecycle.antt =====
-- The price of the lifecycle commands but the forced stop, and of what goes on once a save is durable
-- (rust/src/supervisor/lifecycle.rs, runtime_durability.rs).
use open_code_server.Base.{ℕ, Bool, true, ◌≡◌, refl, Option, none, some, Result, ok, err, arith}
use open_code_server.World.{IoError, ExitReason}
use open_code_server.Process.Cleanup.{sigterm}
use open_code_server.Process.Managed.{ManagedProcess}
use open_code_server.Supervisor.State.{
  Supervisor, Message, PendingExit, PendingLifecycleIntent, PendingDurableConvergence,
}
use open_code_server.Supervisor.Durability.{RuntimePersistence}
use open_code_server.Supervisor.Lifecycle.{
  start_or_refuse, apply_start, request_start, defer_stop, after_terminate, stop_without_process,
  stop_process, begin_stop, apply_stop, request_stop, restart_process, restart_stopped,
  apply_restart, request_restart, apply_pending_lifecycle_intent, continue_stop,
}
use open_code_server.Supervisor.Retry.{
  converge_stopped, converge, take_convergence, resume_pending_durable_convergence,
  resume_after_stop, resume_after_crash, resume_after_process_exit, resume_exit, resume_intent,
  unwind_marker, retry_runtime_state_if_due,
}
use open_code_server.Trace.Score.{Tariff, total, score, FreeTerm, FreeLaunch}
use open_code_server.Trace.Process.{signal-score}
use open_code_server.Trace.State.{
  persist_desired_state-score, persist_runtime_detailed-score, defer_durable_convergence-score,
  defer_lifecycle_intent-score, schedule_next_restart-score, emit_notification-score,
}
use open_code_server.Trace.Start.{start_now-score}

module _ (c : Tariff) where
  pub defer_stop-score :
      (s : Supervisor) (restarting : Bool)
      → score c (defer_stop s restarting).world ≡ score c s.world
  unfolding defer_stop
  defer_stop-score s restarting =
      grind (arith, defer_durable_convergence-score, defer_lifecycle_intent-score)

  pub after_terminate-score :
      (sent : Result IoError (Unit {0})) (s : Supervisor) (restarting : Bool)
      → score c (after_terminate sent s restarting).world ≡ score c s.world
  unfolding after_terminate total
  after_terminate-score (ok _) s restarting = refl
  after_terminate-score (err e) s restarting = refl

  pub continue_stop-score : (s : Supervisor) → score c (continue_stop s).1.world ≡ score c s.world
  unfolding continue_stop total
  continue_stop-score s = ground arith

module _ (c : Tariff) (free : FreeTerm c) (launch : FreeLaunch c) where
  start_or_refuse-score :
      (reason : Option Message) (s : Supervisor)
      → score c (start_or_refuse reason s).1.world ≡ score c s.world
  unfolding start_or_refuse
  start_or_refuse-score (some m) s = refl
  start_or_refuse-score none s = grind (arith, start_now-score)

  pub apply_start-score : (s : Supervisor) → score c (apply_start s).1.world ≡ score c s.world
  unfolding apply_start
  apply_start-score s = grind (arith, start_or_refuse-score)

  pub request_start-score : (s : Supervisor) → score c (request_start s).1.world ≡ score c s.world
  unfolding request_start
  request_start-score s = grind (arith, apply_start-score, persist_desired_state-score)

  stop_without_process-score :
      (s : Supervisor) (restarting : Bool)
      → score c (stop_without_process s restarting).world ≡ score c s.world
  unfolding stop_without_process
  stop_without_process-score s restarting = grind (arith, start_now-score)

  stop_process-score :
      (p : Option ManagedProcess) (s : Supervisor) (restarting : Bool)
      → score c (stop_process p s restarting).world ≡ score c s.world
  unfolding stop_process
  stop_process-score none s restarting = stop_without_process-score s restarting
  stop_process-score (some p) s restarting =
      grind (arith, after_terminate-score, signal-score c sigterm free)

  pub begin_stop-score :
      (s : Supervisor) (restarting : Bool)
      → score c (begin_stop s restarting).world ≡ score c s.world
  unfolding begin_stop
  begin_stop-score s restarting = grind (arith, defer_stop-score, stop_process-score)

  pub apply_stop-score : (s : Supervisor) → score c (apply_stop s).1.world ≡ score c s.world
  unfolding apply_stop
  apply_stop-score s = grind (arith, begin_stop-score)

  pub request_stop-score : (s : Supervisor) → score c (request_stop s).1.world ≡ score c s.world
  unfolding request_stop
  request_stop-score s = grind (arith, apply_stop-score, persist_desired_state-score)

  restart_process-score :
      (reason : Option Message) (s : Supervisor)
      → score c (restart_process reason s).1.world ≡ score c s.world
  unfolding restart_process
  restart_process-score (some m) s = refl
  restart_process-score none s = begin_stop-score s true

  restart_stopped-score :
      (reason : Option Message) (s : Supervisor)
      → score c (restart_stopped reason s).1.world ≡ score c s.world
  unfolding restart_stopped
  restart_stopped-score (some m) s = refl
  restart_stopped-score none s = grind (arith, start_now-score)

  pub apply_restart-score : (s : Supervisor) → score c (apply_restart s).1.world ≡ score c s.world
  unfolding apply_restart
  apply_restart-score s = grind (arith, restart_process-score, restart_stopped-score)

  pub request_restart-score :
      (s : Supervisor) → score c (request_restart s).1.world ≡ score c s.world
  unfolding request_restart
  request_restart-score s = grind (arith, apply_restart-score, persist_desired_state-score)

  apply_intent-score :
      (intent : PendingLifecycleIntent) (s : Supervisor)
      → score c (apply_pending_lifecycle_intent intent s).world ≡ score c s.world
  unfolding apply_pending_lifecycle_intent
  apply_intent-score PendingLifecycleIntent.start s = apply_start-score s
  apply_intent-score PendingLifecycleIntent.stop s = apply_stop-score s
  apply_intent-score PendingLifecycleIntent.restart s = apply_restart-score s

  converge_stopped-score : (s : Supervisor) → score c (converge_stopped s).world ≡ score c s.world
  unfolding converge_stopped
  converge_stopped-score s = grind (arith, begin_stop-score)

  converge-score :
      (p : PendingDurableConvergence) (s : Supervisor)
      → score c (converge p s).world ≡ score c s.world
  unfolding converge
  converge-score (PendingDurableConvergence.start trigger) s = grind (arith, start_now-score)
  converge-score PendingDurableConvergence.stop s = grind (arith, converge_stopped-score)

  take_convergence-score :
      (p : Option PendingDurableConvergence) (s : Supervisor)
      → score c (take_convergence p s).world ≡ score c s.world
  unfolding take_convergence
  take_convergence-score none s = refl
  take_convergence-score (some p) s = converge-score p _

  pub resume_convergence-score :
      (s : Supervisor) → score c (resume_pending_durable_convergence s).world ≡ score c s.world
  unfolding resume_pending_durable_convergence
  resume_convergence-score s = grind (arith, take_convergence-score)

  resume_after_stop-score : (s : Supervisor) → score c (resume_after_stop s).world ≡ score c s.world
  unfolding resume_after_stop
  resume_after_stop-score s = grind (arith, start_now-score, schedule_next_restart-score)

  resume_after_crash-score :
      (s : Supervisor) (exit : ExitReason)
      → score c (resume_after_crash s exit).world ≡ score c s.world
  unfolding resume_after_crash
  resume_after_crash-score s exit =
      grind (arith, emit_notification-score, schedule_next_restart-score)

  pub resume_after_exit-score :
      (s : Supervisor) (was_explicit_stop : Bool) (exit : ExitReason)
      → score c (resume_after_process_exit s was_explicit_stop exit).world ≡ score c s.world
  unfolding resume_after_process_exit
  resume_after_exit-score s was_explicit_stop exit =
      grind (arith, resume_after_stop-score, resume_after_crash-score)

  resume_exit-score :
      (p : Option PendingExit) (s : Supervisor) → score c (resume_exit p s).world ≡ score c s.world
  unfolding resume_exit
  resume_exit-score none s = resume_convergence-score s
  resume_exit-score (some p) s = resume_after_exit-score _ p.was_explicit_stop p.exit

  resume_intent-score :
      (p : Option PendingLifecycleIntent) (s : Supervisor)
      → score c (resume_intent p s).world ≡ score c s.world
  unfolding resume_intent
  resume_intent-score none s = resume_exit-score s.pending_process_exit s
  resume_intent-score (some intent) s = apply_intent-score intent _

  unwind_marker-score :
      (x : RuntimePersistence × Supervisor) → score c (unwind_marker x).1.world ≡ score c x.1.world
  unfolding unwind_marker
  unwind_marker-score (outcome, s) = grind (arith, persist_runtime_detailed-score)

  pub retry_runtime_state-score :
      (s : Supervisor) (at : ℕ) → score c (retry_runtime_state_if_due s at).world ≡ score c s.world
  unfolding retry_runtime_state_if_due
  retry_runtime_state-score s at =
      grind (arith, resume_intent-score, unwind_marker-score, persist_runtime_detailed-score)
