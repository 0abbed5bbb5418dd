-- ===== src/Trace/Start.antt =====
-- The price of a start (rust/src/supervisor/lifecycle.rs, `start_now`).
use open_code_server.Base.{
  Bool, true, false, not, ◌||◌, ◌≡◌, refl, ◌∙◌, Option, none, some, Result, ok, err, arith, is_some,
  if◌then◌else◌,
}
use open_code_server.Config.{ValidatedConfig}
use open_code_server.RuntimeState.{RuntimeState, LaunchPending}
use open_code_server.World.{World, IoError}
use open_code_server.Storage.{RuntimeStateSaveOutcome, write_json_atomically}
use open_code_server.Storage.Laws.{Saved, write_json_atomically-Saved}
use open_code_server.Process.Managed.{ManagedProcess}
use open_code_server.Process.Spawn.{SpawnError}
use open_code_server.Supervisor.State.{Supervisor, StartTrigger, launch_is_pending}
use open_code_server.Supervisor.Durability.{
  RuntimePersistence, settle_save, persist_runtime_detailed,
}
use open_code_server.Supervisor.Launch.{settle_launch, begin_launch, set_launch_pending}
use open_code_server.Supervisor.Start.{
  schedule_port_release_retry, schedule_network_wait_retry, started, keep_survivor,
  report_failed_start, after_abort, failed_start, after_spawn, after_begin, marker_for, start_with,
  start_ready, start_now,
}
use open_code_server.Trace.Score.{Tariff, total, score, is_marked, FreeTerm, FreeLaunch}
use open_code_server.Trace.Spawn.{spawn-score}
use open_code_server.Trace.State.{
  begin_launch-score, commit_spawned_process-score, abort_launch-score, schedule_next_restart-score,
  finish_recovery_failure-score, runtime_state_ready-score, defer_durable_convergence-score,
  refresh_config-score,
}

settle_save_marked :
    (x : RuntimeStateSaveOutcome × World) (w : World) (state : RuntimeState) (s : Supervisor)
    → Saved w state x
    → (settle_save x.0 (record s { world = x.1 })).0 ≡ RuntimePersistence.durable
    → is_marked (settle_save x.0 (record s { world = x.1 })).1.world.trace
      ≡ is_some state.launch_pending
unfolding settle_save
settle_save_marked (RuntimeStateSaveOutcome.durable, w') w state s (shown, (rest, e, r)) h = rw e
settle_save_marked (RuntimeStateSaveOutcome.failed e, w') w state s k h = cc
settle_save_marked (RuntimeStateSaveOutcome.uncertain e, w') w state s k h = cc

-- A computation whose success rests on a test rests on the branch that goes on.
guarded_failed :
    (closed : Bool) (x : RuntimePersistence × Supervisor) (s : Supervisor) (v : Bool)
    → (x.0 ≡ RuntimePersistence.durable → is_marked x.1.world.trace ≡ v)
    → (if closed then (RuntimePersistence.failed, s) else x).0 ≡ RuntimePersistence.durable
    → is_marked (if closed then (RuntimePersistence.failed, s) else x).1.world.trace ≡ v
guarded_failed true x s v k h = cc
guarded_failed false x s v k h = k h

guarded_false :
    (closed : Bool) (x : Bool × Supervisor) (s : Supervisor)
    → (x.0 ≡ true → is_marked x.1.world.trace ≡ true)
    → (if closed then (false, s) else x).0 ≡ true
    → is_marked (if closed then (false, s) else x).1.world.trace ≡ true
guarded_false true x s k h = cc
guarded_false false x s k h = k h

-- A durable save leaves the sync of what it saved as the last call.
pub persist_runtime_detailed_marked :
    (s : Supervisor)
    → (persist_runtime_detailed s).0 ≡ RuntimePersistence.durable
    → is_marked (persist_runtime_detailed s).1.world.trace ≡ launch_is_pending s
unfolding persist_runtime_detailed
persist_runtime_detailed_marked s h =
    guarded_failed (not s.runtime_state_loaded) _ s _
      (settle_save_marked (write_json_atomically s.world s.runtime) s.world s.runtime s
        (write_json_atomically-Saved s.world s.runtime))
      h

settle_launch_marked :
    (o : RuntimePersistence) (s : Supervisor) (previous : Option LaunchPending)
    → (o ≡ RuntimePersistence.durable → is_marked s.world.trace ≡ true)
    → (settle_launch o s previous).0 ≡ true
    → is_marked (settle_launch o s previous).1.world.trace ≡ true
unfolding settle_launch
settle_launch_marked RuntimePersistence.durable s previous k h = k refl
settle_launch_marked RuntimePersistence.failed s previous k h = cc
settle_launch_marked RuntimePersistence.uncertain s previous k h = cc

-- A launch that may go on has its marker durably on disk, as the last thing that happened.
pub begin_launch_marked :
    (s : Supervisor) (m : LaunchPending)
    → (begin_launch s m).0 ≡ true
    → is_marked (begin_launch s m).1.world.trace ≡ true
unfolding begin_launch
begin_launch_marked s m h =
    guarded_false
      (not s.runtime_state_loaded
        || not s.runtime_state_reliable
        || launch_is_pending s
        || s.launch_pending_clear_requested)
      _ s
      (settle_launch_marked _ _ _ (persist_runtime_detailed_marked (set_launch_pending s (some m))))
      h

module _ (c : Tariff) where
  port_retry-score :
      (s : Supervisor) → score c (schedule_port_release_retry s).1.world ≡ score c s.world
  unfolding schedule_port_release_retry total
  port_retry-score s = ground arith

  network_retry-score :
      (s : Supervisor) (trigger : StartTrigger)
      → score c (schedule_network_wait_retry s trigger).1.world ≡ score c s.world
  unfolding schedule_network_wait_retry total
  network_retry-score s trigger = ground arith

  started-score :
      (p : ManagedProcess) (s : Supervisor) (config : ValidatedConfig)
      → score c (started p s config).world ≡ score c s.world
  unfolding started total
  started-score p s config = ground (arith, commit_spawned_process-score c s p)

  keep_survivor-score :
      (p : ManagedProcess) (s : Supervisor) → score c (keep_survivor p s).world ≡ score c s.world
  unfolding keep_survivor total
  keep_survivor-score p s = ground (arith, commit_spawned_process-score c s p)

  report_failed_start-score :
      (s : Supervisor) (e : IoError) (config : ValidatedConfig) (trigger : StartTrigger)
      → score c (report_failed_start s e config trigger).world ≡ score c s.world
  unfolding report_failed_start
  report_failed_start-score s e config StartTrigger.cold = refl
  report_failed_start-score s e config StartTrigger.after_stop = refl
  report_failed_start-score s e config StartTrigger.recovery =
      grind (arith, schedule_next_restart-score, finish_recovery_failure-score)

  after_abort-score :
      (x : Bool × Supervisor) (e : IoError) (config : ValidatedConfig) (trigger : StartTrigger)
      → score c (after_abort x e config trigger).world ≡ score c x.1.world
  unfolding after_abort
  after_abort-score (false, s) e config trigger = refl
  after_abort-score (true, s) e config trigger =
      grind (arith, port_retry-score, network_retry-score, report_failed_start-score)

  after_spawn-score :
      (x : Result SpawnError ManagedProcess) (s : Supervisor) (config : ValidatedConfig)
      (trigger : StartTrigger)
      → score c (after_spawn x s config trigger).world ≡ score c s.world
  unfolding after_spawn failed_start
  after_spawn-score (ok p) s config trigger = started-score p s config
  after_spawn-score (err e) s config trigger =
      grind (arith, keep_survivor-score, after_abort-score, abort_launch-score)

module _ (c : Tariff) (free : FreeTerm c) (launch : FreeLaunch c) where
  after_begin-score :
      (x : Bool × Supervisor) (config : ValidatedConfig) (trigger : StartTrigger)
      → (x.0 ≡ true → is_marked x.1.world.trace ≡ true)
      → score c (after_begin x config trigger).world ≡ score c x.1.world
  unfolding after_begin
  after_begin-score (false, s) config trigger h = ground arith
  after_begin-score (true, s) config trigger h =
      after_spawn-score c _ _ config trigger
      ∙ spawn-score c free launch s.world config none _ (h refl)

  start_with-score :
      (config : Option ValidatedConfig) (s : Supervisor) (trigger : StartTrigger)
      → score c (start_with config s trigger).world ≡ score c s.world
  unfolding start_with
  start_with-score none s trigger = grind (arith, schedule_next_restart-score)
  start_with-score (some config) s trigger = grind (
    arith,
    schedule_next_restart-score,
    after_begin-score (begin_launch s (marker_for s config)) config trigger
        (begin_launch_marked s (marker_for s config)),
    begin_launch-score c s (marker_for s config),
  )

  pub start_now-score :
      (s : Supervisor) (trigger : StartTrigger)
      → score c (start_now s trigger).world ≡ score c s.world
  unfolding start_now start_ready
  start_now-score s trigger = grind (
    arith, runtime_state_ready-score, defer_durable_convergence-score, start_with-score,
    refresh_config-score,
  )
