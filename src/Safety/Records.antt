-- ===== src/Safety/Records.antt =====
-- Launched children and process records (rust/src/supervisor/launch_transaction.rs, process_exit.rs,
-- reattach.rs, lifecycle.rs).
use open_code_server.Base.{
  ℕ, String, Bool, true, false, ◌≡◌, ◌⊎◌, inl, inr, refl, sym, ap, ◌∙◌, Option, none, some, Result,
  ok, err, arith, or_option, ◌+◌,
}
use open_code_server.Protocol.{NotificationKind}
use open_code_server.Config.{ValidatedConfig}
use open_code_server.RuntimeState.{ProcessRecord}
use open_code_server.World.{World, IoError, ExitReason, now}
use open_code_server.Storage.{RuntimeStateSaveOutcome}
use open_code_server.Process.Managed.{ManagedProcess}
use open_code_server.Process.Spawn.{SpawnError}
use open_code_server.Supervisor.State.{Supervisor, StartTrigger, PendingExit}
use open_code_server.Supervisor.Durability.{
  RuntimePersistence, settle_save, persist_runtime_detailed, persist_runtime,
}
use open_code_server.Supervisor.Launch.{commit_spawned_process, abort_launch}
use open_code_server.Supervisor.Recovery.{
  emit, emit_notification, announce_exhausted, finish_recovery_failure, schedule_at,
  schedule_next_restart,
}
use open_code_server.Supervisor.Start.{
  schedule_port_release_retry, schedule_network_wait_retry, started, keep_survivor,
  report_failed_start, after_abort, failed_start, after_spawn,
}
use open_code_server.Supervisor.Unverified.{set_record, unverified_check_interval}
use open_code_server.Supervisor.Exit.{settle_clear, clear_process_record_durably}
use open_code_server.Safety.Transaction.{Persisted, persist_runtime_detailed-Persisted}

settle_save-process :
    (o : RuntimeStateSaveOutcome) (s : Supervisor) → (settle_save o s).1.process ≡ s.process
unfolding settle_save
settle_save-process RuntimeStateSaveOutcome.durable s = refl
settle_save-process (RuntimeStateSaveOutcome.failed e) s = refl
settle_save-process (RuntimeStateSaveOutcome.uncertain e) s = refl

detailed-process : (s : Supervisor) → (persist_runtime_detailed s).1.process ≡ s.process
unfolding persist_runtime_detailed
detailed-process s = grind (arith, settle_save-process)

persist_runtime-process : (s : Supervisor) → (persist_runtime s).1.process ≡ s.process
unfolding persist_runtime
persist_runtime-process s = ground (arith, detailed-process s)

commit-process :
    (s : Supervisor) (p : ManagedProcess) → (commit_spawned_process s p).1.process ≡ some p
unfolding commit_spawned_process
commit-process s p = persist_runtime-process _

abort_launch-process : (s : Supervisor) → (abort_launch s).1.process ≡ s.process
unfolding abort_launch
abort_launch-process s = grind (arith, persist_runtime-process)

emit-process :
    (id : Option String) (s : Supervisor) (kind : NotificationKind) (title message : String)
    → (emit id s kind title message).1.process ≡ s.process
unfolding emit
emit-process none s kind title message = refl
emit-process (some id) s kind title message = persist_runtime-process _

exhausted-process :
    (active : Bool) (s : Supervisor) → (announce_exhausted active s).process ≡ s.process
unfolding announce_exhausted emit_notification
exhausted-process false s = refl
exhausted-process true s = emit-process _ _ _ _ _

finish-process : (s : Supervisor) → (finish_recovery_failure s).process ≡ s.process
unfolding finish_recovery_failure
finish-process s = exhausted-process s.recovery_incident_active _

schedule_at-process :
    (delay : Option ℕ) (s : Supervisor) → (schedule_at delay s).process ≡ s.process
unfolding schedule_at
schedule_at-process none s = refl
schedule_at-process (some delay) s = refl

schedule-process : (s : Supervisor) → (schedule_next_restart s).process ≡ s.process
unfolding schedule_next_restart
schedule-process s = grind (arith, schedule_at-process, finish-process)

port_retry-process : (s : Supervisor) → (schedule_port_release_retry s).1.process ≡ s.process
unfolding schedule_port_release_retry
port_retry-process s = ground arith

network_retry-process :
    (s : Supervisor) (trigger : StartTrigger)
    → (schedule_network_wait_retry s trigger).1.process ≡ s.process
unfolding schedule_network_wait_retry
network_retry-process s trigger = ground arith

report-process :
    (s : Supervisor) (e : IoError) (config : ValidatedConfig) (trigger : StartTrigger)
    → (report_failed_start s e config trigger).process ≡ s.process
unfolding report_failed_start
report-process s e config StartTrigger.cold = refl
report-process s e config StartTrigger.after_stop = refl
report-process s e config StartTrigger.recovery = grind (arith, schedule-process, finish-process)

after_abort-process :
    (x : Bool × Supervisor) (e : IoError) (config : ValidatedConfig) (trigger : StartTrigger)
    → (after_abort x e config trigger).process ≡ x.1.process
unfolding after_abort
after_abort-process (false, s) e config trigger = refl
after_abort-process (true, s) e config trigger =
    grind (arith, port_retry-process, network_retry-process, report-process)

started-process :
    (p : ManagedProcess) (s : Supervisor) (config : ValidatedConfig)
    → (started p s config).process ≡ some p
unfolding started
started-process p s config = ground (arith, commit-process s p)

keep_survivor-process : (p : ManagedProcess) (s : Supervisor) → (keep_survivor p s).process ≡ some p
unfolding keep_survivor
keep_survivor-process p s = ground (arith, commit-process s p)

failed_start-process :
    (survivor : Option ManagedProcess) (e : IoError) (s : Supervisor) (config : ValidatedConfig)
    (trigger : StartTrigger)
    → (failed_start survivor e s config trigger).process ≡ or_option survivor s.process
unfolding failed_start
failed_start-process (some p) e s config trigger = keep_survivor-process p s
failed_start-process none e s config trigger =
    after_abort-process (abort_launch s) e config trigger ∙ abort_launch-process s

-- The child that a launch left running: the confirmed one, or the one that could not be stopped.
abbrev pub child_of : Result SpawnError ManagedProcess → Option ManagedProcess
child_of (ok p) = some p
child_of (err e) = e.survivor

-- Whatever a launch ends with, and whatever the disk answers afterwards, a child that is left running
-- is the managed process: one that was confirmed, and one that was not and could not be stopped.
-- Without one the managed process is as before.
pub after_spawn-process :
    (launch : Result SpawnError ManagedProcess) (s : Supervisor) (config : ValidatedConfig)
    (trigger : StartTrigger)
    → (after_spawn launch s config trigger).process ≡ or_option (child_of launch) s.process
unfolding after_spawn
after_spawn-process (ok p) s config trigger = started-process p s config
after_spawn-process (err e) s config trigger =
    failed_start-process e.survivor e.error s config trigger

-- What clearing the record of an exited process leaves: no record on disk or in memory; or the old
-- record on both, to be checked at a time that the clock was read for; or no record shown, its
-- durability unknown, and the rest of the exit kept for later.
abbrev pub Cleared : Supervisor → Option ProcessRecord → PendingExit → Bool × Supervisor → Type 0
Cleared s previous exit (true, s') = (s'.world.file ≡ some s'.runtime) × (s'.runtime.process ≡ none)
Cleared s previous exit (false, s') =
    ((s'.world.file ≡ s.world.file)
      × (s'.runtime.process ≡ previous)
      × (s'.unverified_process_record ≡ true)
      × ((w : World) × (s'.world ≡ (now w).1)
          × (s'.unverified_check_at ≡ some ((now w).0 + unverified_check_interval))))
    ⊎ ((s'.world.file ≡ some s'.runtime)
        × (s'.runtime.process ≡ none)
        × (s'.pending_process_exit ≡ some exit))

settle_clear-Cleared :
    (x : RuntimePersistence × Supervisor) (s : Supervisor) (previous : Option ProcessRecord)
    (was_explicit_stop : Bool) (exit : ExitReason)
    → Persisted (set_record s none) x
    → Cleared s previous
        (record { was_explicit_stop = was_explicit_stop; exit = exit })
        (settle_clear x.0 x.1 previous was_explicit_stop exit)
unfolding settle_clear
settle_clear-Cleared (RuntimePersistence.durable, s') s previous b exit (file, memory) =
    (file ∙ ap some (sym memory), ap (λ r. r.process) memory)
settle_clear-Cleared (RuntimePersistence.failed, s') s previous b exit (file, memory) =
    inl (file, refl, refl, (s'.world, refl, refl))
settle_clear-Cleared (RuntimePersistence.uncertain, s') s previous b exit (file, memory) =
    inr (file ∙ ap some (sym memory), ap (λ r. r.process) memory, refl)

-- The record of an exited process is cleared as a transaction. It succeeds only with no record in
-- memory and in the visible file. Otherwise the file is as before, the old record is back in memory,
-- flagged as unverified and due for its check 3 seconds after the last reading of the clock; or the
-- file shows no record and the rest of the exit's work is kept.
pub clear_process_record-Cleared :
    (s : Supervisor) (previous : Option ProcessRecord) (was_explicit_stop : Bool)
    (exit : ExitReason)
    → Cleared s previous
        (record { was_explicit_stop = was_explicit_stop; exit = exit })
        (clear_process_record_durably s previous was_explicit_stop exit)
unfolding clear_process_record_durably
clear_process_record-Cleared s previous was_explicit_stop exit =
    settle_clear-Cleared (persist_runtime_detailed (set_record s none)) s previous was_explicit_stop
      exit (persist_runtime_detailed-Persisted (set_record s none))
