-- ===== src/Safety/Tests.antt =====
-- The theorems at the concrete agent.
use open_code_server.Base.{
  true, false, arith, Result, is_some, ◌≡◌, ◌⊎◌, refl, Option, none, some, List, [], ◌∷◌, ok, err,
  if◌then◌else◌, is_some_and, or_option, ◌==◌,
}
use open_code_server.Protocol.{Command, DesiredState, ServerState, FdaState}
use open_code_server.Config.{with_password}
use open_code_server.RuntimeState.{LaunchPending, default}
use open_code_server.World.{ExitReason, KeychainRead, FdaProbeOutcome}
use open_code_server.Storage.{write_json_atomically}
use open_code_server.Storage.Laws.{Saved, write_json_atomically-Saved}
use open_code_server.Process.Identity.{RecordIdentity}
use open_code_server.Process.Cleanup.{
  PendingGroupCleanup, pending_cleanup, refuse_signals, poll_owned_child,
}
use open_code_server.Process.Managed.{ManagedProcess, signal}
use open_code_server.Credential.{CredentialState, merge_credentials, apply_credential_read}
use open_code_server.Credential
use open_code_server.Fda.{fda_state_for_version, fda_probe_os_major_version}
use open_code_server.Supervisor.State.{
  Supervisor, StartTrigger, PendingLifecycleIntent, has_process,
}
use open_code_server.Supervisor.Durability.{persist_desired_state}
use open_code_server.Supervisor.Launch.{begin_launch}
use open_code_server.Supervisor.Lifecycle.{force_stop}
use open_code_server.Supervisor.Policy.{HealthVerdict, decide_initial, decide_after_health}
use open_code_server.Supervisor.Reattach.{try_reattach}
use open_code_server.Supervisor.Recovery.{schedule_next_restart}
use open_code_server.Supervisor.Health.{poll_health_check, dispatch_health_check}
use open_code_server.Supervisor.Capabilities.{action_capabilities, next_deadline}
use open_code_server.Supervisor.Tick.{respond, handle}
use open_code_server.Run.{launches, kills, unmarked_launches}
use open_code_server.Run.Scenario.{config, world, idle, managing, leader_record, print, key, clock}
use open_code_server.Safety.Transaction.{
  Committed, persist_desired_state-Committed, Marked, begin_launch-Marked,
}
use open_code_server.Safety.Reattach.{
  JustifiedFirst, decide_initial-Justified, JustifiedLast, decide_after_health-Justified,
}
use open_code_server.Safety.Credentials.{
  Sourced, merge_credentials-Sourced, Removed, polls, polls-after_removal, Applied, read-Applied,
}
use open_code_server.Safety.Quiet.{activity, try_reattach-quiet, health-quiet}
use open_code_server.Safety.Signals.{Authorized, signal-Authorized, poll_owned_child-quiet}
use open_code_server.Supervisor.Startup.{with_options}
use open_code_server.Safety.Startup.{with_options-marked, with_options-uncertain}
use open_code_server.Safety.Shutdown.{shutdown-terminates}
use open_code_server.Process.Spawn.{shutdown_unregistered_child}
use open_code_server.Safety.Single.{handle-launches, start_with-launches}
use open_code_server.Safety.Records.{
  after_spawn-process, child_of, Cleared, clear_process_record-Cleared,
}
use open_code_server.Supervisor.Start.{start_with, after_spawn}
use open_code_server.Supervisor.Exit.{clear_process_record_durably}
use open_code_server.Process.Spawn.{SpawnError}
use open_code_server.Safety.Recovery.{Attempted, schedule_next_restart-Attempted}
use open_code_server.Safety.Capabilities.{FromSystem, force_stop_offered}
use open_code_server.Safety.Deadlines.{Ahead, next_deadline-Ahead}
use open_code_server.Safety.Probe.{agreed, fda_state-agreed}

write_json_atomically-Saved_example : Saved world default (write_json_atomically world default)
write_json_atomically-Saved_example = write_json_atomically-Saved world default

persist_desired_state-Committed_example :
    Committed managing DesiredState.stopped PendingLifecycleIntent.stop
      (persist_desired_state managing DesiredState.stopped PendingLifecycleIntent.stop)
persist_desired_state-Committed_example =
    persist_desired_state-Committed managing DesiredState.stopped PendingLifecycleIntent.stop

abbrev marker : LaunchPending
marker = record { executable = "/bin/opencode"; config_fingerprint = print }

begin_launch-Marked_example : Marked idle marker (begin_launch idle marker)
begin_launch-Marked_example = begin_launch-Marked idle marker

decide_initial-Justified_example :
    JustifiedFirst false (ok RecordIdentity.current) (some config) true (
      decide_initial false (ok RecordIdentity.current) (some config) true CredentialState.available)
decide_initial-Justified_example =
    decide_initial-Justified false (ok RecordIdentity.current) (some config) true
      CredentialState.available

decide_after_health-Justified_example :
    JustifiedLast
      (ok RecordIdentity.current)
      (HealthVerdict.healthy "1.0")
      config
      (decide_after_health (ok RecordIdentity.current) (HealthVerdict.healthy "1.0") config)
decide_after_health-Justified_example =
    decide_after_health-Justified (ok RecordIdentity.current) (HealthVerdict.healthy "1.0") config

merge_credentials-Sourced_example :
    Sourced config
      (some (with_password config "secret"))
      (merge_credentials world Credential.new config (some (with_password config "secret"))).0
merge_credentials-Sourced_example =
    merge_credentials-Sourced world Credential.new config (some (with_password config "secret"))

abbrev reading : Supervisor
reading = record idle {
  credentials = record Credential.new {
    credential_refresh = some (record { dispatched = 10; account = "opencode" });
  };
  latest_config = some config;
}

polls-after_removal_example : Removed (
    polls
      ((world, 20) ∷ (world, 30) ∷ [])
      (handle reading Command.credential_removed).1.credentials
      (handle reading Command.credential_removed).1.latest_config)
polls-after_removal_example = polls-after_removal reading ((world, 20) ∷ (world, 30) ∷ [])

read-Applied_example :
    Applied
      (KeychainRead.found "secret")
      Credential.new
      "opencode"
      (some config)
      (apply_credential_read
        (KeychainRead.found "secret")
        world
        Credential.new
        "opencode"
        (some config)).2
unfolding apply_credential_read
read-Applied_example =
    read-Applied (KeychainRead.found "secret") world Credential.new "opencode" (some config) refl

try_reattach-quiet_example :
    activity (try_reattach idle leader_record).world.trace ≡ activity idle.world.trace
try_reattach-quiet_example = try_reattach-quiet idle leader_record

health-quiet_example :
    (activity (poll_health_check managing 5000).world.trace ≡ activity managing.world.trace)
    × (activity (dispatch_health_check managing 5000).world.trace ≡ activity managing.world.trace)
health-quiet_example = health-quiet managing 5000

signal-Authorized_example :
    (activity (signal world (ManagedProcess.child 700 leader_record none false) 15).1.trace
      ≡ activity world.trace)
    ⊎ Authorized world (ManagedProcess.child 700 leader_record none false)
signal-Authorized_example =
    signal-Authorized world (ManagedProcess.child 700 leader_record none false) 15

abbrev refused_cleanup : PendingGroupCleanup
refused_cleanup = refuse_signals (pending_cleanup (ExitReason.exited 1))

poll_owned_child-quiet_example :
    activity (poll_owned_child world leader_record 700 (some refused_cleanup) true).2.trace
    ≡ activity world.trace
poll_owned_child-quiet_example =
    poll_owned_child-quiet world leader_record 700 (some refused_cleanup) refl

handle-launches_example :
    (launches (handle managing Command.restart).1.world.trace ≡ launches managing.world.trace)
    × ((handle managing Command.start).0
        ≡ (respond
            (persist_desired_state managing DesiredState.running PendingLifecycleIntent.start)).0)
handle-launches_example = handle-launches managing Command.restart refl

schedule_next_restart-Attempted_example : Attempted idle (schedule_next_restart idle)
schedule_next_restart-Attempted_example = schedule_next_restart-Attempted idle

abbrev stuck : Supervisor
stuck = record managing { server_state = ServerState.stop_timed_out }

force_stop_offered_example : FromSystem stuck (force_stop stuck)
unfolding action_capabilities
force_stop_offered_example = force_stop_offered stuck refl

next_deadline-Ahead_example : Ahead 5000 (next_deadline managing 5000)
next_deadline-Ahead_example = next_deadline-Ahead managing 5000

abbrev targets : List (Option FdaProbeOutcome)
targets = some FdaProbeOutcome.denied ∷ none ∷ some FdaProbeOutcome.denied ∷ []

fda_state-agreed_example : fda_state_for_version (some 26) targets ≡ (
    if is_some_and (some 26) (λ m. m == fda_probe_os_major_version)
    then agreed targets
    else FdaState.unable_to_determine)
fda_state-agreed_example = fda_state-agreed (some 26) targets

shutdown-terminates_example : is_some (shutdown_unregistered_child world leader_record 700) ≡ true
unfolding clock
shutdown-terminates_example =
    shutdown-terminates world leader_record 700 (λ c t. omega arith) (λ t. omega arith)

abbrev waiting : Supervisor
waiting = record idle {
  credentials = record Credential.new { credential_state = CredentialState.access_pending };
}

start_with-launches_example :
    launches (start_with (some config) waiting StartTrigger.recovery).world.trace
    ≡ launches waiting.world.trace
start_with-launches_example = start_with-launches (some config) waiting StartTrigger.recovery refl

abbrev child_launched : Result SpawnError ManagedProcess
child_launched = ok (ManagedProcess.child 700 leader_record none false)

after_spawn-process_example :
    (after_spawn child_launched idle config StartTrigger.cold).process
    ≡ or_option (child_of child_launched) idle.process
after_spawn-process_example = after_spawn-process child_launched idle config StartTrigger.cold

clear_process_record-Cleared_example :
    Cleared managing
      (some leader_record)
      (record { was_explicit_stop = true; exit = ExitReason.exited 0 })
      (clear_process_record_durably managing (some leader_record) true (ExitReason.exited 0))
clear_process_record-Cleared_example =
    clear_process_record-Cleared managing (some leader_record) true (ExitReason.exited 0)

with_options-marked_example :
    (kills (with_options key idle.options (ok default) world).world.trace ≡ kills world.trace)
    × (unmarked_launches (with_options key idle.options (ok default) world).world.trace
        ≡ unmarked_launches world.trace)
with_options-marked_example = with_options-marked key idle.options (ok default) world

with_options-uncertain_example :
    (activity (with_options key idle.options (err "unreadable") world).world.trace
      ≡ activity world.trace)
    × (has_process (with_options key idle.options (err "unreadable") world) ≡ false)
    × ((with_options key idle.options (err "unreadable") world).server_state ≡ ServerState.failed)
with_options-uncertain_example =
    with_options-uncertain key idle.options (err "unreadable") world refl
