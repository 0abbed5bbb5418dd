-- ===== src/Supervisor/Launch.antt =====
-- The two-phase launch transaction (rust/src/supervisor/launch_transaction.rs).
use open_code_server.Base.{Bool, true, false, not, ◌&&◌, ◌||◌, Option, none, some, if◌then◌else◌}
use open_code_server.RuntimeState.{LaunchPending}
use open_code_server.Process.Managed.{ManagedProcess, record_of}
use open_code_server.Supervisor.State.{Supervisor, launch_is_pending}
use open_code_server.Supervisor.Durability.{
  RuntimePersistence, persist_runtime_detailed, persist_runtime,
}

abbrev pub set_launch_pending : Supervisor → Option LaunchPending → Supervisor
set_launch_pending s marker = record s { runtime = record (s.runtime) { launch_pending = marker } }

unfoldable pub settle_launch :
    RuntimePersistence → Supervisor → Option LaunchPending → Bool × Supervisor
settle_launch RuntimePersistence.durable s previous = (true, s)
settle_launch RuntimePersistence.failed s previous = (false, set_launch_pending s previous)
settle_launch RuntimePersistence.uncertain s previous =
    (false, record s { launch_pending_clear_requested = true })

unfoldable pub begin_launch : Supervisor → LaunchPending → Bool × Supervisor
unfolding settle_launch
begin_launch s pending =
    if not s.runtime_state_loaded
      || not s.runtime_state_reliable
      || launch_is_pending s
      || s.launch_pending_clear_requested
    then (false, s)
    else let (outcome, s') = persist_runtime_detailed (set_launch_pending s (some pending)) in
      settle_launch outcome s' s.runtime.launch_pending

unfoldable pub commit_spawned_process : Supervisor → ManagedProcess → Bool × Supervisor
commit_spawned_process s p = persist_runtime (record s {
  runtime = record (s.runtime) { process = some (record_of p); launch_pending = none };
  launch_pending_clear_requested = true;
  process = some p;
})

unfoldable pub abort_launch : Supervisor → Bool × Supervisor
abort_launch s =
    if not (launch_is_pending s) && not s.launch_pending_clear_requested
    then (true, s)
    else persist_runtime
        (record (set_launch_pending s none) { launch_pending_clear_requested = true })
