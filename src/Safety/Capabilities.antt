-- ===== src/Safety/Capabilities.antt =====
-- The action capabilities of a status against the guards of the handlers
-- (rust/src/supervisor/mod.rs, `action_capabilities`).
use open_code_server.Base.{
  Bool, true, false, not, ◌≡◌, ◌⊎◌, refl, Option, none, some, Result, ok, err, arith, is_some_and,
  if◌then◌else◌,
}
use open_code_server.Protocol.{is_stop_phase}
use open_code_server.World.{IoError}
use open_code_server.Process.Cleanup.{sigkill}
use open_code_server.Process.Managed.{ManagedProcess, signal, signal_authorized}
use open_code_server.Supervisor.State.{
  Supervisor, Message, CommandError, command_error, has_process,
}
use open_code_server.Supervisor.Durability.{runtime_state_ready, CommandResult}
use open_code_server.Supervisor.Lifecycle.{
  start_refusal, continue_stop, force_stop, kill_process, after_kill,
}
use open_code_server.Supervisor.Capabilities.{action_capabilities, lifecycle_persistence_ready}

-- Where the start is offered, no OpenCode is managed, no guard of the start refuses it, and the
-- runtime state is ready for a launch.
pub start_offered :
    (s : Supervisor)
    → (action_capabilities s).start ≡ true
    → (has_process s ≡ false) × (start_refusal s ≡ none) × ((runtime_state_ready s).0 ≡ true)
unfolding action_capabilities lifecycle_persistence_ready runtime_state_ready
start_offered s h = (ground arith, ground arith, ground arith)

-- Where the restart is offered, no guard of the restart refuses it, the runtime state is ready, and a
-- managed process may be signalled.
pub restart_offered :
    (s : Supervisor)
    → (action_capabilities s).restart ≡ true
    → (start_refusal s ≡ none)
      × ((runtime_state_ready s).0 ≡ true)
      × ((has_process s ≡ false) ⊎ (is_some_and s.process signal_authorized ≡ true))
unfolding action_capabilities lifecycle_persistence_ready runtime_state_ready
restart_offered s h = (ground arith, ground arith, ground arith)

abbrev pub is_ok : CommandResult → Bool
is_ok (ok _, s) = true
is_ok (err e, s) = false

-- Waiting for a stop that timed out succeeds exactly where the status offers it.
pub continue_stop_offered :
    (s : Supervisor) → is_ok (continue_stop s) ≡ (action_capabilities s).continue_stop
unfolding continue_stop action_capabilities
continue_stop_offered s = ground arith

-- The answer to the signal that was sent to the managed process: its error is the command's.
abbrev pub FromSignal : Result IoError (Unit {0}) → Result CommandError (Unit {0}) → Type 0
FromSignal (ok _) answer = answer ≡ ok tt
FromSignal (err io) answer = answer ≡ err (command_error io.kind (Message.os_error io.text))

-- SIGKILL was requested for the managed process, and its answer is the command's.
abbrev pub FromSystem : Supervisor → CommandResult → Type 0
FromSystem s (answer, s') =
    (p : ManagedProcess) × (s.process ≡ some p)
    × (s'.world ≡ (signal s.world p sigkill).1)
    × FromSignal (signal s.world p sigkill).0 answer

after_kill-FromSignal :
    (sent : Result IoError (Unit {0})) (s : Supervisor)
    → ((after_kill sent s).1.world ≡ s.world) × FromSignal sent (after_kill sent s).0
unfolding after_kill
after_kill-FromSignal (ok _) s = (refl, refl)
after_kill-FromSignal (err io) s = (refl, refl)

kill-FromSystem :
    (p : Option ManagedProcess) (s : Supervisor)
    → s.process ≡ p
    → is_some_and p signal_authorized ≡ true
    → FromSystem s (kill_process p s)
unfolding kill_process
kill-FromSystem none s e h = cc
kill-FromSystem (some p) s e h =
    let (same, answer) =
      after_kill-FromSignal (signal s.world p sigkill).0
        (record s { world = (signal s.world p sigkill).1 }) in
    (p, e, same, answer)

guarded-FromSystem :
    (open' : Bool) (s : Supervisor) (x y : CommandResult)
    → open' ≡ true
    → FromSystem s x
    → FromSystem s (if not open' then y else x)
guarded-FromSystem true s x y e h = h
guarded-FromSystem false s x y e h = cc

-- Where the forced stop is offered, its guards do not refuse it: a process is managed, the command
-- asks for SIGKILL for it and does nothing else outside the agent, and it succeeds exactly where that
-- request does, whose error is otherwise the command's, with its kind and its text.
pub force_stop_offered :
    (s : Supervisor) → (action_capabilities s).force_stop ≡ true → FromSystem s (force_stop s)
unfolding action_capabilities force_stop
force_stop_offered s h =
    guarded-FromSystem (is_stop_phase s.server_state) s (kill_process s.process s) _ (ground arith)
      (kill-FromSystem s.process s refl (ground arith))
