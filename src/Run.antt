-- ===== src/Run.antt =====
-- The supervisor's life as a sequence of events (rust/src/bin/agent.rs calls `tick`,
-- `poll_process_now`, `refresh_config_now` and `handle` of rust/src/supervisor/mod.rs, one at a time):
-- turns of the event loop, reported exits and changes of the configuration, commands, and changes of
-- everything outside the agent.
pub mod Laws
pub mod Scenario
mod Tests
use open_code_server.Base.{ℕ, Bool, true, false, ◌+◌, ◌==◌, List, [], ◌∷◌, if◌then◌else◌}
use open_code_server.Protocol.{Command}
use open_code_server.World.{Services, Call}
use open_code_server.Process.Cleanup.{sigkill}
use open_code_server.Supervisor.State.{Supervisor}
use open_code_server.Supervisor.Tick.{tick, poll_process_now, refresh_config_now, handle}
use open_code_server.Trace.Score.{Tariff, total, is_marked}

pub data Event : Type 0 where
  -- A turn of the event loop: the polling of everything that is due.
  turn : Event
  -- The kernel reports the exit of the watched child, or cannot watch it.
  child_exit : Event
  -- The configuration's file has changed, or SIGHUP asks for it.
  config_changed : Event
  command : Command → Event
  -- Any change of the rest of the system, the clock included.
  environment : Services → Event

unfoldable pub step : Supervisor → Event → Supervisor
step s Event.turn = tick s
step s Event.child_exit = poll_process_now s
step s Event.config_changed = refresh_config_now s
step s (Event.command c) = (handle s c).1
step s (Event.environment services) = record s { world = record (s.world) { services = services } }

unfoldable pub run : Supervisor → List Event → Supervisor
unfolding step
run s [] = s
run s (event ∷ events) = run (step s event) events

abbrev pub is_force_stop : Command → Bool
is_force_stop Command.force_stop = true
is_force_stop _ = false

abbrev pub forces : Event → ℕ
forces (Event.command c) = if is_force_stop c then 1 else 0
forces _ = 0

-- The number of forced stops among the events.
unfoldable pub force_stops : List Event → ℕ
force_stops [] = 0
force_stops (event ∷ events) = forces event + force_stops events

abbrev pub kill_tariff : Tariff
kill_tariff = record {
  on_signal = λ group number. if number == sigkill then 1 else 0;
  on_spawn = λ t. 0;
}

-- The number of SIGKILLs in a trace, which has the signals that the supervisor sends, not those of the
-- version query to its own subprocess.
abbrev pub kills : List Call → ℕ
kills t = total kill_tariff t

abbrev pub unmarked_tariff : Tariff
unmarked_tariff = record {
  on_signal = λ group number. 0;
  on_spawn = λ t. if is_marked t then 0 else 1;
}

-- The number of launches in a trace that the sync of a launch marker does not precede.
abbrev pub unmarked_launches : List Call → ℕ
unmarked_launches t = total unmarked_tariff t

abbrev pub launch_tariff : Tariff
launch_tariff = record { on_signal = λ group number. 0; on_spawn = λ t. 1 }

-- The number of launches in a trace.
abbrev pub launches : List Call → ℕ
launches t = total launch_tariff t
