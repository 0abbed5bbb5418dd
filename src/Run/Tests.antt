-- ===== src/Run/Tests.antt =====
-- Runs of the concrete agent.
use open_code_server.Base.{◌+◌, ◌≡◌, ◌≤◌, List, [], ◌∷◌}
use open_code_server.Protocol.{Command}
use open_code_server.Run.{Event, run, force_stops, kills, unmarked_launches}
use open_code_server.Run.Scenario.{idle}
use open_code_server.Run.Laws.{run-kills, run-unmarked}

abbrev session : List Event
session =
    Event.command Command.start
    ∷ Event.turn
    ∷ Event.child_exit
    ∷ Event.config_changed
    ∷ Event.command Command.stop
    ∷ Event.turn
    ∷ []

run-kills_example :
    kills (run idle session).world.trace ≤ force_stops session + kills idle.world.trace
run-kills_example = run-kills idle session

run-unmarked_example :
    unmarked_launches (run idle session).world.trace ≡ unmarked_launches idle.world.trace
run-unmarked_example = run-unmarked idle session
