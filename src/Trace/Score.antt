-- ===== src/Trace/Score.antt =====
-- A price for each signal and each launch in a trace; all other calls are free.
use open_code_server.Base.{is_some_and, ℕ, ◌+◌, ◌≡◌, Bool, true, false, is_some, List, [], ◌∷◌}
use open_code_server.World.{World, Call}
use open_code_server.Process.Cleanup.{sigterm}

pub record Tariff : Type 0 where
  -- A signal: its group and its number.
  pub on_signal : ℕ → ℕ → ℕ
  -- A launch: the calls before it.
  pub on_spawn : List Call → ℕ

unfoldable pub total : Tariff → List Call → ℕ
total c [] = 0
total c (Call.read ∷ t) = total c t
total c (Call.storage step ∷ t) = total c t
total c (Call.renamed found ∷ t) = total c t
total c (Call.synced found ∷ t) = total c t
total c (Call.spawned pid ∷ t) = c.on_spawn t + total c t
total c (Call.signaled group number ∷ t) = c.on_signal group number + total c t
total c (Call.slept milliseconds ∷ t) = total c t
total c (Call.worker ∷ t) = total c t
total c (Call.marker ∷ t) = total c t

abbrev pub score : Tariff → World → ℕ
score c w = total c w.trace

-- A tariff under which SIGTERM is free.
abbrev pub FreeTerm : Tariff → Type 0
FreeTerm c = (group : ℕ) → c.on_signal group sigterm ≡ 0

-- A tariff under which a launch is free.
abbrev pub FreeSpawn : Tariff → Type 0
FreeSpawn c = (t : List Call) → c.on_spawn t ≡ 0

-- The last call that changed anything was the sync of a state file with a launch marker.
abbrev pub is_marked : List Call → Bool
is_marked (Call.read ∷ t) = is_marked t
is_marked (Call.synced found ∷ t) = is_some_and found (λ state. is_some state.launch_pending)
is_marked _ = false

-- A tariff under which a launch with a durable marker is free.
abbrev pub FreeLaunch : Tariff → Type 0
FreeLaunch c = (t : List Call) → is_marked t ≡ true → c.on_spawn t ≡ 0
