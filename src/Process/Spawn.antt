-- ===== src/Process/Spawn.antt =====
-- Launching OpenCode and confirming its identity (rust/src/process.rs, `spawn_impl`), and the bounded
-- graceful stop of a child that could not be confirmed (rust/src/process_cleanup.rs).
use open_code_server.Base.{
  ℕ, zero, suc, String, Bool, true, false, not, ◌&&◌, ◌+◌, Option, none, some, Result, ok, err,
  ◌==◌, leb, if◌then◌else◌, unwrap_or, is_none_or,
}
use open_code_server.Config.{ValidatedConfig, ConfigFingerprint}
use open_code_server.RuntimeState.{ProcessRecord}
use open_code_server.World.{
  World, IoError, ErrorKind, ExitReason, ProcessSnapshot, Call, io_error, ask, push, now,
}
use open_code_server.Process.Group.{GroupObservation, observe_owned, signal_owned}
use open_code_server.Process.Cleanup.{
  PendingGroupCleanup, pending_cleanup, refuse_signals, mark_terminate_requested, sigterm,
}
use open_code_server.Process.Managed.{ManagedProcess, executable_is}

pub data UnregisteredChildShutdown : Type 0 where
  reaped : ExitReason → UnregisteredChildShutdown
  survived : Option PendingGroupCleanup → UnregisteredChildShutdown

-- What one round of the loop does: it returns, or it goes on with its two variables.
pub data Round : Type 0 where
  finish : UnregisteredChildShutdown → World → Round
  again : Option PendingGroupCleanup → Bool → World → Round

abbrev pub reap_round : Result IoError ExitReason → Option PendingGroupCleanup → World → Round
reap_round (ok exit) kept w = Round.finish (UnregisteredChildShutdown.reaped exit) w
reap_round (err e) kept w = Round.finish (UnregisteredChildShutdown.survived kept) w

abbrev pub reap_child : World → ℕ → PendingGroupCleanup → Round
reap_child w pid p = let (status, w') = ask w (λ t. w.wait t pid) in reap_round status (some p) w'

abbrev pub signalled_round : Result IoError (Unit {0}) → PendingGroupCleanup → Bool → World → Round
signalled_round (ok _) p requested w = Round.again (some (mark_terminate_requested p)) requested w
signalled_round (err e) p requested w =
    Round.finish (UnregisteredChildShutdown.survived (some (refuse_signals p))) w

unfoldable pub group_round :
    Result IoError GroupObservation → PendingGroupCleanup → Bool → World → ProcessRecord → ℕ → Round
group_round (err e) p requested w r pid =
    Round.finish (UnregisteredChildShutdown.survived (some (refuse_signals p))) w
group_round (ok GroupObservation.no_members) p requested w r pid = reap_child w pid p
group_round (ok GroupObservation.has_members) p requested w r pid =
    if p.signal_allowed && not p.terminate_requested
    then (let (sent, w') = signal_owned w r pid true sigterm in signalled_round sent p requested w')
    else Round.again (some p) requested w

abbrev pub first_signal_round : Result IoError (Unit {0}) → World → Round
first_signal_round (ok _) w = Round.again none true w
first_signal_round (err e) w = Round.finish (UnregisteredChildShutdown.survived none) w

unfoldable pub leader_round :
    Result IoError (Option ExitReason) → Bool → World → ProcessRecord → ℕ → Round
unfolding group_round
leader_round (err e) requested w r pid = Round.finish (UnregisteredChildShutdown.survived none) w
leader_round (ok (some exit)) requested w r pid =
    let (o, w') = observe_owned w r pid in group_round o (pending_cleanup exit) requested w' r pid
leader_round (ok none) requested w r pid =
    if requested
    then Round.again none requested w
    else (let (sent, w') = signal_owned w r pid false sigterm in first_signal_round sent w')

unfoldable pub shutdown_round :
    Option PendingGroupCleanup → Bool → World → ProcessRecord → ℕ → Round
unfolding leader_round
shutdown_round (some p) requested w r pid =
    let (o, w') = observe_owned w r pid in group_round o p requested w' r pid
shutdown_round none requested w r pid =
    let (exit, w') = ask w (λ t. w.peek_exit t pid) in leader_round exit requested w' r pid

abbrev pub Looped : Type 0
Looped = Option (UnregisteredChildShutdown × World)

-- After a round: the deadline is read, and the loop goes on after a sleep of 10 ms.
unfoldable pub after_round :
    Round → ℕ → (Option PendingGroupCleanup → Bool → World → Looped) → Looped
after_round (Round.finish shutdown w) deadline next = some (shutdown, w)
after_round (Round.again cleanup requested w) deadline next = elim (leb deadline (now w).0) [
  | true ↦ some (UnregisteredChildShutdown.survived cleanup, (now w).1)
  | false ↦ next cleanup requested (push (now w).1 (Call.slept 10))
]

-- The loop, on fuel: `none` means that the fuel ran out.
unfoldable pub shutdown_loop :
    ℕ → ℕ → Option PendingGroupCleanup → Bool → World → ProcessRecord → ℕ → Looped
unfolding after_round
shutdown_loop zero deadline cleanup requested w r pid = none
shutdown_loop (suc fuel) deadline cleanup requested w r pid =
    after_round (shutdown_round cleanup requested w r pid) deadline
      (λ cleanup' requested' w'. shutdown_loop fuel deadline cleanup' requested' w' r pid)

abbrev pub unregistered_child_stop_grace : ℕ
unregistered_child_stop_grace = 2000

-- A round that does not return sleeps for 10 ms, so that 2 s leave room for 201 rounds.
abbrev pub shutdown_fuel : ℕ
shutdown_fuel = 202

unfoldable pub shutdown_unregistered_child : World → ProcessRecord → ℕ → Looped
shutdown_unregistered_child w r pid =
    let (start, w') = now w in
    shutdown_loop shutdown_fuel (start + unregistered_child_stop_grace) none false w' r pid

-- A failed start: the error, and the child that could not be stopped.
pub record SpawnError : Type 0 where
  pub error : IoError
  pub survivor : Option ManagedProcess

abbrev without_process : IoError → SpawnError
without_process e = record { error = e; survivor = none }

unfoldable pub record_from_snapshot :
    World
    → ProcessSnapshot
    → ValidatedConfig
    → Option String
    → ConfigFingerprint
    → ProcessRecord × World
record_from_snapshot w s config running_version fingerprint =
    let (seconds, w') = ask w w.unix_seconds in
    (
      record {
        pid = s.pid;
        process_group_id = s.process_group_id;
        start_seconds = s.start_seconds;
        start_microseconds = s.start_microseconds;
        executable = unwrap_or s.executable config.canonical_executable;
        started_at_unix_seconds = seconds;
        running_version = running_version;
        config_fingerprint = fingerprint;
        identity_unconfirmed = false;
      },
      w',
    )

abbrev start_of : Bool → Option ProcessSnapshot → ℕ × ℕ
start_of true s = (0, 0)
start_of false none = (0, 0)
start_of false (some s) = (s.start_seconds, s.start_microseconds)

unfoldable pub survivor_record :
    World → ℕ → Option ProcessSnapshot → ValidatedConfig → ConfigFingerprint → ProcessRecord × World
survivor_record w pid last_snapshot config fingerprint =
    let unconfirmed = is_none_or last_snapshot (λ s. not (s.process_group_id == pid)) in
    let (start_seconds, start_microseconds) = start_of unconfirmed last_snapshot in
    let (seconds, w') = ask w w.unix_seconds in
    (
      record {
        pid = pid;
        process_group_id = pid;
        start_seconds = start_seconds;
        start_microseconds = start_microseconds;
        executable = config.canonical_executable;
        started_at_unix_seconds = seconds;
        running_version = none;
        config_fingerprint = fingerprint;
        identity_unconfirmed = unconfirmed;
      },
      w',
    )

-- The last error and snapshot that the confirmation saw.
pub record Unconfirmed : Type 0 where
  pub last_error : Option IoError
  pub last_snapshot : Option ProcessSnapshot

abbrev wrong_executable : IoError
wrong_executable =
    io_error ErrorKind.other "spawned process executable does not match the configured target"

abbrev wrong_after_settle : IoError
wrong_after_settle =
    io_error ErrorKind.other
      "spawned process executable does not match the configured target after identity settle"

-- One of the 20 attempts: a confirmed snapshot, or what it adds to the evidence.
unfoldable pub settled :
    Result IoError ProcessSnapshot
    → World
    → String
    → Unconfirmed
    → Result Unconfirmed ProcessSnapshot × World
settled (err e) w expected seen = (err (record seen { last_error = some e }), w)
settled (ok s) w expected seen =
    let (matches, w') = executable_is w s.executable expected in
    if matches
    then (ok s, w')
    else (err (record { last_error = some wrong_after_settle; last_snapshot = some s }), w')

unfoldable pub observed :
    Result IoError ProcessSnapshot
    → World
    → ℕ
    → String
    → Unconfirmed
    → Result Unconfirmed ProcessSnapshot × World
unfolding settled
observed (err e) w pid expected seen =
    (err (record seen { last_error = some e }), push w (Call.slept 10))
observed (ok s) w pid expected seen =
    let (matches, w') = executable_is w s.executable expected in
    if matches
    then (let w1 = push w' (Call.slept 25) in
        let (second, w2) = ask w1 (λ t. w1.snapshot t pid) in settled second w2 expected seen)
    else (
      err (record { last_error = some wrong_executable; last_snapshot = some s }),
      push w' (Call.slept 10),
    )

abbrev pub Confirmed : Type 0
Confirmed = Result Unconfirmed ProcessSnapshot × World

unfoldable pub after_attempt : Confirmed → (Unconfirmed → World → Confirmed) → Confirmed
after_attempt (ok s, w) next = (ok s, w)
after_attempt (err seen, w) next = next seen w

unfoldable pub wait_for_snapshot : ℕ → World → ℕ → String → Unconfirmed → Confirmed
unfolding after_attempt
wait_for_snapshot zero w pid expected seen = (err seen, w)
wait_for_snapshot (suc rounds) w pid expected seen =
    let (s, w1) = ask w (λ t. w.snapshot t pid) in
    after_attempt (observed s w1 pid expected seen)
      (λ seen' w'. wait_for_snapshot rounds w' pid expected seen')

abbrev pub after_shutdown :
    Option (UnregisteredChildShutdown × World)
    → ℕ
    → ProcessRecord
    → IoError
    → World
    → SpawnError × World
after_shutdown none pid r e w =
    (record { error = e; survivor = some (ManagedProcess.child pid r none false) }, w)
after_shutdown (some (UnregisteredChildShutdown.reaped exit, w')) pid r e w =
    (record { error = e; survivor = none }, w')
after_shutdown (some (UnregisteredChildShutdown.survived cleanup, w')) pid r e w =
    (record { error = e; survivor = some (ManagedProcess.child pid r cleanup false) }, w')

unfoldable pub terminate_unconfirmed_child :
    World
    → ℕ
    → IoError
    → Option ProcessSnapshot
    → ValidatedConfig
    → ConfigFingerprint
    → SpawnError × World
terminate_unconfirmed_child w pid error last_snapshot config fingerprint =
    let (r, w') = survivor_record w pid last_snapshot config fingerprint in
    after_shutdown (shutdown_unregistered_child w' r pid) pid r error w'

abbrev pub Spawned : Type 0
Spawned = Result SpawnError ManagedProcess × World

abbrev refuse_spawn : SpawnError × World → Spawned
refuse_spawn (e, w) = (err e, w)

abbrev accept_spawn : ℕ → ProcessRecord × World → Spawned
accept_spawn pid (r, w) = (ok (ManagedProcess.child pid r none false), w)

abbrev not_in_group : IoError
not_in_group = io_error ErrorKind.other "OpenCode did not enter its dedicated process group"

abbrev uninspectable : IoError
uninspectable = io_error ErrorKind.other "unable to inspect spawned process"

unfoldable pub confirm_spawn :
    Result Unconfirmed ProcessSnapshot
    → World
    → ℕ
    → ValidatedConfig
    → Option String
    → ConfigFingerprint
    → Spawned
confirm_spawn (err seen) w pid config version fingerprint = refuse_spawn (
    terminate_unconfirmed_child w pid (unwrap_or seen.last_error uninspectable) seen.last_snapshot
      config fingerprint)
confirm_spawn (ok s) w pid config version fingerprint =
    if not (s.process_group_id == pid)
    then refuse_spawn (terminate_unconfirmed_child w pid not_in_group (some s) config fingerprint)
    else accept_spawn pid (record_from_snapshot w s config version fingerprint)

unfoldable pub launched :
    Result IoError ℕ → World → ValidatedConfig → Option String → ConfigFingerprint → Spawned
unfolding confirm_spawn
launched (err e) w config version fingerprint = (err (without_process e), push w Call.read)
launched (ok pid) w config version fingerprint =
    let (answer, w') =
      wait_for_snapshot 20 (push w (Call.spawned pid)) pid config.canonical_executable
        (record { last_error = none; last_snapshot = none }) in
    confirm_spawn answer w' pid config version fingerprint

unfoldable pub available :
    Result IoError (Unit {0})
    → World
    → ValidatedConfig
    → Option String
    → ConfigFingerprint
    → Spawned
unfolding launched
available (err e) w config version fingerprint = (err (without_process e), w)
available (ok _) w config version fingerprint =
    launched (w.launch w.trace config) w config version fingerprint

unfoldable pub spawn : World → ValidatedConfig → Option String → ConfigFingerprint → Spawned
unfolding available
spawn w config version fingerprint =
    let (endpoint, w') = ask w (λ t. w.endpoint t config) in
    available endpoint w' config version fingerprint
