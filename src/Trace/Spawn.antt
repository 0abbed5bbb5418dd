-- ===== src/Trace/Spawn.antt =====
-- The price of a launch (rust/src/process.rs, `spawn_impl`; rust/src/process_cleanup.rs).
use open_code_server.Base.{
  ℕ, zero, suc, String, Bool, true, false, ◌≡◌, refl, ◌∙◌, inl, inr, Option, none, some, Result, ok,
  err, arith, leb, Bool-cases,
}
use open_code_server.Config.{ValidatedConfig, ConfigFingerprint}
use open_code_server.RuntimeState.{ProcessRecord}
use open_code_server.World.{World, Call, IoError, ExitReason, ProcessSnapshot, push, now}
use open_code_server.Process.Group.{GroupObservation, observe_owned}
use open_code_server.Process.Cleanup.{PendingGroupCleanup, pending_cleanup, sigterm}
use open_code_server.Process.Spawn.{
  UnregisteredChildShutdown, Round, Unconfirmed, group_round, leader_round, shutdown_round,
  shutdown_loop, Looped, Confirmed, after_round, after_attempt, after_shutdown,
  shutdown_unregistered_child, shutdown_fuel, survivor_record, settled, observed, wait_for_snapshot,
  terminate_unconfirmed_child, record_from_snapshot, confirm_spawn, launched, available, spawn,
}
use open_code_server.Trace.Score.{Tariff, total, score, FreeTerm, FreeLaunch, is_marked}
use open_code_server.Trace.Process.{observe_owned-score, signal_owned-score, executable_is-score}

-- The world in which a round ends.
abbrev round_world : Round → World
round_world (Round.finish shutdown w) = w
round_world (Round.again cleanup requested w) = w

-- The loop added no cost, if it returned.
abbrev Costless : Tariff → World → Looped → Type 0
Costless c w none = Unit {0}
Costless c w (some (shutdown, w')) = score c w' ≡ score c w

Costless-trans :
    (c : Tariff) (w w' : World) (o : Looped)
    → score c w' ≡ score c w
    → Costless c w' o
    → Costless c w o
Costless-trans c w w' none h k = tt
Costless-trans c w w' (some (shutdown, w'')) h k = k ∙ h

module _ (c : Tariff) (free : FreeTerm c) where
  group_round-score :
      (o : Result IoError GroupObservation) (p : PendingGroupCleanup) (requested : Bool) (w : World)
      (r : ProcessRecord) (pid : ℕ)
      → score c (round_world (group_round o p requested w r pid)) ≡ score c w
  unfolding group_round total
  group_round-score o p requested w r pid =
      ground (arith, signal_owned-score c sigterm free w r pid true)

  leader_round-score :
      (exit : Result IoError (Option ExitReason)) (requested : Bool) (w : World) (r : ProcessRecord)
      (pid : ℕ)
      → score c (round_world (leader_round exit requested w r pid)) ≡ score c w
  unfolding leader_round total
  leader_round-score (err e) requested w r pid = refl
  leader_round-score (ok (some exit)) requested w r pid =
      group_round-score (observe_owned w r pid).0 (pending_cleanup exit) requested
        (observe_owned w r pid).1 r pid
      ∙ observe_owned-score c w r pid
  leader_round-score (ok none) requested w r pid =
      ground (arith, signal_owned-score c sigterm free w r pid false)

  shutdown_round-score :
      (cleanup : Option PendingGroupCleanup) (requested : Bool) (w : World) (r : ProcessRecord)
      (pid : ℕ)
      → score c (round_world (shutdown_round cleanup requested w r pid)) ≡ score c w
  unfolding shutdown_round total
  shutdown_round-score (some p) requested w r pid =
      group_round-score (observe_owned w r pid).0 p requested (observe_owned w r pid).1 r pid
      ∙ observe_owned-score c w r pid
  shutdown_round-score none requested w r pid =
      leader_round-score (w.peek_exit w.trace pid) requested (push w Call.read) r pid

  after_round-Costless :
      (x : Round) (deadline : ℕ) (next : Option PendingGroupCleanup → Bool → World → Looped)
      (w : World)
      → score c (round_world x) ≡ score c w
      → ((cleanup : Option PendingGroupCleanup) (requested : Bool) (w' : World)
          → Costless c w' (next cleanup requested w'))
      → Costless c w (after_round x deadline next)
  unfolding after_round total
  after_round-Costless (Round.finish shutdown w') deadline next w h k = h
  after_round-Costless (Round.again cleanup requested w') deadline next w h k =
      elim (Bool-cases (leb deadline (now w').0)) [
        | inl late ↦ rw (late, after_round) h
        | inr early ↦
            rw (early, after_round)
              (Costless-trans c w (push (now w').1 (Call.slept 10)) _ h (k _ _ _))
      ]

  shutdown_loop-Costless :
      (fuel deadline : ℕ) (cleanup : Option PendingGroupCleanup) (requested : Bool) (w : World)
      (r : ProcessRecord) (pid : ℕ)
      → Costless c w (shutdown_loop fuel deadline cleanup requested w r pid)
  unfolding shutdown_loop
  shutdown_loop-Costless zero deadline cleanup requested w r pid = tt
  shutdown_loop-Costless (suc fuel) deadline cleanup requested w r pid =
      after_round-Costless (shutdown_round cleanup requested w r pid) deadline
        (λ cleanup' requested' w'. shutdown_loop fuel deadline cleanup' requested' w' r pid) w
        (shutdown_round-score cleanup requested w r pid)
        (λ cleanup' requested' w'.
          shutdown_loop-Costless fuel deadline cleanup' requested' w' r pid)

  survivor_record-score :
      (w : World) (pid : ℕ) (s : Option ProcessSnapshot) (config : ValidatedConfig)
      (fingerprint : ConfigFingerprint)
      → score c (survivor_record w pid s config fingerprint).1 ≡ score c w
  unfolding survivor_record total
  survivor_record-score w pid s config fingerprint = ground arith

  after_shutdown-score :
      (o : Looped) (pid : ℕ) (r : ProcessRecord) (e : IoError) (w : World)
      → Costless c w o
      → score c (after_shutdown o pid r e w).1 ≡ score c w
  after_shutdown-score none pid r e w h = refl
  after_shutdown-score (some (UnregisteredChildShutdown.reaped exit, w')) pid r e w h = h
  after_shutdown-score (some (UnregisteredChildShutdown.survived cleanup, w')) pid r e w h = h

  shutdown-Costless :
      (w : World) (r : ProcessRecord) (pid : ℕ) → Costless c w (shutdown_unregistered_child w r pid)
  unfolding shutdown_unregistered_child total
  shutdown-Costless w r pid =
      Costless-trans c w (now w).1 _ refl
        (shutdown_loop-Costless shutdown_fuel _ none false (now w).1 r pid)

  terminate_unconfirmed_child-score :
      (w : World) (pid : ℕ) (error : IoError) (s : Option ProcessSnapshot)
      (config : ValidatedConfig) (fingerprint : ConfigFingerprint)
      → score c (terminate_unconfirmed_child w pid error s config fingerprint).1 ≡ score c w
  unfolding terminate_unconfirmed_child
  terminate_unconfirmed_child-score w pid error s config fingerprint =
      let (r, w') = survivor_record w pid s config fingerprint in
      after_shutdown-score (shutdown_unregistered_child w' r pid) pid r error w'
        (shutdown-Costless w' r pid)
      ∙ survivor_record-score w pid s config fingerprint

module _ (c : Tariff) where
  settled-score :
      (s : Result IoError ProcessSnapshot) (w : World) (expected : String) (seen : Unconfirmed)
      → score c (settled s w expected seen).1 ≡ score c w
  unfolding settled total
  settled-score (err e) w expected seen = refl
  settled-score (ok s) w expected seen =
      ground (arith, executable_is-score c w s.executable expected)

  observed-score :
      (s : Result IoError ProcessSnapshot) (w : World) (pid : ℕ) (expected : String)
      (seen : Unconfirmed)
      → score c (observed s w pid expected seen).1 ≡ score c w
  unfolding observed total
  observed-score (err e) w pid expected seen = refl
  observed-score (ok s) w pid expected seen = grind (arith, executable_is-score, settled-score)

  after_attempt-score :
      (x : Confirmed) (next : Unconfirmed → World → Confirmed) (w : World)
      → score c x.1 ≡ score c w
      → ((seen : Unconfirmed) (w' : World) → score c (next seen w').1 ≡ score c w')
      → score c (after_attempt x next).1 ≡ score c w
  unfolding after_attempt
  after_attempt-score (ok s, w') next w h k = h
  after_attempt-score (err seen, w') next w h k = k seen w' ∙ h

  wait_for_snapshot-score :
      (rounds : ℕ) (w : World) (pid : ℕ) (expected : String) (seen : Unconfirmed)
      → score c (wait_for_snapshot rounds w pid expected seen).1 ≡ score c w
  unfolding wait_for_snapshot total
  wait_for_snapshot-score zero w pid expected seen = refl
  wait_for_snapshot-score (suc rounds) w pid expected seen =
      after_attempt-score (observed (w.snapshot w.trace pid) (push w Call.read) pid expected seen)
        (λ seen' w'. wait_for_snapshot rounds w' pid expected seen') w
        (observed-score (w.snapshot w.trace pid) (push w Call.read) pid expected seen)
        (λ seen' w'. wait_for_snapshot-score rounds w' pid expected seen')

module _ (c : Tariff) (free : FreeTerm c) (launch : FreeLaunch c) where
  confirm_spawn-score :
      (s : Result Unconfirmed ProcessSnapshot) (w : World) (pid : ℕ) (config : ValidatedConfig)
      (version : Option String) (fingerprint : ConfigFingerprint)
      → score c (confirm_spawn s w pid config version fingerprint).1 ≡ score c w
  unfolding confirm_spawn record_from_snapshot total
  confirm_spawn-score s w pid config version fingerprint =
      grind (arith, terminate_unconfirmed_child-score)

  launched-score :
      (pid : Result IoError ℕ) (w : World) (config : ValidatedConfig) (version : Option String)
      (fingerprint : ConfigFingerprint)
      → is_marked w.trace ≡ true
      → score c (launched pid w config version fingerprint).1 ≡ score c w
  unfolding launched total
  launched-score (err e) w config version fingerprint h = refl
  launched-score (ok pid) w config version fingerprint h =
      let start : Unconfirmed = record { last_error = none; last_snapshot = none } in
      ground (
        arith,
        launch w.trace h,
        confirm_spawn-score
            (wait_for_snapshot 20 (push w (Call.spawned pid)) pid config.canonical_executable
              start).0
            (wait_for_snapshot 20 (push w (Call.spawned pid)) pid config.canonical_executable
              start).1
            pid config version fingerprint,
        wait_for_snapshot-score c 20 (push w (Call.spawned pid)) pid config.canonical_executable
            start,
      )

  available-score :
      (endpoint : Result IoError (Unit {0})) (w : World) (config : ValidatedConfig)
      (version : Option String) (fingerprint : ConfigFingerprint)
      → is_marked w.trace ≡ true
      → score c (available endpoint w config version fingerprint).1 ≡ score c w
  unfolding available
  available-score (err e) w config version fingerprint h = refl
  available-score (ok _) w config version fingerprint h =
      launched-score (w.launch w.trace config) w config version fingerprint h

  pub spawn-score :
      (w : World) (config : ValidatedConfig) (version : Option String)
      (fingerprint : ConfigFingerprint)
      → is_marked w.trace ≡ true
      → score c (spawn w config version fingerprint).1 ≡ score c w
  unfolding spawn total
  spawn-score w config version fingerprint h =
      available-score (w.endpoint w.trace config) (push w Call.read) config version fingerprint h
