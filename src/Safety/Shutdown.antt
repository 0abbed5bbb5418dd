-- ===== src/Safety/Shutdown.antt =====
-- The bounded stop of a child that could not be confirmed (rust/src/process_cleanup.rs,
-- `shutdown_unregistered_child`).
use open_code_server.Base.{
  ℕ, zero, suc, Bool, true, false, not, ◌&&◌, ◌≡◌, refl, ap, ◌∙◌, ◌+◌, ◌*◌, ◌≤◌, ◌<◌, leb, List, [],
  ◌∷◌, Option, none, some, Result, ok, err, arith, is_some, if◌then◌else◌,
}
use open_code_server.RuntimeState.{ProcessRecord}
use open_code_server.World.{World, Call, IoError, ExitReason, push, now}
use open_code_server.Process.Group.{
  GroupObservation, observe_list, observe_listing, observe_members, observe_owned,
  validate_live_leader, signal_observed, signal_validated, signal_owned,
}
use open_code_server.Process.Cleanup.{PendingGroupCleanup, pending_cleanup, sigterm}
use open_code_server.Process.Spawn.{
  UnregisteredChildShutdown, Round, reap_round, signalled_round, first_signal_round, group_round,
  leader_round, shutdown_round, after_round, shutdown_loop, shutdown_fuel,
  shutdown_unregistered_child, unregistered_child_stop_grace, Looped,
}

-- The services are the same, and the clock has not gone back.
module _ (clock : List Call → ℕ)
    (forward : (c : Call) (t : List Call) → clock t ≤ clock (c ∷ t)) where
  observe_list-services :
      (w : World) (g : ℕ) (skip : Option ℕ) (pids : List ℕ) (seen : GroupObservation)
      → (observe_list w g skip pids seen).1.services ≡ w.services
  unfolding observe_list
  observe_list-services w g skip [] seen = refl
  observe_list-services w g skip (pid ∷ pids) seen =
      grind (
        arith,
        λ (w' : World) (seen' : GroupObservation). observe_list-services w' g skip pids seen',
      )

  observe_list-clock :
      (w : World) (g : ℕ) (skip : Option ℕ) (pids : List ℕ) (seen : GroupObservation)
      → clock w.trace ≤ clock (observe_list w g skip pids seen).1.trace
  unfolding observe_list
  observe_list-clock w g skip [] seen = omega arith
  observe_list-clock w g skip (pid ∷ pids) seen = grind (
    arith,
    forward Call.read w.trace,
    λ (w' : World) (seen' : GroupObservation). observe_list-clock w' g skip pids seen',
  )

  observe_members-services :
      (w : World) (g : ℕ) (skip : Option ℕ) → (observe_members w g skip).1.services ≡ w.services
  unfolding observe_members observe_listing
  observe_members-services w g skip = grind (arith, observe_list-services)

  observe_members-clock :
      (w : World) (g : ℕ) (skip : Option ℕ)
      → clock w.trace ≤ clock (observe_members w g skip).1.trace
  unfolding observe_members observe_listing
  observe_members-clock w g skip = grind (arith, forward Call.read w.trace, observe_list-clock)

  observe_owned-services :
      (w : World) (r : ProcessRecord) (pid : ℕ) → (observe_owned w r pid).1.services ≡ w.services
  unfolding observe_owned
  observe_owned-services w r pid = grind (arith, observe_members-services)

  observe_owned-clock :
      (w : World) (r : ProcessRecord) (pid : ℕ)
      → clock w.trace ≤ clock (observe_owned w r pid).1.trace
  unfolding observe_owned
  observe_owned-clock w r pid = grind (arith, observe_members-clock)

  validate-services :
      (w : World) (r : ProcessRecord) (pid : ℕ)
      → (validate_live_leader w r pid).1.services ≡ w.services
  unfolding validate_live_leader
  validate-services w r pid = ground arith

  validate-clock :
      (w : World) (r : ProcessRecord) (pid : ℕ)
      → clock w.trace ≤ clock (validate_live_leader w r pid).1.trace
  unfolding validate_live_leader
  validate-clock w r pid =
      ground (arith, forward Call.read w.trace, forward Call.read (Call.read ∷ w.trace))

  signal_validated-services :
      (w : World) (r : ProcessRecord) (pid number : ℕ) (valid : Result IoError (Unit {0}))
      → (signal_validated w r pid number valid).1.services ≡ w.services
  unfolding signal_validated signal_observed
  signal_validated-services w r pid number (err e) = refl
  signal_validated-services w r pid number (ok _) = grind (arith, observe_members-services)

  signal_validated-clock :
      (w : World) (r : ProcessRecord) (pid number : ℕ) (valid : Result IoError (Unit {0}))
      → clock w.trace ≤ clock (signal_validated w r pid number valid).1.trace
  unfolding signal_validated signal_observed
  signal_validated-clock w r pid number (err e) = omega arith
  signal_validated-clock w r pid number (ok _) = grind (arith, forward, observe_members-clock)

  signal_owned-services :
      (w : World) (r : ProcessRecord) (pid : ℕ) (exited : Bool) (number : ℕ)
      → (signal_owned w r pid exited number).1.services ≡ w.services
  unfolding signal_owned
  signal_owned-services w r pid exited number = ground (
    arith,
    signal_validated-services w r pid number (ok tt),
    signal_validated-services (validate_live_leader w r pid).1 r pid number
        (validate_live_leader w r pid).0,
    validate-services w r pid,
  )

  signal_owned-clock :
      (w : World) (r : ProcessRecord) (pid : ℕ) (exited : Bool) (number : ℕ)
      → clock w.trace ≤ clock (signal_owned w r pid exited number).1.trace
  unfolding signal_owned
  signal_owned-clock w r pid exited number = ground (
    arith,
    signal_validated-clock w r pid number (ok tt),
    signal_validated-clock (validate_live_leader w r pid).1 r pid number
        (validate_live_leader w r pid).0,
    validate-clock w r pid,
  )

  -- A round that goes on has the same services and a clock that has not gone back.
  abbrev Onward : World → Round → Type 0
  Onward w (Round.finish shutdown w') = Unit
  Onward w (Round.again cleanup requested w') =
      (w'.services ≡ w.services) × (clock w.trace ≤ clock w'.trace)

  -- What holds of a round holds of one that starts later.
  Onward-from :
      (w w' : World) (x : Round)
      → w'.services ≡ w.services
      → clock w.trace ≤ clock w'.trace
      → Onward w' x
      → Onward w x
  Onward-from w w' (Round.finish shutdown w'') e h k = tt
  Onward-from w w' (Round.again cleanup requested w'') e h (e', h') = (e' ∙ e, omega arith)

  reap_round-Onward :
      (status : Result IoError ExitReason) (kept : Option PendingGroupCleanup) (w w' : World)
      → Onward w (reap_round status kept w')
  reap_round-Onward (ok exit) kept w w' = tt
  reap_round-Onward (err e) kept w w' = tt

  signalled_round-Onward :
      (sent : Result IoError (Unit {0})) (p : PendingGroupCleanup) (requested : Bool) (w : World)
      → Onward w (signalled_round sent p requested w)
  signalled_round-Onward (ok _) p requested w = (refl, omega arith)
  signalled_round-Onward (err e) p requested w = tt

  terminate_round-Onward :
      (terminate : Bool) (p : PendingGroupCleanup) (requested : Bool) (w : World)
      (r : ProcessRecord) (pid : ℕ)
      → Onward w (
          if terminate
          then signalled_round
              (signal_owned w r pid true sigterm).0
              p
              requested
              (signal_owned w r pid true sigterm).1
          else Round.again (some p) requested w)
  terminate_round-Onward true p requested w r pid =
      Onward-from w (signal_owned w r pid true sigterm).1 _
        (signal_owned-services w r pid true sigterm) (signal_owned-clock w r pid true sigterm)
        (signalled_round-Onward (signal_owned w r pid true sigterm).0 p requested _)
  terminate_round-Onward false p requested w r pid = (refl, omega arith)

  group_round-Onward :
      (o : Result IoError GroupObservation) (p : PendingGroupCleanup) (requested : Bool) (w : World)
      (r : ProcessRecord) (pid : ℕ)
      → Onward w (group_round o p requested w r pid)
  unfolding group_round
  group_round-Onward (err e) p requested w r pid = tt
  group_round-Onward (ok GroupObservation.no_members) p requested w r pid =
      reap_round-Onward (w.wait w.trace pid) (some p) w (push w Call.read)
  group_round-Onward (ok GroupObservation.has_members) p requested w r pid =
      terminate_round-Onward (p.signal_allowed && not p.terminate_requested) p requested w r pid

  observed_round-Onward :
      (p : PendingGroupCleanup) (requested : Bool) (w : World) (r : ProcessRecord) (pid : ℕ)
      → Onward w (group_round (observe_owned w r pid).0 p requested (observe_owned w r pid).1 r pid)
  observed_round-Onward p requested w r pid =
      Onward-from w (observe_owned w r pid).1 _ (observe_owned-services w r pid)
        (observe_owned-clock w r pid)
        (group_round-Onward (observe_owned w r pid).0 p requested (observe_owned w r pid).1 r pid)

  first_signal-Onward :
      (sent : Result IoError (Unit {0})) (w : World) → Onward w (first_signal_round sent w)
  first_signal-Onward (ok _) w = (refl, omega arith)
  first_signal-Onward (err e) w = tt

  waiting_round-Onward :
      (requested : Bool) (w : World) (r : ProcessRecord) (pid : ℕ)
      → Onward w (
          if requested
          then Round.again none requested w
          else first_signal_round
              (signal_owned w r pid false sigterm).0
              (signal_owned w r pid false sigterm).1)
  waiting_round-Onward true w r pid = (refl, omega arith)
  waiting_round-Onward false w r pid =
      Onward-from w (signal_owned w r pid false sigterm).1 _
        (signal_owned-services w r pid false sigterm) (signal_owned-clock w r pid false sigterm)
        (first_signal-Onward (signal_owned w r pid false sigterm).0 _)

  leader_round-Onward :
      (exit : Result IoError (Option ExitReason)) (requested : Bool) (w : World) (r : ProcessRecord)
      (pid : ℕ)
      → Onward w (leader_round exit requested w r pid)
  unfolding leader_round
  leader_round-Onward (err e) requested w r pid = tt
  leader_round-Onward (ok (some exit)) requested w r pid =
      observed_round-Onward (pending_cleanup exit) requested w r pid
  leader_round-Onward (ok none) requested w r pid = waiting_round-Onward requested w r pid

  shutdown_round-Onward :
      (cleanup : Option PendingGroupCleanup) (requested : Bool) (w : World) (r : ProcessRecord)
      (pid : ℕ)
      → Onward w (shutdown_round cleanup requested w r pid)
  unfolding shutdown_round
  shutdown_round-Onward (some p) requested w r pid = observed_round-Onward p requested w r pid
  shutdown_round-Onward none requested w r pid =
      Onward-from w (push w Call.read) _ refl (forward Call.read w.trace)
        (leader_round-Onward (w.peek_exit w.trace pid) requested (push w Call.read) r pid)

  decided :
      (past : Bool) (y : UnregisteredChildShutdown × World) (next : Looped)
      → (past ≡ false → is_some next ≡ true)
      → is_some (elim past as (λ x. Looped) [ true ↦ some y | false ↦ next ]) ≡ true
  decided true y next k = refl
  decided false y next k = k refl

  after_round-ends :
      (w : World) (x : Round) (deadline : ℕ)
      (next : Option PendingGroupCleanup → Bool → World → Looped)
      → w.instant ≡ clock
      → ((t : List Call) → clock t + 10 ≤ clock (Call.slept 10 ∷ t))
      → Onward w x
      → ((cleanup : Option PendingGroupCleanup) (requested : Bool) (w' : World)
          → w'.instant ≡ clock
          → clock w.trace + 10 ≤ clock w'.trace
          → clock w.trace < deadline
          → is_some (next cleanup requested w') ≡ true)
      → is_some (after_round x deadline next) ≡ true
  unfolding after_round
  after_round-ends w (Round.finish shutdown w') deadline next e sleep o k = refl
  after_round-ends w (Round.again cleanup requested w') deadline next e sleep (svc, later) k =
      let same : w'.instant ≡ clock = ap (λ services. services.instant) svc ∙ e in
      let read : w'.instant w'.trace ≡ clock w'.trace = ap (λ f. f w'.trace) same in
      decided (leb deadline (w'.instant w'.trace)) _ _ (λ ahead.
        k cleanup requested (push (now w').1 (Call.slept 10)) same
          (ground (arith, later, forward Call.read w'.trace, sleep (Call.read ∷ w'.trace)))
          (ground (arith, later, read, ahead)))

  shutdown_loop-ends :
      (fuel deadline : ℕ) (cleanup : Option PendingGroupCleanup) (requested : Bool) (w : World)
      (r : ProcessRecord) (pid : ℕ)
      → w.instant ≡ clock
      → ((t : List Call) → clock t + 10 ≤ clock (Call.slept 10 ∷ t))
      → deadline + 10 ≤ clock w.trace + 10 * fuel
      → 1 ≤ fuel
      → is_some (shutdown_loop fuel deadline cleanup requested w r pid) ≡ true
  unfolding shutdown_loop
  shutdown_loop-ends zero deadline cleanup requested w r pid e sleep h some_fuel =
      ground (arith, some_fuel)
  shutdown_loop-ends (suc fuel) deadline cleanup requested w r pid e sleep h some_fuel =
      after_round-ends w (shutdown_round cleanup requested w r pid) deadline _ e sleep
        (shutdown_round-Onward cleanup requested w r pid)
        (λ cleanup' requested' w' same later ahead.
          shutdown_loop-ends fuel deadline cleanup' requested' w' r pid same sleep
            (ground (arith, h, later)) (ground (arith, h, ahead)))

-- The stop of a child that could not be confirmed always returns, within its 202 rounds, whatever the
-- kernel answers, provided that the clock never goes back and a sleep of 10 ms lasts at least so long.
pub shutdown-terminates :
    (w : World) (r : ProcessRecord) (pid : ℕ)
    → ((c : Call) (t : List Call) → w.instant t ≤ w.instant (c ∷ t))
    → ((t : List Call) → w.instant t + 10 ≤ w.instant (Call.slept 10 ∷ t))
    → is_some (shutdown_unregistered_child w r pid) ≡ true
unfolding shutdown_unregistered_child
shutdown-terminates w r pid forward sleep =
    shutdown_loop-ends w.instant forward shutdown_fuel
      (w.instant w.trace + unregistered_child_stop_grace) none false (now w).1 r pid refl sleep
      (ground (arith, forward Call.read w.trace)) (omega arith)
