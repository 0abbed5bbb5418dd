-- ===== src/Safety/Signals.antt =====
-- What a signal to OpenCode rests on (rust/src/process.rs, `signal`; rust/src/process_group.rs).
use open_code_server.Base.{
  ℕ, Bool, true, false, not, ◌≡◌, ◌≢◌, ◌⊎◌, inl, inr, refl, sym, ◌∙◌, ◌<◌, Option, none, some,
  Result, ok, err, arith, Bool-cases, is_none_or, ◌∷◌,
}
use open_code_server.RuntimeState.{ProcessRecord}
use open_code_server.World.{World, Call, IoError, ExitReason, ProcessSnapshot, push}
use open_code_server.Process.Identity.{
  identity_matches, matches_snapshot, identity_probe, executable_probe, paths_equal, same_process,
  same_group,
}
use open_code_server.Process.Group.{
  signal_owned, unsafe_anchor, waitable, validate_live, validate_live_leader, signal_validated,
}
use open_code_server.Process.Cleanup.{
  PendingGroupCleanup, poll_owned_child, poll_failed_leader, converge_failed, poll_pending_group,
  converge_pending,
}
use open_code_server.Process.Managed.{ManagedProcess, has_cleanup, signal, signal_attached}
use open_code_server.Trace.Score.{total}
use open_code_server.Trace.Process.{
  observe_owned-score, validate_live_leader-score, identity_matches-score,
}
use open_code_server.Safety.Quiet.{activity, activity_tariff}

abbrev pub Anchored : World → ProcessRecord → ℕ → Type 0
Anchored w r pid =
    (pid ≡ r.pid) × (r.process_group_id ≡ pid) × (1 < pid) × (pid ≢ w.own_process_group)

-- The kernel's answer about the recorded PID fits the record.
abbrev pub Fits : World → ProcessRecord → Result IoError ProcessSnapshot → Type 0
Fits w r (ok s) = (same_process w s r ≡ true) × (same_group s r ≡ true)
Fits w r (err e) = ⊥

-- A process that leads the recorded group at this moment: the kernel shows the recorded PID with the
-- agent's user, the recorded start time once it is confirmed, and the recorded group; or it shows no
-- such process any more, and an exit that waits to be reaped.
abbrev pub Leads : World → ProcessRecord → ℕ → Result IoError ProcessSnapshot → Type 0
Leads w r pid (ok s) =
    (s.pid ≡ r.pid)
    × (s.effective_uid ≡ w.effective_uid)
    × (s.process_group_id ≡ r.process_group_id)
    × ((r.identity_unconfirmed ≡ true)
        ⊎ ((s.start_seconds ≡ r.start_seconds) × (s.start_microseconds ≡ r.start_microseconds)))
Leads w r pid (err e) =
    (e.is_esrch ≡ true)
    × ((exit : ExitReason) × (w.peek_exit (Call.read ∷ w.trace) pid ≡ ok (some exit)))

abbrev pub Authorized : World → ManagedProcess → Type 0
Authorized w (ManagedProcess.child pid r cleanup failed) =
    (failed ≡ false)
    × (is_none_or cleanup (λ p. p.signal_allowed) ≡ true)
    × Anchored w r pid
    × ((has_cleanup cleanup ≡ true) ⊎ Leads w r pid (w.snapshot w.trace pid))
Authorized w (ManagedProcess.attached r) =
    Fits w r (w.snapshot w.trace r.pid) × (r.process_group_id ≢ w.own_process_group)

anchored :
    (w : World) (r : ProcessRecord) (pid : ℕ) → unsafe_anchor w r pid ≡ false → Anchored w r pid
anchored w r pid h = (ground arith, ground arith, ground arith, ground arith)

waitable-some :
    (w : World) (answer : Result IoError (Option ExitReason))
    → waitable answer ≡ ok tt
    → (exit : ExitReason) × (answer ≡ ok (some exit))
waitable-some w (ok (some exit)) h = (exit, refl)
waitable-some w (ok none) h = ground arith
waitable-some w (err e) h = ground arith

validate-Leads :
    (w : World) (r : ProcessRecord) (pid : ℕ) (answer : Result IoError ProcessSnapshot)
    → (validate_live (push w Call.read) r pid answer).0 ≡ ok tt
    → Leads w r pid answer
unfolding validate_live
validate-Leads w r pid (ok s) h = (ground arith, ground arith, ground arith, ground arith)
validate-Leads w r pid (err e) h =
    (ground arith, waitable-some w (w.peek_exit (Call.read ∷ w.trace) pid) (ground arith))

validated-Leads :
    (valid : Result IoError (Unit {0})) (w : World) (r : ProcessRecord) (pid number : ℕ)
    → (activity (signal_validated w r pid number valid).1.trace ≡ activity w.trace)
      ⊎ (valid ≡ ok tt)
unfolding signal_validated
validated-Leads (ok _) w r pid number = inr refl
validated-Leads (err e) w r pid number = inl refl

owned-Leads :
    (w : World) (r : ProcessRecord) (pid : ℕ) (exited : Bool) (number : ℕ)
    → unsafe_anchor w r pid ≡ false
    → (activity (signal_owned w r pid exited number).1.trace ≡ activity w.trace)
      ⊎ (exited ≡ true)
      ⊎ Leads w r pid (w.snapshot w.trace pid)
unfolding signal_owned validate_live_leader
owned-Leads w r pid true number safe = inr (inl refl)
owned-Leads w r pid false number safe =
    let v : Result IoError (Unit {0}) × World = validate_live_leader w r pid in
    elim (validated-Leads v.0 v.1 r pid number) [
      | inl quiet ↦ inl (simp safe (quiet ∙ validate_live_leader-score activity_tariff w r pid))
      | inr valid ↦ inr (inr (validate-Leads w r pid _ valid))
    ]

owned-Authorized :
    (w : World) (r : ProcessRecord) (pid : ℕ) (exited : Bool) (number : ℕ)
    → (activity (signal_owned w r pid exited number).1.trace ≡ activity w.trace)
      ⊎ (Anchored w r pid × ((exited ≡ true) ⊎ Leads w r pid (w.snapshot w.trace pid)))
unfolding signal_owned
owned-Authorized w r pid exited number = elim (Bool-cases (unsafe_anchor w r pid)) [
  | inl unsafe ↦ inl (simp unsafe refl)
  | inr safe ↦ elim (owned-Leads w r pid exited number safe) [
    | inl quiet ↦ inl quiet
    | inr leads ↦ inr (anchored w r pid safe, leads)
  ]
]

child-Authorized :
    (w : World) (pid : ℕ) (r : ProcessRecord) (cleanup : Option PendingGroupCleanup) (failed : Bool)
    (number : ℕ)
    → (activity (signal w (ManagedProcess.child pid r cleanup failed) number).1.trace
        ≡ activity w.trace)
      ⊎ Authorized w (ManagedProcess.child pid r cleanup failed)
unfolding signal
child-Authorized w pid r cleanup true number = inl refl
child-Authorized w pid r cleanup false number =
    elim (Bool-cases (is_none_or cleanup (λ p. p.signal_allowed))) [
      | inl allowed ↦ elim (owned-Authorized w r pid (has_cleanup cleanup) number) [
        | inl quiet ↦ inl (simp allowed quiet)
        | inr (anchor, leads) ↦ inr (refl, allowed, anchor, leads)
      ]
      | inr refused ↦ inl (simp refused refl)
    ]

-- A match of the identity says that the kernel's answer fits.
matches-Fits :
    (w : World) (answer : Result IoError ProcessSnapshot) (r : ProcessRecord)
    → (matches_snapshot w answer r).0 ≡ ok true
    → Fits w r answer
unfolding matches_snapshot identity_probe
matches-Fits w (err e) r h = ground arith
matches-Fits w (ok s) r h = (ground arith, ground arith)

attached-Authorized :
    (w : World) (same : Result IoError Bool) (r : ProcessRecord) (number : ℕ)
    → (activity (signal_attached w same r number).1.trace ≡ activity w.trace)
      ⊎ ((same ≡ ok true) × (r.process_group_id ≢ w.own_process_group))
unfolding signal_attached
attached-Authorized w (err e) r number = inl refl
attached-Authorized w (ok false) r number = inl refl
attached-Authorized w (ok true) r number = ground arith

matches-own :
    (w : World) (answer : Result IoError ProcessSnapshot) (r : ProcessRecord)
    → (matches_snapshot w answer r).1.own_process_group ≡ w.own_process_group
unfolding matches_snapshot identity_probe executable_probe paths_equal
matches-own w (err e) r = refl
matches-own w (ok s) r = ground arith

identity_matches-own :
    (w : World) (r : ProcessRecord)
    → (identity_matches w r).1.own_process_group ≡ w.own_process_group
unfolding identity_matches
identity_matches-own w r = matches-own _ _ r

attached_signal-Authorized :
    (w : World) (r : ProcessRecord) (number : ℕ)
    → (activity (signal w (ManagedProcess.attached r) number).1.trace ≡ activity w.trace)
      ⊎ Authorized w (ManagedProcess.attached r)
unfolding signal identity_matches
attached_signal-Authorized w r number =
    elim (attached-Authorized (identity_matches w r).1 (identity_matches w r).0 r number) [
      | inl quiet ↦ inl (quiet ∙ identity_matches-score activity_tariff w r)
      | inr (same, other) ↦ inr (
        matches-Fits (push w Call.read) _ r same,
        λ e. other (e ∙ sym (identity_matches-own w r)),
      )
    ]

-- Whatever the kernel answers, a request for a signal either sends none, or it rests on this: an
-- owned child's identity check has not failed and its group's cleanup allows signals, its PID is the
-- recorded one, names the recorded group, and is neither 0, 1 nor the agent's group; and either its
-- exit was seen and a cleanup of its group is pending, or the kernel shows it at this moment with the
-- agent's user, the recorded group and, once confirmed, the recorded start time, or shows it gone with
-- an exit to reap. An attached process has the recorded PID, user, start time and group at this
-- moment, and that group is not the agent's.
pub signal-Authorized :
    (w : World) (p : ManagedProcess) (number : ℕ)
    → (activity (signal w p number).1.trace ≡ activity w.trace) ⊎ Authorized w p
signal-Authorized w (ManagedProcess.child pid r cleanup failed) number =
    child-Authorized w pid r cleanup failed number
signal-Authorized w (ManagedProcess.attached r) number = attached_signal-Authorized w r number

failed_leader-quiet :
    (exit : Result IoError (Option ExitReason)) (w : World) (r : ProcessRecord) (pid : ℕ)
    → activity (poll_failed_leader exit w r pid).2.trace ≡ activity w.trace
unfolding poll_failed_leader converge_failed total
failed_leader-quiet exit w r pid = ground (arith, observe_owned-score activity_tariff w r pid)

pending-quiet :
    (w : World) (r : ProcessRecord) (pid : ℕ) (p : PendingGroupCleanup)
    → p.signal_allowed ≡ false
    → activity (poll_pending_group w r pid p).2.trace ≡ activity w.trace
unfolding poll_pending_group converge_pending total
pending-quiet w r pid p h = ground (arith, observe_owned-score activity_tariff w r pid)

-- The polling of a child whose identity check failed only reads and reaps: where no cleanup of its
-- group is pending, or one that does not allow signals, no signal is sent, whatever is observed.
pub poll_owned_child-quiet :
    (w : World) (r : ProcessRecord) (pid : ℕ) (cleanup : Option PendingGroupCleanup)
    → is_none_or cleanup (λ p. not p.signal_allowed) ≡ true
    → activity (poll_owned_child w r pid cleanup true).2.trace ≡ activity w.trace
unfolding poll_owned_child total
poll_owned_child-quiet w r pid none h =
    failed_leader-quiet (w.peek_exit w.trace pid) (push w Call.read) r pid
poll_owned_child-quiet w r pid (some p) h = pending-quiet w r pid p (ground arith)
