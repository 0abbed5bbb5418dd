-- ===== src/Process/Cleanup.antt =====
-- The exit of an owned child and the convergence of its group (rust/src/process_cleanup.rs).
use open_code_server.Base.{
  ℕ, Bool, true, false, not, ◌&&◌, Option, none, some, Result, ok, err, if◌then◌else◌,
}
use open_code_server.RuntimeState.{ProcessRecord}
use open_code_server.World.{World, IoError, ExitReason, ask}
use open_code_server.Process.Identity.{owned_identity_matches}
use open_code_server.Process.Group.{GroupObservation, observe_owned, signal_owned}

pub record PendingGroupCleanup : Type 0 where
  pub leader_exit : ExitReason
  pub terminate_requested : Bool
  pub signal_allowed : Bool

abbrev pub pending_cleanup : ExitReason → PendingGroupCleanup
pending_cleanup exit = record {
  leader_exit = exit;
  terminate_requested = false;
  signal_allowed = true;
}

abbrev pub refuse_signals : PendingGroupCleanup → PendingGroupCleanup
refuse_signals p = record p { signal_allowed = false }

abbrev pub mark_terminate_requested : PendingGroupCleanup → PendingGroupCleanup
mark_terminate_requested p = record p { terminate_requested = true }

abbrev pub sigterm : ℕ
sigterm = 15

abbrev pub sigkill : ℕ
sigkill = 9

-- What a poll answers, the cleanup it leaves, and the world after it.
abbrev pub Polled : Type 0
Polled = Result IoError (Option ExitReason) × Option PendingGroupCleanup × World

-- `child.wait()` and the classification of its status; a failure keeps the cleanup.
abbrev reap_answer :
    Option PendingGroupCleanup
    → Option PendingGroupCleanup
    → Result IoError ExitReason
    → World
    → Polled
reap_answer reaped kept (ok exit) w = (ok (some exit), reaped, w)
reap_answer reaped kept (err e) w = (err e, kept, w)

abbrev reap : World → ℕ → Option PendingGroupCleanup → Option PendingGroupCleanup → Polled
reap w pid reaped kept =
    let (status, w') = ask w (λ t. w.wait t pid) in reap_answer reaped kept status w'

-- After the first SIGTERM to the group of an exited leader.
unfoldable pub after_first_signal : Result IoError (Unit {0}) → PendingGroupCleanup → World → Polled
after_first_signal (err e) p w = (err e, some (refuse_signals p), w)
after_first_signal (ok _) p w = (ok none, some (mark_terminate_requested p), w)

unfoldable pub converge_exited :
    Result IoError GroupObservation → PendingGroupCleanup → World → ProcessRecord → ℕ → Polled
unfolding after_first_signal
converge_exited (err e) p w r pid = (err e, some (refuse_signals p), w)
converge_exited (ok GroupObservation.no_members) p w r pid = reap w pid none none
converge_exited (ok GroupObservation.has_members) p w r pid =
    let (sent, w') = signal_owned w r pid true sigterm in after_first_signal sent p w'

unfoldable pub poll_exited_leader : World → ProcessRecord → ℕ → ExitReason → Polled
poll_exited_leader w r pid exit =
    let (o, w') = observe_owned w r pid in converge_exited o (pending_cleanup exit) w' r pid

-- The identity check of a record that was verified: `k` goes on where no escape is seen.
abbrev after_identity : Result IoError (Option Bool) → World → Polled → Polled
after_identity (err e) w k = (err e, none, w)
after_identity (ok (some false)) w k = (ok (some ExitReason.identity_changed), none, w)
after_identity (ok (some true)) w k = k
after_identity (ok none) w k = k

unfoldable pub check_identity : World → ProcessRecord → (World → Polled) → Polled
check_identity w r k =
    if r.identity_unconfirmed
    then k w
    else let (same, w') = owned_identity_matches w r in after_identity same w' (k w')

unfoldable pub poll_leader : Result IoError (Option ExitReason) → World → ProcessRecord → ℕ → Polled
unfolding check_identity
poll_leader (err e) w r pid = (err e, none, w)
poll_leader (ok none) w r pid = check_identity w r (λ w'. (ok none, none, w'))
poll_leader (ok (some exit)) w r pid = check_identity w r (λ w'. poll_exited_leader w' r pid exit)

-- A child whose identity check failed: no signal, only a direct reap once its group is empty.
unfoldable pub converge_failed :
    Result IoError GroupObservation → PendingGroupCleanup → World → ℕ → Polled
converge_failed (err e) p w pid = (err e, some p, w)
converge_failed (ok GroupObservation.no_members) p w pid = reap w pid none none
converge_failed (ok GroupObservation.has_members) p w pid = (ok none, some p, w)

unfoldable pub poll_failed_leader :
    Result IoError (Option ExitReason) → World → ProcessRecord → ℕ → Polled
unfolding converge_failed
poll_failed_leader (err e) w r pid = (err e, none, w)
poll_failed_leader (ok none) w r pid = (ok none, none, w)
poll_failed_leader (ok (some exit)) w r pid =
    let (o, w') = observe_owned w r pid in
    converge_failed o (refuse_signals (pending_cleanup exit)) w' pid

unfoldable pub after_pending_signal :
    Result IoError (Unit {0}) → PendingGroupCleanup → World → Polled
after_pending_signal (err e) p w = (err e, some (refuse_signals p), w)
after_pending_signal (ok _) p w = (ok none, some (mark_terminate_requested p), w)

unfoldable pub converge_pending :
    Result IoError GroupObservation → PendingGroupCleanup → World → ProcessRecord → ℕ → Polled
unfolding after_pending_signal
converge_pending (err e) p w r pid = (err e, some (refuse_signals p), w)
converge_pending (ok GroupObservation.no_members) p w r pid = reap w pid none (some p)
converge_pending (ok GroupObservation.has_members) p w r pid =
    if p.signal_allowed && not p.terminate_requested
    then (let (sent, w') = signal_owned w r pid true sigterm in after_pending_signal sent p w')
    else (ok none, some p, w)

unfoldable pub poll_pending_group : World → ProcessRecord → ℕ → PendingGroupCleanup → Polled
unfolding converge_pending
poll_pending_group w r pid p = let (o, w') = observe_owned w r pid in converge_pending o p w' r pid

unfoldable pub poll_owned_child :
    World → ProcessRecord → ℕ → Option PendingGroupCleanup → Bool → Polled
poll_owned_child w r pid (some p) identity_failed = poll_pending_group w r pid p
poll_owned_child w r pid none identity_failed =
    let (exit, w') = ask w (λ t. w.peek_exit t pid) in
    if identity_failed then poll_failed_leader exit w' r pid else poll_leader exit w' r pid
