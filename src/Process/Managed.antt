-- ===== src/Process/Managed.antt =====
-- The managed process: an owned child or one attached by its record (rust/src/process.rs,
-- `ManagedProcess`).
use open_code_server.Base.{
  ℕ, String, Bool, true, false, not, ◌&&◌, ◌||◌, Option, none, some, Result, ok, err, ◌==◌,
  if◌then◌else◌, is_none_or,
}
use open_code_server.RuntimeState.{ProcessRecord}
use open_code_server.World.{World, IoError, ErrorKind, ExitReason, ProcessSnapshot, io_error, ask}
use open_code_server.Process.Identity.{is_foreign, identity_probe, identity_matches, paths_equal}
use open_code_server.Process.Group.{send_process_group_signal, signal_owned}
use open_code_server.Process.Cleanup.{PendingGroupCleanup, poll_owned_child, sigterm, sigkill}

pub data ManagedProcess : Type 0 where
  -- The child's PID, its record, a pending cleanup of its group, and whether its identity failed.
  child : ℕ → ProcessRecord → Option PendingGroupCleanup → Bool → ManagedProcess
  attached : ProcessRecord → ManagedProcess

abbrev pub attach : ProcessRecord → ManagedProcess
attach r = ManagedProcess.attached r

abbrev pub record_of : ManagedProcess → ProcessRecord
record_of (ManagedProcess.child pid r cleanup failed) = r
record_of (ManagedProcess.attached r) = r

-- A change through `record_mut`.
abbrev pub with_record : ManagedProcess → ProcessRecord → ManagedProcess
with_record (ManagedProcess.child pid _ cleanup failed) r =
    ManagedProcess.child pid r cleanup failed
with_record (ManagedProcess.attached _) r = ManagedProcess.attached r

abbrev pub pending_group_exit : ManagedProcess → Option ExitReason
pending_group_exit (ManagedProcess.child pid r (some p) failed) = some p.leader_exit
pending_group_exit (ManagedProcess.child pid r none failed) = none
pending_group_exit (ManagedProcess.attached r) = none

abbrev pub pending_group_authorized : ManagedProcess → Bool
pending_group_authorized (ManagedProcess.child pid r (some p) failed) =
    not failed && p.signal_allowed
pending_group_authorized (ManagedProcess.child pid r none failed) = true
pending_group_authorized (ManagedProcess.attached r) = true

abbrev pub is_owned_child : ManagedProcess → Bool
is_owned_child (ManagedProcess.child pid r cleanup failed) = true
is_owned_child (ManagedProcess.attached r) = false

abbrev pub signal_authorized : ManagedProcess → Bool
signal_authorized (ManagedProcess.child pid r cleanup failed) =
    not failed && is_none_or cleanup (λ p. p.signal_allowed)
signal_authorized (ManagedProcess.attached r) = not r.identity_unconfirmed

abbrev pub mark_identity_failed : ManagedProcess → ManagedProcess
mark_identity_failed (ManagedProcess.child pid r cleanup failed) =
    ManagedProcess.child pid r cleanup true
mark_identity_failed (ManagedProcess.attached r) = ManagedProcess.attached r

abbrev exit_of_probe : Bool → Option ExitReason
exit_of_probe true = some ExitReason.identity_changed
exit_of_probe false = none

unfoldable pub attached_exit :
    World
    → Result IoError ProcessSnapshot
    → ProcessRecord
    → Result IoError (Option ExitReason) × World
attached_exit w (err e) r = (if e.is_esrch then ok (some ExitReason.disappeared) else err e, w)
attached_exit w (ok s) r =
    let (probe, w') = identity_probe w s r in (ok (exit_of_probe (is_foreign probe)), w')

unfoldable pub poll_exit :
    World → ManagedProcess → Result IoError (Option ExitReason) × ManagedProcess × World
unfolding attached_exit
poll_exit w (ManagedProcess.child pid r cleanup failed) =
    let (answer, cleanup', w') = poll_owned_child w r pid cleanup failed in
    (answer, ManagedProcess.child pid r cleanup' failed, w')
poll_exit w (ManagedProcess.attached r) =
    let (s, w1) = ask w (λ t. w.snapshot t r.pid) in
    let (answer, w2) = attached_exit w1 s r in (answer, ManagedProcess.attached r, w2)

abbrev pub identity_lost : IoError
identity_lost =
    io_error ErrorKind.other
      "refusing to signal an OpenCode child whose process-group identity changed"

abbrev pub group_unverified : IoError
group_unverified =
    io_error ErrorKind.other
      "refusing to signal an OpenCode child while its process-group identity is unverified"

abbrev pub identity_changed_error : IoError
identity_changed_error =
    io_error ErrorKind.other "refusing to signal a process whose identity changed"

abbrev pub own_group_error : IoError
own_group_error =
    io_error ErrorKind.other "refusing to signal OpenCodeServerAgent's own process group"

unfoldable pub signal_attached :
    World → Result IoError Bool → ProcessRecord → ℕ → Result IoError (Unit {0}) × World
signal_attached w (err e) r signal = (err e, w)
signal_attached w (ok false) r signal = (err identity_changed_error, w)
signal_attached w (ok true) r signal =
    if r.process_group_id == w.own_process_group
    then (err own_group_error, w)
    else send_process_group_signal w r.process_group_id signal

abbrev pub has_cleanup : Option PendingGroupCleanup → Bool
has_cleanup none = false
has_cleanup (some p) = true

unfoldable pub signal : World → ManagedProcess → ℕ → Result IoError (Unit {0}) × World
unfolding signal_attached
signal w (ManagedProcess.child pid r cleanup failed) number =
    if failed
    then (err identity_lost, w)
    else if not (is_none_or cleanup (λ p. p.signal_allowed))
    then (err group_unverified, w)
    else signal_owned w r pid (has_cleanup cleanup) number
signal w (ManagedProcess.attached r) number =
    let (same, w') = identity_matches w r in signal_attached w' same r number

abbrev pub send_terminate : World → ManagedProcess → Result IoError (Unit {0}) × World
send_terminate w p = signal w p sigterm

abbrev pub send_kill : World → ManagedProcess → Result IoError (Unit {0}) × World
send_kill w p = signal w p sigkill

-- The answer, the process and the world after `confirm_unconfirmed_identity`.
abbrev confirmed_record : ProcessRecord → ProcessSnapshot → ProcessRecord
confirmed_record r s = record r {
  start_seconds = s.start_seconds;
  start_microseconds = s.start_microseconds;
  identity_unconfirmed = false;
}

unfoldable pub executable_is : World → Option String → String → Bool × World
executable_is w none recorded = (false, w)
executable_is w (some path) recorded = paths_equal w path recorded

unfoldable pub confirm_snapshot :
    World
    → Result IoError ProcessSnapshot
    → ℕ
    → ProcessRecord
    → Option PendingGroupCleanup
    → Bool
    → Bool × ManagedProcess × World
unfolding executable_is
confirm_snapshot w (err e) pid r cleanup failed =
    (false, ManagedProcess.child pid r cleanup failed, w)
confirm_snapshot w (ok s) pid r cleanup failed =
    let (executable_matches, w') = executable_is w s.executable r.executable in
    if not (s.pid == r.pid) || not (s.process_group_id == s.pid) || not executable_matches
    then (false, ManagedProcess.child pid r cleanup failed, w')
    else (true, ManagedProcess.child pid (confirmed_record r s) cleanup failed, w')

unfoldable pub confirm_unconfirmed_identity : World → ManagedProcess → Bool × ManagedProcess × World
unfolding confirm_snapshot
confirm_unconfirmed_identity w (ManagedProcess.attached r) = (false, ManagedProcess.attached r, w)
confirm_unconfirmed_identity w (ManagedProcess.child pid r cleanup failed) =
    if not r.identity_unconfirmed
    then (false, ManagedProcess.child pid r cleanup failed, w)
    else let (s, w') = ask w (λ t. w.snapshot t pid) in confirm_snapshot w' s pid r cleanup failed
