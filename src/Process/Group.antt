-- ===== src/Process/Group.antt =====
-- Observing and signalling a dedicated process group (rust/src/process_group.rs).
use open_code_server.Base.{
  ℕ, Bool, true, false, not, ◌&&◌, ◌||◌, Option, none, some, List, [], ◌∷◌, Result, ok, err, ◌==◌,
  leb, if◌then◌else◌, is_some_and,
}
use open_code_server.RuntimeState.{ProcessRecord}
use open_code_server.World.{
  World, IoError, ErrorKind, ExitReason, ProcessSnapshot, Call, io_error, ask, push,
}

pub data GroupObservation : Type 0 where
  no_members has_members : GroupObservation

abbrev pub unsafe_anchor : World → ProcessRecord → ℕ → Bool
unsafe_anchor w r leader_pid =
    not (leader_pid == r.pid)
    || not (r.process_group_id == leader_pid)
    || leb leader_pid 1
    || leader_pid == w.own_process_group

abbrev pub no_anchor : IoError
no_anchor =
    io_error ErrorKind.other
      "the owned OpenCode child does not have a safe dedicated process-group anchor"

abbrev pub unsafe_group : World → ℕ → Bool
unsafe_group w g = leb g 1 || g == w.own_process_group

abbrev pub own_group : IoError
own_group = io_error ErrorKind.other "refusing to inspect OpenCodeServerAgent's own process group"

-- A member that is trusted: the process asked for, in the group, of the agent's user.
abbrev pub trusted_member : World → ℕ → ℕ → ProcessSnapshot → Bool
trusted_member w g pid s =
    s.pid == pid && s.process_group_id == g && s.effective_uid == w.effective_uid

-- What one member's snapshot says: a trusted member, none any more, or an error.
abbrev pub judge_member :
    World → ℕ → ℕ → Result IoError ProcessSnapshot → Result IoError GroupObservation
judge_member w g pid (ok s) =
    if trusted_member w g pid s
    then ok GroupObservation.has_members
    else err (io_error ErrorKind.other "the OpenCode process group contains an untrusted member")
judge_member w g pid (err e) = if e.is_esrch then ok GroupObservation.no_members else err e

abbrev pub join_observations : GroupObservation → GroupObservation → GroupObservation
join_observations GroupObservation.no_members b = b
join_observations GroupObservation.has_members b = GroupObservation.has_members

unfoldable pub observe_list :
    World → ℕ → Option ℕ → List ℕ → GroupObservation → Result IoError GroupObservation × World
observe_list w g skip [] seen = (ok seen, w)
observe_list w g skip (pid ∷ pids) seen =
    let skipped = observe_list w g skip pids seen in
    if leb pid 1
    then (
      err (io_error ErrorKind.other "the OpenCode process group listing contained a system PID"),
      w,
    )
    else if is_some_and skip (λ s. s == pid)
    then skipped
    else let (answer, w') = ask w (λ t. w.snapshot t pid) in
      elim (judge_member w g pid answer) [
        | err e ↦ (err e, w')
        | ok now ↦ observe_list w' g skip pids (join_observations seen now)
      ]

unfoldable pub observe_listing :
    World → ℕ → Option ℕ → Result IoError (List ℕ) → Result IoError GroupObservation × World
unfolding observe_list
observe_listing w g skip (err e) = (err e, w)
observe_listing w g skip (ok pids) = observe_list w g skip pids GroupObservation.no_members

unfoldable pub observe_members : World → ℕ → Option ℕ → Result IoError GroupObservation × World
observe_members w g skip =
    if unsafe_group w g
    then (err own_group, w)
    else let (pids, w') = ask w (λ t. w.group_members t g) in observe_listing w' g skip pids

unfoldable pub observe_owned : World → ProcessRecord → ℕ → Result IoError GroupObservation × World
observe_owned w r leader_pid =
    if unsafe_anchor w r leader_pid
    then (err no_anchor, w)
    else observe_members w r.process_group_id (some leader_pid)

abbrev pub any_member : Result IoError GroupObservation → Result IoError Bool
any_member (err e) = err e
any_member (ok GroupObservation.no_members) = ok false
any_member (ok GroupObservation.has_members) = ok true

-- `authorized_process_group_has_members` of process.rs is this function.
unfoldable pub observe_attached : World → ProcessRecord → Result IoError Bool × World
observe_attached w r =
    if unsafe_group w r.process_group_id
    then (err own_group, w)
    else let (o, w') = observe_members w r.process_group_id none in (any_member o, w')

abbrev pub leader_snapshot_fits : World → ProcessRecord → ProcessSnapshot → Bool
leader_snapshot_fits w r s =
    s.pid == r.pid
    && s.effective_uid == w.effective_uid
    && (r.identity_unconfirmed
        || (s.start_seconds == r.start_seconds && s.start_microseconds == r.start_microseconds))

abbrev pub validate_leader_snapshot :
    World → ProcessRecord → ProcessSnapshot → Result IoError (Unit {0})
validate_leader_snapshot w r s =
    if not (leader_snapshot_fits w r s)
    then err (io_error ErrorKind.other "the owned OpenCode leader identity no longer matches")
    else if not (s.process_group_id == r.process_group_id)
    then err
        (io_error ErrorKind.other "the owned OpenCode leader abandoned its dedicated process group")
    else ok tt

abbrev pub waitable : Result IoError (Option ExitReason) → Result IoError (Unit {0})
waitable (err e) = err e
waitable (ok (some exit)) = ok tt
waitable (ok none) =
    err (io_error ErrorKind.other "the owned OpenCode leader disappeared without a waitable exit")

unfoldable pub validate_live :
    World → ProcessRecord → ℕ → Result IoError ProcessSnapshot → Result IoError (Unit {0}) × World
validate_live w r leader_pid (ok s) = (validate_leader_snapshot w r s, w)
validate_live w r leader_pid (err e) =
    if e.is_esrch
    then (let (exit, w') = ask w (λ t. w.peek_exit t leader_pid) in (waitable exit, w'))
    else (err e, w)

unfoldable pub validate_live_leader : World → ProcessRecord → ℕ → Result IoError (Unit {0}) × World
unfolding validate_live
validate_live_leader w r leader_pid =
    let (s, w') = ask w (λ t. w.snapshot t leader_pid) in validate_live w' r leader_pid s

-- The signal itself: the kernel's answer, and its record.
abbrev pub send_process_group_signal : World → ℕ → ℕ → Result IoError (Unit {0}) × World
send_process_group_signal w g signal = (w.deliver w.trace g signal, push w (Call.signaled g signal))

unfoldable pub signal_observed :
    World → ℕ → ℕ → Result IoError GroupObservation → Result IoError (Unit {0}) × World
signal_observed w g signal (err e) = (err e, w)
signal_observed w g signal (ok o) = send_process_group_signal w g signal

unfoldable pub signal_validated :
    World → ProcessRecord → ℕ → ℕ → Result IoError (Unit {0}) → Result IoError (Unit {0}) × World
unfolding signal_observed
signal_validated w r leader_pid signal (err e) = (err e, w)
signal_validated w r leader_pid signal (ok _) =
    let (o, w') = observe_members w r.process_group_id (some leader_pid) in
    signal_observed w' r.process_group_id signal o

unfoldable pub signal_owned :
    World → ProcessRecord → ℕ → Bool → ℕ → Result IoError (Unit {0}) × World
unfolding signal_validated
signal_owned w r leader_pid leader_exited signal =
    if unsafe_anchor w r leader_pid
    then (err no_anchor, w)
    else if leader_exited
    then signal_validated w r leader_pid signal (ok tt)
    else let (valid, w') = validate_live_leader w r leader_pid in
      signal_validated w' r leader_pid signal valid
