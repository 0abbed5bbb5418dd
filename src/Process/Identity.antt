-- ===== src/Process/Identity.antt =====
-- How a live process compares with a persisted record (rust/src/process.rs, `inspect_record_identity`
-- and `identity_probe`).
use open_code_server.Base.{
  String, Bool, true, false, not, ◌&&◌, Option, none, some, Result, ok, err, str_eq, ◌==◌,
  if◌then◌else◌,
}
use open_code_server.RuntimeState.{ProcessRecord}
use open_code_server.World.{World, IoError, ProcessSnapshot, ask}

pub data RecordIdentity : Type 0 where
  current executable_vanished executable_mismatch : RecordIdentity
  group_escaped missing mismatched : RecordIdentity

pub data IdentityProbe : Type 0 where
  match executable_vanished executable_mismatch group_escaped mismatch : IdentityProbe

-- Two paths are compared as canonical paths where both resolve, and else as they are written.
abbrev compare_paths : Option String → Option String → String → String → Bool
compare_paths (some l) (some r) left right = str_eq l r
compare_paths _ _ left right = str_eq left right

unfoldable pub paths_equal : World → String → String → Bool × World
paths_equal w left right =
    let (l, w1) = ask w (λ t. w.canonicalize t left) in
    let (r, w2) = ask w1 (λ t. w1.canonicalize t right) in (compare_paths l r left right, w2)

-- PID, user and kernel start time: the process is the recorded one.
abbrev pub same_process : World → ProcessSnapshot → ProcessRecord → Bool
same_process w s r =
    s.pid == r.pid
    && s.effective_uid == w.effective_uid
    && s.start_seconds == r.start_seconds
    && s.start_microseconds == r.start_microseconds

-- It still leads the recorded dedicated group.
abbrev pub same_group : ProcessSnapshot → ProcessRecord → Bool
same_group s r = s.process_group_id == r.process_group_id && s.process_group_id == s.pid

abbrev pub probe_of_paths : Bool → IdentityProbe
probe_of_paths true = IdentityProbe.match
probe_of_paths false = IdentityProbe.executable_mismatch

unfoldable pub executable_probe : World → Option String → String → IdentityProbe × World
unfolding paths_equal
executable_probe w none recorded = (IdentityProbe.executable_vanished, w)
executable_probe w (some executable) recorded =
    let (same, w') = paths_equal w executable recorded in (probe_of_paths same, w')

unfoldable pub identity_probe : World → ProcessSnapshot → ProcessRecord → IdentityProbe × World
unfolding executable_probe
identity_probe w s r =
    if not (same_process w s r)
    then (IdentityProbe.mismatch, w)
    else if not (same_group s r)
    then (IdentityProbe.group_escaped, w)
    else executable_probe w s.executable r.executable

abbrev pub identity_of_probe : IdentityProbe → RecordIdentity
identity_of_probe IdentityProbe.match = RecordIdentity.current
identity_of_probe IdentityProbe.executable_vanished = RecordIdentity.executable_vanished
identity_of_probe IdentityProbe.executable_mismatch = RecordIdentity.executable_mismatch
identity_of_probe IdentityProbe.group_escaped = RecordIdentity.group_escaped
identity_of_probe IdentityProbe.mismatch = RecordIdentity.mismatched

unfoldable pub inspect_snapshot :
    World → Result IoError ProcessSnapshot → ProcessRecord → Result IoError RecordIdentity × World
unfolding identity_probe
inspect_snapshot w (err e) r = (if e.is_esrch then ok RecordIdentity.missing else err e, w)
inspect_snapshot w (ok s) r =
    let (probe, w') = identity_probe w s r in (ok (identity_of_probe probe), w')

unfoldable pub inspect_record_identity :
    World → ProcessRecord → Result IoError RecordIdentity × World
unfolding inspect_snapshot
inspect_record_identity w r =
    let (s, w') = ask w (λ t. w.snapshot t r.pid) in inspect_snapshot w' s r

-- `Mismatch | GroupEscaped`
abbrev pub is_foreign : IdentityProbe → Bool
is_foreign IdentityProbe.mismatch = true
is_foreign IdentityProbe.group_escaped = true
is_foreign _ = false

unfoldable pub matches_snapshot :
    World → Result IoError ProcessSnapshot → ProcessRecord → Result IoError Bool × World
unfolding identity_probe
matches_snapshot w (err e) r = (if e.is_esrch then ok false else err e, w)
matches_snapshot w (ok s) r =
    let (probe, w') = identity_probe w s r in (ok (not (is_foreign probe)), w')

unfoldable pub identity_matches : World → ProcessRecord → Result IoError Bool × World
unfolding matches_snapshot
identity_matches w r = let (s, w') = ask w (λ t. w.snapshot t r.pid) in matches_snapshot w' s r

unfoldable pub owned_matches_snapshot :
    World → Result IoError ProcessSnapshot → ProcessRecord → Result IoError (Option Bool) × World
unfolding identity_probe
owned_matches_snapshot w (err e) r = (if e.is_esrch then ok none else err e, w)
owned_matches_snapshot w (ok s) r =
    let (probe, w') = identity_probe w s r in (ok (some (not (is_foreign probe))), w')

-- A process that the kernel no longer reports is not yet a mismatch.
unfoldable pub owned_identity_matches : World → ProcessRecord → Result IoError (Option Bool) × World
unfolding owned_matches_snapshot
owned_identity_matches w r =
    let (s, w') = ask w (λ t. w.snapshot t r.pid) in owned_matches_snapshot w' s r
