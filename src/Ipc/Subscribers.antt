-- ===== src/Ipc/Subscribers.antt =====
-- The subscribers of the control socket (rust/src/ipc.rs): one write per push, and the end of a
-- subscription.
use open_code_server.Base.{
  ℕ, Bool, true, false, not, List, [], ◌∷◌, ◌==◌, Result, ok, err, if◌then◌else◌,
}
use open_code_server.Lists.{length}
use open_code_server.Ipc.{IpcError, UnixStream, IpcCall, Kernel, Ipc, called}
use open_code_server.Ipc.Writing.{sent}
use open_code_server.Ipc.Reading.{read_stream}

abbrev pub is_whole : List ℕ → Result IpcError ℕ → Bool
is_whole line (ok written) = written == length line
is_whole line (err e) = false

-- A subscriber sends nothing: only a read that would block keeps it.
abbrev pub is_quiet : Result IpcError (List ℕ) → Bool
is_quiet (err IpcError.would_block) = true
is_quiet _ = false

module _ (os : Kernel) where
  -- `streams.retain_mut(test)`, where the test makes calls.
  unfoldable pub retain_streams :
      (Ipc → UnixStream → Bool × Ipc) → List UnixStream → Ipc → List UnixStream × Ipc
  retain_streams test [] s = ([], s)
  retain_streams test (stream ∷ streams) s =
      let (kept, s') = test s stream in
      let (rest, s2) = retain_streams test streams s' in (if kept then stream ∷ rest else rest, s2)

  unfoldable pub push_to : List ℕ → Ipc → UnixStream → Bool × Ipc
  unfolding sent
  push_to line s stream =
      (is_whole line (sent os line (os.space s.trace stream)), called s (IpcCall.write stream line))

  unfoldable pub broadcast : List ℕ → Ipc → Ipc
  unfolding retain_streams push_to
  broadcast line s =
      let (streams, s') = retain_streams (push_to line) s.subscribers s in
      record s' { subscribers = streams }

  unfoldable pub still_quiet : ℕ → Ipc → UnixStream → Bool × Ipc
  unfolding read_stream
  still_quiet fd s stream =
      if not (stream.fd == fd)
      then (true, s)
      else (let (result, s') = read_stream os 256 stream s in (is_quiet result, s'))

  unfoldable pub handle_readable : ℕ → Ipc → Ipc
  unfolding retain_streams still_quiet
  handle_readable fd s =
      let (streams, s') = retain_streams (still_quiet fd) s.subscribers s in
      record s' { subscribers = streams }
