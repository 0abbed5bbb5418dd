-- ===== src/Ipc/Accepting.antt =====
-- Accepting on the control socket (rust/src/ipc.rs): who may connect, how many, for how long, and the
-- subscribers' streams.
use open_code_server.Base.{
  ℕ, zero, suc, Bool, true, false, not, ◌&&◌, Option, none, some, List, [], ◌∷◌, ◌==◌, ◌+◌, ltb,
  leb, Result, ok, err, if◌then◌else◌,
}
use open_code_server.Lists.{length, retain}
use open_code_server.Ipc.{
  IpcError, UnixStream, PendingState, PendingConnection, IpcCall, Kernel, Ipc, handshake_timeout,
  max_pending_handshakes, max_accepts_per_batch, remove_pending, called,
}
use open_code_server.Ipc.Writing.{Done}

-- `self.pending.insert(fd, connection)`
unfoldable pub insert : ℕ → PendingConnection → Ipc → Ipc
insert fd c s = record s { pending = (fd, c) ∷ remove_pending fd s.pending }

abbrev pub min_deadline : ℕ → Option ℕ → ℕ
min_deadline deadline none = deadline
min_deadline deadline (some other) = if ltb other deadline then other else deadline

-- `self.pending.values().map(|connection| connection.deadline).min()`
unfoldable pub earliest : List (ℕ × PendingConnection) → Option ℕ
earliest [] = none
earliest ((fd, c) ∷ m) = some (min_deadline c.deadline (earliest m))

unfoldable pub next_deadline : Ipc → Option ℕ
unfolding earliest
next_deadline s = earliest s.pending

module _ (os : Kernel) where
  unfoldable pub request_call : IpcCall → Ipc → Option IpcError × Ipc
  request_call call s = (os.perform s.trace call, called s call)

  unfoldable pub after_watch_readable : Option IpcError → UnixStream → ℕ → Ipc → Done
  after_watch_readable (some e) stream deadline s = (err e, s)
  after_watch_readable none stream deadline s =
      let c : PendingConnection = record {
        stream = stream;
        deadline = deadline;
        state = PendingState.reading [];
      } in
      (ok tt, insert stream.fd c s)

  unfoldable pub register_in_time : UnixStream → ℕ → Ipc → Done
  unfolding after_watch_readable request_call
  register_in_time stream deadline s =
      let s' = called s IpcCall.now in
      if leb deadline (os.now s.trace)
      then (err IpcError.timed_out, s')
      else (let (answer, s2) = request_call (IpcCall.watch_pending_readable stream.fd) s' in
          after_watch_readable answer stream deadline s2)

  unfoldable pub after_nonblocking : Option IpcError → UnixStream → ℕ → Ipc → Done
  unfolding register_in_time
  after_nonblocking (some e) stream accepted_at s = (err e, s)
  after_nonblocking none stream accepted_at s =
      register_in_time stream (accepted_at + handshake_timeout) s

  unfoldable pub authenticate : Result IpcError ℕ → UnixStream → ℕ → Ipc → Done
  unfolding after_nonblocking request_call
  authenticate (err e) stream accepted_at s = (err e, s)
  authenticate (ok uid) stream accepted_at s =
      if uid == os.effective_uid
      then (let (answer, s') = request_call (IpcCall.set_nonblocking stream) s in
          after_nonblocking answer stream accepted_at s')
      else (err IpcError.permission_denied, s)

  unfoldable pub after_no_sigpipe : Option IpcError → UnixStream → ℕ → Ipc → Done
  unfolding authenticate
  after_no_sigpipe (some e) stream accepted_at s = (err e, s)
  after_no_sigpipe none stream accepted_at s =
      authenticate (os.peer_effective_uid stream) stream accepted_at s

  unfoldable pub register_accepted : UnixStream → ℕ → Ipc → Done
  unfolding after_no_sigpipe request_call
  register_accepted stream accepted_at s =
      let (answer, s') = request_call (IpcCall.set_no_sigpipe stream) s in
      after_no_sigpipe answer stream accepted_at s'

  -- One round of the loop after the accept: the next state, and whether the loop goes on.
  unfoldable pub after_accept : Result IpcError UnixStream → Ipc → Bool × Ipc
  unfolding register_accepted
  after_accept (err e) s = (false, s)
  after_accept (ok stream) s =
      (true, (register_accepted stream (os.now s.trace) (called s IpcCall.now)).1)

  -- The loop, on the attempts that are left.
  unfoldable pub accept_rounds : ℕ → Ipc → Ipc
  unfolding after_accept
  accept_rounds zero s = s
  accept_rounds (suc attempts) s =
      let (again, s') = after_accept (os.accept s.trace) (called s IpcCall.accept) in
      let rest = accept_rounds attempts s' in
      if leb max_pending_handshakes (length s.pending) then s else if again then rest else s'

  unfoldable pub accept_connections : Ipc → Ipc
  unfolding accept_rounds
  accept_connections s = accept_rounds max_accepts_per_batch s

  -- `connection.deadline > now`
  abbrev pub is_live : ℕ → ℕ × PendingConnection → Bool
  is_live now (fd, c) = ltb now c.deadline

  unfoldable pub expire : ℕ → Ipc → Ipc
  expire now s = record s { pending = retain (is_live now) s.pending }

  unfoldable pub after_listener : Option IpcError → Bool → Ipc → Done
  after_listener (some e) enabled s = (err e, s)
  after_listener none enabled s = (ok tt, record s { listener_enabled = enabled })

  -- Backpressure: the listener is watched while there is room.
  unfoldable pub adjust_listener : Ipc → Done
  unfolding after_listener
  adjust_listener s =
      let full = leb max_pending_handshakes (length s.pending) in
      if full && s.listener_enabled
      then (let (answer, s') = request_call IpcCall.disable_listener s in
          after_listener answer false s')
      else if not full && not s.listener_enabled
      then (let (answer, s') = request_call IpcCall.enable_listener s in
          after_listener answer true s')
      else (ok tt, s)

  unfoldable pub accept_when_ready : Bool → Ipc → Ipc
  unfolding accept_connections
  accept_when_ready listener_ready s =
      if listener_ready && s.listener_enabled && ltb (length s.pending) max_pending_handshakes
      then accept_connections s
      else s

  unfoldable pub maintain : Bool → ℕ → Ipc → Done
  unfolding expire accept_when_ready adjust_listener
  maintain listener_ready now s = adjust_listener (accept_when_ready listener_ready (expire now s))

  unfoldable pub prepare_wait : Ipc → Done
  unfolding maintain
  prepare_wait s = maintain false (os.now s.trace) (called s IpcCall.now)

  unfoldable pub finish_event_batch : Bool → Ipc → Done
  unfolding maintain
  finish_event_batch listener_ready s =
      maintain listener_ready (os.now s.trace) (called s IpcCall.now)
