-- ===== src/Ipc/Kept/Accepting.antt =====
-- New connections, deadlines and subscribers (rust/src/ipc.rs) and the order of the tables.
use open_code_server.Base.{
  ℕ, zero, suc, ◌<◌, ◌≡◌, refl, Bool, true, false, not, ◌&&◌, Option, some, none, [], ◌==◌, ltb,
  leb, arith, Result, ok, err,
}
use open_code_server.Lists.{length, all, length-retain, all-retain}
use open_code_server.Ipc.{
  IpcError, UnixStream, PendingState, IpcCall, Kernel, Ipc, called, max_pending_handshakes,
  max_accepts_per_batch,
}
use open_code_server.Ipc.Accepting.{
  insert, request_call, after_watch_readable, register_in_time, after_nonblocking, authenticate,
  after_no_sigpipe, register_accepted, after_accept, accept_rounds, accept_connections, is_live,
  expire, after_listener, adjust_listener, accept_when_ready, maintain,
}
use open_code_server.Ipc.Reading.{line_of}
use open_code_server.Ipc.Table.{
  distinct, absent-remove_self, length-remove, distinct-remove, distinct-retain, all-remove,
}
use open_code_server.Ipc.Sound.{
  is_own, entry_is_own, is_settled, entry_is_settled, IsSound, IsWellFormed, called-IsWellFormed,
  if-IsWellFormed, test-IsWellFormed, choose-IsWellFormed,
}

module _ (os : Kernel) where
  -- A table with room takes one more connection of the agent's own user.
  insert-IsWellFormed :
      (stream : UnixStream) (deadline : ℕ) (s : Ipc)
      → is_own os stream ≡ true
      → length s.pending < max_pending_handshakes
      → IsWellFormed os s
      → IsWellFormed os (
          insert stream.fd
            (record { stream = stream; deadline = deadline; state = PendingState.reading [] })
            s)
  unfolding insert IsWellFormed IsSound distinct all entry_is_own is_settled length line_of
  insert-IsWellFormed stream deadline s mine room ((few, others, once, own, theirs), settled) =
      let shorter = length-remove stream.fd s.pending in
      let gone = absent-remove_self stream.fd s.pending in
      let once' = distinct-remove stream.fd s.pending once in
      let own' = all-remove (entry_is_own os) stream.fd s.pending own in
      let settled' = all-remove entry_is_settled stream.fd s.pending settled in grind arith

  after_watch-IsWellFormed :
      (answer : Option IpcError) (stream : UnixStream) (deadline : ℕ) (s : Ipc)
      → is_own os stream ≡ true
      → length s.pending < max_pending_handshakes
      → IsWellFormed os s
      → IsWellFormed os (after_watch_readable os answer stream deadline s).1
  unfolding after_watch_readable
  after_watch-IsWellFormed (some e) stream deadline s mine room h = h
  after_watch-IsWellFormed none stream deadline s mine room h =
      insert-IsWellFormed stream deadline s mine room h

  after_nonblocking-IsWellFormed :
      (answer : Option IpcError) (stream : UnixStream) (accepted_at : ℕ) (s : Ipc)
      → is_own os stream ≡ true
      → length s.pending < max_pending_handshakes
      → IsWellFormed os s
      → IsWellFormed os (after_nonblocking os answer stream accepted_at s).1
  unfolding after_nonblocking register_in_time request_call called
  after_nonblocking-IsWellFormed (some e) stream accepted_at s mine room h = h
  after_nonblocking-IsWellFormed none stream accepted_at s mine room h =
      if-IsWellFormed os _ _ _ (called-IsWellFormed os s _ h) (
        after_watch-IsWellFormed _ stream _ _ mine room
          (called-IsWellFormed os _ _ (called-IsWellFormed os s IpcCall.now h)))

  authenticate-IsWellFormed :
      (answer : Result IpcError ℕ) (stream : UnixStream) (accepted_at : ℕ) (s : Ipc)
      → os.peer_effective_uid stream ≡ answer
      → length s.pending < max_pending_handshakes
      → IsWellFormed os s
      → IsWellFormed os (authenticate os answer stream accepted_at s).1
  unfolding authenticate request_call is_own called
  authenticate-IsWellFormed (err e) stream accepted_at s peer room h = h
  authenticate-IsWellFormed (ok uid) stream accepted_at s peer room h =
      test-IsWellFormed os (uid == os.effective_uid) _ _
        (λ mine.
          after_nonblocking-IsWellFormed _ stream accepted_at _ (ground (arith, peer)) room
            (called-IsWellFormed os s _ h))
        (λ other. h)

  register_accepted-IsWellFormed :
      (stream : UnixStream) (accepted_at : ℕ) (s : Ipc)
      → length s.pending < max_pending_handshakes
      → IsWellFormed os s
      → IsWellFormed os (register_accepted os stream accepted_at s).1
  unfolding register_accepted request_call called after_no_sigpipe
  register_accepted-IsWellFormed stream accepted_at s room h =
      no_sigpipe (os.perform s.trace (IpcCall.set_no_sigpipe stream)) _ room
        (called-IsWellFormed os s _ h)
    where
      no_sigpipe :
          (answer : Option IpcError) (s' : Ipc)
          → length s'.pending < max_pending_handshakes
          → IsWellFormed os s'
          → IsWellFormed os (after_no_sigpipe os answer stream accepted_at s').1
      no_sigpipe (some e) s' room' h' = h'
      no_sigpipe none s' room' h' = authenticate-IsWellFormed _ stream accepted_at s' refl room' h'

  after_accept-IsWellFormed :
      (answer : Result IpcError UnixStream) (s : Ipc)
      → length s.pending < max_pending_handshakes
      → IsWellFormed os s
      → IsWellFormed os (after_accept os answer s).1
  unfolding after_accept called
  after_accept-IsWellFormed (err e) s room h = h
  after_accept-IsWellFormed (ok stream) s room h =
      register_accepted-IsWellFormed stream _ _ room (called-IsWellFormed os s IpcCall.now h)

  accept_rounds-IsWellFormed :
      (attempts : ℕ) (s : Ipc) → IsWellFormed os s → IsWellFormed os (accept_rounds os attempts s)
  unfolding accept_rounds called
  accept_rounds-IsWellFormed zero s h = h
  accept_rounds-IsWellFormed (suc attempts) s h =
      choose-IsWellFormed os (leb max_pending_handshakes (length s.pending)) _ _ (λ full. h)
        (λ room.
          let next =
            after_accept-IsWellFormed (os.accept s.trace) (called s IpcCall.accept) (ground arith)
              (called-IsWellFormed os s IpcCall.accept h) in
          choose-IsWellFormed os _ _ _ (λ again. accept_rounds-IsWellFormed attempts _ next)
            (λ stop. next))

  expire-IsWellFormed : (now : ℕ) (s : Ipc) → IsWellFormed os s → IsWellFormed os (expire os now s)
  unfolding expire IsWellFormed IsSound
  expire-IsWellFormed now s ((few, others, once, own, theirs), settled) =
      let shorter = length-retain (is_live os now) s.pending in
      (
        (
          omega arith,
          others,
          distinct-retain (is_live os now) s.pending once,
          all-retain (is_live os now) (entry_is_own os) s.pending own,
          theirs,
        ),
        all-retain (is_live os now) entry_is_settled s.pending settled,
      )

  listener-IsWellFormed :
      (enabled : Bool) (s : Ipc)
      → IsWellFormed os s
      → IsWellFormed os (record s { listener_enabled = enabled })
  unfolding IsWellFormed
  listener-IsWellFormed enabled s h = h

  after_listener-IsWellFormed :
      (answer : Option IpcError) (enabled : Bool) (s : Ipc)
      → IsWellFormed os s
      → IsWellFormed os (after_listener os answer enabled s).1
  unfolding after_listener
  after_listener-IsWellFormed (some e) enabled s h = h
  after_listener-IsWellFormed none enabled s h = listener-IsWellFormed enabled s h

  adjust_listener-IsWellFormed :
      (s : Ipc) → IsWellFormed os s → IsWellFormed os (adjust_listener os s).1
  unfolding adjust_listener request_call
  adjust_listener-IsWellFormed s h =
      let off =
        after_listener-IsWellFormed _ false _
          (called-IsWellFormed os s IpcCall.disable_listener h) in
      let on =
        after_listener-IsWellFormed _ true _ (called-IsWellFormed os s IpcCall.enable_listener h) in
      if-IsWellFormed os (leb max_pending_handshakes (length s.pending) && s.listener_enabled) _ _
        off
        (if-IsWellFormed os
          (not (leb max_pending_handshakes (length s.pending)) && not s.listener_enabled) _ _ on h)

  accept_when_ready-IsWellFormed :
      (ready : Bool) (s : Ipc) → IsWellFormed os s → IsWellFormed os (accept_when_ready os ready s)
  unfolding accept_when_ready accept_connections
  accept_when_ready-IsWellFormed ready s h =
      choose-IsWellFormed os
        (ready && s.listener_enabled && ltb (length s.pending) max_pending_handshakes) _ _
        (λ accepts. accept_rounds-IsWellFormed max_accepts_per_batch s h) (λ waits. h)

  pub maintain-IsWellFormed :
      (ready : Bool) (now : ℕ) (s : Ipc)
      → IsWellFormed os s
      → IsWellFormed os (maintain os ready now s).1
  unfolding maintain
  maintain-IsWellFormed ready now s h =
      adjust_listener-IsWellFormed _
        (accept_when_ready-IsWellFormed ready _ (expire-IsWellFormed now s h))
