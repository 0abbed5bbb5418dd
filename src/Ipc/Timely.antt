-- ===== src/Ipc/Timely.antt =====
-- Deadlines and requests of the control socket (rust/src/ipc.rs): no connection outlives its deadline,
-- and each hands over one request at most.
use open_code_server.Base.{
  ℕ, ◌-◌, ◌<◌, ◌≡◌, refl, sym, ap, ◌∙◌, Bool, true, false, Option, none, some, List, [], ◌∷◌, ◌==◌,
  arith, Result, ok, err, if◌then◌else◌, Option-cases, ◌≢◌, leb, ◌++◌,
}
use open_code_server.Lists.{length, all, all-retain_self}
use open_code_server.Protocol.Messages.{max_message_bytes}
use open_code_server.Ipc.{
  IpcError, PendingState, PendingConnection, IpcCall, Kernel, Ipc, called, remove, set_state,
  find_pending, write_state,
}
use open_code_server.Ipc.Reading.{
  RequestAction, Rejection, PendingRequest, Answer, after_unwatch, hand_over, before_deadline,
  after_end, after_read, action_of, read_more, read_stream, read_in_state, readable,
  handle_pending_readable,
}
use open_code_server.Ipc.Accepting.{
  next_deadline, earliest, min_deadline, is_live, expire, after_listener, adjust_listener,
  accept_when_ready, maintain, prepare_wait, request_call,
}
use open_code_server.Ipc.Table.{Table, find-write, write-write}

unfoldable pub is_reading : PendingState → Bool
is_reading (PendingState.reading buffer) = true
is_reading _ = false

min_deadline-late :
    (now d deadline : ℕ) (rest : Option ℕ)
    → now < deadline
    → ((other : ℕ) → rest ≡ some other → now < other)
    → some (min_deadline deadline rest) ≡ some d
    → now < d
min_deadline-late now d deadline none late rest_late h = ground arith
min_deadline-late now d deadline (some other) late rest_late h =
    ground (arith, rest_late other refl)

module _ (os : Kernel) where
  earliest-late :
      (now d : ℕ) (m : Table) → all (is_live os now) m ≡ true → earliest m ≡ some d → now < d
  unfolding earliest all
  earliest-late now d [] live h = ground arith
  earliest-late now d ((fd, c) ∷ m) live h =
      min_deadline-late now d c.deadline (earliest m) (ground arith)
        (λ other e. earliest-late now other m (ground arith) e) h

  adjust_listener-pending : (s : Ipc) → (adjust_listener os s).1.pending ≡ s.pending
  unfolding adjust_listener request_call after_listener called
  adjust_listener-pending s = ground (
    arith,
    Option-cases (os.perform s.trace IpcCall.disable_listener),
    Option-cases (os.perform s.trace IpcCall.enable_listener),
  )

  -- When the agent is about to wait, the deadline it waits for is after the time it has read: no
  -- connection stays beyond its deadline, and the wait is never for a moment that has passed.
  pub prepare_wait-next_deadline :
      (s : Ipc) (d : ℕ) → next_deadline (prepare_wait os s).1 ≡ some d → os.now s.trace < d
  unfolding next_deadline prepare_wait maintain accept_when_ready expire called
  prepare_wait-next_deadline s d h =
      earliest-late (os.now s.trace) d _ (all-retain_self (is_live os (os.now s.trace)) s.pending)
        (ap earliest (sym (adjust_listener-pending _)) ∙ h)

  -- The last reading of the clock was before the deadline, and only the end of the watching came after
  -- it; the table of connections is then this one.
  abbrev Handed : ℕ → ℕ → Table → Ipc → Type 0
  Handed fd deadline m s =
      ((t : List IpcCall) × (s.trace ≡ IpcCall.unwatch_stream_readable fd ∷ IpcCall.now ∷ t)
        × (os.now t < deadline))
      × (s.pending ≡ m)

  either-Handed :
      (test : Bool) (x y : Answer) (fd deadline : ℕ) (r : PendingRequest) (m : Table)
      → (x.0 ≡ ok (some r) → Handed fd deadline m x.1)
      → (y.0 ≡ ok (some r) → Handed fd deadline m y.1)
      → (if test then x else y).0 ≡ ok (some r)
      → Handed fd deadline m (if test then x else y).1
  either-Handed true x y fd deadline r m h g e = h e
  either-Handed false x y fd deadline r m h g e = g e

  nothing-handed :
      (fd deadline : ℕ) (s : Ipc) (r : PendingRequest)
      → (before_deadline os fd deadline none s).0 ≢ ok (some r)
  unfolding before_deadline hand_over
  nothing-handed fd deadline s r e = ground arith

  hand_over-Handed :
      (fd deadline : ℕ) (action : Option RequestAction) (s : Ipc) (r : PendingRequest)
      → (before_deadline os fd deadline action s).0 ≡ ok (some r)
      → Handed fd deadline
          (write_state fd PendingState.awaiting_response s.pending)
          (before_deadline os fd deadline action s).1
  unfolding before_deadline hand_over after_unwatch set_state called
  hand_over-Handed fd deadline none s r h = ground arith
  hand_over-Handed fd deadline (some action) s r h = (
    (
      s.trace,
      ground (
        arith,
        Option-cases (os.perform (called s IpcCall.now).trace (IpcCall.unwatch_stream_readable fd)),
      ),
      ground arith,
    ),
    ground (
      arith,
      Option-cases (os.perform (called s IpcCall.now).trace (IpcCall.unwatch_stream_readable fd)),
    ),
  )

  after_end-Handed :
      (fd deadline : ℕ) (buffer : List ℕ) (s : Ipc) (r : PendingRequest)
      → (after_end os fd deadline buffer s).0 ≡ ok (some r)
      → Handed fd deadline
          (write_state fd PendingState.awaiting_response s.pending)
          (after_end os fd deadline buffer s).1
  unfolding after_end
  after_end-Handed fd deadline buffer s r h =
      either-Handed (length buffer == max_message_bytes) _ _ fd deadline r _
        (hand_over-Handed fd deadline (some (RequestAction.reject Rejection.exceeds_64_kib)) s r)
        (λ e. absurd (nothing-handed fd deadline (remove fd s) r e)) h

  after_read-Handed :
      (fd deadline : ℕ) (buffer : List ℕ) (result : Result IpcError (List ℕ)) (s : Ipc)
      (r : PendingRequest)
      → (after_read os fd deadline buffer result s).0 ≡ ok (some r)
      → Handed fd deadline
          (write_state fd PendingState.awaiting_response s.pending)
          (after_read os fd deadline buffer result s).1
  unfolding after_read set_state
  after_read-Handed fd deadline buffer (ok []) s r h = after_end-Handed fd deadline buffer s r h
  after_read-Handed fd deadline buffer (ok (b ∷ bytes)) s r h =
      let (in_time, same) =
        hand_over-Handed fd deadline (action_of os (buffer ++ (b ∷ bytes)))
          (set_state fd (PendingState.reading (buffer ++ (b ∷ bytes))) s) r h in
      (in_time, same ∙ write-write fd PendingState.awaiting_response _ s.pending)
  after_read-Handed fd deadline buffer (err IpcError.would_block) s r h =
      hand_over-Handed fd deadline none s r h
  after_read-Handed fd deadline buffer (err e) s r h = ground arith

  in_state-Handed :
      (fd : ℕ) (c : PendingConnection) (st : PendingState) (s : Ipc) (r : PendingRequest)
      → (read_in_state os fd c st s).0 ≡ ok (some r)
      → (is_reading st ≡ true)
        × Handed fd c.deadline
            (write_state fd PendingState.awaiting_response s.pending)
            (read_in_state os fd c st s).1
  unfolding is_reading read_in_state read_more read_stream called
  in_state-Handed fd c PendingState.awaiting_response s r h = ground arith
  in_state-Handed fd c (PendingState.writing response offset disposition) s r h = ground arith
  in_state-Handed fd c (PendingState.reading buffer) s r h = (
    refl,
    either-Handed (max_message_bytes - length buffer == 0) _ _ fd c.deadline r _
        (after_read-Handed fd c.deadline buffer (ok []) s r)
        (after_read-Handed fd c.deadline buffer _ _ r) h,
  )

  readable-by :
      (late : Bool) (s : Ipc) (y : Answer) (fd deadline : ℕ) (r : PendingRequest) (m : Table)
      (reading : Bool)
      → (y.0 ≡ ok (some r) → (reading ≡ true) × Handed fd deadline m y.1)
      → (if late then (ok none, s) else y).0 ≡ ok (some r)
      → (reading ≡ true) × Handed fd deadline m (if late then (ok none, s) else y).1
  readable-by true s y fd deadline r m reading h e = ground arith
  readable-by false s y fd deadline r m reading h e = h e

  readable-Handed :
      (fd : ℕ) (c : PendingConnection) (s : Ipc) (r : PendingRequest)
      → (readable os fd (some c) s).0 ≡ ok (some r)
      → (is_reading c.state ≡ true)
        × Handed fd c.deadline
            (write_state fd PendingState.awaiting_response s.pending)
            (readable os fd (some c) s).1
  unfolding readable called
  readable-Handed fd c s r h =
      readable-by (leb c.deadline (os.now s.trace)) _ _ fd c.deadline r _ (is_reading c.state)
        (in_state-Handed fd c c.state (called s IpcCall.now) r) h

  entered :
      (fd : ℕ) (c : PendingConnection) (s : Ipc) (r : PendingRequest)
      → (readable os fd (some c) s).0 ≡ ok (some r)
      → os.now s.trace < c.deadline
  unfolding readable called
  entered fd c s r h = ground arith

  -- A readable event that hands over a request does so before the deadline of the connection, both by
  -- the clock at its start and by a reading of the clock after the request was read, which only the
  -- call that ends the watching of the connection follows. The connection was reading until then and
  -- awaits its response from then on; a connection that awaits its response, or that is being written
  -- to, hands over nothing.
  pub handle_pending_readable-is_reading :
      (fd : ℕ) (s : Ipc) (c : PendingConnection) (r : PendingRequest)
      → find_pending fd s.pending ≡ some c
      → (handle_pending_readable os fd s).0 ≡ ok (some r)
      → (os.now s.trace < c.deadline)
        × ((t : List IpcCall) × ((handle_pending_readable os fd s).1.trace
              ≡ IpcCall.unwatch_stream_readable fd ∷ IpcCall.now ∷ t)
            × (os.now t < c.deadline))
        × (is_reading c.state ≡ true)
        × (find_pending fd (handle_pending_readable os fd s).1.pending
            ≡ some (record c { state = PendingState.awaiting_response }))
  unfolding handle_pending_readable
  handle_pending_readable-is_reading fd s c r found h =
      let same : handle_pending_readable os fd s ≡ readable os fd (some c) s =
        ap (λ found. readable os fd found s) found in
      let h' : (readable os fd (some c) s).0 ≡ ok (some r) =
        sym (ap (λ (a : Answer). a.0) same) ∙ h in
      let (reading, ((t, trace, in_time), awaiting)) = readable-Handed fd c s r h' in
      (
        entered fd c s r h',
        (t, ap (λ (a : Answer). a.1.trace) same ∙ trace, in_time),
        reading,
        ap (λ (a : Answer). find_pending fd a.1.pending) same
            ∙ ap (find_pending fd) awaiting
            ∙ find-write fd PendingState.awaiting_response s.pending c found,
      )
