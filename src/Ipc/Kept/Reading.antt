-- ===== src/Ipc/Kept/Reading.antt =====
-- A readable connection (rust/src/ipc.rs, `handle_pending_readable`) and the order of the tables.
use open_code_server.Base.{
  ℕ, ◌+◌, ◌≤◌, ◌≡◌, refl, true, Option, some, none, List, [], ◌∷◌, ◌++◌, arith, Result, ok, err,
  Option-cases,
}
use open_code_server.Protocol.Messages.{max_message_bytes}
use open_code_server.Lists.{length, length-append, length-take}
use open_code_server.Ipc.{
  IpcError, PendingState, PendingConnection, IpcCall, Kernel, Ipc, remove, set_state, find_pending,
}
use open_code_server.Ipc.Reading.{
  line_of, RequestAction, Rejection, action_of, after_unwatch, hand_over, before_deadline,
  after_end, after_read, read_more, read_stream, received, read_in_state, readable,
  handle_pending_readable,
}
use open_code_server.Ipc.Sound.{
  is_settled, IsWellFormed, IsAside, called-IsWellFormed, called-IsAside, IsWellFormed-IsAside,
  remove-IsWellFormed, set_state-IsAside, set_state-IsWellFormed, found_settled, if-IsWellFormed,
}

module _ (os : Kernel) where
  after_unwatch-IsWellFormed :
      (fd : ℕ) (action : RequestAction) (answer : Option IpcError) (s : Ipc)
      → IsAside os fd s
      → IsWellFormed os (after_unwatch os fd action answer s).1
  unfolding after_unwatch is_settled
  after_unwatch-IsWellFormed fd action (some e) s h = remove-IsWellFormed os fd s h
  after_unwatch-IsWellFormed fd action none s h =
      set_state-IsWellFormed os fd PendingState.awaiting_response s refl h

  hand_over-IsWellFormed :
      (fd : ℕ) (action : RequestAction) (s : Ipc)
      → IsAside os fd s
      → IsWellFormed os (hand_over os fd (some action) s).1
  unfolding hand_over
  hand_over-IsWellFormed fd action s h =
      after_unwatch-IsWellFormed fd action _ _ (called-IsAside os fd s _ h)

  in_time_some-IsWellFormed :
      (fd deadline : ℕ) (action : RequestAction) (s : Ipc)
      → IsAside os fd s
      → IsWellFormed os (before_deadline os fd deadline (some action) s).1
  unfolding before_deadline
  in_time_some-IsWellFormed fd deadline action s h =
      if-IsWellFormed os _ _ _ (remove-IsWellFormed os fd _ (called-IsAside os fd s IpcCall.now h))
        (hand_over-IsWellFormed fd action _ (called-IsAside os fd s IpcCall.now h))

  in_time_none-IsWellFormed :
      (fd deadline : ℕ) (s : Ipc)
      → IsWellFormed os s
      → IsWellFormed os (before_deadline os fd deadline none s).1
  unfolding before_deadline hand_over
  in_time_none-IsWellFormed fd deadline s h =
      if-IsWellFormed os _ _ _
        (remove-IsWellFormed os fd _
          (called-IsAside os fd s IpcCall.now (IsWellFormed-IsAside os fd s h)))
        (called-IsWellFormed os s IpcCall.now h)

  after_end-IsWellFormed :
      (fd deadline : ℕ) (buffer : List ℕ) (s : Ipc)
      → IsWellFormed os s
      → IsWellFormed os (after_end os fd deadline buffer s).1
  unfolding after_end
  after_end-IsWellFormed fd deadline buffer s h =
      if-IsWellFormed os _ _ _
        (in_time_some-IsWellFormed fd deadline (RequestAction.reject Rejection.exceeds_64_kib) s
          (IsWellFormed-IsAside os fd s h))
        (in_time_none-IsWellFormed fd deadline (remove fd s)
          (remove-IsWellFormed os fd s (IsWellFormed-IsAside os fd s h)))

  -- Bytes that ask nothing yet leave the connection settled.
  pub no_action-is_settled :
      (buffer : List ℕ)
      → length buffer ≤ max_message_bytes
      → action_of os buffer ≡ none
      → is_settled (PendingState.reading buffer) ≡ true
  unfolding action_of is_settled
  no_action-is_settled buffer short h = ground (arith, Option-cases (line_of buffer))

  in_time-IsWellFormed :
      (fd deadline : ℕ) (action : Option RequestAction) (s : Ipc)
      → IsAside os fd s
      → (action ≡ none → IsWellFormed os s)
      → IsWellFormed os (before_deadline os fd deadline action s).1
  in_time-IsWellFormed fd deadline (some action) s aside h =
      in_time_some-IsWellFormed fd deadline action s aside
  in_time-IsWellFormed fd deadline none s aside h = in_time_none-IsWellFormed fd deadline s (h refl)

  grown-IsWellFormed :
      (fd deadline : ℕ) (buffer : List ℕ) (s : Ipc)
      → length buffer ≤ max_message_bytes
      → IsAside os fd s
      → IsWellFormed os
          (before_deadline os fd deadline
            (action_of os buffer)
            (set_state fd (PendingState.reading buffer) s)).1
  grown-IsWellFormed fd deadline buffer s short aside =
      in_time-IsWellFormed fd deadline (action_of os buffer) _ (set_state-IsAside os fd _ s aside)
        (λ e. set_state-IsWellFormed os fd _ s (no_action-is_settled buffer short e) aside)

  after_read-IsWellFormed :
      (fd deadline : ℕ) (buffer : List ℕ) (result : Result IpcError (List ℕ)) (s : Ipc)
      → ((bytes : List ℕ) → result ≡ ok bytes → length buffer + length bytes ≤ max_message_bytes)
      → IsWellFormed os s
      → IsWellFormed os (after_read os fd deadline buffer result s).1
  unfolding after_read
  after_read-IsWellFormed fd deadline buffer (ok []) s fits h =
      after_end-IsWellFormed fd deadline buffer s h
  after_read-IsWellFormed fd deadline buffer (ok (b ∷ bytes)) s fits h =
      grown-IsWellFormed fd deadline (buffer ++ (b ∷ bytes)) s
        (omega (arith, length-append buffer (b ∷ bytes), fits (b ∷ bytes) refl))
        (IsWellFormed-IsAside os fd s h)
  after_read-IsWellFormed fd deadline buffer (err IpcError.would_block) s fits h =
      in_time_none-IsWellFormed fd deadline s h
  after_read-IsWellFormed fd deadline buffer (err e) s fits h =
      remove-IsWellFormed os fd s (IsWellFormed-IsAside os fd s h)

  pub received-length :
      (limit : ℕ) (answer : Result IpcError (List ℕ)) (bytes : List ℕ)
      → received os limit answer ≡ ok bytes
      → length bytes ≤ limit
  unfolding received
  received-length limit (ok all) bytes h = ground (arith, length-take limit all)
  received-length limit (err e) bytes h = ground arith

  read_more-IsWellFormed :
      (fd : ℕ) (c : PendingConnection) (buffer : List ℕ) (s : Ipc)
      → length buffer ≤ max_message_bytes
      → IsWellFormed os s
      → IsWellFormed os (read_more os fd c buffer s).1
  unfolding read_more read_stream after_read
  read_more-IsWellFormed fd c buffer s short h =
      if-IsWellFormed os _ _ _ (after_end-IsWellFormed fd c.deadline buffer s h) (
        after_read-IsWellFormed fd c.deadline buffer _ _
          (λ bytes e. ground (arith, received-length _ _ bytes e)) (called-IsWellFormed os s _ h))

  read_in_state-IsWellFormed :
      (fd : ℕ) (c : PendingConnection) (st : PendingState) (s : Ipc)
      → is_settled st ≡ true
      → IsWellFormed os s
      → IsWellFormed os (read_in_state os fd c st s).1
  unfolding read_in_state is_settled
  read_in_state-IsWellFormed fd c (PendingState.reading buffer) s settled h =
      read_more-IsWellFormed fd c buffer s (ground arith) h
  read_in_state-IsWellFormed fd c PendingState.awaiting_response s settled h = h
  read_in_state-IsWellFormed fd c (PendingState.writing response offset disposition) s settled h = h

  readable-IsWellFormed :
      (fd : ℕ) (found : Option PendingConnection) (s : Ipc)
      → find_pending fd s.pending ≡ found
      → IsWellFormed os s
      → IsWellFormed os (readable os fd found s).1
  unfolding readable
  readable-IsWellFormed fd none s e h = h
  readable-IsWellFormed fd (some c) s e h =
      if-IsWellFormed os _ _ _
        (remove-IsWellFormed os fd _ (IsWellFormed-IsAside os fd _ (called-IsWellFormed os s _ h)))
        (read_in_state-IsWellFormed fd c c.state _ (found_settled os fd s c e h)
          (called-IsWellFormed os s _ h))

  pub handle_pending_readable-IsWellFormed :
      (fd : ℕ) (s : Ipc) → IsWellFormed os s → IsWellFormed os (handle_pending_readable os fd s).1
  unfolding handle_pending_readable
  handle_pending_readable-IsWellFormed fd s h =
      readable-IsWellFormed fd (find_pending fd s.pending) s refl h
