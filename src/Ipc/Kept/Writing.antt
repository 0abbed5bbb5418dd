-- ===== src/Ipc/Kept/Writing.antt =====
-- A response (rust/src/ipc.rs, `queue_response` and `advance_write`) and the order of the tables.
use open_code_server.Base.{
  ℕ, zero, suc, ◌+◌, ◌-◌, ◌≤◌, ◌<◌, ◌≡◌, refl, Bool, true, false, Option, some, none, List, [], ◌∷◌,
  ◌==◌, arith, Result, ok, err, if◌then◌else◌,
}
use open_code_server.Protocol.Messages.{Response, max_message_bytes}
use open_code_server.Lists.{length, take, drop, length-append, length-take}
use open_code_server.Ipc.{
  IpcError, ResponseDisposition, PendingState, PendingConnection, Kernel, Ipc, find_pending,
}
use open_code_server.Ipc.Writing.{
  WriteResult, finished, fit_message, fit_encoded, write_end, encode_response, sent, after_write,
  write_piece, write_in_state, writable, advance_write, reply_in_state, reply_to, after_encode,
  queue_response,
}
use open_code_server.Ipc.Sound.{
  is_settled, IsWellFormed, IsAside, called-IsWellFormed, IsWellFormed-IsAside, remove-IsWellFormed,
  set_state-IsAside, set_state-IsWellFormed, found_settled, if-IsWellFormed,
}
use open_code_server.Ipc.Kept.Concluding.{in_time-IsWellFormed}

module _ (os : Kernel) where
  -- Kept is a response only where some of it is left.
  unfinished-is_settled :
      (response : List ℕ) (offset : ℕ) (disposition : ResponseDisposition)
      → offset ≤ length response
      → length response ≤ max_message_bytes
      → (if offset == length response then finished disposition else WriteResult.keep)
        ≡ WriteResult.keep
      → is_settled (PendingState.writing response offset disposition) ≡ true
  unfolding is_settled
  unfinished-is_settled response offset ResponseDisposition.close within short h = ground arith
  unfinished-is_settled response offset ResponseDisposition.subscribe within short h = ground arith

  after_write-IsWellFormed :
      (fd : ℕ) (c : PendingConnection) (response : List ℕ) (offset : ℕ)
      (disposition : ResponseDisposition) (answer : Result IpcError ℕ) (armed : Bool) (s : Ipc)
      → ((n : ℕ) → answer ≡ ok n → offset + n ≤ length response)
      → length response ≤ max_message_bytes
      → IsWellFormed os s
      → IsWellFormed os (after_write os fd c response offset disposition answer armed s).1
  unfolding after_write
  after_write-IsWellFormed fd c response offset disposition (ok zero) armed s within short h =
      in_time-IsWellFormed os fd c.deadline WriteResult.close armed s
        (IsWellFormed-IsAside os fd s h) (λ e. h)
  after_write-IsWellFormed fd c response offset disposition (ok (suc n)) armed s within short h =
      in_time-IsWellFormed os fd c.deadline _ armed _ (set_state-IsAside os fd _ s aside) (λ e.
        set_state-IsWellFormed os fd _ s
          (unfinished-is_settled response (offset + suc n) disposition (within (suc n) refl) short
            e)
          aside)
    where
      aside : IsAside os fd s
      aside = IsWellFormed-IsAside os fd s h
  after_write-IsWellFormed fd c response offset disposition (err IpcError.would_block) armed s
        within short h =
      in_time-IsWellFormed os fd c.deadline WriteResult.keep armed s
        (IsWellFormed-IsAside os fd s h) (λ e. h)
  after_write-IsWellFormed fd c response offset disposition (err e) armed s within short h =
      remove-IsWellFormed os fd s (IsWellFormed-IsAside os fd s h)

  pub length-piece :
      (response : List ℕ) (offset : ℕ)
      → offset ≤ length response
      → offset + length (take (write_end response offset - offset) (drop offset response))
        ≤ length response
  unfolding write_end
  length-piece response offset h =
      ground (arith, length-take (write_end response offset - offset) (drop offset response))

  pub sent_short :
      (piece : List ℕ) (answer : Result IpcError ℕ) (n : ℕ)
      → sent os piece answer ≡ ok n
      → n ≤ length piece
  unfolding sent
  sent_short piece (ok m) n h = ground arith
  sent_short piece (err e) n h = ground arith

  write_piece-IsWellFormed :
      (fd : ℕ) (c : PendingConnection) (response : List ℕ) (offset : ℕ)
      (disposition : ResponseDisposition) (armed : Bool) (s : Ipc)
      → is_settled (PendingState.writing response offset disposition) ≡ true
      → IsWellFormed os s
      → IsWellFormed os (write_piece os fd c response offset disposition armed s).1
  unfolding write_piece is_settled
  write_piece-IsWellFormed fd c response offset disposition armed s settled h =
      after_write-IsWellFormed fd c response offset disposition _ armed _
        (λ n e. ground (arith, sent_short _ _ n e, length-piece response offset)) (ground arith)
        (called-IsWellFormed os s _ h)

  write_in_state-IsWellFormed :
      (fd : ℕ) (c : PendingConnection) (st : PendingState) (armed : Bool) (s : Ipc)
      → is_settled st ≡ true
      → IsWellFormed os s
      → IsWellFormed os (write_in_state os fd c st armed s).1
  unfolding write_in_state
  write_in_state-IsWellFormed fd c (PendingState.writing response offset disposition) armed s
        settled h =
      write_piece-IsWellFormed fd c response offset disposition armed s settled h
  write_in_state-IsWellFormed fd c (PendingState.reading buffer) armed s settled h = h
  write_in_state-IsWellFormed fd c PendingState.awaiting_response armed s settled h = h

  writable-IsWellFormed :
      (fd : ℕ) (found : Option PendingConnection) (armed : Bool) (s : Ipc)
      → find_pending fd s.pending ≡ found
      → IsWellFormed os s
      → IsWellFormed os (writable os fd found armed s).1
  unfolding writable
  writable-IsWellFormed fd none armed s e h = h
  writable-IsWellFormed fd (some c) armed s e h =
      if-IsWellFormed os _ _ _
        (remove-IsWellFormed os fd _ (IsWellFormed-IsAside os fd _ (called-IsWellFormed os s _ h)))
        (write_in_state-IsWellFormed fd c c.state armed _ (found_settled os fd s c e h)
          (called-IsWellFormed os s _ h))

  pub advance_write-IsWellFormed :
      (fd : ℕ) (armed : Bool) (s : Ipc)
      → IsWellFormed os s
      → IsWellFormed os (advance_write os fd armed s).1
  unfolding advance_write
  advance_write-IsWellFormed fd armed s h =
      writable-IsWellFormed fd (find_pending fd s.pending) armed s refl h

  -- The whole line, with its newline, fits the limit of a message.
  pub encode_response-length :
      (response : Response) (encoded : List ℕ)
      → encode_response os response ≡ ok encoded
      → (0 < length encoded) × (length encoded ≤ max_message_bytes)
  unfolding encode_response fit_encoded fit_message length
  encode_response-length response encoded h = fits (os.to_vec response) h
    where
      fits :
          (answer : Option (List ℕ))
          → fit_encoded answer ≡ ok encoded
          → (0 < length encoded) × (length encoded ≤ max_message_bytes)
      fits none e = ground arith
      fits (some body) e = ground (arith, length-append body (10 ∷ []))

  reply_in_state-IsWellFormed :
      (fd : ℕ) (st : PendingState) (encoded : List ℕ) (disposition : ResponseDisposition) (s : Ipc)
      → (0 < length encoded) × (length encoded ≤ max_message_bytes)
      → IsWellFormed os s
      → IsWellFormed os (reply_in_state os fd st encoded disposition s).1
  unfolding reply_in_state is_settled
  reply_in_state-IsWellFormed fd PendingState.awaiting_response encoded disposition s fits h =
      advance_write-IsWellFormed fd false _ (
        set_state-IsWellFormed os fd (PendingState.writing encoded 0 disposition) s (ground arith)
          (IsWellFormed-IsAside os fd s h))
  reply_in_state-IsWellFormed fd (PendingState.reading buffer) encoded disposition s fits h =
      remove-IsWellFormed os fd s (IsWellFormed-IsAside os fd s h)
  reply_in_state-IsWellFormed fd (PendingState.writing r o d) encoded disposition s fits h =
      remove-IsWellFormed os fd s (IsWellFormed-IsAside os fd s h)

  reply_to-IsWellFormed :
      (fd : ℕ) (found : Option PendingConnection) (encoded : List ℕ)
      (disposition : ResponseDisposition) (s : Ipc)
      → (0 < length encoded) × (length encoded ≤ max_message_bytes)
      → IsWellFormed os s
      → IsWellFormed os (reply_to os fd found encoded disposition s).1
  unfolding reply_to
  reply_to-IsWellFormed fd none encoded disposition s fits h = h
  reply_to-IsWellFormed fd (some c) encoded disposition s fits h =
      if-IsWellFormed os _ _ _
        (remove-IsWellFormed os fd _ (IsWellFormed-IsAside os fd _ (called-IsWellFormed os s _ h)))
        (reply_in_state-IsWellFormed fd c.state encoded disposition _ fits
          (called-IsWellFormed os s _ h))

  after_encode-IsWellFormed :
      (fd : ℕ) (answer : Result IpcError (List ℕ)) (disposition : ResponseDisposition) (s : Ipc)
      → ((encoded : List ℕ)
          → answer ≡ ok encoded
          → (0 < length encoded) × (length encoded ≤ max_message_bytes))
      → IsWellFormed os s
      → IsWellFormed os (after_encode os fd answer disposition s).1
  unfolding after_encode
  after_encode-IsWellFormed fd (err e) disposition s fits h =
      remove-IsWellFormed os fd s (IsWellFormed-IsAside os fd s h)
  after_encode-IsWellFormed fd (ok encoded) disposition s fits h =
      reply_to-IsWellFormed fd _ encoded disposition s (fits encoded refl) h

  pub queue_response-IsWellFormed :
      (fd : ℕ) (response : Response) (disposition : ResponseDisposition) (s : Ipc)
      → IsWellFormed os s
      → IsWellFormed os (queue_response os fd response disposition s).1
  unfolding queue_response
  queue_response-IsWellFormed fd response disposition s h =
      after_encode-IsWellFormed fd _ disposition s (encode_response-length response) h
