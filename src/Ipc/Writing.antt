-- ===== src/Ipc/Writing.antt =====
-- A response on the control socket (rust/src/ipc.rs): its encoding, its writing in bounded pieces, and
-- what becomes of the connection then.
use open_code_server.Base.{
  ℕ, zero, suc, Bool, true, false, not, Option, none, some, List, [], ◌∷◌, ◌++◌, ◌==◌, ◌+◌, ◌-◌,
  ltb, leb, Result, ok, err, if◌then◌else◌,
}
use open_code_server.Lists.{length, take, drop}
use open_code_server.Protocol.Messages.{Status, Response, success_response, max_message_bytes}
use open_code_server.Ipc.{
  IpcError, ResponseDisposition, PendingState, PendingConnection, IpcCall, Kernel, Ipc,
  write_budget, find_pending, called, remove, set_state, add_subscriber,
}

pub data WriteResult : Type 0 where
  keep close subscribe : WriteResult

abbrev pub finished : ResponseDisposition → WriteResult
finished ResponseDisposition.close = WriteResult.close
finished ResponseDisposition.subscribe = WriteResult.subscribe

abbrev pub Done : Type 0
Done = Result IpcError (Unit {0}) × Ipc

-- A call that is made only under a condition: `if armed && let Err(error) = call`.
abbrev pub when_armed : Bool → Option IpcError → Option IpcError
when_armed true answer = answer
when_armed false answer = none

abbrev pub called_if : Bool → Ipc → IpcCall → Ipc
called_if true s call = called s call
called_if false s call = s

unfoldable pub fit_message : List ℕ → Result IpcError (List ℕ)
fit_message encoded =
    if ltb max_message_bytes (length encoded + 1)
    then err IpcError.response_too_long
    else ok (encoded ++ (10 ∷ []))

unfoldable pub fit_encoded : Option (List ℕ) → Result IpcError (List ℕ)
unfolding fit_message
fit_encoded none = err IpcError.invalid_json
fit_encoded (some encoded) = fit_message encoded

-- The end of the piece that is written next.
unfoldable pub write_end : List ℕ → ℕ → ℕ
write_end response offset =
    if ltb (offset + write_budget) (length response) then offset + write_budget else length response

unfoldable pub or_closed : Option IpcError → ℕ → Ipc → Done
or_closed (some e) fd s = (err e, remove fd s)
or_closed none fd s = (ok tt, s)

unfoldable pub move_to_subscribers : ℕ → Option PendingConnection → Ipc → Ipc
move_to_subscribers fd (some c) s = add_subscriber c.stream (remove fd s)
move_to_subscribers fd none s = s

unfoldable pub after_watch : Option IpcError → ℕ → Ipc → Done
unfolding move_to_subscribers
after_watch (some e) fd s = (err e, remove fd s)
after_watch none fd s = (ok tt, move_to_subscribers fd (find_pending fd s.pending) s)

module _ (os : Kernel) where
  unfoldable pub encode_response : Response → Result IpcError (List ℕ)
  unfolding fit_encoded
  encode_response response = fit_encoded (os.to_vec response)

  unfoldable pub encode_status_push : Status → Result IpcError (List ℕ)
  unfolding encode_response
  encode_status_push status = encode_response (success_response status)

  unfoldable pub after_unarmed : Option IpcError → ℕ → Ipc → Done
  unfolding after_watch
  after_unarmed (some e) fd s = (err e, remove fd s)
  after_unarmed none fd s =
      let call = IpcCall.watch_stream fd in after_watch (os.perform s.trace call) fd (called s call)

  unfoldable pub conclude : WriteResult → ℕ → Bool → Ipc → Done
  unfolding or_closed after_unarmed
  conclude WriteResult.keep fd armed s =
      let call = IpcCall.watch_stream_writable fd in
      or_closed (when_armed (not armed) (os.perform s.trace call)) fd (called_if (not armed) s call)
  conclude WriteResult.close fd armed s = (ok tt, remove fd s)
  conclude WriteResult.subscribe fd armed s =
      let call = IpcCall.unwatch_stream_writable fd in
      after_unarmed (when_armed armed (os.perform s.trace call)) fd (called_if armed s call)

  -- The second look at the clock, after the write.
  unfoldable pub conclude_in_time : ℕ → ℕ → WriteResult → Bool → Ipc → Done
  unfolding conclude
  conclude_in_time fd deadline result armed s =
      let s' = called s IpcCall.now in
      if leb deadline (os.now s.trace) then (ok tt, remove fd s') else conclude result fd armed s'

  -- `stream.write(piece)`: at most the piece.
  unfoldable pub sent : List ℕ → Result IpcError ℕ → Result IpcError ℕ
  sent piece (ok n) = ok (if ltb n (length piece) then n else length piece)
  sent piece (err e) = err e

  unfoldable pub after_write :
      ℕ
      → PendingConnection
      → List ℕ
      → ℕ
      → ResponseDisposition
      → Result IpcError ℕ
      → Bool
      → Ipc
      → Done
  unfolding conclude_in_time
  after_write fd c response offset disposition (ok zero) armed s =
      conclude_in_time fd c.deadline WriteResult.close armed s
  after_write fd c response offset disposition (ok (suc n)) armed s =
      let offset' = offset + suc n in
      let s' = set_state fd (PendingState.writing response offset' disposition) s in
      let result = if offset' == length response then finished disposition else WriteResult.keep in
      conclude_in_time fd c.deadline result armed s'
  after_write fd c response offset disposition (err IpcError.would_block) armed s =
      conclude_in_time fd c.deadline WriteResult.keep armed s
  after_write fd c response offset disposition (err e) armed s = (err e, remove fd s)

  unfoldable pub write_piece :
      ℕ → PendingConnection → List ℕ → ℕ → ResponseDisposition → Bool → Ipc → Done
  unfolding after_write sent
  write_piece fd c response offset disposition armed s =
      let piece = take (write_end response offset - offset) (drop offset response) in
      after_write fd c response offset disposition (sent piece (os.space s.trace c.stream)) armed
        (called s (IpcCall.write c.stream piece))

  unfoldable pub write_in_state : ℕ → PendingConnection → PendingState → Bool → Ipc → Done
  unfolding write_piece
  write_in_state fd c (PendingState.writing response offset disposition) armed s =
      write_piece fd c response offset disposition armed s
  write_in_state fd c _ armed s = (ok tt, s)

  unfoldable pub writable : ℕ → Option PendingConnection → Bool → Ipc → Done
  unfolding write_in_state
  writable fd none armed s = (ok tt, s)
  writable fd (some c) armed s =
      let s' = called s IpcCall.now in
      if leb c.deadline (os.now s.trace)
      then (ok tt, remove fd s')
      else write_in_state fd c c.state armed s'

  unfoldable pub advance_write : ℕ → Bool → Ipc → Done
  unfolding writable
  advance_write fd armed s = writable fd (find_pending fd s.pending) armed s

  unfoldable pub handle_pending_writable : ℕ → Ipc → Done
  unfolding advance_write
  handle_pending_writable fd s = advance_write fd true s

  unfoldable pub reply_in_state : ℕ → PendingState → List ℕ → ResponseDisposition → Ipc → Done
  unfolding advance_write
  reply_in_state fd PendingState.awaiting_response encoded disposition s =
      advance_write fd false (set_state fd (PendingState.writing encoded 0 disposition) s)
  reply_in_state fd _ encoded disposition s = (err IpcError.wrong_state, remove fd s)

  unfoldable pub reply_to : ℕ → Option PendingConnection → List ℕ → ResponseDisposition → Ipc → Done
  unfolding reply_in_state
  reply_to fd none encoded disposition s = (ok tt, s)
  reply_to fd (some c) encoded disposition s =
      let s' = called s IpcCall.now in
      if leb c.deadline (os.now s.trace)
      then (ok tt, remove fd s')
      else reply_in_state fd c.state encoded disposition s'

  unfoldable pub after_encode : ℕ → Result IpcError (List ℕ) → ResponseDisposition → Ipc → Done
  unfolding reply_to
  after_encode fd (err e) disposition s = (err e, remove fd s)
  after_encode fd (ok encoded) disposition s =
      reply_to fd (find_pending fd s.pending) encoded disposition s

  unfoldable pub queue_response : ℕ → Response → ResponseDisposition → Ipc → Done
  unfolding after_encode encode_response
  queue_response fd response disposition s =
      after_encode fd (encode_response response) disposition s
