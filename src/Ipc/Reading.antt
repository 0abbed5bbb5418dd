-- ===== src/Ipc/Reading.antt =====
-- A readable connection of the control socket (rust/src/ipc.rs): reading the bytes of a request up to
-- its newline, and what the request asks.
use open_code_server.Base.{
  ℕ, Option, none, some, List, [], ◌∷◌, ◌++◌, ◌==◌, ◌-◌, ltb, leb, Result, ok, err, if◌then◌else◌,
}
use open_code_server.Lists.{length, take}
use open_code_server.Protocol.{Command}
use open_code_server.Protocol.Messages.{Request, protocol_version, max_message_bytes}
use open_code_server.Ipc.{
  IpcError, UnixStream, PendingState, PendingConnection, IpcCall, Kernel, Ipc, read_budget,
  find_pending, called, remove, set_state,
}

pub data Rejection : Type 0 where
  exceeds_64_kib unsupported_version invalid_json : Rejection

pub data RequestAction : Type 0 where
  one_shot : Command → RequestAction
  subscribe : RequestAction
  reject : Rejection → RequestAction

pub data PendingRequest : Type 0 where
  one_shot : ℕ → Command → PendingRequest
  subscribe : ℕ → PendingRequest
  reject : ℕ → Rejection → PendingRequest

abbrev pub newline : ℕ
newline = 10

-- The bytes up to the first newline, with it.
unfoldable pub line_of : List ℕ → Option (List ℕ)
line_of [] = none
line_of (b ∷ bytes) =
    let rest = line_of bytes in
    if b == newline then some (b ∷ []) else elim rest [ some line ↦ some (b ∷ line) | none ↦ none ]

abbrev pub classify_command : Command → RequestAction
classify_command Command.subscribe = RequestAction.subscribe
classify_command command = RequestAction.one_shot command

unfoldable pub classify_parsed : Option Request → RequestAction
classify_parsed (some request) =
    if request.version == protocol_version
    then classify_command request.command
    else RequestAction.reject Rejection.unsupported_version
classify_parsed none = RequestAction.reject Rejection.invalid_json

abbrev pub request_of : ℕ → RequestAction → PendingRequest
request_of fd (RequestAction.one_shot command) = PendingRequest.one_shot fd command
request_of fd RequestAction.subscribe = PendingRequest.subscribe fd
request_of fd (RequestAction.reject why) = PendingRequest.reject fd why

abbrev pub Answer : Type 0
Answer = Result IpcError (Option PendingRequest) × Ipc

module _ (os : Kernel) where
  unfoldable pub classify_request : List ℕ → RequestAction
  unfolding classify_parsed
  classify_request line =
      if ltb max_message_bytes (length line)
      then RequestAction.reject Rejection.exceeds_64_kib
      else classify_parsed (os.from_slice line)

  -- What the bytes read so far ask: the first line, or too long a message.
  unfoldable pub action_of : List ℕ → Option RequestAction
  unfolding classify_request
  action_of buffer = elim (line_of buffer) [
    | some line ↦ some (classify_request line)
    | none ↦
        if length buffer == max_message_bytes
        then some (RequestAction.reject Rejection.exceeds_64_kib)
        else none
  ]

  unfoldable pub after_unwatch : ℕ → RequestAction → Option IpcError → Ipc → Answer
  after_unwatch fd action (some e) s = (err e, remove fd s)
  after_unwatch fd action none s =
      (ok (some (request_of fd action)), set_state fd PendingState.awaiting_response s)

  unfoldable pub hand_over : ℕ → Option RequestAction → Ipc → Answer
  unfolding after_unwatch
  hand_over fd none s = (ok none, s)
  hand_over fd (some action) s =
      let call = IpcCall.unwatch_stream_readable fd in
      after_unwatch fd action (os.perform s.trace call) (called s call)

  -- The second look at the clock, after the read.
  unfoldable pub before_deadline : ℕ → ℕ → Option RequestAction → Ipc → Answer
  unfolding hand_over
  before_deadline fd deadline action s =
      let s' = called s IpcCall.now in
      if leb deadline (os.now s.trace) then (ok none, remove fd s') else hand_over fd action s'

  unfoldable pub after_end : ℕ → ℕ → List ℕ → Ipc → Answer
  unfolding before_deadline
  after_end fd deadline buffer s =
      if length buffer == max_message_bytes
      then before_deadline fd deadline (some (RequestAction.reject Rejection.exceeds_64_kib)) s
      else before_deadline fd deadline none (remove fd s)

  unfoldable pub after_read : ℕ → ℕ → List ℕ → Result IpcError (List ℕ) → Ipc → Answer
  unfolding before_deadline after_end action_of
  after_read fd deadline buffer (ok []) s = after_end fd deadline buffer s
  after_read fd deadline buffer (ok (b ∷ bytes)) s =
      let buffer' = buffer ++ (b ∷ bytes) in
      before_deadline fd deadline (action_of buffer')
        (set_state fd (PendingState.reading buffer') s)
  after_read fd deadline buffer (err IpcError.would_block) s = before_deadline fd deadline none s
  after_read fd deadline buffer (err e) s = (err e, remove fd s)

  -- `stream.read(&mut bytes[..limit])`: at most `limit` of the bytes that have come.
  unfoldable pub received : ℕ → Result IpcError (List ℕ) → Result IpcError (List ℕ)
  received limit (ok bytes) = ok (take limit bytes)
  received limit (err e) = err e

  unfoldable pub read_stream : ℕ → UnixStream → Ipc → Result IpcError (List ℕ) × Ipc
  unfolding received
  read_stream limit stream s =
      (received limit (os.incoming s.trace stream), called s (IpcCall.read stream limit))

  unfoldable pub read_more : ℕ → PendingConnection → List ℕ → Ipc → Answer
  unfolding after_read read_stream
  read_more fd c buffer s =
      let remaining = max_message_bytes - length buffer in
      if remaining == 0
      then after_read fd c.deadline buffer (ok []) s
      else (let limit = if ltb remaining read_budget then remaining else read_budget in
          let (result, s') = read_stream limit c.stream s in
          after_read fd c.deadline buffer result s')

  unfoldable pub read_in_state : ℕ → PendingConnection → PendingState → Ipc → Answer
  unfolding read_more
  read_in_state fd c (PendingState.reading buffer) s = read_more fd c buffer s
  read_in_state fd c _ s = (ok none, s)

  unfoldable pub readable : ℕ → Option PendingConnection → Ipc → Answer
  unfolding read_in_state
  readable fd none s = (ok none, s)
  readable fd (some c) s =
      let s' = called s IpcCall.now in
      if leb c.deadline (os.now s.trace)
      then (ok none, remove fd s')
      else read_in_state fd c c.state s'

  unfoldable pub handle_pending_readable : ℕ → Ipc → Answer
  unfolding readable
  handle_pending_readable fd s = readable fd (find_pending fd s.pending) s
