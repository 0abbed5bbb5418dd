-- ===== src/Ipc.antt =====
-- The control socket of the agent (rust/src/ipc.rs): the connections that it holds, the calls that it
-- makes of the kernel, and the operations on its table of connections.
pub mod Reading
pub mod Writing
pub mod Accepting
pub mod Subscribers
pub mod Client
pub mod Table
pub mod Sound
pub mod Kept
pub mod Framing
pub mod Timely
pub mod Tests
use open_code_server.Base.{
  ℕ, Bool, Option, none, some, List, [], ◌∷◌, ◌++◌, ◌==◌, leb, Result, err, if◌then◌else◌,
}
use open_code_server.Lists.{length}
use open_code_server.Protocol.Messages.{Request, Response}

-- Milliseconds.
abbrev pub handshake_timeout : ℕ
handshake_timeout = 5000

abbrev pub max_pending_handshakes : ℕ
max_pending_handshakes = 16

abbrev pub max_accepts_per_batch : ℕ
max_accepts_per_batch = max_pending_handshakes

abbrev pub max_subscribers : ℕ
max_subscribers = 4

abbrev pub read_budget : ℕ
read_budget = 4096

abbrev pub write_budget : ℕ
write_budget = 16_384

-- The errors that the code tells apart; `other` is an error of the kernel, by its number.
pub data IpcError : Type 0 where
  would_block permission_denied timed_out : IpcError
  wrong_state invalid_json response_too_long unsupported_version : IpcError
  address_in_use not_a_socket : IpcError
  other : ℕ → IpcError

-- An open socket: its descriptor, and which of the sockets that ever had it this one is.
pub record UnixStream : Type 0 where
  pub fd : ℕ
  pub id : ℕ

pub data ResponseDisposition : Type 0 where
  close subscribe : ResponseDisposition

pub data PendingState : Type 0 where
  reading : List ℕ → PendingState
  awaiting_response : PendingState
  writing : List ℕ → ℕ → ResponseDisposition → PendingState

pub record PendingConnection : Type 0 where
  pub stream : UnixStream
  pub deadline : ℕ
  pub state : PendingState

pub data IpcCall : Type 0 where
  now accept disable_listener enable_listener : IpcCall
  read : UnixStream → ℕ → IpcCall
  write : UnixStream → List ℕ → IpcCall
  set_no_sigpipe set_nonblocking : UnixStream → IpcCall
  watch_pending_readable unwatch_stream_readable : ℕ → IpcCall
  watch_stream_writable unwatch_stream_writable watch_stream : ℕ → IpcCall

-- What the kernel and the JSON library answer. An answer may depend on all calls before it, but the
-- user behind a connected socket is that of the socket. `incoming` is what the socket has to read,
-- `space` how much it takes.
pub record Kernel : Type 0 where
  pub now : List IpcCall → ℕ
  pub effective_uid : ℕ
  pub peer_effective_uid : UnixStream → Result IpcError ℕ
  pub accept : List IpcCall → Result IpcError UnixStream
  pub incoming : List IpcCall → UnixStream → Result IpcError (List ℕ)
  pub space : List IpcCall → UnixStream → Result IpcError ℕ
  pub perform : List IpcCall → IpcCall → Option IpcError
  pub from_slice : List ℕ → Option Request
  pub to_vec : Response → Option (List ℕ)

-- `?` on a call that has no value: its error ends the function.
abbrev pub and_then {ℓ} : {A : Type ℓ} → Option IpcError → Result IpcError A → Result IpcError A
and_then (some e) rest = err e
and_then none rest = rest

-- The fields of `IpcServer` that change, the streams of `Subscribers`, and the calls made, newest
-- first.
pub record Ipc : Type 0 where
  pub pending : List (ℕ × PendingConnection)
  pub listener_enabled : Bool
  pub subscribers : List UnixStream
  pub trace : List IpcCall

-- `self.pending.get(&fd)`
unfoldable pub find_pending : ℕ → List (ℕ × PendingConnection) → Option PendingConnection
find_pending fd [] = none
find_pending fd ((k, c) ∷ m) = if k == fd then some c else find_pending fd m

-- `self.pending.remove(&fd)`
unfoldable pub remove_pending : ℕ → List (ℕ × PendingConnection) → List (ℕ × PendingConnection)
remove_pending fd [] = []
remove_pending fd ((k, c) ∷ m) =
    let rest = remove_pending fd m in if k == fd then rest else (k, c) ∷ rest

-- `connection.state = state` through `self.pending.get_mut(&fd)`
unfoldable pub write_state :
    ℕ → PendingState → List (ℕ × PendingConnection) → List (ℕ × PendingConnection)
write_state fd state [] = []
write_state fd state ((k, c) ∷ m) =
    let rest = write_state fd state m in
    if k == fd then (k, record c { state = state }) ∷ rest else (k, c) ∷ rest

unfoldable pub called : Ipc → IpcCall → Ipc
called s call = record s { trace = call ∷ s.trace }

unfoldable pub remove : ℕ → Ipc → Ipc
remove fd s = record s { pending = remove_pending fd s.pending }

unfoldable pub set_state : ℕ → PendingState → Ipc → Ipc
set_state fd state s = record s { pending = write_state fd state s.pending }

-- `Subscribers::add`
unfoldable pub add_subscriber : UnixStream → Ipc → Ipc
add_subscriber stream s =
    if leb max_subscribers (length s.subscribers)
    then s
    else record s { subscribers = s.subscribers ++ (stream ∷ []) }
