-- ===== src/Ipc/Kept.antt =====
-- The control socket of rust/src/ipc.rs over any sequence of its operations, and the order of its
-- tables in every state that it reaches.
pub mod Reading
pub mod Concluding
pub mod Writing
pub mod Accepting
pub mod Subscribing
use open_code_server.Base.{ℕ, Bool, true, false, List, [], ◌∷◌, refl, arith}
use open_code_server.Protocol.Messages.{Response}
use open_code_server.Lists.{length, all}
use open_code_server.Ipc.{IpcCall, ResponseDisposition, Kernel, Ipc}
use open_code_server.Ipc.Reading.{handle_pending_readable}
use open_code_server.Ipc.Writing.{handle_pending_writable, queue_response}
use open_code_server.Ipc.Accepting.{prepare_wait, finish_event_batch}
use open_code_server.Ipc.Subscribers.{broadcast, handle_readable}
use open_code_server.Ipc.Sound.{IsSound, IsWellFormed, called-IsWellFormed}
use open_code_server.Ipc.Table.{distinct}
use Reading.{handle_pending_readable-IsWellFormed}
use Writing.{advance_write-IsWellFormed, queue_response-IsWellFormed}
use Accepting.{maintain-IsWellFormed}
use Subscribing.{broadcast-IsWellFormed, handle_readable-IsWellFormed}

-- What the event loop asks of the control socket.
pub data IpcEvent : Type 0 where
  about_to_wait : IpcEvent
  end_of_batch : Bool → IpcEvent
  pending_readable pending_writable subscriber_readable : ℕ → IpcEvent
  respond : ℕ → Response → ResponseDisposition → IpcEvent
  push : List ℕ → IpcEvent

-- `IpcServer::bind` and `Subscribers::new`, after the calls of the file system.
abbrev pub bound : Ipc
bound = record { pending = []; listener_enabled = true; subscribers = []; trace = [] }

module _ (os : Kernel) where
  unfoldable pub serve : IpcEvent → Ipc → Ipc
  unfolding prepare_wait finish_event_batch handle_pending_writable
  serve IpcEvent.about_to_wait s = (prepare_wait os s).1
  serve (IpcEvent.end_of_batch ready) s = (finish_event_batch os ready s).1
  serve (IpcEvent.pending_readable fd) s = (handle_pending_readable os fd s).1
  serve (IpcEvent.pending_writable fd) s = (handle_pending_writable os fd s).1
  serve (IpcEvent.subscriber_readable fd) s = handle_readable os fd s
  serve (IpcEvent.respond fd response disposition) s =
      (queue_response os fd response disposition s).1
  serve (IpcEvent.push line) s = broadcast os line s

  unfoldable pub serve_all : List IpcEvent → Ipc → Ipc
  unfolding serve
  serve_all [] s = s
  serve_all (event ∷ events) s = serve_all events (serve event s)

  pub serve-IsWellFormed :
      (event : IpcEvent) (s : Ipc) → IsWellFormed os s → IsWellFormed os (serve event s)
  unfolding serve prepare_wait finish_event_batch handle_pending_writable
  serve-IsWellFormed IpcEvent.about_to_wait s h =
      maintain-IsWellFormed os false (os.now s.trace) _ (called-IsWellFormed os s IpcCall.now h)
  serve-IsWellFormed (IpcEvent.end_of_batch ready) s h =
      maintain-IsWellFormed os ready (os.now s.trace) _ (called-IsWellFormed os s IpcCall.now h)
  serve-IsWellFormed (IpcEvent.pending_readable fd) s h =
      handle_pending_readable-IsWellFormed os fd s h
  serve-IsWellFormed (IpcEvent.pending_writable fd) s h = advance_write-IsWellFormed os fd true s h
  serve-IsWellFormed (IpcEvent.subscriber_readable fd) s h = handle_readable-IsWellFormed os fd s h
  serve-IsWellFormed (IpcEvent.respond fd response disposition) s h =
      queue_response-IsWellFormed os fd response disposition s h
  serve-IsWellFormed (IpcEvent.push line) s h = broadcast-IsWellFormed os line s h

  serve_from-IsWellFormed :
      (events : List IpcEvent) (s : Ipc) → IsWellFormed os s → IsWellFormed os (serve_all events s)
  unfolding serve_all
  serve_from-IsWellFormed [] s h = h
  serve_from-IsWellFormed (event ∷ events) s h =
      serve_from-IsWellFormed events _ (serve-IsWellFormed event s h)

  -- In every state that the control socket reaches from its bind, over any sequence of events and
  -- answers of the kernel: at most 16 connections are pending and at most 4 subscribed, no descriptor
  -- is pending twice, the peer of every pending and every subscribed connection is of the agent's own
  -- user, a request that is being read has room left and no newline yet, and a response that is being
  -- written is at most 64 KiB long and not at its end.
  pub serve_all-IsWellFormed : (events : List IpcEvent) → IsWellFormed os (serve_all events bound)
  unfolding IsWellFormed IsSound length all distinct
  serve_all-IsWellFormed events =
      serve_from-IsWellFormed events bound ((omega arith, omega arith, refl, refl, refl), refl)
