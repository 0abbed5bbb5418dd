-- ===== src/Ipc/Tests.antt =====
-- The control socket of rust/src/ipc.rs on one connection: it subscribes, and a client reads the
-- response.
use open_code_server.Base.{
  ◌*◌, ◌<◌, ◌≡◌, refl, true, none, some, List, [], ◌∷◌, ltb, arith, ok, err, if◌then◌else◌,
}
use open_code_server.Lists.{length, take, drop, retain}
use open_code_server.Protocol.{Command}
use open_code_server.Protocol.Messages.{Request, Response, error_response}
use open_code_server.Ipc.{
  IpcError, UnixStream, PendingState, PendingConnection, IpcCall, Kernel, Ipc, ResponseDisposition,
  find_pending, called, remove, set_state, add_subscriber, write_state, remove_pending,
}
use open_code_server.Ipc.Reading.{
  PendingRequest, RequestAction, action_of, handle_pending_readable, line_of, read_stream,
}
use open_code_server.Ipc.Reading.{line_of, read_stream}
use open_code_server.Ipc.Writing.{
  write_end, queue_response, handle_pending_writable, encode_response,
}
use open_code_server.Ipc.Subscribers.{broadcast}
use open_code_server.Ipc.Accepting.{
  next_deadline, prepare_wait, maintain, insert, accept_connections,
}
use open_code_server.Ipc.Client.{ClientKernel, receive_response}
use open_code_server.Ipc.Sound.{IsWellFormed}
use open_code_server.Ipc.Kept.{IpcEvent, bound, serve_all, serve, serve_all-IsWellFormed}
use open_code_server.Ipc.Framing.{action_of-request, receive_response-encode_response}
use open_code_server.Ipc.Timely.{
  is_reading, prepare_wait-next_deadline, handle_pending_readable-is_reading,
}

abbrev one_stream : UnixStream
one_stream = record { fd = 7; id = 1 }

abbrev subscribe_request : Request
subscribe_request = record { version = 6; command = Command.subscribe }

abbrev refusal : Response
refusal = error_response "refused" none

-- The socket has the bytes "{}" and a newline, takes two bytes at a time, and one client connects.
abbrev one_client : Kernel
one_client = record {
  now = λ trace. 10 * length trace;
  effective_uid = 501;
  peer_effective_uid = λ stream. ok 501;
  accept = λ trace. if ltb 3 (length trace) then err IpcError.would_block else ok one_stream;
  incoming = λ trace stream. ok (123 ∷ 125 ∷ 10 ∷ []);
  space = λ trace stream. ok 2;
  perform = λ trace call. none;
  from_slice = λ bytes. some subscribe_request;
  to_vec = λ response. some (123 ∷ 125 ∷ []);
}

abbrev connects : List IpcEvent
connects = IpcEvent.about_to_wait ∷ IpcEvent.end_of_batch true ∷ []

abbrev subscribes : List IpcEvent
subscribes =
    IpcEvent.about_to_wait
    ∷ IpcEvent.end_of_batch true
    ∷ IpcEvent.pending_readable 7
    ∷ IpcEvent.respond 7 refusal ResponseDisposition.subscribe
    ∷ IpcEvent.pending_writable 7
    ∷ IpcEvent.push (91 ∷ 93 ∷ [])
    ∷ []

abbrev connected : Ipc
connected = serve_all one_client connects bound

-- One connection is pending, with a deadline 5 seconds after its accept.
connected_deadline : next_deadline connected ≡ some 5030
unfolding next_deadline serve_all serve maintain accept_connections length retain remove_pending
    called insert
connected_deadline = refl

-- After the request and its response, in two writes, the connection is a subscriber, and stays one
-- when it takes the whole of a push.
subscribed_once : length (serve_all one_client subscribes bound).subscribers ≡ 1
unfolding next_deadline serve_all serve maintain accept_connections length retain remove_pending
    called insert handle_pending_readable queue_response handle_pending_writable broadcast take drop
    find_pending write_state remove set_state add_subscriber read_stream line_of write_end
    prepare_wait
subscribed_once = refl

serve_all-IsWellFormed_example : IsWellFormed one_client (serve_all one_client subscribes bound)
serve_all-IsWellFormed_example = serve_all-IsWellFormed one_client subscribes

prepare_wait-next_deadline_example : 10 * length connected.trace < 5030
unfolding next_deadline serve_all serve maintain accept_connections length retain remove_pending
    called insert handle_pending_readable queue_response handle_pending_writable broadcast take drop
    find_pending write_state remove set_state add_subscriber read_stream line_of write_end
    prepare_wait
prepare_wait-next_deadline_example = prepare_wait-next_deadline one_client connected 5030 refl

abbrev asking : PendingConnection
asking = record { stream = one_stream; deadline = 5030; state = PendingState.reading [] }

handle_pending_readable-is_reading_example :
    (one_client.now connected.trace < asking.deadline)
    × ((t : List IpcCall) × ((handle_pending_readable one_client 7 connected).1.trace
          ≡ IpcCall.unwatch_stream_readable 7 ∷ IpcCall.now ∷ t)
        × (one_client.now t < asking.deadline))
    × (is_reading asking.state ≡ true)
    × (find_pending 7 (handle_pending_readable one_client 7 connected).1.pending
        ≡ some (record asking { state = PendingState.awaiting_response }))
unfolding next_deadline serve_all serve maintain accept_connections length retain remove_pending
    called insert handle_pending_readable queue_response handle_pending_writable broadcast take drop
    find_pending write_state remove set_state add_subscriber read_stream line_of write_end
    prepare_wait
handle_pending_readable-is_reading_example =
    handle_pending_readable-is_reading one_client 7 connected asking (PendingRequest.subscribe 7)
      refl refl

abbrev client : ClientKernel
client = record {
  connect = none;
  set_read_timeout = none;
  set_write_timeout = none;
  set_no_sigpipe = none;
  to_vec = λ request. some (123 ∷ 125 ∷ []);
  write_all = λ bytes. none;
  flush = none;
  reply = ok (123 ∷ 125 ∷ 10 ∷ []);
  from_slice = λ bytes. some refusal;
}

receive_response-encode_response_example :
    receive_response client (ok (123 ∷ 125 ∷ 10 ∷ 91 ∷ [])) ≡ ok refusal
unfolding length line_of encode_response
receive_response-encode_response_example =
    receive_response-encode_response one_client client refusal (123 ∷ 125 ∷ [])
      (123 ∷ 125 ∷ 10 ∷ []) (91 ∷ []) refl refl refl refl refl refl

action_of-request_example :
    (action_of one_client (123 ∷ []) ≡ none)
    × (action_of one_client (123 ∷ 125 ∷ 10 ∷ 91 ∷ []) ≡ some RequestAction.subscribe)
unfolding length line_of take
action_of-request_example =
    action_of-request one_client subscribe_request (123 ∷ 125 ∷ []) (91 ∷ []) 1 refl (omega arith)
      refl refl
