-- ===== src/Ipc/Client.antt =====
-- The client's side of the control socket and the preparation of its path (rust/src/ipc.rs,
-- `send_request` and `prepare_socket_path`).
use open_code_server.Base.{
  ℕ, Bool, not, ◌||◌, ◌+◌, Option, none, some, is_some_and, List, [], ◌∷◌, ◌++◌, ◌==◌, ltb, Result,
  ok, err, if◌then◌else◌,
}
use open_code_server.Lists.{length, take}
use open_code_server.Protocol.Messages.{
  Request, Status, Response, protocol_version, max_message_bytes,
}
use open_code_server.Ipc.{IpcError, and_then}
use open_code_server.Ipc.Reading.{newline, line_of}

-- What the kernel and the JSON library answer the client. `reply` is what the agent sends until it
-- closes the connection or the read fails.
pub record ClientKernel : Type 0 where
  pub connect : Option IpcError
  pub set_read_timeout : Option IpcError
  pub set_write_timeout : Option IpcError
  pub set_no_sigpipe : Option IpcError
  pub to_vec : Request → Option (List ℕ)
  pub write_all : List ℕ → Option IpcError
  pub flush : Option IpcError
  pub reply : Result IpcError (List ℕ)
  pub from_slice : List ℕ → Option Response

unfoldable pub encode_request : Option (List ℕ) → Result IpcError (List ℕ)
encode_request none = err IpcError.invalid_json
encode_request (some encoded) = ok (encoded ++ (newline ∷ []))

-- `read_until`: up to the newline, or all there is.
abbrev pub line_or_all : Option (List ℕ) → List ℕ → List ℕ
line_or_all (some line) bytes = line
line_or_all none bytes = bytes

unfoldable pub read_line : List ℕ → List ℕ
read_line bytes =
    let limited = take (max_message_bytes + 1) bytes in line_or_all (line_of limited) limited

abbrev pub other_version : Status → Bool
other_version status = not (status.protocol_version == protocol_version)

unfoldable pub check_response : Option Response → Result IpcError Response
check_response none = err IpcError.invalid_json
check_response (some response) =
    if not (response.version == protocol_version) || is_some_and response.status other_version
    then err IpcError.unsupported_version
    else ok response

module _ (client : ClientKernel) where
  unfoldable pub decode_line : List ℕ → Result IpcError Response
  unfolding check_response
  decode_line line =
      if ltb max_message_bytes (length line)
      then err IpcError.response_too_long
      else check_response (client.from_slice line)

  unfoldable pub receive_response : Result IpcError (List ℕ) → Result IpcError Response
  unfolding decode_line read_line
  receive_response (err e) = err e
  receive_response (ok bytes) = decode_line (read_line bytes)

  unfoldable pub send_encoded : Result IpcError (List ℕ) → Result IpcError Response
  unfolding receive_response
  send_encoded (err e) = err e
  send_encoded (ok encoded) =
      and_then (client.write_all encoded) (and_then client.flush (receive_response client.reply))

  unfoldable pub send_request : Request → Result IpcError Response
  unfolding send_encoded encode_request
  send_request request = and_then client.connect (
      and_then client.set_read_timeout (
        and_then client.set_write_timeout
          (and_then client.set_no_sigpipe (send_encoded (encode_request (client.to_vec request))))))

-- What `prepare_socket_path` finds at the path: whether anything, whether a socket, and whether
-- another agent answers on it.
pub record SocketPath : Type 0 where
  pub exists : Bool
  pub is_socket : Bool
  pub connects : Bool
  pub remove_file : Option IpcError

unfoldable pub prepare_socket_path : SocketPath → Option IpcError
prepare_socket_path path =
    if not path.exists
    then none
    else if not path.is_socket
    then some IpcError.not_a_socket
    else if path.connects
    then some IpcError.address_in_use
    else path.remove_file
