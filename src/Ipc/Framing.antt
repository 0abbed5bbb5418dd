-- ===== src/Ipc/Framing.antt =====
-- Messages of the control socket as lines (rust/src/ipc.rs): what one side writes, the other reads,
-- however the bytes come.
use open_code_server.Base.{
  ℕ, zero, suc, ◌+◌, ◌-◌, ◌≤◌, ◌<◌, ◌≡◌, refl, false, none, some, List, [], ◌∷◌, ◌++◌, arith, ok,
  is_some_and, Option-cases,
}
use open_code_server.Lists.{length, take, append_assoc, length-append, length-take_le}
use open_code_server.Protocol.Messages.{Request, Response, protocol_version, max_message_bytes}
use open_code_server.Ipc.{Kernel}
use open_code_server.Ipc.Reading.{
  newline, line_of, classify_command, classify_parsed, classify_request, action_of,
}
use open_code_server.Ipc.Writing.{fit_message, fit_encoded, encode_response}
use open_code_server.Ipc.Client.{
  ClientKernel, read_line, other_version, check_response, decode_line, receive_response,
}

-- A body with its newline, and whatever comes after it.
pub line_of-append :
    (body rest : List ℕ)
    → line_of body ≡ none
    → line_of (body ++ (newline ∷ rest)) ≡ some (body ++ (newline ∷ []))
unfolding line_of
line_of-append [] rest h = refl
line_of-append (b ∷ body) rest h =
    ground (arith, line_of-append body rest, Option-cases (line_of body))

pub line_of-take : (n : ℕ) (body : List ℕ) → line_of body ≡ none → line_of (take n body) ≡ none
unfolding line_of take
line_of-take zero body h = refl
line_of-take (suc n) [] h = refl
line_of-take (suc n) (b ∷ body) h = ground (arith, line_of-take n body, Option-cases (line_of body))

pub take-append :
    (n : ℕ) (xs ys : List ℕ) → length xs ≤ n → take n (xs ++ ys) ≡ xs ++ take (n - length xs) ys
unfolding take length
take-append n [] ys h = grind arith
take-append zero (x ∷ xs) ys h = absurd (omega arith)
take-append (suc n) (x ∷ xs) ys h = grind (arith, take-append n xs ys)

-- The line that the client reads of a message within the limit, whatever follows it.
pub read_line-message :
    (body rest : List ℕ)
    → line_of body ≡ none
    → length body < max_message_bytes
    → read_line (body ++ (newline ∷ rest)) ≡ body ++ (newline ∷ [])
unfolding read_line take
read_line-message body rest h short =
    rw
      (
        take-append (max_message_bytes + 1) body (newline ∷ rest) (omega arith),
        left,
        line_of-append body (take (max_message_bytes - length body) rest) h,
      )
      refl
  where
    left :
        take (max_message_bytes + 1 - length body) (newline ∷ rest)
        ≡ newline ∷ take (max_message_bytes - length body) rest
    left =
        let e : max_message_bytes + 1 - length body ≡ suc (max_message_bytes - length body) =
          omega arith in
        rw e refl

encode_response-body :
    (os : Kernel) (response : Response) (body encoded : List ℕ)
    → os.to_vec response ≡ some body
    → encode_response os response ≡ ok encoded
    → (encoded ≡ body ++ (newline ∷ [])) × (length body < max_message_bytes)
unfolding encode_response fit_encoded fit_message
encode_response-body os response body encoded written h = ground (arith, written)

decode_line-own :
    (client : ClientKernel) (response : Response) (body : List ℕ)
    → client.from_slice (body ++ (newline ∷ [])) ≡ some response
    → response.version ≡ protocol_version
    → is_some_and response.status other_version ≡ false
    → length body < max_message_bytes
    → decode_line client (body ++ (newline ∷ [])) ≡ ok response
unfolding decode_line check_response length
decode_line-own client response body read version status short =
    ground (arith, read, length-append body (newline ∷ []))

-- A response that the agent can encode reaches the client as it was, whatever bytes follow it,
-- where the JSON library writes the response without a newline and reads its own text back, and the
-- response and its status have the version of the protocol.
pub receive_response-encode_response :
    (os : Kernel) (client : ClientKernel) (response : Response) (body encoded rest : List ℕ)
    → os.to_vec response ≡ some body
    → line_of body ≡ none
    → client.from_slice (body ++ (newline ∷ [])) ≡ some response
    → response.version ≡ protocol_version
    → is_some_and response.status other_version ≡ false
    → encode_response os response ≡ ok encoded
    → receive_response client (ok (encoded ++ rest)) ≡ ok response
unfolding receive_response
receive_response-encode_response os client response body encoded rest written one_line read version
      status h =
    let (whole, short) = encode_response-body os response body encoded written h in
    rw (whole, append_assoc body (newline ∷ []) rest, read_line-message body rest one_line short)
      (decode_line-own client response body read version status short)

-- A request of the protocol's version, written as one line, asks nothing before its newline has come,
-- and then its command, whatever bytes follow it: where the JSON text has no newline and less than
-- 64 KiB and the JSON library reads it back.
pub action_of-request :
    (os : Kernel) (request : Request) (body rest : List ℕ) (n : ℕ)
    → line_of body ≡ none
    → length body < max_message_bytes
    → os.from_slice (body ++ (newline ∷ [])) ≡ some request
    → request.version ≡ protocol_version
    → (action_of os (take n body) ≡ none)
      × (action_of os (body ++ (newline ∷ rest)) ≡ some (classify_command request.command))
unfolding action_of classify_request classify_parsed length
action_of-request os request body rest n one_line short read version =
    let before = line_of-take n body one_line in
    let after = line_of-append body rest one_line in
    let shorter = length-take_le n body in
    (ground (arith, before), ground (arith, after, read, length-append body (newline ∷ [])))
