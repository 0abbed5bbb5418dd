-- ===== src/Health.antt =====
-- The health request (rust/src/health.rs): connecting within a time limit, and what counts as a
-- healthy answer.
pub mod Laws
mod Tests
use open_code_server.Base.{
  ℕ, String, ◌+◌, ◌-◌, ◌*◌, Bool, not, ◌&&◌, ◌||◌, Option, none, some, List, [], ◌∷◌, ◌==◌, ltb,
  leb, Result, ok, err, if◌then◌else◌,
}
use open_code_server.Lists.{length, take, drop}
use open_code_server.Config.Text.{as_bytes}
use open_code_server.World.{HealthResult}

abbrev pub max_response_bytes : ℕ
max_response_bytes = 32_768

-- The errors of a request, each with what its text shows; `io` is an error of the kernel.
pub data HealthFailure : Type 0 where
  no_address too_large no_boundary not_utf8 empty bad_status unauthorized : HealthFailure
  bad_json bad_version : HealthFailure
  http io : ℕ → HealthFailure

-- `timeout.saturating_sub(elapsed()).min(timeout)`
abbrev pub remaining : ℕ → ℕ → ℕ
remaining timeout elapsed = timeout - elapsed

abbrev pub or_no_address : Option ℕ → HealthFailure
or_no_address none = HealthFailure.no_address
or_no_address (some e) = HealthFailure.io e

abbrev pub error_of : Result ℕ ℕ → Option ℕ
error_of (ok stream) = none
error_of (err e) = some e

abbrev pub Attempts : Type 0
Attempts = Result HealthFailure ℕ × List (ℕ × ℕ)

-- A stream ends the search, an error goes on.
abbrev pub or_next : Result ℕ ℕ → List (ℕ × ℕ) → Attempts → Attempts
or_next (ok stream) made rest = (ok stream, made)
or_next (err e) made rest = rest

-- The attempts that were made with the time each was given, newest first, and the stream or error.
-- The clock and the kernel may answer by the attempts before.
module _ (elapsed : List (ℕ × ℕ) → ℕ) (connect : List (ℕ × ℕ) → ℕ → ℕ → Result ℕ ℕ)
    (timeout : ℕ) where
  unfoldable pub connect_addresses_with : List ℕ → Option ℕ → List (ℕ × ℕ) → Attempts
  connect_addresses_with [] last_error made = (err (or_no_address last_error), made)
  connect_addresses_with (address ∷ addresses) last_error made =
      let time = remaining timeout (elapsed made) in
      let answer = connect made address time in
      let made' = (address, time) ∷ made in
      let rest = connect_addresses_with addresses (error_of answer) made' in
      if time == 0 then (err (or_no_address last_error), made) else or_next answer made' rest

-- `split_ascii_whitespace().nth(1)`
abbrev pub is_ascii_whitespace : ℕ → Bool
is_ascii_whitespace b = b == 9 || b == 10 || b == 12 || b == 13 || b == 32

unfoldable pub skip_blanks : List ℕ → List ℕ
skip_blanks [] = []
skip_blanks (b ∷ bytes) =
    let rest = skip_blanks bytes in if is_ascii_whitespace b then rest else b ∷ bytes

unfoldable pub word : List ℕ → List ℕ
word [] = []
word (b ∷ bytes) = let rest = word bytes in if is_ascii_whitespace b then [] else b ∷ rest

unfoldable pub second_word : List ℕ → List ℕ
unfolding skip_blanks word
second_word bytes =
    let line = skip_blanks bytes in word (skip_blanks (drop (length (word line)) line))

-- `parse::<u16>()`
unfoldable pub parse_digits : ℕ → List ℕ → Option ℕ
parse_digits value [] = some value
parse_digits value (b ∷ bytes) =
    let next = 10 * value + (b - b'0') in
    let rest = parse_digits next bytes in
    if not (leb b'0' b && leb b b'9') || ltb 65_535 next then none else rest

unfoldable pub parse_u16 : List ℕ → Option ℕ
unfolding parse_digits
parse_u16 [] = none
parse_u16 (b ∷ []) = parse_digits 0 (b ∷ [])
parse_u16 (b ∷ c ∷ bytes) =
    if b == b'+' then parse_digits 0 (c ∷ bytes) else parse_digits 0 (b ∷ c ∷ bytes)

-- `lines().next()`; a carriage return at its end is white space to what reads it.
unfoldable pub first_line : List ℕ → List ℕ
first_line [] = []
first_line (b ∷ bytes) = let rest = first_line bytes in if b == 10 then [] else b ∷ rest

-- What follows `\r\n\r\n`, where the bytes begin so.
abbrev pub boundary_rest : List ℕ → Option (List ℕ)
boundary_rest (a ∷ b ∷ c ∷ d ∷ rest) =
    if a == 13 && b == 10 && c == 13 && d == 10 then some rest else none
boundary_rest _ = none

abbrev pub after_byte : ℕ → Option (List ℕ × List ℕ) → Option (List ℕ × List ℕ)
after_byte b none = none
after_byte b (some (headers, body)) = some (b ∷ headers, body)

unfoldable pub split_headers : List ℕ → Option (List ℕ × List ℕ)
split_headers [] = none
split_headers (b ∷ bytes) = elim (boundary_rest (b ∷ bytes)) [
  | some body ↦ some ([], body)
  | none ↦ after_byte b (split_headers bytes)
]

unfoldable pub status_of : List ℕ → Option ℕ
unfolding second_word parse_u16 first_line
status_of headers = parse_u16 (second_word (first_line headers))

abbrev pub is_bad_version : String → Bool
is_bad_version version = length (as_bytes version) == 0 || ltb 128 (length (as_bytes version))

-- `is_utf8` is the standard library's `from_utf8`, `from_slice` the JSON library's.
module _ (is_utf8 : List ℕ → Bool) (from_slice : List ℕ → Option HealthResult) where
  unfoldable pub check_body : Option HealthResult → Result HealthFailure HealthResult
  check_body none = err HealthFailure.bad_json
  check_body (some result) =
      if is_bad_version result.version then err HealthFailure.bad_version else ok result

  unfoldable pub check_status : Option ℕ → List ℕ → Result HealthFailure HealthResult
  unfolding check_body
  check_status none body = err HealthFailure.bad_status
  check_status (some status) body =
      if status == 401
      then err HealthFailure.unauthorized
      else if not (status == 200)
      then err (HealthFailure.http status)
      else check_body (from_slice body)

  unfoldable pub check_headers : List ℕ → List ℕ → Result HealthFailure HealthResult
  unfolding check_status status_of
  check_headers headers body =
      if not (is_utf8 headers)
      then err HealthFailure.not_utf8
      else if length headers == 0
      then err HealthFailure.empty
      else check_status (status_of headers) body

  abbrev pub check_split : Option (List ℕ × List ℕ) → Result HealthFailure HealthResult
  check_split none = err HealthFailure.no_boundary
  check_split (some (headers, body)) = check_headers headers body

  unfoldable pub parse_response : List ℕ → Result HealthFailure HealthResult
  unfolding split_headers check_headers
  parse_response bytes = check_split (split_headers bytes)

  -- The response of `request_health` after its request was written.
  unfoldable pub receive_health : Result ℕ (List ℕ) → Result HealthFailure HealthResult
  unfolding parse_response
  receive_health (err e) = err (HealthFailure.io e)
  receive_health (ok content) =
      let bytes = take (max_response_bytes + 1) content in
      if ltb max_response_bytes (length bytes)
      then err HealthFailure.too_large
      else parse_response bytes
