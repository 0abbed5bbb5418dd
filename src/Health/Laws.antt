-- ===== src/Health/Laws.antt =====
-- What a health request keeps to (rust/src/health.rs): its time, and what it accepts.
use open_code_server.Base.{
  ℕ, ◌+◌, ◌≤◌, ◌<◌, ◌≡◌, refl, sym, ap, ◌∙◌, Bool, true, false, Option, none, some, List, [], ◌∷◌,
  ◌++◌, ◌==◌, arith, Result, ok, err, if◌then◌else◌,
}
use open_code_server.Lists.{length}
use open_code_server.World.{HealthResult}
use open_code_server.Health.{
  HealthFailure, Attempts, or_next, error_of, or_no_address, remaining, connect_addresses_with,
  boundary_rest, after_byte, split_headers, status_of, is_bad_version, check_body, check_status,
  check_headers, check_split, parse_response,
}

module _ (elapsed : List (ℕ × ℕ) → ℕ) (connect : List (ℕ × ℕ) → ℕ → ℕ → Result ℕ ℕ)
    (timeout : ℕ) where
  -- Each attempt was given some time, and what was left of the limit when it began.
  unfoldable pub IsInTime : List (ℕ × ℕ) → Type 0
  IsInTime [] = Unit {0}
  IsInTime ((address, time) ∷ made) = (0 < time) × (time + elapsed made ≡ timeout) × IsInTime made

  unfoldable pub IsBounded : ℕ → Attempts → Type 0
  unfolding IsInTime
  IsBounded most attempts = IsInTime attempts.1 × (length attempts.1 ≤ most)

  guarded-IsBounded :
      (spent : Bool) (most : ℕ) (x y : Attempts)
      → IsBounded most x
      → (spent ≡ false → IsBounded most y)
      → IsBounded most (if spent then x else y)
  guarded-IsBounded true most x y h g = h
  guarded-IsBounded false most x y h g = g refl

  or_next-IsBounded :
      (answer : Result ℕ ℕ) (most : ℕ) (made : List (ℕ × ℕ)) (rest : Attempts)
      → IsInTime made
      → length made ≤ most
      → IsBounded most rest
      → IsBounded most (or_next answer made rest)
  unfolding IsBounded
  or_next-IsBounded (ok stream) most made rest h few g = (h, few)
  or_next-IsBounded (err e) most made rest h few g = g

  IsBounded-weaken : (few most : ℕ) (x : Attempts) → few ≤ most → IsBounded few x → IsBounded most x
  unfolding IsBounded
  IsBounded-weaken few most x more (in_time, short) = (in_time, omega arith)

  -- The attempts to connect are at most one for each address, each begins before the time limit, and
  -- each is given the time that is left.
  pub connect_addresses_with-IsBounded :
      (addresses : List ℕ) (last_error : Option ℕ) (made : List (ℕ × ℕ))
      → IsInTime made
      → IsBounded
          (length addresses + length made)
          (connect_addresses_with elapsed connect timeout addresses last_error made)
  unfolding connect_addresses_with length IsBounded
  connect_addresses_with-IsBounded [] last_error made h = (h, omega arith)
  connect_addresses_with-IsBounded (address ∷ addresses) last_error made h =
      guarded-IsBounded (remaining timeout (elapsed made) == 0)
        (length (address ∷ addresses) + length made) (err (or_no_address last_error), made) _
        (h, omega arith)
        (λ left.
          let time = remaining timeout (elapsed made) in
          let made' : List (ℕ × ℕ) = (address, time) ∷ made in
          let next : IsInTime made' = (ground arith, ground arith, h) in
          let answer = connect made address time in
          let rest : Attempts =
            connect_addresses_with elapsed connect timeout addresses (error_of answer) made' in
          or_next-IsBounded answer (length (address ∷ addresses) + length made) made' rest next
            (omega arith)
            (IsBounded-weaken (length addresses + length made') _ rest (omega arith)
              (connect_addresses_with-IsBounded addresses (error_of answer) made' next)))

boundary_rest-append :
    (bytes body : List ℕ) → boundary_rest bytes ≡ some body → bytes ≡ 13 ∷ 10 ∷ 13 ∷ 10 ∷ body
boundary_rest-append [] body h = ground arith
boundary_rest-append (a ∷ []) body h = ground arith
boundary_rest-append (a ∷ b ∷ []) body h = ground arith
boundary_rest-append (a ∷ b ∷ c ∷ []) body h = ground arith
boundary_rest-append (a ∷ b ∷ c ∷ d ∷ rest) body h = ground arith

split_headers-append :
    (bytes headers body : List ℕ)
    → split_headers bytes ≡ some (headers, body)
    → bytes ≡ headers ++ (13 ∷ 10 ∷ 13 ∷ 10 ∷ body)
unfolding split_headers
split_headers-append [] headers body h = ground arith
split_headers-append (b ∷ bytes) headers body h =
    split (boundary_rest (b ∷ bytes)) (split_headers bytes) refl
      (λ headers' body' e. split_headers-append bytes headers' body' e) h
  where
    split :
        (here : Option (List ℕ)) (later : Option (List ℕ × List ℕ))
        → boundary_rest (b ∷ bytes) ≡ here
        → ((headers' body' : List ℕ)
            → later ≡ some (headers', body')
            → bytes ≡ headers' ++ (13 ∷ 10 ∷ 13 ∷ 10 ∷ body'))
        → (elim here [ some rest ↦ some ([], rest) | none ↦ after_byte b later ])
          ≡ some (headers, body)
        → b ∷ bytes ≡ headers ++ (13 ∷ 10 ∷ 13 ∷ 10 ∷ body)
    split (some rest) later e f g = ground (arith, boundary_rest-append (b ∷ bytes) rest e)
    split none none e f g = ground arith
    split none (some (h', body')) e f g = ground (arith, f h' body' refl)

accepted_body :
    (bad : Bool) (found r : HealthResult)
    → (if bad then err HealthFailure.bad_version else ok found) ≡ ok r
    → (bad ≡ false) × (found ≡ r)
accepted_body true found r h = ground arith
accepted_body false found r h = (refl, ground arith)

check_body-some :
    (is_utf8 : List ℕ → Bool) (from_slice : List ℕ → Option HealthResult)
    (parsed : Option HealthResult) (r : HealthResult)
    → check_body is_utf8 from_slice parsed ≡ ok r
    → (parsed ≡ some r) × (is_bad_version r.version ≡ false)
unfolding check_body
check_body-some is_utf8 from_slice none r h = ground arith
check_body-some is_utf8 from_slice (some found) r h =
    let (good, same) = accepted_body (is_bad_version found.version) found r h in
    (ap some same, ap (λ (x : HealthResult). is_bad_version x.version) (sym same) ∙ good)

check_status-accepted :
    (is_utf8 : List ℕ → Bool) (from_slice : List ℕ → Option HealthResult) (status : Option ℕ)
    (body : List ℕ) (r : HealthResult)
    → check_status is_utf8 from_slice status body ≡ ok r
    → (status ≡ some 200) × (from_slice body ≡ some r) × (is_bad_version r.version ≡ false)
unfolding check_status
check_status-accepted is_utf8 from_slice none body r h = ground arith
check_status-accepted is_utf8 from_slice (some status) body r h =
    ground (arith, check_body-some is_utf8 from_slice (from_slice body) r)

check_headers-accepted :
    (is_utf8 : List ℕ → Bool) (from_slice : List ℕ → Option HealthResult) (headers body : List ℕ)
    (r : HealthResult)
    → check_headers is_utf8 from_slice headers body ≡ ok r
    → (status_of headers ≡ some 200)
      × (from_slice body ≡ some r)
      × (is_bad_version r.version ≡ false)
unfolding check_headers
check_headers-accepted is_utf8 from_slice headers body r h =
    ground (arith, check_status-accepted is_utf8 from_slice (status_of headers) body r)

-- An answer that is accepted is headers, the empty line and a body: the status in the headers is 200,
-- and the body is the JSON of the result, whose version has 1 to 128 bytes.
pub parse_response-accepted :
    (is_utf8 : List ℕ → Bool) (from_slice : List ℕ → Option HealthResult) (bytes : List ℕ)
    (r : HealthResult)
    → parse_response is_utf8 from_slice bytes ≡ ok r
    → (headers : List ℕ) × (body : List ℕ) × (bytes ≡ headers ++ (13 ∷ 10 ∷ 13 ∷ 10 ∷ body))
      × ((status_of headers ≡ some 200)
          × (from_slice body ≡ some r)
          × (is_bad_version r.version ≡ false))
unfolding parse_response
parse_response-accepted is_utf8 from_slice bytes r h = parts (split_headers bytes) refl h
  where
    parts :
        (split : Option (List ℕ × List ℕ))
        → split_headers bytes ≡ split
        → check_split is_utf8 from_slice split ≡ ok r
        → (headers : List ℕ) × (body : List ℕ) × (bytes ≡ headers ++ (13 ∷ 10 ∷ 13 ∷ 10 ∷ body))
          × ((status_of headers ≡ some 200)
              × (from_slice body ≡ some r)
              × (is_bad_version r.version ≡ false))
    parts none e g = ground arith
    parts (some (headers, body)) e g = (
      headers,
      body,
      split_headers-append bytes headers body e,
      check_headers-accepted is_utf8 from_slice headers body r g,
    )
