-- ===== src/Health/Tests.antt =====
-- Answers of a health endpoint (rust/src/health.rs).
use open_code_server.Base.{
  ℕ, ◌++◌, false, ◌*◌, ◌==◌, if◌then◌else◌, none, ◌≡◌, refl, some, ok, err, true, List, [], ◌∷◌,
}
use open_code_server.Lists.{length, drop}
use open_code_server.Config.Text.{as_bytes}
use open_code_server.World.{HealthResult}
use open_code_server.Health.Laws.{
  IsInTime, IsBounded, connect_addresses_with-IsBounded, parse_response-accepted,
}
use open_code_server.Health.{
  status_of, is_bad_version, HealthFailure, connect_addresses_with, parse_response,
}

abbrev healthy : HealthResult
healthy = record { healthy = true; version = "1.18.8" }

accepts :
    parse_response (λ b. true) (λ b. some healthy) (as_bytes "HTTP/1.1 200 OK\r\n\r\n{}")
    ≡ ok healthy
unfolding parse_response as_bytes length drop
accepts = refl

refuses :
    parse_response (λ b. true) (λ b. some healthy) (as_bytes "HTTP/1.1 401 No\r\n\r\n{}")
    ≡ err HealthFailure.unauthorized
unfolding parse_response as_bytes length drop
refuses = refl

-- The second of three addresses answers, after 70 of 100 milliseconds.
second_connects :
    connect_addresses_with
      (λ made. 70 * length made)
      (λ made address time. if address == 6 then ok 1 else err 61)
      100
      (4 ∷ 6 ∷ 9 ∷ [])
      none
      []
    ≡ (ok 1, (6, 30) ∷ (4, 100) ∷ [])
unfolding connect_addresses_with length
second_connects = refl

parse_response-accepted_example :
    (headers : List ℕ) × (body : List ℕ) × (as_bytes "HTTP/1.1 200 OK\r\n\r\n{}"
      ≡ headers ++ (13 ∷ 10 ∷ 13 ∷ 10 ∷ body))
    × ((status_of headers ≡ some 200)
        × (some healthy ≡ some healthy)
        × (is_bad_version healthy.version ≡ false))
parse_response-accepted_example =
    parse_response-accepted (λ b. true) (λ b. some healthy) (as_bytes "HTTP/1.1 200 OK\r\n\r\n{}")
      healthy accepts

connect_addresses_with-IsBounded_example :
    IsBounded
      (λ made. 70 * length made)
      (λ made address time. if address == 6 then ok 1 else err 61)
      100
      3
      (connect_addresses_with
        (λ made. 70 * length made)
        (λ made address time. if address == 6 then ok 1 else err 61)
        100
        (4 ∷ 6 ∷ 9 ∷ [])
        none
        [])
unfolding length IsInTime
connect_addresses_with-IsBounded_example =
    connect_addresses_with-IsBounded (λ made. 70 * length made)
      (λ made address time. if address == 6 then ok 1 else err 61) 100 (4 ∷ 6 ∷ 9 ∷ []) none [] tt
