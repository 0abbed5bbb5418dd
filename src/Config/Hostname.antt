-- ===== src/Config/Hostname.antt =====
-- Hostnames and endpoints (rust/src/config.rs): brackets, the check of a hostname, the address of the
-- health check.
use Prim.Native.String.{◌++◌ as ◌+++◌}
use Prim.Native.Char.{code}
use open_code_server.Base.{
  ℕ, String, Bool, true, false, not, ◌&&◌, ◌||◌, Option, none, some, map_option, is_some, List, [],
  ◌∷◌, ◌==◌, ◌>>=◌, str_eq, ltb, leb, if◌then◌else◌, unwrap_or,
}
use open_code_server.Lists.{length, all}
use open_code_server.Config.Text.{as_bytes}

-- `char::is_control`: the characters of Unicode's category Cc.
abbrev pub is_control : ℕ → Bool
is_control c = ltb c 32 || (leb 127 c && ltb c 160)

-- `char::is_whitespace`: Unicode's White_Space.
abbrev pub is_whitespace : ℕ → Bool
is_whitespace c =
    (leb 9 c && leb c 13)
    || c == 32
    || c == 133
    || c == 160
    || c == 5760
    || (leb 8192 c && leb c 8202)
    || c == 8232
    || c == 8233
    || c == 8239
    || c == 8287
    || c == 12_288

-- `chars().any(test)`
unfoldable pub any_char : (ℕ → Bool) → String → Bool
any_char test String.[] = false
any_char test (String.◌∷◌ c s) = test (code c) || any_char test s

abbrev pub is_empty : String → Bool
is_empty String.[] = true
is_empty (String.◌∷◌ c s) = false

-- `strip_prefix` and `strip_suffix` of one character.
unfoldable pub strip_prefix : ℕ → String → Option String
strip_prefix c String.[] = none
strip_prefix c (String.◌∷◌ d s) = if code d == c then some s else none

unfoldable pub strip_suffix : ℕ → String → Option String
strip_suffix c String.[] = none
strip_suffix c (String.◌∷◌ d String.[]) = if code d == c then some String.[] else none
strip_suffix c (String.◌∷◌ d (String.◌∷◌ e s)) =
    map_option (λ t. String.◌∷◌ d t) (strip_suffix c (String.◌∷◌ e s))

unfoldable pub strip_brackets : String → Option String
unfolding strip_prefix strip_suffix
strip_brackets s = strip_prefix b'[' s >>= λ rest. strip_suffix b']' rest

-- `split(separator)` on bytes: there is one part more than there are separators.
abbrev pub add_to_part : ℕ → List (List ℕ) → List (List ℕ)
add_to_part b [] = (b ∷ []) ∷ []
add_to_part b (part ∷ parts) = (b ∷ part) ∷ parts

unfoldable pub split : ℕ → List ℕ → List (List ℕ)
split separator [] = [] ∷ []
split separator (b ∷ bytes) =
    let parts = split separator bytes in if b == separator then [] ∷ parts else add_to_part b parts

abbrev pub starts_with : ℕ → List ℕ → Bool
starts_with c [] = false
starts_with c (b ∷ bytes) = b == c

unfoldable pub ends_with : ℕ → List ℕ → Bool
ends_with c [] = false
ends_with c (b ∷ []) = b == c
ends_with c (b ∷ d ∷ bytes) = ends_with c (d ∷ bytes)

abbrev pub is_ascii_alphanumeric : ℕ → Bool
is_ascii_alphanumeric b =
    (leb b'0' b && leb b b'9') || (leb b'a' b && leb b b'z') || (leb b'A' b && leb b b'Z')

abbrev pub is_label : List ℕ → Bool
is_label label =
    not (length label == 0)
    && leb (length label) 63
    && not (starts_with b'-' label)
    && not (ends_with b'-' label)
    && all (λ b. is_ascii_alphanumeric b || b == b'-') label

pub data HostnameIssue : Type 0 where
  bad_length bad_character not_a_name : HostnameIssue

-- `is_ip_address` is the standard library's `parse::<IpAddr>().is_ok()`.
unfoldable pub validate_hostname : (String → Bool) → String → Option HostnameIssue
unfolding strip_brackets any_char split
validate_hostname is_ip_address hostname =
    if is_empty hostname || ltb 253 (length (as_bytes hostname))
    then some HostnameIssue.bad_length
    else if any_char is_control hostname
        || any_char is_whitespace hostname
        || any_char (λ c. c == b'/') hostname
    then some HostnameIssue.bad_character
    else if is_ip_address (unwrap_or (strip_brackets hostname) hostname)
        || str_eq hostname "localhost"
    then none
    else if all is_label (split b'.' (as_bytes hostname))
    then none
    else some HostnameIssue.not_a_name

unfoldable pub health_hostname : String → String
health_hostname hostname =
    if str_eq hostname "0.0.0.0"
    then "127.0.0.1"
    else if str_eq hostname "::" || str_eq hostname "[::]"
    then "::1"
    else hostname

-- `to_string` is the decimal text of the port.
unfoldable pub format_endpoint : (ℕ → String) → String → ℕ → String
unfolding any_char strip_prefix
format_endpoint to_string hostname port =
    if any_char (λ c. c == b':') hostname && not (is_some (strip_prefix b'[' hostname))
    then "[" +++ (hostname +++ ("]:" +++ to_string port))
    else hostname +++ (":" +++ to_string port)
