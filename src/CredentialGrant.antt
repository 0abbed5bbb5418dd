-- ===== src/CredentialGrant.antt =====
-- The marker of a granted Keychain access (rust/src/credential_grant.rs): three lines in a private
-- file, and what they are evidence of.
pub mod Marker
mod Tests
use Prim.Native.Char.{Char, code}
use Prim.Native.String.{◌++◌ as ◌+++◌}
use open_code_server.Base.{
  ℕ, String, Bool, false, not, ◌&&◌, ◌||◌, Option, none, some, List, [], ◌∷◌, ◌++◌, ◌==◌, str_eq,
  Result, ok, err, if◌then◌else◌,
}
use open_code_server.Config.Hostname.{is_whitespace, is_empty}
use open_code_server.PrivateFile.{FileError, PrivateFile, read_private_file}

abbrev pub max_marker_bytes : ℕ
max_marker_bytes = 16_384

abbrev pub add_to_line : Char → List String → List String
add_to_line c [] = String.◌∷◌ c String.[] ∷ []
add_to_line c (line ∷ lines) = String.◌∷◌ c line ∷ lines

-- `lines`; a carriage return before the newline is left to `trim`.
unfoldable pub lines : String → List String
lines String.[] = []
lines (String.◌∷◌ c s) =
    let rest = lines s in if code c == b'\n' then String.[] ∷ rest else add_to_line c rest

unfoldable pub trim_start : String → String
trim_start String.[] = String.[]
trim_start (String.◌∷◌ c s) =
    let rest = trim_start s in if is_whitespace (code c) then rest else String.◌∷◌ c s

unfoldable pub trim_end : String → String
trim_end String.[] = String.[]
trim_end (String.◌∷◌ c s) =
    let rest = trim_end s in
    if is_empty rest && is_whitespace (code c) then String.[] else String.◌∷◌ c rest

unfoldable pub trim : String → String
unfolding trim_start trim_end
trim s = trim_end (trim_start s)

abbrev pub Triple : Type 0
Triple = String × String × String

abbrev pub check_marker : String → String → String → Option Triple
check_marker account version team =
    if is_empty account || is_empty version then none else some (account, version, team)

-- Exactly three lines.
unfoldable pub marker_of_lines : List String → Option Triple
unfolding trim
marker_of_lines (account ∷ version ∷ team ∷ []) =
    check_marker (trim account) (trim version) (trim team)
marker_of_lines _ = none

abbrev pub parse_text : Option String → Option Triple
parse_text none = none
parse_text (some text) = marker_of_lines (lines text)

abbrev pub marker_text : String → String → String → String
marker_text account version team = account +++ ("\n" +++ (version +++ ("\n" +++ (team +++ "\n"))))

abbrev pub covers_marker : Option Triple → String → String → Bool
covers_marker none account version = false
covers_marker (some (a, v, t)) account version = str_eq a account && str_eq v version

abbrev pub team_of_marker : Option Triple → String → Option String
team_of_marker none account = none
team_of_marker (some (a, v, t)) account =
    if str_eq a account && not (is_empty t) then some t else none

-- The calls of `record` and `clear_for`.
pub data GrantStep : Type 0 where
  remove_staging open_staging write_all sync_all rename remove_marker : GrantStep

-- A file that is not there needs no removal.
abbrev pub unless_absent : Option FileError → Option FileError
unless_absent (some FileError.not_found) = none
unless_absent answer = answer

-- The steps up to the first that fails, and its error. The answers are the file system's.
unfoldable pub attempt :
    (GrantStep → Option FileError) → List GrantStep → Option FileError × List GrantStep
attempt answers [] = (none, [])
attempt answers (step ∷ steps) =
    let (error, made) = attempt answers steps in
    elim (answers step) [ some e ↦ (some e, step ∷ []) | none ↦ (error, step ∷ made) ]

abbrev pub with_cleanup : Option FileError × List GrantStep → Option FileError × List GrantStep
with_cleanup (some e, made) = (some e, made ++ (GrantStep.remove_staging ∷ []))
with_cleanup (none, made) = (none, made)

abbrev pub after_open :
    (GrantStep → Option FileError) → Option FileError → Option FileError × List GrantStep
after_open answers (some e) = (some e, [])
after_open answers none =
    with_cleanup
      (attempt answers (GrantStep.write_all ∷ GrantStep.sync_all ∷ GrantStep.rename ∷ []))

abbrev pub after_remove :
    (GrantStep → Option FileError) → Option FileError → Option FileError × List GrantStep
after_remove answers (some e) = (some e, [])
after_remove answers none =
    let (error, made) = after_open answers (answers GrantStep.open_staging) in
    (error, GrantStep.open_staging ∷ made)

-- The error of `record`, and the calls that it made.
unfoldable pub record_grant : (GrantStep → Option FileError) → Option FileError × List GrantStep
unfolding attempt
record_grant answers =
    let (error, made) = after_remove answers (unless_absent (answers GrantStep.remove_staging)) in
    (error, GrantStep.remove_staging ∷ made)

abbrev pub clear_marker :
    (GrantStep → Option FileError) → Option Triple → String → Option FileError × List GrantStep
clear_marker answers none account = (none, [])
clear_marker answers (some (a, v, t)) account =
    if str_eq a account
    then (unless_absent (answers GrantStep.remove_marker), GrantStep.remove_marker ∷ [])
    else (none, [])

-- `from_utf8` is the standard library's.
module _ (own_uid : ℕ) (from_utf8 : List ℕ → Option String) where
  unfoldable pub text_of : Result FileError (List ℕ) → Option String
  text_of (err e) = none
  text_of (ok bytes) = from_utf8 bytes

  unfoldable pub load : PrivateFile → Option Triple
  unfolding text_of marker_of_lines lines
  load file = parse_text (text_of (read_private_file own_uid max_marker_bytes file))

  unfoldable pub covers : PrivateFile → String → String → Bool
  unfolding load
  covers file account version = covers_marker (load file) account version

  unfoldable pub team_evidence : PrivateFile → String → Option String
  unfolding load
  team_evidence file account = team_of_marker (load file) account

  unfoldable pub clear_for :
      (GrantStep → Option FileError) → PrivateFile → String → Option FileError × List GrantStep
  unfolding load
  clear_for answers file account = clear_marker answers (load file) account
