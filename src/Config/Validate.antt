-- ===== src/Config/Validate.antt =====
-- The validation of a configuration (rust/src/config.rs, `validate`): every issue is collected, and a
-- configuration without one is the validated one.
use open_code_server.Base.{
  ℕ, String, Bool, true, false, not, ◌||◌, Option, none, some, List, [], ◌∷◌, ◌++◌, ◌==◌, ltb,
  Result, ok, err, if◌then◌else◌,
}
use open_code_server.Lists.{length}
use open_code_server.Config.{ConfigFile, ValidatedConfig}
use open_code_server.Config.Text.{as_bytes}
use open_code_server.Config.Hostname.{
  is_control, is_whitespace, any_char, is_empty, strip_brackets, HostnameIssue, validate_hostname,
}
use open_code_server.Config.Discover.{
  FileMetadata, Machine, is_absolute, is_executable, is_arm64_macho, discover_executables,
}

abbrev pub config_schema_version : ℕ
config_schema_version = 1

abbrev pub default_username : String
default_username = "opencode"

-- The texts of the source, with the values that they show.
pub data ConfigIssue : Type 0 where
  unsupported_schema : ℕ → ConfigIssue
  bad_hostname : HostnameIssue → ConfigIssue
  bad_port bad_username no_executable not_absolute : ConfigIssue
  unresolved uninspected : ℕ → ConfigIssue
  not_regular not_executable not_arm64 : ConfigIssue
  file_not_regular file_too_long file_not_private file_not_owned : ConfigIssue
  file_changed file_not_valid : ConfigIssue

-- `if test { issues.push(issue) }`
abbrev pub when : Bool → ConfigIssue → List ConfigIssue
when true issue = issue ∷ []
when false issue = []

abbrev pub host_issues : Option HostnameIssue → List ConfigIssue
host_issues none = []
host_issues (some issue) = ConfigIssue.bad_hostname issue ∷ []

abbrev pub with_hostname : ConfigFile → Option String → ConfigFile
with_hostname c (some hostname) = record c { hostname = hostname }
with_hostname c none = c

-- A bracketed hostname loses its brackets, once.
unfoldable pub normalize : ConfigFile → ConfigFile
normalize c = with_hostname c (strip_brackets c.hostname)

unfoldable pub is_bad_username : String → Bool
is_bad_username username =
    ltb 128 (length (as_bytes username))
    || any_char (λ c. c == b':') username
    || any_char is_control username

-- `trim().is_empty()`
abbrev pub is_blank : String → Bool
is_blank s = not (any_char (λ c. not (is_whitespace c)) s)

abbrev pub first : List String → Option String
first [] = none
first (path ∷ paths) = some path

abbrev pub metadata_issues : Result ℕ FileMetadata → List ConfigIssue
metadata_issues (err e) = ConfigIssue.uninspected e ∷ []
metadata_issues (ok metadata) =
    when (not metadata.is_file) ConfigIssue.not_regular
    ++ when (not (is_executable metadata)) ConfigIssue.not_executable

abbrev pub resolution_issues : Result ℕ String → List ConfigIssue
resolution_issues (ok path) = []
resolution_issues (err e) = ConfigIssue.unresolved e ∷ []

abbrev pub resolved : Result ℕ String → String → String
resolved (ok path) configured = path
resolved (err e) configured = configured

abbrev pub arm64_issues : Result ℕ Bool → List ConfigIssue
arm64_issues (ok true) = []
arm64_issues (ok false) = ConfigIssue.not_arm64 ∷ []
arm64_issues (err e) = ConfigIssue.uninspected e ∷ []

unfoldable pub effective_username : String → String
effective_username username = if is_empty username then default_username else username

abbrev pub accepted : ConfigFile → String → String → ValidatedConfig
accepted c configured canonical = record {
  source = c;
  configured_executable = configured;
  canonical_executable = canonical;
  effective_username = effective_username c.username;
}

-- `if !issues.is_empty() { Err } else { Ok }`
unfoldable pub settle :
    List ConfigIssue → ValidatedConfig → Result (List ConfigIssue) ValidatedConfig
settle [] v = ok v
settle (issue ∷ issues) v = err (issue ∷ issues)

module _ (m : Machine) where
  unfoldable pub field_issues : ConfigFile → List ConfigIssue
  unfolding validate_hostname is_bad_username
  field_issues c =
      when (not (c.schema_version == config_schema_version))
        (ConfigIssue.unsupported_schema c.schema_version)
      ++ (host_issues (validate_hostname m.is_ip_address c.hostname)
          ++ (when (c.port == 0) ConfigIssue.bad_port
              ++ when (is_bad_username c.username) ConfigIssue.bad_username))

  unfoldable pub configured_executable : ConfigFile → Option String
  configured_executable c =
      if is_blank c.executable_path then first (discover_executables m) else some c.executable_path

  -- The header is read only where nothing else is wrong.
  unfoldable pub check_header : List ConfigIssue → String → List ConfigIssue
  check_header [] canonical = arm64_issues (is_arm64_macho m canonical)
  check_header (issue ∷ issues) canonical = issue ∷ issues

  unfoldable pub check_target :
      List ConfigIssue → ConfigFile → String → String → Result (List ConfigIssue) ValidatedConfig
  unfolding check_header settle
  check_target issues c configured canonical =
      settle (check_header (issues ++ metadata_issues (m.metadata canonical)) canonical)
        (accepted c configured canonical)

  unfoldable pub check_executable :
      ConfigFile → Option String → Result (List ConfigIssue) ValidatedConfig
  unfolding field_issues check_target
  check_executable c none = err (field_issues c ++ (ConfigIssue.no_executable ∷ []))
  check_executable c (some configured) =
      let answer = m.canonicalize configured in
      check_target
        (field_issues c
          ++ (when (not (is_absolute configured)) ConfigIssue.not_absolute
              ++ resolution_issues answer))
        c configured (resolved answer configured)

  unfoldable pub validate : ConfigFile → Result (List ConfigIssue) ValidatedConfig
  unfolding check_executable configured_executable normalize
  validate c = let c' = normalize c in check_executable c' (configured_executable c')
