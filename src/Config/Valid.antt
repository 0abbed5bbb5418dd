-- ===== src/Config/Valid.antt =====
-- What the validation of a configuration promises (rust/src/config.rs, `validate`).
mod Tests
use open_code_server.Base.{
  ℕ, String, ◌<◌, ◌≡◌, refl, ◌∙◌, Bool, true, false, not, Option, none, some, List, [], ◌∷◌, ◌++◌,
  ◌==◌, Result, ok, err, arith,
}
use open_code_server.Lists.{length, length-append}
use open_code_server.Config.{ConfigFile, ValidatedConfig}
use open_code_server.Config.Hostname.{HostnameIssue, validate_hostname}
use open_code_server.Config.Discover.{
  FileMetadata, Machine, is_absolute, is_executable, regular_executable, is_arm64_macho,
}
use open_code_server.Config.Validate.{
  ConfigIssue, config_schema_version, when, host_issues, normalize, is_bad_username,
  metadata_issues, resolution_issues, resolved, arm64_issues, effective_username, accepted, settle,
  field_issues, configured_executable, check_header, check_target, check_executable, validate,
}

-- A configuration that can be launched: each field is in its range, and the executable is an absolute
-- path that resolves to a regular, executable file with arm64 code.
unfoldable pub IsLaunchable : Machine → ValidatedConfig → Type 0
IsLaunchable m v =
    (v.source.schema_version ≡ config_schema_version)
    × (validate_hostname m.is_ip_address v.source.hostname ≡ none)
    × (0 < v.source.port)
    × (is_bad_username v.source.username ≡ false)
    × (is_absolute v.configured_executable ≡ true)
    × (m.canonicalize v.configured_executable ≡ ok v.canonical_executable)
    × (regular_executable (m.metadata v.canonical_executable) ≡ true)
    × (is_arm64_macho m v.canonical_executable ≡ ok true)
    × (v.effective_username ≡ effective_username v.source.username)

-- An answer to a configuration: its normal form, launchable, or at least one issue.
unfoldable pub IsJustified :
    Machine → ConfigFile → Result (List ConfigIssue) ValidatedConfig → Type 0
unfolding IsLaunchable
IsJustified m c (ok v) = (v.source ≡ normalize c) × IsLaunchable m v
IsJustified m c (err issues) = 0 < length issues

append-nil : (xs ys : List ConfigIssue) → xs ++ ys ≡ [] → (xs ≡ []) × (ys ≡ [])
append-nil [] ys h = (refl, h)
append-nil (x ∷ xs) ys h = ground arith

when-nil : (test : Bool) (issue : ConfigIssue) → when test issue ≡ [] → test ≡ false
when-nil true issue h = ground arith
when-nil false issue h = refl

host_issues-nil : (answer : Option HostnameIssue) → host_issues answer ≡ [] → answer ≡ none
host_issues-nil none h = refl
host_issues-nil (some issue) h = ground arith

metadata_issues-nil :
    (answer : Result ℕ FileMetadata)
    → metadata_issues answer ≡ []
    → regular_executable answer ≡ true
metadata_issues-nil (err e) h = ground arith
metadata_issues-nil (ok metadata) h =
    let (regular, executable) = append-nil _ _ h in
    let regular' = when-nil (not metadata.is_file) _ regular in
    let executable' = when-nil (not (is_executable metadata)) _ executable in ground arith

resolution_issues-nil :
    (answer : Result ℕ String) (configured : String)
    → resolution_issues answer ≡ []
    → answer ≡ ok (resolved answer configured)
resolution_issues-nil (ok path) configured h = refl
resolution_issues-nil (err e) configured h = ground arith

arm64_issues-nil : (answer : Result ℕ Bool) → arm64_issues answer ≡ [] → answer ≡ ok true
arm64_issues-nil (ok true) h = refl
arm64_issues-nil (ok false) h = ground arith
arm64_issues-nil (err e) h = ground arith

module _ (m : Machine) where
  settle-IsJustified :
      (c : ConfigFile) (issues : List ConfigIssue) (v : ValidatedConfig)
      → (issues ≡ [] → (v.source ≡ normalize c) × IsLaunchable m v)
      → IsJustified m c (settle issues v)
  unfolding settle IsJustified length
  settle-IsJustified c [] v h = h refl
  settle-IsJustified c (issue ∷ issues) v h = omega arith

  check_header-nil :
      (issues : List ConfigIssue) (canonical : String)
      → check_header m issues canonical ≡ []
      → (issues ≡ []) × (is_arm64_macho m canonical ≡ ok true)
  unfolding check_header
  check_header-nil [] canonical h = (refl, arm64_issues-nil (is_arm64_macho m canonical) h)
  check_header-nil (issue ∷ issues) canonical h = ground arith

  field_issues-nil :
      (c : ConfigFile)
      → field_issues m c ≡ []
      → (c.schema_version ≡ config_schema_version)
        × (validate_hostname m.is_ip_address c.hostname ≡ none)
        × (0 < c.port)
        × (is_bad_username c.username ≡ false)
  unfolding field_issues
  field_issues-nil c h =
      let (schema, rest) =
        append-nil
          (when (not (c.schema_version == config_schema_version))
            (ConfigIssue.unsupported_schema c.schema_version))
          _ h in
      let (host, rest') =
        append-nil (host_issues (validate_hostname m.is_ip_address c.hostname)) _ rest in
      let (port, username) = append-nil (when (c.port == 0) ConfigIssue.bad_port) _ rest' in
      let schema' = when-nil _ _ schema in
      let port' = when-nil _ _ port in
      (ground arith, host_issues-nil _ host, ground arith, when-nil _ _ username)

  accepted-IsLaunchable :
      (c : ConfigFile) (configured : String) (answer : Result ℕ String)
      → m.canonicalize configured ≡ answer
      → check_header m
          ((field_issues m c
              ++ (when (not (is_absolute configured)) ConfigIssue.not_absolute
                  ++ resolution_issues answer))
            ++ metadata_issues (m.metadata (resolved answer configured)))
          (resolved answer configured)
        ≡ []
      → IsLaunchable m (accepted c configured (resolved answer configured))
  unfolding IsLaunchable
  accepted-IsLaunchable c configured answer asked e =
      let (issues, arm64) = check_header-nil _ (resolved answer configured) e in
      let (early, target) =
        append-nil _ (metadata_issues (m.metadata (resolved answer configured))) issues in
      let (fields, executable) = append-nil (field_issues m c) _ early in
      let (absolute, resolution) =
        append-nil (when (not (is_absolute configured)) ConfigIssue.not_absolute)
          (resolution_issues answer) executable in
      let (schema, host, port, username) = field_issues-nil c fields in
      let relative = when-nil (not (is_absolute configured)) ConfigIssue.not_absolute absolute in
      (
        schema,
        host,
        port,
        username,
        ground arith,
        asked ∙ resolution_issues-nil answer configured resolution,
        metadata_issues-nil (m.metadata (resolved answer configured)) target,
        arm64,
        refl,
      )

  check_executable-IsJustified :
      (c : ConfigFile) (found : Option String)
      → IsJustified m c (check_executable m (normalize c) found)
  unfolding check_executable check_target IsJustified length
  check_executable-IsJustified c none =
      omega (arith, length-append (field_issues m (normalize c)) (ConfigIssue.no_executable ∷ []))
  check_executable-IsJustified c (some configured) = settle-IsJustified c _ _ (λ e.
      (refl, accepted-IsLaunchable (normalize c) configured (m.canonicalize configured) refl e))

  -- The validation answers every configuration: with its normal form and the launchable
  -- configuration, whose version, hostname, port and username are legal and whose executable is an
  -- absolute path that resolves to a regular, executable file with arm64 code, or with at least one
  -- issue.
  pub validate-IsJustified : (c : ConfigFile) → IsJustified m c (validate m c)
  unfolding validate
  validate-IsJustified c = check_executable-IsJustified c (configured_executable m (normalize c))
