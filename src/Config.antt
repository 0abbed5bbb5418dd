-- ===== src/Config.antt =====
-- The validated configuration as the supervisor reads it (rust/src/config.rs), and its fingerprint
-- (rust/src/config_fingerprint.rs).
pub mod Text
pub mod Fingerprint
pub mod Hostname
pub mod Discover
pub mod Validate
pub mod File
pub mod Key
pub mod Save
pub mod Valid
pub mod Tag
pub mod Canonical
pub mod Verified
pub mod Tests
use open_code_server.Base.{ℕ, String, Bool, ◌&&◌, str_eq, ◌==◌, true, false, not}

pub record ConfigFile : Type 0 where
  pub schema_version : ℕ
  pub hostname : String
  pub port : ℕ
  pub username : String
  pub password : String
  pub mdns : Bool
  pub executable_path : String

pub record ValidatedConfig : Type 0 where
  pub source : ConfigFile
  pub configured_executable : String
  pub canonical_executable : String
  pub effective_username : String

abbrev pub same_bool : Bool → Bool → Bool
same_bool true b = b
same_bool false b = not b

-- The derived equality of the two records.
pub same_file : ConfigFile → ConfigFile → Bool
same_file a b =
    a.schema_version == b.schema_version
    && str_eq a.hostname b.hostname
    && a.port == b.port
    && str_eq a.username b.username
    && str_eq a.password b.password
    && same_bool a.mdns b.mdns
    && str_eq a.executable_path b.executable_path

unfoldable pub same_config : ValidatedConfig → ValidatedConfig → Bool
unfolding same_file
same_config a b =
    same_file a.source b.source
    && str_eq a.configured_executable b.configured_executable
    && str_eq a.canonical_executable b.canonical_executable
    && str_eq a.effective_username b.effective_username

pub record ConfigFingerprint : Type 0 where
  pub version : ℕ
  pub hmac_sha256 : String

abbrev pub same_fingerprint : ConfigFingerprint → ConfigFingerprint → Bool
same_fingerprint a b = a.version == b.version && str_eq a.hmac_sha256 b.hmac_sha256

-- What the supervisor asks of the private key: a tag for a configuration, and whether a recorded
-- tag is that of a configuration.
pub record ConfigFingerprintKey : Type 0 where
  pub fingerprint : ValidatedConfig → ConfigFingerprint
  pub verifies : ConfigFingerprint → ValidatedConfig → Bool

-- `config.source.password = password`
abbrev pub with_password : ValidatedConfig → String → ValidatedConfig
with_password c p = record c { source = record (c.source) { password = p } }
