-- ===== src/Config/Valid/Tests.antt =====
-- Validations of a configuration (rust/src/config.rs) on one machine.
use open_code_server.Base.{String, ◌≡◌, refl, none, some, ok, err, str_eq, true, [], ◌∷◌}
use open_code_server.Lists.{length, take, retain, all}
use open_code_server.MachO.{is_arm64_macho_bytes}
use open_code_server.Config.{ConfigFile}
use open_code_server.Config.Text.{as_bytes}
use open_code_server.Config.Hostname.{HostnameIssue, format_endpoint, ends_with}
use open_code_server.Config.Discover.{Machine, discover_executables, is_arm64_macho, join}
use open_code_server.Config.Validate.{ConfigIssue, validate, effective_username}
use open_code_server.Config.Valid.{IsJustified, validate-IsJustified}
use open_code_server.Config.Tests.{small}

-- A machine where "/o" is a thin arm64 executable, and "::1" and nothing else an address.
abbrev machine : Machine
machine = record {
  home = none;
  search_path = some ("/usr/bin" ∷ []);
  is_ip_address = λ s. str_eq s "::1";
  metadata = λ path. ok (record { is_file = true; mode = 493 });
  canonicalize = λ path. ok path;
  header = λ path. ok (0xcf ∷ 0xfa ∷ 0xed ∷ 0xfe ∷ 0x0c ∷ 0 ∷ 0 ∷ 1 ∷ []);
}

abbrev file_with : String → ConfigFile
file_with hostname = record (small.source) { hostname = hostname; executable_path = "/o" }

bracketed : validate machine (file_with "[::1]") ≡ ok (record small { source = file_with "::1" })
unfolding validate length as_bytes is_arm64_macho is_arm64_macho_bytes take effective_username all
bracketed = refl

-- One pair of brackets is taken off, and the check of the hostname looks through another.
twice_bracketed :
    validate machine (file_with "[[::1]]") ≡ ok (record small { source = file_with "[::1]" })
unfolding validate length as_bytes is_arm64_macho is_arm64_macho_bytes take effective_username all
twice_bracketed = refl

bad_name :
    validate machine (file_with "-a.b")
    ≡ err (ConfigIssue.bad_hostname HostnameIssue.not_a_name ∷ [])
unfolding validate length as_bytes is_arm64_macho is_arm64_macho_bytes take effective_username all
bad_name = refl

found : discover_executables machine ≡ "/opt/homebrew/bin/opencode" ∷ "/usr/bin/opencode" ∷ []
unfolding discover_executables retain is_arm64_macho is_arm64_macho_bytes take join ends_with
    as_bytes
found = refl

endpoint : format_endpoint (λ port. "4096") "::1" 4096 ≡ "[::1]:4096"
unfolding format_endpoint
endpoint = refl

validate-IsJustified_example :
    IsJustified machine (file_with "[::1]") (validate machine (file_with "[::1]"))
validate-IsJustified_example = validate-IsJustified machine (file_with "[::1]")
