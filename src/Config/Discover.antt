-- ===== src/Config/Discover.antt =====
-- Executables (rust/src/config.rs): where OpenCode is looked for, and what counts as a native one.
use Prim.Native.Nat.{bit_and}
use Prim.Native.String.{◌++◌ as ◌+++◌}
use open_code_server.Base.{
  ℕ, String, Bool, true, false, not, ◌&&◌, ◌||◌, Option, none, some, is_some, List, [], ◌∷◌, ◌++◌,
  ◌==◌, str_eq, Result, ok, err, if◌then◌else◌,
}
use open_code_server.Lists.{take, retain}
use open_code_server.Config.Text.{as_bytes}
use open_code_server.Config.Hostname.{strip_prefix, ends_with, is_empty}
use open_code_server.MachO.{is_arm64_macho_bytes}

pub record FileMetadata : Type 0 where
  pub is_file : Bool
  pub mode : ℕ

-- What the environment and the file system answer; an error of theirs is a number. `header` is what
-- one read of the file gives.
pub record Machine : Type 0 where
  pub home : Option String
  pub search_path : Option (List String)
  pub is_ip_address : String → Bool
  pub metadata : String → Result ℕ FileMetadata
  pub canonicalize : String → Result ℕ String
  pub header : String → Result ℕ (List ℕ)

-- `Path::is_absolute`
abbrev pub is_absolute : String → Bool
is_absolute path = is_some (strip_prefix b'/' path)

-- `Path::join` with a relative path.
unfoldable pub join : String → String → String
join directory name =
    if is_empty directory
    then name
    else if ends_with b'/' (as_bytes directory)
    then directory +++ name
    else directory +++ ("/" +++ name)

-- `metadata.mode() & 0o111 != 0`
abbrev pub is_executable : FileMetadata → Bool
is_executable metadata = not (bit_and metadata.mode 73 == 0)

abbrev pub seen_before : String → List String → Bool
seen_before path [] = false
seen_before path (p ∷ paths) = str_eq p path || seen_before path paths

-- `filter(|path| seen.insert(path.clone()))`
unfoldable pub first_of_each : List String → List String → List String
first_of_each seen [] = []
first_of_each seen (path ∷ paths) = elim (seen_before path seen) [
  | true ↦ first_of_each seen paths
  | false ↦ path ∷ first_of_each (path ∷ seen) paths
]

abbrev pub or_true : Option Bool → Bool
or_true (some answer) = answer
or_true none = false

unfoldable pub arm64_of : Result ℕ (List ℕ) → Result ℕ Bool
arm64_of (err e) = err e
arm64_of (ok header) = ok (or_true (is_arm64_macho_bytes (take 4096 header)))

abbrev pub regular_executable : Result ℕ FileMetadata → Bool
regular_executable (err e) = false
regular_executable (ok metadata) = metadata.is_file && is_executable metadata

abbrev pub or_not : Result ℕ Bool → Bool
or_not (ok answer) = answer
or_not (err e) = false

abbrev pub home_candidate : Option String → List String
home_candidate none = []
home_candidate (some home) = join home ".opencode/bin/opencode" ∷ []

abbrev pub path_candidates : List String → List String
path_candidates [] = []
path_candidates (directory ∷ directories) = join directory "opencode" ∷ path_candidates directories

abbrev pub search_candidates : Option (List String) → List String
search_candidates none = []
search_candidates (some directories) = path_candidates directories

module _ (m : Machine) where
  unfoldable pub is_arm64_macho : String → Result ℕ Bool
  unfolding arm64_of
  is_arm64_macho path = arm64_of (m.header path)

  abbrev pub arm64_target : Result ℕ String → Bool
  arm64_target (err e) = false
  arm64_target (ok canonical) = or_not (is_arm64_macho canonical)

  abbrev pub is_candidate : String → Bool
  is_candidate path = regular_executable (m.metadata path) && arm64_target (m.canonicalize path)

  unfoldable pub discover_executables : List String
  unfolding first_of_each
  discover_executables = retain is_candidate (
      first_of_each []
        ("/opt/homebrew/bin/opencode" ∷ home_candidate m.home ++ search_candidates m.search_path))
