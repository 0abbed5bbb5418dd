-- ===== src/Config/File.antt =====
-- The configuration's file (rust/src/config.rs, `read_config` and what rests on it): the checks of the
-- path, of the opened file and of the length, and the report of a validation.
use Prim.Native.Nat.{bit_and}
use open_code_server.Base.{
  ℕ, String, ◌+◌, Bool, true, false, not, ◌&&◌, ◌||◌, Option, none, some, List, [], ◌∷◌, ◌==◌, ltb,
  Result, ok, err, if◌then◌else◌,
}
use open_code_server.Lists.{length, take}
use open_code_server.Protocol.Messages.{ValidationReport}
use open_code_server.PrivateFile.{FileError}
use open_code_server.Config.{ConfigFile, ValidatedConfig}
use open_code_server.Config.Discover.{Machine, discover_executables}
use open_code_server.Config.Validate.{
  ConfigIssue, default_username, config_schema_version, validate,
}

abbrev pub max_config_bytes : ℕ
max_config_bytes = 65_536

pub data ConfigError : Type 0 where
  io : FileError → ConfigError
  invalid : List ConfigIssue → ConfigError

pub record PathStat : Type 0 where
  pub is_symlink : Bool
  pub is_file : Bool
  pub uid : ℕ
  pub mode : ℕ
  pub len : ℕ
  pub dev : ℕ
  pub ino : ℕ

-- What the file system answers about one path: whether it exists, its metadata without following a
-- link, the open, the device and inode of the descriptor, the descriptor's metadata, and the bytes.
pub record PathFile : Type 0 where
  pub exists : Bool
  pub path_stat : Result FileError PathStat
  pub open_error : Option FileError
  pub identity : Result FileError (ℕ × ℕ)
  pub stat : Result FileError PathStat
  pub content : Result FileError (List ℕ)

abbrev pub is_same_file : PathStat → ℕ × ℕ → Bool
is_same_file stat (dev, ino) = stat.dev == dev && stat.ino == ino

unfoldable pub path_issue : ℕ → PathStat → Option ConfigIssue
path_issue own_uid stat =
    if stat.is_symlink || not stat.is_file
    then some ConfigIssue.file_not_regular
    else if ltb max_config_bytes stat.len
    then some ConfigIssue.file_too_long
    else if not (bit_and stat.mode 63 == 0)
    then some ConfigIssue.file_not_private
    else if not (stat.uid == own_uid)
    then some ConfigIssue.file_not_owned
    else none

abbrev pub invalid_file : {A : Type 0} → ConfigIssue → Result ConfigError A
invalid_file issue = err (ConfigError.invalid (issue ∷ []))

abbrev pub parsed : Option ConfigFile → Result ConfigError ConfigFile
parsed (some c) = ok c
parsed none = invalid_file ConfigIssue.file_not_valid

abbrev pub validated :
    Result (List ConfigIssue) ValidatedConfig → Result ConfigError ValidatedConfig
validated (ok v) = ok v
validated (err issues) = err (ConfigError.invalid issues)

abbrev pub default_config : ConfigFile
default_config = record {
  schema_version = config_schema_version;
  hostname = "127.0.0.1";
  port = 4096;
  username = default_username;
  password = "";
  mdns = false;
  executable_path = "";
}

-- `from_bytes` is the property-list library's, `describe` gives the text of an error.
module _ (own_uid : ℕ) (from_bytes : List ℕ → Option ConfigFile) where
  unfoldable pub parse_content : Result FileError (List ℕ) → Result ConfigError ConfigFile
  parse_content (err e) = err (ConfigError.io e)
  parse_content (ok content) =
      let bytes = take (max_config_bytes + 1) content in
      if ltb max_config_bytes (length bytes)
      then invalid_file ConfigIssue.file_too_long
      else parsed (from_bytes bytes)

  unfoldable pub after_metadata :
      Result FileError PathStat → PathFile → Result ConfigError ConfigFile
  unfolding parse_content
  after_metadata (err e) file = err (ConfigError.io e)
  after_metadata (ok stat) file = parse_content file.content

  unfoldable pub after_descriptor :
      PathStat → Result FileError (ℕ × ℕ) → PathFile → Result ConfigError ConfigFile
  unfolding after_metadata
  after_descriptor stat (err e) file = err (ConfigError.io e)
  after_descriptor stat (ok identity) file =
      if not (is_same_file stat identity)
      then invalid_file ConfigIssue.file_changed
      else after_metadata file.stat file

  unfoldable pub after_open : PathStat → Option FileError → PathFile → Result ConfigError ConfigFile
  unfolding after_descriptor
  after_open stat (some e) file = err (ConfigError.io e)
  after_open stat none file = after_descriptor stat file.identity file

  unfoldable pub after_path :
      PathStat → Option ConfigIssue → PathFile → Result ConfigError ConfigFile
  unfolding after_open
  after_path stat (some issue) file = invalid_file issue
  after_path stat none file = after_open stat file.open_error file

  unfoldable pub after_path_stat :
      Result FileError PathStat → PathFile → Result ConfigError ConfigFile
  unfolding after_path path_issue
  after_path_stat (err e) file = err (ConfigError.io e)
  after_path_stat (ok stat) file = after_path stat (path_issue own_uid stat) file

  unfoldable pub read_config : PathFile → Result ConfigError ConfigFile
  unfolding after_path_stat
  read_config file = after_path_stat file.path_stat file

  unfoldable pub validate_read :
      Machine → Result ConfigError ConfigFile → Result ConfigError ValidatedConfig
  unfolding validate
  validate_read m (err e) = err e
  validate_read m (ok c) = validated (validate m c)

  unfoldable pub load_and_validate : Machine → PathFile → Result ConfigError ValidatedConfig
  unfolding validate_read read_config
  load_and_validate m file = validate_read m (read_config file)

  -- A missing file is written with the defaults first: `written` is the error of that, `after` the file
  -- then.
  unfoldable pub load_or_create :
      Machine → Option FileError → PathFile → PathFile → Result ConfigError ValidatedConfig
  unfolding load_and_validate
  load_or_create m written file after =
      if file.exists
      then load_and_validate m file
      else elim written [ some e ↦ err (ConfigError.io e) | none ↦ load_and_validate m after ]

  abbrev pub describe_all : (ConfigIssue → String) → List ConfigIssue → List String
  describe_all describe [] = []
  describe_all describe (issue ∷ issues) = describe issue ∷ describe_all describe issues

  abbrev pub issues_of : (ConfigIssue → String) → (FileError → String) → ConfigError → List String
  issues_of describe describe_io (ConfigError.invalid issues) = describe_all describe issues
  issues_of describe describe_io (ConfigError.io e) = describe_io e ∷ []

  abbrev pub report_of :
      (ConfigIssue → String)
      → (FileError → String)
      → List String
      → Result ConfigError ValidatedConfig
      → ValidationReport
  report_of describe describe_io candidates (ok v) = record {
    valid = true;
    issues = [];
    selected_executable = some (v.configured_executable);
    candidates = candidates;
  }
  report_of describe describe_io candidates (err e) = record {
    valid = false;
    issues = issues_of describe describe_io e;
    selected_executable = none;
    candidates = candidates;
  }

  unfoldable pub validation_report :
      (ConfigIssue → String) → (FileError → String) → Machine → PathFile → ValidationReport
  unfolding load_and_validate
  validation_report describe describe_io m file =
      report_of describe describe_io (discover_executables m) (load_and_validate m file)
