-- ===== src/Storage/Load.antt =====
-- Loading the state file (rust/src/runtime_state.rs, `RuntimeState::load`): a missing file is the
-- first run, and any other file must be private and of the current schema.
mod Tests
use Prim.Native.Nat.{bit_and}
use open_code_server.Base.{
  ℕ, ◌+◌, ◌≡◌, refl, true, false, not, ◌||◌, Option, none, some, List, ◌==◌, ltb, arith, Result, ok,
  err, if◌then◌else◌, ◌⊎◌, inl, inr, Option-cases,
}
use open_code_server.Lists.{take}
use open_code_server.PrivateFile.{FileError}
use open_code_server.Config.File.{PathStat, PathFile}
use open_code_server.RuntimeState.{RuntimeState, default}

abbrev pub max_state_bytes : ℕ
max_state_bytes = 16_384

pub data LoadError : Type 0 where
  not_regular too_large not_owned not_private not_valid unsupported_schema : LoadError
  io : FileError → LoadError

unfoldable pub state_file_error : ℕ → PathStat → Option LoadError
state_file_error own_uid stat =
    if stat.is_symlink || not stat.is_file
    then some LoadError.not_regular
    else if ltb max_state_bytes stat.len
    then some LoadError.too_large
    else if not (stat.uid == own_uid)
    then some LoadError.not_owned
    else if not (bit_and stat.mode 63 == 0)
    then some LoadError.not_private
    else none

-- `from_slice` is the JSON library's.
module _ (own_uid : ℕ) (from_slice : List ℕ → Option RuntimeState) where
  unfoldable pub check_schema : Option RuntimeState → Result LoadError RuntimeState
  check_schema none = err LoadError.not_valid
  check_schema (some state) =
      if not (state.schema_version == 2) then err LoadError.unsupported_schema else ok state

  unfoldable pub parse_state : Result FileError (List ℕ) → Result LoadError RuntimeState
  unfolding check_schema
  parse_state (err e) = err (LoadError.io e)
  parse_state (ok content) = check_schema (from_slice (take (max_state_bytes + 1) content))

  unfoldable pub read_state : Option LoadError → PathFile → Result LoadError RuntimeState
  unfolding parse_state
  read_state (some e) file = err e
  read_state none file = elim file.open_error [
    | some e ↦ err (LoadError.io e)
    | none ↦ parse_state file.content
  ]

  unfoldable pub load_by_stat : Result FileError PathStat → PathFile → Result LoadError RuntimeState
  unfolding read_state state_file_error
  load_by_stat (err FileError.not_found) file = ok default
  load_by_stat (err e) file = err (LoadError.io e)
  load_by_stat (ok stat) file = read_state (state_file_error own_uid stat) file

  unfoldable pub load_state : PathFile → Result LoadError RuntimeState
  unfolding load_by_stat
  load_state file = load_by_stat file.path_stat file

  -- A private file of the agent's own user.
  unfoldable pub IsTrusted : PathStat → Type 0
  IsTrusted stat =
      (stat.is_symlink ≡ false)
      × (stat.is_file ≡ true)
      × (stat.uid ≡ own_uid)
      × (bit_and stat.mode 63 ≡ 0)

  check_schema-version :
      (parsed : Option RuntimeState) (state : RuntimeState)
      → check_schema parsed ≡ ok state
      → state.schema_version ≡ 2
  unfolding check_schema
  check_schema-version none state e = ground arith
  check_schema-version (some found) state e = ground arith

  parse_state-version :
      (content : Result FileError (List ℕ)) (state : RuntimeState)
      → parse_state content ≡ ok state
      → state.schema_version ≡ 2
  unfolding parse_state
  parse_state-version (err e) state h = ground arith
  parse_state-version (ok content) state h =
      check_schema-version (from_slice (take (max_state_bytes + 1) content)) state h

  read_state-IsTrusted :
      (stat : PathStat) (file : PathFile) (state : RuntimeState)
      → read_state (state_file_error own_uid stat) file ≡ ok state
      → IsTrusted stat × (state.schema_version ≡ 2)
  unfolding read_state state_file_error IsTrusted
  read_state-IsTrusted stat file state h =
      ground (arith, parse_state-version file.content state, Option-cases file.open_error)

  -- A state that is loaded is the default one where there is no file, and is otherwise of schema 2 and
  -- from a regular file of the agent's own user, no link, that no one else may access.
  pub load_state-IsTrusted :
      (file : PathFile) (state : RuntimeState)
      → load_state file ≡ ok state
      → ((file.path_stat ≡ err FileError.not_found) × (state ≡ default))
        ⊎ ((stat : PathStat) × (file.path_stat ≡ ok stat)
            × (IsTrusted stat × (state.schema_version ≡ 2)))
  unfolding load_state load_by_stat
  load_state-IsTrusted file state h = answered file.path_stat refl h
    where
      answered :
          (answer : Result FileError PathStat)
          → file.path_stat ≡ answer
          → load_by_stat answer file ≡ ok state
          → ((file.path_stat ≡ err FileError.not_found) × (state ≡ default))
            ⊎ ((stat : PathStat) × (file.path_stat ≡ ok stat)
                × (IsTrusted stat × (state.schema_version ≡ 2)))
      answered (err FileError.not_found) q e = inl (q, ground arith)
      answered (err e') q e = ground arith
      answered (ok stat) q e = inr (stat, q, read_state-IsTrusted stat file state e)
