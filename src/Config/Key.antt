-- ===== src/Config/Key.antt =====
-- The private key of the fingerprints (rust/src/config_fingerprint.rs): its file is checked before
-- and after it is opened, read to its exact length, and created once.
use Prim.Native.Nat.{bit_and}
use open_code_server.Base.{
  ℕ, ◌≡◌, refl, not, ◌||◌, Option, none, some, List, ◌==◌, ltb, arith, Result, ok, err,
  if◌then◌else◌,
}
use open_code_server.Lists.{length}
use open_code_server.PrivateFile.{FileError}
use open_code_server.Config.Fingerprint.{key_bytes}
use open_code_server.Config.File.{PathStat, PathFile, is_same_file}

-- The errors of the key's file, and those of the file system.
pub data KeyError : Type 0 where
  not_regular not_owned not_private bad_length changed unexpected_end random_failed : KeyError
  io : FileError → KeyError

unfoldable pub validate_key_metadata : ℕ → PathStat → Option KeyError
validate_key_metadata own_uid stat =
    if stat.is_symlink || not stat.is_file
    then some KeyError.not_regular
    else if not (stat.uid == own_uid)
    then some KeyError.not_owned
    else if not (bit_and stat.mode 63 == 0)
    then some KeyError.not_private
    else if not (stat.len == key_bytes)
    then some KeyError.bad_length
    else none

-- `?` on a check.
abbrev pub unless_error {ℓ} : {A : Type ℓ} → Option KeyError → Result KeyError A → Result KeyError A
unless_error (some e) rest = err e
unless_error none rest = rest

abbrev pub io_of : Option FileError → Option KeyError
io_of (some e) = some (KeyError.io e)
io_of none = none

-- `read_exact`, and one more read that must find the end.
unfoldable pub exact_key : Result FileError (List ℕ) → Result KeyError (List ℕ)
exact_key (err e) = err (KeyError.io e)
exact_key (ok content) =
    if ltb (length content) key_bytes
    then err KeyError.unexpected_end
    else if not (length content == key_bytes)
    then err KeyError.bad_length
    else ok content

-- What the file system and the random generator answer while a key is created, and the file that is
-- then at the destination.
pub record KeyCreation : Type 0 where
  pub ensure_directories : Option FileError
  pub random : Option (List ℕ)
  pub open_temporary : Option FileError
  pub write_all : Option FileError
  pub sync_all : Option FileError
  pub hard_link : Option FileError
  pub destination : PathFile

module _ (own_uid : ℕ) where
  unfoldable pub after_stat : Result FileError PathStat → PathFile → Result KeyError (List ℕ)
  unfolding validate_key_metadata exact_key
  after_stat (err e) file = err (KeyError.io e)
  after_stat (ok stat) file =
      unless_error (validate_key_metadata own_uid stat) (exact_key file.content)

  unfoldable pub after_key_identity :
      PathStat → Result FileError (ℕ × ℕ) → PathFile → Result KeyError (List ℕ)
  unfolding after_stat
  after_key_identity path_stat (err e) file = err (KeyError.io e)
  after_key_identity path_stat (ok identity) file =
      if not (is_same_file path_stat identity)
      then err KeyError.changed
      else after_stat file.stat file

  unfoldable pub open_key : Result FileError PathStat → PathFile → Result KeyError (List ℕ)
  unfolding after_key_identity validate_key_metadata
  open_key (err e) file = err (KeyError.io e)
  open_key (ok path_stat) file =
      unless_error (validate_key_metadata own_uid path_stat)
        (unless_error (io_of file.open_error) (after_key_identity path_stat file.identity file))

  unfoldable pub load_key : PathFile → Result KeyError (List ℕ)
  unfolding open_key
  load_key file = open_key file.path_stat file

  -- Another agent that was first has written the key that counts.
  unfoldable pub after_link : List ℕ → Option FileError → PathFile → Result KeyError (List ℕ)
  unfolding load_key
  after_link key none destination = ok key
  after_link key (some FileError.already_exists) destination = load_key destination
  after_link key (some e) destination = err (KeyError.io e)

  unfoldable pub write_key : KeyCreation → List ℕ → Result KeyError (List ℕ)
  unfolding after_link
  write_key create key = unless_error (io_of create.open_temporary) (
      unless_error (io_of create.write_all)
        (unless_error (io_of create.sync_all) (after_link key create.hard_link create.destination)))

  unfoldable pub after_random : KeyCreation → Option (List ℕ) → Result KeyError (List ℕ)
  unfolding write_key
  after_random create none = err KeyError.random_failed
  after_random create (some key) = write_key create key

  unfoldable pub create_key : KeyCreation → Result KeyError (List ℕ)
  unfolding after_random
  create_key create =
      unless_error (io_of create.ensure_directories) (after_random create create.random)

  unfoldable pub or_create : KeyCreation → Result KeyError (List ℕ) → Result KeyError (List ℕ)
  unfolding create_key
  or_create create (err (KeyError.io FileError.not_found)) = create_key create
  or_create create answer = answer

  unfoldable pub load_or_create_key : PathFile → KeyCreation → Result KeyError (List ℕ)
  unfolding or_create load_key
  load_or_create_key file create = or_create create (load_key file)

  unless_error-ok :
      (check : Option KeyError) (rest : Result KeyError (List ℕ)) (key : List ℕ)
      → unless_error check rest ≡ ok key
      → (check ≡ none) × (rest ≡ ok key)
  unless_error-ok none rest key h = (refl, h)
  unless_error-ok (some e) rest key h = ground arith

  exact_key-length :
      (content : Result FileError (List ℕ)) (key : List ℕ)
      → exact_key content ≡ ok key
      → length key ≡ key_bytes
  unfolding exact_key
  exact_key-length (err e) key h = ground arith
  exact_key-length (ok content) key h = ground arith

  after_stat-length :
      (answer : Result FileError PathStat) (file : PathFile) (key : List ℕ)
      → after_stat answer file ≡ ok key
      → length key ≡ key_bytes
  unfolding after_stat
  after_stat-length (err e) file key h = ground arith
  after_stat-length (ok stat) file key h =
      exact_key-length file.content key
        (unless_error-ok (validate_key_metadata own_uid stat) (exact_key file.content) key h).1

  after_key_identity-length :
      (path_stat : PathStat) (answer : Result FileError (ℕ × ℕ)) (file : PathFile) (key : List ℕ)
      → after_key_identity path_stat answer file ≡ ok key
      → length key ≡ key_bytes
  unfolding after_key_identity
  after_key_identity-length path_stat (err e) file key h = ground arith
  after_key_identity-length path_stat (ok identity) file key h =
      ground (arith, after_stat-length file.stat file key)

  open_key-length :
      (answer : Result FileError PathStat) (file : PathFile) (key : List ℕ)
      → open_key answer file ≡ ok key
      → length key ≡ key_bytes
  unfolding open_key
  open_key-length (err e) file key h = ground arith
  open_key-length (ok path_stat) file key h =
      after_key_identity-length path_stat file.identity file key
        (unless_error-ok (io_of file.open_error) _ key
          (unless_error-ok (validate_key_metadata own_uid path_stat) _ key h).1).1

  after_link-length :
      (key : List ℕ) (answer : Option FileError) (destination : PathFile) (got : List ℕ)
      → length key ≡ key_bytes
      → after_link key answer destination ≡ ok got
      → length got ≡ key_bytes
  unfolding after_link load_key
  after_link-length key none destination got long h = ground arith
  after_link-length key (some FileError.already_exists) destination got long h =
      open_key-length destination.path_stat destination got h
  after_link-length key (some e) destination got long h = ground arith

  after_random-length :
      (create : KeyCreation) (answer : Option (List ℕ)) (got : List ℕ)
      → ((key : List ℕ) → answer ≡ some key → length key ≡ key_bytes)
      → after_random create answer ≡ ok got
      → length got ≡ key_bytes
  unfolding after_random write_key
  after_random-length create none got long h = ground arith
  after_random-length create (some key) got long h =
      let opened = (unless_error-ok (io_of create.open_temporary) _ got h).1 in
      let written = (unless_error-ok (io_of create.write_all) _ got opened).1 in
      let synced = (unless_error-ok (io_of create.sync_all) _ got written).1 in
      after_link-length key create.hard_link create.destination got (long key refl) synced

  or_create-length :
      (create : KeyCreation) (answer : Result KeyError (List ℕ)) (got : List ℕ)
      → ((key : List ℕ) → create.random ≡ some key → length key ≡ key_bytes)
      → ((key : List ℕ) → answer ≡ ok key → length key ≡ key_bytes)
      → or_create create answer ≡ ok got
      → length got ≡ key_bytes
  unfolding or_create create_key
  or_create-length create (ok key) got long loaded h = ground (arith, loaded key refl)
  or_create-length create (err (KeyError.io FileError.not_found)) got long loaded h =
      after_random-length create create.random got long
        (unless_error-ok (io_of create.ensure_directories) _ got h).1
  or_create-length create (err e) got long loaded h = ground arith

  -- Every key that is loaded or created has 32 bytes, where the random generator fills 32 bytes.
  pub load_or_create_key-length :
      (file : PathFile) (create : KeyCreation) (got : List ℕ)
      → ((key : List ℕ) → create.random ≡ some key → length key ≡ key_bytes)
      → load_or_create_key file create ≡ ok got
      → length got ≡ key_bytes
  unfolding load_or_create_key load_key
  load_or_create_key-length file create got long h =
      or_create-length create (load_key file) got long (open_key-length file.path_stat file) h
