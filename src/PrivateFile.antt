-- ===== src/PrivateFile.antt =====
-- Reading a private file (rust/src/private_file.rs): it is opened without following a link, looked at
-- through its descriptor, and read up to a limit.
use Prim.Native.Nat.{bit_and}
use open_code_server.Base.{
  ℕ, ◌+◌, ◌≤◌, ◌≡◌, refl, Bool, true, not, Option, none, some, List, ◌==◌, ltb, arith, Result, ok,
  err, if◌then◌else◌,
}
use open_code_server.Lists.{length, take}

-- `other` is an error of the kernel, by its number.
pub data FileError : Type 0 where
  not_found already_exists not_regular not_owned not_private too_long : FileError
  other : ℕ → FileError

pub record FileStat : Type 0 where
  pub is_file : Bool
  pub uid : ℕ
  pub mode : ℕ
  pub len : ℕ

-- What the kernel answers about one file: to the open, to the two looks at its descriptor, and what
-- there is to read.
pub record PrivateFile : Type 0 where
  pub open_error : Option FileError
  pub stat : Result FileError FileStat
  pub stat_again : Result FileError FileStat
  pub content : Result FileError (List ℕ)

-- `metadata.mode() & 0o077 == 0`
abbrev pub is_owner_only : FileStat → Bool
is_owner_only stat = bit_and stat.mode 63 == 0

unfoldable pub validate_descriptor : ℕ → ℕ → FileStat → Option FileError
validate_descriptor own_uid max_bytes stat =
    if not stat.is_file
    then some FileError.not_regular
    else if not (stat.uid == own_uid)
    then some FileError.not_owned
    else if not (is_owner_only stat)
    then some FileError.not_private
    else if ltb max_bytes stat.len
    then some FileError.too_long
    else none

unfoldable pub read_content : ℕ → Result FileError (List ℕ) → Result FileError (List ℕ)
read_content max_bytes (err e) = err e
read_content max_bytes (ok content) =
    let bytes = take (max_bytes + 1) content in
    if ltb max_bytes (length bytes) then err FileError.too_long else ok bytes

-- The second look is for the capacity of the buffer only.
unfoldable pub after_second_look :
    ℕ → Result FileError FileStat → Result FileError (List ℕ) → Result FileError (List ℕ)
unfolding read_content
after_second_look max_bytes (err e) content = err e
after_second_look max_bytes (ok stat) content = read_content max_bytes content

unfoldable pub after_validation : ℕ → Option FileError → PrivateFile → Result FileError (List ℕ)
unfolding after_second_look
after_validation max_bytes (some e) file = err e
after_validation max_bytes none file = after_second_look max_bytes file.stat_again file.content

unfoldable pub after_stat :
    ℕ → ℕ → Result FileError FileStat → PrivateFile → Result FileError (List ℕ)
unfolding after_validation validate_descriptor
after_stat own_uid max_bytes (err e) file = err e
after_stat own_uid max_bytes (ok stat) file =
    after_validation max_bytes (validate_descriptor own_uid max_bytes stat) file

unfoldable pub after_open : ℕ → ℕ → Option FileError → PrivateFile → Result FileError (List ℕ)
unfolding after_stat
after_open own_uid max_bytes (some e) file = err e
after_open own_uid max_bytes none file = after_stat own_uid max_bytes file.stat file

unfoldable pub read_private_file : ℕ → ℕ → PrivateFile → Result FileError (List ℕ)
unfolding after_open
read_private_file own_uid max_bytes file = after_open own_uid max_bytes file.open_error file

read_content-length :
    (max_bytes : ℕ) (content : Result FileError (List ℕ)) (bytes : List ℕ)
    → read_content max_bytes content ≡ ok bytes
    → length bytes ≤ max_bytes
unfolding read_content
read_content-length max_bytes (err e) bytes h = ground arith
read_content-length max_bytes (ok content) bytes h = ground arith

after_second_look-length :
    (max_bytes : ℕ) (again : Result FileError FileStat) (content : Result FileError (List ℕ))
    (bytes : List ℕ)
    → after_second_look max_bytes again content ≡ ok bytes
    → length bytes ≤ max_bytes
unfolding after_second_look
after_second_look-length max_bytes (err e) content bytes h = ground arith
after_second_look-length max_bytes (ok stat) content bytes h =
    read_content-length max_bytes content bytes h

-- The descriptor shows a regular file of the user that no one else may access.
unfoldable pub IsPrivate : ℕ → FileStat → Type 0
IsPrivate own_uid stat = (stat.is_file ≡ true) × (stat.uid ≡ own_uid) × (is_owner_only stat ≡ true)

after_validation-IsPrivate :
    (own_uid max_bytes : ℕ) (file : PrivateFile) (stat : FileStat) (bytes : List ℕ)
    → after_stat own_uid max_bytes (ok stat) file ≡ ok bytes
    → IsPrivate own_uid stat × (length bytes ≤ max_bytes)
unfolding after_stat validate_descriptor after_validation IsPrivate
after_validation-IsPrivate own_uid max_bytes file stat bytes h =
    ground (arith, after_second_look-length max_bytes file.stat_again file.content bytes)

after_stat-IsPrivate :
    (own_uid max_bytes : ℕ) (file : PrivateFile) (answer : Result FileError FileStat)
    (bytes : List ℕ)
    → file.stat ≡ answer
    → after_stat own_uid max_bytes answer file ≡ ok bytes
    → (stat : FileStat) × (file.stat ≡ ok stat)
      × (IsPrivate own_uid stat × (length bytes ≤ max_bytes))
unfolding after_stat
after_stat-IsPrivate own_uid max_bytes file (err e) bytes asked h = ground arith
after_stat-IsPrivate own_uid max_bytes file (ok stat) bytes asked h =
    (stat, asked, after_validation-IsPrivate own_uid max_bytes file stat bytes h)

-- Bytes that are read come from a file whose descriptor shows a regular file of the user that no one
-- else may access, and they are no more than the limit.
pub read_private_file-IsPrivate :
    (own_uid max_bytes : ℕ) (file : PrivateFile) (bytes : List ℕ)
    → read_private_file own_uid max_bytes file ≡ ok bytes
    → (stat : FileStat) × (file.stat ≡ ok stat)
      × (IsPrivate own_uid stat × (length bytes ≤ max_bytes))
unfolding read_private_file
read_private_file-IsPrivate own_uid max_bytes file bytes h = opened file.open_error h
  where
    opened :
        (error : Option FileError)
        → after_open own_uid max_bytes error file ≡ ok bytes
        → (stat : FileStat) × (file.stat ≡ ok stat)
          × (IsPrivate own_uid stat × (length bytes ≤ max_bytes))
    opened (some e) r = ground arith
    opened none r = after_stat-IsPrivate own_uid max_bytes file file.stat bytes refl r
