-- ===== src/CredentialGrant/Tests.antt =====
-- A recorded grant (rust/src/credential_grant.rs) of one user, and calls that fail.
use open_code_server.Base.{String, ◌≡◌, ◌≤◌, refl, true, none, some, ok, [], ◌∷◌, Option}
use open_code_server.Lists.{length, take}
use open_code_server.Config.Text.{as_bytes}
use open_code_server.Config.Hostname.{any_char}
use open_code_server.PrivateFile.{
  FileError, FileStat, PrivateFile, IsPrivate, read_private_file, read_private_file-IsPrivate,
}
use open_code_server.CredentialGrant.{GrantStep, trim, marker_text, load, record_grant}
use open_code_server.CredentialGrant.Marker.{load-marker_text}

abbrev text : String
text = marker_text "u" "57" "T"

abbrev file : PrivateFile
file = record {
  open_error = none;
  stat = ok (record { is_file = true; uid = 501; mode = 33_152; len = 7 });
  stat_again = ok (record { is_file = true; uid = 501; mode = 33_152; len = 7 });
  content = ok (as_bytes text);
}

load-marker_text_example : load 501 (λ bytes. some text) file ≡ some ("u", "57", "T")
unfolding read_private_file as_bytes length take any_char trim
load-marker_text_example =
    load-marker_text 501 (λ bytes. some text) file "u" "57" "T" refl refl refl refl refl refl refl
      refl refl refl

read_private_file-IsPrivate_example :
    (stat : FileStat) × (file.stat ≡ ok stat) × (IsPrivate 501 stat × (length (as_bytes text) ≤ 16))
unfolding read_private_file as_bytes length take
read_private_file-IsPrivate_example = read_private_file-IsPrivate 501 16 file (as_bytes text) refl

-- The rename fails: the staging file is removed last.
no_rename : GrantStep → Option FileError
no_rename GrantStep.rename = some (FileError.other 1)
no_rename _ = none

rename_fails : record_grant no_rename ≡ (
  some (FileError.other 1),
  GrantStep.remove_staging ∷ GrantStep.open_staging ∷ GrantStep.write_all ∷ GrantStep.sync_all
      ∷ GrantStep.rename ∷ GrantStep.remove_staging ∷ [],
)
unfolding record_grant no_rename
rename_fails = refl
