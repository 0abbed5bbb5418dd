-- ===== src/Storage/Load/Tests.antt =====
-- A state file that is loaded (rust/src/runtime_state.rs), and a save of a configuration that fails
-- (rust/src/config.rs).
use open_code_server.Base.{
  Contents, ℕ, ◌≡◌, refl, true, false, Option, none, some, is_some, List, [], ◌∷◌, ok, err, ◌⊎◌,
}
use open_code_server.PrivateFile.{FileError}
use open_code_server.Config.File.{PathStat, PathFile, default_config}
use open_code_server.Config.Save.{
  SaveStep, ConfigDisk, write_config_atomically, write_config_atomically-file,
}
use open_code_server.RuntimeState.{RuntimeState, default}
use open_code_server.Storage.Load.{IsTrusted, load_state, load_state-IsTrusted}

abbrev stat : PathStat
stat = record {
  is_symlink = false;
  is_file = true;
  uid = 501;
  mode = 33_152;
  len = 2;
  dev = 1;
  ino = 9;
}

abbrev file : PathFile
file = record {
  exists = true;
  path_stat = ok stat;
  open_error = none;
  identity = ok (1, 9);
  stat = ok stat;
  content = ok (123 ∷ 125 ∷ []);
}

abbrev decode : List ℕ → Option RuntimeState
decode bytes = some default

load_state-IsTrusted_example :
    ((file.path_stat ≡ err FileError.not_found) × (default ≡ default))
    ⊎ ((s : PathStat) × (file.path_stat ≡ ok s)
        × (IsTrusted 501 decode s × (default.schema_version ≡ 2)))
unfolding load_state
load_state-IsTrusted_example = load_state-IsTrusted 501 decode file default refl

-- The rename fails, and every other step succeeds.
no_rename : List SaveStep → SaveStep → Option FileError
no_rename steps SaveStep.rename = some (FileError.other 1)
no_rename steps _ = none

abbrev fresh_disk : ConfigDisk
fresh_disk = record { file = Contents.absent; temporary = Contents.absent; steps = [] }

rename_fails :
    (write_config_atomically no_rename default_config fresh_disk).1.file ≡ Contents.absent
unfolding write_config_atomically no_rename
rename_fails = refl

write_config_atomically-file_example :
    ((write_config_atomically no_rename default_config fresh_disk).1.file
      ≡ Contents.synced default_config)
    ⊎ (((write_config_atomically no_rename default_config fresh_disk).1.file ≡ Contents.absent)
        × (is_some (write_config_atomically no_rename default_config fresh_disk).0 ≡ true))
write_config_atomically-file_example =
    write_config_atomically-file no_rename default_config fresh_disk
