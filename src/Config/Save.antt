-- ===== src/Config/Save.antt =====
-- Writing the configuration's file (rust/src/config.rs, `write_config_atomically`): into a temporary
-- file that then takes the place of the old one.
use open_code_server.Base.{
  Contents, ◌≡◌, refl, Bool, true, false, Option, none, some, List, [], ◌∷◌, arith, if◌then◌else◌,
  ◌⊎◌, inl, inr, is_some, Option-cases,
}
use open_code_server.Lists.{drop}
use open_code_server.Config.{ConfigFile}
use open_code_server.PrivateFile.{FileError}

pub data SaveStep : Type 0 where
  parent create_dir set_directory_permissions serialize open_temporary : SaveStep
  write_all sync_all rename set_permissions remove_temporary : SaveStep

-- The file at the path, the temporary file, and the steps made, newest first.
pub record ConfigDisk : Type 0 where
  pub file : Contents ConfigFile
  pub temporary : Contents ConfigFile
  pub steps : List SaveStep

-- The steps of the closure, whose failure removes the temporary file.
abbrev pub is_written : SaveStep → Bool
is_written SaveStep.write_all = true
is_written SaveStep.sync_all = true
is_written SaveStep.rename = true
is_written SaveStep.set_permissions = true
is_written _ = false

abbrev pub made : SaveStep → ConfigDisk → ConfigDisk
made step disk = record disk { steps = step ∷ disk.steps }

-- The temporary file after the sync of what it holds.
abbrev pub synced_text : Contents ConfigFile → Contents ConfigFile
synced_text (Contents.written config) = Contents.synced config
synced_text contents = contents

-- What a step that succeeds does; the rename puts into place what the temporary file holds.
abbrev pub performed : ConfigFile → SaveStep → ConfigDisk → ConfigDisk
performed config SaveStep.open_temporary disk = record disk { temporary = Contents.partial }
performed config SaveStep.write_all disk = record disk { temporary = Contents.written config }
performed config SaveStep.sync_all disk = record disk { temporary = synced_text disk.temporary }
performed config SaveStep.rename disk = record disk {
  file = disk.temporary;
  temporary = Contents.absent;
}
performed config _ disk = disk

abbrev pub all_steps : List SaveStep
all_steps =
    SaveStep.parent ∷ SaveStep.create_dir ∷ SaveStep.set_directory_permissions ∷ SaveStep.serialize
    ∷ SaveStep.open_temporary ∷ SaveStep.write_all ∷ SaveStep.sync_all ∷ SaveStep.rename
    ∷ SaveStep.set_permissions ∷ []

-- An error may depend on the steps made before.
module _ (answers : List SaveStep → SaveStep → Option FileError) (config : ConfigFile) where
  unfoldable pub save_steps : List SaveStep → ConfigDisk → Option FileError × ConfigDisk
  save_steps [] disk = (none, disk)
  save_steps (step ∷ steps) disk =
      let disk' = made step disk in
      elim (answers disk.steps step) [
        | some e ↦ (some e, if is_written step then made SaveStep.remove_temporary disk' else disk')
        | none ↦ save_steps steps (performed config step disk')
      ]

  unfoldable pub write_config_atomically : ConfigDisk → Option FileError × ConfigDisk
  unfolding save_steps
  write_config_atomically disk = save_steps all_steps disk

  -- The file has the synced text of the new configuration, or it is the old one and there is an error.
  abbrev pub Saved : Contents ConfigFile → Option FileError × ConfigDisk → Type 0
  Saved old (error, disk) =
      (disk.file ≡ Contents.synced config) ⊎ ((disk.file ≡ old) × (is_some error ≡ true))

  cleaned-file :
      (cleans : Bool) (disk : ConfigDisk)
      → (if cleans then made SaveStep.remove_temporary disk else disk).file ≡ disk.file
  cleaned-file true disk = refl
  cleaned-file false disk = refl

  answered-Saved :
      (answer : Option FileError) (cleans : Bool) (disk : ConfigDisk)
      (rest : Option FileError × ConfigDisk)
      → Saved disk.file rest
      → Saved disk.file (elim answer [
        | some e ↦ (some e, if cleans then made SaveStep.remove_temporary disk else disk)
        | none ↦ rest
      ])
  answered-Saved (some e) cleans disk rest h = inr (cleaned-file cleans disk, refl)
  answered-Saved none cleans disk rest h = h

  -- A step keeps the old file where it fails.
  step-Saved :
      (step : SaveStep) (steps : List SaveStep) (disk : ConfigDisk)
      → Saved disk.file (save_steps steps (performed config step (made step disk)))
      → Saved disk.file (save_steps (step ∷ steps) disk)
  unfolding save_steps
  step-Saved step steps disk h =
      answered-Saved (answers disk.steps step) (is_written step) (made step disk) _ h

  -- After the rename only the permissions are set, which leaves the new file whether they are or not.
  last-Saved :
      (old : Contents ConfigFile) (disk : ConfigDisk)
      → disk.file ≡ Contents.synced config
      → Saved old (save_steps (SaveStep.set_permissions ∷ []) disk)
  unfolding save_steps
  last-Saved old disk h =
      inl (ground (arith, Option-cases (answers disk.steps SaveStep.set_permissions)))

  -- A save of the configuration leaves either the file as it was, and then reports an error, or the
  -- whole new configuration, whose text was synced before the rename, whatever step fails.
  pub write_config_atomically-file :
      (disk : ConfigDisk)
      → ((write_config_atomically disk).1.file ≡ Contents.synced config)
        ⊎ (((write_config_atomically disk).1.file ≡ disk.file)
            × (is_some (write_config_atomically disk).0 ≡ true))
  unfolding write_config_atomically drop
  write_config_atomically-file disk =
      let d1 : ConfigDisk = performed config SaveStep.parent (made SaveStep.parent disk) in
      let d2 : ConfigDisk = performed config SaveStep.create_dir (made SaveStep.create_dir d1) in
      let d3 : ConfigDisk =
        performed config SaveStep.set_directory_permissions
          (made SaveStep.set_directory_permissions d2) in
      let d4 : ConfigDisk = performed config SaveStep.serialize (made SaveStep.serialize d3) in
      let d5 : ConfigDisk =
        performed config SaveStep.open_temporary (made SaveStep.open_temporary d4) in
      let d6 : ConfigDisk = performed config SaveStep.write_all (made SaveStep.write_all d5) in
      let d7 : ConfigDisk = performed config SaveStep.sync_all (made SaveStep.sync_all d6) in
      let d8 : ConfigDisk = performed config SaveStep.rename (made SaveStep.rename d7) in
      step-Saved SaveStep.parent (drop 1 all_steps) disk (
        step-Saved SaveStep.create_dir (drop 2 all_steps) d1 (
          step-Saved SaveStep.set_directory_permissions (drop 3 all_steps) d2 (
            step-Saved SaveStep.serialize (drop 4 all_steps) d3 (
              step-Saved SaveStep.open_temporary (drop 5 all_steps) d4 (
                step-Saved SaveStep.write_all (drop 6 all_steps) d5 (
                  step-Saved SaveStep.sync_all (drop 7 all_steps) d6 (
                    step-Saved SaveStep.rename (drop 8 all_steps) d7
                      (last-Saved disk.file d8 refl))))))))
