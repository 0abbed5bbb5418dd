-- ===== src/Storage.antt =====
-- One atomic save of the state file (rust/src/runtime_state.rs, `write_json_atomically`).
pub mod Load
pub mod Laws
use open_code_server.Base.{
  if◌then◌else◌, Bool, true, false, Contents, Option, none, some, List, [], ◌∷◌,
}
use open_code_server.RuntimeState.{RuntimeState}
use open_code_server.World.{World, Call, IoError, StorageStep, push}

pub data RuntimeStateSaveOutcome : Type 0 where
  durable : RuntimeStateSaveOutcome
  failed uncertain : IoError → RuntimeStateSaveOutcome

abbrev pub perform : World → StorageStep → Option IoError × World
perform w step = (w.storage w.trace step, push w (Call.storage step))

-- Once the temporary file is open, a failure removes it.
abbrev removes_temporary : StorageStep → Bool
removes_temporary StorageStep.write_all = true
removes_temporary StorageStep.sync_all = true
removes_temporary StorageStep.rename = true
removes_temporary _ = false

abbrev clean_up : World → StorageStep → World
clean_up w step = if removes_temporary step then (perform w StorageStep.remove_temporary).1 else w

-- What a call that succeeds does to the temporary file.
abbrev pub fill : RuntimeState → StorageStep → Contents RuntimeState → Contents RuntimeState
fill state StorageStep.open_temporary t = Contents.partial
fill state StorageStep.write_all t = Contents.written state
fill state StorageStep.sync_all (Contents.written text) = Contents.synced text
fill state _ t = t

-- The calls before the rename, up to the first that fails, and the temporary file after them.
unfoldable pub prepare :
    World
    → RuntimeState
    → Contents RuntimeState
    → List StorageStep
    → Option IoError × Contents RuntimeState × World
prepare w state temporary [] = (none, temporary, w)
prepare w state temporary (step ∷ steps) =
    let (error, w') = perform w step in
    elim error [
      | some e ↦ (some e, temporary, clean_up w' step)
      | none ↦ prepare w' state (fill state step temporary) steps
    ]

abbrev pub steps_before_rename : List StorageStep
steps_before_rename =
    StorageStep.parent ∷ StorageStep.create_dir ∷ StorageStep.set_permissions
    ∷ StorageStep.serialize ∷ StorageStep.open_temporary ∷ StorageStep.write_all
    ∷ StorageStep.sync_all ∷ []

unfoldable pub after_sync : Option IoError → World → RuntimeStateSaveOutcome × World
after_sync (some e) w = (RuntimeStateSaveOutcome.uncertain e, w)
after_sync none w = (RuntimeStateSaveOutcome.durable, push w (Call.synced w.file))

unfoldable pub sync_parent : World → RuntimeStateSaveOutcome × World
unfolding after_sync
sync_parent w = let (error, w') = perform w StorageStep.sync_directory in after_sync error w'

-- The state that a file shows: only the whole text of a state shows one.
abbrev pub shown : Contents RuntimeState → Option RuntimeState
shown Contents.absent = none
shown Contents.partial = none
shown (Contents.written state) = some state
shown (Contents.synced state) = some state

-- The rename puts into place what the temporary file holds.
unfoldable pub after_rename :
    Option IoError → World → Contents RuntimeState → RuntimeStateSaveOutcome × World
after_rename (some e) w temporary =
    (RuntimeStateSaveOutcome.failed e, clean_up w StorageStep.rename)
after_rename none w temporary =
    sync_parent (push (record w { file = shown temporary }) (Call.renamed temporary))

unfoldable pub after_prepare :
    Option IoError → World → Contents RuntimeState → RuntimeStateSaveOutcome × World
after_prepare (some e) w temporary = (RuntimeStateSaveOutcome.failed e, w)
after_prepare none w temporary =
    let (error, w') = perform w StorageStep.rename in after_rename error w' temporary

unfoldable pub write_json_atomically : World → RuntimeState → RuntimeStateSaveOutcome × World
write_json_atomically w state =
    let (error, temporary, w') = prepare w state Contents.absent steps_before_rename in
    after_prepare error w' temporary
