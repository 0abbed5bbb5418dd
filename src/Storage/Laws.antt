-- ===== src/Storage/Laws.antt =====
-- What one save leaves on disk, on each outcome.
use open_code_server.Base.{
  ◌≡◌, refl, Contents, Option, none, some, List, [], ◌∷◌, arith, Option-cases,
}
use open_code_server.RuntimeState.{RuntimeState}
use open_code_server.World.{World, Call, IoError, StorageStep}
use open_code_server.Storage.{
  RuntimeStateSaveOutcome, prepare, fill, sync_parent, after_sync, after_rename, after_prepare,
  write_json_atomically, steps_before_rename, perform,
}

prepare-file :
    (w : World) (state : RuntimeState) (t : Contents RuntimeState) (steps : List StorageStep)
    → (prepare w state t steps).2.file ≡ w.file
unfolding prepare
prepare-file w state t [] = refl
prepare-file w state t (step ∷ steps) =
    ground (arith, prepare-file (perform w step).1 state (fill state step t) steps)

-- The temporary file after these calls, where all of them succeed.
abbrev filled : RuntimeState → Contents RuntimeState → List StorageStep → Contents RuntimeState
filled state t [] = t
filled state t (step ∷ steps) = filled state (fill state step t) steps

prepare-filled :
    (w : World) (state : RuntimeState) (t : Contents RuntimeState) (steps : List StorageStep)
    → (prepare w state t steps).0 ≡ none
    → (prepare w state t steps).1 ≡ filled state t steps
unfolding prepare
prepare-filled w state t [] h = refl
prepare-filled w state t (step ∷ steps) h = ground (
  arith,
  Option-cases (perform w step).0,
  prepare-filled (perform w step).1 state (fill state step t) steps,
)

-- The trace ends with the rename of the synced text of the state and a sync of the directory.
abbrev Renamed : RuntimeState → List Call → Type 0
Renamed state t =
    (rest : List Call) × (t
      ≡ Call.storage StorageStep.sync_directory ∷ Call.renamed (Contents.synced state) ∷ rest)

-- What is known of the visible file after a save: a failed save leaves the old one, and the other
-- two outcomes leave the new one, renamed when its text was synced; only a durable save has synced
-- the directory entry last.
abbrev pub Saved : World → RuntimeState → RuntimeStateSaveOutcome × World → Type 0
Saved w state (RuntimeStateSaveOutcome.durable, w') =
    (w'.file ≡ some state)
    × ((rest : List Call) × (w'.trace ≡ Call.synced (some state) ∷ rest) × Renamed state rest)
Saved w state (RuntimeStateSaveOutcome.failed e, w') = w'.file ≡ w.file
Saved w state (RuntimeStateSaveOutcome.uncertain e, w') =
    (w'.file ≡ some state) × Renamed state w'.trace

after_sync-Saved :
    (error : Option IoError) (old w : World) (state : RuntimeState)
    → w.file ≡ some state
    → Renamed state w.trace
    → Saved old state (after_sync error w)
unfolding after_sync
after_sync-Saved (some e) old w state h r = (h, r)
after_sync-Saved none old w state h r = (h, (w.trace, rw h refl, r))

after_rename-Saved :
    (error : Option IoError) (old w : World) (t : Contents RuntimeState) (state : RuntimeState)
    → w.file ≡ old.file
    → t ≡ Contents.synced state
    → Saved old state (after_rename error w t)
unfolding after_rename sync_parent
after_rename-Saved (some e) old w t state h r = h
after_rename-Saved none old w t state h r =
    after_sync-Saved _ old _ state (rw r refl) (w.trace, rw r refl)

after_prepare-Saved :
    (error : Option IoError) (old w : World) (t : Contents RuntimeState) (state : RuntimeState)
    → w.file ≡ old.file
    → (error ≡ none → t ≡ Contents.synced state)
    → Saved old state (after_prepare error w t)
unfolding after_prepare
after_prepare-Saved (some e) old w t state h r = h
after_prepare-Saved none old w t state h r = after_rename-Saved _ old _ t state h (r refl)

-- A save that reports failure left the old contents visible. One that is uncertain or durable left
-- the new ones: a temporary file was renamed into place after the whole text had been written and
-- synced, and the sync of the directory was asked for next. A durable one ended with that sync.
pub write_json_atomically-Saved :
    (w : World) (state : RuntimeState) → Saved w state (write_json_atomically w state)
unfolding write_json_atomically
write_json_atomically-Saved w state =
    let p : Option IoError × Contents RuntimeState × World =
      prepare w state Contents.absent steps_before_rename in
    after_prepare-Saved p.0 w p.2 p.1 state
      (prepare-file w state Contents.absent steps_before_rename)
      (prepare-filled w state Contents.absent steps_before_rename)
