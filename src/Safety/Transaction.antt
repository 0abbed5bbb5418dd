-- ===== src/Safety/Transaction.antt =====
-- What a save, a desired state and a launch marker leave in memory and on disk
-- (rust/src/supervisor/runtime_durability.rs, launch_transaction.rs).
use open_code_server.Base.{
  Bool, true, false, not, ◌||◌, ◌≡◌, ◌⊎◌, inl, inr, refl, sym, ap, ◌∙◌, none, some, ok, err,
  if◌then◌else◌,
}
use open_code_server.Protocol.{DesiredState}
use open_code_server.RuntimeState.{LaunchPending}
use open_code_server.World.{World}
use open_code_server.Storage.{RuntimeStateSaveOutcome, write_json_atomically}
use open_code_server.Storage.Laws.{Saved, write_json_atomically-Saved}
use open_code_server.Supervisor.State.{
  Supervisor, CommandError, PendingLifecycleIntent, launch_is_pending,
}
use open_code_server.Supervisor.Durability.{
  RuntimePersistence, CommandResult, settle_save, persist_runtime_detailed, settle_desired_state,
  persist_desired_state, set_desired_state, runtime_state_unavailable_error,
}
use open_code_server.Supervisor.Launch.{settle_launch, begin_launch, set_launch_pending}
use open_code_server.Trace.Score.{is_marked}
use open_code_server.Trace.Start.{begin_launch_marked}

-- A failed save leaves the old file; the others leave the new one. None changes the memory.
abbrev pub Persisted : Supervisor → RuntimePersistence × Supervisor → Type 0
Persisted s (RuntimePersistence.durable, s') =
    (s'.world.file ≡ some s.runtime) × (s'.runtime ≡ s.runtime)
Persisted s (RuntimePersistence.failed, s') =
    (s'.world.file ≡ s.world.file) × (s'.runtime ≡ s.runtime)
Persisted s (RuntimePersistence.uncertain, s') =
    (s'.world.file ≡ some s.runtime) × (s'.runtime ≡ s.runtime)

settle_save-Persisted :
    (x : RuntimeStateSaveOutcome × World) (s : Supervisor)
    → Saved s.world s.runtime x
    → Persisted s (settle_save x.0 (record s { world = x.1 }))
unfolding settle_save
settle_save-Persisted (RuntimeStateSaveOutcome.durable, w) s (shown, synced) = (shown, refl)
settle_save-Persisted (RuntimeStateSaveOutcome.failed e, w) s h = (h, refl)
settle_save-Persisted (RuntimeStateSaveOutcome.uncertain e, w) s (h, rest) = (h, refl)

unless_closed-Persisted :
    (closed : Bool) (s : Supervisor) (x : RuntimePersistence × Supervisor)
    → Persisted s x
    → Persisted s (if closed then (RuntimePersistence.failed, s) else x)
unless_closed-Persisted true s x h = (refl, refl)
unless_closed-Persisted false s x h = h

pub persist_runtime_detailed-Persisted : (s : Supervisor) → Persisted s (persist_runtime_detailed s)
unfolding persist_runtime_detailed
persist_runtime_detailed-Persisted s = unless_closed-Persisted (not s.runtime_state_loaded) s _ (
    settle_save-Persisted (write_json_atomically s.world s.runtime) s
      (write_json_atomically-Saved s.world s.runtime))

-- Nothing of the command remains.
abbrev pub RolledBack : Supervisor → Supervisor → Type 0
RolledBack s s' =
    (s'.world.file ≡ s.world.file)
    × (s'.runtime ≡ s.runtime)
    × (s'.pending_lifecycle_intent ≡ s.pending_lifecycle_intent)
    × (s'.pending_durable_convergence ≡ s.pending_durable_convergence)

-- The new state is visible on disk, its durability is unknown, and the intent is kept.
abbrev pub Kept : Supervisor → DesiredState → PendingLifecycleIntent → Supervisor → Type 0
Kept s desired intent s' =
    (s'.world.file ≡ some s'.runtime)
    × (s'.runtime ≡ (set_desired_state s desired).runtime)
    × (s'.pending_lifecycle_intent ≡ some intent)
    × (s'.pending_durable_convergence ≡ none)

abbrev pub Committed : Supervisor → DesiredState → PendingLifecycleIntent → CommandResult → Type 0
Committed s desired intent (ok _, s') =
    (s'.world.file ≡ some s'.runtime)
    × (s'.runtime ≡ (set_desired_state s desired).runtime)
    × (s'.pending_lifecycle_intent ≡ none)
    × (s'.pending_durable_convergence ≡ none)
Committed s desired intent (err e, s') = RolledBack s s' ⊎ Kept s desired intent s'

settle_desired_state-Committed :
    (x : RuntimePersistence × Supervisor) (s : Supervisor) (desired : DesiredState)
    (intent : PendingLifecycleIntent)
    → Persisted (set_desired_state s desired) x
    → Committed s desired intent (settle_desired_state x.0 s x.1 intent)
unfolding settle_desired_state
settle_desired_state-Committed (RuntimePersistence.durable, s') s desired intent (file, memory) =
    (file ∙ ap some (sym memory), memory, refl, refl)
settle_desired_state-Committed (RuntimePersistence.failed, s') s desired intent (file, memory) =
    inl (file, refl, refl, refl)
settle_desired_state-Committed (RuntimePersistence.uncertain, s') s desired intent (file, memory) =
    inr (file ∙ ap some (sym memory), memory, refl, refl)

unless_closed-Committed :
    (closed : Bool) (s : Supervisor) (desired : DesiredState) (intent : PendingLifecycleIntent)
    (e : CommandError) (x : CommandResult)
    → Committed s desired intent x
    → Committed s desired intent (if closed then (err e, s) else x)
unless_closed-Committed true s desired intent e x h = inl (refl, refl, refl, refl)
unless_closed-Committed false s desired intent e x h = h

-- A change of the desired state is a transaction. Accepted, the new desired state is what the
-- visible file and the memory hold and nothing is pending. Refused, either the file, the memory and
-- the pending work are as before, or the file shows the new state and the command's intent is kept.
pub persist_desired_state-Committed :
    (s : Supervisor) (desired : DesiredState) (intent : PendingLifecycleIntent)
    → Committed s desired intent (persist_desired_state s desired intent)
unfolding persist_desired_state
persist_desired_state-Committed s desired intent =
    unless_closed-Committed (not s.runtime_state_loaded) s desired intent
      (runtime_state_unavailable_error s) _
      (settle_desired_state-Committed (persist_runtime_detailed (set_desired_state s desired)) s
        desired intent (persist_runtime_detailed-Persisted (set_desired_state s desired)))

-- What `begin_launch` leaves: a marker on disk and in memory, or the memory as it was, or a marker
-- that is visible but not known to be durable, which is to be cleared.
abbrev pub Marked : Supervisor → LaunchPending → Bool × Supervisor → Type 0
Marked s m (true, s') =
    (s'.world.file ≡ some s'.runtime)
    × (s'.runtime.launch_pending ≡ some m)
    × (is_marked s'.world.trace ≡ true)
Marked s m (false, s') =
    ((s'.world.file ≡ s.world.file) × (s'.runtime.launch_pending ≡ s.runtime.launch_pending))
    ⊎ ((s'.world.file ≡ some s'.runtime) × (s'.launch_pending_clear_requested ≡ true))

abbrev Visible : Supervisor → LaunchPending → Bool × Supervisor → Type 0
Visible s m (true, s') = (s'.world.file ≡ some s'.runtime) × (s'.runtime.launch_pending ≡ some m)
Visible s m (false, s') = Marked s m (false, s')

settle_launch-Visible :
    (x : RuntimePersistence × Supervisor) (s : Supervisor) (m : LaunchPending)
    → Persisted (set_launch_pending s (some m)) x
    → Visible s m (settle_launch x.0 x.1 s.runtime.launch_pending)
unfolding settle_launch
settle_launch-Visible (RuntimePersistence.durable, s') s m (file, memory) =
    (file ∙ ap some (sym memory), ap (λ r. r.launch_pending) memory)
settle_launch-Visible (RuntimePersistence.failed, s') s m (file, memory) = inl (file, refl)
settle_launch-Visible (RuntimePersistence.uncertain, s') s m (file, memory) =
    inr (file ∙ ap some (sym memory), refl)

unless_closed-Visible :
    (closed : Bool) (s : Supervisor) (m : LaunchPending) (x : Bool × Supervisor)
    → Visible s m x
    → Visible s m (if closed then (false, s) else x)
unless_closed-Visible true s m x h = inl (refl, refl)
unless_closed-Visible false s m x h = h

begin_launch-Visible : (s : Supervisor) (m : LaunchPending) → Visible s m (begin_launch s m)
unfolding begin_launch
begin_launch-Visible s m =
    unless_closed-Visible
      (not s.runtime_state_loaded
        || not s.runtime_state_reliable
        || launch_is_pending s
        || s.launch_pending_clear_requested)
      s m _
      (settle_launch-Visible (persist_runtime_detailed (set_launch_pending s (some m))) s m
        (persist_runtime_detailed-Persisted (set_launch_pending s (some m))))

join-Marked :
    (x : Bool × Supervisor) (s : Supervisor) (m : LaunchPending)
    → Visible s m x
    → (x.0 ≡ true → is_marked x.1.world.trace ≡ true)
    → Marked s m x
join-Marked (true, s') s m (file, memory) k = (file, memory, k refl)
join-Marked (false, s') s m h k = h

-- The first phase of a launch succeeds only with its marker in memory and in the visible file, the
-- sync of that file being the last change made. It fails with file and marker as before, or with the
-- file showing the memory and the marker's removal requested.
pub begin_launch-Marked : (s : Supervisor) (m : LaunchPending) → Marked s m (begin_launch s m)
begin_launch-Marked s m =
    join-Marked (begin_launch s m) s m (begin_launch-Visible s m) (begin_launch_marked s m)
