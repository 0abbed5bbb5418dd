-- ===== src/Supervisor/Durability.antt =====
-- Persisting the runtime state (rust/src/supervisor/runtime_durability.rs): the save and its retry
-- gate, the transaction of a desired state, and what is deferred until a save is durable.
use open_code_server.Base.{
  ℕ, Bool, true, false, not, ◌&&◌, ◌||◌, ◌+◌, Option, none, some, Result, ok, err, if◌then◌else◌,
  is_some, unwrap_or, str_eq,
}
use open_code_server.Protocol.{DesiredState}
use open_code_server.World.{IoError, ErrorKind, now}
use open_code_server.Storage.{RuntimeStateSaveOutcome, write_json_atomically}
use open_code_server.Supervisor.State.{
  Supervisor, Message, CommandError, PendingLifecycleIntent, PendingDurableConvergence,
  command_error, launch_is_pending,
}

abbrev pub runtime_state_retry_interval : ℕ
runtime_state_retry_interval = 1000

pub data RuntimePersistence : Type 0 where
  durable failed uncertain : RuntimePersistence

abbrev pub is_durable : RuntimePersistence → Bool
is_durable RuntimePersistence.durable = true
is_durable _ = false

-- The texts that a runtime-state error can be, compared as texts.
abbrev pub same_message : Message → Message → Bool
same_message (Message.save_failed a) (Message.save_failed b) = str_eq a b
same_message (Message.load_failed a) (Message.load_failed b) = str_eq a b
same_message Message.not_durably_available Message.not_durably_available = true
same_message Message.launch_not_finalized Message.launch_not_finalized = true
same_message Message.launch_interrupted Message.launch_interrupted = true
same_message _ _ = false

-- `self.last_error.as_deref() == previous_runtime_error.as_deref()`
abbrev pub reports : Option Message → Option Message → Bool
reports none none = true
reports (some a) (some b) = same_message a b
reports _ _ = false

unfoldable pub record_runtime_state_failure : Supervisor → IoError → Supervisor
record_runtime_state_failure s e =
    let (at, w) = now s.world in
    record s {
      runtime_state_reliable = false;
      runtime_state_retry_pending = true;
      runtime_state_retry_at = some (at + runtime_state_retry_interval);
      runtime_state_error = some (Message.save_failed e.text);
      last_error = some (Message.save_failed e.text);
      world = w;
    }

unfoldable pub save_succeeded : Supervisor → Supervisor
save_succeeded s = record s {
  runtime_state_error = none;
  runtime_state_reliable = true;
  runtime_state_retry_pending = false;
  runtime_state_retry_at = none;
  last_error = if reports s.last_error s.runtime_state_error then none else s.last_error;
  launch_pending_clear_requested =
      if launch_is_pending s then s.launch_pending_clear_requested else false;
}

unfoldable pub settle_save : RuntimeStateSaveOutcome → Supervisor → RuntimePersistence × Supervisor
unfolding record_runtime_state_failure save_succeeded
settle_save RuntimeStateSaveOutcome.durable s = (RuntimePersistence.durable, save_succeeded s)
settle_save (RuntimeStateSaveOutcome.failed e) s =
    (RuntimePersistence.failed, record_runtime_state_failure s e)
settle_save (RuntimeStateSaveOutcome.uncertain e) s =
    (RuntimePersistence.uncertain, record_runtime_state_failure s e)

unfoldable pub persist_runtime_detailed : Supervisor → RuntimePersistence × Supervisor
unfolding settle_save
persist_runtime_detailed s =
    if not s.runtime_state_loaded
    then (RuntimePersistence.failed, s)
    else let (outcome, w) = write_json_atomically s.world s.runtime in
      settle_save outcome (record s { world = w })

abbrev durable_answer : RuntimePersistence × Supervisor → Bool × Supervisor
durable_answer (outcome, s) = (is_durable outcome, s)

unfoldable pub persist_runtime : Supervisor → Bool × Supervisor
persist_runtime s =
    if s.runtime_state_retry_pending
    then (false, s)
    else durable_answer (persist_runtime_detailed s)

abbrev pub runtime_state_unavailable_error : Supervisor → CommandError
runtime_state_unavailable_error s =
    command_error ErrorKind.other (unwrap_or s.runtime_state_error Message.not_durably_available)

abbrev pub set_desired_state : Supervisor → DesiredState → Supervisor
set_desired_state s desired = record s { runtime = record (s.runtime) { desired_state = desired } }

abbrev pub CommandResult : Type 0
CommandResult = Result CommandError (Unit {0}) × Supervisor

-- What the outcome of the save does; `old` is the state before the command.
unfoldable pub settle_desired_state :
    RuntimePersistence → Supervisor → Supervisor → PendingLifecycleIntent → CommandResult
settle_desired_state RuntimePersistence.durable old s intent =
    (ok tt, record s { pending_lifecycle_intent = none; pending_durable_convergence = none })
settle_desired_state RuntimePersistence.failed old s intent = (
  err (runtime_state_unavailable_error s),
  record s {
    runtime = old.runtime;
    pending_lifecycle_intent = old.pending_lifecycle_intent;
    pending_durable_convergence = old.pending_durable_convergence;
  },
)
settle_desired_state RuntimePersistence.uncertain old s intent = (
  err (runtime_state_unavailable_error s),
  record s { pending_lifecycle_intent = some intent; pending_durable_convergence = none },
)

unfoldable pub persist_desired_state :
    Supervisor → DesiredState → PendingLifecycleIntent → CommandResult
unfolding settle_desired_state
persist_desired_state s desired intent =
    if not s.runtime_state_loaded
    then (err (runtime_state_unavailable_error s), s)
    else let (outcome, s') = persist_runtime_detailed (set_desired_state s desired) in
      settle_desired_state outcome s s' intent

abbrev blocked : Supervisor → Message → Bool × Supervisor
blocked s m = (false, record s { runtime_state_error = some m; last_error = some m })

abbrev ready_without_error : Supervisor → Bool × Supervisor
ready_without_error s =
    if launch_is_pending s || s.launch_pending_clear_requested
    then blocked s Message.launch_not_finalized
    else if s.runtime_state_loaded && s.runtime_state_reliable
    then (true, s)
    else blocked s Message.not_durably_available

abbrev ready_by_error : Option Message → Supervisor → Bool × Supervisor
ready_by_error (some m) s = (false, record s { last_error = some m })
ready_by_error none s = ready_without_error s

unfoldable pub runtime_state_ready : Supervisor → Bool × Supervisor
runtime_state_ready s = ready_by_error s.runtime_state_error s

abbrev retry_later : Supervisor → Supervisor
retry_later s =
    let (at, w) = now s.world in
    record s {
      runtime_state_retry_pending = true;
      runtime_state_retry_at = some (at + runtime_state_retry_interval);
      world = w;
    }

unfoldable pub defer_durable_convergence : Supervisor → PendingDurableConvergence → Supervisor
defer_durable_convergence s convergence =
    if s.launch_pending_clear_requested
      || (s.runtime_state_retry_pending && is_some s.runtime_state_retry_at)
    then retry_later (record s { pending_durable_convergence = some convergence })
    else s

unfoldable pub defer_lifecycle_intent : Supervisor → PendingLifecycleIntent → Supervisor
defer_lifecycle_intent s intent =
    if s.launch_pending_clear_requested
    then retry_later (record s { pending_lifecycle_intent = some intent })
    else s
