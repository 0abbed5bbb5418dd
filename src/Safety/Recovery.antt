-- ===== src/Safety/Recovery.antt =====
-- Bounded automatic recovery (rust/src/supervisor/process_exit.rs, `schedule_next_restart`).
use open_code_server.Base.{
  ℕ, zero, suc, String, Bool, true, false, ◌≡◌, ◌⊎◌, inl, inr, refl, ◌+◌, ◌≤◌, ◌<◌, Option, none,
  some, arith, leb, ◌*◌, if◌then◌else◌,
}
use open_code_server.Protocol.{ServerState, NotificationKind}
use open_code_server.World.{World, now}
use open_code_server.Storage.{RuntimeStateSaveOutcome, write_json_atomically}
use open_code_server.Supervisor.State.{Supervisor}
use open_code_server.Supervisor.Durability.{settle_save, persist_runtime_detailed, persist_runtime}
use open_code_server.Supervisor.Recovery.{
  announce_exhausted, emit, emit_notification, restart_backoff, restart_attempts, get_elem?,
  finish_recovery_failure, schedule_at, schedule_next_restart,
}

-- The schedule of restarts and the state are as they were.
abbrev Unscheduled : Supervisor → Supervisor → Type 0
Unscheduled s s' =
    (s'.restart_attempt_index ≡ s.restart_attempt_index)
    × (s'.next_restart ≡ s.next_restart)
    × (s'.server_state ≡ s.server_state)

settle_save-Unscheduled :
    (o : RuntimeStateSaveOutcome) (s : Supervisor) → Unscheduled s (settle_save o s).1
unfolding settle_save
settle_save-Unscheduled RuntimeStateSaveOutcome.durable s = (refl, refl, refl)
settle_save-Unscheduled (RuntimeStateSaveOutcome.failed e) s = (refl, refl, refl)
settle_save-Unscheduled (RuntimeStateSaveOutcome.uncertain e) s = (refl, refl, refl)

detailed-Unscheduled : (s : Supervisor) → Unscheduled s (persist_runtime_detailed s).1
unfolding persist_runtime_detailed
detailed-Unscheduled s =
    let w : World = (write_json_atomically s.world s.runtime).1 in
    let (a, b, c) =
      settle_save-Unscheduled (write_json_atomically s.world s.runtime).0
        (record s { world = w }) in
    (ground arith, ground arith, ground arith)

persist-Unscheduled : (s : Supervisor) → Unscheduled s (persist_runtime s).1
unfolding persist_runtime
persist-Unscheduled s =
    let (a, b, c) = detailed-Unscheduled s in (ground arith, ground arith, ground arith)

emit-Unscheduled :
    (id : Option String) (s : Supervisor) (kind : NotificationKind) (title message : String)
    → Unscheduled s (emit id s kind title message).1
unfolding emit
emit-Unscheduled none s kind title message = (refl, refl, refl)
emit-Unscheduled (some id) s kind title message = persist-Unscheduled _

notification-Unscheduled :
    (s : Supervisor) (kind : NotificationKind) (title message : String)
    → Unscheduled s (emit_notification s kind title message).1
unfolding emit_notification
notification-Unscheduled s kind title message = emit-Unscheduled _ _ kind title message

exhausted-Unscheduled :
    (active : Bool) (s : Supervisor) → Unscheduled s (announce_exhausted active s)
unfolding announce_exhausted
exhausted-Unscheduled false s = (refl, refl, refl)
exhausted-Unscheduled true s = notification-Unscheduled _ _ _ _

finish-Exhausted :
    (s : Supervisor)
    → ((finish_recovery_failure s).restart_attempt_index ≡ s.restart_attempt_index)
      × ((finish_recovery_failure s).next_restart ≡ none)
      × ((finish_recovery_failure s).server_state ≡ ServerState.failed)
unfolding finish_recovery_failure
finish-Exhausted s = exhausted-Unscheduled s.recovery_incident_active _

in_range : (i : ℕ) → i < 5 → (delay : ℕ) × (get_elem? restart_backoff i ≡ some delay)
in_range zero h = (1, refl)
in_range (suc zero) h = (2, refl)
in_range (suc (suc zero)) h = (5, refl)
in_range (suc (suc (suc zero))) h = (15, refl)
in_range (suc (suc (suc (suc zero)))) h = (30, refl)
in_range (suc (suc (suc (suc (suc i))))) h = ground arith

-- An attempt is scheduled while fewer than five were made, and otherwise recovery ends.
abbrev pub Attempted : Supervisor → Supervisor → Type 0
Attempted s s' =
    ((s.restart_attempt_index < 5)
      × (s'.restart_attempt_index ≡ s.restart_attempt_index + 1)
      × (s'.server_state ≡ ServerState.waiting_to_restart)
      × ((delay : ℕ) × (get_elem? restart_backoff s.restart_attempt_index ≡ some delay)
          × (s'.next_restart ≡ some ((now s.world).0 + delay * 1000))))
    ⊎ ((5 ≤ s.restart_attempt_index)
        × (s'.restart_attempt_index ≡ s.restart_attempt_index)
        × (s'.server_state ≡ ServerState.failed)
        × (s'.next_restart ≡ none))

schedule_at-Attempted :
    (found : Option ℕ) (delay : ℕ) (s : Supervisor)
    → s.restart_attempt_index < 5
    → get_elem? restart_backoff s.restart_attempt_index ≡ found
    → found ≡ some delay
    → Attempted s (schedule_at found s)
unfolding schedule_at
schedule_at-Attempted (some delay) _ s h entry e = inl (h, refl, refl, (delay, entry, refl))
schedule_at-Attempted none delay s h entry e = cc

finished-Attempted :
    (s : Supervisor) → 5 ≤ s.restart_attempt_index → Attempted s (finish_recovery_failure s)
finished-Attempted s h =
    let (index, next, state) = finish-Exhausted s in inr (h, index, state, next)

schedule_by-Attempted :
    (exhausted : Bool) (s : Supervisor)
    → leb restart_attempts s.restart_attempt_index ≡ exhausted
    → Attempted s (
        if exhausted
        then finish_recovery_failure s
        else schedule_at (get_elem? restart_backoff s.restart_attempt_index) s)
schedule_by-Attempted true s h = finished-Attempted s (ground arith)
schedule_by-Attempted false s h =
    let below : s.restart_attempt_index < 5 = ground arith in
    let (delay, e) = in_range s.restart_attempt_index below in
    schedule_at-Attempted (get_elem? restart_backoff s.restart_attempt_index) delay s below refl e

-- Automatic recovery is bounded: while fewer than five attempts were made, a crash schedules the next
-- one, due after the delay that the table has at the old index, and the index goes one further. After
-- the fifth nothing is scheduled any more, the index stays, and the supervisor reports failure: the
-- table is only read within its range.
pub schedule_next_restart-Attempted : (s : Supervisor) → Attempted s (schedule_next_restart s)
unfolding schedule_next_restart
schedule_next_restart-Attempted s =
    schedule_by-Attempted (leb restart_attempts s.restart_attempt_index) s refl
