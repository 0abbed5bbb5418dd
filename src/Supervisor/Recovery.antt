-- ===== src/Supervisor/Recovery.antt =====
-- Notifications and bounded automatic recovery (rust/src/supervisor/mod.rs, `emit_notification`;
-- rust/src/supervisor/process_exit.rs, `schedule_next_restart` and `finish_recovery_failure`).
use open_code_server.Base.{
  ℕ, suc, String, Bool, true, false, ◌+◌, ◌*◌, Option, none, some, List, [], ◌∷◌, leb,
  if◌then◌else◌,
}
use open_code_server.Protocol.{ServerState, NotificationKind, NotificationEvent}
use open_code_server.World.{ask, now}
use open_code_server.Supervisor.State.{Supervisor, Message}
use open_code_server.Supervisor.Durability.{persist_runtime}

abbrev notify : Supervisor → NotificationEvent → Supervisor
notify s event = record s {
  notification = some event;
  runtime = record (s.runtime) { notification = some event };
}

-- Without an event id nothing is sent.
unfoldable pub emit :
    Option String → Supervisor → NotificationKind → String → String → Bool × Supervisor
emit none s kind title message = (false, s)
emit (some event_id) s kind title message =
    persist_runtime
      (notify s (record { event_id = event_id; kind = kind; title = title; message = message }))

unfoldable pub emit_notification :
    Supervisor → NotificationKind → String → String → Bool × Supervisor
unfolding emit
emit_notification s kind title message =
    let (id, w) = ask s.world s.world.event_id in
    emit id (record s { world = w }) kind title message

-- `RESTART_BACKOFF`, in seconds.
abbrev pub restart_backoff : List ℕ
restart_backoff = 1 ∷ 2 ∷ 5 ∷ 15 ∷ 30 ∷ []

abbrev pub restart_attempts : ℕ
restart_attempts = 5

-- `list[i]`, with `none` out of range.
abbrev pub get_elem? : List ℕ → ℕ → Option ℕ
get_elem? [] i = none
get_elem? (x ∷ xs) ℕ.zero = some x
get_elem? (x ∷ xs) (suc i) = get_elem? xs i

unfoldable pub announce_exhausted : Bool → Supervisor → Supervisor
announce_exhausted false s = s
announce_exhausted true s =
    (emit_notification (record s { recovery_incident_active = false })
      NotificationKind.final_failure "OpenCode recovery stopped"
      "Five recovery attempts were exhausted. Review the configuration and logs.").1

unfoldable pub finish_recovery_failure : Supervisor → Supervisor
unfolding announce_exhausted
finish_recovery_failure s = announce_exhausted s.recovery_incident_active (record s {
  next_restart = none;
  server_state = ServerState.failed;
  last_error = some Message.attempts_exhausted;
})

abbrev scheduled : Supervisor → ℕ → Supervisor
scheduled s delay =
    let (at, w) = now s.world in
    record s {
      restart_attempt_index = s.restart_attempt_index + 1;
      next_restart = some (at + delay * 1000);
      server_state = ServerState.waiting_to_restart;
      last_error = some (Message.attempt_scheduled (s.restart_attempt_index + 1) delay);
      world = w;
    }

-- Out of range the source's index panics. The state as it was stands for that: no restart is scheduled
-- in it by this call, and no failure is reported.
unfoldable pub schedule_at : Option ℕ → Supervisor → Supervisor
schedule_at none s = s
schedule_at (some delay) s = scheduled s delay

unfoldable pub schedule_next_restart : Supervisor → Supervisor
unfolding schedule_at
schedule_next_restart s =
    if leb restart_attempts s.restart_attempt_index
    then finish_recovery_failure s
    else schedule_at (get_elem? restart_backoff s.restart_attempt_index) s
