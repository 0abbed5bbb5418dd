-- ===== src/Supervisor/Configuration.antt =====
-- Configuration reload and what depends on it: the generation of health tasks
-- (rust/src/supervisor/health.rs), the stale attachment (rust/src/supervisor/reattach.rs,
-- `recheck_stale_process`) and the merge of the credential (rust/src/supervisor/mod.rs,
-- `refresh_config`).
use open_code_server.Base.{
  ℕ, String, Bool, true, false, not, ◌+◌, Option, none, some, Result, ok, err, leb, if◌then◌else◌,
  is_none, map_option,
}
use open_code_server.Config.{ValidatedConfig, same_config}
use open_code_server.RuntimeState.{ProcessRecord}
use open_code_server.World.{World, IoError, ask}
use open_code_server.Process.Identity.{RecordIdentity, inspect_record_identity}
use open_code_server.Process.Managed.{ManagedProcess, record_of}
use open_code_server.Credential.{merge_credentials}
use open_code_server.HealthWorker.{HealthCheckKey, from_record, with_generation, same_basis}
use open_code_server.Supervisor.State.{Supervisor, Message}

-- `Ok(Current | ExecutableVanished)`
abbrev pub is_intact : Result IoError RecordIdentity → Bool
is_intact (ok RecordIdentity.current) = true
is_intact (ok RecordIdentity.executable_vanished) = true
is_intact _ = false

abbrev pub HealthTask : Type 0
HealthTask = HealthCheckKey × ValidatedConfig

abbrev task_key : Supervisor → ProcessRecord → ValidatedConfig → HealthCheckKey
task_key s r config =
    with_generation (from_record r (s.config_fingerprint_key.fingerprint config))
      s.health_generation

abbrev stale_key : Supervisor → ProcessRecord → HealthCheckKey
stale_key s r = with_generation (from_record r r.config_fingerprint) s.health_generation

unfoldable pub stale_task :
    Supervisor → ProcessRecord → Option ValidatedConfig → Option HealthTask × World
stale_task s r none = (none, s.world)
stale_task s r (some config) =
    if not (s.config_fingerprint_key.verifies r.config_fingerprint config)
    then (none, s.world)
    else let (identity, w) = inspect_record_identity s.world r in
      (if is_intact identity then some (stale_key s r, config) else none, w)

unfoldable pub task_for :
    Supervisor → ProcessRecord → Option ValidatedConfig → Option HealthTask × World
unfolding stale_task
task_for s r (some config) = (some (task_key s r config, config), s.world)
task_for s r none =
    if not s.stale_config_process then (none, s.world) else stale_task s r s.latest_config

unfoldable pub task_of : Supervisor → Option ManagedProcess → Option HealthTask × World
unfolding task_for
task_of s none = (none, s.world)
task_of s (some p) = task_for s (record_of p) s.active_config

unfoldable pub current_health_task : Supervisor → Option HealthTask × World
unfolding task_of
current_health_task s = task_of s s.process

abbrev pub u64_max : ℕ
u64_max = 18446744073709551615

-- `saturating_add(1)` on a u64.
abbrev pub saturating_suc : ℕ → ℕ
saturating_suc n = if leb u64_max n then n else n + 1

abbrev basis_of : HealthTask → HealthCheckKey
basis_of (key, config) = with_generation key 0

unfoldable pub sync_health_generation : Supervisor → Supervisor
sync_health_generation s =
    let (task, w) = current_health_task s in
    let basis = map_option basis_of task in
    if same_basis s.health_generation_basis basis then record s { world = w } else record s {
      health_generation = saturating_suc s.health_generation;
      health_generation_basis = basis;
      world = w;
    }

-- The stale attachment's two identity inspections, around the fingerprint of the configuration.
unfoldable pub recheck_config : Option ValidatedConfig → Supervisor → ProcessRecord → Supervisor
recheck_config none s r = s
recheck_config (some config) s r =
    if not (s.config_fingerprint_key.verifies r.config_fingerprint config)
    then s
    else let (identity, w) = inspect_record_identity s.world r in
      if is_intact identity
      then record s { last_health_check = none; world = w }
      else record s { world = w }

unfoldable pub recheck_record : Option ProcessRecord → Supervisor → Supervisor
unfolding recheck_config
recheck_record none s = record s { stale_config_process = false }
recheck_record (some r) s =
    if is_none s.process
    then record s { stale_config_process = false }
    else let (identity, w) = inspect_record_identity s.world r in
      if is_intact identity
      then recheck_config s.latest_config (record s { world = w }) r
      else record s { world = w }

unfoldable pub recheck_stale_process : Supervisor → Supervisor
unfolding recheck_record
recheck_stale_process s =
    if not s.stale_config_process then s else recheck_record s.runtime.process s

unfoldable pub merge_loaded : Supervisor → ValidatedConfig → ValidatedConfig × Supervisor
merge_loaded s config =
    let (merged, credentials, w) = merge_credentials s.world s.credentials config s.latest_config in
    (merged, record s { credentials = credentials; world = w })

abbrev differs : Option ValidatedConfig → ValidatedConfig → Bool
differs none merged = true
differs (some latest) merged = not (same_config latest merged)

unfoldable pub adopt_config : ValidatedConfig → Supervisor → Supervisor
adopt_config merged s =
    let adopted = record s { latest_config = some merged; config_error = none } in
    recheck_stale_process
      (if differs s.latest_config merged then sync_health_generation adopted else adopted)

unfoldable pub apply_loaded : Result String ValidatedConfig → Supervisor → Supervisor
unfolding adopt_config merge_loaded
apply_loaded (ok config) s = let (merged, s') = merge_loaded s config in adopt_config merged s'
apply_loaded (err text) s = record s {
  config_error = some (Message.config_error text);
  latest_config = if is_none s.process then none else s.latest_config;
}

unfoldable pub refresh_config : Supervisor → Supervisor
unfolding apply_loaded
refresh_config s =
    let (loaded, w) = ask s.world s.world.config in apply_loaded loaded (record s { world = w })
