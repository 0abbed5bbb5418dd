-- ===== src/Safety/Startup.antt =====
-- The start of the agent (rust/src/supervisor/mod.rs, `with_options`).
use open_code_server.Base.{
  String, Bool, true, false, not, ◌&&◌, ◌≡◌, refl, ap, if◌then◌else◌, ◌∙◌, Option, none, some,
  Result, ok, err, arith, is_some,
}
use open_code_server.Protocol.{ServerState}
use open_code_server.Config.{ValidatedConfig, ConfigFingerprintKey}
use open_code_server.RuntimeState.{RuntimeState, ProcessRecord}
use open_code_server.World.{World, Call, push}
use open_code_server.Fda.{probe_full_disk_access}
use open_code_server.Supervisor.State.{
  Supervisor, SupervisorOptions, has_process, launch_is_pending,
}
use open_code_server.Supervisor.Durability.{RuntimePersistence, persist_runtime_detailed}
use open_code_server.Supervisor.Configuration.{merge_loaded}
use open_code_server.Supervisor.Startup.{
  converge_first, without_record, fresh, merge_fresh, reattach_recorded, after_reattach,
  converge_startup, with_options,
}
use open_code_server.Trace.Score.{Tariff, total, score, FreeTerm, FreeLaunch}
use open_code_server.Trace.State.{merge_loaded-score, persist_runtime_detailed-score}
use open_code_server.Trace.Lifecycle.{begin_stop-score, resume_convergence-score}
use open_code_server.Run.{kills, kill_tariff, unmarked_launches, unmarked_tariff}
use open_code_server.Run.Laws.{unmarked-FreeLaunch}
use open_code_server.Safety.Quiet.{activity, activity_tariff, try_reattach-score}

module _ (c : Tariff) where
  probe-score : (w : World) → score c (probe_full_disk_access w).1 ≡ score c w
  unfolding probe_full_disk_access total
  probe-score w = ground arith

  fresh-score :
      (key : ConfigFingerprintKey) (options : SupervisorOptions)
      (loaded : Result String RuntimeState) (w : World)
      → score c (fresh key options loaded w).world ≡ score c w
  unfolding fresh total
  fresh-score key options loaded w = probe-score (push w Call.read)

  merge_fresh-score :
      (config : Option ValidatedConfig) (s : Supervisor)
      → score c (merge_fresh config s).world ≡ score c s.world
  unfolding merge_fresh
  merge_fresh-score none s = refl
  merge_fresh-score (some config) s = merge_loaded-score c _ config

  reattach_recorded-score :
      (r : Option ProcessRecord) (s : Supervisor)
      → score c (reattach_recorded r s).world ≡ score c s.world
  unfolding reattach_recorded
  reattach_recorded-score none s = refl
  reattach_recorded-score (some r) s = try_reattach-score c s r

module _ (c : Tariff) (free : FreeTerm c) (launch : FreeLaunch c) where
  converge_first-score :
      (x : RuntimePersistence × Supervisor) → score c (converge_first x).world ≡ score c x.1.world
  unfolding converge_first
  converge_first-score (RuntimePersistence.durable, s) = resume_convergence-score c free launch s
  converge_first-score (RuntimePersistence.failed, s) = refl
  converge_first-score (RuntimePersistence.uncertain, s) = refl

  after_reattach-score : (s : Supervisor) → score c (after_reattach s).world ≡ score c s.world
  unfolding after_reattach
  after_reattach-score s = ground (
    arith,
    converge_first-score (persist_runtime_detailed (without_record s)),
    persist_runtime_detailed-score c (without_record s),
    begin_stop-score c free launch s false,
  )

  converge_startup-score : (s : Supervisor) → score c (converge_startup s).world ≡ score c s.world
  unfolding converge_startup
  converge_startup-score s = ground (
    arith,
    after_reattach-score (reattach_recorded s.runtime.process s),
    reattach_recorded-score c s.runtime.process s,
  )

  with_options-score :
      (key : ConfigFingerprintKey) (options : SupervisorOptions)
      (loaded : Result String RuntimeState) (w : World)
      → score c (with_options key options loaded w).world ≡ score c w
  unfolding with_options
  with_options-score key options loaded w =
      converge_startup-score
        (merge_fresh (fresh key options loaded w).latest_config (fresh key options loaded w))
      ∙ merge_fresh-score c (fresh key options loaded w).latest_config (fresh key options loaded w)
      ∙ fresh-score c key options loaded w

-- The start of the supervisor sends no SIGKILL to a process group of OpenCode, and it launches OpenCode
-- only after it has synced, as its last change, a state file with a launch marker, whatever state was
-- loaded.
pub with_options-marked :
    (key : ConfigFingerprintKey) (options : SupervisorOptions) (loaded : Result String RuntimeState)
    (w : World)
    → (kills (with_options key options loaded w).world.trace ≡ kills w.trace)
      × (unmarked_launches (with_options key options loaded w).world.trace
          ≡ unmarked_launches w.trace)
with_options-marked key options loaded w = (
  with_options-score kill_tariff (λ group. refl) (λ t marked. refl) key options loaded w,
  with_options-score unmarked_tariff (λ group. refl) unmarked-FreeLaunch key options loaded w,
)

-- What was loaded says nothing certain about a live OpenCode.
abbrev pub is_uncertain : Result String RuntimeState → Bool
is_uncertain (ok runtime) = is_some runtime.launch_pending
is_uncertain (err text) = true

merge_fresh-runtime :
    (config : Option ValidatedConfig) (s : Supervisor)
    → ((merge_fresh config s).runtime ≡ s.runtime)
      × ((merge_fresh config s).runtime_state_loaded ≡ s.runtime_state_loaded)
      × ((merge_fresh config s).process ≡ s.process)
unfolding merge_fresh merge_loaded
merge_fresh-runtime none s = (refl, refl, refl)
merge_fresh-runtime (some config) s = (refl, refl, refl)

abbrev Closed : Supervisor → Supervisor → Type 0
Closed s s' =
    (activity s'.world.trace ≡ activity s.world.trace)
    × (s'.process ≡ s.process)
    × (s'.server_state ≡ ServerState.failed)

unless_open-Closed :
    (open' unloaded : Bool) (s x a b : Supervisor)
    → open' ≡ false
    → Closed s a
    → Closed s b
    → Closed s (if open' then x else if unloaded then a else b)
unless_open-Closed true unloaded s x a b e h k = cc
unless_open-Closed false true s x a b e h k = h
unless_open-Closed false false s x a b e h k = k

converge_startup-Closed :
    (s : Supervisor)
    → (s.runtime_state_loaded && not (launch_is_pending s)) ≡ false
    → Closed s (converge_startup s)
unfolding converge_startup
converge_startup-Closed s h =
    unless_open-Closed (s.runtime_state_loaded && not (launch_is_pending s))
      (not s.runtime_state_loaded) s _ _ _ h (refl, refl, refl) (refl, refl, refl)

fresh_closed :
    (key : ConfigFingerprintKey) (options : SupervisorOptions) (loaded : Result String RuntimeState)
    (w : World)
    → is_uncertain loaded ≡ true
    → ((fresh key options loaded w).runtime_state_loaded
        && not (launch_is_pending (fresh key options loaded w)))
      ≡ false
unfolding fresh
fresh_closed key options (ok runtime) w h = ap not h
fresh_closed key options (err text) w h = refl

merged_closed :
    (s s' : Supervisor)
    → s'.runtime ≡ s.runtime
    → s'.runtime_state_loaded ≡ s.runtime_state_loaded
    → (s.runtime_state_loaded && not (launch_is_pending s)) ≡ false
    → (s'.runtime_state_loaded && not (launch_is_pending s')) ≡ false
merged_closed s s' r l h =
    ap (λ b. b && not (launch_is_pending s')) l
    ∙ ap (λ m. s.runtime_state_loaded && not (is_some m.launch_pending)) r
    ∙ h

-- Where the runtime state could not be read, or holds a launch that was not finished, the start of
-- the agent signals nothing, launches nothing, manages no process and reports failure.
pub with_options-uncertain :
    (key : ConfigFingerprintKey) (options : SupervisorOptions) (loaded : Result String RuntimeState)
    (w : World)
    → is_uncertain loaded ≡ true
    → (activity (with_options key options loaded w).world.trace ≡ activity w.trace)
      × (has_process (with_options key options loaded w) ≡ false)
      × ((with_options key options loaded w).server_state ≡ ServerState.failed)
unfolding with_options fresh
with_options-uncertain key options loaded w h =
    let s : Supervisor = fresh key options loaded w in
    let m : Supervisor = merge_fresh s.latest_config s in
    let (runtime, is_loaded, process) = merge_fresh-runtime s.latest_config s in
    let (quiet, same, failed) =
      converge_startup-Closed m
        (merged_closed s m runtime is_loaded (fresh_closed key options loaded w h)) in
    (
      quiet
          ∙ merge_fresh-score activity_tariff s.latest_config s
          ∙ fresh-score activity_tariff key options loaded w,
      ap is_some (same ∙ process),
      failed,
    )
