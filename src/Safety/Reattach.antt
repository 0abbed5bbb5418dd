-- ===== src/Safety/Reattach.antt =====
-- The reattachment policy (rust/src/supervisor/reattach_policy.rs): what each decision rests on.
use open_code_server.Base.{Bool, true, false, ◌≡◌, ◌⊎◌, inl, inr, refl, Option, none, some, ok, err}
use open_code_server.Config.{ValidatedConfig}
use open_code_server.Process.Identity.{RecordIdentity}
use open_code_server.Credential.{CredentialState}
use open_code_server.Supervisor.Policy.{
  HealthVerdict, InitialAction, FinalAction, Observed, decide_initial, decide_after_health,
  decide_unconfirmed, decide_confirmed, decide_config, decide_healthy,
}

-- The process still has the recorded identity, its group included, and its executable is the
-- recorded one or has vanished.
abbrev pub Trusted : Observed → Type 0
Trusted identity =
    (identity ≡ ok RecordIdentity.current) ⊎ (identity ≡ ok RecordIdentity.executable_vanished)

-- The kernel knows no process with the recorded identity.
abbrev pub Gone : Observed → Type 0
Gone identity = (identity ≡ ok RecordIdentity.missing) ⊎ (identity ≡ ok RecordIdentity.mismatched)

-- What justifies a first decision.
abbrev pub JustifiedFirst : Bool → Observed → Option ValidatedConfig → Bool → InitialAction → Type 0
JustifiedFirst unconfirmed identity config config_matches
      (InitialAction.discard_stale_record reason) =
    Gone identity
JustifiedFirst unconfirmed identity config config_matches (InitialAction.needs_health_check c) =
    (unconfirmed ≡ false) × Trusted identity × (config ≡ some c) × (config_matches ≡ true)
JustifiedFirst unconfirmed identity config config_matches
      (InitialAction.attach_stale_config reason) =
    (unconfirmed ≡ false) × Trusted identity × (config_matches ≡ false)
JustifiedFirst unconfirmed identity config config_matches
      (InitialAction.attach_unconfirmed reason) =
    (unconfirmed ≡ false) × (identity ≡ ok RecordIdentity.executable_mismatch)
JustifiedFirst unconfirmed identity config config_matches (InitialAction.mark_unverified reason) =
    Unit

decide_config-Justified :
    (identity : Observed) (config : Option ValidatedConfig) (config_matches : Bool)
    (credentials : CredentialState)
    → Trusted identity
    → JustifiedFirst false identity config config_matches
        (decide_config config config_matches credentials)
unfolding decide_config
decide_config-Justified identity none config_matches credentials h = tt
decide_config-Justified identity (some c) true credentials h = (refl, h, refl, refl)
decide_config-Justified identity (some c) false credentials h = (refl, h, refl)

-- Whatever is observed, the first decision is justified: a record is discarded only where no process
-- has its identity; a health check, and the attachment of a process with an old configuration, are
-- made only for a confirmed record whose process is the recorded one; and only with a matching
-- configuration can the check lead to supervision.
pub decide_initial-Justified :
    (unconfirmed : Bool) (identity : Observed) (config : Option ValidatedConfig)
    (config_matches : Bool) (credentials : CredentialState)
    → JustifiedFirst unconfirmed identity config config_matches
        (decide_initial unconfirmed identity config config_matches credentials)
unfolding decide_initial decide_unconfirmed decide_confirmed
decide_initial-Justified true (ok RecordIdentity.missing) config m credentials = inl refl
decide_initial-Justified true (ok RecordIdentity.mismatched) config m credentials = tt
decide_initial-Justified true (ok RecordIdentity.current) config m credentials = tt
decide_initial-Justified true (ok RecordIdentity.executable_vanished) config m credentials = tt
decide_initial-Justified true (ok RecordIdentity.executable_mismatch) config m credentials = tt
decide_initial-Justified true (ok RecordIdentity.group_escaped) config m credentials = tt
decide_initial-Justified true (err e) config m credentials = tt
decide_initial-Justified false (ok RecordIdentity.missing) config m credentials = inl refl
decide_initial-Justified false (ok RecordIdentity.mismatched) config m credentials = inr refl
decide_initial-Justified false (ok RecordIdentity.current) config m credentials =
    decide_config-Justified _ config m credentials (inl refl)
decide_initial-Justified false (ok RecordIdentity.executable_vanished) config m credentials =
    decide_config-Justified _ config m credentials (inr refl)
decide_initial-Justified false (ok RecordIdentity.executable_mismatch) config m credentials =
    (refl, refl)
decide_initial-Justified false (ok RecordIdentity.group_escaped) config m credentials = tt
decide_initial-Justified false (err e) config m credentials = tt

-- What justifies the decision after the health check.
abbrev pub JustifiedLast : Observed → HealthVerdict → ValidatedConfig → FinalAction → Type 0
JustifiedLast identity verdict config (FinalAction.reattach_healthy version c) =
    Trusted identity × (verdict ≡ HealthVerdict.healthy version) × (c ≡ config)
JustifiedLast identity verdict config (FinalAction.discard_stale_record reason) = Gone identity
JustifiedLast identity verdict config (FinalAction.attach_unconfirmed reason) =
    identity ≡ ok RecordIdentity.executable_mismatch
JustifiedLast identity verdict config (FinalAction.mark_unverified reason) = Unit

-- Whatever the second inspection and the health check say, the last decision is justified: a process
-- is taken back as healthy only if the endpoint reported healthy, with that version, and the process
-- is still the recorded one; its record is discarded only where no process has its identity.
pub decide_after_health-Justified :
    (identity : Observed) (verdict : HealthVerdict) (config : ValidatedConfig)
    → JustifiedLast identity verdict config (decide_after_health identity verdict config)
unfolding decide_after_health decide_healthy
decide_after_health-Justified (ok RecordIdentity.current) (HealthVerdict.healthy v) config =
    (inl refl, refl, refl)
decide_after_health-Justified (ok RecordIdentity.executable_vanished) (HealthVerdict.healthy v)
      config =
    (inr refl, refl, refl)
decide_after_health-Justified (ok RecordIdentity.executable_mismatch) (HealthVerdict.healthy v)
      config =
    refl
decide_after_health-Justified (ok RecordIdentity.group_escaped) (HealthVerdict.healthy v) config =
    tt
decide_after_health-Justified (ok RecordIdentity.missing) (HealthVerdict.healthy v) config =
    inl refl
decide_after_health-Justified (ok RecordIdentity.mismatched) (HealthVerdict.healthy v) config =
    inr refl
decide_after_health-Justified (err e) (HealthVerdict.healthy v) config = tt
decide_after_health-Justified identity HealthVerdict.unhealthy config = tt
decide_after_health-Justified identity HealthVerdict.failed config = tt
