-- ===== src/Fda.antt =====
-- The Full Disk Access probe (rust/src/supervisor/mod.rs, `fda_state_for_version`).
use open_code_server.Base.{
  ℕ, not, ◌&&◌, ◌||◌, ◌+◌, Option, none, some, List, [], ◌∷◌, ◌==◌, ltb, if◌then◌else◌, is_some_and,
}
use open_code_server.Protocol.{FdaState}
use open_code_server.World.{World, FdaProbeOutcome, ask}

abbrev pub fda_probe_os_major_version : ℕ
fda_probe_os_major_version = 26

-- The three counters of the loop over the targets.
pub record Counts : Type 0 where
  pub existing : ℕ
  pub accessible : ℕ
  pub denied : ℕ

abbrev pub count_target : Counts → Option FdaProbeOutcome → Counts
count_target c none = c
count_target c (some FdaProbeOutcome.accessible) = record c {
  existing = c.existing + 1;
  accessible = c.accessible + 1;
}
count_target c (some FdaProbeOutcome.denied) = record c {
  existing = c.existing + 1;
  denied = c.denied + 1;
}
count_target c (some FdaProbeOutcome.unknown) = record c { existing = c.existing + 1 }

unfoldable pub count_targets : Counts → List (Option FdaProbeOutcome) → Counts
count_targets c [] = c
count_targets c (t ∷ ts) = count_targets (count_target c t) ts

abbrev pub consensus : Counts → FdaState
consensus c =
    if c.existing == 0
      || (ltb 0 c.accessible && ltb 0 c.denied)
      || not (c.accessible + c.denied == c.existing)
    then FdaState.unable_to_determine
    else if c.denied == c.existing
    then FdaState.not_verified
    else FdaState.verified

abbrev pub no_targets : Counts
no_targets = record { existing = 0; accessible = 0; denied = 0 }

unfoldable pub fda_state_for_version : Option ℕ → List (Option FdaProbeOutcome) → FdaState
unfolding count_targets
fda_state_for_version major targets =
    if not (is_some_and major (λ m. m == fda_probe_os_major_version))
    then FdaState.unable_to_determine
    else consensus (count_targets no_targets targets)

unfoldable pub probe_full_disk_access : World → FdaState × World
unfolding fda_state_for_version
probe_full_disk_access w =
    if not w.home_is_set
    then (FdaState.unable_to_determine, w)
    else let (targets, w') = ask w w.fda_targets in
      (fda_state_for_version w.product_major_version targets, w')
