-- ===== src/Safety/Probe.antt =====
-- The Full Disk Access probe (rust/src/supervisor/mod.rs, `fda_state_for_version`) against a
-- description without counters.
use open_code_server.Base.{
  ℕ, Bool, true, false, not, ◌&&◌, ◌||◌, ◌+◌, ◌≡◌, ◌⊎◌, inl, inr, ◌≤◌, refl, Option, none, some,
  List, [], ◌∷◌, arith, if◌then◌else◌, is_some, is_some_and, ◌==◌,
}
use open_code_server.Protocol.{FdaState}
use open_code_server.World.{FdaProbeOutcome}
use open_code_server.Fda.{
  fda_probe_os_major_version, Counts, count_target, count_targets, consensus, no_targets,
  fda_state_for_version,
}

abbrev is_accessible : Option FdaProbeOutcome → Bool
is_accessible (some FdaProbeOutcome.accessible) = true
is_accessible _ = false

abbrev is_denied : Option FdaProbeOutcome → Bool
is_denied (some FdaProbeOutcome.denied) = true
is_denied _ = false

abbrev any_target : (Option FdaProbeOutcome → Bool) → List (Option FdaProbeOutcome) → Bool
any_target p [] = false
any_target p (t ∷ ts) = p t || any_target p ts

-- Whether every target that exists passes the test.
abbrev all_existing : (Option FdaProbeOutcome → Bool) → List (Option FdaProbeOutcome) → Bool
all_existing p [] = true
all_existing p (t ∷ ts) = (not (is_some t) || p t) && all_existing p ts

-- The targets that exist must agree.
abbrev pub agreed : List (Option FdaProbeOutcome) → FdaState
agreed ts =
    if any_target is_some ts && all_existing is_accessible ts
    then FdaState.verified
    else if any_target is_some ts && all_existing is_denied ts
    then FdaState.not_verified
    else FdaState.unable_to_determine

abbrev tally : (Option FdaProbeOutcome → Bool) → List (Option FdaProbeOutcome) → ℕ
tally p [] = 0
tally p (t ∷ ts) = (if p t then 1 else 0) + tally p ts

abbrev Tallied : Counts → List (Option FdaProbeOutcome) → Counts → Type 0
Tallied c ts c' =
    (c'.existing ≡ c.existing + tally is_some ts)
    × (c'.accessible ≡ c.accessible + tally is_accessible ts)
    × (c'.denied ≡ c.denied + tally is_denied ts)

count_targets-Tallied :
    (c : Counts) (ts : List (Option FdaProbeOutcome)) → Tallied c ts (count_targets c ts)
unfolding count_targets
count_targets-Tallied c [] = (omega arith, omega arith, omega arith)
count_targets-Tallied c (none ∷ ts) =
    let (e, a, d) = count_targets-Tallied c ts in (omega arith, omega arith, omega arith)
count_targets-Tallied c (some FdaProbeOutcome.accessible ∷ ts) =
    let (e, a, d) = count_targets-Tallied (count_target c (some FdaProbeOutcome.accessible)) ts in
    (omega arith, omega arith, omega arith)
count_targets-Tallied c (some FdaProbeOutcome.denied ∷ ts) =
    let (e, a, d) = count_targets-Tallied (count_target c (some FdaProbeOutcome.denied)) ts in
    (omega arith, omega arith, omega arith)
count_targets-Tallied c (some FdaProbeOutcome.unknown ∷ ts) =
    let (e, a, d) = count_targets-Tallied (count_target c (some FdaProbeOutcome.unknown)) ts in
    (omega arith, omega arith, omega arith)

-- What the three tallies say of the two descriptions.
abbrev Described : List (Option FdaProbeOutcome) → Type 0
Described ts =
    (tally is_accessible ts + tally is_denied ts ≤ tally is_some ts)
    × ((any_target is_some ts ≡ true) × (1 ≤ tally is_some ts)
        ⊎ (any_target is_some ts ≡ false) × (tally is_some ts ≡ 0))
    × ((all_existing is_accessible ts ≡ true) × (tally is_accessible ts ≡ tally is_some ts)
        ⊎ (all_existing is_accessible ts ≡ false) × (1 + tally is_accessible ts ≤ tally is_some ts))
    × ((all_existing is_denied ts ≡ true) × (tally is_denied ts ≡ tally is_some ts)
        ⊎ (all_existing is_denied ts ≡ false) × (1 + tally is_denied ts ≤ tally is_some ts))

describe : (ts : List (Option FdaProbeOutcome)) → Described ts
describe [] = (omega arith, inr (refl, refl), inl (refl, refl), inl (refl, refl))
describe (none ∷ ts) =
    let (bound, any, accessible, denied) = describe ts in
    (omega arith, ground arith, ground arith, ground arith)
describe (some FdaProbeOutcome.accessible ∷ ts) =
    let (bound, any, accessible, denied) = describe ts in
    (omega arith, inl (refl, omega arith), ground arith, inr (refl, omega arith))
describe (some FdaProbeOutcome.denied ∷ ts) =
    let (bound, any, accessible, denied) = describe ts in
    (omega arith, inl (refl, omega arith), inr (refl, omega arith), ground arith)
describe (some FdaProbeOutcome.unknown ∷ ts) =
    let (bound, any, accessible, denied) = describe ts in
    (omega arith, inl (refl, omega arith), inr (refl, omega arith), inr (refl, omega arith))

consensus-agreed :
    (c : Counts) (ts : List (Option FdaProbeOutcome))
    → Tallied no_targets ts c
    → consensus c ≡ agreed ts
consensus-agreed c ts (existing, accessible, denied) =
    let (bound, any, all_accessible, all_denied) = describe ts in ground arith

-- On the one supported system version the probe's counters answer as the targets agree: verified
-- exactly if a target exists and all that exist could be opened, not verified exactly if one exists
-- and all that exist were denied. Otherwise, and on every other version, it cannot determine.
pub fda_state-agreed :
    (major : Option ℕ) (targets : List (Option FdaProbeOutcome))
    → fda_state_for_version major targets ≡ (
        if is_some_and major (λ m. m == fda_probe_os_major_version)
        then agreed targets
        else FdaState.unable_to_determine)
unfolding fda_state_for_version
fda_state-agreed major targets = ground (
  arith,
  consensus-agreed (count_targets no_targets targets) targets
      (count_targets-Tallied no_targets targets),
)
