-- ===== src/Credential.antt =====
-- The credential state machine (rust/src/supervisor/credential.rs). The Keychain, the grant marker
-- on disk and the signing team answer through the world.
use open_code_server.Base.{
  ℕ, String, Bool, true, false, not, ◌||◌, ◌+◌, Option, none, some, List, [], ◌∷◌, str_eq, ltb,
  if◌then◌else◌, is_some, is_none, same_text, map_option,
}
use open_code_server.Config.{ValidatedConfig, with_password}
use open_code_server.World.{World, Call, KeychainProbe, KeychainRead, TryRecv, ask, push, now}

pub data CredentialState : Type 0 where
  not_configured access_pending available : CredentialState

abbrev pub is_access_pending : CredentialState → Bool
is_access_pending CredentialState.access_pending = true
is_access_pending _ = false

pub record RefreshInFlight : Type 0 where
  pub dispatched : ℕ
  pub account : String

pub record CredentialController : Type 0 where
  pub credential_state : CredentialState
  pub credential_refresh : Option RefreshInFlight
  pub credential_refresh_overdue_logged : Bool
  pub credential_stale : Bool
  pub credential_explicitly_removed : Bool
  pub automatic_read_attempted : List String

abbrev pub new : CredentialController
new = record {
  credential_state = CredentialState.not_configured;
  credential_refresh = none;
  credential_refresh_overdue_logged = false;
  credential_stale = false;
  credential_explicitly_removed = false;
  automatic_read_attempted = [];
}

abbrev pub refresh_in_flight : CredentialController → Bool
refresh_in_flight c = is_some c.credential_refresh

-- The set of accounts, as a list without order.
unfoldable pub contains : String → List String → Bool
contains a [] = false
contains a (x ∷ xs) = str_eq a x || contains a xs

unfoldable pub remove : String → List String → List String
remove a [] = []
remove a (x ∷ xs) = let rest = remove a xs in if str_eq a x then rest else x ∷ rest

abbrev pub set_state : CredentialController → CredentialState → CredentialController
set_state c state = record c { credential_state = state }

-- The previously merged password is kept for the same account only, and only if there is one.
unfoldable pub carried : String → Option ValidatedConfig → Option String
carried account none = none
carried account (some previous) =
    if not (str_eq previous.effective_username account) || str_eq previous.source.password ""
    then none
    else some previous.source.password

abbrev carry_answer : Option String → ValidatedConfig → Bool × ValidatedConfig
carry_answer none config = (false, config)
carry_answer (some password) config = (true, with_password config password)

unfoldable pub carry_over_password :
    ValidatedConfig → String → Option ValidatedConfig → Bool × ValidatedConfig
unfolding carried
carry_over_password config account previous = carry_answer (carried account previous) config

unfoldable pub request_credential_refresh_for :
    World → CredentialController → String → CredentialController × World
request_credential_refresh_for w c account =
    if is_some c.credential_refresh
    then (c, w)
    else if w.worker_starts w.trace
    then (let (at, w') = now (push w Call.worker) in
        (
          record c {
            credential_refresh = some (record { dispatched = at; account = account });
            credential_refresh_overdue_logged = false;
          },
          w',
        ))
    else (c, push w Call.read)

unfoldable pub dispatch_automatic_credential_read :
    World → CredentialController → String → Bool × CredentialController × World
unfolding request_credential_refresh_for
dispatch_automatic_credential_read w c account =
    if is_some c.credential_refresh || contains account c.automatic_read_attempted
    then (false, c, w)
    else (let (c', w') =
          request_credential_refresh_for w
            (record c { automatic_read_attempted = account ∷ c.automatic_read_attempted })
            account in
        (true, c', w'))

abbrev same_team : Option String → Option String → Bool
same_team (some recorded) (some own) = str_eq recorded own
same_team _ _ = false

abbrev pub team_evidence_matches : World → String → Bool × World
team_evidence_matches w account =
    let (recorded, w1) = ask w (λ t. w.grant_team t account) in
    let (own, w2) = ask w1 w1.team in (same_team recorded own, w2)

-- The grant marker: proof that this exact build has decrypted for the account.
abbrev pub background_decrypt_allowed : World → String → Bool × World
background_decrypt_allowed w account = ask w (λ t. w.grant_covers t account)

abbrev pub Merged : Type 0
Merged = ValidatedConfig × CredentialController × World

abbrev give : ValidatedConfig → CredentialController × World → Merged
give config (c, w) = (config, c, w)

abbrev drop_flag : Bool × CredentialController × World → CredentialController × World
drop_flag (_, c, w) = (c, w)

-- The last two branches of an existing item, which are taken without a carried password.
unfoldable pub merge_by_team : World → CredentialController → ValidatedConfig → String → Merged
unfolding dispatch_automatic_credential_read
merge_by_team w c config account =
    let (matches, w') = team_evidence_matches w account in
    let pending = set_state c CredentialState.access_pending in
    if matches
    then give config (drop_flag (dispatch_automatic_credential_read w' pending account))
    else (config, pending, w')

unfoldable pub merge_by_grant : World → CredentialController → ValidatedConfig → String → Merged
unfolding merge_by_team
merge_by_grant w c config account =
    let (allowed, w') = background_decrypt_allowed w account in
    if allowed
    then give config
        (request_credential_refresh_for w' (set_state c CredentialState.access_pending) account)
    else merge_by_team w' c config account

unfoldable pub merge_existing :
    World → CredentialController → ValidatedConfig → String → Option ValidatedConfig → Merged
unfolding merge_by_grant carry_over_password
merge_existing w c config account previous =
    let (carried_over, config') = carry_over_password config account previous in
    if c.credential_stale
    then (config', set_state c CredentialState.access_pending, w)
    else if carried_over
    then (config', set_state c CredentialState.available, w)
    else merge_by_grant w c config' account

unfoldable pub merge_probe :
    KeychainProbe → World → CredentialController → ValidatedConfig → Option ValidatedConfig → Merged
unfolding merge_existing
merge_probe KeychainProbe.not_configured w c config previous = (
  with_password config "",
  record c { credential_stale = false; credential_state = CredentialState.not_configured },
  push w Call.marker,
)
merge_probe (KeychainProbe.failed code) w c config previous = (
  (carry_over_password config config.effective_username previous).1,
  set_state c CredentialState.access_pending,
  w,
)
merge_probe KeychainProbe.exists w c config previous =
    merge_existing w c config config.effective_username previous

unfoldable pub merge_credentials :
    World → CredentialController → ValidatedConfig → Option ValidatedConfig → Merged
unfolding merge_probe
merge_credentials w c config previous =
    let (probe, w') = ask w (λ t. w.probe_item t config.effective_username) in
    merge_probe probe w' c config previous

unfoldable pub mark_credential_changed :
    World → CredentialController → String → CredentialController × World
unfolding dispatch_automatic_credential_read
mark_credential_changed w c account =
    let pending = record c {
      credential_explicitly_removed = false;
      credential_stale = true;
      credential_state = CredentialState.access_pending;
    } in
    let (matches, w') = team_evidence_matches w account in
    if matches
    then drop_flag (dispatch_automatic_credential_read w' pending account)
    else (pending, push w' Call.marker)

unfoldable pub mark_credential_removed :
    World
    → CredentialController
    → String
    → Option ValidatedConfig
    → CredentialController × Option ValidatedConfig × World
mark_credential_removed w c account latest = (
  record c {
    credential_explicitly_removed = true;
    credential_stale = false;
    credential_state = CredentialState.not_configured;
  },
  map_option (λ config. with_password config "") latest,
  push w Call.marker,
)

unfoldable pub request_credential_refresh :
    World → CredentialController → String → CredentialController × World
unfolding request_credential_refresh_for
request_credential_refresh w c account =
    request_credential_refresh_for w
      (if is_none c.credential_refresh
        then record c { credential_explicitly_removed = false }
        else c)
      account

-- Whether a password was applied, the controller, the latest configuration and the world.
abbrev pub ReadOutcome : Type 0
ReadOutcome = Bool × CredentialController × Option ValidatedConfig × World

unfoldable pub apply_read :
    KeychainRead → World → CredentialController → String → Option ValidatedConfig → ReadOutcome
unfolding remove
apply_read (KeychainRead.found password) w c account latest = (
  true,
  record c {
    credential_state = CredentialState.available;
    credential_stale = false;
    automatic_read_attempted = remove account c.automatic_read_attempted;
  },
  map_option (λ config. with_password config password) latest,
  push (ask w w.team).1 Call.marker,
)
apply_read KeychainRead.not_configured w c account latest = (
  false,
  record c { credential_state = CredentialState.not_configured; credential_stale = false },
  map_option (λ config. with_password config "") latest,
  push w Call.marker,
)
apply_read KeychainRead.access_pending w c account latest =
    (false, set_state c CredentialState.access_pending, latest, push w Call.marker)
apply_read (KeychainRead.failed code) w c account latest =
    (false, set_state c CredentialState.access_pending, latest, w)

unfoldable pub apply_credential_read :
    KeychainRead → World → CredentialController → String → Option ValidatedConfig → ReadOutcome
unfolding apply_read
apply_credential_read read w c account latest =
    if c.credential_explicitly_removed
    then (false, c, latest, w)
    else if not (same_text (map_option (λ config. config.effective_username) latest) (some account))
    then (false, c, latest, w)
    else apply_read read w c account latest

abbrev pub credential_refresh_overdue : ℕ
credential_refresh_overdue = 300000

unfoldable pub receive_read :
    TryRecv KeychainRead
    → World
    → CredentialController
    → RefreshInFlight
    → ℕ
    → Option ValidatedConfig
    → ReadOutcome
unfolding apply_credential_read
receive_read (TryRecv.received read) w c flight at latest =
    apply_credential_read read w
      (record c { credential_refresh = none; credential_refresh_overdue_logged = false })
      flight.account latest
receive_read TryRecv.disconnected w c flight at latest = (
  false,
  record c { credential_refresh = none; credential_refresh_overdue_logged = false },
  latest,
  w,
)
receive_read TryRecv.empty w c flight at latest = (
  false,
  record c {
    credential_refresh_overdue_logged =
        c.credential_refresh_overdue_logged
        || ltb (flight.dispatched + credential_refresh_overdue) at;
  },
  latest,
  w,
)

unfoldable pub poll_flight :
    Option RefreshInFlight → World → CredentialController → ℕ → Option ValidatedConfig → ReadOutcome
unfolding receive_read
poll_flight none w c at latest = (false, c, latest, w)
poll_flight (some flight) w c at latest =
    let (answer, w') = ask w w.credential_answer in receive_read answer w' c flight at latest

unfoldable pub poll_credential_refresh :
    World → CredentialController → ℕ → Option ValidatedConfig → ReadOutcome
unfolding poll_flight
poll_credential_refresh w c at latest = poll_flight c.credential_refresh w c at latest
