-- ===== src/Safety/Credentials.antt =====
-- The credential machine (rust/src/supervisor/credential.rs): where a password may come from, and
-- what an answer that comes too late may not do.
use open_code_server.Base.{
  ◌∙◌, List, [], ◌∷◌, Bool, ◌||◌, map_option, ℕ, String, true, false, ◌≡◌, ◌⊎◌, inl, inr, refl,
  Option, none, some, arith, eq_iff,
}
use open_code_server.Config.{ValidatedConfig, with_password}
use open_code_server.Protocol.{Command}
use open_code_server.Supervisor.State.{Supervisor}
use open_code_server.Supervisor.Tick
use open_code_server.Supervisor.Tick.{handle}
use open_code_server.World.{World, KeychainProbe, KeychainRead, TryRecv}
use open_code_server.Credential.{
  CredentialController, CredentialState, mark_credential_removed, RefreshInFlight, carried,
  carry_over_password, merge_by_team, merge_by_grant, merge_existing, merge_probe,
  merge_credentials, apply_credential_read, apply_read, receive_read, poll_flight,
  poll_credential_refresh, ReadOutcome,
}

-- The previously merged configuration is for the same account and has this password.
abbrev pub FromPrevious : Option ValidatedConfig → ValidatedConfig → String → Type 0
FromPrevious none config password = ⊥
FromPrevious (some previous) config password =
    (previous.effective_username ≡ config.effective_username)
    × (password ≡ previous.source.password)

-- Where the merged password comes from: the configuration itself, nowhere, or the same account.
abbrev pub Sourced : ValidatedConfig → Option ValidatedConfig → ValidatedConfig → Type 0
Sourced config previous merged =
    (merged.source.password ≡ config.source.password)
    ⊎ (merged.source.password ≡ "")
    ⊎ FromPrevious previous config merged.source.password

carry_over-Sourced :
    (config : ValidatedConfig) (previous : Option ValidatedConfig)
    → Sourced config previous (carry_over_password config config.effective_username previous).1
unfolding carry_over_password carried
carry_over-Sourced config none = inl refl
carry_over-Sourced config (some previous) =
    ground (arith, eq_iff previous.effective_username config.effective_username)

merge_by_grant-same :
    (w : World) (c : CredentialController) (config : ValidatedConfig) (account : String)
    → (merge_by_grant w c config account).0 ≡ config
unfolding merge_by_grant merge_by_team
merge_by_grant-same w c config account = ground arith

merge_existing-Sourced :
    (w : World) (c : CredentialController) (config : ValidatedConfig)
    (previous : Option ValidatedConfig)
    → Sourced config previous (merge_existing w c config config.effective_username previous).0
unfolding merge_existing
merge_existing-Sourced w c config previous = ground (
  arith,
  carry_over-Sourced config previous,
  merge_by_grant-same w c (carry_over_password config config.effective_username previous).1
      config.effective_username,
)

merge_probe-Sourced :
    (probe : KeychainProbe) (w : World) (c : CredentialController) (config : ValidatedConfig)
    (previous : Option ValidatedConfig)
    → Sourced config previous (merge_probe probe w c config previous).0
unfolding merge_probe
merge_probe-Sourced KeychainProbe.exists w c config previous =
    merge_existing-Sourced w c config previous
merge_probe-Sourced KeychainProbe.not_configured w c config previous = inr (inl refl)
merge_probe-Sourced (KeychainProbe.failed code) w c config previous =
    carry_over-Sourced config previous

-- A merged configuration has its own password, none, or the one that was merged before for the same
-- account: a password never passes from one account to another.
pub merge_credentials-Sourced :
    (w : World) (c : CredentialController) (config : ValidatedConfig)
    (previous : Option ValidatedConfig)
    → Sourced config previous (merge_credentials w c config previous).0
unfolding merge_credentials
merge_credentials-Sourced w c config previous = merge_probe-Sourced _ _ c config previous

-- The answer is dropped: no password applied, the mark of the removal, the configuration and the
-- credential state as they were.
abbrev pub Dropped : CredentialController → Option ValidatedConfig → ReadOutcome → Type 0
Dropped c latest (applied, c', latest', w') =
    (applied ≡ false)
    × (c'.credential_explicitly_removed ≡ true)
    × (c'.credential_state ≡ c.credential_state)
    × (latest' ≡ latest)

receive_removed :
    (answer : TryRecv KeychainRead) (w : World) (c : CredentialController)
    (flight : RefreshInFlight) (at : ℕ) (latest : Option ValidatedConfig)
    → c.credential_explicitly_removed ≡ true
    → Dropped c latest (receive_read answer w c flight at latest)
unfolding receive_read apply_credential_read
receive_removed (TryRecv.received read) w c flight at latest h =
    (ground arith, ground arith, ground arith, ground arith)
receive_removed TryRecv.empty w c flight at latest h = (refl, h, refl, refl)
receive_removed TryRecv.disconnected w c flight at latest h = (refl, h, refl, refl)

poll_flight_removed :
    (flight : Option RefreshInFlight) (w : World) (c : CredentialController) (at : ℕ)
    (latest : Option ValidatedConfig)
    → c.credential_explicitly_removed ≡ true
    → Dropped c latest (poll_flight flight w c at latest)
unfolding poll_flight
poll_flight_removed none w c at latest h = (refl, h, refl, refl)
poll_flight_removed (some flight) w c at latest h = receive_removed _ _ c flight at latest h

poll-Dropped :
    (w : World) (c : CredentialController) (at : ℕ) (latest : Option ValidatedConfig)
    → c.credential_explicitly_removed ≡ true
    → Dropped c latest (poll_credential_refresh w c at latest)
unfolding poll_credential_refresh
poll-Dropped w c at latest h = poll_flight_removed c.credential_refresh w c at latest h

-- Polls of the worker, each in a world and at a time of its own: whether one of them applied a
-- password, the controller, and the configuration.
unfoldable pub polls :
    List (World × ℕ)
    → CredentialController
    → Option ValidatedConfig
    → Bool × CredentialController × Option ValidatedConfig
polls [] c latest = (false, c, latest)
polls ((w, at) ∷ rest) c latest =
    let (applied, c', latest', w') = poll_credential_refresh w c at latest in
    let (later, c'', latest'') = polls rest c' latest' in (applied || later, c'', latest'')

abbrev pub HasNoPassword : Option ValidatedConfig → Type 0
HasNoPassword none = Unit {0}
HasNoPassword (some config) = config.source.password ≡ ""

-- No password was applied, none is configured, and the configuration has none.
abbrev pub Removed : Bool × CredentialController × Option ValidatedConfig → Type 0
Removed (applied, c, latest) =
    (applied ≡ false) × (c.credential_state ≡ CredentialState.not_configured) × HasNoPassword latest

polls-Removed :
    (answers : List (World × ℕ)) (c : CredentialController) (latest : Option ValidatedConfig)
    → c.credential_explicitly_removed ≡ true
    → c.credential_state ≡ CredentialState.not_configured
    → HasNoPassword latest
    → Removed (polls answers c latest)
unfolding polls
polls-Removed [] c latest h e none_left = (refl, e, none_left)
polls-Removed ((w, at) ∷ rest) c latest h e none_left =
    let (quiet, flag, state, same) = poll-Dropped w c at latest h in
    let (later, unset, absent) =
      polls-Removed rest (poll_credential_refresh w c at latest).1
        (poll_credential_refresh w c at latest).2 flag (state ∙ e) (rw same none_left) in
    (ground arith, unset, absent)

without_password :
    (latest : Option ValidatedConfig) → HasNoPassword (map_option (λ c. with_password c "") latest)
without_password none = tt
without_password (some config) = refl

-- Once the user's command has removed the credential, no answer of a read that was still running
-- brings it back: however often the worker is polled after it, and whatever it answers, no password is
-- applied, the credential stays unconfigured, and the latest configuration stays without a password.
-- A configuration reload or a new request between the polls is not part of this statement.
pub polls-after_removal :
    (s : Supervisor) (answers : List (World × ℕ))
    → Removed (
        polls answers
          (handle s Command.credential_removed).1.credentials
          (handle s Command.credential_removed).1.latest_config)
unfolding handle Tick.mark_credential_removed mark_credential_removed
polls-after_removal s answers =
    polls-Removed answers _ _ refl refl (without_password s.latest_config)

-- What an applied answer rests on: the removal was not asked for, the answer holds a password, and
-- it was read for the account of the configuration that receives it.
abbrev pub Applied :
    KeychainRead
    → CredentialController
    → String
    → Option ValidatedConfig
    → Option ValidatedConfig
    → Type 0
Applied (KeychainRead.found password) c account (some config) (some config') =
    (c.credential_explicitly_removed ≡ false)
    × (config.effective_username ≡ account)
    × (config'.source.password ≡ password)
Applied read c account latest latest' = ⊥

-- A password is applied only where the user has not removed the credential since, where the worker
-- found one, and where it was read for the account of the current configuration, which receives it.
pub read-Applied :
    (read : KeychainRead) (w : World) (c : CredentialController) (account : String)
    (latest : Option ValidatedConfig)
    → (apply_credential_read read w c account latest).0 ≡ true
    → Applied read c account latest (apply_credential_read read w c account latest).2
unfolding apply_credential_read apply_read
read-Applied (KeychainRead.found password) w c account (some config) h =
    ground (arith, eq_iff config.effective_username account)
read-Applied (KeychainRead.found password) w c account none h = ground arith
read-Applied KeychainRead.not_configured w c account latest h = ground arith
read-Applied KeychainRead.access_pending w c account latest h = ground arith
read-Applied (KeychainRead.failed code) w c account latest h = ground arith
