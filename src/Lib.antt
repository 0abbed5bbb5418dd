-- ===== src/Lib.antt =====
-- OpenCodeServer keeps one `opencode serve` process running for a user: an agent launches it, watches
-- its health, restarts it a bounded number of times after a crash, takes it back after its own
-- restart, and offers start, stop and restart to clients. This library models the agent's supervisor
-- and the process control below it (rust/src/supervisor, rust/src/process*.rs), the control socket,
-- the configuration and its fingerprint, and the grant marker.
--
-- The parts, and the files that model them:
--
--   Protocol, Config, RuntimeState   the types of rust/src/protocol.rs, config.rs, runtime_state.rs
--   World            everything that the agent asks: clock, disk, kernel, sockets, workers, Keychain.
--                    An answer is any function of the calls made before it; a trace keeps the calls.
--   Storage          the atomic save of the state file (runtime_state.rs, `write_json_atomically`):
--                    what the temporary file holds is followed from call to call, and the rename
--                    puts that into place
--   Storage.Load     the loading of the state file
--   Process.Identity, Process.Group, Process.Cleanup, Process.Managed, Process.Spawn
--                    rust/src/process.rs, process_group.rs, process_cleanup.rs
--   Credential, HealthWorker, VersionQuery, Fda
--                    the machines of supervisor/credential.rs, health_worker.rs, version.rs, and the
--                    Full Disk Access probe of supervisor/mod.rs
--   Supervisor.State the fields of `Supervisor`; its operations stand in Durability and Retry
--                    (runtime_durability.rs), Launch (launch_transaction.rs), Start and Lifecycle
--                    (lifecycle.rs), Exit and Recovery (process_exit.rs), Policy, Reattach and
--                    Unverified (reattach_policy.rs, reattach.rs), Health (health.rs), Configuration,
--                    Tick, Capabilities and Startup (mod.rs)
--   Config.Hostname, Config.Discover, Config.Validate, Config.Valid
--                    the validation of config.rs, and what it promises
--   Config.Text, Config.Fingerprint, Config.Tag, Config.Canonical,
--   Config.Verified  the fingerprint of config_fingerprint.rs over bytes
--   Config.File, Config.Save, Config.Key
--                    reading and writing the configuration's file, and the fingerprint's key
--   PrivateFile, CredentialGrant
--                    private_file.rs, and the marker of credential_grant.rs
--   Health           the health request of health.rs
--   Ipc              the control socket, rust/src/ipc.rs: its tables and calls; Reading, Writing,
--                    Accepting and Subscribers the operations, Client the other side, Kept the event
--                    loop's calls in any sequence. Protocol.Messages has the messages.
--   Lists            lengths and slices of vectors
--   MachO            the header check of rust/src/config.rs
--   Trace            prices for the signals and launches of a trace, carried through every operation
--   Run              the supervisor over sequences of turns, reported exits, configuration changes,
--                    commands and changes of the rest
--   Safety           the theorems of the single parts, and their examples
--
-- A method of `Supervisor` is a function that takes and returns the record, with an answer beside it
-- where the method has one. A branch on a computed value is a helper by clauses that takes the value.
-- The state's field `world` is passed along, so that the order of the calls is the source's order.
-- Times are milliseconds, and a subtraction of instants stops at zero as the source's does.
--
-- The one loop without a structural bound is that of `shutdown_unregistered_child`, which runs on
-- fuel: each round that goes on sleeps for 10 ms and the loop ends 2 s after its start, so the 202
-- rounds of fuel are more than it can use where the clock never runs backwards and a sleep lasts at
-- least its time.
--
-- Not modelled: log calls, code that is compiled only for tests, the JSON and property-list forms of
-- messages and files, the Keychain and the platform's calls (keychain.rs, platform.rs), the HMAC of a
-- fingerprint, decoding UTF-8 and parsing an IP address, the version query's subprocess with the
-- signals that clean it up, the text of a health request, and the Swift application. What the
-- supervisor asks of them is a field of `Services` or of `ConfigFingerprintKey`; the control socket
-- asks a `Kernel`, the validation a `Machine`. The supervisor and the control socket are not joined
-- into one event loop. The texts of errors are the constructors of `Message` and `ConfigIssue`, with
-- the values that they show.
mod Base
pub mod Protocol
pub mod Config
pub mod Lists
pub mod PrivateFile
pub mod CredentialGrant
pub mod Health
pub mod Ipc
pub mod MachO
pub mod RuntimeState
pub mod World
pub mod Storage
pub mod Process
pub mod Credential
pub mod HealthWorker
pub mod VersionQuery
pub mod Fda
pub mod Supervisor
pub mod Trace
pub mod Run
pub mod Safety
