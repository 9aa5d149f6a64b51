-- ===== src/Lib.antt =====
-- The vaultwarden-operator keeps Kubernetes Secrets in step with items of a Vaultwarden account. This
-- library models its core and states what makes it correct.
--
-- How the parts work together: the controller (src/controller.rs) reconciles a VaultwardenSecret
-- resource (src/crd.rs). It parses the interval (src/duration.rs), makes a lookup request of each
-- entry, and asks the vault client (src/vault/mod.rs) for all values at once. The client answers from
-- a cache of decrypted items; on a miss that an old cache may explain it syncs again, unless the last
-- refresh is younger than the cooldown. A sync (src/vault/sync.rs) fetches the encrypted vault,
-- decrypts it (src/vault/crypto.rs) and indexes the organizations. The client's tokens come from
-- src/vault/auth.rs. The controller writes one Secret, or none, and then the resource's status. All
-- this runs in the replica that holds the lease (src/leader.rs); src/main.rs starts the parts, and
-- src/health.rs answers the probes of every replica.
--
-- Files:
--   Prelude      names of the libraries, and what the code uses of Rust's standard library: text as
--                lists of code points, `Result` with panic as a third outcome, HashMap, and Actions
--                for code that changes a state.
--   Duration     parse_duration. Grammar describes the texts that it accepts, apart from the code.
--   Crypto       src/vault/crypto.rs: Unpad is pkcs7_unpad, CipherString parses and decrypts, Keys
--                derives and decrypts keys.
--   Sync         src/vault/sync.rs: Decrypt is decrypt_vault with its loops (Contents describes an
--                item's texts, Owners the key of a cipher), Lookup is find_item and
--                lookup_item, Extract is extract_secret, Fetch is fetch_sync.
--   Http         requests, answers, and the clock.
--   Auth         src/vault/auth.rs; Answers and Requests have the law of a login, Spans and Sends
--                bound the requests and the sleeps of an action.
--   Vault        src/vault/mod.rs: the session and its refresh; Fetch is fetch_secrets, Start is
--                VaultClient::new and initialize_vault_client, Steps and Refresh have the laws of a
--                refresh, Token those of the sleep before the token's refresh, and Background is
--                start_token_refresh and start_vault_cache_refresh over the signals that end their
--                waits. Tasks has the callers as tasks that move from await to await, and Concurrent
--                lets them move in any order: Locking and Exclusive are about refresh_lock, Ranks,
--                Nearer and Progress about the end of a call, Cooldown about the refreshes on a
--                miss, Claims, Explained and Answers about what the callers are told, Solo
--                and Served let one task move alone, as a call is served, Calls ties it to the
--                functions of Fetch, and Races is about the background refresh.
--   Crd          src/crd.rs.
--   Controller   src/controller.rs: Status has the conditions and the merge patch, Reconcile the
--                handler, Requests the laws of build_requests and parse_sync_interval.
--   Leader       src/leader.rs: the loops of acquire and keep_renewing, over the answers of the lease
--                lock; Lease says when the leader gives up, and Timing how long it has gone on.
--   Health       src/health.rs: serve over what it accepts, and handle_connection over the
--                lines that it reads; Probe is their law.
--   Startup      src/main.rs: the variables of the environment; Main is `main` with its start of the
--                vault client, Order is about what it does when, Sound about a start, Serving about
--                the calls after a start, and Lapse about the time that a start takes.
--   Fixtures     the data of the tests. Sync/Cases and Controller/Cases are unit tests of the
--                repository, run on the model.
--
-- Conventions: a function has the name that it has in the source. A loop over a list is structural
-- recursion; the `while` loop of parse_duration has the length of its text as fuel, and each round
-- takes a character; the attempts of initialize_vault_client count down from three. A machine number
-- is a natural number, with the wrap of a release build written out where the code multiplies
-- unchecked. Durations and instants are in nanoseconds. A method of the client is a function of the
-- session and of the trace of what has happened so far (requests, readings of the clock, sleeps), and
-- so is a reconcile of the calls that the API server got; the server, the clock and the API server
-- are functions of that trace, so they may answer anything at any time. A panic is a result, and the
-- state that it leaves is kept. Error messages are data with what they show.
--
-- Concurrency: in Vault/Tasks a task is a program counter for each await of fetch_secrets,
-- refresh_if_due, refresh_vault_cache and the token's upkeep, with the locals that it has there. A
-- turn lets time pass or moves one task to its next await, and carries the outcome of a request where
-- the task waits for one; a list of turns is any interleaving. A request, or a login with all its
-- requests, is one await. Reading or writing the session is one move, as its lock makes it.
--
-- Parameters, since their code is not in the repository: the cryptographic crates (record Crates),
-- Unicode lower case, the JSON decoding that serde derives, the order in which a HashMap is gone
-- through, fresh device ids, and kube's finalizer. Theorems that need a law of these name it as a
-- hypothesis: IsBase64, IsCipher, IsIteration, IsMonotone for a clock that does not run backwards, and
-- IsDown for a server that a sync does not reach.
--
-- Not modelled: logging, TLS and timeouts, the fairness of the locks, the watch stream of src/main.rs
-- with its predicates, its tracing setup and its signal handlers, the CRD generator, the Helm chart
-- and the scripts: they are calls of other crates, generated code and data.
pub mod Prelude
pub mod Duration
pub mod Crypto
pub mod Sync
pub mod Http
pub mod Auth
pub mod Vault
pub mod Crd
pub mod Controller
pub mod Leader
pub mod Health
pub mod Startup
pub mod Fixtures
