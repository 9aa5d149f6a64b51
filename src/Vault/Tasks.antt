-- ===== src/Vault/Tasks.antt =====
-- The callers of src/vault/mod.rs as tasks that share one session: the awaits of `fetch_secrets`
-- with `refresh_if_due`, of `refresh_vault_cache`, and of the upkeep of the token, and where a task
-- goes from each.
use vaultwarden_operator.Prelude.{
  ℕ, Bool, true, false, Option, none, some, List, ◌∷◌, leb, if◌then◌else◌, Result, ok, err, panic,
  Str,
}
use vaultwarden_operator.Duration.{from_secs}
use vaultwarden_operator.Http.{instant_add}
use vaultwarden_operator.Auth.{AuthError, Login}
use vaultwarden_operator.Crypto.{SymmetricKey}
use vaultwarden_operator.Sync.{SyncResponse, VaultCache, DecryptSkips, LookupError, is_stale_miss}
use vaultwarden_operator.Sync.Fetch.{SyncError, unauthorized}
use vaultwarden_operator.Vault.{
  VaultError, lookup, SecretRequest, Session, set_tokens, set_expiry, set_sym_key, set_cache,
}

-- Who runs `refresh_vault_cache`: `refresh_if_due` after a miss, which holds refresh_lock, or the
-- background task, which does not.
pub data Goal : Type 0 where
  on_demand : List SecretRequest → LookupError → Goal
  background : Goal

-- Who checks or refreshes the token: the start of a refresh, a refresh whose sync was answered with
-- 401 (with the key that it has read), or the token's task.
pub data Caller : Type 0 where
  at_start : Goal → Caller
  after_401 : Goal → SymmetricKey → Caller
  upkeep : Caller

-- The await at which a task stands.
pub data Pc : Type 0 where
  idle crashed : Pc
  asking retrying : List SecretRequest → Pc  -- a try of `fetch_secrets`
  missed locked : List SecretRequest → LookupError → Pc  -- before and after `refresh_lock.lock()`
  timed : List SecretRequest → LookupError → (last_refresh_at : ℕ) → Pc
  unlocking : List SecretRequest → LookupError → (ran : Bool) → Pc
  answered : List SecretRequest → Result VaultError (List Str) → Pc
  ensuring : Caller → Pc  -- `ensure_valid_token`
  has_expiry : Caller → (expires_at : ℕ) → Pc
  renewing : Caller → Pc  -- `do_refresh_or_reauth`
  posting : Caller → (current_rt : Str) → Pc
  renewed : Caller → Str → Option Str → ℕ → Pc
  logging_in : Caller → Pc  -- `re_authenticate`
  logged_in : Caller → Login → Pc
  valid : Goal → Pc  -- `refresh_vault_cache` after its `ensure_valid_token`
  has_token : Goal → Str → Pc
  syncing : Goal → Str → SymmetricKey → Pc
  again : Goal → SymmetricKey → Pc
  resyncing : Goal → Str → SymmetricKey → Pc
  synced : Goal → SyncResponse → SymmetricKey → Pc
  unwinding : (holds_lock : Bool) → Pc  -- a panic, before its guards are dropped

-- What happens outside the client: a call from the controller or a timer, or the outcome of a call.
pub data Choice : Type 0 where
  nothing : Choice
  fetch : List SecretRequest → Choice
  refresh_due token_due : Choice
  tokens : Result AuthError (Str × Option Str × ℕ) → Choice
  login : Result AuthError Login → Choice
  sync : Result SyncError SyncResponse → Choice

-- What has been fetched, and what has become the cache.
pub data Event : Type 0 where
  fetched : SyncResponse → Event
  stored : Goal → VaultCache → Event

pub record Shared : Type 0 where
  pub session : Session
  pub clock : ℕ
  pub refresh_lock : Option ℕ  -- the task that holds it
  pub log : List Event  -- the newest first

abbrev pub is_on_demand : Goal → Bool
is_on_demand (on_demand requests e) = true
is_on_demand background = false

abbrev pub for_on_demand : Caller → Bool
for_on_demand (at_start g) = is_on_demand g
for_on_demand (after_401 g key) = is_on_demand g
for_on_demand upkeep = false

-- the end of `refresh_vault_cache`
abbrev pub finish : Goal → Bool → Pc
finish (on_demand requests e) ran = unlocking requests e ran
finish background ran = idle

-- after a check or a refresh of the token that succeeded, and after one that did not
abbrev pub go_on : Caller → Pc
go_on (at_start g) = valid g
go_on (after_401 g key) = again g key
go_on upkeep = idle

abbrev pub give_up : Caller → Pc
give_up (at_start g) = finish g false
give_up (after_401 g key) = finish g false
give_up upkeep = idle

-- the start of a task
abbrev pub begin : Choice → Pc
begin (fetch requests) = asking requests
begin refresh_due = ensuring (at_start background)
begin token_due = ensuring upkeep
begin c = idle

-- the first try of `fetch_secrets`, and the second
abbrev pub after_try : List SecretRequest → Result VaultError (List Str) → Pc
after_try requests (err (lookup e)) =
    if is_stale_miss e then missed requests e else answered requests (err (lookup e))
after_try requests panic = unwinding false
after_try requests r = answered requests r

abbrev pub after_retry : List SecretRequest → Result VaultError (List Str) → Pc
after_retry requests panic = unwinding false
after_retry requests r = answered requests r

-- the outcomes of the requests; a choice of another kind leaves the task where it is
abbrev pub after_post : Caller → Str → Choice → Pc
after_post who rt (tokens (ok (new_at, new_rt, expires_in))) = renewed who new_at new_rt expires_in
after_post who rt (tokens (err e)) = logging_in who
after_post who rt (tokens panic) = unwinding (for_on_demand who)
after_post who rt c = posting who rt

abbrev pub after_login : Caller → Choice → Pc
after_login who (login (ok r)) = logged_in who r
after_login who (login (err e)) = give_up who
after_login who (login panic) = unwinding (for_on_demand who)
after_login who c = logging_in who

abbrev pub log_event : Event → Shared → Shared
log_event e m = record {
  session = m.session;
  clock = m.clock;
  refresh_lock = m.refresh_lock;
  log = e ∷ m.log;
}

abbrev pub set_lock : Option ℕ → Shared → Shared
set_lock l m = record { session = m.session; clock = m.clock; refresh_lock = l; log = m.log }

abbrev pub set_session : Session → Shared → Shared
set_session s m = record {
  session = s;
  clock = m.clock;
  refresh_lock = m.refresh_lock;
  log = m.log;
}

abbrev pub after_sync : Shared → Goal → Str → SymmetricKey → Choice → Shared × Pc
after_sync m g token key (sync (ok resp)) = (log_event (fetched resp) m, synced g resp key)
after_sync m g token key (sync (err unauthorized)) = (m, renewing (after_401 g key))
after_sync m g token key (sync (err e)) = (m, finish g false)
after_sync m g token key (sync panic) = (m, unwinding (is_on_demand g))
after_sync m g token key c = (m, syncing g token key)

abbrev pub after_resync : Shared → Goal → Str → SymmetricKey → Choice → Shared × Pc
after_resync m g token key (sync (ok resp)) = (log_event (fetched resp) m, synced g resp key)
after_resync m g token key (sync (err e)) = (m, finish g false)
after_resync m g token key (sync panic) = (m, unwinding (is_on_demand g))
after_resync m g token key c = (m, resyncing g token key)

-- the comparison in `ensure_valid_token`, and the addition of the lifetime that follows the storing
-- of new tokens; both may leave the range of an Instant
abbrev pub compare_expiry : Caller → ℕ → Result ⊥ ℕ → Pc
compare_expiry who expires_at (ok soon) = if leb expires_at soon then renewing who else go_on who
compare_expiry who expires_at (err e) = absurd e
compare_expiry who expires_at panic = unwinding (for_on_demand who)

abbrev pub store_expiry :
    Caller → Shared → Session → (ℕ → Session → Session) → Result ⊥ ℕ → Shared × Pc
store_expiry who m s finishing (ok at) = (set_session (finishing at s) m, go_on who)
store_expiry who m s finishing (err e) = absurd e
store_expiry who m s finishing panic = (set_session s m, unwinding (for_on_demand who))

abbrev pub store_tokens : Caller → Shared → Str → Option Str → ℕ → Shared × Pc
store_tokens who m new_at new_rt expires_in =
    store_expiry who m (set_tokens new_at new_rt m.session) set_expiry
      (instant_add m.clock (from_secs expires_in))

abbrev pub store_login : Caller → Shared → Login → Shared × Pc
store_login who m (access_token, refresh_tok, expires_in, key) =
    store_expiry who m (set_tokens access_token (some refresh_tok) m.session)
      (λ at s. set_sym_key key (set_expiry at s)) (instant_add m.clock (from_secs expires_in))

-- the end of `refresh_vault_cache`, under the session's write lock
abbrev pub store_cache : Goal → Shared → Result ⊥ (VaultCache × DecryptSkips) → Shared × Pc
store_cache g m (ok (cache, skips)) =
    (log_event (stored g cache) (set_session (set_cache cache m.clock m.session) m), finish g true)
store_cache g m (err e) = absurd e
store_cache g m panic = (m, unwinding (is_on_demand g))

abbrev pub take_lock : ℕ → Shared → List SecretRequest → LookupError → Option ℕ → Shared × Pc
take_lock i m requests e none = (set_lock (some i) m, locked requests e)
take_lock i m requests e (some j) = (m, missed requests e)
