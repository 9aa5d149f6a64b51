-- ===== src/Vault/Concurrent.antt =====
-- The tasks of src/vault/mod.rs, in any order: `fetch_secrets` with `refresh_if_due`,
-- `refresh_vault_cache` of the background task, and `ensure_valid_token` of the token's task. Between
-- two of its awaits a task runs alone, since it holds the session's lock there or touches nothing
-- that is shared. Any task may move at any turn, and what the server answers is chosen by the turn.
pub mod Claims
pub mod Explained
pub mod Answers
pub mod Ranks
pub mod Nearer
pub mod Progress
pub mod Locking
pub mod Exclusive
pub mod Moves
pub mod Cooling
pub mod Cooldown
pub mod Solo
pub mod Served
pub mod Refines
pub mod Alone
pub mod Calls
pub mod Races
mod Tests
use vaultwarden_operator.Prelude.{
  ℕ, ◌+◌, ◌-◌, true, false, none, List, [], ◌∷◌, ltb, ◌==◌, if◌then◌else◌, err,
}
use vaultwarden_operator.Duration.{from_secs}
use vaultwarden_operator.Http.{instant_add}
use vaultwarden_operator.Auth.{Services}
use vaultwarden_operator.Sync.Decrypt.{decrypt_vault}
use vaultwarden_operator.Vault.{lookup, Session, VaultClient}
use vaultwarden_operator.Vault.Fetch.{lookup_in}
use vaultwarden_operator.Vault.Tasks.{
  on_demand, at_start, Pc, idle, crashed, asking, retrying, missed, locked, timed, unlocking,
  answered, ensuring, has_expiry, renewing, posting, renewed, logging_in, logged_in, valid,
  has_token, syncing, again, resyncing, synced, unwinding, Choice, Shared, begin, after_try,
  after_retry, after_post, after_login, set_lock, after_sync, after_resync, compare_expiry,
  store_tokens, store_login, store_cache, take_lock,
}

module _ {RsaPrivateKey : Type 0} (services : Services RsaPrivateKey) (client : VaultClient) where
  -- The task `i` runs to its next await.
  unfoldable pub advance : ℕ → Choice → Shared → Pc → Shared × Pc
  advance i c m idle = (m, begin c)
  advance i c m crashed = (m, crashed)
  advance i c m (asking requests) =
      (m, after_try requests (lookup_in services m.session.vault requests))
  advance i c m (missed requests e) = take_lock i m requests e m.refresh_lock
  advance i c m (locked requests e) = (m, timed requests e m.session.last_refresh_at)
  advance i c m (timed requests e at) = (
    m,
    if ltb (m.clock - at) client.min_refresh_interval
        then unlocking requests e false
        else ensuring (at_start (on_demand requests e)),
  )
  advance i c m (unlocking requests e ran) =
      (set_lock none m, if ran then retrying requests else answered requests (err (lookup e)))
  advance i c m (retrying requests) =
      (m, after_retry requests (lookup_in services m.session.vault requests))
  advance i c m (answered requests r) = (m, idle)
  advance i c m (ensuring who) = (m, has_expiry who m.session.token_expires_at)
  advance i c m (has_expiry who at) =
      (m, compare_expiry who at (instant_add m.clock (from_secs 60)))
  advance i c m (renewing who) = (m, posting who m.session.refresh_token)
  advance i c m (posting who rt) = (m, after_post who rt c)
  advance i c m (renewed who new_at new_rt expires_in) = store_tokens who m new_at new_rt expires_in
  advance i c m (logging_in who) = (m, after_login who c)
  advance i c m (logged_in who r) = store_login who m r
  advance i c m (valid g) = (m, has_token g m.session.access_token)
  advance i c m (has_token g token) = (m, syncing g token m.session.sym_key)
  advance i c m (syncing g token key) = after_sync m g token key c
  advance i c m (again g key) = (m, resyncing g m.session.access_token key)
  advance i c m (resyncing g token key) = after_resync m g token key c
  advance i c m (synced g resp key) =
      store_cache g m (decrypt_vault services.crates services.unicode resp key)
  advance i c m (unwinding true) = (set_lock none m, crashed)
  advance i c m (unwinding false) = (m, crashed)

-- The tasks, by number.
pub record System : Type 0 where
  pub shared : Shared
  pub tasks : ℕ → Pc

pub data Turn : Type 0 where
  tick : ℕ → Turn  -- nanoseconds go by
  move : ℕ → Choice → Turn

abbrev pub tasks_with : ℕ → Pc → (ℕ → Pc) → ℕ → Pc
tasks_with i p tasks j = if i == j then p else tasks j

abbrev pub later : ℕ → Shared → Shared
later n m = record {
  session = m.session;
  clock = m.clock + n;
  refresh_lock = m.refresh_lock;
  log = m.log;
}

abbrev pub moved : System → ℕ → Shared × Pc → System
moved s i (m, p) = record { shared = m; tasks = tasks_with i p s.tasks }

module _ {RsaPrivateKey : Type 0} (services : Services RsaPrivateKey) (client : VaultClient) where
  unfoldable pub turn : Turn → System → System
  turn (tick n) s = record { shared = later n s.shared; tasks = s.tasks }
  turn (move i c) s = moved s i (advance services client i c s.shared (s.tasks i))

  unfoldable pub run : List Turn → System → System
  run [] s = s
  run (t ∷ turns) s = run turns (turn t s)

-- Every task is at rest, and nothing has been logged.
abbrev pub at_rest : Session → ℕ → System
at_rest session clock = record {
  shared = record { session = session; clock = clock; refresh_lock = none; log = [] };
  tasks = λ i. idle;
}
