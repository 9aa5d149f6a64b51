-- ===== src/Vault.antt =====
-- src/vault/mod.rs: the session of the client, the upkeep of its token, and the refresh of its cache.
pub mod Fetch
pub mod Start
mod Tests
pub mod Steps
pub mod Refresh
pub mod Token
pub mod Background
pub mod Tasks
pub mod Concurrent
use vaultwarden_operator.Prelude.{
  ℕ, ◌-◌, ◌⊎◌, inl, inr, Option, some, [], leb, if◌then◌else◌, unwrap_or, Result, ok, map_err, Str,
}
use vaultwarden_operator.Prelude.Actions.{Action, next, ◌>>=◌, wrap, attempt, lift, pure, fail}
use vaultwarden_operator.Duration.{Duration, from_secs}
use vaultwarden_operator.Http.{Trace, now, instant_add}
use vaultwarden_operator.Auth.{AuthError, Services, authenticate, refresh_token}
use vaultwarden_operator.Crypto.{SymmetricKey}
use vaultwarden_operator.Sync.{SyncResponse, VaultCache, LookupError}
use vaultwarden_operator.Sync.Decrypt.{decrypt_vault}
use vaultwarden_operator.Sync.Fetch.{SyncError, unauthorized, fetch_sync}

pub data VaultError : Type 0 where
  auth : AuthError → VaultError
  sync : SyncError → VaultError
  lookup : LookupError → VaultError
  not_initialized : VaultError

pub record SecretRequest : Type 0 where
  pub name : Str
  pub vault : Option Str

pub record Session : Type 0 where
  pub access_token : Str
  pub refresh_token : Str
  pub token_expires_at : ℕ
  pub sym_key : SymmetricKey
  pub vault : Option VaultCache
  pub last_refresh_at : ℕ

-- The fields that a client never changes; the session is the state of its methods.
pub record VaultClient : Type 0 where
  pub base_url : Str
  pub email : Str
  pub password : Str
  pub client_id : Option Str
  pub client_secret : Option Str
  pub device_id : Str
  pub min_refresh_interval : Duration

pub record World : Type 0 where
  pub session : Session
  pub trace : Trace

module _ {E : Type 0} {A : Type 0} where
  abbrev pub with_trace : Session → Result E A × Trace → Result E A × World
  with_trace session (r, t) = (r, record { session = session; trace = t })

  -- a call that does not see the session
  abbrev pub outside : Action Trace E A → Action World E A
  outside m w = with_trace w.session (m w.trace)

module _ {E : Type 0} where
  -- `self.inner.read().await`
  abbrev pub session : Action World E Session
  session w = (ok w.session, w)

  -- `self.inner.write().await`, and an assignment
  abbrev pub modify : (Session → Session) → Action World E (Unit {0})
  modify f w = (ok tt, record { session = f w.session; trace = w.trace })

abbrev pub set_tokens : Str → Option Str → Session → Session
set_tokens new_at new_rt s = record {
  access_token = new_at;
  refresh_token = unwrap_or s.refresh_token new_rt;
  token_expires_at = s.token_expires_at;
  sym_key = s.sym_key;
  vault = s.vault;
  last_refresh_at = s.last_refresh_at;
}

abbrev pub set_expiry : ℕ → Session → Session
set_expiry at s = record {
  access_token = s.access_token;
  refresh_token = s.refresh_token;
  token_expires_at = at;
  sym_key = s.sym_key;
  vault = s.vault;
  last_refresh_at = s.last_refresh_at;
}

abbrev pub set_sym_key : SymmetricKey → Session → Session
set_sym_key key s = record {
  access_token = s.access_token;
  refresh_token = s.refresh_token;
  token_expires_at = s.token_expires_at;
  sym_key = key;
  vault = s.vault;
  last_refresh_at = s.last_refresh_at;
}

abbrev pub set_cache : VaultCache → ℕ → Session → Session
set_cache cache at s = record {
  access_token = s.access_token;
  refresh_token = s.refresh_token;
  token_expires_at = s.token_expires_at;
  sym_key = s.sym_key;
  vault = some cache;
  last_refresh_at = at;
}

-- how long the background task sleeps before it refreshes the token
unfoldable pub token_refresh_sleep : (token_expires_at instant : ℕ) → Duration
token_refresh_sleep token_expires_at instant = token_expires_at - from_secs 60 - instant

module _ {RsaPrivateKey : Type 0} (services : Services RsaPrivateKey) where
  -- the expiry of a token that a response just gave
  abbrev pub expire_in : ℕ → Action World VaultError (Unit {0})
  expire_in expires_in = do
    t ← outside (now services.net)
    at ← lift (instant_add t (from_secs expires_in))
    modify (set_expiry at)

  unfoldable pub re_authenticate : VaultClient → Action World VaultError (Unit {0})
  re_authenticate client = do
    (access_token, refresh_tok, expires_in, key) ← outside (
        wrap auth (
          authenticate services client.base_url client.email client.password client.client_id
            client.client_secret client.device_id))
    u ← modify (set_tokens access_token (some refresh_tok))
    v ← expire_in expires_in
    modify (set_sym_key key)

  -- what follows the refresh of the token: its values, or a full login after an error
  unfoldable pub after_refresh :
      VaultClient → AuthError ⊎ (Str × Option Str × ℕ) → Action World VaultError (Unit {0})
  after_refresh client (inr (new_at, new_rt, expires_in)) = do
    u ← modify (set_tokens new_at new_rt)
    expire_in expires_in
  after_refresh client (inl e) = re_authenticate client

  unfoldable pub do_refresh_or_reauth : VaultClient → Action World VaultError (Unit {0})
  unfolding after_refresh
  do_refresh_or_reauth client = do
    s ← session
    r ← attempt (outside (refresh_token services client.base_url s.refresh_token))
    after_refresh client r

  unfoldable pub ensure_valid_token : VaultClient → Action World VaultError (Unit {0})
  ensure_valid_token client = do
    s ← session
    t ← outside (now services.net)
    soon ← lift (instant_add t (from_secs 60))
    if leb s.token_expires_at soon then do_refresh_or_reauth client else pure tt

  -- what follows the first request of a sync: after a 401 the token is refreshed and the request
  -- repeated once
  unfoldable pub after_sync :
      VaultClient → SyncError ⊎ SyncResponse → Action World VaultError SyncResponse
  after_sync client (inr resp) = pure resp
  after_sync client (inl unauthorized) = do
    u ← do_refresh_or_reauth client
    s ← session
    outside (wrap sync (fetch_sync services client.base_url s.access_token))
  after_sync client (inl e) = fail (sync e)

  -- The sync of a refresh, with the token and the key that the session has before it.
  unfoldable pub sync_and_decrypt : VaultClient → Action World VaultError VaultCache
  unfolding after_sync
  sync_and_decrypt client = do
    s ← session
    r ← attempt (outside (fetch_sync services client.base_url s.access_token))
    resp ← after_sync client r
    (cache, skips) ←
        lift
          (map_err (λ e. absurd e) (decrypt_vault services.crates services.unicode resp s.sym_key))
    pure cache

  unfoldable pub refresh_vault_cache : VaultClient → Action World VaultError (Unit {0})
  unfolding sync_and_decrypt
  refresh_vault_cache client = do
    u ← ensure_valid_token client
    cache ← sync_and_decrypt client
    t ← outside (now services.net)
    modify (set_cache cache t)
