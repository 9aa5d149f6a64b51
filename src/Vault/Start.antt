-- ===== src/Vault/Start.antt =====
-- `VaultClient::new` and `initialize_vault_client` of src/vault/mod.rs.
pub mod Laws
use vaultwarden_operator.Prelude.{
  ℕ, zero, suc, ◌+◌, ◌-◌, ◌*◌, ◌/◌, inl, inr, ◌&&◌, Option, none, List, [], ◌∷◌, ◌++◌, ltb, ◌==◌,
  if◌then◌else◌, is_empty, Result, ok, err, panic, Str, codes,
}
use vaultwarden_operator.Prelude.Actions.{Action, next, ◌>>=◌, wrap, attempt, lift, pure}
use vaultwarden_operator.Duration.{Duration, from_secs}
use vaultwarden_operator.Http.{Trace, now, sleep, instant_add}
use vaultwarden_operator.Auth.{Services, authenticate}
use vaultwarden_operator.Vault.{VaultError, auth, Session, VaultClient, World, refresh_vault_cache}

-- `trim_end_matches('/')`
unfoldable pub trim_end_slashes : Str → Str
trim_end_slashes [] = []
trim_end_slashes (c ∷ s) =
    let rest = trim_end_slashes s in if is_empty rest && c == b'/' then [] else c ∷ rest

-- The arguments of `VaultClient::new`.
pub record Credentials : Type 0 where
  pub base_url : Str
  pub email : Str
  pub password : Str
  pub client_id : Option Str
  pub client_secret : Option Str
  pub min_refresh_interval : Duration

abbrev pub client_of : Credentials → Str → VaultClient
client_of c device_id = record {
  base_url = trim_end_slashes c.base_url;
  email = c.email;
  password = c.password;
  client_id = c.client_id;
  client_secret = c.client_secret;
  device_id = device_id;
  min_refresh_interval = c.min_refresh_interval;
}

-- `error_chain`, over the text of the error and those of its sources
unfoldable pub chain_from : (out : Str) → (sources : List Str) → Str
chain_from out [] = out
chain_from out (s ∷ sources) = chain_from (out ++ (codes " -> " ++ s)) sources

unfoldable pub error_chain : (error : Str) (sources : List Str) → Str
unfolding chain_from
error_chain error sources = chain_from error sources

abbrev pub max_retries : ℕ
max_retries = 3

-- the pause before an attempt other than the first
abbrev pub backoff : ℕ → Duration
backoff attempt = from_secs (attempt * attempt * 5)

-- the client with the session that its first refresh left
abbrev pub started :
    VaultClient
    → Result VaultError (Unit {0}) × World
    → Result VaultError (VaultClient × Session) × Trace
started client (ok u, w) = (ok (client, w.session), w.trace)
started client (err e, w) = (err e, w.trace)
started client (panic, w) = (panic, w.trace)

abbrev pub pause : ℕ → Action Trace VaultError (Unit {0})
pause attempt = if ltb 1 attempt then sleep (backoff attempt) else pure tt

module _ {RsaPrivateKey : Type 0} (services : Services RsaPrivateKey) where
  unfoldable pub new : Credentials → Action Trace VaultError (VaultClient × Session)
  new c t0 =
      (do
        let client = client_of c (services.new_v4 t0)
        (access_token, refresh_tok, expires_in, key) ← wrap auth (
            authenticate services client.base_url client.email client.password client.client_id
              client.client_secret client.device_id)
        t ← now services.net
        at ← lift (instant_add t (from_secs expires_in))
        t' ← now services.net
        let fresh : Session = record {
          access_token = access_token;
          refresh_token = refresh_tok;
          token_expires_at = at;
          sym_key = key;
          vault = none;
          last_refresh_at = t';
        }
        λ tr.
            started client
              (refresh_vault_cache services client (record { session = fresh; trace = tr })))
        t0

  -- The attempts from number `n` on, with at most `left` of them; `unreachable!()` follows the loop.
  unfoldable pub init_attempts :
      (left n : ℕ) → Credentials → Action Trace VaultError (VaultClient × Session)
  init_attempts zero n c = lift panic
  init_attempts (suc left) n c = do
    u ← pause n
    r ← attempt (new c)
    λ t. elim r [
      | inr client ↦ (ok client, t)
      | inl e ↦ if n == max_retries then (err e, t) else init_attempts left (suc n) c t
    ]

  unfoldable pub initialize_vault_client :
      Credentials → Action Trace VaultError (VaultClient × Session)
  unfolding init_attempts
  initialize_vault_client c = init_attempts max_retries 1 c
