-- ===== src/Startup/Main.antt =====
-- `main` of src/main.rs: the configuration, the start of the vault client, and the order in which
-- the operator's parts are started and stopped.
use vaultwarden_operator.Prelude.{
  Bool, true, false, Option, none, some, List, [], ◌∷◌, ◌++◌, Result, ok, err, panic, map_err,
  ok_or, Str, codes,
}
use vaultwarden_operator.Prelude.Actions.{Action, ◌>>=◌, wrap, lift, pure}
use vaultwarden_operator.Duration.{Duration}
use vaultwarden_operator.Http.{Trace}
use vaultwarden_operator.Auth.{Services}
use vaultwarden_operator.Vault.{VaultError, Session, VaultClient}
use vaultwarden_operator.Vault.Start.{initialize_vault_client}
use vaultwarden_operator.Leader.{Acquisition, acquired, exited, waiting}
use vaultwarden_operator.Startup.{
  default_vault_cache_refresh_interval, default_vault_cache_min_refresh_interval, env_duration,
  optional_env,
}

-- Why the operator leaves before it works: a variable is not set, or the client fails.
pub data StartError : Type 0 where
  env_not_set : Str → StartError
  vault : VaultError → StartError

-- `std::process::exit(1)` is the error.
unfoldable pub required_env : (env : Str → Option Str) → Str → Result StartError Str
required_env env key = ok_or (env_not_set key) (env key)

-- What is logged of the kind of login.
pub data AuthMode : Type 0 where
  api_key password_grant : AuthMode
  only_set : Str → AuthMode

unfoldable pub auth_mode : (client_id client_secret : Option Str) → AuthMode
auth_mode (some id) (some secret) = api_key
auth_mode none none = password_grant
auth_mode (some id) none = only_set (codes "VAULTWARDEN_CLIENT_ID")
auth_mode none (some secret) = only_set (codes "VAULTWARDEN_CLIENT_SECRET")

-- What the tasks run with.
pub record Operator : Type 0 where
  pub vault_client : VaultClient
  pub session : Session
  pub cache_refresh_interval : Duration

module _ {RsaPrivateKey : Type 0} (services : Services RsaPrivateKey) where
  -- from the lease on to the vault client
  unfoldable pub start : (env : Str → Option Str) → Action Trace StartError Operator
  start env = do
    vault_url ← lift (required_env env (codes "VAULTWARDEN_URL"))
    vault_email ← lift (required_env env (codes "VAULTWARDEN_EMAIL"))
    vault_password ← lift (required_env env (codes "VAULTWARDEN_PASSWORD"))
    cache_refresh_interval ← lift (
        map_err (λ e. absurd e)
          (env_duration env (codes "VAULT_CACHE_REFRESH_INTERVAL")
            default_vault_cache_refresh_interval))
    cache_min_refresh_interval ← lift (
        map_err (λ e. absurd e)
          (env_duration env (codes "VAULT_CACHE_MIN_REFRESH_INTERVAL")
            default_vault_cache_min_refresh_interval))
    (vault_client, session) ← wrap vault (
        initialize_vault_client services (record {
          base_url = vault_url;
          email = vault_email;
          password = vault_password;
          client_id = optional_env env (codes "VAULTWARDEN_CLIENT_ID");
          client_secret = optional_env env (codes "VAULTWARDEN_CLIENT_SECRET");
          min_refresh_interval = cache_min_refresh_interval;
        }))
    pure (record {
      vault_client = vault_client;
      session = session;
      cache_refresh_interval = cache_refresh_interval;
    })

-- What `main` does, in its order. The tasks that it spawns run on beside it.
pub data Deed : Type 0 where
  serve_health start_token_refresh keep_renewing run_controller cancel_tasks step_down : Deed
  start_vault_cache_refresh : (interval : Duration) → Deed
  leave : (failed : Bool) → Deed

-- What ends the controller: a signal, or the loss of the lease, where the renewing task has stepped
-- down by itself.
pub data Shutdown : Type 0 where
  signalled lease_lost : Shutdown

abbrev pub before_shutdown : Shutdown → List Deed
before_shutdown signalled = []
before_shutdown lease_lost = step_down ∷ []

-- after the controller has stopped
abbrev pub wind_down : List Deed
wind_down = cancel_tasks ∷ step_down ∷ leave false ∷ []

-- the rest of `main`, with the vault client or without
unfoldable pub lead : Result StartError Operator → Shutdown → List Deed
lead (err e) shutdown = leave true ∷ []
lead panic shutdown = leave true ∷ []
lead (ok operator) shutdown =
    start_token_refresh
    ∷ start_vault_cache_refresh operator.cache_refresh_interval
    ∷ keep_renewing
    ∷ run_controller
    ∷ (before_shutdown shutdown ++ wind_down)

-- `has_client` says whether `Client::try_default` found a configuration.
unfoldable pub main :
    (has_client : Bool) → Acquisition → Result StartError Operator → Shutdown → List Deed
unfolding lead
main false acquisition started shutdown = leave true ∷ []
main true waiting started shutdown = serve_health ∷ []
main true exited started shutdown = serve_health ∷ leave false ∷ []
main true acquired started shutdown = serve_health ∷ lead started shutdown
