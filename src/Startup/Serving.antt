-- ===== src/Startup/Serving.antt =====
-- The vault client that src/main.rs has started, at work for the controller beside its tasks.
use vaultwarden_operator.Prelude.{ℕ, ◌≡◌, ◌≢◌, Option, List, Result, ok, err, panic, map_err, Str}
use vaultwarden_operator.Http.{Trace}
use vaultwarden_operator.Auth.{Services}
use vaultwarden_operator.Sync.{LookupError}
use vaultwarden_operator.Vault.{lookup, not_initialized, SecretRequest}
use vaultwarden_operator.Vault.Fetch.{lookup_all}
use vaultwarden_operator.Vault.Tasks.{answered}
use vaultwarden_operator.Vault.Concurrent.{Turn, run, at_rest}
use vaultwarden_operator.Vault.Concurrent.Answers.{fetch_secrets-IsExplained}
use vaultwarden_operator.Startup.Main.{Operator, start}
use vaultwarden_operator.Startup.Sound.{start_sound}

looked_up : (r : Result LookupError (List Str)) → map_err lookup r ≢ err not_initialized
looked_up (ok values) e = cc
looked_up (err x) e = cc
looked_up panic e = cc

-- After a start, no call of `fetch_secrets` is ever answered that the vault is not yet initialized,
-- in whatever order the tasks move and whatever the server answers.
pub started_fetch_secrets :
    {RsaPrivateKey : Type 0} (services : Services RsaPrivateKey) (env : Str → Option Str)
    (t t' : Trace) (operator : Operator) (turns : List Turn) (clock i : ℕ)
    (requests : List SecretRequest)
    → start services env t ≡ (ok operator, t')
    → (run services operator.vault_client turns (at_rest operator.session clock)).tasks i
      ≢ answered requests (err not_initialized)
started_fetch_secrets services env t t' operator turns clock i requests e stuck =
    let (url, email, password, interval, u, m, p, h, h', made, (first, v)) =
      start_sound services env t t' operator e in
    let (cache, held, found) =
      (fetch_secrets-IsExplained services operator.vault_client turns operator.session clock first
          v).1
        i requests (err not_initialized) stuck in
    looked_up (lookup_all services cache requests) found
