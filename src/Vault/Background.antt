-- ===== src/Vault/Background.antt =====
-- The background tasks of src/vault/mod.rs: `start_token_refresh` and `start_vault_cache_refresh`.
-- Each runs over the signals that end its waits, and does not end by itself.
pub mod Laws
mod Tests
use vaultwarden_operator.Prelude.{◌⊎◌, inl, inr, Bool, true, false, List, [], ◌∷◌}
use vaultwarden_operator.Prelude.Actions.{Action, next, ◌>>=◌, attempt, pure}
use vaultwarden_operator.Duration.{from_secs}
use vaultwarden_operator.Http.{now, sleep}
use vaultwarden_operator.Auth.{Services}
use vaultwarden_operator.Vault.{
  VaultError, VaultClient, World, outside, session, ensure_valid_token, refresh_vault_cache,
  token_refresh_sleep,
}

-- What ends a wait: its time is over, or the task is cancelled.
pub data Signal : Type 0 where
  elapsed cancelled : Signal

abbrev pub is_failure : VaultError ⊎ Unit {0} → Bool
is_failure (inl e) = true
is_failure (inr u) = false

module _ {RsaPrivateKey : Type 0} (services : Services RsaPrivateKey) where
  -- one wait of the token's task that ended with its time, and whether the next one is a back-off:
  -- after the back-off of 30 seconds nothing is done, and after the sleep the token is looked at
  unfoldable pub token_refresh_round :
      VaultClient → (backing_off : Bool) → Action World VaultError Bool
  token_refresh_round client true = do u ← outside (sleep (from_secs 30)); pure false
  token_refresh_round client false = do
    s ← session
    t ← outside (now services.net)
    u ← outside (sleep (token_refresh_sleep s.token_expires_at t))
    r ← attempt (ensure_valid_token services client)
    pure (is_failure r)

  unfoldable pub start_token_refresh :
      VaultClient → (backing_off : Bool) → List Signal → Action World VaultError (Unit {0})
  start_token_refresh client backing_off [] = pure tt
  start_token_refresh client backing_off (cancelled ∷ rest) = pure tt
  start_token_refresh client backing_off (elapsed ∷ rest) = do
    again ← token_refresh_round client backing_off
    start_token_refresh client again rest

  unfoldable pub start_vault_cache_refresh :
      VaultClient → List Signal → Action World VaultError (Unit {0})
  start_vault_cache_refresh client [] = pure tt
  start_vault_cache_refresh client (cancelled ∷ rest) = pure tt
  start_vault_cache_refresh client (elapsed ∷ rest) = do
    r ← attempt (refresh_vault_cache services client)
    start_vault_cache_refresh client rest
