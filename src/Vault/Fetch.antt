-- ===== src/Vault/Fetch.antt =====
-- `fetch_secrets` of src/vault/mod.rs: lookups in the cache, and the refresh on a miss.
pub mod Laws
pub mod Cooldown
pub mod Failing
use vaultwarden_operator.Prelude.{
  ◌-◌, ◌⊎◌, inl, inr, Bool, true, false, Option, none, some, List, [], ◌∷◌, ltb, if◌then◌else◌,
  Result, ok, err, map_err, Str,
}
use vaultwarden_operator.Prelude.Results
use vaultwarden_operator.Prelude.Actions.{Action, next, ◌>>=◌, attempt, lift, pure, fail}
use vaultwarden_operator.Http.{now}
use vaultwarden_operator.Auth.{Services}
use vaultwarden_operator.Sync.{VaultCache, LookupError, is_stale_miss}
use vaultwarden_operator.Sync.Lookup.{lookup_item}
use vaultwarden_operator.Sync.Extract.{extract_secret}
use vaultwarden_operator.Vault.{
  VaultError, lookup, not_initialized, SecretRequest, VaultClient, World, outside, session,
  refresh_vault_cache,
}

module _ {RsaPrivateKey : Type 0} (services : Services RsaPrivateKey) where
  abbrev pub lookup_secret : VaultCache → SecretRequest → Result LookupError Str
  lookup_secret cache req =
      Results.◌>>=◌ (lookup_item services.unicode cache req.name req.vault)
        (λ item. ok (extract_secret services.order item))

  unfoldable pub lookup_all : VaultCache → List SecretRequest → Result LookupError (List Str)
  lookup_all cache [] = ok []
  lookup_all cache (req ∷ requests) =
      Results.◌>>=◌ (lookup_secret cache req)
        (λ v. Results.◌>>=◌ (lookup_all cache requests) (λ vs. ok (v ∷ vs)))

  abbrev pub lookup_in : Option VaultCache → List SecretRequest → Result VaultError (List Str)
  lookup_in none requests = err not_initialized
  lookup_in (some cache) requests = map_err lookup (lookup_all cache requests)

  unfoldable pub try_fetch_secrets : List SecretRequest → Action World VaultError (List Str)
  unfolding lookup_all
  try_fetch_secrets requests = do s ← session; lift (lookup_in s.vault requests)

  -- the end of `refresh_if_due`, by whether the cooldown still runs
  abbrev pub refresh_unless : VaultClient → Bool → Action World VaultError Bool
  refresh_unless client true = pure false
  refresh_unless client false = do
    r ← attempt (refresh_vault_cache services client)
    pure (elim r [ inl e ↦ false | inr u ↦ true ])

  -- The lock that the method holds makes its calls follow one another.
  unfoldable pub refresh_if_due : VaultClient → Action World VaultError Bool
  refresh_if_due client = do
    s ← session
    t ← outside (now services.net)
    refresh_unless client (ltb (t - s.last_refresh_at) client.min_refresh_interval)

  -- the second try, where a refresh ran
  abbrev pub retry : LookupError → List SecretRequest → Bool → Action World VaultError (List Str)
  retry e requests true = try_fetch_secrets requests
  retry e requests false = fail (lookup e)

  -- what follows the first try
  abbrev pub after_try :
      VaultClient → List SecretRequest → VaultError ⊎ List Str → Action World VaultError (List Str)
  after_try client requests (inr values) = pure values
  after_try client requests (inl (lookup e)) =
      if is_stale_miss e
      then (do ran ← refresh_if_due client; retry e requests ran)
      else fail (lookup e)
  after_try client requests (inl e) = fail e

  unfoldable pub fetch_secrets :
      VaultClient → List SecretRequest → Action World VaultError (List Str)
  fetch_secrets client requests = do
    r ← attempt (try_fetch_secrets requests)
    after_try client requests r
