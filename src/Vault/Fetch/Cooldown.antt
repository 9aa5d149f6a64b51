-- ===== src/Vault/Fetch/Cooldown.antt =====
-- When `fetch_secrets` of src/vault/mod.rs sends requests, and how callers share a refresh.
use vaultwarden_operator.Prelude.{
  ℕ, zero, suc, ◌-◌, ◌<◌, ◌≡◌, refl, sym, ◌∙◌, subst, inl, inr, Bool, true, false, some, List, ◌∷◌,
  arith, ltb, Result, ok, err, panic, map_err, Str,
}
use vaultwarden_operator.Prelude.Actions.{Action, next, ◌>>=◌, tried, pure}
use vaultwarden_operator.Http.{read_clock}
use vaultwarden_operator.Auth.{Services}
use vaultwarden_operator.Sync.{VaultCache, LookupError, is_stale_miss}
use vaultwarden_operator.Vault.{
  VaultError, lookup, SecretRequest, VaultClient, World, refresh_vault_cache,
}
use vaultwarden_operator.Vault.Fetch.{
  lookup_all, lookup_in, try_fetch_secrets, refresh_if_due, retry, after_try, fetch_secrets,
}

-- Whether the lookups may fail because the cache is old.
abbrev pub stale : Result LookupError (List Str) → Bool
stale (err e) = is_stale_miss e
stale _ = false

-- the world after a reading of the clock
abbrev pub ticked : World → World
ticked w = record { session = w.session; trace = read_clock ∷ w.trace }

module _ {RsaPrivateKey : Type 0} (services : Services RsaPrivateKey) where
  -- Whether the cooldown of on-demand refreshes runs at the next reading of the clock.
  abbrev pub IsCooling : VaultClient → World → Type 0
  IsCooling client w =
      ltb (services.net.clock w.trace - w.session.last_refresh_at) client.min_refresh_interval
      ≡ true

  -- With a cache, and lookups that do not miss in the way of an old cache, `fetch_secrets` answers
  -- what they answer, and neither changes the session nor sends a request.
  pub fetch_secrets_quiet :
      (client : VaultClient) (requests : List SecretRequest) (cache : VaultCache) (w : World)
      → w.session.vault ≡ some cache
      → stale (lookup_all services cache requests) ≡ false
      → fetch_secrets services client requests w
        ≡ (map_err lookup (lookup_all services cache requests), w)
  unfolding fetch_secrets try_fetch_secrets
  fetch_secrets_quiet client requests cache w v s =
      subst
        (λ o.
          next (tried (lookup_in services o requests, w)) (after_try services client requests)
          ≡ (map_err lookup (lookup_all services cache requests), w))
        (sym v) (go (lookup_all services cache requests) s)
    where
      go :
          (r : Result LookupError (List Str))
          → stale r ≡ false
          → next (tried (map_err lookup r, w)) (after_try services client requests)
            ≡ (map_err lookup r, w)
      go (ok vs) h = refl
      go (err e) h = rw (h)
      go panic h = refl

  missed :
      (client : VaultClient) (requests : List SecretRequest) (cache : VaultCache) (e : LookupError)
      (w : World)
      → w.session.vault ≡ some cache
      → lookup_all services cache requests ≡ err e
      → is_stale_miss e ≡ true
      → fetch_secrets services client requests w
        ≡ next (refresh_if_due services client w) (retry services e requests)
  unfolding fetch_secrets try_fetch_secrets
  missed client requests cache e w v l s =
      subst
        (λ o.
          next (tried (lookup_in services o requests, w)) (after_try services client requests)
          ≡ next (refresh_if_due services client w) (retry services e requests))
        (sym v) (rw (l, s))

  -- After such a miss while the cooldown runs, `fetch_secrets` reports the miss, reads the clock
  -- once, and neither changes the session nor sends a request.
  pub fetch_secrets_cooldown :
      (client : VaultClient) (requests : List SecretRequest) (cache : VaultCache) (e : LookupError)
      (w : World)
      → w.session.vault ≡ some cache
      → lookup_all services cache requests ≡ err e
      → is_stale_miss e ≡ true
      → IsCooling client w
      → fetch_secrets services client requests w ≡ (err (lookup e), ticked w)
  unfolding refresh_if_due
  fetch_secrets_cooldown client requests cache e w v l s c =
      missed client requests cache e w v l s ∙ rw (c)

  -- the end of `fetch_secrets`, by how the refresh ended
  abbrev pub retried :
      LookupError
      → List SecretRequest
      → Result VaultError (Unit {0}) × World
      → Result VaultError (List Str) × World
  retried e requests (ok u, w1) = (lookup_in services w1.session.vault requests, w1)
  retried e requests (err x, w1) = (err (lookup e), w1)
  retried e requests (panic, w1) = (panic, w1)

  -- After such a miss with the cooldown over, one refresh runs. When it succeeds the answer is that
  -- of the lookups in the new cache; when it fails the answer is the miss.
  pub fetch_secrets-retried :
      (client : VaultClient) (requests : List SecretRequest) (cache : VaultCache) (e : LookupError)
      (w : World)
      → w.session.vault ≡ some cache
      → lookup_all services cache requests ≡ err e
      → is_stale_miss e ≡ true
      → ltb (services.net.clock w.trace - w.session.last_refresh_at) client.min_refresh_interval
        ≡ false
      → fetch_secrets services client requests w
        ≡ retried e requests (refresh_vault_cache services client (ticked w))
  unfolding refresh_if_due try_fetch_secrets
  fetch_secrets-retried client requests cache e w v l s c =
      missed client requests cache e w v l s
      ∙ rw (c, go (refresh_vault_cache services client (ticked w)))
    where
      go :
          (r : Result VaultError (Unit {0}) × World)
          → next
              (next (tried r) (λ x. pure (elim x [ inl e ↦ false | inr u ↦ true ])))
              (retry services e requests)
            ≡ retried e requests r
      go (ok u, w1) = refl
      go (err x, w1) = refl
      go (panic, w1) = refl

  -- `n` calls of `refresh_if_due`, which its lock puts one after another
  unfoldable pub callers : ℕ → VaultClient → Action World VaultError (Unit {0})
  callers zero client = pure tt
  callers (suc n) client = do ran ← refresh_if_due services client; callers n client

  -- the world after `n` readings of the clock
  unfoldable pub waited : ℕ → World → World
  waited zero w = w
  waited (suc n) w = waited n (ticked w)

  -- While no reading of the clock leaves the cooldown, any number of callers changes nothing but
  -- the clock's readings: no one sends a request, and the session stays.
  pub refresh_if_due_collapses :
      (client : VaultClient) (n : ℕ) (w : World)
      → ((k : ℕ) → k < n → IsCooling client (waited k w))
      → callers n client w ≡ (ok tt, waited n w)
  unfolding callers waited refresh_if_due
  refresh_if_due_collapses client zero w cooling = refl
  refresh_if_due_collapses client (suc n) w cooling =
      let now_cooling : IsCooling client w = cooling 0 (omega arith) in
      rw (
        now_cooling,
        refresh_if_due_collapses client n (ticked w) (λ k h. cooling (suc k) (omega arith)),
      )
