-- ===== src/Vault/Background/Laws.antt =====
-- What the background tasks of src/vault/mod.rs do to the session.
use vaultwarden_operator.Prelude.{
  ◌*◌, ◌≡◌, refl, ◌∙◌, inl, inr, Bool, true, false, some, List, [], ◌∷◌, arith, length, Result, ok,
  err, panic,
}
use vaultwarden_operator.Prelude.Actions.{next, tried, pure}
use vaultwarden_operator.Http.{read_clock, slept}
use vaultwarden_operator.Auth.{Services}
use vaultwarden_operator.Auth.Sends.{requests_of, slept_in, Sends}
use vaultwarden_operator.Sync.{VaultCache}
use vaultwarden_operator.Vault.{
  VaultError, VaultClient, World, ensure_valid_token, refresh_vault_cache, token_refresh_sleep,
}
use vaultwarden_operator.Vault.Steps.{
  Moves, still, next-Moves, attempt-Moves, ensure_valid_token-Moves,
}
use vaultwarden_operator.Vault.Refresh.{IsRefreshed, refresh_vault_cache_bounded}
use vaultwarden_operator.Vault.Background.{
  Signal, elapsed, cancelled, is_failure, token_refresh_round, start_token_refresh,
  start_vault_cache_refresh,
}

abbrev pub HasCache : World → Type 0
HasCache w = (cache : VaultCache) × (w.session.vault ≡ some cache)

module _ {RsaPrivateKey : Type 0} (services : Services RsaPrivateKey) where
  token_refresh_round-Moves :
      (client : VaultClient) (backing_off : Bool) (w : World)
      → Moves 4 w (token_refresh_round services client backing_off w).1
  unfolding token_refresh_round requests_of slept_in
  token_refresh_round-Moves client true w = (omega arith, refl, refl)
  token_refresh_round-Moves client false w =
      let w1 : World = record {
        session = w.session;
        trace =
            slept (token_refresh_sleep w.session.token_expires_at (services.net.clock w.trace))
            ∷ read_clock
            ∷ w.trace;
      } in
      let ((few, slept_on), v, l) =
        attempt-Moves 4 0 w1 (ensure_valid_token services client w1) (λ r. pure (is_failure r))
          (ensure_valid_token-Moves services client w1) (λ r w2. still 0 w2) in
      ((few, omega arith), v, l)

  -- However long the token's task runs, and whatever the server answers, it sends at most four
  -- requests per wait, and leaves the cache and its refresh time as they are.
  pub start_token_refresh_bounded :
      (client : VaultClient) (backing_off : Bool) (signals : List Signal) (w : World)
      → Moves (4 * length signals) w (start_token_refresh services client backing_off signals w).1
  unfolding start_token_refresh
  start_token_refresh_bounded client backing_off [] w = still 0 w
  start_token_refresh_bounded client backing_off (cancelled ∷ rest) w = still _ w
  start_token_refresh_bounded client backing_off (elapsed ∷ rest) w =
      let (h, v, l) =
        next-Moves 4 (4 * length rest) w (token_refresh_round services client backing_off w) _
          (token_refresh_round-Moves client backing_off w)
          (λ again w1. start_token_refresh_bounded client again rest w1) in
      (omega arith, v, l)

  refreshed-HasCache :
      (w : World) (r : Result VaultError (Unit {0}) × World)
      → IsRefreshed services w r
      → HasCache w
      → HasCache r.1
  refreshed-HasCache w r (inl (x, made)) h = made
  refreshed-HasCache w r (inr (x, v, l)) (cache, c) = (cache, v ∙ c)

  -- However long the task that refreshes the cache runs, and whatever the server answers, a session
  -- that has a cache keeps one, and the task sends at most ten requests per wait.
  pub start_vault_cache_refresh_keeps :
      (client : VaultClient) (signals : List Signal) (w : World)
      → HasCache w
      → HasCache (start_vault_cache_refresh services client signals w).1
        × Sends
            (10 * length signals)
            w.trace
            (start_vault_cache_refresh services client signals w).1.trace
  unfolding start_vault_cache_refresh
  start_vault_cache_refresh_keeps client [] w h = (h, omega arith)
  start_vault_cache_refresh_keeps client (cancelled ∷ rest) w h = (h, omega arith)
  start_vault_cache_refresh_keeps client (elapsed ∷ rest) w h =
      go (λ w1 h1. start_vault_cache_refresh_keeps client rest w1 h1)
        (refresh_vault_cache services client w) (refresh_vault_cache_bounded services client w)
    where
      go :
          ((w1 : World)
            → HasCache w1
            → HasCache (start_vault_cache_refresh services client rest w1).1
              × Sends
                  (10 * length rest)
                  w1.trace
                  (start_vault_cache_refresh services client rest w1).1.trace)
          → (r : Result VaultError (Unit {0}) × World)
          → Sends 10 w.trace r.1.trace × IsRefreshed services w r
          → HasCache (next (tried r) (λ x. start_vault_cache_refresh services client rest)).1
            × Sends
                (10 * length (elapsed ∷ rest))
                w.trace
                (next (tried r) (λ x. start_vault_cache_refresh services client rest)).1.trace
      go later (ok u, w1) (b, i) =
          let (kept, sent_rest) = later w1 (refreshed-HasCache w (ok u, w1) i h) in
          (kept, omega arith)
      go later (err e, w1) (b, i) =
          let (kept, sent_rest) = later w1 (refreshed-HasCache w (err e, w1) i h) in
          (kept, omega arith)
      go later (panic, w1) (b, i) = (refreshed-HasCache w (panic, w1) i h, omega arith)
