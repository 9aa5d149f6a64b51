-- ===== src/Vault/Refresh.antt =====
-- What `refresh_vault_cache` of src/vault/mod.rs does to the session.
use vaultwarden_operator.Prelude.{
  ◌≡◌, refl, sym, ap, subst, ◌≢◌, ◌⊎◌, inl, inr, some, ◌∷◌, Result, ok, err, panic, map_err, Str,
}
use vaultwarden_operator.Prelude.Actions.{Action, next, ◌>>=◌, next-eq-ok, attempt, tried, pure}
use vaultwarden_operator.Http.{read_clock, Trace, now}
use vaultwarden_operator.Auth.{Services}
use vaultwarden_operator.Sync.{SyncResponse, VaultCache, DecryptSkips}
use vaultwarden_operator.Sync.Decrypt.{decrypt_vault}
use vaultwarden_operator.Sync.Fetch.{SyncError, unauthorized, fetch_sync}
use vaultwarden_operator.Vault.{
  VaultError, sync, with_trace, Session, VaultClient, World, outside, modify, set_cache,
  do_refresh_or_reauth, ensure_valid_token, after_sync, sync_and_decrypt, refresh_vault_cache,
}
use vaultwarden_operator.Auth.Sends.{requests_of, slept_in, Sends}
use vaultwarden_operator.Vault.Steps.{
  Moves, next-Moves, ensure_valid_token-Moves, sync_and_decrypt-Moves,
}

module _ {RsaPrivateKey : Type 0} (services : Services RsaPrivateKey) where
  -- a refresh up to the cache that it stores
  abbrev pub fresh_cache : VaultClient → Action World VaultError VaultCache
  fresh_cache client = do u ← ensure_valid_token services client; sync_and_decrypt services client

  fresh_cache-Moves : (client : VaultClient) (w : World) → Moves 10 w (fresh_cache client w).1
  fresh_cache-Moves client w =
      next-Moves 4 6 w (ensure_valid_token services client w) _
        (ensure_valid_token-Moves services client w)
        (λ u w1. sync_and_decrypt-Moves services client w1)

  -- the end of a refresh
  abbrev pub stored : VaultCache → Action World VaultError (Unit {0})
  stored cache = do t ← outside (now services.net); modify (set_cache cache t)

  pub refresh-fresh_cache :
      (client : VaultClient) (w : World)
      → refresh_vault_cache services client w ≡ next (fresh_cache client w) stored
  unfolding refresh_vault_cache
  refresh-fresh_cache client w = go (ensure_valid_token services client w)
    where
      go :
          (r : Result VaultError (Unit {0}) × World)
          → next r (λ u. sync_and_decrypt services client >>= stored)
            ≡ next (next r (λ u. sync_and_decrypt services client)) stored
      go (ok u, w1) = refl
      go (err e, w1) = refl
      go (panic, w1) = refl

  -- What a refresh leaves: either it succeeded and the session has a new cache, or it did not and
  -- the session has the cache and the refresh time of before.
  abbrev pub IsRefreshed : World → Result VaultError (Unit {0}) × World → Type 0
  IsRefreshed w (r, w') =
      ((r ≡ ok tt) × ((cache : VaultCache) × (w'.session.vault ≡ some cache)))
      ⊎ ((r ≢ ok tt)
          × (w'.session.vault ≡ w.session.vault)
          × (w'.session.last_refresh_at ≡ w.session.last_refresh_at))

  -- A refresh sends at most ten requests, whatever the server answers; when it does not succeed, the
  -- session keeps the cache and the refresh time that it had.
  pub refresh_vault_cache_bounded :
      (client : VaultClient) (w : World)
      → Sends 10 w.trace (refresh_vault_cache services client w).1.trace
        × IsRefreshed w (refresh_vault_cache services client w)
  unfolding requests_of slept_in
  refresh_vault_cache_bounded client w =
      subst (λ r. Sends 10 w.trace r.1.trace × IsRefreshed w r) (sym (refresh-fresh_cache client w))
        (go (fresh_cache client w) (fresh_cache-Moves client w))
    where
      go :
          (r : Result VaultError VaultCache × World)
          → Moves 10 w r.1
          → Sends 10 w.trace (next r stored).1.trace × IsRefreshed w (next r stored)
      go (ok cache, w1) (h, v, l) = (h, inl (refl, (cache, refl)))
      go (err e, w1) (h, v, l) = (h, inr ((λ x. cc), v, l))
      go (panic, w1) (h, v, l) = (h, inr ((λ x. cc), v, l))

  -- One of the server's sync responses.
  abbrev pub IsFetched : VaultClient → SyncResponse → Type 0
  IsFetched client resp =
      (token : Str) × (t t' : Trace) × (fetch_sync services client.base_url token t ≡ (ok resp, t'))

  outside-IsFetched :
      (client : VaultClient) (token : Str) (t : Trace) (s : Session)
      (r : Result SyncError SyncResponse × Trace) (resp : SyncResponse) (w : World)
      → fetch_sync services client.base_url token t ≡ r
      → tried {F = VaultError} (with_trace s r) ≡ (ok (inr resp), w)
      → IsFetched client resp
  outside-IsFetched client token t s (ok a, t') resp w e h = (token, t, t', cc)
  outside-IsFetched client token t s (err x, t') resp w e h = cc
  outside-IsFetched client token t s (panic, t') resp w e h = cc

  wrap-IsFetched :
      (client : VaultClient) (token : Str) (t : Trace) (s : Session)
      (r : Result SyncError SyncResponse × Trace) (resp : SyncResponse) (w : World)
      → fetch_sync services client.base_url token t ≡ r
      → with_trace s (map_err sync r.0, r.1) ≡ (ok resp, w)
      → IsFetched client resp
  wrap-IsFetched client token t s (ok a, t') resp w e h = (token, t, t', cc)
  wrap-IsFetched client token t s (err x, t') resp w e h = cc
  wrap-IsFetched client token t s (panic, t') resp w e h = cc

  after_sync-IsFetched :
      (client : VaultClient) (r : SyncError ⊎ SyncResponse) (resp : SyncResponse) (w w' w0 : World)
      → attempt {F = VaultError}
          (outside (fetch_sync services client.base_url w0.session.access_token))
          w0
        ≡ (ok r, w)
      → after_sync services client r w ≡ (ok resp, w')
      → IsFetched client resp
  unfolding after_sync
  after_sync-IsFetched client (inr resp') resp w w' w0 e h =
      outside-IsFetched client w0.session.access_token w0.trace w0.session _ resp w refl cc
  after_sync-IsFetched client (inl unauthorized) resp w w' w0 e h =
      let (u, w2, e2, f2) = next-eq-ok (do_refresh_or_reauth services client w) _ h in
      wrap-IsFetched client w2.session.access_token w2.trace w2.session _ resp w' refl f2
  after_sync-IsFetched client (inl x) resp w w' w0 e h = cc

  decrypted :
      (d : Result ⊥ (VaultCache × DecryptSkips)) (w w' : World) (cache : VaultCache)
      → next (map_err {F = VaultError} (λ e. absurd e) d, w) (λ r. pure r.0) ≡ (ok cache, w')
      → (skips : DecryptSkips) × (d ≡ ok (cache, skips))
  decrypted (ok (c, skips)) w w' cache e = (skips, cc)
  decrypted (err x) w w' cache e = absurd x
  decrypted panic w w' cache e = cc

  sync_and_decrypt_sound :
      (client : VaultClient) (w w' : World) (cache : VaultCache)
      → sync_and_decrypt services client w ≡ (ok cache, w')
      → (resp : SyncResponse) × (skips : DecryptSkips) × IsFetched client resp
        × (decrypt_vault services.crates services.unicode resp w.session.sym_key
            ≡ ok (cache, skips))
  unfolding sync_and_decrypt
  sync_and_decrypt_sound client w w' cache e =
      let (r, w1, e1, f1) =
        next-eq-ok
          (attempt (outside (fetch_sync services client.base_url w.session.access_token)) w) _ e in
      let (resp, w2, e2, f2) = next-eq-ok (after_sync services client r w1) _ f1 in
      let (skips, d) =
        decrypted (decrypt_vault services.crates services.unicode resp w.session.sym_key) w2 w'
          cache f2 in
      (resp, skips, after_sync-IsFetched client r resp w1 w2 w e1 e2, d)

  -- After a successful refresh the cache is what `decrypt_vault` makes of a response that
  -- `fetch_sync` got, under the key that the session had when the check of its token was done, and
  -- the session's refresh time is the last instant that was read.
  pub refresh_vault_cache_sound :
      (client : VaultClient) (w w' : World)
      → refresh_vault_cache services client w ≡ (ok tt, w')
      → (w1 : World) × (resp : SyncResponse) × (cache : VaultCache) × (skips : DecryptSkips)
        × (t : Trace) × (ensure_valid_token services client w ≡ (ok tt, w1))
        × IsFetched client resp
        × (decrypt_vault services.crates services.unicode resp w1.session.sym_key
            ≡ ok (cache, skips))
        × (w'.session.vault ≡ some cache)
        × (w'.trace ≡ read_clock ∷ t)
        × (w'.session.last_refresh_at ≡ services.net.clock t)
  unfolding refresh_vault_cache
  refresh_vault_cache_sound client w w' e =
      let (u, w1, e1, f1) = next-eq-ok (ensure_valid_token services client w) _ e in
      let (cache, w2, e2, f2) = next-eq-ok (sync_and_decrypt services client w1) _ f1 in
      let (resp, skips, fetched, d) = sync_and_decrypt_sound client w1 w2 cache e2 in
      (
        w1,
        resp,
        cache,
        skips,
        w2.trace,
        e1,
        fetched,
        d,
        ap (λ r. r.1.session.vault) (sym f2),
        ap (λ r. r.1.trace) (sym f2),
        ap (λ r. r.1.session.last_refresh_at) (sym f2),
      )
