-- ===== src/Vault/Steps.antt =====
-- How far the methods of src/vault/mod.rs move a session: the requests that they send, and the cache
-- that they keep.
use vaultwarden_operator.Prelude.{
  ℕ, ◌+◌, ◌≡◌, refl, ◌∙◌, ◌⊎◌, inl, inr, Bool, true, false, Option, some, ◌∷◌, arith, leb,
  if◌then◌else◌, Result, ok, err, panic, map_err, Str,
}
use vaultwarden_operator.Prelude.Actions.{Action, next, wrap, tried, pure}
use vaultwarden_operator.Duration.{from_secs}
use vaultwarden_operator.Http.{read_clock, instant_add}
use vaultwarden_operator.Auth.{AuthError, Services, Login, authenticate, refresh_token}
use vaultwarden_operator.Auth.Sends.{
  requests_of, slept_in, Sends, authenticate-Sends, refresh_token-Sends, fetch_sync-Sends,
}
use vaultwarden_operator.Sync.Decrypt.{decrypt_vault}
use vaultwarden_operator.Sync.Fetch.{SyncError, unauthorized, fetch_sync}
use vaultwarden_operator.Vault.{
  auth, VaultClient, World, outside, set_tokens, expire_in, re_authenticate, after_refresh,
  do_refresh_or_reauth, ensure_valid_token, after_sync, sync_and_decrypt,
}

-- At most `k` requests lie between the worlds, and the session keeps its cache and the time of its refresh.
abbrev pub Moves : ℕ → World → World → Type 0
Moves k w w' =
    Sends k w.trace w'.trace
    × (w'.session.vault ≡ w.session.vault)
    × (w'.session.last_refresh_at ≡ w.session.last_refresh_at)

pub still : (k : ℕ) (w : World) → Moves k w w
still k w = (omega arith, refl, refl)

module _ {E : Type 0} {A B : Type 0} where
  pub next-Moves :
      (j k : ℕ) (w : World) (r : Result E A × World) (f : A → Action World E B)
      → Moves j w r.1
      → ((a : A) (w' : World) → Moves k w' (f a w').1)
      → Moves (j + k) w (next r f).1
  next-Moves j k w (ok a, w') f (h, v, l) g =
      let (h', v', l') = g a w' in (omega arith, v' ∙ v, l' ∙ l)
  next-Moves j k w (err e, w') f (h, v, l) g = (omega arith, v, l)
  next-Moves j k w (panic, w') f (h, v, l) g = (omega arith, v, l)

module _ {E : Type 0} {A B : Type 0} where
  lift-Moves :
      (k : ℕ) (w : World) (r : Result E A) (f : A → Action World E B)
      → ((a : A) → Moves k w (f a w).1)
      → Moves k w (next (r, w) f).1
  lift-Moves k w (ok a) f h = h a
  lift-Moves k w (err e) f h = (omega arith, refl, refl)
  lift-Moves k w panic f h = (omega arith, refl, refl)

module _ {E : Type 0} {A : Type 0} where
  if-Moves :
      (k : ℕ) (w : World) (b : Bool) (m n : Action World E A)
      → Moves k w (m w).1
      → Moves k w (n w).1
      → Moves k w ((if b then m else n) w).1
  if-Moves k w true m n h g = h
  if-Moves k w false m n h g = g

module _ {E F : Type 0} {A B : Type 0} where
  -- the same through an `attempt`
  pub attempt-Moves :
      (j k : ℕ) (w : World) (r : Result E A × World) (f : E ⊎ A → Action World F B)
      → Moves j w r.1
      → ((a : E ⊎ A) (w' : World) → Moves k w' (f a w').1)
      → Moves (j + k) w (next (tried r) f).1
  attempt-Moves j k w (ok a, w') f h g = next-Moves j k w (ok (inr a), w') f h g
  attempt-Moves j k w (err e, w') f h g = next-Moves j k w (ok (inl e), w') f h g
  attempt-Moves j k w (panic, w') f (h, v, l) g = (omega arith, v, l)

module _ {RsaPrivateKey : Type 0} (services : Services RsaPrivateKey) where
  expire_in-Moves : (n : ℕ) (w : World) → Moves 0 w (expire_in services n w).1
  unfolding requests_of slept_in
  expire_in-Moves n w =
      let w1 : World = record { session = w.session; trace = read_clock ∷ w.trace } in
      lift-Moves 0 w1 (instant_add (services.net.clock w.trace) (from_secs n)) _ (λ at. still 0 w1)

  re_authenticate-Moves :
      (client : VaultClient) (w : World) → Moves 3 w (re_authenticate services client w).1
  unfolding re_authenticate
  re_authenticate-Moves client w =
      next-Moves 3 0 w
        (outside
          (wrap auth (
            authenticate services client.base_url client.email client.password client.client_id
              client.client_secret client.device_id))
          w)
        _
        (
          authenticate-Sends services client.base_url client.email client.password client.client_id
              client.client_secret client.device_id w.trace,
          refl,
          refl,
        )
        (λ (r : Login) w1.
          next-Moves 0 0 (after r w1) (expire_in services r.2 (after r w1)) _
            (expire_in-Moves r.2 (after r w1)) (λ v w3. still 0 w3))
    where
      after : Login → World → World
      after r w1 = record { session = set_tokens r.0 (some r.1) w1.session; trace = w1.trace }

  after_refresh-Moves :
      (client : VaultClient) (r : AuthError ⊎ (Str × Option Str × ℕ)) (w : World)
      → Moves 3 w (after_refresh services client r w).1
  unfolding after_refresh
  after_refresh-Moves client (inl e) w = re_authenticate-Moves client w
  after_refresh-Moves client (inr r) w =
      let m =
        expire_in-Moves r.2 (record { session = set_tokens r.0 r.1 w.session; trace = w.trace }) in
      (omega arith, m.1, m.2)

  do_refresh_or_reauth-Moves :
      (client : VaultClient) (w : World) → Moves 4 w (do_refresh_or_reauth services client w).1
  unfolding do_refresh_or_reauth
  do_refresh_or_reauth-Moves client w =
      attempt-Moves 1 3 w
        (outside (refresh_token services client.base_url w.session.refresh_token) w) _
        (refresh_token-Sends services client.base_url w.session.refresh_token w.trace, refl, refl)
        (after_refresh-Moves client)

  pub ensure_valid_token-Moves :
      (client : VaultClient) (w : World) → Moves 4 w (ensure_valid_token services client w).1
  unfolding ensure_valid_token requests_of slept_in
  ensure_valid_token-Moves client w =
      let w1 : World = record { session = w.session; trace = read_clock ∷ w.trace } in
      lift-Moves 4 w1 (instant_add (services.net.clock w.trace) (from_secs 60)) _ (λ soon.
        if-Moves 4 w1 (leb w.session.token_expires_at soon) (do_refresh_or_reauth services client)
          (pure tt) (do_refresh_or_reauth-Moves client w1) (still 4 w1))

  after_sync-Moves :
      (client : VaultClient) (r : SyncError ⊎ _) (w : World)
      → Moves 5 w (after_sync services client r w).1
  unfolding after_sync
  after_sync-Moves client (inr resp) w = (omega arith, refl, refl)
  after_sync-Moves client (inl unauthorized) w =
      next-Moves 4 1 w (do_refresh_or_reauth services client w) _
        (do_refresh_or_reauth-Moves client w)
        (λ u w1.
          (fetch_sync-Sends services client.base_url w1.session.access_token w1.trace, refl, refl))
  after_sync-Moves client (inl e) w = (omega arith, refl, refl)

  pub sync_and_decrypt-Moves :
      (client : VaultClient) (w : World) → Moves 6 w (sync_and_decrypt services client w).1
  unfolding sync_and_decrypt
  sync_and_decrypt-Moves client w =
      attempt-Moves 1 5 w (outside (fetch_sync services client.base_url w.session.access_token) w) _
        (fetch_sync-Sends services client.base_url w.session.access_token w.trace, refl, refl)
        (λ r w1.
          next-Moves 5 0 w1 (after_sync services client r w1) _ (after_sync-Moves client r w1)
            (λ resp w2.
              lift-Moves 0 w2
                (map_err (λ e. absurd e)
                  (decrypt_vault services.crates services.unicode resp w.session.sym_key))
                _ (λ c. still 0 w2)))
