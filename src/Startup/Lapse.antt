-- ===== src/Startup/Lapse.antt =====
-- The lease while src/main.rs initializes the vault client: the task that renews it is started only
-- afterwards.
use vaultwarden_operator.Prelude.{
  ◌+◌, ◌≤◌, ◌<◌, ◌≡◌, subst, none, ◌∷◌, arith, Result, ok, err, panic,
}
use vaultwarden_operator.Prelude.Actions.{Action, wrap}
use vaultwarden_operator.Duration.{from_secs}
use vaultwarden_operator.Http.{Trace, slept, read_clock, instant_add}
use vaultwarden_operator.Auth.{Services, Login, authenticate}
use vaultwarden_operator.Auth.Spans.{next-R, lift-R}
use vaultwarden_operator.Auth.Sends.{Sends, slept_in, requests_of, Sends-IsSpan, authenticate-Sends}
use vaultwarden_operator.Leader.{lease_ttl}
use vaultwarden_operator.Vault.{VaultError, auth, Session, VaultClient, World, refresh_vault_cache}
use vaultwarden_operator.Vault.Refresh.{refresh_vault_cache_bounded}
use vaultwarden_operator.Vault.Start.{Credentials, client_of, started, new, initialize_vault_client}
use vaultwarden_operator.Vault.Start.Laws.{or_after, initialize_vault_client_attempts}

module _ {RsaPrivateKey : Type 0} (services : Services RsaPrivateKey) where
  started-Sends :
      (client : VaultClient) (t : Trace) (r : Result VaultError (Unit {0}) × World)
      → Sends 10 t r.1.trace
      → Sends 10 t (started client r).1
  started-Sends client t (ok u, w) h = h
  started-Sends client t (err e, w) h = h
  started-Sends client t (panic, w) h = h

  -- An attempt sends at most thirteen requests, and undoes no sleep.
  new-Sends : (c : Credentials) (t : Trace) → Sends 13 t (new services c t).1
  unfolding new requests_of slept_in
  new-Sends c t =
      let client = client_of c (services.new_v4 t) in
      next-R Sends Sends-IsSpan 3 10 t
        (wrap auth
          (authenticate services client.base_url client.email client.password client.client_id
            client.client_secret client.device_id)
          t)
        _
        (authenticate-Sends services client.base_url client.email client.password client.client_id
          client.client_secret client.device_id t)
        (λ (x : Login) t1.
          lift-R Sends Sends-IsSpan 10 (read_clock ∷ t1)
            (instant_add (services.net.clock t1) (from_secs x.2)) _
            (λ at.
              let w : World = record {
                session = record {
                  access_token = x.0;
                  refresh_token = x.1;
                  token_expires_at = at;
                  sym_key = x.3;
                  vault = none;
                  last_refresh_at = services.net.clock (read_clock ∷ t1);
                };
                trace = read_clock ∷ read_clock ∷ t1;
              } in
              started-Sends client (read_clock ∷ t1) (refresh_vault_cache services client w)
                (refresh_vault_cache_bounded services client w).0))

  or_after-slept :
      (t : Trace) (r : Result VaultError (VaultClient × Session) × Trace)
      (again : Action Trace VaultError (VaultClient × Session))
      → slept_in t ≤ slept_in r.1
      → ((t1 : Trace) → slept_in t1 ≤ slept_in (again t1).1)
      → slept_in t ≤ slept_in (or_after r again).1
  or_after-slept t (ok x, t1) again h g = h
  or_after-slept t (err e, t1) again h g = let g1 = g t1 in omega arith
  or_after-slept t (panic, t1) again h g = h

  -- When the first attempt to initialize the vault client fails, the initialization sleeps longer
  -- than a lease lasts.
  pub start_outlasts_lease :
      (c : Credentials) (e : VaultError) (t t1 : Trace)
      → new services c t ≡ (err e, t1)
      → slept_in t + lease_ttl < slept_in (initialize_vault_client services c t).1
  unfolding slept_in
  start_outlasts_lease c e t t1 failed =
      let first : slept_in t ≤ slept_in t1 =
        subst (λ r. slept_in t ≤ slept_in r.1) failed (new-Sends c t).1 in
      let t2 : Trace = slept (from_secs 20) ∷ t1 in
      let rest =
        or_after-slept t2 (new services c t2) (λ t3. new services c (slept (from_secs 45) ∷ t3))
          (new-Sends c t2).1
          (λ t3. let h = (new-Sends c (slept (from_secs 45) ∷ t3)).1 in omega arith) in
      rw (initialize_vault_client_attempts services c t, failed) (omega arith)
