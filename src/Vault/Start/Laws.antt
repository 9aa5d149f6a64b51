-- ===== src/Vault/Start/Laws.antt =====
-- The attempts of `initialize_vault_client` of src/vault/mod.rs, and the client that it returns.
use vaultwarden_operator.Prelude.{
  ◌≡◌, refl, sym, ap, ◌∙◌, inl, inr, Option, none, some, ◌∷◌, Result, ok, err, panic,
}
use vaultwarden_operator.Prelude.Actions.{Action, next, next-eq-ok, wrap, tried, lift}
use vaultwarden_operator.Duration.{from_secs}
use vaultwarden_operator.Http.{read_clock, slept, Trace, instant_add}
use vaultwarden_operator.Auth.{Services, authenticate}
use vaultwarden_operator.Sync.{VaultCache}
use vaultwarden_operator.Vault.{VaultError, auth, Session, VaultClient, World, refresh_vault_cache}
use vaultwarden_operator.Vault.Refresh.{refresh_vault_cache_bounded, IsRefreshed}
use vaultwarden_operator.Vault.Start.{
  Credentials, client_of, started, new, init_attempts, initialize_vault_client,
}

module _ {A : Type 0} where
  -- a result that is no error, or what comes after the error
  abbrev pub or_after :
      Result VaultError A × Trace → Action Trace VaultError A → Result VaultError A × Trace
  or_after (ok a, t) again = (ok a, t)
  or_after (err e, t) again = again t
  or_after (panic, t) again = (panic, t)

module _ {RsaPrivateKey : Type 0} (services : Services RsaPrivateKey) where
  -- Initialization makes at most three attempts, the second 20 and the third 45 seconds after the
  -- failure before it, and ends with the first that does not fail, or else with the error of the
  -- third; it does not run into the `unreachable!()` after the loop.
  pub initialize_vault_client_attempts :
      (c : Credentials) (t : Trace)
      → initialize_vault_client services c t
        ≡ or_after (new services c t) (λ t1.
          or_after
            (new services c (slept (from_secs 20) ∷ t1))
            (λ t2. new services c (slept (from_secs 45) ∷ t2)))
  unfolding initialize_vault_client init_attempts
  initialize_vault_client_attempts c t = first (new services c t)
    where
      third :
          (r : Result VaultError (VaultClient × Session) × Trace)
          → next (tried r) (λ x t3. elim x [ inr client ↦ (ok client, t3) | inl e ↦ (err e, t3) ])
            ≡ r
      third (ok a, t3) = refl
      third (err e, t3) = refl
      third (panic, t3) = refl

      second :
          (r : Result VaultError (VaultClient × Session) × Trace)
          → next (tried r) (λ x t2. elim x [
            | inr client ↦ (ok client, t2)
            | inl e ↦ init_attempts services 1 3 c t2
          ])
            ≡ or_after r (λ t2. new services c (slept (from_secs 45) ∷ t2))
      second (ok a, t2) = refl
      second (err e, t2) = third (new services c (slept (from_secs 45) ∷ t2))
      second (panic, t2) = refl

      first :
          (r : Result VaultError (VaultClient × Session) × Trace)
          → next (tried r) (λ x t1. elim x [
            | inr client ↦ (ok client, t1)
            | inl e ↦ init_attempts services 2 2 c t1
          ])
            ≡ or_after r (λ t1.
              or_after
                (new services c (slept (from_secs 20) ∷ t1))
                (λ t2. new services c (slept (from_secs 45) ∷ t2)))
      first (ok a, t1) = refl
      first (err e, t1) = second (new services c (slept (from_secs 20) ∷ t1))
      first (panic, t1) = refl

  started-vault :
      (client client' : VaultClient) (session' : Session) (w : World) (t : Trace)
      (r : Result VaultError (Unit {0}) × World)
      → IsRefreshed services w r
      → started client r ≡ (ok (client', session'), t)
      → (cache : VaultCache) × (session'.vault ≡ some cache)
  started-vault client client' session' w t (ok u, w1) (inl (x, (cache, v))) e =
      (cache, ap (vault_of none) (sym e) ∙ v)
    where
      vault_of :
          Option VaultCache → Result VaultError (VaultClient × Session) × Trace → Option VaultCache
      vault_of d (ok (x, s), u) = s.vault
      vault_of d _ = d
  started-vault client client' session' w t (ok u, w1) (inr (x, v, l)) e = absurd (x refl)
  started-vault client client' session' w t (err x, w1) h e = cc
  started-vault client client' session' w t (panic, w1) h e = cc

  new-vault :
      (c : Credentials) (client : VaultClient) (session' : Session) (t t' : Trace)
      → new services c t ≡ (ok (client, session'), t')
      → (cache : VaultCache) × (session'.vault ≡ some cache)
  unfolding new
  new-vault c client session' t t' e =
      let cl = client_of c (services.new_v4 t) in
      let (r, t1, e1, f1) =
        next-eq-ok
          (wrap auth
            (authenticate services cl.base_url cl.email cl.password cl.client_id cl.client_secret
              cl.device_id)
            t)
          _ e in
      let (at, t2, e2, f2) =
        next-eq-ok (lift (instant_add (services.net.clock t1) (from_secs r.2)) (read_clock ∷ t1)) _
          f1 in
      let w : World = record {
        session = record {
          access_token = r.0;
          refresh_token = r.1;
          token_expires_at = at;
          sym_key = r.3;
          vault = none;
          last_refresh_at = services.net.clock t2;
        };
        trace = read_clock ∷ t2;
      } in
      started-vault cl client session' w t' (refresh_vault_cache services cl w)
        (refresh_vault_cache_bounded services cl w).1 f2

  -- The client that initialization returns has a cache.
  pub initialize_vault_client-vault :
      (c : Credentials) (client : VaultClient) (session' : Session) (t t' : Trace)
      → initialize_vault_client services c t ≡ (ok (client, session'), t')
      → (cache : VaultCache) × (session'.vault ≡ some cache)
  initialize_vault_client-vault c client session' t t' e =
      first (new services c t) refl (sym (initialize_vault_client_attempts c t) ∙ e)
    where
      second :
          (t1 : Trace) (r : Result VaultError (VaultClient × Session) × Trace)
          → new services c t1 ≡ r
          → or_after r (λ t2. new services c (slept (from_secs 45) ∷ t2))
            ≡ (ok (client, session'), t')
          → (cache : VaultCache) × (session'.vault ≡ some cache)
      second t1 (ok a, t2) n h = new-vault c client session' t1 t' (n ∙ h)
      second t1 (err x, t2) n h = new-vault c client session' (slept (from_secs 45) ∷ t2) t' h
      second t1 (panic, t2) n h = cc

      first :
          (r : Result VaultError (VaultClient × Session) × Trace)
          → new services c t ≡ r
          → or_after r (λ t1.
            or_after
              (new services c (slept (from_secs 20) ∷ t1))
              (λ t2. new services c (slept (from_secs 45) ∷ t2)))
            ≡ (ok (client, session'), t')
          → (cache : VaultCache) × (session'.vault ≡ some cache)
      first (ok a, t1) n h = new-vault c client session' t t' (n ∙ h)
      first (err x, t1) n h =
          second (slept (from_secs 20) ∷ t1) (new services c (slept (from_secs 20) ∷ t1)) refl h
      first (panic, t1) n h = cc
