-- ===== src/Startup/Sound.antt =====
-- What an operator of src/main.rs that has started was given, and has made of it.
use vaultwarden_operator.Prelude.{
  ◌<◌, ◌≡◌, refl, ap, subst, Option, some, arith, Result, ok, err, panic, map_err, Option-cases,
  inl, inr, Str, codes,
}
use vaultwarden_operator.Prelude.Actions.{Action, next, next-eq-ok, wrap, lift}
use vaultwarden_operator.Duration.{Duration}
use vaultwarden_operator.Http.{Trace}
use vaultwarden_operator.Auth.{Services}
use vaultwarden_operator.Sync.{VaultCache}
use vaultwarden_operator.Vault.{VaultError, Session, VaultClient}
use vaultwarden_operator.Vault.Start.{Credentials, initialize_vault_client}
use vaultwarden_operator.Vault.Start.Laws.{initialize_vault_client-vault}
use vaultwarden_operator.Startup.{
  default_vault_cache_refresh_interval, default_vault_cache_min_refresh_interval, env_duration,
  optional_env,
}
use vaultwarden_operator.Startup.Durations.{env_duration_positive}
use vaultwarden_operator.Startup.Main.{StartError, vault, required_env, Operator, start}

module _ {RsaPrivateKey : Type 0} (services : Services RsaPrivateKey) where
  -- the credentials of a start
  abbrev pub given :
      (env : Str → Option Str) (url email password : Str) (interval : Duration) → Credentials
  given env url email password interval = record {
    base_url = url;
    email = email;
    password = password;
    client_id = optional_env env (codes "VAULTWARDEN_CLIENT_ID");
    client_secret = optional_env env (codes "VAULTWARDEN_CLIENT_SECRET");
    min_refresh_interval = interval;
  }

  -- A step that only reads leaves the trace as it is.
  next-lift-ok :
      {A B : Type 0} (r : Result StartError A) (f : A → Action Trace StartError B) (t t' : Trace)
      (b : B)
      → next (lift r t) f ≡ (ok b, t')
      → (a : A) × (r ≡ ok a) × (f a t ≡ (ok b, t'))
  next-lift-ok (ok a) f t t' b e = (a, refl, e)
  next-lift-ok (err x) f t t' b e = cc
  next-lift-ok panic f t t' b e = cc

  required_env-ok :
      (env : Str → Option Str) (key value : Str)
      → required_env env key ≡ ok value
      → env key ≡ some value
  unfolding required_env
  required_env-ok env key value e = elim (Option-cases (env key)) [
    | inl h ↦ let x = rw h at e in cc
    | inr (v, h) ↦ let x = rw h at e in cc
  ]

  absurd-ok :
      {A : Type 0} (r : Result ⊥ A) (a : A)
      → map_err {F = StartError} (λ e. absurd e) r ≡ ok a
      → r ≡ ok a
  absurd-ok (ok x) a h = cc
  absurd-ok (err e) a h = absurd e
  absurd-ok panic a h = cc

  next-required_env-ok :
      {B : Type 0} (env : Str → Option Str) (key : Str) (f : Str → Action Trace StartError B)
      (t t' : Trace) (b : B)
      → next (lift (required_env env key) t) f ≡ (ok b, t')
      → (value : Str) × (env key ≡ some value) × (f value t ≡ (ok b, t'))
  next-required_env-ok env key f t t' b e =
      let (value, r, e') = next-lift-ok (required_env env key) f t t' b e in
      (value, required_env-ok env key value r, e')

  next-env_duration-ok :
      {B : Type 0} (env : Str → Option Str) (key : Str) (default : Duration)
      (f : Duration → Action Trace StartError B) (t t' : Trace) (b : B)
      → 0 < default
      → next (lift (map_err (λ e. absurd e) (env_duration env key default)) t) f ≡ (ok b, t')
      → (d : Duration) × (0 < d) × (f d t ≡ (ok b, t'))
  next-env_duration-ok env key default f t t' b positive e =
      let (d, r, e') =
        next-lift-ok (map_err (λ e. absurd e) (env_duration env key default)) f t t' b e in
      (
        d,
        (env_duration_positive env key default d positive
            (absurd-ok (env_duration env key default) d r)).0,
        e',
      )

  wrapped :
      {A : Type 0} (r : Result VaultError A × Trace) (a : A) (t1 : Trace)
      → ◌≡◌ {A = Result StartError A × Trace} (map_err vault r.0, r.1) (ok a, t1)
      → r ≡ (ok a, t1)
  wrapped (ok x, t) a t1 h = cc
  wrapped (err e, t) a t1 h = cc
  wrapped (panic, t) a t1 h = cc

  abbrev operator_of : Operator → Result StartError Operator × Trace → Operator
  operator_of other (ok operator, t) = operator
  operator_of other _ = other

  same_client :
      (c : Credentials) (client : VaultClient) (session : Session) (t t6 t' : Trace)
      (operator : Operator)
      → initialize_vault_client services c t ≡ (ok (client, session), t6)
      → client ≡ operator.vault_client
      → session ≡ operator.session
      → t6 ≡ t'
      → initialize_vault_client services c t ≡ (ok (operator.vault_client, operator.session), t')
  same_client c client session t t6 t' operator made ec es et = cc

  -- What a start has been given, and has made of it.
  abbrev pub IsStarted : (env : Str → Option Str) → Trace → Trace → Operator → Type 0
  IsStarted env t t' operator =
      (url email password : Str) × (interval : Duration) × (env (codes "VAULTWARDEN_URL")
        ≡ some url)
      × (env (codes "VAULTWARDEN_EMAIL") ≡ some email)
      × (env (codes "VAULTWARDEN_PASSWORD") ≡ some password)
      × (0 < interval)
      × (0 < operator.cache_refresh_interval)
      × (initialize_vault_client services (given env url email password interval) t
          ≡ (ok (operator.vault_client, operator.session), t'))
      × ((cache : VaultCache) × (operator.session.vault ≡ some cache))

  -- An operator that has started was given the three variables that it must have; both intervals
  -- are positive, and initialization has made its client, with a cache, of what was given.
  pub start_sound :
      (env : Str → Option Str) (t t' : Trace) (operator : Operator)
      → start services env t ≡ (ok operator, t')
      → IsStarted env t t' operator
  unfolding start
  start_sound env t t' operator e =
      let (url, u, e1) = next-required_env-ok env _ _ t t' operator e in
      let (email, m, e2) = next-required_env-ok env _ _ t t' operator e1 in
      let (password, p, e3) = next-required_env-ok env _ _ t t' operator e2 in
      let (every, often, e4) =
        next-env_duration-ok env _ default_vault_cache_refresh_interval _ t t' operator
          (omega arith) e3 in
      let (interval, cool, e5) =
        next-env_duration-ok env _ default_vault_cache_min_refresh_interval _ t t' operator
          (omega arith) e4 in
      let credentials = given env url email password interval in
      let ((client, session), t6, w, e6) =
        next-eq-ok (wrap vault (initialize_vault_client services credentials) t) _ e5 in
      let made = wrapped (initialize_vault_client services credentials t) (client, session) t6 w in
      let same = ap (operator_of operator) e6 in
      (
        url,
        email,
        password,
        interval,
        u,
        m,
        p,
        cool,
        subst (λ o. 0 < o.cache_refresh_interval) same often,
        same_client credentials client session t t6 t' operator made (ap (λ o. o.vault_client) same)
            (ap (λ o. o.session) same) (ap (λ r. r.1) e6),
        subst (λ o. (cache : VaultCache) × (o.session.vault ≡ some cache)) same
            (initialize_vault_client-vault services credentials client session t t6 made),
      )
