-- ===== src/Vault/Fetch/Laws.antt =====
-- What `fetch_secrets` of src/vault/mod.rs answers, and when it asks the server.
use vaultwarden_operator.Prelude.{
  ◌≡◌, refl, sym, ap, ◌∙◌, subst, ◌⊎◌, inl, inr, Bool, true, false, Option, none, some, List, [],
  ◌∷◌, if◌then◌else◌, Result, ok, err, panic, map_err, Str,
}
use vaultwarden_operator.Prelude.Results
use vaultwarden_operator.Prelude.Actions.{◌>>=◌, next-eq-ok, attempt, tried, fail}
use vaultwarden_operator.Auth.{Services}
use vaultwarden_operator.Sync.{DecryptedItem, VaultCache, LookupError, is_stale_miss}
use vaultwarden_operator.Sync.Lookup.{lookup_item}
use vaultwarden_operator.Sync.Extract.{extract_secret}
use vaultwarden_operator.Vault.{VaultError, lookup, SecretRequest, VaultClient, World}
use vaultwarden_operator.Vault.Fetch.{
  lookup_secret, lookup_all, lookup_in, try_fetch_secrets, refresh_if_due, retry, after_try,
  fetch_secrets,
}

module _ {RsaPrivateKey : Type 0} (services : Services RsaPrivateKey) where
  -- The values belong to the requests one by one, in their order.
  pub data Answers (cache : VaultCache) : List SecretRequest → List Str → Type 0 where
    nothing_asked : Answers cache [] []
    answer :
        (req : SecretRequest) (item : DecryptedItem) (requests : List SecretRequest)
        (values : List Str)
        → lookup_item services.unicode cache req.name req.vault ≡ ok item
        → Answers cache requests values
        → Answers cache (req ∷ requests) (extract_secret services.order item ∷ values)

  lookup_secret_sound :
      (cache : VaultCache) (req : SecretRequest) (v : Str)
      → lookup_secret services cache req ≡ ok v
      → (item : DecryptedItem) × (lookup_item services.unicode cache req.name req.vault ≡ ok item)
        × (v ≡ extract_secret services.order item)
  lookup_secret_sound cache req v e =
      let (item, found, g) =
        Results.>>=-eq-ok (lookup_item services.unicode cache req.name req.vault) _ e in
      (item, found, cc)

  pub lookup_all_sound :
      (cache : VaultCache) (requests : List SecretRequest) (values : List Str)
      → lookup_all services cache requests ≡ ok values
      → Answers cache requests values
  unfolding lookup_all
  lookup_all_sound cache [] values e = subst (Answers cache []) (ap (or_nil []) e) nothing_asked
    where
      or_nil : List Str → Result LookupError (List Str) → List Str
      or_nil d (ok vs) = vs
      or_nil d _ = d
  lookup_all_sound cache (req ∷ requests) values e =
      let (v, e1, f1) = Results.>>=-eq-ok (lookup_secret services cache req) _ e in
      let (vs, e2, f2) = Results.>>=-eq-ok (lookup_all services cache requests) _ f1 in
      let (item, found, v_eq) = lookup_secret_sound cache req v e1 in
      let values_eq : extract_secret services.order item ∷ vs ≡ values = cc in
      subst (Answers cache (req ∷ requests)) values_eq
        (answer req item requests vs found (lookup_all_sound cache requests vs e2))

  lookup_in_sound :
      (vault : Option VaultCache) (requests : List SecretRequest) (values : List Str)
      → lookup_in services vault requests ≡ ok values
      → (cache : VaultCache) × (vault ≡ some cache) × Answers cache requests values
  lookup_in_sound none requests values e = cc
  lookup_in_sound (some cache) requests values e = (
    cache,
    refl,
    lookup_all_sound cache requests values (go (lookup_all services cache requests) e),
  )
    where
      go : (r : Result LookupError (List Str)) → map_err lookup r ≡ ok values → r ≡ ok values
      go (ok vs) h = cc
      go (err x) h = cc
      go panic h = cc

  -- The answer of a world's cache.
  abbrev pub IsAnswered : World → List SecretRequest → List Str → Type 0
  IsAnswered w requests values =
      (cache : VaultCache) × (w.session.vault ≡ some cache) × Answers cache requests values

  try_fetch_secrets_sound :
      (requests : List SecretRequest) (values : List Str) (w w' : World)
      → try_fetch_secrets services requests w ≡ (ok values, w')
      → IsAnswered w' requests values
  unfolding try_fetch_secrets
  try_fetch_secrets_sound requests values w w' e =
      let (cache, v, a) = lookup_in_sound w.session.vault requests values (ap (λ r. r.0) e) in
      (cache, ap (λ r. r.1.session.vault) (sym e) ∙ v, a)

  tried_ok :
      (r : Result VaultError (List Str) × World) (values : List Str) (w : World)
      → tried {F = VaultError} r ≡ (ok (inr values), w)
      → r ≡ (ok values, w)
  tried_ok (ok vs, w') values w e = cc
  tried_ok (err x, w') values w e = cc
  tried_ok (panic, w') values w e = cc

  -- When `fetch_secrets` succeeds, its values are the secrets that the lookups in the cache of the
  -- session that it leaves find, one for each request and in the order of the requests.
  pub fetch_secrets_sound :
      (client : VaultClient) (requests : List SecretRequest) (values : List Str) (w w' : World)
      → fetch_secrets services client requests w ≡ (ok values, w')
      → IsAnswered w' requests values
  unfolding fetch_secrets
  fetch_secrets_sound client requests values w w' e =
      let (r, w1, e1, f1) = next-eq-ok (attempt (try_fetch_secrets services requests) w) _ e in
      go r w1 e1 f1
    where
      retried :
          (x : LookupError) (b : Bool) (w2 : World)
          → retry services x requests b w2 ≡ (ok values, w')
          → IsAnswered w' requests values
      retried x true w2 h = try_fetch_secrets_sound requests values w2 w' h
      retried x false w2 h = cc

      stale :
          (x : LookupError) (b : Bool) (w1 : World)
          → (if b
                then (refresh_if_due services client >>= retry services x requests)
                else fail (lookup x))
              w1
            ≡ (ok values, w')
          → IsAnswered w' requests values
      stale x true w1 h =
          let (ran, w2, e2, f2) = next-eq-ok (refresh_if_due services client w1) _ h in
          retried x ran w2 f2
      stale x false w1 h = cc

      go :
          (r : VaultError ⊎ List Str) (w1 : World)
          → attempt {F = VaultError} (try_fetch_secrets services requests) w ≡ (ok r, w1)
          → after_try services client requests r w1 ≡ (ok values, w')
          → IsAnswered w' requests values
      go (inr vs) w1 h f = try_fetch_secrets_sound requests values w w' (tried_ok _ values w' cc)
      go (inl (lookup x)) w1 h f = stale x (is_stale_miss x) w1 f
      go (inl x) w1 h f = cc
