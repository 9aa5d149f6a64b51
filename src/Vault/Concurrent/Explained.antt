-- ===== src/Vault/Concurrent/Explained.antt =====
-- What the parts of a move of src/vault/mod.rs keep of where the tasks' findings come from.
use vaultwarden_operator.Prelude.{
  ℕ, ◌≡◌, refl, sym, ◌∙◌, subst, ◌⊎◌, inl, inr, true, false, Option, In, none, some, List, Result,
  ok, err, panic, Str,
}
use vaultwarden_operator.Auth.{Services}
use vaultwarden_operator.Crypto.{SymmetricKey}
use vaultwarden_operator.Sync.{SyncResponse, VaultCache, DecryptSkips, LookupError}
use vaultwarden_operator.Sync.Decrypt.{decrypt_vault}
use vaultwarden_operator.Sync.Fetch.{unauthorized}
use vaultwarden_operator.Vault.{VaultError, SecretRequest, Session}
use vaultwarden_operator.Vault
use vaultwarden_operator.Vault.Fetch.{lookup_in}
use vaultwarden_operator.Vault.Tasks.{
  Goal, Caller, after_401, Pc, renewing, syncing, resyncing, synced, unwinding, Choice, sync, Event,
  fetched, stored, Shared, is_on_demand, for_on_demand, finish, go_on, after_sync, after_resync,
  store_expiry, store_cache, log_event, take_lock,
}
use vaultwarden_operator.Vault.Concurrent.Claims.{
  Finding, goal_claim, caller_claim, claim, response_of, Follows, finish-Follows, go_on-Follows,
}

module _ {RsaPrivateKey : Type 0} (services : Services RsaPrivateKey) (first : VaultCache) where
  -- The cache is the first one, or was stored: made of a response that was fetched.
  abbrev pub IsHeld : List Event → VaultCache → Type 0
  IsHeld log cache =
      (cache ≡ first)
      ⊎ ((g : Goal) × (resp : SyncResponse) × (key : SymmetricKey) × (skips : DecryptSkips) × In
            (stored g cache) log
          × In (fetched resp) log
          × (decrypt_vault services.crates services.unicode resp key ≡ ok (cache, skips)))

  -- The result is that of all the lookups in one cache.
  abbrev pub IsExplained : List Event → List SecretRequest → Result VaultError (List Str) → Type 0
  IsExplained log requests r =
      (cache : VaultCache) × IsHeld log cache × (lookup_in services (some cache) requests ≡ r)

  abbrev pub HasHeld : Shared → Type 0
  HasHeld m = (cache : VaultCache) × (m.session.vault ≡ some cache) × IsHeld m.log cache

  abbrev pub IsBacked : List Event → Finding → Type 0
  IsBacked log f =
      (requests : List SecretRequest) (r : Result VaultError (List Str))
      → f ≡ some (requests, r)
      → IsExplained log requests r

  abbrev pub IsTold : Shared → Pc → Type 0
  IsTold m p =
      IsBacked m.log (claim p)
      × ((resp : SyncResponse) → response_of p ≡ some resp → In (fetched resp) m.log)

  abbrev pub Grows : Shared → Shared → Type 0
  Grows m m' = (e : Event) → In e m.log → In e m'.log

  abbrev pub TellStep : Shared → Shared × Pc → Type 0
  TellStep m (m', p') = HasHeld m' × IsTold m' p' × Grows m m'

  grown-IsHeld :
      (m m' : Shared) (cache : VaultCache) → Grows m m' → IsHeld m.log cache → IsHeld m'.log cache
  grown-IsHeld m m' cache grows (inl same) = inl same
  grown-IsHeld m m' cache grows (inr (g, resp, key, skips, s, f, d)) =
      inr (g, resp, key, skips, grows (stored g cache) s, grows (fetched resp) f, d)

  grown-IsExplained :
      (m m' : Shared) (requests : List SecretRequest) (r : Result VaultError (List Str))
      → Grows m m'
      → IsExplained m.log requests r
      → IsExplained m'.log requests r
  grown-IsExplained m m' requests r grows (cache, held, e) =
      (cache, grown-IsHeld m m' cache grows held, e)

  pub grown-IsTold : (m m' : Shared) (p : Pc) → Grows m m' → IsTold m p → IsTold m' p
  grown-IsTold m m' p grows (told, got) = (
    λ requests r h. grown-IsExplained m m' requests r grows (told requests r h),
    λ resp h. grows (fetched resp) (got resp h),
  )

  -- a move to a place that claims no more than what is backed
  pub follows :
      (m : Shared) (f : Finding) (p' : Pc)
      → Follows f p'
      → HasHeld m
      → IsBacked m.log f
      → TellStep m (m, p')
  follows m f p' (inl same, n) held told =
      (held, ((λ requests r h. told requests r (sym same ∙ h)), (λ resp h. cc)), (λ e h. h))
  follows m f p' (inr nothing_claimed, n) held told =
      (held, ((λ requests r h. cc), (λ resp h. cc)), (λ e h. h))

  -- a try looks into the session's cache
  pub looked :
      (m : Shared) (requests : List SecretRequest)
      → HasHeld m
      → IsBacked m.log (some (requests, lookup_in services m.session.vault requests))
  looked m requests (cache, v, held) requests' r h =
      let vault = m.session.vault in
      let same : requests ≡ requests' = cc in
      let result : lookup_in services vault requests ≡ r = cc in
      (
        cache,
        held,
        subst (λ o. lookup_in services o requests' ≡ r) v
            (subst (λ q. lookup_in services vault q ≡ r) same result),
      )

  got-TellStep :
      (m : Shared)
      → HasHeld m
      → (g : Goal) (resp : SyncResponse) (key : SymmetricKey) → IsBacked m.log (goal_claim g)
      → TellStep m (log_event (fetched resp) m, synced g resp key)
  got-TellStep m (cache, v, held) g resp key told =
      let m' : Shared = log_event (fetched resp) m in
      let back =
        λ (requests : List SecretRequest) (r : Result VaultError (List Str))
            (h : goal_claim g ≡ some (requests, r)).
          grown-IsExplained m m' requests r (λ e h. inr h) (told requests r h) in
      ((cache, v, grown-IsHeld m m' cache (λ e h. inr h) held), (back, λ x h. inl cc), λ e h. inr h)

  module _ (m : Shared) (held : HasHeld m) where
    pub after_sync-TellStep :
        (g : Goal) (token : Str) (key : SymmetricKey) (c : Choice)
        → IsBacked m.log (goal_claim g)
        → TellStep m (after_sync m g token key c)
    after_sync-TellStep g token key (sync (ok resp)) told = got-TellStep m held g resp key told
    after_sync-TellStep g token key (sync (err unauthorized)) told =
        follows m (goal_claim g) (renewing (after_401 g key)) (inl refl, refl) held told
    after_sync-TellStep g token key (sync (err e)) told =
        follows m (goal_claim g) (finish g false) (finish-Follows g false) held told
    after_sync-TellStep g token key (sync panic) told =
        follows m (goal_claim g) (unwinding (is_on_demand g)) (inr refl, refl) held told
    after_sync-TellStep g token key c told =
        follows m (goal_claim g) (syncing g token key) (inl refl, refl) held told

    pub after_resync-TellStep :
        (g : Goal) (token : Str) (key : SymmetricKey) (c : Choice)
        → IsBacked m.log (goal_claim g)
        → TellStep m (after_resync m g token key c)
    after_resync-TellStep g token key (sync (ok resp)) told = got-TellStep m held g resp key told
    after_resync-TellStep g token key (sync (err e)) told =
        follows m (goal_claim g) (finish g false) (finish-Follows g false) held told
    after_resync-TellStep g token key (sync panic) told =
        follows m (goal_claim g) (unwinding (is_on_demand g)) (inr refl, refl) held told
    after_resync-TellStep g token key c told =
        follows m (goal_claim g) (resyncing g token key) (inl refl, refl) held told

    pub store_expiry-TellStep :
        (who : Caller) (s : Session) (finishing : ℕ → Session → Session) (r : Result ⊥ ℕ)
        → s.vault ≡ m.session.vault
        → ((at : ℕ) → (finishing at s).vault ≡ m.session.vault)
        → IsBacked m.log (caller_claim who)
        → TellStep m (store_expiry who m s finishing r)
    store_expiry-TellStep who s finishing (ok at) e f told =
        let (x, t, grows) =
          follows m (caller_claim who) (go_on who) (go_on-Follows who) held told in
        ((held.0, f at ∙ held.1, held.2), t, grows)
    store_expiry-TellStep who s finishing (err x) e f told = absurd x
    store_expiry-TellStep who s finishing panic e f told =
        let (x, t, grows) =
          follows m (caller_claim who) (unwinding (for_on_demand who)) (inr refl, refl) held told in
        ((held.0, e ∙ held.1, held.2), t, grows)

    pub store_cache-TellStep :
        (g : Goal) (resp : SyncResponse) (key : SymmetricKey)
        (r : Result ⊥ (VaultCache × DecryptSkips))
        → decrypt_vault services.crates services.unicode resp key ≡ r
        → IsBacked m.log (goal_claim g)
        → In (fetched resp) m.log
        → TellStep m (store_cache g m r)
    store_cache-TellStep g resp key (ok (cache, skips)) d told got =
        let (x, t, y) =
          follows m (goal_claim g) (finish g true) (finish-Follows g true) held told in
        let m' : Shared = (store_cache g m (ok (cache, skips))).0 in
        (
          (cache, refl, inr (g, resp, key, skips, inl refl, inr got, d)),
          grown-IsTold m m' (finish g true) (λ e h. inr h) t,
          (λ e h. inr h),
        )
    store_cache-TellStep g resp key (err x) d told got = absurd x
    store_cache-TellStep g resp key panic d told got =
        follows m (goal_claim g) (unwinding (is_on_demand g)) (inr refl, refl) held told

    pub take_lock-TellStep :
        (i : ℕ) (requests : List SecretRequest) (e : LookupError) (l : Option ℕ)
        → IsBacked m.log (some (requests, err (Vault.lookup e)))
        → TellStep m (take_lock i m requests e l)
    take_lock-TellStep i requests e none told = (held, (told, λ resp h. cc), λ e h. h)
    take_lock-TellStep i requests e (some j) told = (held, (told, λ resp h. cc), λ e h. h)
