-- ===== src/Vault/Concurrent/Cooling.antt =====
-- What a move keeps of the cooldown of `refresh_if_due` of src/vault/mod.rs.
use vaultwarden_operator.Prelude.{
  ℕ, suc, ◌+◌, ◌-◌, ◌*◌, ◌≤◌, ◌≡◌, refl, ◌⊎◌, inl, inr, Bool, true, false, Option, none, some, List,
  [], ◌∷◌, arith, ltb, Bool-cases, Result, ok, err, panic, Str,
}
use vaultwarden_operator.Duration.{from_secs}
use vaultwarden_operator.Http.{instant_add}
use vaultwarden_operator.Auth.{Services}
use vaultwarden_operator.Crypto.{SymmetricKey}
use vaultwarden_operator.Sync.{SyncResponse, VaultCache, DecryptSkips, LookupError}
use vaultwarden_operator.Sync.Decrypt.{decrypt_vault}
use vaultwarden_operator.Sync.Fetch.{unauthorized}
use vaultwarden_operator.Vault.{
  SecretRequest, Session, VaultClient, set_tokens, set_expiry, set_sym_key,
}
use vaultwarden_operator.Vault.Fetch.{lookup_in}
use vaultwarden_operator.Vault.Tasks.{
  Goal, on_demand, background, Caller, after_401, Pc, idle, crashed, asking, retrying, missed,
  locked, timed, unlocking, answered, ensuring, has_expiry, renewing, posting, renewed, logging_in,
  logged_in, valid, has_token, syncing, again, resyncing, synced, unwinding, Choice, sync, Event,
  fetched, stored, Shared, is_on_demand, for_on_demand, finish, begin, after_sync, after_resync,
  store_expiry, store_cache, take_lock,
}
use vaultwarden_operator.Vault.Concurrent.{advance}
use vaultwarden_operator.Vault.Concurrent.Locking.{holding}
use vaultwarden_operator.Vault.Concurrent.Moves.{
  refreshing, timed_at, Continues, finish-Continues, begin-Continues, after_try-Continues,
  after_retry-Continues, go_on-Continues, after_post-Continues, after_login-Continues,
  compare_expiry-Continues,
}

-- how many refreshes on a miss have stored a cache
unfoldable pub successes : List Event → ℕ
successes [] = 0
successes (fetched resp ∷ log) = successes log
successes (stored background cache ∷ log) = successes log
successes (stored (on_demand requests e) cache ∷ log) = suc (successes log)

-- The cooldown `k`, and the refresh time `start` from which the refreshes are counted.
module _ (k start : ℕ) where
  -- The successful refreshes on a miss are a cooldown apart, and the last refresh is not to come.
  abbrev pub IsSpaced : Shared → Type 0
  IsSpaced m =
      (successes m.log * k + start ≤ m.session.last_refresh_at)
      × (m.session.last_refresh_at ≤ m.clock)

  -- A refresh on a miss may store a cache: the cooldown is over.
  abbrev pub IsOver : Shared → Type 0
  IsOver m = successes m.log * k + k + start ≤ m.clock

  -- What a task that has read the refresh time, or that refreshes, may rely on.
  abbrev pub IsDue : Shared → Pc → Type 0
  IsDue m p =
      (refreshing p ≡ true → IsOver m)
      × ((at : ℕ) → timed_at p ≡ some at → (successes m.log * k + start ≤ at) × (at ≤ m.clock))

  -- What a move keeps.
  abbrev pub CoolStep : Shared → Pc → Shared × Pc → Type 0
  CoolStep m p (m', p') =
      IsSpaced m'
      × IsDue m' p'
      × (m'.clock ≡ m.clock)
      × ((successes m'.log ≡ successes m.log) ⊎ (holding p ≡ true))

  -- A move that changes neither log nor times.
  quiet :
      (m : Shared) (p p' : Pc) (b : Bool)
      → Continues b p'
      → (b ≡ true → IsOver m)
      → IsSpaced m
      → CoolStep m p (m, p')
  quiet m p p' b (c, n) over spaced = (spaced, ((λ h. over (c h)), (λ at h. cc)), refl, inl refl)

  module _ (m : Shared) (spaced : IsSpaced m) where
    after_sync-CoolStep :
        (g : Goal) (token : Str) (key : SymmetricKey) (c : Choice)
        → (is_on_demand g ≡ true → IsOver m)
        → CoolStep m (syncing g token key) (after_sync m g token key c)
    unfolding successes
    after_sync-CoolStep g token key (sync (ok resp)) over =
        (spaced, ((λ h. over h), (λ at h. cc)), refl, inl refl)
    after_sync-CoolStep g token key (sync (err unauthorized)) over =
        quiet m (syncing g token key) (renewing (after_401 g key)) (is_on_demand g) ((λ h. h), refl)
          over spaced
    after_sync-CoolStep g token key (sync (err e)) over =
        quiet m (syncing g token key) (finish g false) (is_on_demand g) (finish-Continues _ g false)
          over spaced
    after_sync-CoolStep g token key (sync panic) over =
        quiet m (syncing g token key) (unwinding (is_on_demand g)) (is_on_demand g)
          ((λ h. cc), refl) over spaced
    after_sync-CoolStep g token key c over =
        quiet m (syncing g token key) (syncing g token key) (is_on_demand g) ((λ h. h), refl) over
          spaced

    after_resync-CoolStep :
        (g : Goal) (token : Str) (key : SymmetricKey) (c : Choice)
        → (is_on_demand g ≡ true → IsOver m)
        → CoolStep m (resyncing g token key) (after_resync m g token key c)
    unfolding successes
    after_resync-CoolStep g token key (sync (ok resp)) over =
        (spaced, ((λ h. over h), (λ at h. cc)), refl, inl refl)
    after_resync-CoolStep g token key (sync (err e)) over =
        quiet m (resyncing g token key) (finish g false) (is_on_demand g)
          (finish-Continues _ g false) over spaced
    after_resync-CoolStep g token key (sync panic) over =
        quiet m (resyncing g token key) (unwinding (is_on_demand g)) (is_on_demand g)
          ((λ h. cc), refl) over spaced
    after_resync-CoolStep g token key c over =
        quiet m (resyncing g token key) (resyncing g token key) (is_on_demand g) ((λ h. h), refl)
          over spaced

    -- new tokens leave the refresh time alone
    store_expiry-CoolStep :
        (p : Pc) (who : Caller) (s : Session) (finishing : ℕ → Session → Session) (r : Result ⊥ ℕ)
        → s.last_refresh_at ≡ m.session.last_refresh_at
        → ((at : ℕ) → (finishing at s).last_refresh_at ≡ m.session.last_refresh_at)
        → (for_on_demand who ≡ true → IsOver m)
        → CoolStep m p (store_expiry who m s finishing r)
    store_expiry-CoolStep p who s finishing (ok at) e f over =
        let c = go_on-Continues who in
        (rw (f at) spaced, ((λ h. over (c.0 h)), (λ x h. cc (c.1))), refl, inl refl)
    store_expiry-CoolStep p who s finishing (err x) e f over = absurd x
    store_expiry-CoolStep p who s finishing panic e f over =
        (rw e spaced, ((λ h. cc), (λ x h. cc)), refl, inl refl)

    store_cache-CoolStep :
        (g : Goal) (resp : SyncResponse) (key : SymmetricKey)
        (r : Result ⊥ (VaultCache × DecryptSkips))
        → (is_on_demand g ≡ true → IsOver m)
        → CoolStep m (synced g resp key) (store_cache g m r)
    unfolding successes
    store_cache-CoolStep (on_demand requests e) resp key (ok r) over =
        let late = over refl in
        ((omega arith, omega arith), ((λ h. cc), (λ x h. cc)), refl, inr refl)
    store_cache-CoolStep background resp key (ok r) over =
        ((omega (arith, spaced), omega arith), ((λ h. cc), (λ x h. cc)), refl, inl refl)
    store_cache-CoolStep g resp key (err x) over = absurd x
    store_cache-CoolStep g resp key panic over =
        quiet m (synced g resp key) (unwinding (is_on_demand g)) (is_on_demand g) ((λ h. cc), refl)
          over spaced

    take_lock-CoolStep :
        (i : ℕ) (requests : List SecretRequest) (e : LookupError) (l : Option ℕ)
        → CoolStep m (missed requests e) (take_lock i m requests e l)
    take_lock-CoolStep i requests e none = (spaced, ((λ h. cc), (λ x h. cc)), refl, inl refl)
    take_lock-CoolStep i requests e (some j) = (spaced, ((λ h. cc), (λ x h. cc)), refl, inl refl)

  IsOver-timed :
      (m : Shared) (at interval : ℕ)
      → interval ≡ k
      → ltb (m.clock - at) interval ≡ false
      → successes m.log * k + start ≤ at
      → at ≤ m.clock
      → IsOver m
  IsOver-timed m at interval cool late known past = ground arith

  module _ {RsaPrivateKey : Type 0} (services : Services RsaPrivateKey) (client : VaultClient) where
    pub advance-CoolStep :
        (i : ℕ) (c : Choice) (m : Shared) (p : Pc)
        → client.min_refresh_interval ≡ k
        → IsSpaced m
        → IsDue m p
        → CoolStep m p (advance services client i c m p)
    unfolding advance
    advance-CoolStep i c m idle cool spaced (over, read) =
        quiet m idle (begin c) false (begin-Continues false c) (λ h. cc) spaced
    advance-CoolStep i c m crashed cool spaced (over, read) =
        quiet m crashed crashed false ((λ h. h), refl) over spaced
    advance-CoolStep i c m (asking requests) cool spaced (over, read) =
        quiet m (asking requests) _ false
          (after_try-Continues false requests (lookup_in services m.session.vault requests)) over
          spaced
    advance-CoolStep i c m (missed requests e) cool spaced due =
        take_lock-CoolStep m spaced i requests e m.refresh_lock
    advance-CoolStep i c m (locked requests e) cool spaced (over, read) = (
      spaced,
      (
        (λ h. cc),
        (λ at h. let same : m.session.last_refresh_at ≡ at = cc in (omega arith, omega arith)),
      ),
      refl,
      inl refl,
    )
    advance-CoolStep i c m (timed requests e at) cool spaced (over, read) = (
      spaced,
      elim (Bool-cases (ltb (m.clock - at) client.min_refresh_interval)) [
        | inl early ↦ rw early ((λ h. cc), (λ x h. cc))
        | inr late ↦
            let known = read at refl in
            rw late (
              (λ h. IsOver-timed m at client.min_refresh_interval cool late known.0 known.1),
              (λ x h. cc),
            )
      ],
      refl,
      inl refl,
    )
    advance-CoolStep i c m (unlocking requests e true) cool spaced (over, read) =
        (spaced, ((λ h. cc), (λ at h. cc)), refl, inl refl)
    advance-CoolStep i c m (unlocking requests e false) cool spaced (over, read) =
        (spaced, ((λ h. cc), (λ at h. cc)), refl, inl refl)
    advance-CoolStep i c m (retrying requests) cool spaced (over, read) =
        quiet m (retrying requests) _ false
          (after_retry-Continues false requests (lookup_in services m.session.vault requests)) over
          spaced
    advance-CoolStep i c m (answered requests r) cool spaced (over, read) =
        quiet m (answered requests r) idle false ((λ h. h), refl) over spaced
    advance-CoolStep i c m (ensuring who) cool spaced (over, read) =
        quiet m (ensuring who) (has_expiry who m.session.token_expires_at) (for_on_demand who)
          ((λ h. h), refl) over spaced
    advance-CoolStep i c m (has_expiry who at) cool spaced (over, read) =
        quiet m (has_expiry who at) _ (for_on_demand who)
          (compare_expiry-Continues who at (instant_add m.clock (from_secs 60))) over spaced
    advance-CoolStep i c m (renewing who) cool spaced (over, read) =
        quiet m (renewing who) (posting who m.session.refresh_token) (for_on_demand who)
          ((λ h. h), refl) over spaced
    advance-CoolStep i c m (posting who rt) cool spaced (over, read) =
        quiet m (posting who rt) _ (for_on_demand who) (after_post-Continues who rt c) over spaced
    advance-CoolStep i c m (renewed who new_at new_rt expires_in) cool spaced (over, read) =
        store_expiry-CoolStep m spaced (renewed who new_at new_rt expires_in) who
          (set_tokens new_at new_rt m.session) set_expiry
          (instant_add m.clock (from_secs expires_in)) refl (λ at. refl) over
    advance-CoolStep i c m (logging_in who) cool spaced (over, read) =
        quiet m (logging_in who) _ (for_on_demand who) (after_login-Continues who c) over spaced
    advance-CoolStep i c m (logged_in who (at, rt, expires_in, key)) cool spaced (over, read) =
        store_expiry-CoolStep m spaced (logged_in who (at, rt, expires_in, key)) who
          (set_tokens at (some rt) m.session) (λ x s. set_sym_key key (set_expiry x s))
          (instant_add m.clock (from_secs expires_in)) refl (λ x. refl) over
    advance-CoolStep i c m (valid g) cool spaced (over, read) =
        quiet m (valid g) (has_token g m.session.access_token) (is_on_demand g) ((λ h. h), refl)
          over spaced
    advance-CoolStep i c m (has_token g token) cool spaced (over, read) =
        quiet m (has_token g token) (syncing g token m.session.sym_key) (is_on_demand g)
          ((λ h. h), refl) over spaced
    advance-CoolStep i c m (syncing g token key) cool spaced (over, read) =
        after_sync-CoolStep m spaced g token key c over
    advance-CoolStep i c m (again g key) cool spaced (over, read) =
        quiet m (again g key) (resyncing g m.session.access_token key) (is_on_demand g)
          ((λ h. h), refl) over spaced
    advance-CoolStep i c m (resyncing g token key) cool spaced (over, read) =
        after_resync-CoolStep m spaced g token key c over
    advance-CoolStep i c m (synced g resp key) cool spaced (over, read) =
        store_cache-CoolStep m spaced g resp key
          (decrypt_vault services.crates services.unicode resp key) over
    advance-CoolStep i c m (unwinding true) cool spaced (over, read) =
        (spaced, ((λ h. cc), (λ at h. cc)), refl, inl refl)
    advance-CoolStep i c m (unwinding false) cool spaced (over, read) =
        (spaced, ((λ h. cc), (λ at h. cc)), refl, inl refl)
