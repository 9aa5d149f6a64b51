-- ===== src/Vault/Concurrent/Locking.antt =====
-- Which tasks of src/vault/mod.rs hold refresh_lock, and what a move does to it.
use vaultwarden_operator.Prelude.{
  ℕ, ◌≡◌, refl, ◌⊎◌, inl, inr, Bool, true, false, Option, none, some, List, arith, leb, Bool-cases,
  Result, ok, err, panic, Str,
}
use vaultwarden_operator.Duration.{from_secs}
use vaultwarden_operator.Http.{instant_add}
use vaultwarden_operator.Auth.{Services, Login}
use vaultwarden_operator.Crypto.{SymmetricKey}
use vaultwarden_operator.Sync.{VaultCache, DecryptSkips, LookupError}
use vaultwarden_operator.Sync.Decrypt.{decrypt_vault}
use vaultwarden_operator.Sync.Fetch.{unauthorized}
use vaultwarden_operator.Vault.{
  VaultError, SecretRequest, Session, VaultClient, set_tokens, set_expiry, set_sym_key,
}
use vaultwarden_operator.Vault
use vaultwarden_operator.Vault.Fetch.{lookup_in}
use vaultwarden_operator.Vault.Tasks.{
  Goal, on_demand, background, Caller, at_start, after_401, upkeep, Pc, idle, crashed, asking,
  retrying, missed, locked, timed, unlocking, answered, ensuring, has_expiry, renewing, posting,
  renewed, logging_in, logged_in, valid, has_token, syncing, again, resyncing, synced, unwinding,
  Choice, nothing, fetch, refresh_due, token_due, tokens, login, sync, Shared, is_on_demand,
  for_on_demand, finish, go_on, give_up, begin, after_try, after_retry, after_post, after_login,
  after_sync, after_resync, compare_expiry, store_expiry, store_tokens, store_login, store_cache,
  take_lock,
}
use vaultwarden_operator.Vault.Concurrent.{advance}

-- The task is between `refresh_lock.lock()` and the drop of its guard.
abbrev pub holding : Pc → Bool
holding (locked requests e) = true
holding (timed requests e at) = true
holding (unlocking requests e ran) = true
holding (ensuring who) = for_on_demand who
holding (has_expiry who at) = for_on_demand who
holding (renewing who) = for_on_demand who
holding (posting who rt) = for_on_demand who
holding (renewed who new_at new_rt expires_in) = for_on_demand who
holding (logging_in who) = for_on_demand who
holding (logged_in who r) = for_on_demand who
holding (valid g) = is_on_demand g
holding (has_token g token) = is_on_demand g
holding (syncing g token key) = is_on_demand g
holding (again g key) = is_on_demand g
holding (resyncing g token key) = is_on_demand g
holding (synced g resp key) = is_on_demand g
holding (unwinding b) = b
holding _ = false

-- A move leaves the lock alone, or takes it when it is free, or gives it back.
abbrev pub LockStep : ℕ → Shared → Pc → Shared × Pc → Type 0
LockStep i m p (m', p') =
    ((m'.refresh_lock ≡ m.refresh_lock) × (holding p' ≡ holding p))
    ⊎ ((m.refresh_lock ≡ none)
        × (m'.refresh_lock ≡ some i)
        × (holding p ≡ false)
        × (holding p' ≡ true))
    ⊎ ((m'.refresh_lock ≡ none) × (holding p ≡ true) × (holding p' ≡ false))

holding-begin : (c : Choice) → holding (begin c) ≡ false
holding-begin (fetch requests) = refl
holding-begin refresh_due = refl
holding-begin token_due = refl
holding-begin nothing = refl
holding-begin (tokens r) = refl
holding-begin (login r) = refl
holding-begin (sync r) = refl

holding-after_try :
    (requests : List SecretRequest) (r : Result VaultError (List Str))
    → holding (after_try requests r) ≡ false
holding-after_try requests (err (Vault.lookup e)) = ground arith
holding-after_try requests (err (Vault.auth e)) = refl
holding-after_try requests (err (Vault.sync e)) = refl
holding-after_try requests (err Vault.not_initialized) = refl
holding-after_try requests (ok values) = refl
holding-after_try requests panic = refl

holding-after_retry :
    (requests : List SecretRequest) (r : Result VaultError (List Str))
    → holding (after_retry requests r) ≡ false
holding-after_retry requests (err e) = refl
holding-after_retry requests (ok values) = refl
holding-after_retry requests panic = refl

holding-finish : (g : Goal) (ran : Bool) → holding (finish g ran) ≡ is_on_demand g
holding-finish (on_demand requests e) ran = refl
holding-finish background ran = refl

holding-go_on : (who : Caller) → holding (go_on who) ≡ for_on_demand who
holding-go_on (at_start g) = refl
holding-go_on (after_401 g key) = refl
holding-go_on upkeep = refl

holding-give_up : (who : Caller) → holding (give_up who) ≡ for_on_demand who
holding-give_up (at_start g) = holding-finish g false
holding-give_up (after_401 g key) = holding-finish g false
holding-give_up upkeep = refl

holding-after_post :
    (who : Caller) (rt : Str) (c : Choice) → holding (after_post who rt c) ≡ for_on_demand who
holding-after_post who rt (tokens (ok r)) = refl
holding-after_post who rt (tokens (err e)) = refl
holding-after_post who rt (tokens panic) = refl
holding-after_post who rt nothing = refl
holding-after_post who rt (fetch requests) = refl
holding-after_post who rt refresh_due = refl
holding-after_post who rt token_due = refl
holding-after_post who rt (login r) = refl
holding-after_post who rt (sync r) = refl

holding-after_login : (who : Caller) (c : Choice) → holding (after_login who c) ≡ for_on_demand who
holding-after_login who (login (ok r)) = refl
holding-after_login who (login (err e)) = holding-give_up who
holding-after_login who (login panic) = refl
holding-after_login who nothing = refl
holding-after_login who (fetch requests) = refl
holding-after_login who refresh_due = refl
holding-after_login who token_due = refl
holding-after_login who (tokens r) = refl
holding-after_login who (sync r) = refl

holding-compare_expiry :
    (who : Caller) (at : ℕ) (r : Result ⊥ ℕ) → holding (compare_expiry who at r) ≡ for_on_demand who
holding-compare_expiry who at (ok soon) = elim (Bool-cases (leb at soon)) [
  | inl h ↦ rw h
  | inr h ↦ rw h (holding-go_on who)
]
holding-compare_expiry who at (err e) = absurd e
holding-compare_expiry who at panic = refl

-- The same, where a move may also change what is shared, but not the lock.
abbrev Keeps : Bool → Shared → Shared × Pc → Type 0
Keeps b m (m', p') = (m'.refresh_lock ≡ m.refresh_lock) × (holding p' ≡ b)

after_sync-Keeps :
    (m : Shared) (g : Goal) (token : Str) (key : SymmetricKey) (c : Choice)
    → Keeps (is_on_demand g) m (after_sync m g token key c)
after_sync-Keeps m g token key (sync (ok resp)) = (refl, refl)
after_sync-Keeps m g token key (sync (err unauthorized)) = (refl, refl)
after_sync-Keeps m g token key (sync (err e)) = (refl, holding-finish g false)
after_sync-Keeps m g token key (sync panic) = (refl, refl)
after_sync-Keeps m g token key c = (refl, refl)

after_resync-Keeps :
    (m : Shared) (g : Goal) (token : Str) (key : SymmetricKey) (c : Choice)
    → Keeps (is_on_demand g) m (after_resync m g token key c)
after_resync-Keeps m g token key (sync (ok resp)) = (refl, refl)
after_resync-Keeps m g token key (sync (err e)) = (refl, holding-finish g false)
after_resync-Keeps m g token key (sync panic) = (refl, refl)
after_resync-Keeps m g token key c = (refl, refl)

store_expiry-Keeps :
    (who : Caller) (m : Shared) (s : Session) (finishing : ℕ → Session → Session) (r : Result ⊥ ℕ)
    → Keeps (for_on_demand who) m (store_expiry who m s finishing r)
store_expiry-Keeps who m s finishing (ok at) = (refl, holding-go_on who)
store_expiry-Keeps who m s finishing (err e) = absurd e
store_expiry-Keeps who m s finishing panic = (refl, refl)

store_tokens-Keeps :
    (who : Caller) (m : Shared) (new_at : Str) (new_rt : Option Str) (expires_in : ℕ)
    → Keeps (for_on_demand who) m (store_tokens who m new_at new_rt expires_in)
store_tokens-Keeps who m new_at new_rt expires_in =
    store_expiry-Keeps who m (set_tokens new_at new_rt m.session) set_expiry
      (instant_add m.clock (from_secs expires_in))

store_login-Keeps :
    (who : Caller) (m : Shared) (r : Login) → Keeps (for_on_demand who) m (store_login who m r)
store_login-Keeps who m (access_token, refresh_tok, expires_in, key) =
    store_expiry-Keeps who m (set_tokens access_token (some refresh_tok) m.session)
      (λ at s. set_sym_key key (set_expiry at s)) (instant_add m.clock (from_secs expires_in))

store_cache-Keeps :
    (g : Goal) (m : Shared) (r : Result ⊥ (VaultCache × DecryptSkips))
    → Keeps (is_on_demand g) m (store_cache g m r)
store_cache-Keeps g m (ok r) = (refl, holding-finish g true)
store_cache-Keeps g m (err e) = absurd e
store_cache-Keeps g m panic = (refl, refl)

take_lock-LockStep :
    (i : ℕ) (m : Shared) (requests : List SecretRequest) (e : LookupError) (l : Option ℕ)
    → m.refresh_lock ≡ l
    → LockStep i m (missed requests e) (take_lock i m requests e l)
take_lock-LockStep i m requests e none h = inr (inl (h, refl, refl, refl))
take_lock-LockStep i m requests e (some j) h = inl (refl, refl)

module _ {RsaPrivateKey : Type 0} (services : Services RsaPrivateKey) (client : VaultClient) where
  pub advance-LockStep :
      (i : ℕ) (c : Choice) (m : Shared) (p : Pc) → LockStep i m p (advance services client i c m p)
  unfolding advance
  advance-LockStep i c m idle = inl (refl, holding-begin c)
  advance-LockStep i c m crashed = inl (refl, refl)
  advance-LockStep i c m (asking requests) =
      inl (refl, holding-after_try requests (lookup_in services m.session.vault requests))
  advance-LockStep i c m (missed requests e) = take_lock-LockStep i m requests e m.refresh_lock refl
  advance-LockStep i c m (locked requests e) = inl (refl, refl)
  advance-LockStep i c m (timed requests e at) = inl (refl, ground arith)
  advance-LockStep i c m (unlocking requests e true) = inr (inr (refl, refl, refl))
  advance-LockStep i c m (unlocking requests e false) = inr (inr (refl, refl, refl))
  advance-LockStep i c m (retrying requests) =
      inl (refl, holding-after_retry requests (lookup_in services m.session.vault requests))
  advance-LockStep i c m (answered requests r) = inl (refl, refl)
  advance-LockStep i c m (ensuring who) = inl (refl, refl)
  advance-LockStep i c m (has_expiry who at) =
      inl (refl, holding-compare_expiry who at (instant_add m.clock (from_secs 60)))
  advance-LockStep i c m (renewing who) = inl (refl, refl)
  advance-LockStep i c m (posting who rt) = inl (refl, holding-after_post who rt c)
  advance-LockStep i c m (renewed who new_at new_rt expires_in) =
      inl (store_tokens-Keeps who m new_at new_rt expires_in)
  advance-LockStep i c m (logging_in who) = inl (refl, holding-after_login who c)
  advance-LockStep i c m (logged_in who r) = inl (store_login-Keeps who m r)
  advance-LockStep i c m (valid g) = inl (refl, refl)
  advance-LockStep i c m (has_token g token) = inl (refl, refl)
  advance-LockStep i c m (syncing g token key) = inl (after_sync-Keeps m g token key c)
  advance-LockStep i c m (again g key) = inl (refl, refl)
  advance-LockStep i c m (resyncing g token key) = inl (after_resync-Keeps m g token key c)
  advance-LockStep i c m (synced g resp key) =
      inl (store_cache-Keeps g m (decrypt_vault services.crates services.unicode resp key))
  advance-LockStep i c m (unwinding true) = inr (inr (refl, refl, refl))
  advance-LockStep i c m (unwinding false) = inl (refl, refl)
