-- ===== src/Vault/Concurrent/Ranks.antt =====
-- How far a task of src/vault/mod.rs is from its end.
use vaultwarden_operator.Prelude.{
  ℕ, ◌+◌, ◌≤◌, ◌<◌, ◌≡◌, refl, inl, inr, Bool, true, false, Option, some, List, arith, leb,
  Bool-cases, Result, ok, err, panic, Str, is_some,
}
use vaultwarden_operator.Duration.{from_secs}
use vaultwarden_operator.Http.{instant_add}
use vaultwarden_operator.Auth.{Login}
use vaultwarden_operator.Crypto.{SymmetricKey}
use vaultwarden_operator.Sync.{VaultCache, DecryptSkips, is_stale_miss}
use vaultwarden_operator.Sync.Fetch.{unauthorized}
use vaultwarden_operator.Vault.{
  VaultError, SecretRequest, Session, set_tokens, set_expiry, set_sym_key,
}
use vaultwarden_operator.Vault
use vaultwarden_operator.Vault.Tasks.{
  Goal, on_demand, background, Caller, at_start, after_401, upkeep, Pc, idle, crashed, asking,
  retrying, missed, locked, timed, unlocking, answered, ensuring, has_expiry, renewing, posting,
  renewed, logging_in, logged_in, valid, has_token, syncing, again, resyncing, synced, unwinding,
  Choice, tokens, login, sync, Shared, finish, go_on, give_up, after_try, after_retry, after_post,
  after_login, after_sync, after_resync, compare_expiry, store_expiry, store_tokens, store_login,
  store_cache,
}

-- The call, or the round of a background task, is over.
abbrev pub is_end : Pc → Bool
is_end idle = true
is_end crashed = true
is_end (answered requests r) = true
is_end _ = false

-- The choice is an outcome of the request that the task waits for, where it waits for one.
abbrev pub fits : Pc → Choice → Bool
fits (posting who rt) (tokens r) = true
fits (posting who rt) c = false
fits (logging_in who) (login r) = true
fits (logging_in who) c = false
fits (syncing g token key) (sync r) = true
fits (syncing g token key) c = false
fits (resyncing g token key) (sync r) = true
fits (resyncing g token key) c = false
fits _ c = true

-- The task waits for refresh_lock, and another holds it.
abbrev pub is_waiting : Shared → Pc → Bool
is_waiting m (missed requests e) = is_some m.refresh_lock
is_waiting m _ = false

abbrev pub rank_after : Caller → ℕ
rank_after (at_start g) = 14
rank_after (after_401 g key) = 6
rank_after upkeep = 0

-- The most moves that a task has before it.
abbrev pub rank : Pc → ℕ
rank idle = 0
rank crashed = 0
rank (answered requests r) = 0
rank (unwinding b) = 1
rank (retrying requests) = 2
rank (unlocking requests e ran) = 3
rank (synced g resp key) = 4
rank (resyncing g token key) = 5
rank (again g key) = 6
rank (logged_in who r) = rank_after who + 2
rank (renewed who new_at new_rt expires_in) = rank_after who + 3
rank (logging_in who) = rank_after who + 3
rank (posting who rt) = rank_after who + 4
rank (renewing who) = rank_after who + 5
rank (has_expiry who at) = rank_after who + 6
rank (ensuring who) = rank_after who + 7
rank (syncing g token key) = 12
rank (has_token g token) = 13
rank (valid g) = 14
rank (timed requests e at) = 22
rank (locked requests e) = 23
rank (missed requests e) = 24
rank (asking requests) = 25

rank_after-bound : (who : Caller) → rank_after who ≤ 14
rank_after-bound (at_start g) = omega arith
rank_after-bound (after_401 g key) = omega arith
rank_after-bound upkeep = omega arith

pub rank-bound : (p : Pc) → rank p ≤ 25
rank-bound idle = omega arith
rank-bound crashed = omega arith
rank-bound (answered requests r) = omega arith
rank-bound (unwinding b) = omega arith
rank-bound (retrying requests) = omega arith
rank-bound (unlocking requests e ran) = omega arith
rank-bound (synced g resp key) = omega arith
rank-bound (resyncing g token key) = omega arith
rank-bound (again g key) = omega arith
rank-bound (logged_in who r) = let h = rank_after-bound who in omega arith
rank-bound (renewed who new_at new_rt n) = let h = rank_after-bound who in omega arith
rank-bound (logging_in who) = let h = rank_after-bound who in omega arith
rank-bound (posting who rt) = let h = rank_after-bound who in omega arith
rank-bound (renewing who) = let h = rank_after-bound who in omega arith
rank-bound (has_expiry who at) = let h = rank_after-bound who in omega arith
rank-bound (ensuring who) = let h = rank_after-bound who in omega arith
rank-bound (syncing g token key) = omega arith
rank-bound (has_token g token) = omega arith
rank-bound (valid g) = omega arith
rank-bound (timed requests e at) = omega arith
rank-bound (locked requests e) = omega arith
rank-bound (missed requests e) = omega arith
rank-bound (asking requests) = omega arith

-- the places that a move may lead to
pub rank-finish : (g : Goal) (ran : Bool) → rank (finish g ran) ≤ 3
rank-finish (on_demand requests e) ran = omega arith
rank-finish background ran = omega arith

rank-go_on : (who : Caller) → rank (go_on who) ≡ rank_after who
rank-go_on (at_start g) = refl
rank-go_on (after_401 g key) = refl
rank-go_on upkeep = refl

rank-give_up : (who : Caller) → rank (give_up who) < rank_after who + 3
rank-give_up (at_start g) = let h = rank-finish g false in omega arith
rank-give_up (after_401 g key) = let h = rank-finish g false in omega arith
rank-give_up upkeep = omega arith

pub rank-after_try :
    (requests : List SecretRequest) (r : Result VaultError (List Str))
    → rank (after_try requests r) < 25
rank-after_try requests (err (Vault.lookup e)) = elim (Bool-cases (is_stale_miss e)) [
  | inl h ↦ rw h (omega arith)
  | inr h ↦ rw h (omega arith)
]
rank-after_try requests (err (Vault.auth e)) = omega arith
rank-after_try requests (err (Vault.sync e)) = omega arith
rank-after_try requests (err Vault.not_initialized) = omega arith
rank-after_try requests (ok values) = omega arith
rank-after_try requests panic = omega arith

pub rank-after_retry :
    (requests : List SecretRequest) (r : Result VaultError (List Str))
    → rank (after_retry requests r) < 2
rank-after_retry requests (err e) = omega arith
rank-after_retry requests (ok values) = omega arith
rank-after_retry requests panic = omega arith

pub rank-after_post :
    (who : Caller) (rt : Str) (c : Choice)
    → fits (posting who rt) c ≡ true
    → rank (after_post who rt c) < rank_after who + 4
rank-after_post who rt (tokens (ok r)) h = omega arith
rank-after_post who rt (tokens (err e)) h = omega arith
rank-after_post who rt (tokens panic) h = omega arith
rank-after_post who rt c h = cc

pub rank-after_login :
    (who : Caller) (c : Choice)
    → fits (logging_in who) c ≡ true
    → rank (after_login who c) < rank_after who + 3
rank-after_login who (login (ok r)) h = omega arith
rank-after_login who (login (err e)) h = rank-give_up who
rank-after_login who (login panic) h = omega arith
rank-after_login who c h = cc

pub rank-after_sync :
    (m : Shared) (g : Goal) (token : Str) (key : SymmetricKey) (c : Choice)
    → fits (syncing g token key) c ≡ true
    → rank (after_sync m g token key c).1 < 12
rank-after_sync m g token key (sync (ok resp)) h = omega arith
rank-after_sync m g token key (sync (err unauthorized)) h = omega arith
rank-after_sync m g token key (sync (err e)) h = let k = rank-finish g false in omega arith
rank-after_sync m g token key (sync panic) h = omega arith
rank-after_sync m g token key c h = cc

pub rank-after_resync :
    (m : Shared) (g : Goal) (token : Str) (key : SymmetricKey) (c : Choice)
    → fits (resyncing g token key) c ≡ true
    → rank (after_resync m g token key c).1 < 5
rank-after_resync m g token key (sync (ok resp)) h = omega arith
rank-after_resync m g token key (sync (err e)) h = let k = rank-finish g false in omega arith
rank-after_resync m g token key (sync panic) h = omega arith
rank-after_resync m g token key c h = cc

pub rank-compare_expiry :
    (who : Caller) (at : ℕ) (r : Result ⊥ ℕ) → rank (compare_expiry who at r) < rank_after who + 6
rank-compare_expiry who at (ok soon) = elim (Bool-cases (leb at soon)) [
  | inl h ↦ rw h (omega arith)
  | inr h ↦ rw h (let e = rank-go_on who in omega arith)
]
rank-compare_expiry who at (err e) = absurd e
rank-compare_expiry who at panic = omega arith

rank-store_expiry :
    (who : Caller) (m : Shared) (s : Session) (finishing : ℕ → Session → Session) (r : Result ⊥ ℕ)
    → rank (store_expiry who m s finishing r).1 < rank_after who + 2
rank-store_expiry who m s finishing (ok at) = let e = rank-go_on who in omega arith
rank-store_expiry who m s finishing (err e) = absurd e
rank-store_expiry who m s finishing panic = omega arith

pub rank-store_tokens :
    (who : Caller) (m : Shared) (new_at : Str) (new_rt : Option Str) (expires_in : ℕ)
    → rank (store_tokens who m new_at new_rt expires_in).1 < rank_after who + 2
rank-store_tokens who m new_at new_rt expires_in =
    rank-store_expiry who m (set_tokens new_at new_rt m.session) set_expiry
      (instant_add m.clock (from_secs expires_in))

pub rank-store_login :
    (who : Caller) (m : Shared) (r : Login) → rank (store_login who m r).1 < rank_after who + 2
rank-store_login who m (access_token, refresh_tok, expires_in, key) =
    rank-store_expiry who m (set_tokens access_token (some refresh_tok) m.session)
      (λ at s. set_sym_key key (set_expiry at s)) (instant_add m.clock (from_secs expires_in))

pub rank-store_cache :
    (g : Goal) (m : Shared) (r : Result ⊥ (VaultCache × DecryptSkips))
    → rank (store_cache g m r).1 < 4
rank-store_cache g m (ok r) = let h = rank-finish g true in omega arith
rank-store_cache g m (err e) = absurd e
rank-store_cache g m panic = omega arith
