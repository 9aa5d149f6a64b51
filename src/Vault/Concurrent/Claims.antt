-- ===== src/Vault/Concurrent/Claims.antt =====
-- What the tasks of src/vault/mod.rs have found out, through their moves.
use vaultwarden_operator.Prelude.{
  ℕ, ◌≡◌, refl, ◌⊎◌, inl, inr, Bool, false, Option, none, some, List, leb, Bool-cases, Result, ok,
  err, panic, Str,
}
use vaultwarden_operator.Sync.{SyncResponse, is_stale_miss}
use vaultwarden_operator.Vault.{VaultError, SecretRequest}
use vaultwarden_operator.Vault
use vaultwarden_operator.Vault.Tasks.{
  Goal, on_demand, background, Caller, at_start, after_401, upkeep, Pc, missed, locked, timed,
  unlocking, answered, ensuring, has_expiry, renewing, posting, renewed, logging_in, logged_in,
  valid, has_token, syncing, again, resyncing, synced, Choice, nothing, fetch, refresh_due,
  token_due, tokens, login, sync, finish, go_on, give_up, begin, after_try, after_retry, after_post,
  after_login, compare_expiry,
}

abbrev pub Finding : Type 0
Finding = Option (List SecretRequest × Result VaultError (List Str))

abbrev pub goal_claim : Goal → Finding
goal_claim (on_demand requests e) = some (requests, err (Vault.lookup e))
goal_claim background = none

abbrev pub caller_claim : Caller → Finding
caller_claim (at_start g) = goal_claim g
caller_claim (after_401 g key) = goal_claim g
caller_claim upkeep = none

-- What the task has found for its requests: the miss that it follows up, or its answer.
abbrev pub claim : Pc → Finding
claim (missed requests e) = some (requests, err (Vault.lookup e))
claim (locked requests e) = some (requests, err (Vault.lookup e))
claim (timed requests e at) = some (requests, err (Vault.lookup e))
claim (unlocking requests e ran) = some (requests, err (Vault.lookup e))
claim (answered requests r) = some (requests, r)
claim (ensuring who) = caller_claim who
claim (has_expiry who at) = caller_claim who
claim (renewing who) = caller_claim who
claim (posting who rt) = caller_claim who
claim (renewed who new_at new_rt expires_in) = caller_claim who
claim (logging_in who) = caller_claim who
claim (logged_in who r) = caller_claim who
claim (valid g) = goal_claim g
claim (has_token g token) = goal_claim g
claim (syncing g token key) = goal_claim g
claim (again g key) = goal_claim g
claim (resyncing g token key) = goal_claim g
claim (synced g resp key) = goal_claim g
claim _ = none

-- the response that the task is about to decrypt
abbrev pub response_of : Pc → Option SyncResponse
response_of (synced g resp key) = some resp
response_of _ = none

-- The task has found no more than `f`, and has no new response.
abbrev pub Follows : Finding → Pc → Type 0
Follows f p' = ((claim p' ≡ f) ⊎ (claim p' ≡ none)) × (response_of p' ≡ none)

pub begin-Follows : (f : Finding) (c : Choice) → Follows f (begin c)
begin-Follows f (fetch requests) = (inr refl, refl)
begin-Follows f refresh_due = (inr refl, refl)
begin-Follows f token_due = (inr refl, refl)
begin-Follows f nothing = (inr refl, refl)
begin-Follows f (tokens r) = (inr refl, refl)
begin-Follows f (login r) = (inr refl, refl)
begin-Follows f (sync r) = (inr refl, refl)

pub finish-Follows : (g : Goal) (ran : Bool) → Follows (goal_claim g) (finish g ran)
finish-Follows (on_demand requests e) ran = (inl refl, refl)
finish-Follows background ran = (inl refl, refl)

pub go_on-Follows : (who : Caller) → Follows (caller_claim who) (go_on who)
go_on-Follows (at_start g) = (inl refl, refl)
go_on-Follows (after_401 g key) = (inl refl, refl)
go_on-Follows upkeep = (inl refl, refl)

pub give_up-Follows : (who : Caller) → Follows (caller_claim who) (give_up who)
give_up-Follows (at_start g) = finish-Follows g false
give_up-Follows (after_401 g key) = finish-Follows g false
give_up-Follows upkeep = (inl refl, refl)

-- a try has found its result, if anything
pub after_try-Follows :
    (requests : List SecretRequest) (r : Result VaultError (List Str))
    → Follows (some (requests, r)) (after_try requests r)
after_try-Follows requests (err (Vault.lookup e)) = elim (Bool-cases (is_stale_miss e)) [
  | inl h ↦ rw h (inl refl, refl)
  | inr h ↦ rw h (inl refl, refl)
]
after_try-Follows requests (err (Vault.auth e)) = (inl refl, refl)
after_try-Follows requests (err (Vault.sync e)) = (inl refl, refl)
after_try-Follows requests (err Vault.not_initialized) = (inl refl, refl)
after_try-Follows requests (ok values) = (inl refl, refl)
after_try-Follows requests panic = (inr refl, refl)

pub after_retry-Follows :
    (requests : List SecretRequest) (r : Result VaultError (List Str))
    → Follows (some (requests, r)) (after_retry requests r)
after_retry-Follows requests (err e) = (inl refl, refl)
after_retry-Follows requests (ok values) = (inl refl, refl)
after_retry-Follows requests panic = (inr refl, refl)

pub after_post-Follows :
    (who : Caller) (rt : Str) (c : Choice) → Follows (caller_claim who) (after_post who rt c)
after_post-Follows who rt (tokens (ok r)) = (inl refl, refl)
after_post-Follows who rt (tokens (err e)) = (inl refl, refl)
after_post-Follows who rt (tokens panic) = (inr refl, refl)
after_post-Follows who rt nothing = (inl refl, refl)
after_post-Follows who rt (fetch requests) = (inl refl, refl)
after_post-Follows who rt refresh_due = (inl refl, refl)
after_post-Follows who rt token_due = (inl refl, refl)
after_post-Follows who rt (login r) = (inl refl, refl)
after_post-Follows who rt (sync r) = (inl refl, refl)

pub after_login-Follows :
    (who : Caller) (c : Choice) → Follows (caller_claim who) (after_login who c)
after_login-Follows who (login (ok r)) = (inl refl, refl)
after_login-Follows who (login (err e)) = give_up-Follows who
after_login-Follows who (login panic) = (inr refl, refl)
after_login-Follows who nothing = (inl refl, refl)
after_login-Follows who (fetch requests) = (inl refl, refl)
after_login-Follows who refresh_due = (inl refl, refl)
after_login-Follows who token_due = (inl refl, refl)
after_login-Follows who (tokens r) = (inl refl, refl)
after_login-Follows who (sync r) = (inl refl, refl)

pub compare_expiry-Follows :
    (who : Caller) (at : ℕ) (r : Result ⊥ ℕ) → Follows (caller_claim who) (compare_expiry who at r)
compare_expiry-Follows who at (ok soon) = elim (Bool-cases (leb at soon)) [
  | inl early ↦ rw early (inl refl, refl)
  | inr late ↦ rw late (go_on-Follows who)
]
compare_expiry-Follows who at (err e) = absurd e
compare_expiry-Follows who at panic = (inr refl, refl)
