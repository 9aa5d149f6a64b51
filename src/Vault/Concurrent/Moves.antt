-- ===== src/Vault/Concurrent/Moves.antt =====
-- Which moves of the tasks of src/vault/mod.rs go on with a refresh on a miss.
use vaultwarden_operator.Prelude.{
  ℕ, ◌≡◌, refl, inl, inr, Bool, true, false, Option, none, some, List, arith, leb, Bool-cases,
  Result, ok, err, panic, Str,
}
use vaultwarden_operator.Vault.{VaultError, SecretRequest}
use vaultwarden_operator.Vault
use vaultwarden_operator.Vault.Tasks.{
  Goal, on_demand, background, Caller, at_start, after_401, upkeep, Pc, idle, crashed, asking,
  retrying, missed, locked, timed, unlocking, answered, ensuring, has_expiry, renewing, posting,
  renewed, logging_in, logged_in, valid, has_token, syncing, again, resyncing, synced, unwinding,
  Choice, nothing, fetch, refresh_due, token_due, tokens, login, sync, is_on_demand, for_on_demand,
  finish, go_on, give_up, begin, after_try, after_retry, after_post, after_login, compare_expiry,
}
use vaultwarden_operator.Vault.Concurrent.Locking.{holding}

-- The task runs a refresh on a miss.
abbrev pub refreshing : Pc → Bool
refreshing (ensuring who) = for_on_demand who
refreshing (has_expiry who at) = for_on_demand who
refreshing (renewing who) = for_on_demand who
refreshing (posting who rt) = for_on_demand who
refreshing (renewed who new_at new_rt expires_in) = for_on_demand who
refreshing (logging_in who) = for_on_demand who
refreshing (logged_in who r) = for_on_demand who
refreshing (valid g) = is_on_demand g
refreshing (has_token g token) = is_on_demand g
refreshing (syncing g token key) = is_on_demand g
refreshing (again g key) = is_on_demand g
refreshing (resyncing g token key) = is_on_demand g
refreshing (synced g resp key) = is_on_demand g
refreshing _ = false

-- The task has read the refresh time, and compares it next.
abbrev pub timed_at : Pc → Option ℕ
timed_at (timed requests e at) = some at
timed_at _ = none

-- A refresh of `p'` goes on with one of before, if `b` says that there was one.
abbrev pub Continues : Bool → Pc → Type 0
Continues b p' = (refreshing p' ≡ true → b ≡ true) × (timed_at p' ≡ none)

pub finish-Continues : (b : Bool) (g : Goal) (ran : Bool) → Continues b (finish g ran)
finish-Continues b (on_demand requests e) ran = (λ h. cc, refl)
finish-Continues b background ran = (λ h. cc, refl)

pub begin-Continues : (b : Bool) (c : Choice) → Continues b (begin c)
begin-Continues b (fetch requests) = (λ h. cc, refl)
begin-Continues b refresh_due = (λ h. cc, refl)
begin-Continues b token_due = (λ h. cc, refl)
begin-Continues b nothing = (λ h. cc, refl)
begin-Continues b (tokens r) = (λ h. cc, refl)
begin-Continues b (login r) = (λ h. cc, refl)
begin-Continues b (sync r) = (λ h. cc, refl)

pub after_try-Continues :
    (b : Bool) (requests : List SecretRequest) (r : Result VaultError (List Str))
    → Continues b (after_try requests r)
after_try-Continues b requests (err (Vault.lookup e)) = ground arith
after_try-Continues b requests (err (Vault.auth e)) = (λ h. cc, refl)
after_try-Continues b requests (err (Vault.sync e)) = (λ h. cc, refl)
after_try-Continues b requests (err Vault.not_initialized) = (λ h. cc, refl)
after_try-Continues b requests (ok values) = (λ h. cc, refl)
after_try-Continues b requests panic = (λ h. cc, refl)

pub after_retry-Continues :
    (b : Bool) (requests : List SecretRequest) (r : Result VaultError (List Str))
    → Continues b (after_retry requests r)
after_retry-Continues b requests (err e) = (λ h. cc, refl)
after_retry-Continues b requests (ok values) = (λ h. cc, refl)
after_retry-Continues b requests panic = (λ h. cc, refl)

pub go_on-Continues : (who : Caller) → Continues (for_on_demand who) (go_on who)
go_on-Continues (at_start g) = (λ h. h, refl)
go_on-Continues (after_401 g key) = (λ h. h, refl)
go_on-Continues upkeep = (λ h. h, refl)

pub give_up-Continues : (b : Bool) (who : Caller) → Continues b (give_up who)
give_up-Continues b (at_start g) = finish-Continues b g false
give_up-Continues b (after_401 g key) = finish-Continues b g false
give_up-Continues b upkeep = (λ h. cc, refl)

pub after_post-Continues :
    (who : Caller) (rt : Str) (c : Choice) → Continues (for_on_demand who) (after_post who rt c)
after_post-Continues who rt (tokens (ok r)) = (λ h. h, refl)
after_post-Continues who rt (tokens (err e)) = (λ h. h, refl)
after_post-Continues who rt (tokens panic) = (λ h. cc, refl)
after_post-Continues who rt nothing = (λ h. h, refl)
after_post-Continues who rt (fetch requests) = (λ h. h, refl)
after_post-Continues who rt refresh_due = (λ h. h, refl)
after_post-Continues who rt token_due = (λ h. h, refl)
after_post-Continues who rt (login r) = (λ h. h, refl)
after_post-Continues who rt (sync r) = (λ h. h, refl)

pub after_login-Continues :
    (who : Caller) (c : Choice) → Continues (for_on_demand who) (after_login who c)
after_login-Continues who (login (ok r)) = (λ h. h, refl)
after_login-Continues who (login (err e)) = give_up-Continues (for_on_demand who) who
after_login-Continues who (login panic) = (λ h. cc, refl)
after_login-Continues who nothing = (λ h. h, refl)
after_login-Continues who (fetch requests) = (λ h. h, refl)
after_login-Continues who refresh_due = (λ h. h, refl)
after_login-Continues who token_due = (λ h. h, refl)
after_login-Continues who (tokens r) = (λ h. h, refl)
after_login-Continues who (sync r) = (λ h. h, refl)

pub compare_expiry-Continues :
    (who : Caller) (at : ℕ) (r : Result ⊥ ℕ)
    → Continues (for_on_demand who) (compare_expiry who at r)
compare_expiry-Continues who at (ok soon) = elim (Bool-cases (leb at soon)) [
  | inl early ↦ rw early (λ h. h, refl)
  | inr late ↦ rw late (go_on-Continues who)
]
compare_expiry-Continues who at (err e) = absurd e
compare_expiry-Continues who at panic = (λ h. cc, refl)

-- A task that does not hold refresh_lock neither refreshes on a miss nor compares.
pub free-Continues : (q : Pc) → holding q ≡ false → Continues false q
free-Continues (locked requests e) h = cc
free-Continues (timed requests e at) h = cc
free-Continues (unlocking requests e ran) h = cc
free-Continues (ensuring who) h = ((λ x. cc), refl)
free-Continues (has_expiry who at) h = ((λ x. cc), refl)
free-Continues (renewing who) h = ((λ x. cc), refl)
free-Continues (posting who rt) h = ((λ x. cc), refl)
free-Continues (renewed who new_at new_rt expires_in) h = ((λ x. cc), refl)
free-Continues (logging_in who) h = ((λ x. cc), refl)
free-Continues (logged_in who r) h = ((λ x. cc), refl)
free-Continues (valid g) h = ((λ x. cc), refl)
free-Continues (has_token g token) h = ((λ x. cc), refl)
free-Continues (syncing g token key) h = ((λ x. cc), refl)
free-Continues (again g key) h = ((λ x. cc), refl)
free-Continues (resyncing g token key) h = ((λ x. cc), refl)
free-Continues (synced g resp key) h = ((λ x. cc), refl)
free-Continues (unwinding b) h = ((λ x. cc), refl)
free-Continues idle h = ((λ x. cc), refl)
free-Continues crashed h = ((λ x. cc), refl)
free-Continues (asking requests) h = ((λ x. cc), refl)
free-Continues (retrying requests) h = ((λ x. cc), refl)
free-Continues (missed requests e) h = ((λ x. cc), refl)
free-Continues (answered requests r) h = ((λ x. cc), refl)
