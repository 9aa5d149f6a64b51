-- ===== src/Vault/Concurrent/Answers.antt =====
-- Where the answers of `fetch_secrets` of src/vault/mod.rs come from, among concurrent tasks.
use vaultwarden_operator.Prelude.{
  ℕ, ◌-◌, ◌≡◌, refl, ap, inl, inr, true, false, none, some, List, [], ◌∷◌, ltb, ◌==◌, Bool-cases,
  Result, err, Str,
}
use vaultwarden_operator.Duration.{from_secs}
use vaultwarden_operator.Http.{instant_add}
use vaultwarden_operator.Auth.{Services}
use vaultwarden_operator.Sync.{VaultCache}
use vaultwarden_operator.Sync.Decrypt.{decrypt_vault}
use vaultwarden_operator.Vault.{
  VaultError, SecretRequest, Session, VaultClient, set_tokens, set_expiry, set_sym_key,
}
use vaultwarden_operator.Vault
use vaultwarden_operator.Vault.Fetch.{lookup_in}
use vaultwarden_operator.Vault.Tasks.{
  on_demand, at_start, Pc, idle, crashed, asking, retrying, missed, locked, timed, unlocking,
  answered, ensuring, has_expiry, renewing, posting, renewed, logging_in, logged_in, valid,
  has_token, syncing, again, resyncing, synced, unwinding, Choice, Shared, begin, after_try,
  after_retry, after_post, after_login,
}
use vaultwarden_operator.Vault.Concurrent.{
  advance, System, Turn, tick, move, moved, turn, run, at_rest,
}
use vaultwarden_operator.Vault.Concurrent.Claims.{
  goal_claim, caller_claim, claim, begin-Follows, after_try-Follows, after_retry-Follows,
  after_post-Follows, after_login-Follows, compare_expiry-Follows,
}
use vaultwarden_operator.Vault.Concurrent.Explained.{
  IsExplained, HasHeld, IsTold, TellStep, grown-IsTold, follows, looked, after_sync-TellStep,
  after_resync-TellStep, store_expiry-TellStep, store_cache-TellStep, take_lock-TellStep,
}

module _ {RsaPrivateKey : Type 0} (services : Services RsaPrivateKey) (first : VaultCache) where
  module _ (client : VaultClient) where
    advance-TellStep :
        (i : ℕ) (c : Choice) (m : Shared) (p : Pc)
        → HasHeld services first m
        → IsTold services first m p
        → TellStep services first m (advance services client i c m p)
    unfolding advance
    advance-TellStep i c m idle held (told, got) =
        follows services first m none (begin c) (begin-Follows none c) held told
    advance-TellStep i c m crashed held (told, got) =
        follows services first m none crashed (inl refl, refl) held told
    advance-TellStep i c m (asking requests) held (told, got) =
        let r = lookup_in services m.session.vault requests in
        follows services first m (some (requests, r)) (after_try requests r)
          (after_try-Follows requests r) held (looked services first m requests held)
    advance-TellStep i c m (missed requests e) held (told, got) =
        take_lock-TellStep services first m held i requests e m.refresh_lock told
    advance-TellStep i c m (locked requests e) held (told, got) =
        follows services first m (some (requests, err (Vault.lookup e)))
          (timed requests e m.session.last_refresh_at) (inl refl, refl) held told
    advance-TellStep i c m (timed requests e at) held (told, got) =
        elim (Bool-cases (ltb (m.clock - at) client.min_refresh_interval)) [
          | inl early ↦ rw early (
              follows services first m (some (requests, err (Vault.lookup e)))
                (unlocking requests e false) (inl refl, refl) held told)
          | inr late ↦ rw late (
              follows services first m (some (requests, err (Vault.lookup e)))
                (ensuring (at_start (on_demand requests e))) (inl refl, refl) held told)
        ]
    advance-TellStep i c m (unlocking requests e true) held (told, got) =
        (held, ((λ requests r h. cc), (λ resp h. cc)), λ e h. h)
    advance-TellStep i c m (unlocking requests e false) held (told, got) =
        (held, (told, λ resp h. cc), λ e h. h)
    advance-TellStep i c m (retrying requests) held (told, got) =
        let r = lookup_in services m.session.vault requests in
        follows services first m (some (requests, r)) (after_retry requests r)
          (after_retry-Follows requests r) held (looked services first m requests held)
    advance-TellStep i c m (answered requests r) held (told, got) =
        follows services first m (some (requests, r)) idle (inr refl, refl) held told
    advance-TellStep i c m (ensuring who) held (told, got) =
        follows services first m (caller_claim who) (has_expiry who m.session.token_expires_at)
          (inl refl, refl) held told
    advance-TellStep i c m (has_expiry who at) held (told, got) =
        follows services first m (caller_claim who) _
          (compare_expiry-Follows who at (instant_add m.clock (from_secs 60))) held told
    advance-TellStep i c m (renewing who) held (told, got) =
        follows services first m (caller_claim who) (posting who m.session.refresh_token)
          (inl refl, refl) held told
    advance-TellStep i c m (posting who rt) held (told, got) =
        follows services first m (caller_claim who) (after_post who rt c)
          (after_post-Follows who rt c) held told
    advance-TellStep i c m (renewed who new_at new_rt expires_in) held (told, got) =
        store_expiry-TellStep services first m held who (set_tokens new_at new_rt m.session)
          set_expiry (instant_add m.clock (from_secs expires_in)) refl (λ at. refl) told
    advance-TellStep i c m (logging_in who) held (told, got) =
        follows services first m (caller_claim who) (after_login who c) (after_login-Follows who c)
          held told
    advance-TellStep i c m (logged_in who (at, rt, expires_in, key)) held (told, got) =
        store_expiry-TellStep services first m held who (set_tokens at (some rt) m.session)
          (λ x s. set_sym_key key (set_expiry x s)) (instant_add m.clock (from_secs expires_in))
          refl (λ x. refl) told
    advance-TellStep i c m (valid g) held (told, got) =
        follows services first m (goal_claim g) (has_token g m.session.access_token)
          (inl refl, refl) held told
    advance-TellStep i c m (has_token g token) held (told, got) =
        follows services first m (goal_claim g) (syncing g token m.session.sym_key) (inl refl, refl)
          held told
    advance-TellStep i c m (syncing g token key) held (told, got) =
        after_sync-TellStep services first m held g token key c told
    advance-TellStep i c m (again g key) held (told, got) =
        follows services first m (goal_claim g) (resyncing g m.session.access_token key)
          (inl refl, refl) held told
    advance-TellStep i c m (resyncing g token key) held (told, got) =
        after_resync-TellStep services first m held g token key c told
    advance-TellStep i c m (synced g resp key) held (told, got) =
        store_cache-TellStep services first m held g resp key
          (decrypt_vault services.crates services.unicode resp key) refl told (got resp refl)
    advance-TellStep i c m (unwinding true) held (told, got) =
        (held, (told, λ resp h. cc), λ e h. h)
    advance-TellStep i c m (unwinding false) held (told, got) =
        (held, (told, λ resp h. cc), λ e h. h)

    -- The session has a cache, and what the tasks have found comes from such.
    record IsTruthful (s : System) : Type 0 where
      held : HasHeld services first s.shared
      told : (i : ℕ) → IsTold services first s.shared (s.tasks i)

    moved-IsTold :
        (s : System) (i : ℕ) (r : Shared × Pc)
        → IsTruthful s
        → TellStep services first s.shared r
        → (j : ℕ) → IsTold services first (moved s i r).shared ((moved s i r).tasks j)
    moved-IsTold s i (m', p') t (held, told, grows) j = elim (Bool-cases (i == j)) [
      | inl own ↦ rw own told
      | inr other ↦ rw other (grown-IsTold services first s.shared m' (s.tasks j) grows (t.told j))
    ]

    turn-IsTruthful : (x : Turn) (s : System) → IsTruthful s → IsTruthful (turn services client x s)
    unfolding turn
    turn-IsTruthful (tick n) s t = record { held = t.held; told = t.told }
    turn-IsTruthful (move i c) s t =
        let step = advance-TellStep i c s.shared (s.tasks i) t.held (t.told i) in
        record {
          held = step.0;
          told = moved-IsTold s i (advance services client i c s.shared (s.tasks i)) t step;
        }

    run-IsTruthful :
        (turns : List Turn) (s : System) → IsTruthful s → IsTruthful (run services client turns s)
    unfolding run
    run-IsTruthful [] s t = t
    run-IsTruthful (x ∷ turns) s t =
        run-IsTruthful turns (turn services client x s) (turn-IsTruthful x s t)

-- Among any tasks, with any answers of the server, a session that starts with a cache keeps one; and
-- an answer of `fetch_secrets`, values or error, is that of all the lookups in a single cache, which
-- is the first one or was stored after it had been made of a fetched response.
pub fetch_secrets-IsExplained :
    {RsaPrivateKey : Type 0} (services : Services RsaPrivateKey) (client : VaultClient)
    (turns : List Turn) (session : Session) (clock : ℕ) (first : VaultCache)
    → session.vault ≡ some first
    → let s = run services client turns (at_rest session clock) in
      HasHeld services first s.shared
      × ((i : ℕ) (requests : List SecretRequest) (r : Result VaultError (List Str))
          → s.tasks i ≡ answered requests r
          → IsExplained services first s.shared.log requests r)
fetch_secrets-IsExplained services client turns session clock first v =
    let start : System = at_rest session clock in
    let t = run-IsTruthful services first client turns start (record {
      held = (first, v, inl refl);
      told = λ i. ((λ requests r h. cc), (λ resp h. cc));
    }) in
    (t.held, λ i requests r h. (t.told i).0 requests r (ap claim h))
