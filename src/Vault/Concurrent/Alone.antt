-- ===== src/Vault/Concurrent/Alone.antt =====
-- `refresh_vault_cache` of src/vault/mod.rs by a task that moves alone, and as
-- one call.
use vaultwarden_operator.Prelude.{
  ℕ, ◌≤◌, ◌≡◌, sym, ap, ◌∙◌, subst, true, false, Option, List, ◌∷◌, arith, Result, ok, err, panic,
  map_err, Str,
}
use vaultwarden_operator.Prelude.Actions.{next, next_assoc, attempt, tried, pure}
use vaultwarden_operator.Http.{Trace, read_clock}
use vaultwarden_operator.Auth.{Services}
use vaultwarden_operator.Auth.Spans.{fetch_sync-R}
use vaultwarden_operator.Crypto.{SymmetricKey}
use vaultwarden_operator.Sync.{SyncResponse, VaultCache, DecryptSkips}
use vaultwarden_operator.Sync.Decrypt.{decrypt_vault}
use vaultwarden_operator.Sync.Fetch.{SyncError, unauthorized, fetch_sync}
use vaultwarden_operator.Vault.{
  VaultError, Session, VaultClient, World, outside, with_trace, set_cache, do_refresh_or_reauth,
  ensure_valid_token, after_sync, sync_and_decrypt, refresh_vault_cache,
}
use vaultwarden_operator.Vault
use vaultwarden_operator.Vault.Refresh.{stored, refresh-fresh_cache}
use vaultwarden_operator.Vault.Tasks.{
  Goal, at_start, after_401, Pc, ensuring, renewing, valid, has_token, syncing, again, resyncing,
  synced, unwinding, sync, Event, fetched, Shared, is_on_demand, finish, store_cache,
}
use vaultwarden_operator.Vault.Concurrent.{advance}
use vaultwarden_operator.Vault.Concurrent
use vaultwarden_operator.Vault.Concurrent.Refines.{
  IsMonotone, token_end, Later-IsSpan, do_refresh_or_reauth-Reaches, ensure_valid_token-Reaches,
}
use vaultwarden_operator.Vault.Concurrent.Served.{
  shared_of, stored_at, Reaches, step_at, then-Reaches, stays,
}

-- where a task stands after a refresh of the cache
abbrev pub refresh_end : Goal → Result VaultError (Unit {0}) → Pc
refresh_end g (ok u) = finish g true
refresh_end g (err e) = finish g false
refresh_end g panic = unwinding (is_on_demand g)

module _ {RsaPrivateKey : Type 0} (services : Services RsaPrivateKey) (client : VaultClient)
    (monotone : IsMonotone services.net) where
  -- what `refresh_vault_cache` does with the response, having read the key
  abbrev decrypted :
      SymmetricKey → Result VaultError SyncResponse × World → Result VaultError (Unit {0}) × World
  decrypted key r =
      next
        (next r (λ resp w.
          next
            (map_err (λ e. absurd e) (decrypt_vault services.crates services.unicode resp key), w)
            (λ x. pure x.0)))
        (stored services)

  store_cache-Reaches :
      (i : ℕ) (g : Goal) (d : Result ⊥ (VaultCache × DecryptSkips)) (w : World) (lock : Option ℕ)
      (log : List Event)
      → let r =
          next
            (next (map_err {F = VaultError} (λ e. absurd e) d, w) (λ x. pure x.0))
            (stored services) in
        Reaches services client i
          (stored_at d w.trace)
          (store_cache g (shared_of w.session (services.net.clock w.trace) lock log) d)
          r.1
          (refresh_end g r.0)
  store_cache-Reaches i g (ok (cache, skips)) w lock log =
      let k = services.net.clock w.trace in
      stays services client i k lock _
        (record { session = set_cache cache k w.session; trace = read_clock ∷ w.trace })
        (finish g true) (monotone read_clock w.trace)
  store_cache-Reaches i g (err e) w lock log = absurd e
  store_cache-Reaches i g panic w lock log =
      stays services client i _ lock log w (unwinding (is_on_demand g)) (omega arith)

  synced-Reaches :
      (i : ℕ) (g : Goal) (resp : SyncResponse) (key : SymmetricKey) (w : World) (k : ℕ)
      (lock : Option ℕ) (log : List Event)
      → k ≤ services.net.clock w.trace
      → let r = decrypted key (ok resp, w) in
        Reaches services client i w.trace
          (shared_of w.session k lock log, synced g resp key)
          r.1
          (refresh_end g r.0)
  unfolding advance
  synced-Reaches i g resp key w k lock log h =
      step_at services client i w.trace w.session k lock log (synced g resp key) _ _ h (
        store_cache-Reaches i g (decrypt_vault services.crates services.unicode resp key) w lock
          log)

  -- the second request, and what follows it
  resyncing-Reaches :
      (i : ℕ) (g : Goal) (token : Str) (key : SymmetricKey)
      (r : Result SyncError SyncResponse × Trace) (s : Session) (k : ℕ) (lock : Option ℕ)
      (log : List Event)
      → k ≤ services.net.clock r.1
      → let q = decrypted key (with_trace s (map_err Vault.sync r.0, r.1)) in
        Reaches services client i r.1
          (Concurrent.after_resync (shared_of s k lock log) g token key (sync r.0))
          q.1
          (refresh_end g q.0)
  resyncing-Reaches i g token key (ok resp, t) s k lock log h =
      synced-Reaches i g resp key (record { session = s; trace = t }) k lock (fetched resp ∷ log) h
  resyncing-Reaches i g token key (err e, t) s k lock log h =
      stays services client i k lock log (record { session = s; trace = t }) (finish g false) h
  resyncing-Reaches i g token key (panic, t) s k lock log h =
      stays services client i k lock log (record { session = s; trace = t })
        (unwinding (is_on_demand g)) h

  again-Reaches :
      (i : ℕ) (g : Goal) (key : SymmetricKey) (w : World) (k : ℕ) (lock : Option ℕ)
      (log : List Event)
      → k ≤ services.net.clock w.trace
      → let r = fetch_sync services client.base_url w.session.access_token w.trace in
        let q = decrypted key (with_trace w.session (map_err Vault.sync r.0, r.1)) in
        Reaches services client i w.trace
          (shared_of w.session k lock log, again g key)
          q.1
          (refresh_end g q.0)
  unfolding advance
  again-Reaches i g key w k lock log h =
      let token = w.session.access_token in
      let r = fetch_sync services client.base_url token w.trace in
      let grown =
        fetch_sync-R _ (Later-IsSpan services client monotone) services client.base_url token
          w.trace in
      step_at services client i w.trace w.session k lock log (again g key) _ _ h (
        step_at services client i w.trace w.session (services.net.clock w.trace) lock log
          (resyncing g token key) _ _ (omega arith)
          (resyncing-Reaches i g token key r w.session (services.net.clock w.trace) lock log
            (omega arith)))

  -- after a 401: the refresh of the token, and the second request
  renewing-Reaches :
      (i : ℕ) (g : Goal) (key : SymmetricKey) (r : Result VaultError (Unit {0}) × World) (t : Trace)
      (m : Shared × Pc)
      → Reaches services client i t m r.1 (token_end (after_401 g key) r.0)
      → let q = decrypted key (
          next r (λ u w.
            let f = fetch_sync services client.base_url w.session.access_token w.trace in
            with_trace w.session (map_err Vault.sync f.0, f.1))) in
        Reaches services client i t m q.1 (refresh_end g q.0)
  renewing-Reaches i g key (ok u, w) t m reached =
      then-Reaches services client i t m w _ (again g key) _ reached (again-Reaches i g key w)
  renewing-Reaches i g key (err e, w) t m reached = reached
  renewing-Reaches i g key (panic, w) t m reached = reached

  syncing-Reaches :
      (i : ℕ) (g : Goal) (token : Str) (key : SymmetricKey)
      (r : Result SyncError SyncResponse × Trace) (s : Session) (k : ℕ) (lock : Option ℕ)
      (log : List Event)
      → k ≤ services.net.clock r.1
      → let q = decrypted key (
          next
            (tried {F = VaultError} (r.0, record { session = s; trace = r.1 }))
            (after_sync services client)) in
        Reaches services client i r.1
          (Concurrent.after_sync (shared_of s k lock log) g token key (sync r.0))
          q.1
          (refresh_end g q.0)
  unfolding after_sync
  syncing-Reaches i g token key (ok resp, t) s k lock log h =
      synced-Reaches i g resp key (record { session = s; trace = t }) k lock (fetched resp ∷ log) h
  syncing-Reaches i g token key (err unauthorized, t) s k lock log h =
      let w : World = record { session = s; trace = t } in
      renewing-Reaches i g key (do_refresh_or_reauth services client w) t
        (shared_of s k lock log, renewing (after_401 g key))
        (do_refresh_or_reauth-Reaches services client monotone i (after_401 g key) w k lock log h)
  syncing-Reaches i g token key (err e, t) s k lock log h =
      stays services client i k lock log (record { session = s; trace = t }) (finish g false) h
  syncing-Reaches i g token key (panic, t) s k lock log h =
      stays services client i k lock log (record { session = s; trace = t })
        (unwinding (is_on_demand g)) h

  sync_and_decrypt-decrypted :
      (w : World)
      → next (sync_and_decrypt services client w) (stored services)
        ≡ decrypted w.session.sym_key (
            next
              (attempt {F = VaultError}
                (outside (fetch_sync services client.base_url w.session.access_token))
                w)
              (after_sync services client))
  unfolding sync_and_decrypt
  sync_and_decrypt-decrypted w =
      ap (λ r. next r (stored services))
        (sym (
          next_assoc
            (attempt {F = VaultError}
              (outside (fetch_sync services client.base_url w.session.access_token)) w)
            (after_sync services client) _))

  valid-Reaches :
      (i : ℕ) (g : Goal) (w : World) (k : ℕ) (lock : Option ℕ) (log : List Event)
      → k ≤ services.net.clock w.trace
      → let q = next (sync_and_decrypt services client w) (stored services) in
        Reaches services client i w.trace
          (shared_of w.session k lock log, valid g)
          q.1
          (refresh_end g q.0)
  unfolding advance
  valid-Reaches i g w k lock log h =
      let token = w.session.access_token in
      let key = w.session.sym_key in
      let r = fetch_sync services client.base_url token w.trace in
      let grown =
        fetch_sync-R _ (Later-IsSpan services client monotone) services client.base_url token
          w.trace in
      let m = shared_of w.session k lock log in
      subst (λ q. Reaches services client i w.trace (m, valid g) q.1 (refresh_end g q.0))
        (sym (sync_and_decrypt-decrypted w))
        (step_at services client i w.trace w.session k lock log (valid g) _ _ h (
          step_at services client i w.trace w.session (services.net.clock w.trace) lock log
            (has_token g token) _ _ (omega arith)
            (step_at services client i w.trace w.session (services.net.clock w.trace) lock log
              (syncing g token key) _ _ (omega arith)
              (syncing-Reaches i g token key r w.session (services.net.clock w.trace) lock log
                (omega arith)))))

  ensured-Reaches :
      (i : ℕ) (g : Goal) (t : Trace) (m : Shared × Pc) (r : Result VaultError (Unit {0}) × World)
      → Reaches services client i t m r.1 (token_end (at_start g) r.0)
      → let q = next r (λ u w. next (sync_and_decrypt services client w) (stored services)) in
        Reaches services client i t m q.1 (refresh_end g q.0)
  ensured-Reaches i g t m (ok u, w) reached =
      then-Reaches services client i t m w _ (valid g) _ reached (valid-Reaches i g w)
  ensured-Reaches i g t m (err e, w) reached = reached
  ensured-Reaches i g t m (panic, w) reached = reached

  -- A task that refreshes alone does what `refresh_vault_cache` does.
  pub refresh_vault_cache-Reaches :
      (i : ℕ) (g : Goal) (w : World) (k : ℕ) (lock : Option ℕ) (log : List Event)
      → k ≤ services.net.clock w.trace
      → let r = refresh_vault_cache services client w in
        Reaches services client i w.trace
          (shared_of w.session k lock log, ensuring (at_start g))
          r.1
          (refresh_end g r.0)
  refresh_vault_cache-Reaches i g w k lock log h =
      let m = shared_of w.session k lock log in
      let e = ensure_valid_token services client w in
      subst
        (λ q. Reaches services client i w.trace (m, ensuring (at_start g)) q.1 (refresh_end g q.0))
        (sym (
          refresh-fresh_cache services client w
          ∙ next_assoc e (λ u. sync_and_decrypt services client) (stored services)))
        (ensured-Reaches i g w.trace (m, ensuring (at_start g)) e
          (ensure_valid_token-Reaches services client monotone i (at_start g) w k lock log h))
