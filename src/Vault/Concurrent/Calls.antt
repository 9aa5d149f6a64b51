-- ===== src/Vault/Concurrent/Calls.antt =====
-- `fetch_secrets` of src/vault/mod.rs by a task that moves alone, and as one call.
use vaultwarden_operator.Prelude.{
  ℕ, ◌-◌, ◌≤◌, ◌≡◌, ap, ◌∙◌, inl, inr, Bool, true, false, Option, none, some, List, [], ◌∷◌, arith,
  ltb, ◌==◌, ==_refl, Bool-cases, Result, ok, err, panic, Str,
}
use vaultwarden_operator.Prelude.Actions.{next, tried, pure}
use vaultwarden_operator.Http.{Trace, read_clock}
use vaultwarden_operator.Auth.{Services}
use vaultwarden_operator.Sync.{LookupError, is_stale_miss}
use vaultwarden_operator.Vault.{VaultError, SecretRequest, VaultClient, World, refresh_vault_cache}
use vaultwarden_operator.Vault
use vaultwarden_operator.Vault.Fetch.{
  lookup_in, try_fetch_secrets, refresh_if_due, retry, fetch_secrets,
}
use vaultwarden_operator.Vault.Fetch
use vaultwarden_operator.Vault.Tasks.{
  on_demand, Pc, asking, retrying, missed, locked, timed, unlocking, answered, crashed, unwinding,
  Choice, fetch, Event, Shared, idle,
}
use vaultwarden_operator.Vault.Concurrent.{advance, System, Turn, move, moved, turn, run, at_rest}
use vaultwarden_operator.Vault.Concurrent
use vaultwarden_operator.Vault.Concurrent.Refines.{IsMonotone}
use vaultwarden_operator.Vault.Concurrent.Served.{
  shared_of, IsServed, Reaches, step_at, then-Reaches, stays,
}
use vaultwarden_operator.Vault.Concurrent.Solo.{alone, solo, run-solo}
use vaultwarden_operator.Vault.Concurrent.Alone.{refresh_end, refresh_vault_cache-Reaches}

-- where a task stands after a call of `fetch_secrets`
abbrev pub fetch_end : List SecretRequest → Result VaultError (List Str) → Pc
fetch_end requests (ok values) = answered requests (ok values)
fetch_end requests (err e) = answered requests (err e)
fetch_end requests panic = crashed

module _ {RsaPrivateKey : Type 0} (services : Services RsaPrivateKey) (client : VaultClient)
    (monotone : IsMonotone services.net) where
  -- a panic drops the guards
  unwinding-Reaches :
      (i : ℕ) (b : Bool) (w : World) (k : ℕ) (lock : Option ℕ) (log : List Event)
      → k ≤ services.net.clock w.trace
      → Reaches services client i w.trace (shared_of w.session k lock log, unwinding b) w crashed
  unfolding advance
  unwinding-Reaches i true w k lock log h =
      step_at services client i w.trace w.session k lock log (unwinding true) _ _ h
        (stays services client i (services.net.clock w.trace) none log w crashed (omega arith))
  unwinding-Reaches i false w k lock log h =
      step_at services client i w.trace w.session k lock log (unwinding false) _ _ h
        (stays services client i (services.net.clock w.trace) lock log w crashed (omega arith))

  retried-Reaches :
      (i : ℕ) (requests : List SecretRequest) (w : World) (k : ℕ) (lock : Option ℕ)
      (log : List Event) (r : Result VaultError (List Str))
      → k ≤ services.net.clock w.trace
      → Reaches services client i w.trace
          (shared_of w.session k lock log, Concurrent.after_retry requests r)
          w
          (fetch_end requests r)
  retried-Reaches i requests w k lock log (ok values) h =
      stays services client i k lock log w (answered requests (ok values)) h
  retried-Reaches i requests w k lock log (err e) h =
      stays services client i k lock log w (answered requests (err e)) h
  retried-Reaches i requests w k lock log panic h = unwinding-Reaches i false w k lock log h

  unlocking-Reaches :
      (i : ℕ) (requests : List SecretRequest) (e : LookupError) (ran : Bool) (w : World) (k : ℕ)
      (lock : Option ℕ) (log : List Event)
      → k ≤ services.net.clock w.trace
      → let r = retry services e requests ran w in
        Reaches services client i w.trace
          (shared_of w.session k lock log, unlocking requests e ran)
          r.1
          (fetch_end requests r.0)
  unfolding advance try_fetch_secrets
  unlocking-Reaches i requests e true w k lock log h =
      step_at services client i w.trace w.session k lock log (unlocking requests e true) _ _ h (
        step_at services client i w.trace w.session (services.net.clock w.trace) none log
          (retrying requests) _ _ (omega arith)
          (retried-Reaches i requests w (services.net.clock w.trace) none log
            (lookup_in services w.session.vault requests) (omega arith)))
  unlocking-Reaches i requests e false w k lock log h =
      step_at services client i w.trace w.session k lock log (unlocking requests e false) _ _ h (
        stays services client i (services.net.clock w.trace) none log w
          (answered requests (err (Vault.lookup e))) (omega arith))

  -- the refresh under the lock, and what follows it
  refreshed-Reaches :
      (i : ℕ) (requests : List SecretRequest) (e : LookupError) (t : Trace) (m : Shared × Pc)
      (r : Result VaultError (Unit {0}) × World)
      → Reaches services client i t m r.1 (refresh_end (on_demand requests e) r.0)
      → let q =
          next
            (next (tried {F = VaultError} r) (λ x. pure (elim x [ inl e ↦ false | inr u ↦ true ])))
            (retry services e requests) in
        Reaches services client i t m q.1 (fetch_end requests q.0)
  refreshed-Reaches i requests e t m (ok u, w) reached =
      then-Reaches services client i t m w _ (unlocking requests e true) _ reached
        (unlocking-Reaches i requests e true w)
  refreshed-Reaches i requests e t m (err x, w) reached =
      then-Reaches services client i t m w _ (unlocking requests e false) _ reached
        (unlocking-Reaches i requests e false w)
  refreshed-Reaches i requests e t m (panic, w) reached =
      then-Reaches services client i t m w _ (unwinding true) _ reached (unwinding-Reaches i true w)

  missed-Reaches :
      (i : ℕ) (requests : List SecretRequest) (e : LookupError) (w : World) (k : ℕ)
      (log : List Event)
      → k ≤ services.net.clock w.trace
      → let q = next (refresh_if_due services client w) (retry services e requests) in
        Reaches services client i w.trace
          (shared_of w.session k none log, missed requests e)
          q.1
          (fetch_end requests q.0)
  unfolding advance refresh_if_due
  missed-Reaches i requests e w k log h =
      let late = services.net.clock w.trace in
      let at = w.session.last_refresh_at in
      let w1 : World = record { session = w.session; trace = read_clock ∷ w.trace } in
      let l = monotone read_clock w.trace in
      step_at services client i w.trace w.session k none log (missed requests e) _ _ h (
        step_at services client i w.trace w.session late (some i) log (locked requests e) _ _
          (omega arith)
          (step_at services client i w.trace w.session late (some i) log (timed requests e at) _ _
            (omega arith)
            (elim (Bool-cases (ltb (late - at) client.min_refresh_interval)) [
              | inl early ↦ rw early (unlocking-Reaches i requests e false w1 late (some i) log l)
              | inr due ↦ rw due (
                  refreshed-Reaches i requests e w1.trace _ (refresh_vault_cache services client w1)
                    (refresh_vault_cache-Reaches services client monotone i (on_demand requests e)
                      w1 late (some i) log l))
            ])))

  asking-Reaches :
      (i : ℕ) (requests : List SecretRequest) (w : World) (k : ℕ) (log : List Event)
      (r : Result VaultError (List Str))
      → k ≤ services.net.clock w.trace
      → let q = next (tried {F = VaultError} (r, w)) (Fetch.after_try services client requests) in
        Reaches services client i w.trace
          (shared_of w.session k none log, Concurrent.after_try requests r)
          q.1
          (fetch_end requests q.0)
  asking-Reaches i requests w k log (err (Vault.lookup e)) h = elim (Bool-cases (is_stale_miss e)) [
    | inl stale ↦ rw stale (missed-Reaches i requests e w k log h)
    | inr other ↦
        rw other (stays services client i k none log w (answered requests (err (Vault.lookup e))) h)
  ]
  asking-Reaches i requests w k log (err (Vault.auth e)) h =
      stays services client i k none log w (answered requests (err (Vault.auth e))) h
  asking-Reaches i requests w k log (err (Vault.sync e)) h =
      stays services client i k none log w (answered requests (err (Vault.sync e))) h
  asking-Reaches i requests w k log (err Vault.not_initialized) h =
      stays services client i k none log w (answered requests (err Vault.not_initialized)) h
  asking-Reaches i requests w k log (ok values) h =
      stays services client i k none log w (answered requests (ok values)) h
  asking-Reaches i requests w k log panic h = unwinding-Reaches i false w k none log h

  fetch_secrets-Reaches :
      (i : ℕ) (requests : List SecretRequest) (w : World) (k : ℕ) (log : List Event)
      → k ≤ services.net.clock w.trace
      → let q = fetch_secrets services client requests w in
        Reaches services client i w.trace
          (shared_of w.session k none log, asking requests)
          q.1
          (fetch_end requests q.0)
  unfolding advance fetch_secrets try_fetch_secrets
  fetch_secrets-Reaches i requests w k log h =
      step_at services client i w.trace w.session k none log (asking requests) _ _ h (
        asking-Reaches i requests w (services.net.clock w.trace) log
          (lookup_in services w.session.vault requests) (omega arith))

  -- With a clock that does not run backwards, each call of `fetch_secrets` is a run of the tasks in
  -- which, after the call, one task alone moves: each of its moves is at the time of the call's
  -- clock, its requests are the call's and have the outcomes that the call has, and in the end it has
  -- made those of the call and no other. The run leaves the session of the call, the task is answered
  -- with the result of the call or has panicked like it, and the others are idle.
  pub fetch_secrets_refines :
      (i : ℕ) (requests : List SecretRequest) (w : World)
      → let q = fetch_secrets services client requests w in
        let start : System = at_rest w.session (services.net.clock w.trace) in
        (cs : List (ℕ × Choice)) × IsServed services client i cs w.trace
          (start.shared, asking requests)
          q.1.trace
        × (let s = run services client (move i (fetch requests) ∷ alone i cs) start in
            (s.shared.session ≡ q.1.session)
            × (s.tasks i ≡ fetch_end requests q.0)
            × ((j : ℕ) → (i == j) ≡ false → s.tasks j ≡ idle))
  unfolding advance run turn
  fetch_secrets_refines i requests w =
      let now = services.net.clock w.trace in
      let start : System = at_rest w.session now in
      let asked : System = moved start i (start.shared, asking requests) in
      let own : asked.tasks i ≡ asking requests = rw (==_refl i) in
      let (cs, k, lock, log, e, l, follows) =
        fetch_secrets-Reaches i requests w now [] (omega arith) in
      let (shared, task, others) = run-solo services client i cs asked in
      (
        cs,
        follows,
        (
          ap (λ (m : Shared). m.session)
              (shared
                ∙ ap (λ p. (solo services client i cs (start.shared, p)).0) own
                ∙ ap (λ r. r.0) e),
          task ∙ ap (λ p. (solo services client i cs (start.shared, p)).1) own ∙ ap (λ r. r.1) e,
          λ j ne. others j ne ∙ rw ne,
        ),
      )
