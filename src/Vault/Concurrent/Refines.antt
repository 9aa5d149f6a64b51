-- ===== src/Vault/Concurrent/Refines.antt =====
-- The token's upkeep of src/vault/mod.rs by a task that moves alone, and as one call.
use vaultwarden_operator.Prelude.{
  ℕ, ◌+◌, ◌^◌, ◌*◌, ◌≤◌, inl, inr, Option, some, List, ◌∷◌, arith, ltb, leb, Bool-cases, Result, ok,
  err, panic, map_err, Str,
}
use vaultwarden_operator.Prelude.Actions.{next, tried}
use vaultwarden_operator.Duration.{from_secs}
use vaultwarden_operator.Http.{Trace, Net, read_clock}
use vaultwarden_operator.Http
use vaultwarden_operator.Auth.{Services, Login, AuthError, authenticate, refresh_token}
use vaultwarden_operator.Auth.Spans.{IsSpan, authenticate-R, refresh_token-R}
use vaultwarden_operator.Vault.{
  VaultError, Session, VaultClient, World, set_tokens, set_expiry, set_sym_key, modify, expire_in,
  after_refresh, re_authenticate, do_refresh_or_reauth, ensure_valid_token,
}
use vaultwarden_operator.Vault
use vaultwarden_operator.Vault.Tasks.{
  Caller, Pc, ensuring, has_expiry, renewing, posting, renewed, logging_in, logged_in, unwinding,
  tokens, login, Event, for_on_demand, go_on, give_up, store_tokens, store_login, after_post,
  after_login,
}
use vaultwarden_operator.Vault.Concurrent.{advance}
use vaultwarden_operator.Vault.Concurrent.Served.{shared_of, Reaches, step_at, stays}

-- The clock does not run backwards.
abbrev pub IsMonotone : Net → Type 0
IsMonotone net = (e : Http.Event) (t : Trace) → net.clock t ≤ net.clock (e ∷ t)

-- where a task stands after a check or a refresh of the token
abbrev pub token_end : Caller → Result VaultError (Unit {0}) → Pc
token_end who (ok u) = go_on who
token_end who (err e) = give_up who
token_end who panic = unwinding (for_on_demand who)

module _ {RsaPrivateKey : Type 0} (services : Services RsaPrivateKey) (client : VaultClient) where
  module _ (monotone : IsMonotone services.net) where
    pub Later-IsSpan : IsSpan (λ k t t'. services.net.clock t ≤ services.net.clock t')
    Later-IsSpan = record {
      stay = λ k t. omega arith;
      trans = λ j k t t1 t2 h g. omega arith;
      one = λ t req. monotone (Http.sent req) t;
    }

    -- the storing of new tokens, of a refresh
    store_tokens-Reaches :
        (i : ℕ) (who : Caller) (at : Str) (rt : Option Str) (n : ℕ) (s : Session) (t : Trace)
        (lock : Option ℕ) (log : List Event)
        → let w : World = record { session = s; trace = t } in
          let r = after_refresh services client (inr (at, rt, n)) w in
          Reaches services client i
            (read_clock ∷ t)
            (store_tokens who (shared_of s (services.net.clock t) lock log) at rt n)
            r.1
            (token_end who r.0)
    unfolding after_refresh
    store_tokens-Reaches i who at rt n s t lock log =
        let w1 : World = record { session = set_tokens at rt s; trace = read_clock ∷ t } in
        let k = services.net.clock t in
        elim (Bool-cases (ltb (k + from_secs n) (2 ^ 63 * 1000000000))) [
          | inl small ↦ rw small (
              stays services client i k lock log
                (record { session = set_expiry (k + from_secs n) w1.session; trace = w1.trace })
                (go_on who) (monotone read_clock t))
          | inr large ↦ rw large (
              stays services client i k lock log w1 (unwinding (for_on_demand who))
                (monotone read_clock t))
        ]

    -- what follows the answer of `authenticate` in `re_authenticate`
    abbrev stored_login :
        Result AuthError Login × Trace → Session → Result VaultError (Unit {0}) × World
    stored_login (r, t) s =
        next (map_err Vault.auth r, record { session = s; trace = t })
          (λ x w.
            next (modify (set_tokens x.0 (some x.1)) w)
              (λ u w1. next (expire_in services x.2 w1) (λ v. modify (set_sym_key x.3))))

    store_login-Reaches :
        (i : ℕ) (who : Caller) (x : Login) (s : Session) (t : Trace) (lock : Option ℕ)
        (log : List Event)
        → let r = stored_login (ok x, t) s in
          Reaches services client i
            (read_clock ∷ t)
            (store_login who (shared_of s (services.net.clock t) lock log) x)
            r.1
            (token_end who r.0)
    store_login-Reaches i who (at, rt, n, key) s t lock log =
        let w1 : World = record { session = set_tokens at (some rt) s; trace = read_clock ∷ t } in
        let k = services.net.clock t in
        elim (Bool-cases (ltb (k + from_secs n) (2 ^ 63 * 1000000000))) [
          | inl small ↦ rw small (
              stays services client i k lock log
                (record {
                  session = set_sym_key key (set_expiry (k + from_secs n) w1.session);
                  trace = w1.trace;
                })
                (go_on who) (monotone read_clock t))
          | inr large ↦ rw large (
              stays services client i k lock log w1 (unwinding (for_on_demand who))
                (monotone read_clock t))
        ]

    logging_in-Reaches :
        (i : ℕ) (who : Caller) (r : Result AuthError Login × Trace) (s : Session) (k : ℕ)
        (lock : Option ℕ) (log : List Event)
        → k ≤ services.net.clock r.1
        → Reaches services client i r.1
            (shared_of s k lock log, after_login who (login r.0))
            (stored_login r s).1
            (token_end who (stored_login r s).0)
    unfolding advance
    logging_in-Reaches i who (ok x, t) s k lock log h =
        step_at services client i t s k lock log (logged_in who x) _ _ h
          (store_login-Reaches i who x s t lock log)
    logging_in-Reaches i who (err e, t) s k lock log h =
        stays services client i k lock log (record { session = s; trace = t }) (give_up who) h
    logging_in-Reaches i who (panic, t) s k lock log h =
        stays services client i k lock log (record { session = s; trace = t })
          (unwinding (for_on_demand who)) h

    re_authenticate-Reaches :
        (i : ℕ) (who : Caller) (w : World) (k : ℕ) (lock : Option ℕ) (log : List Event)
        → k ≤ services.net.clock w.trace
        → let r = re_authenticate services client w in
          Reaches services client i w.trace
            (shared_of w.session k lock log, logging_in who)
            r.1
            (token_end who r.0)
    unfolding re_authenticate advance
    re_authenticate-Reaches i who w k lock log h =
        let a =
          authenticate services client.base_url client.email client.password client.client_id
            client.client_secret client.device_id w.trace in
        let grown =
          authenticate-R _ Later-IsSpan services client.base_url client.email client.password
            client.client_id client.client_secret client.device_id w.trace in
        step_at services client i w.trace w.session k lock log (logging_in who) _ _ h
          (logging_in-Reaches i who a w.session (services.net.clock w.trace) lock log (omega arith))

    posting-Reaches :
        (i : ℕ) (who : Caller) (rt : Str) (r : Result AuthError (Str × Option Str × ℕ) × Trace)
        (s : Session) (k : ℕ) (lock : Option ℕ) (log : List Event)
        → k ≤ services.net.clock r.1
        → let q =
            next
              (tried {F = VaultError} (r.0, record { session = s; trace = r.1 }))
              (after_refresh services client) in
          Reaches services client i r.1
            (shared_of s k lock log, after_post who rt (tokens r.0))
            q.1
            (token_end who q.0)
    unfolding after_refresh advance
    posting-Reaches i who rt (ok (at, new_rt, n), t) s k lock log h =
        step_at services client i t s k lock log (renewed who at new_rt n) _ _ h
          (store_tokens-Reaches i who at new_rt n s t lock log)
    posting-Reaches i who rt (err e, t) s k lock log h =
        re_authenticate-Reaches i who (record { session = s; trace = t }) k lock log h
    posting-Reaches i who rt (panic, t) s k lock log h =
        stays services client i k lock log (record { session = s; trace = t })
          (unwinding (for_on_demand who)) h

    pub do_refresh_or_reauth-Reaches :
        (i : ℕ) (who : Caller) (w : World) (k : ℕ) (lock : Option ℕ) (log : List Event)
        → k ≤ services.net.clock w.trace
        → let r = do_refresh_or_reauth services client w in
          Reaches services client i w.trace
            (shared_of w.session k lock log, renewing who)
            r.1
            (token_end who r.0)
    unfolding do_refresh_or_reauth advance
    do_refresh_or_reauth-Reaches i who w k lock log h =
        let rt = w.session.refresh_token in
        let r = refresh_token services client.base_url rt w.trace in
        let grown = refresh_token-R _ Later-IsSpan services client.base_url rt w.trace in
        step_at services client i w.trace w.session k lock log (renewing who) _ _ h (
          step_at services client i w.trace w.session (services.net.clock w.trace) lock log
            (posting who rt) _ _ (omega arith)
            (posting-Reaches i who rt r w.session (services.net.clock w.trace) lock log
              (omega arith)))

    -- The check of the token alone is `ensure_valid_token`.
    pub ensure_valid_token-Reaches :
        (i : ℕ) (who : Caller) (w : World) (k : ℕ) (lock : Option ℕ) (log : List Event)
        → k ≤ services.net.clock w.trace
        → let r = ensure_valid_token services client w in
          Reaches services client i w.trace
            (shared_of w.session k lock log, ensuring who)
            r.1
            (token_end who r.0)
    unfolding ensure_valid_token advance
    ensure_valid_token-Reaches i who w k lock log h =
        let at = w.session.token_expires_at in
        let late = services.net.clock w.trace in
        let w1 : World = record { session = w.session; trace = read_clock ∷ w.trace } in
        step_at services client i w.trace w.session k lock log (ensuring who) _ _ h (
          step_at services client i w.trace w.session late lock log (has_expiry who at) _ _
            (omega arith)
            (elim (Bool-cases (ltb (late + from_secs 60) (2 ^ 63 * 1000000000))) [
              | inl small ↦ rw small (elim (Bool-cases (leb at (late + from_secs 60))) [
                | inl early ↦ rw early (
                    do_refresh_or_reauth-Reaches i who w1 late lock log
                      (monotone read_clock w.trace))
                | inr good ↦ rw good (
                    stays services client i late lock log w1 (go_on who)
                      (monotone read_clock w.trace))
              ])
              | inr large ↦ rw large (
                  stays services client i late lock log w1 (unwinding (for_on_demand who))
                    (monotone read_clock w.trace))
            ]))
