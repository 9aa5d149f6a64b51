-- ===== src/Vault/Concurrent/Served.antt =====
-- One task of src/vault/mod.rs that moves alone, served by the server and the clock that a call
-- has: what each await of the task gets, and when.
use vaultwarden_operator.Prelude.{
  ℕ, ◌+◌, ◌-◌, ◌≤◌, ◌≡◌, refl, sym, subst, Option, List, [], ◌∷◌, ◌++◌, arith, Result, ok, err,
  panic,
}
use vaultwarden_operator.Http.{Trace, read_clock}
use vaultwarden_operator.Auth.{Services, authenticate, refresh_token}
use vaultwarden_operator.Sync.{VaultCache, DecryptSkips}
use vaultwarden_operator.Sync.Decrypt.{decrypt_vault}
use vaultwarden_operator.Sync.Fetch.{fetch_sync}
use vaultwarden_operator.Vault.{Session, VaultClient, World}
use vaultwarden_operator.Vault.Tasks.{
  Pc, idle, crashed, asking, retrying, missed, locked, timed, unlocking, answered, ensuring,
  has_expiry, renewing, posting, renewed, logging_in, logged_in, valid, has_token, syncing, again,
  resyncing, synced, unwinding, Choice, nothing, tokens, login, sync, Event, Shared,
}
use vaultwarden_operator.Vault.Concurrent.{advance, later}
use vaultwarden_operator.Vault.Concurrent.Solo.{solo, solo_trans}

abbrev pub shared_of : Session → ℕ → Option ℕ → List Event → Shared
shared_of s k lock log = record { session = s; clock = k; refresh_lock = lock; log = log }

-- a refresh that did not panic reads the clock
abbrev pub stored_at : Result ⊥ (VaultCache × DecryptSkips) → Trace → Trace
stored_at (ok made) t = read_clock ∷ t
stored_at (err e) t = t
stored_at panic t = t

module _ {RsaPrivateKey : Type 0} (services : Services RsaPrivateKey) (client : VaultClient) where
  -- What a task at `p` gets after the requests of `t`: the outcome of its own requests, made then, or
  -- nothing; and what has been requested by the end of the move.
  abbrev pub serve : Pc → Trace → Choice × Trace
  serve (posting who rt) t =
      let r = refresh_token services client.base_url rt t in (tokens r.0, r.1)
  serve (logging_in who) t =
      let r =
        authenticate services client.base_url client.email client.password client.client_id
          client.client_secret client.device_id t in
      (login r.0, r.1)
  serve (syncing g token key) t =
      let r = fetch_sync services client.base_url token t in (sync r.0, r.1)
  serve (resyncing g token key) t =
      let r = fetch_sync services client.base_url token t in (sync r.0, r.1)
  serve (timed requests e at) t = (nothing, read_clock ∷ t)
  serve (has_expiry who at) t = (nothing, read_clock ∷ t)
  serve (renewed who at rt n) t = (nothing, read_clock ∷ t)
  serve (logged_in who x) t = (nothing, read_clock ∷ t)
  serve (synced g resp key) t =
      (nothing, stored_at (decrypt_vault services.crates services.unicode resp key) t)
  serve idle t = (nothing, t)
  serve crashed t = (nothing, t)
  serve (asking requests) t = (nothing, t)
  serve (retrying requests) t = (nothing, t)
  serve (missed requests e) t = (nothing, t)
  serve (locked requests e) t = (nothing, t)
  serve (unlocking requests e ran) t = (nothing, t)
  serve (answered requests r) t = (nothing, t)
  serve (ensuring who) t = (nothing, t)
  serve (renewing who) t = (nothing, t)
  serve (valid g) t = (nothing, t)
  serve (has_token g token) t = (nothing, t)
  serve (again g key) t = (nothing, t)
  serve (unwinding b) t = (nothing, t)

  -- Each move is at the time of the clock and with what the task is served, from the requests of one
  -- trace to those of the other.
  unfoldable pub IsServed : ℕ → List (ℕ × Choice) → Trace → Shared × Pc → Trace → Type 0
  IsServed i [] t r t' = t ≡ t'
  IsServed i ((n, c) ∷ cs) t (m, p) t' =
      (m.clock + n ≡ services.net.clock t)
      × (c ≡ (serve p t).0)
      × IsServed i cs (serve p t).1 (advance services client i c (later n m) p) t'

  IsServed-append :
      (i : ℕ) (cs ds : List (ℕ × Choice)) (t t1 t2 : Trace) (r : Shared × Pc)
      → IsServed i cs t r t1
      → IsServed i ds t1 (solo services client i cs r) t2
      → IsServed i (cs ++ ds) t r t2
  unfolding IsServed solo
  IsServed-append i [] ds t t1 t2 r same f = subst (λ x. IsServed i ds x r t2) (sym same) f
  IsServed-append i ((n, c) ∷ cs) ds t t1 t2 (m, p) (late, served, rest) f = (
    late,
    served,
    IsServed-append i cs ds (serve p t).1 t1 t2 (advance services client i c (later n m) p) rest f,
  )

  -- Alone, the task `i` comes to `p` as it is served, with the session of `w` and at a time before
  -- the next reading of its clock.
  abbrev pub Reaches : ℕ → Trace → Shared × Pc → World → Pc → Type 0
  Reaches i t r w p =
      (cs : List (ℕ × Choice)) × (k : ℕ) × (lock : Option ℕ) × (log : List Event) × (solo services
          client i cs r
        ≡ (shared_of w.session k lock log, p))
      × (k ≤ services.net.clock w.trace)
      × IsServed i cs t r w.trace

  -- A move, at the time of the clock.
  pub step_at :
      (i : ℕ) (t : Trace) (s : Session) (k : ℕ) (lock : Option ℕ) (log : List Event) (p p' : Pc)
      (w : World)
      → k ≤ services.net.clock t
      → Reaches i
          (serve p t).1
          (advance services client i (serve p t).0 (shared_of s (services.net.clock t) lock log) p)
          w
          p'
      → Reaches i t (shared_of s k lock log, p) w p'
  unfolding solo IsServed
  step_at i t s k lock log p p' w h (cs, k', lock', log', e, l, f) =
      let late = services.net.clock t in
      let c = (serve p t).0 in
      let waits : late ≡ k + (late - k) = omega arith in
      (
        (late - k, c) ∷ cs,
        k',
        lock',
        log',
        subst
            (λ x.
              solo services client i cs (advance services client i c (shared_of s x lock log) p)
              ≡ (shared_of w.session k' lock' log', p'))
            waits e,
        l,
        (
          sym waits,
          refl,
          subst
              (λ x.
                IsServed i cs (serve p t).1 (advance services client i c (shared_of s x lock log) p)
                  w.trace)
              waits f,
        ),
      )

  pub then-Reaches :
      (i : ℕ) (t : Trace) (r : Shared × Pc) (w1 w2 : World) (p1 p2 : Pc)
      → Reaches i t r w1 p1
      → ((k : ℕ) (lock : Option ℕ) (log : List Event)
          → k ≤ services.net.clock w1.trace
          → Reaches i w1.trace (shared_of w1.session k lock log, p1) w2 p2)
      → Reaches i t r w2 p2
  then-Reaches i t r w1 w2 p1 p2 (cs, k, lock, log, e, l, f) more =
      let (ds, k', lock', log', e', l', g) = more k lock log l in
      (
        cs ++ ds,
        k',
        lock',
        log',
        solo_trans services client i cs ds r _ _ e e',
        l',
        IsServed-append i cs ds t w1.trace w2.trace r f
            (subst (λ q. IsServed i ds w1.trace q w2.trace) (sym e) g),
      )

  pub stays :
      (i k : ℕ) (lock : Option ℕ) (log : List Event) (w : World) (p : Pc)
      → k ≤ services.net.clock w.trace
      → Reaches i w.trace (shared_of w.session k lock log, p) w p
  unfolding solo IsServed
  stays i k lock log w p h = ([], k, lock, log, refl, h, refl)
