-- ===== src/Vault/Concurrent/Races.antt =====
-- Two refreshes of src/vault/mod.rs at once: that of the background task does not take refresh_lock.
use vaultwarden_operator.Prelude.{
  ℕ, ◌+◌, ◌-◌, ◌*◌, ◌^◌, ◌≡◌, refl, ◌∙◌, subst, ap, true, false, Option, none, some, List, [], ◌∷◌,
  ◌++◌, arith, ltb, leb, ok, err,
}
use vaultwarden_operator.Duration.{from_secs}
use vaultwarden_operator.Http.{instant_add}
use vaultwarden_operator.Auth.{Services}
use vaultwarden_operator.Crypto.{SymmetricKey}
use vaultwarden_operator.Sync.{SyncResponse, VaultCache, DecryptSkips, LookupError, is_stale_miss}
use vaultwarden_operator.Sync.Decrypt.{decrypt_vault}
use vaultwarden_operator.Vault.{SecretRequest, Session, VaultClient, set_cache}
use vaultwarden_operator.Vault.Fetch.{lookup_in}
use vaultwarden_operator.Vault.Tasks.{
  Goal, on_demand, background, Caller, at_start, Pc, idle, asking, missed, locked, timed, ensuring,
  has_expiry, valid, has_token, syncing, synced, Choice, nothing, fetch, refresh_due, sync, Event,
  fetched, stored, Shared, finish, go_on, after_try, compare_expiry, store_cache,
}
use vaultwarden_operator.Vault.Concurrent.{advance, System, Turn, run, at_rest}
use vaultwarden_operator.Vault.Fetch.{lookup_all}
use vaultwarden_operator.Vault.Concurrent.Solo.{
  alone, solo, solo_trans, run-append, IsSolo, run-solo,
}
use vaultwarden_operator.Vault.Concurrent.Served.{shared_of}

-- the moves of a refresh up to its response
abbrev to_response : SyncResponse → List (ℕ × Choice)
to_response resp =
    (0, nothing) ∷ (0, nothing) ∷ (0, nothing) ∷ (0, nothing) ∷ (0, sync (ok resp)) ∷ []

-- the moves of a call that misses, up to its refresh
abbrev to_refresh : List SecretRequest → List (ℕ × Choice)
to_refresh requests =
    (0, fetch requests) ∷ (0, nothing) ∷ (0, nothing) ∷ (0, nothing) ∷ (0, nothing) ∷ []

-- The turns of the race: the background task gets its response, a call refreshes and stores a
-- newer one, and the background task stores its own.
abbrev pub race : List SecretRequest → SyncResponse → SyncResponse → List Turn
race requests older newer =
    alone 0 ((0, refresh_due) ∷ to_response older)
    ++ (alone 1 (to_refresh requests ++ (to_response newer ++ (0, nothing) ∷ []))
        ++ alone 0 ((0, nothing) ∷ []))

module _ {RsaPrivateKey : Type 0} (services : Services RsaPrivateKey) (client : VaultClient) where
  -- a move at once
  at_once :
      (i : ℕ) (c : Choice) (cs : List (ℕ × Choice)) (s : Session) (k : ℕ) (lock : Option ℕ)
      (log : List Event) (p : Pc)
      → solo services client i ((0, c) ∷ cs) (shared_of s k lock log, p)
        ≡ solo services client i cs (advance services client i c (shared_of s k lock log) p)
  unfolding solo
  at_once i c cs s k lock log p =
      let same : k + 0 ≡ k = omega arith in
      ap (λ x. solo services client i cs (advance services client i c (shared_of s x lock log) p))
        same

  -- The token is good for a minute.
  abbrev pub IsGood : Session → ℕ → Type 0
  IsGood s k =
      (ltb (k + from_secs 60) (2 ^ 63 * 1000000000) ≡ true)
      × (leb s.token_expires_at (k + from_secs 60) ≡ false)

  checked :
      (who : Caller) (s : Session) (k : ℕ)
      → IsGood s k
      → compare_expiry who s.token_expires_at (instant_add k (from_secs 60)) ≡ go_on who
  checked who s k (small, good) = rw (small, good)

  solo-to_response :
      (i : ℕ) (g : Goal) (resp : SyncResponse) (s : Session) (k : ℕ) (lock : Option ℕ)
      (log : List Event)
      → IsGood s k
      → solo services client i (to_response resp) (shared_of s k lock log, ensuring (at_start g))
        ≡ (shared_of s k lock (fetched resp ∷ log), synced g resp s.sym_key)
  unfolding advance solo
  solo-to_response i g resp s k lock log good =
      let rest = (0, nothing) ∷ (0, nothing) ∷ (0, sync (ok resp)) ∷ [] in
      at_once i nothing ((0, nothing) ∷ rest) s k lock log (ensuring (at_start g))
      ∙ at_once i nothing rest s k lock log (has_expiry (at_start g) s.token_expires_at)
      ∙ ap (λ p. solo services client i rest (shared_of s k lock log, p))
          (checked (at_start g) s k good)
      ∙ at_once i nothing ((0, nothing) ∷ (0, sync (ok resp)) ∷ []) s k lock log (valid g)
      ∙ at_once i nothing ((0, sync (ok resp)) ∷ []) s k lock log (has_token g s.access_token)
      ∙ at_once i (sync (ok resp)) [] s k lock log (syncing g s.access_token s.sym_key)

  -- A miss in `cache` that an old cache may explain, with the cooldown over.
  abbrev pub IsMissed : VaultCache → List SecretRequest → LookupError → Session → ℕ → Type 0
  IsMissed cache requests e s k =
      (s.vault ≡ some cache)
      × (lookup_all services cache requests ≡ err e)
      × (is_stale_miss e ≡ true)
      × (ltb (k - s.last_refresh_at) client.min_refresh_interval ≡ false)

  solo-to_refresh :
      (i : ℕ) (cache : VaultCache) (requests : List SecretRequest) (e : LookupError) (s : Session)
      (k : ℕ) (log : List Event)
      → IsMissed cache requests e s k
      → solo services client i (to_refresh requests) (shared_of s k none log, idle)
        ≡ (shared_of s k (some i) log, ensuring (at_start (on_demand requests e)))
  unfolding advance solo
  solo-to_refresh i cache requests e s k log (v, miss, stale, due) =
      let three = (0, nothing) ∷ (0, nothing) ∷ (0, nothing) ∷ [] in
      at_once i (fetch requests) ((0, nothing) ∷ three) s k none log idle
      ∙ at_once i nothing three s k none log (asking requests)
      ∙ ap (λ p. solo services client i three (shared_of s k none log, p)) first_try
      ∙ at_once i nothing ((0, nothing) ∷ (0, nothing) ∷ []) s k none log (missed requests e)
      ∙ at_once i nothing ((0, nothing) ∷ []) s k (some i) log (locked requests e)
      ∙ at_once i nothing [] s k (some i) log (timed requests e s.last_refresh_at)
      ∙ rw due
    where
      first_try : after_try requests (lookup_in services s.vault requests) ≡ missed requests e
      first_try = rw v (rw miss (rw stale))

  solo-stored :
      (i : ℕ) (g : Goal) (resp : SyncResponse) (key : SymmetricKey) (cache : VaultCache)
      (skips : DecryptSkips) (s : Session) (k : ℕ) (lock : Option ℕ) (log : List Event)
      → decrypt_vault services.crates services.unicode resp key ≡ ok (cache, skips)
      → solo services client i ((0, nothing) ∷ []) (shared_of s k lock log, synced g resp key)
        ≡ (shared_of (set_cache cache k s) k lock (stored g cache ∷ log), finish g true)
  unfolding advance solo
  solo-stored i g resp key cache skips s k lock log d =
      at_once i nothing [] s k lock log (synced g resp key)
      ∙ ap (store_cache g (shared_of s k lock log)) d

  -- a run of one task, from a state that is known at that task
  ran :
      (i : ℕ) (cs : List (ℕ × Choice)) (st : System) (m : Shared) (p : Pc) (r : Shared × Pc)
      → st.shared ≡ m
      → st.tasks i ≡ p
      → solo services client i cs (m, p) ≡ r
      → IsSolo services client i st r (run services client (alone i cs) st)
  ran i cs st m p r shared task e =
      let from : solo services client i cs (st.shared, st.tasks i) ≡ r =
        ap (λ x. solo services client i cs (x, st.tasks i)) shared
        ∙ ap (λ x. solo services client i cs (m, x)) task
        ∙ e in
      subst (λ x. IsSolo services client i st x (run services client (alone i cs) st)) from
        (run-solo services client i cs st)

  -- With a good token, the cooldown over, and a call that misses in the way of an old cache: when the
  -- call refreshes while the background task waits to store a response, both of which decrypt, the
  -- later response does not stay. The cache that is left is made of the one that was fetched first.
  pub older_response_overwrites :
      (cache older_cache newer_cache : VaultCache) (requests : List SecretRequest) (e : LookupError)
      (s : Session) (k : ℕ) (older newer : SyncResponse) (skips skips' : DecryptSkips)
      → IsGood s k
      → IsMissed cache requests e s k
      → decrypt_vault services.crates services.unicode older s.sym_key ≡ ok (older_cache, skips)
      → decrypt_vault services.crates services.unicode newer s.sym_key ≡ ok (newer_cache, skips')
      → let m = (run services client (race requests older newer) (at_rest s k)).shared in
        (m.log
          ≡ stored background older_cache
            ∷ stored (on_demand requests e) newer_cache
            ∷ fetched newer
            ∷ fetched older
            ∷ [])
        × (m.session.vault ≡ some older_cache)
  unfolding advance
  older_response_overwrites cache older_cache newer_cache requests e s k older newer skips skips'
        good missed_it d d' =
      let g = on_demand requests e in
      let st : System = at_rest s k in
      let csA = (0, refresh_due) ∷ to_response older in
      let csB = to_refresh requests ++ (to_response newer ++ (0, nothing) ∷ []) in
      let csC : List (ℕ × Choice) = (0, nothing) ∷ [] in
      let a : solo services client 0 csA (shared_of s k none [], idle)
          ≡ (shared_of s k none (fetched older ∷ []), synced background older s.sym_key) =
        at_once 0 refresh_due (to_response older) s k none [] idle
        ∙ solo-to_response 0 background older s k none [] good in
      let (shA, taskA, othersA) = ran 0 csA st _ _ _ refl refl a in
      let sA = run services client (alone 0 csA) st in
      let b =
        solo_trans services client 1 (to_refresh requests) _ _ _ _
          (solo-to_refresh 1 cache requests e s k (fetched older ∷ []) missed_it)
          (solo_trans services client 1 (to_response newer) _ _ _ _
            (solo-to_response 1 g newer s k (some 1) (fetched older ∷ []) good)
            (solo-stored 1 g newer s.sym_key newer_cache skips' s k (some 1)
              (fetched newer ∷ fetched older ∷ []) d')) in
      let (shB, taskB, othersB) = ran 1 csB sA _ idle _ shA (othersA 1 refl) b in
      let sB = run services client (alone 1 csB) sA in
      let log = stored g newer_cache ∷ fetched newer ∷ fetched older ∷ [] in
      let c =
        solo-stored 0 background older s.sym_key older_cache skips (set_cache newer_cache k s) k
          (some 1) log d in
      let (shC, taskC, othersC) =
        ran 0 csC sB _ (synced background older s.sym_key) _ shB (othersB 0 refl ∙ taskA) c in
      let whole =
        run-append services client (alone 0 csA) (alone 1 csB ++ alone 0 csC) st
        ∙ run-append services client (alone 1 csB) (alone 0 csC) sA in
      let final = ap (λ x. x.shared) whole ∙ shC in
      (ap (λ m. m.log) final, ap (λ m. m.session.vault) final)
