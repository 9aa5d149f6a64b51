-- ===== src/Vault/Token.antt =====
-- The background refresh of the access token in src/vault/mod.rs: how long it sleeps, and what it
-- then does.
use vaultwarden_operator.Prelude.{
  ℕ, ◌+◌, ◌*◌, ◌^◌, ◌≤◌, ◌<◌, ◌≡◌, sym, ap, ◌∙◌, ◌↔◌, inl, inr, Bool, true, false, ◌∷◌, arith, ltb,
  leb, lt→ltb, leb→le, le→leb, Bool-cases, Result, ok,
}
use vaultwarden_operator.Prelude.Actions.{next-eq-ok, lift}
use vaultwarden_operator.Duration.{from_secs}
use vaultwarden_operator.Http.{read_clock, instant_add}
use vaultwarden_operator.Auth.{Services}
use vaultwarden_operator.Vault.{
  VaultError, VaultClient, World, expire_in, do_refresh_or_reauth, ensure_valid_token,
  token_refresh_sleep,
}

-- the world after a reading of the clock
abbrev pub ticked : World → World
ticked w = record { session = w.session; trace = read_clock ∷ w.trace }

module _ {RsaPrivateKey : Type 0} (services : Services RsaPrivateKey) where
  -- `ensure_valid_token` by whether the expiry is less than a minute away.
  abbrev checked_expiry : VaultClient → World → Bool → Result VaultError (Unit {0}) × World
  checked_expiry client w true = do_refresh_or_reauth services client (ticked w)
  checked_expiry client w false = (ok tt, ticked w)

  ensure_valid_token-checked_expiry :
      (client : VaultClient) (w : World) (b : Bool)
      → services.net.clock w.trace + from_secs 60 < 2 ^ 63 * 1000000000
      → leb w.session.token_expires_at (services.net.clock w.trace + from_secs 60) ≡ b
      → ensure_valid_token services client w ≡ checked_expiry client w b
  unfolding ensure_valid_token
  ensure_valid_token-checked_expiry client w b small soon =
      let small_b =
        lt→ltb (services.net.clock w.trace + from_secs 60) (2 ^ 63 * 1000000000) small in
      go b soon small_b
    where
      go :
          (b : Bool)
          → leb w.session.token_expires_at (services.net.clock w.trace + from_secs 60) ≡ b
          → ltb (services.net.clock w.trace + from_secs 60) (2 ^ 63 * 1000000000) ≡ true
          → ensure_valid_token services client w ≡ checked_expiry client w b
      go true h small_b = rw (small_b, h)
      go false h small_b = rw (small_b, h)

  -- When the task wakes up as late as it wanted to at an earlier instant, the session's expiry being
  -- the one that it slept by, the token is refreshed: it is not found to be still good.
  pub token_refresh_sleep_wakes :
      (client : VaultClient) (instant : ℕ) (w : World)
      → instant + token_refresh_sleep w.session.token_expires_at instant
        ≤ services.net.clock w.trace
      → services.net.clock w.trace + from_secs 60 < 2 ^ 63 * 1000000000
      → ensure_valid_token services client w ≡ do_refresh_or_reauth services client (ticked w)
  unfolding token_refresh_sleep
  token_refresh_sleep_wakes client instant w late small =
      ensure_valid_token-checked_expiry client w true small (le→leb _ _ (omega arith))

  -- Before that instant the token is found to be good: no request is sent.
  pub token_refresh_sleep_early :
      (client : VaultClient) (instant : ℕ) (w : World)
      → instant ≤ services.net.clock w.trace
      → services.net.clock w.trace
        < instant + token_refresh_sleep w.session.token_expires_at instant
      → services.net.clock w.trace + from_secs 60 < 2 ^ 63 * 1000000000
      → ensure_valid_token services client w ≡ (ok tt, ticked w)
  unfolding token_refresh_sleep
  token_refresh_sleep_early client instant w late early small =
      let x = w.session.token_expires_at in
      let y = services.net.clock w.trace + from_secs 60 in
      elim (Bool-cases (leb x y)) [
        | inl h ↦ let le : x ≤ y = leb→le x y h in absurd (omega arith)
        | inr h ↦ ensure_valid_token-checked_expiry client w false small h
      ]

  added : (i d at : ℕ) → instant_add {E = VaultError} i d ≡ ok at → at ≡ i + d
  added i d at e = elim (Bool-cases (ltb (i + d) (2 ^ 63 * 1000000000))) [ inl y ↦ cc | inr z ↦ cc ]

  expire_in-token_expires_at :
      (n : ℕ) (w w' : World)
      → expire_in services n w ≡ (ok tt, w')
      → w'.session.token_expires_at ≡ services.net.clock w.trace + from_secs n
  expire_in-token_expires_at n w w' e =
      let i = services.net.clock w.trace in
      let (at, w1, e1, f1) = next-eq-ok (lift (instant_add i (from_secs n)) (ticked w)) _ e in
      ap (λ r. r.1.session.token_expires_at) (sym f1) ∙ added i (from_secs n) at (ap (λ r. r.0) e1)

  -- A token that is given for `n` seconds lets the task sleep exactly when `n` is above sixty; else
  -- the task goes on with the next refresh at once.
  pub token_refresh_sleep_zero_iff :
      (n : ℕ) (w w' : World)
      → expire_in services n w ≡ (ok tt, w')
      → (token_refresh_sleep w'.session.token_expires_at (services.net.clock w.trace) ≡ 0)
        ↔ (n ≤ 60)
  unfolding token_refresh_sleep
  token_refresh_sleep_zero_iff n w w' e =
      let at_eq = expire_in-token_expires_at n w w' e in ((λ z. omega arith), (λ z. omega arith))
