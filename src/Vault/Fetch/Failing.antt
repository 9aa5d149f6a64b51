-- ===== src/Vault/Fetch/Failing.antt =====
-- The cooldown of src/vault/mod.rs while the server is down: it starts with a refresh that succeeds.
use vaultwarden_operator.Prelude.{
  ℕ, zero, suc, ◌+◌, ◌-◌, ◌*◌, ◌^◌, ◌≡◌, refl, true, false, ◌∷◌, arith, ltb, leb, ok, Str,
}
use vaultwarden_operator.Duration.{from_secs}
use vaultwarden_operator.Http.{failed, sent, read_clock, Trace}
use vaultwarden_operator.Auth.{Services, sync_request}
use vaultwarden_operator.Auth.Sends.{requests_of, sends}
use vaultwarden_operator.Sync.Fetch.{fetch_sync}
use vaultwarden_operator.Vault.{
  Session, VaultClient, World, ensure_valid_token, after_sync, sync_and_decrypt,
  refresh_vault_cache,
}
use vaultwarden_operator.Vault.Fetch.{refresh_if_due}
use vaultwarden_operator.Vault.Fetch.Cooldown.{callers}

-- the world after a call whose sync failed: two readings of the clock, and the request
abbrev pub failed_call : VaultClient → World → World
failed_call client w = record {
  session = w.session;
  trace =
      sent (sync_request client.base_url w.session.access_token)
      ∷ read_clock
      ∷ read_clock
      ∷ w.trace;
}

module _ {RsaPrivateKey : Type 0} (services : Services RsaPrivateKey) where
  -- At every reading of the clock the cooldown is over and the token is good, and no sync gets
  -- through.
  pub record IsDown (client : VaultClient) (s : Session) : Type 0 where
    pub due :
        (t : Trace)
        → ltb (services.net.clock t - s.last_refresh_at) client.min_refresh_interval ≡ false
    pub in_range :
        (t : Trace) → ltb (services.net.clock t + from_secs 60) (2 ^ 63 * 1000000000) ≡ true
    pub good : (t : Trace) → leb s.token_expires_at (services.net.clock t + from_secs 60) ≡ false
    pub why : Str
    pub unreachable :
        (t : Trace)
        → services.net.server t (sync_request client.base_url s.access_token) ≡ failed why

  refresh_if_due-down :
      (client : VaultClient) (w : World)
      → IsDown client w.session
      → refresh_if_due services client w ≡ (ok false, failed_call client w)
  unfolding refresh_if_due refresh_vault_cache ensure_valid_token sync_and_decrypt after_sync
      fetch_sync
  refresh_if_due-down client w down = rw (
    down.due w.trace,
    down.in_range (read_clock ∷ w.trace),
    down.good (read_clock ∷ w.trace),
    down.unreachable (read_clock ∷ read_clock ∷ w.trace),
  )

  -- While at every reading of the clock the cooldown is over and the token is good, and no sync
  -- gets through, the calls of `refresh_if_due` do not collapse: `n` of them, one after another,
  -- send `n` requests, and leave the session, and so its refresh time, as it is.
  pub refresh_if_due_failing :
      (client : VaultClient) (n : ℕ) (w : World)
      → IsDown client w.session
      → ((callers services n client w).0 ≡ ok tt)
        × ((callers services n client w).1.session ≡ w.session)
        × (sends (callers services n client w).1.trace ≡ sends w.trace + n)
  unfolding callers requests_of
  refresh_if_due_failing client zero w down = (refl, refl, omega arith)
  refresh_if_due_failing client (suc n) w down =
      let (done, same, count) = refresh_if_due_failing client n (failed_call client w) down in
      rw (refresh_if_due-down client w down) (done, same, omega arith)
