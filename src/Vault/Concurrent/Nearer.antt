-- ===== src/Vault/Concurrent/Nearer.antt =====
-- What a move of a task of src/vault/mod.rs does to its distance from the end.
use vaultwarden_operator.Prelude.{
  ℕ, ◌<◌, ◌-◌, ◌≡◌, refl, inl, inr, true, false, Option, none, some, List, arith, ltb, Bool-cases,
}
use vaultwarden_operator.Duration.{from_secs}
use vaultwarden_operator.Http.{instant_add}
use vaultwarden_operator.Auth.{Services}
use vaultwarden_operator.Sync.{LookupError}
use vaultwarden_operator.Sync.Decrypt.{decrypt_vault}
use vaultwarden_operator.Vault.{SecretRequest, VaultClient}
use vaultwarden_operator.Vault.Fetch.{lookup_in}
use vaultwarden_operator.Vault.Tasks.{
  Pc, idle, crashed, asking, retrying, missed, locked, timed, unlocking, answered, ensuring,
  has_expiry, renewing, posting, renewed, logging_in, logged_in, valid, has_token, syncing, again,
  resyncing, synced, unwinding, Choice, Shared, take_lock,
}
use vaultwarden_operator.Vault.Concurrent.{advance}
use vaultwarden_operator.Vault.Concurrent.Ranks.{
  is_end, fits, is_waiting, rank, rank-after_try, rank-after_retry, rank-after_post,
  rank-after_login, rank-after_sync, rank-after_resync, rank-compare_expiry, rank-store_tokens,
  rank-store_login, rank-store_cache,
}

rank-take_lock :
    (i : ℕ) (m : Shared) (requests : List SecretRequest) (e : LookupError) (l : Option ℕ)
    → m.refresh_lock ≡ l
    → is_waiting m (missed requests e) ≡ false
    → rank (take_lock i m requests e l).1 < 24
rank-take_lock i m requests e none h free = omega arith
rank-take_lock i m requests e (some j) h free = let x = rw h at free in cc

module _ {RsaPrivateKey : Type 0} (services : Services RsaPrivateKey) (client : VaultClient) where
  pub rank-advance :
      (i : ℕ) (c : Choice) (m : Shared) (p : Pc)
      → is_end p ≡ false
      → is_waiting m p ≡ false
      → fits p c ≡ true
      → rank (advance services client i c m p).1 < rank p
  unfolding advance
  rank-advance i c m idle going free fit = cc
  rank-advance i c m crashed going free fit = cc
  rank-advance i c m (asking requests) going free fit =
      rank-after_try requests (lookup_in services m.session.vault requests)
  rank-advance i c m (missed requests e) going free fit =
      rank-take_lock i m requests e m.refresh_lock refl free
  rank-advance i c m (locked requests e) going free fit = omega arith
  rank-advance i c m (timed requests e at) going free fit =
      elim (Bool-cases (ltb (m.clock - at) client.min_refresh_interval)) [
        | inl h ↦ rw h (omega arith)
        | inr h ↦ rw h (omega arith)
      ]
  rank-advance i c m (unlocking requests e true) going free fit = omega arith
  rank-advance i c m (unlocking requests e false) going free fit = omega arith
  rank-advance i c m (retrying requests) going free fit =
      rank-after_retry requests (lookup_in services m.session.vault requests)
  rank-advance i c m (answered requests r) going free fit = cc
  rank-advance i c m (ensuring who) going free fit = omega arith
  rank-advance i c m (has_expiry who at) going free fit =
      rank-compare_expiry who at (instant_add m.clock (from_secs 60))
  rank-advance i c m (renewing who) going free fit = omega arith
  rank-advance i c m (posting who rt) going free fit = rank-after_post who rt c fit
  rank-advance i c m (renewed who new_at new_rt expires_in) going free fit =
      let h = rank-store_tokens who m new_at new_rt expires_in in omega arith
  rank-advance i c m (logging_in who) going free fit = rank-after_login who c fit
  rank-advance i c m (logged_in who r) going free fit = rank-store_login who m r
  rank-advance i c m (valid g) going free fit = omega arith
  rank-advance i c m (has_token g token) going free fit = omega arith
  rank-advance i c m (syncing g token key) going free fit = rank-after_sync m g token key c fit
  rank-advance i c m (again g key) going free fit = omega arith
  rank-advance i c m (resyncing g token key) going free fit = rank-after_resync m g token key c fit
  rank-advance i c m (synced g resp key) going free fit =
      rank-store_cache g m (decrypt_vault services.crates services.unicode resp key)
  rank-advance i c m (unwinding true) going free fit = omega arith
  rank-advance i c m (unwinding false) going free fit = omega arith
