-- ===== src/Vault/Tests.antt =====
-- The theorems on src/vault/mod.rs at concrete inputs.
use vaultwarden_operator.Prelude.{
  ◌+◌, ◌-◌, ◌≡◌, refl, none, some, List, [], ◌∷◌, arith, replicate, ok, err, ◌>>=◌, codes, str_eq,
  is_whitespace, trim_start, trim, contains, ascii_lower, split_once, splitn, parse_u8,
  small_decimal, from_utf8,
}
use vaultwarden_operator.Duration.{from_secs}
use vaultwarden_operator.Http.{failed, read_clock, slept, Trace}
use vaultwarden_operator.Sync.{
  SyncResponse, VaultCache, DecryptSkips, LookupError, not_found, is_stale_miss,
}
use vaultwarden_operator.Sync.Decrypt.{decrypt_vault}
use vaultwarden_operator.Vault.{
  lookup, SecretRequest, Session, World, expire_in, ensure_valid_token, do_refresh_or_reauth,
  refresh_vault_cache, token_refresh_sleep,
}
use vaultwarden_operator.Auth.Sends.{Sends, sends}
use vaultwarden_operator.Auth.{Services}
use vaultwarden_operator.Vault.Fetch.Failing.{refresh_if_due_failing}
use vaultwarden_operator.Vault.Refresh.{
  IsRefreshed, IsFetched, refresh_vault_cache_bounded, refresh_vault_cache_sound,
}
use vaultwarden_operator.Vault.Token.{ticked}
use vaultwarden_operator.Vault.Fetch.{lookup_all, fetch_secrets}
use vaultwarden_operator.Vault.Fetch.Laws.{IsAnswered, fetch_secrets_sound}
use vaultwarden_operator.Vault.Fetch.Cooldown.{
  retried, callers, fetch_secrets_cooldown, fetch_secrets-retried,
}
use vaultwarden_operator.Vault.Start.{new, initialize_vault_client}
use vaultwarden_operator.Vault.Start.Laws.{or_after, initialize_vault_client_attempts}
use vaultwarden_operator.Fixtures.{user_key, cache, services, client, world, credentials, ask}

-- twenty seconds after the last refresh, and forty
abbrev soon : World
soon = world (some cache) (replicate 20 read_clock)

abbrev later : World
later = world (some cache) (replicate 40 read_clock)

abbrev known : List SecretRequest
known = ask (codes "db") none ∷ ask (codes "api") (some (codes "team")) ∷ []

abbrev unknown : List SecretRequest
unknown = ask (codes "nowhere") none ∷ []

fetch_secrets_sound_example : IsAnswered services soon known (codes "pw1" ∷ codes "pw2" ∷ [])
unfolding fetch_secrets vaultwarden_operator.Vault.Fetch.try_fetch_secrets
    vaultwarden_operator.Sync.Lookup.lookup_item vaultwarden_operator.Sync.Lookup.find_item
    vaultwarden_operator.Sync.Lookup.in_scope str_eq ascii_lower
    vaultwarden_operator.Prelude.HashMap.get vaultwarden_operator.Sync.Extract.extract_secret
fetch_secrets_sound_example =
    fetch_secrets_sound services client known (codes "pw1" ∷ codes "pw2" ∷ []) soon soon refl

abbrev missing : LookupError
missing = not_found (codes "nowhere") 2

fetch_secrets_cooldown_example :
    fetch_secrets services client unknown soon ≡ (err (lookup missing), ticked soon)
unfolding lookup_all is_stale_miss vaultwarden_operator.Sync.Lookup.lookup_item
    vaultwarden_operator.Sync.Lookup.find_item vaultwarden_operator.Sync.Lookup.in_scope str_eq
    ascii_lower contains
fetch_secrets_cooldown_example =
    fetch_secrets_cooldown services client unknown cache missing soon refl refl refl refl

fetch_secrets-retried_example :
    fetch_secrets services client unknown later
    ≡ retried services missing unknown (refresh_vault_cache services client (ticked later))
unfolding lookup_all is_stale_miss vaultwarden_operator.Sync.Lookup.lookup_item
    vaultwarden_operator.Sync.Lookup.find_item vaultwarden_operator.Sync.Lookup.in_scope str_eq
    ascii_lower contains
fetch_secrets-retried_example =
    fetch_secrets-retried services client unknown cache missing later refl refl refl refl

refresh_vault_cache_bounded_example :
    Sends 10 later.trace (refresh_vault_cache services client later).1.trace
    × IsRefreshed services later (refresh_vault_cache services client later)
refresh_vault_cache_bounded_example = refresh_vault_cache_bounded services client later

-- the world of `soon` when a token of a minute has been given
abbrev given : World
given = (expire_in services 60 soon).1

abbrev refreshed : World
refreshed = (refresh_vault_cache services client later).1

refresh_vault_cache_test : refresh_vault_cache services client later ≡ (ok tt, refreshed)
unfolding refresh_vault_cache ensure_valid_token vaultwarden_operator.Sync.Fetch.fetch_sync
    decrypt_vault vaultwarden_operator.Sync.Decrypt.org_keys_of
    vaultwarden_operator.Crypto.CipherString.Print.print
    vaultwarden_operator.Crypto.Keys.decrypt_private_key
    vaultwarden_operator.Crypto.CipherString.parse split_once
    vaultwarden_operator.Crypto.CipherString.Decrypt.encrypt parse_u8 splitn
    vaultwarden_operator.Fixtures.shift vaultwarden_operator.Crypto.CipherString.Decrypt.pad
    vaultwarden_operator.Crypto.CipherString.decrypt vaultwarden_operator.Fixtures.unshift
    vaultwarden_operator.Crypto.CipherString.verify_mac str_eq
    vaultwarden_operator.Auth.authenticate vaultwarden_operator.Auth.do_token_request
    vaultwarden_operator.Auth.encrypted_key vaultwarden_operator.Auth.fetch_profile_key
    vaultwarden_operator.Auth.login vaultwarden_operator.Auth.login_with_api_key
    vaultwarden_operator.Auth.login_with_password vaultwarden_operator.Auth.prelogin
    vaultwarden_operator.Auth.refresh_token
    vaultwarden_operator.Crypto.CipherString.Print.print_body
    vaultwarden_operator.Crypto.CipherString.decrypt_blocks
    vaultwarden_operator.Crypto.CipherString.decrypt_rsa
    vaultwarden_operator.Crypto.CipherString.decrypt_str
    vaultwarden_operator.Crypto.CipherString.decrypt_to_string
    vaultwarden_operator.Crypto.CipherString.parse_typed
    vaultwarden_operator.Crypto.Keys.decrypt_org_key
    vaultwarden_operator.Crypto.Keys.decrypt_symmetric_key
    vaultwarden_operator.Crypto.Keys.decrypt_with_fallback
    vaultwarden_operator.Crypto.Keys.hash_password vaultwarden_operator.Crypto.Keys.make_master_key
    vaultwarden_operator.Crypto.Keys.stretch_key vaultwarden_operator.Crypto.Unpad.pkcs7_unpad
    vaultwarden_operator.Prelude.HashMap.get vaultwarden_operator.Prelude.HashMap.insert from_utf8
    small_decimal vaultwarden_operator.Prelude.utf8_from is_whitespace trim trim_start
    vaultwarden_operator.Sync.Decrypt.decrypt_cipher
    vaultwarden_operator.Sync.Decrypt.decrypt_ciphers
    vaultwarden_operator.Sync.Decrypt.decrypt_fields vaultwarden_operator.Sync.Decrypt.decrypt_one
    vaultwarden_operator.Sync.Decrypt.decrypt_org_keys vaultwarden_operator.Sync.Decrypt.index_from
    vaultwarden_operator.Sync.Decrypt.index_orgs vaultwarden_operator.Sync.Decrypt.key_for
    vaultwarden_operator.Sync.Decrypt.push_at vaultwarden_operator.Vault.after_refresh
    vaultwarden_operator.Vault.after_sync do_refresh_or_reauth
    vaultwarden_operator.Vault.re_authenticate vaultwarden_operator.Vault.sync_and_decrypt
refresh_vault_cache_test = refl

refresh_vault_cache_sound_example :
    (w1 : World) × (resp : SyncResponse) × (made : VaultCache) × (skips : DecryptSkips)
    × (t : Trace) × (ensure_valid_token services client later ≡ (ok tt, w1))
    × IsFetched services client resp
    × (decrypt_vault services.crates services.unicode resp w1.session.sym_key ≡ ok (made, skips))
    × (refreshed.session.vault ≡ some made)
    × (refreshed.trace ≡ read_clock ∷ t)
    × (refreshed.session.last_refresh_at ≡ services.net.clock t)
refresh_vault_cache_sound_example =
    refresh_vault_cache_sound services client later refreshed refresh_vault_cache_test

initialize_vault_client_attempts_example :
    initialize_vault_client services credentials []
    ≡ or_after (new services credentials []) (λ t1.
      or_after
        (new services credentials (slept (from_secs 20) ∷ t1))
        (λ t2. new services credentials (slept (from_secs 45) ∷ t2)))
initialize_vault_client_attempts_example = initialize_vault_client_attempts services credentials []

abbrev first_session : Session
first_session = record {
  access_token = codes "at";
  refresh_token = codes "rt";
  token_expires_at = from_secs 3602;
  sym_key = user_key;
  vault = some cache;
  last_refresh_at = from_secs 6;
}

initialize_vault_client_test :
    initialize_vault_client services credentials []
    ≡ (ok (client, first_session), (initialize_vault_client services credentials []).1)
unfolding initialize_vault_client new vaultwarden_operator.Auth.authenticate
    vaultwarden_operator.Auth.prelogin vaultwarden_operator.Crypto.Keys.make_master_key
    vaultwarden_operator.Auth.login vaultwarden_operator.Auth.login_with_password
    vaultwarden_operator.Auth.do_token_request vaultwarden_operator.Auth.encrypted_key
    vaultwarden_operator.Crypto.CipherString.Print.print
    vaultwarden_operator.Crypto.Keys.decrypt_symmetric_key
    vaultwarden_operator.Crypto.CipherString.parse split_once
    vaultwarden_operator.Crypto.CipherString.Decrypt.encrypt parse_u8 splitn
    vaultwarden_operator.Fixtures.shift vaultwarden_operator.Crypto.CipherString.Decrypt.pad
    vaultwarden_operator.Auth.fetch_profile_key vaultwarden_operator.Auth.login_with_api_key
    vaultwarden_operator.Auth.refresh_token
    vaultwarden_operator.Crypto.CipherString.Print.print_body
    vaultwarden_operator.Crypto.CipherString.decrypt
    vaultwarden_operator.Crypto.CipherString.decrypt_blocks
    vaultwarden_operator.Crypto.CipherString.decrypt_rsa
    vaultwarden_operator.Crypto.CipherString.decrypt_str
    vaultwarden_operator.Crypto.CipherString.decrypt_to_string
    vaultwarden_operator.Crypto.CipherString.parse_typed
    vaultwarden_operator.Crypto.CipherString.verify_mac
    vaultwarden_operator.Crypto.Keys.decrypt_org_key
    vaultwarden_operator.Crypto.Keys.decrypt_private_key
    vaultwarden_operator.Crypto.Keys.decrypt_with_fallback
    vaultwarden_operator.Crypto.Keys.hash_password vaultwarden_operator.Crypto.Keys.stretch_key
    vaultwarden_operator.Crypto.Unpad.pkcs7_unpad vaultwarden_operator.Prelude.HashMap.get
    vaultwarden_operator.Prelude.HashMap.insert from_utf8 small_decimal
    vaultwarden_operator.Prelude.utf8_from is_whitespace str_eq trim trim_start
    vaultwarden_operator.Sync.Decrypt.decrypt_cipher
    vaultwarden_operator.Sync.Decrypt.decrypt_ciphers
    vaultwarden_operator.Sync.Decrypt.decrypt_fields vaultwarden_operator.Sync.Decrypt.decrypt_one
    vaultwarden_operator.Sync.Decrypt.decrypt_org_keys decrypt_vault
    vaultwarden_operator.Sync.Decrypt.index_from vaultwarden_operator.Sync.Decrypt.index_orgs
    vaultwarden_operator.Sync.Decrypt.key_for vaultwarden_operator.Sync.Decrypt.org_keys_of
    vaultwarden_operator.Sync.Decrypt.push_at vaultwarden_operator.Sync.Fetch.fetch_sync
    vaultwarden_operator.Vault.Start.init_attempts vaultwarden_operator.Vault.Start.trim_end_slashes
    vaultwarden_operator.Vault.after_refresh vaultwarden_operator.Vault.after_sync
    do_refresh_or_reauth ensure_valid_token vaultwarden_operator.Vault.re_authenticate
    refresh_vault_cache vaultwarden_operator.Vault.sync_and_decrypt
    vaultwarden_operator.Fixtures.unshift ascii_lower
initialize_vault_client_test = refl

-- a server that cannot be reached, forty seconds after the last refresh
abbrev down_services : Services (Unit {0})
down_services = record services {
  net = record { server = λ t req. failed (codes "refused"); clock = λ t. from_secs 40 };
}

refresh_if_due_failing_example :
    ((callers down_services 3 client soon).0 ≡ ok tt)
    × ((callers down_services 3 client soon).1.session ≡ soon.session)
    × (sends (callers down_services 3 client soon).1.trace ≡ sends soon.trace + 3)
refresh_if_due_failing_example = refresh_if_due_failing down_services client 3 soon (record {
  due = λ t. refl;
  in_range = λ t. refl;
  good = λ t. refl;
  why = codes "refused";
  unreachable = λ t. refl;
})
