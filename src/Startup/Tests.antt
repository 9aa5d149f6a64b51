-- ===== src/Startup/Tests.antt =====
-- The start of src/main.rs at concrete variables.
use vaultwarden_operator.Prelude.{
  ◌+◌, ◌<◌, ◌≡◌, refl, ◌≢◌, ◌↔◌, true, false, Option, some, [], ◌∷◌, In, Result, ok, err, Str,
  codes, trim,
}
use vaultwarden_operator.Duration.{Duration, from_secs, parse_duration}
use vaultwarden_operator.Http.{failed}
use vaultwarden_operator.Auth.{Services, http}
use vaultwarden_operator.Auth.Sends.{slept_in}
use vaultwarden_operator.Leader.{lease_ttl, acquired}
use vaultwarden_operator.Vault.{VaultError, auth, not_initialized}
use vaultwarden_operator.Vault.Start.{new, initialize_vault_client}
use vaultwarden_operator.Vault.Tasks.{answered, nothing, fetch}
use vaultwarden_operator.Vault.Concurrent.{move, run, at_rest}
use vaultwarden_operator.Startup.{default_vault_cache_min_refresh_interval, env_duration}
use vaultwarden_operator.Startup.Main.{
  StartError, env_not_set, Operator, start, serve_health, start_token_refresh, keep_renewing,
  run_controller, cancel_tasks, step_down, start_vault_cache_refresh, leave, signalled, lease_lost,
  main,
}
use vaultwarden_operator.Startup.Sound.{IsStarted, start_sound}
use vaultwarden_operator.Startup.Order.{main_controller_iff}
use vaultwarden_operator.Startup.Serving.{started_fetch_secrets}
use vaultwarden_operator.Startup.Lapse.{start_outlasts_lease}
use vaultwarden_operator.Fixtures.{user_key, cache, services, credentials}

abbrev environment : Str → Option Str
environment key = some (codes "1m")

env_duration_test :
    env_duration environment
      (codes "VAULT_CACHE_MIN_REFRESH_INTERVAL")
      default_vault_cache_min_refresh_interval
    ≡ ok (from_secs 60)
unfolding env_duration parse_duration trim vaultwarden_operator.Duration.duration_loop
    vaultwarden_operator.Duration.read_component vaultwarden_operator.Duration.read_number
    vaultwarden_operator.Duration.read_unit vaultwarden_operator.Duration.strip_unit
    vaultwarden_operator.Duration.saturating_add vaultwarden_operator.Duration.unit_secs
env_duration_test = refl

-- a variable for everything
abbrev operator : Operator
operator = record {
  vault_client = record {
    base_url = codes "1m";
    email = codes "1m";
    password = codes "1m";
    client_id = some (codes "1m");
    client_secret = some (codes "1m");
    device_id = codes "device";
    min_refresh_interval = from_secs 60;
  };
  session = record {
    access_token = codes "at";
    refresh_token = codes "rt";
    token_expires_at = from_secs 3602;
    sym_key = user_key;
    vault = some cache;
    last_refresh_at = from_secs 6;
  };
  cache_refresh_interval = from_secs 60;
}

start_test : start services environment [] ≡ (ok operator, (start services environment []).1)
unfolding start vaultwarden_operator.Startup.Main.required_env env_duration parse_duration trim
    vaultwarden_operator.Duration.duration_loop vaultwarden_operator.Duration.read_component
    vaultwarden_operator.Duration.read_number vaultwarden_operator.Duration.read_unit
    vaultwarden_operator.Duration.strip_unit vaultwarden_operator.Duration.saturating_add
    vaultwarden_operator.Duration.unit_secs initialize_vault_client new
    vaultwarden_operator.Auth.authenticate vaultwarden_operator.Auth.prelogin
    vaultwarden_operator.Crypto.Keys.make_master_key vaultwarden_operator.Auth.do_token_request
    vaultwarden_operator.Auth.encrypted_key vaultwarden_operator.Auth.fetch_profile_key
    vaultwarden_operator.Auth.login vaultwarden_operator.Auth.login_with_api_key
    vaultwarden_operator.Auth.login_with_password vaultwarden_operator.Auth.refresh_token
    vaultwarden_operator.Crypto.CipherString.decrypt
    vaultwarden_operator.Crypto.CipherString.decrypt_blocks
    vaultwarden_operator.Crypto.CipherString.decrypt_rsa
    vaultwarden_operator.Crypto.CipherString.decrypt_str
    vaultwarden_operator.Crypto.CipherString.decrypt_to_string
    vaultwarden_operator.Crypto.CipherString.parse
    vaultwarden_operator.Crypto.CipherString.parse_typed
    vaultwarden_operator.Crypto.CipherString.verify_mac
    vaultwarden_operator.Crypto.Keys.decrypt_org_key
    vaultwarden_operator.Crypto.Keys.decrypt_private_key
    vaultwarden_operator.Crypto.Keys.decrypt_symmetric_key
    vaultwarden_operator.Crypto.Keys.decrypt_with_fallback
    vaultwarden_operator.Crypto.Keys.hash_password vaultwarden_operator.Crypto.Keys.stretch_key
    vaultwarden_operator.Crypto.Unpad.pkcs7_unpad vaultwarden_operator.Duration.decimal
    vaultwarden_operator.Duration.number_of vaultwarden_operator.Duration.parse_u64
    vaultwarden_operator.Duration.split_number vaultwarden_operator.Prelude.HashMap.get
    vaultwarden_operator.Prelude.HashMap.insert vaultwarden_operator.Prelude.from_utf8
    vaultwarden_operator.Prelude.parse_u8 vaultwarden_operator.Prelude.small_decimal
    vaultwarden_operator.Prelude.split_once vaultwarden_operator.Prelude.splitn
    vaultwarden_operator.Prelude.utf8_from vaultwarden_operator.Prelude.is_whitespace
    vaultwarden_operator.Prelude.str_eq vaultwarden_operator.Prelude.strip_prefix
    vaultwarden_operator.Prelude.trim_start vaultwarden_operator.Startup.optional_env
    vaultwarden_operator.Sync.Decrypt.decrypt_cipher
    vaultwarden_operator.Sync.Decrypt.decrypt_ciphers
    vaultwarden_operator.Sync.Decrypt.decrypt_fields vaultwarden_operator.Sync.Decrypt.decrypt_one
    vaultwarden_operator.Sync.Decrypt.decrypt_org_keys
    vaultwarden_operator.Sync.Decrypt.decrypt_vault vaultwarden_operator.Sync.Decrypt.index_from
    vaultwarden_operator.Sync.Decrypt.index_orgs vaultwarden_operator.Sync.Decrypt.key_for
    vaultwarden_operator.Sync.Decrypt.org_keys_of vaultwarden_operator.Sync.Decrypt.push_at
    vaultwarden_operator.Sync.Fetch.fetch_sync vaultwarden_operator.Vault.Start.init_attempts
    vaultwarden_operator.Vault.Start.trim_end_slashes vaultwarden_operator.Vault.after_refresh
    vaultwarden_operator.Vault.after_sync vaultwarden_operator.Vault.do_refresh_or_reauth
    vaultwarden_operator.Vault.ensure_valid_token vaultwarden_operator.Vault.re_authenticate
    vaultwarden_operator.Vault.refresh_vault_cache vaultwarden_operator.Vault.sync_and_decrypt
    vaultwarden_operator.Crypto.CipherString.Print.print
    vaultwarden_operator.Crypto.CipherString.Decrypt.encrypt vaultwarden_operator.Fixtures.shift
    vaultwarden_operator.Crypto.CipherString.Decrypt.pad vaultwarden_operator.Fixtures.unshift
    vaultwarden_operator.Prelude.ascii_lower
start_test = refl

main_controller_iff_example :
    (In run_controller (main true acquired (ok operator) signalled) ↔ (
      (true ≡ true)
      × (acquired ≡ acquired)
      × ((o : Operator) × (◌≡◌ {A = Result StartError Operator} (ok operator) (ok o)))))
    × (In step_down (main true acquired (ok operator) signalled)
        ↔ In run_controller (main true acquired (ok operator) signalled))
main_controller_iff_example = main_controller_iff true acquired (ok operator) signalled

main_tests :
    (main true acquired (err (env_not_set (codes "VAULTWARDEN_URL"))) signalled
      ≡ serve_health ∷ leave true ∷ [])
    × (main true acquired (ok operator) lease_lost
        ≡ serve_health
          ∷ start_token_refresh
          ∷ start_vault_cache_refresh (from_secs 60)
          ∷ keep_renewing
          ∷ run_controller
          ∷ step_down
          ∷ cancel_tasks
          ∷ step_down
          ∷ leave false
          ∷ [])
unfolding main
main_tests = (refl, refl)

start_sound_example : IsStarted services environment [] (start services environment []).1 operator
start_sound_example =
    start_sound services environment [] (start services environment []).1 operator start_test

started_fetch_secrets_example :
    (run services operator.vault_client
        (move 0 (fetch []) ∷ move 0 nothing ∷ [])
        (at_rest operator.session (from_secs 7))).tasks
      0
    ≢ answered [] (err not_initialized)
started_fetch_secrets_example =
    started_fetch_secrets services environment [] (start services environment []).1 operator
      (move 0 (fetch []) ∷ move 0 nothing ∷ []) (from_secs 7) 0 [] start_test

-- a server that cannot be reached
abbrev down_services : Services (Unit {0})
down_services = record services {
  net = record { server = λ t req. failed (codes "refused"); clock = λ t. 0 };
}

abbrev refused : VaultError
refused = auth (http (codes "refused"))

start_outlasts_lease_example :
    slept_in [] + lease_ttl < slept_in (initialize_vault_client down_services credentials []).1
unfolding new vaultwarden_operator.Auth.authenticate vaultwarden_operator.Auth.prelogin
start_outlasts_lease_example =
    start_outlasts_lease down_services credentials refused [] (new down_services credentials []).1
      down_test
  where
    down_test :
        new down_services credentials [] ≡ (err refused, (new down_services credentials []).1)
    down_test = refl
