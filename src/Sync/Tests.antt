-- ===== src/Sync/Tests.antt =====
-- The theorems on src/vault/sync.rs at concrete inputs.
use vaultwarden_operator.Prelude.{
  ◌-◌, ◌≡◌, refl, ◌⊎◌, none, some, List, [], ◌∷◌, All, In, ok, ◌>>=◌, Str, codes, str_eq,
  ascii_lower, ascii, split_once, splitn, parse_u8, small_decimal, from_utf8,
}
use mathlib.Core.List.{reverse}
use vaultwarden_operator.Prelude.HashMap
use vaultwarden_operator.Prelude.HashMap.{HashMap}
use vaultwarden_operator.Sync.{DecryptedItem, DecryptSkips}
use vaultwarden_operator.Sync.Decrypt.{decrypt_vault, index_orgs}
use vaultwarden_operator.Sync.Decrypt.Accounts.{
  IsDecrypted, decrypt_vault_sound, IsOpened, decrypt_vault-IsOpened,
}
use vaultwarden_operator.Sync.Decrypt.Index.{ids_of}
use vaultwarden_operator.Sync.Lookup.{find_item, lookup_item}
use vaultwarden_operator.Sync.Lookup.Find.{IsExact, IsPartial, Holds, IsFirst, find_item_sound}
use vaultwarden_operator.Sync.Lookup.Scope.{answer, lookup_item_scoped, lookup_item_no_fallback}
use vaultwarden_operator.Sync.Extract.{extract_secret}
use vaultwarden_operator.Sync.Extract.Value.{IsIteration}
use vaultwarden_operator.Fixtures.{crates, user_key, team, sync_response, team_api, cache}

abbrev one_lost : DecryptSkips
one_lost = record { no_org_key = 1; decrypt_failed = 0 }

decrypt_vault_test : decrypt_vault crates ascii sync_response user_key ≡ ok (cache, one_lost)
unfolding decrypt_vault vaultwarden_operator.Sync.Decrypt.org_keys_of
    vaultwarden_operator.Crypto.CipherString.Print.print
    vaultwarden_operator.Crypto.Keys.decrypt_private_key
    vaultwarden_operator.Crypto.CipherString.parse split_once
    vaultwarden_operator.Crypto.CipherString.Decrypt.encrypt parse_u8 splitn
    vaultwarden_operator.Fixtures.shift vaultwarden_operator.Crypto.CipherString.Decrypt.pad
    vaultwarden_operator.Crypto.CipherString.decrypt vaultwarden_operator.Fixtures.unshift
    vaultwarden_operator.Crypto.CipherString.verify_mac str_eq
    vaultwarden_operator.Crypto.CipherString.decrypt_blocks
    vaultwarden_operator.Crypto.Unpad.pkcs7_unpad vaultwarden_operator.Sync.Decrypt.decrypt_org_keys
    vaultwarden_operator.Crypto.CipherString.Print.print_body
    vaultwarden_operator.Crypto.CipherString.decrypt_rsa
    vaultwarden_operator.Crypto.CipherString.decrypt_str
    vaultwarden_operator.Crypto.CipherString.decrypt_to_string
    vaultwarden_operator.Crypto.CipherString.parse_typed
    vaultwarden_operator.Crypto.Keys.decrypt_org_key HashMap.get HashMap.insert from_utf8
    small_decimal vaultwarden_operator.Prelude.utf8_from
    vaultwarden_operator.Sync.Decrypt.decrypt_cipher
    vaultwarden_operator.Sync.Decrypt.decrypt_ciphers
    vaultwarden_operator.Sync.Decrypt.decrypt_fields vaultwarden_operator.Sync.Decrypt.decrypt_one
    vaultwarden_operator.Sync.Decrypt.index_from index_orgs
    vaultwarden_operator.Sync.Decrypt.key_for vaultwarden_operator.Sync.Decrypt.push_at ascii_lower
decrypt_vault_test = refl

decrypt_vault_sound_example : IsDecrypted crates ascii sync_response user_key cache one_lost
decrypt_vault_sound_example =
    decrypt_vault_sound crates ascii sync_response user_key cache one_lost decrypt_vault_test

decrypt_vault-IsOpened_example : All (IsOpened crates ascii sync_response user_key) cache.items
decrypt_vault-IsOpened_example =
    decrypt_vault-IsOpened crates ascii sync_response user_key cache one_lost decrypt_vault_test

find_item_test : find_item ascii cache.items (codes "API") (some (codes "o1")) ≡ some team_api
unfolding find_item vaultwarden_operator.Sync.Lookup.in_scope str_eq ascii_lower
find_item_test = refl

find_item_sound_example :
    IsFirst (IsExact ascii (codes "API") (some (codes "o1"))) cache.items team_api
    ⊎ (All (λ x. ¬ IsExact ascii (codes "API") (some (codes "o1")) x) cache.items
        × IsFirst (IsPartial ascii (codes "API") (some (codes "o1"))) cache.items team_api)
find_item_sound_example =
    find_item_sound ascii (codes "API") (some (codes "o1")) cache.items team_api find_item_test

lookup_item_scoped_example :
    lookup_item ascii cache (codes "api") (some (codes "TEAM"))
    ≡ answer ascii cache
        (codes "api")
        (codes "TEAM")
        (ids_of ascii (ascii.to_lowercase (codes "TEAM")) (team ∷ []))
unfolding index_orgs HashMap.insert ascii_lower HashMap.get
lookup_item_scoped_example =
    lookup_item_scoped ascii cache (team ∷ []) (codes "api") (codes "TEAM") refl

lookup_item_test : lookup_item ascii cache (codes "api") (some (codes "TEAM")) ≡ ok team_api
unfolding lookup_item HashMap.get str_eq ascii_lower find_item
    vaultwarden_operator.Sync.Lookup.in_scope
lookup_item_test = refl

lookup_item_no_fallback_example :
    (id : Str) × (ids_of ascii
        (ascii.to_lowercase (codes "TEAM"))
        sync_response.profile.organizations
      ≡ id ∷ [])
    × (team_api.organization_id ≡ some id)
    × In team_api cache.items
    × Holds ascii (codes "api") team_api
lookup_item_no_fallback_example =
    lookup_item_no_fallback ascii crates sync_response user_key cache one_lost (codes "api")
      (codes "TEAM") team_api decrypt_vault_test lookup_item_test

abbrev in_order : HashMap Str → List (Str × Str)
in_order m = m

in_order-IsIteration : IsIteration in_order
in_order-IsIteration = record { entries = λ m e. (λ i. i, λ i. i) }

abbrev with_fields : HashMap Str → DecryptedItem
with_fields fields = record {
  id = codes "i";
  cipher_type = 2;
  organization_id = none;
  name = codes "n";
  username = [];
  password = [];
  notes = [];
  uri = [];
  fields = fields;
}

abbrev two_fields : HashMap Str
two_fields = (codes "user", codes "a") ∷ (codes "host", codes "b") ∷ []

extract_secret_tests :
    (extract_secret in_order
        (with_fields ((codes "x", codes "a") ∷ (codes "token", codes "t") ∷ []))
      ≡ codes "t")
    × (extract_secret in_order (with_fields ((codes "x", []) ∷ [])) ≡ [])
    × (extract_secret in_order (with_fields two_fields) ≡ codes "a")
    × (extract_secret reverse (with_fields two_fields) ≡ codes "b")
unfolding extract_secret HashMap.get str_eq
extract_secret_tests = (refl, refl, refl, refl)
