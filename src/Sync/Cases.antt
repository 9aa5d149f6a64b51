-- ===== src/Sync/Cases.antt =====
-- The unit tests of src/vault/sync.rs on lookups and on the extraction, run on the model.
use vaultwarden_operator.Prelude.{
  ◌≡◌, refl, true, false, Option, none, some, List, [], ◌∷◌, ◌++◌, ok, err, Str, codes, str_eq,
  unwrap_or, ascii, ascii_lower, contains, starts_with,
}
use vaultwarden_operator.Prelude.HashMap
use vaultwarden_operator.Prelude.HashMap.{HashMap}
use vaultwarden_operator.Sync.{
  SyncOrganization, DecryptedItem, VaultCache, vault_not_found, vault_ambiguous, not_found_in_vault,
  not_found, is_stale_miss,
}
use vaultwarden_operator.Sync.Decrypt.{index_orgs, index_from, push_at}
use vaultwarden_operator.Sync.Lookup.{find_item, in_scope, lookup_item, lookup_scoped}
use vaultwarden_operator.Sync.Extract.{extract_secret}

abbrev make_item : Str → Option Str → DecryptedItem
make_item name org_id =
    let owner = unwrap_or (codes "personal") org_id in
    record {
      id = codes "id-" ++ (name ++ (codes "-" ++ owner));
      cipher_type = 1;
      organization_id = org_id;
      name = name;
      username = [];
      password = codes "pw-" ++ (name ++ (codes "-" ++ owner));
      notes = [];
      uri = [];
      fields = [];
    }

abbrev org_a : Option Str
org_a = some (codes "org-a")

abbrev org_b : Option Str
org_b = some (codes "org-b")

abbrev shared : List DecryptedItem
shared =
    make_item (codes "shared-name") org_a
    ∷ make_item (codes "shared-name") org_b
    ∷ make_item (codes "shared-name") none
    ∷ []

find_item_cases :
    (find_item ascii
        (make_item (codes "MySecret") none ∷ make_item (codes "OtherSecret") none ∷ [])
        (codes "mysecret")
        none
      ≡ some (make_item (codes "MySecret") none))
    × (find_item ascii (make_item (codes "Production API Key") none ∷ []) (codes "api key") none
        ≡ some (make_item (codes "Production API Key") none))
    × (find_item ascii [] (codes "missing") none ≡ none)
    × (find_item ascii shared (codes "shared-name") org_b
        ≡ some (make_item (codes "shared-name") org_b))
    × (find_item ascii (make_item (codes "only-personal") none ∷ []) (codes "only-personal") org_a
        ≡ none)
    × (find_item ascii (make_item (codes "org-item") org_a ∷ []) (codes "org-item") none
        ≡ some (make_item (codes "org-item") org_a))
    × (find_item ascii
          (make_item (codes "api key extended") org_a ∷ make_item (codes "api key") org_a ∷ [])
          (codes "api key")
          org_a
        ≡ some (make_item (codes "api key") org_a))
unfolding find_item in_scope str_eq ascii_lower contains starts_with
find_item_cases = (refl, refl, refl, refl, refl, refl, refl)

abbrev org : (id name : Str) → SyncOrganization
org id name = record { id = id; name = name; key = [] }

index_orgs_cases :
    (HashMap.get
        (codes "kubernetes - apollo")
        (index_orgs ascii (org (codes "org-1") (codes "Kubernetes - Apollo") ∷ []))
      ≡ some (codes "org-1" ∷ []))
    × (HashMap.get (codes "shared") (
          index_orgs ascii
            (org (codes "org-1") (codes "Shared") ∷ org (codes "org-2") (codes "shared") ∷ []))
        ≡ some (codes "org-1" ∷ codes "org-2" ∷ []))
unfolding index_orgs index_from push_at HashMap.get HashMap.insert str_eq ascii_lower
index_orgs_cases = (refl, refl)

abbrev make_cache : VaultCache
make_cache = record {
  items =
      make_item (codes "shared-name") org_a
      ∷ make_item (codes "shared-name") none
      ∷ make_item (codes "only-in-b") org_b
      ∷ [];
  orgs_by_name = index_orgs ascii (
      org (codes "org-a") (codes "Kubernetes - Apollo")
      ∷ org (codes "org-b") (codes "Kubernetes - Common")
      ∷ org (codes "dup-1") (codes "Duplicated")
      ∷ org (codes "dup-2") (codes "Duplicated")
      ∷ []);
}

lookup_item_cases :
    (lookup_item ascii make_cache (codes "shared-name") (some (codes "kubernetes - apollo"))
      ≡ ok (make_item (codes "shared-name") org_a))
    × (lookup_item ascii make_cache (codes "only-in-b") none
        ≡ ok (make_item (codes "only-in-b") org_b))
    × (lookup_item ascii make_cache (codes "shared-name") (some (codes "no-such-org"))
        ≡ err (vault_not_found (codes "no-such-org")))
    × (lookup_item ascii make_cache (codes "shared-name") (some (codes "Duplicated"))
        ≡ err (vault_ambiguous (codes "Duplicated")))
    × (lookup_item ascii make_cache (codes "only-in-b") (some (codes "Kubernetes - Apollo"))
        ≡ err (not_found_in_vault (codes "only-in-b") (codes "Kubernetes - Apollo") 3))
    × (lookup_item ascii make_cache (codes "missing") none ≡ err (not_found (codes "missing") 3))
unfolding lookup_item lookup_scoped find_item in_scope str_eq ascii_lower contains starts_with
    index_orgs index_from push_at HashMap.get HashMap.insert
lookup_item_cases = (refl, refl, refl, refl, refl, refl)

is_stale_miss_cases :
    (is_stale_miss (not_found (codes "x") 0) ≡ true)
    × (is_stale_miss (not_found_in_vault (codes "x") (codes "v") 0) ≡ true)
    × (is_stale_miss (vault_not_found (codes "v")) ≡ true)
    × (is_stale_miss (vault_ambiguous (codes "v")) ≡ false)
unfolding is_stale_miss
is_stale_miss_cases = (refl, refl, refl, refl)

abbrev with_secret : (password notes : Str) → HashMap Str → DecryptedItem
with_secret password notes fields = record {
  id = codes "1";
  cipher_type = 1;
  organization_id = none;
  name = codes "Test";
  username = [];
  password = password;
  notes = notes;
  uri = [];
  fields = fields;
}

extract_secret_cases :
    (extract_secret
        (λ m. m)
        (with_secret
          (codes "thepassword")
          (codes "the notes")
          ((codes "value", codes "field_value") ∷ []))
      ≡ codes "thepassword")
    × (extract_secret
          (λ m. m)
          (with_secret [] (codes "fallback notes") ((codes "token", codes "mytoken") ∷ []))
        ≡ codes "mytoken")
    × (extract_secret (λ m. m) (with_secret [] (codes "secret note") []) ≡ codes "secret note")
unfolding extract_secret HashMap.get str_eq
extract_secret_cases = (refl, refl, refl)
