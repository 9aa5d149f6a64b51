-- ===== src/Controller/Cases.antt =====
-- The unit tests of src/controller.rs and src/crd.rs, run on the model.
use vaultwarden_operator.Prelude.{
  ◌≡◌, refl, true, false, Option, none, some, List, [], ◌∷◌, ok, err, Str, codes, trim,
}
use vaultwarden_operator.Duration.{
  from_secs, unexpected_char, unknown_unit, parse_duration, duration_loop, read_component,
  read_number, read_unit, strip_unit, saturating_add, unit_secs,
}
use vaultwarden_operator.Vault.{SecretRequest}
use vaultwarden_operator.Crd
use vaultwarden_operator.Crd.{
  VaultwardenSecretDataItem, VaultwardenSecretSpec, resolved_secret_name, no_secret_name,
  bad_duration, text, VaultwardenSecretStatus,
}
use vaultwarden_operator.Controller.{
  default_sync_interval, build_requests, build_request, parse_sync_interval,
}
use vaultwarden_operator.Controller.Status.{null, value, status_patch}

parse_sync_interval_cases :
    (parse_sync_interval [] ≡ ok default_sync_interval)
    × (parse_sync_interval (codes "5m") ≡ ok (from_secs 300))
    × (parse_sync_interval (codes "1h") ≡ ok (from_secs 3600))
    × (parse_sync_interval (codes "1h30m") ≡ ok (from_secs 5400))
    × (parse_sync_interval (codes "30s") ≡ ok (from_secs 30))
    × (parse_sync_interval (codes "abc") ≡ err (bad_duration (unexpected_char (codes "abc"))))
    × (parse_sync_interval (codes "5x") ≡ err (bad_duration (unknown_unit (codes "5x") b'x')))
unfolding parse_sync_interval parse_duration trim duration_loop read_component read_number read_unit
    strip_unit saturating_add unit_secs
parse_sync_interval_cases = (refl, refl, refl, refl, refl, refl, refl)

-- An absent interval, which serde fills in, and an empty one are the same interval.
same_default : parse_sync_interval Crd.default_sync_interval ≡ parse_sync_interval []
unfolding parse_sync_interval parse_duration trim duration_loop read_component read_number read_unit
    strip_unit saturating_add unit_secs
same_default = refl

abbrev item : (key : Str) (name legacy vault : Option Str) → VaultwardenSecretDataItem
item key name legacy vault = record {
  key = key;
  secret_name = name;
  vaultwarden_secret = legacy;
  vault = vault;
}

abbrev spec : Option Str → List VaultwardenSecretDataItem → VaultwardenSecretSpec
spec default_vault items = record {
  sync_interval = Crd.default_sync_interval;
  default_vault = default_vault;
  data_items = items;
}

abbrev request : Str → Option Str → SecretRequest
request name vault = record { name = name; vault = vault }

resolved_secret_name_cases :
    (resolved_secret_name (item (codes "k") (some (codes "my-item")) none none)
      ≡ some (codes "my-item"))
    × (resolved_secret_name (item (codes "k") none (some (codes "legacy-item")) none)
        ≡ some (codes "legacy-item"))
    × (resolved_secret_name (item (codes "k") (some (codes "new")) (some (codes "old")) none)
        ≡ some (codes "new"))
    × (resolved_secret_name (item (codes "k") none none none) ≡ none)
    × (resolved_secret_name (item (codes "k") (some []) (some (codes "old")) none)
        ≡ some (codes "old"))
unfolding resolved_secret_name
resolved_secret_name_cases = (refl, refl, refl, refl, refl)

abbrev item_a : Option Str → VaultwardenSecretDataItem
item_a vault = item (codes "a") (some (codes "item-a")) none vault

build_requests_vault_cases :
    (build_requests (spec (some (codes "Common")) (item_a (some (codes "Apollo")) ∷ []))
      ≡ ok (request (codes "item-a") (some (codes "Apollo")) ∷ []))
    × (build_requests (spec (some (codes "Common")) (item_a none ∷ []))
        ≡ ok (request (codes "item-a") (some (codes "Common")) ∷ []))
    × (build_requests (spec none (item_a none ∷ [])) ≡ ok (request (codes "item-a") none ∷ []))
    × (build_requests (spec (some []) (item_a (some []) ∷ []))
        ≡ ok (request (codes "item-a") none ∷ []))
    × (build_requests (spec (some (codes "Common")) (item_a (some []) ∷ []))
        ≡ ok (request (codes "item-a") (some (codes "Common")) ∷ []))
unfolding build_requests build_request resolved_secret_name
build_requests_vault_cases = (refl, refl, refl, refl, refl)

build_requests_name_cases :
    (build_requests (spec none (item (codes "a") none (some (codes "legacy-item")) none ∷ []))
      ≡ ok (request (codes "legacy-item") none ∷ []))
    × (build_requests
          (spec none (item (codes "a") (some (codes "new")) (some (codes "old")) none ∷ []))
        ≡ ok (request (codes "new") none ∷ []))
    × (build_requests (spec none (item_a none ∷ item (codes "b") none none none ∷ []))
        ≡ err (no_secret_name 1 (codes "b")))
unfolding build_requests build_request resolved_secret_name
build_requests_name_cases = (refl, refl, refl)

abbrev ready : VaultwardenSecretStatus
ready = record {
  ready = true;
  last_sync_time = some (codes "2026-09-03T22:13:00Z");
  last_sync_error = text [];
  observed_generation = some 1;
  conditions = [];
}

abbrev boom : VaultwardenSecretStatus
boom = record {
  ready = false;
  last_sync_time = none;
  last_sync_error = text (codes "boom");
  observed_generation = some 1;
  conditions = [];
}

status_patch_cases :
    ((status_patch ready).last_sync_error ≡ null)
    × ((status_patch boom).last_sync_error ≡ value (text (codes "boom")))
unfolding status_patch
status_patch_cases = (refl, refl)
