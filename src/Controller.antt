-- ===== src/Controller.antt =====
-- src/controller.rs: the requests and the interval of a resource, its status, and its reconciliation.
pub mod Status
mod Tests
mod Cases
pub mod Reconcile
pub mod Requests
use vaultwarden_operator.Prelude.{
  ℕ, suc, ◌*◌, Option, List, [], ◌∷◌, if◌then◌else◌, or_else, is_empty, Result, ok, err, ◌>>=◌,
  map_err, ok_or, Str,
}
use vaultwarden_operator.Duration.{Duration, from_secs, is_zero, parse_duration}
use vaultwarden_operator.Vault.{SecretRequest}
use vaultwarden_operator.Crd.{
  VaultwardenSecretDataItem, set_only, resolved_secret_name, VaultwardenSecretSpec, IntervalError,
  bad_duration, not_positive, SpecError, no_secret_name,
}

abbrev pub default_sync_interval : Duration
default_sync_interval = from_secs (5 * 60)

-- the closure of `build_requests`, at the index `i`
unfoldable pub build_request :
    (default_vault : Option Str) (i : ℕ)
    → VaultwardenSecretDataItem
    → Result SpecError SecretRequest
build_request default_vault i item = do
  name ← ok_or (no_secret_name i item.key) (resolved_secret_name item)
  ok (record { name = name; vault = or_else (set_only item.vault) default_vault })

unfoldable pub build_from :
    (default_vault : Option Str) (i : ℕ)
    → List VaultwardenSecretDataItem
    → Result SpecError (List SecretRequest)
build_from default_vault i [] = ok []
build_from default_vault i (item ∷ items) = do
  request ← build_request default_vault i item
  requests ← build_from default_vault (suc i) items
  ok (request ∷ requests)

unfoldable pub build_requests : VaultwardenSecretSpec → Result SpecError (List SecretRequest)
unfolding build_from
build_requests spec = build_from (set_only spec.default_vault) 0 spec.data_items

unfoldable pub parse_sync_interval : Str → Result IntervalError Duration
parse_sync_interval s = if is_empty s then ok default_sync_interval else do
  d ← map_err bad_duration (parse_duration s)
  if is_zero d then err not_positive else ok d
