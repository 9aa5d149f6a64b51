-- ===== src/Controller/Tests.antt =====
-- The theorems on src/controller.rs at concrete inputs.
use vaultwarden_operator.Prelude.{
  ℕ, ◌≡◌, refl, ◌⊎◌, none, some, List, [], ◌∷◌, replicate, ok, err, codes, str_eq, trim,
  ascii_lower,
}
use vaultwarden_operator.Duration.{Duration, from_secs, parse_duration}
use vaultwarden_operator.Http.{read_clock}
use vaultwarden_operator.Vault.{SecretRequest}
use vaultwarden_operator.Crd.{
  VaultwardenSecretDataItem, set_only, no_secret_name, Message, invalid_spec, VaultwardenSecret,
}
use vaultwarden_operator.Controller.{build_requests, parse_sync_interval}
use vaultwarden_operator.Controller.Requests.{Requested, IsFirstUnnamed, build_requests_cases}
use vaultwarden_operator.Controller.Status.{
  old_conditions, ready_status, failed_status, status_patch,
}
use vaultwarden_operator.Controller.Status.Conditions.{IsKeyed}
use vaultwarden_operator.Controller.Status.Laws.{
  SaysReady, SaysFailed, merge, stored, status_patch-merge, status-IsKeyed,
}
use vaultwarden_operator.Controller.Reconcile.{requeue, Cluster, reconcile_apply}
use vaultwarden_operator.Controller.Reconcile.Laws.{WritesAtMostOne, reconcile_apply_complete}
use vaultwarden_operator.Controller.Reconcile.Reports.{IsRequeued, reconcile_apply_reports}
use vaultwarden_operator.Fixtures.{cache, services, client, world, entry, resource, api}

abbrev entries : List VaultwardenSecretDataItem
entries = entry (codes "password") (codes "db") ∷ entry (codes "token") (codes "api") ∷ []

build_requests_cases_example :
    ((requests : List SecretRequest) × (build_requests (resource entries).spec ≡ ok requests)
      × Requested (set_only none) entries requests)
    ⊎ ((i : ℕ) × (item : VaultwardenSecretDataItem) × (build_requests (resource entries).spec
          ≡ err (no_secret_name i item.key))
        × IsFirstUnnamed entries i item)
build_requests_cases_example = build_requests_cases (resource entries).spec

parse_sync_interval_test : parse_sync_interval (codes "1m") ≡ ok (from_secs 60)
unfolding parse_sync_interval parse_duration trim vaultwarden_operator.Duration.duration_loop
    vaultwarden_operator.Duration.read_component vaultwarden_operator.Duration.read_number
    vaultwarden_operator.Duration.read_unit vaultwarden_operator.Duration.strip_unit
    vaultwarden_operator.Duration.saturating_add vaultwarden_operator.Duration.unit_secs
parse_sync_interval_test = refl

abbrev unnamed : Message
unnamed = invalid_spec (no_secret_name 0 (codes "k"))

-- a resource whose last sync failed
abbrev broken : VaultwardenSecret
broken = record {
  name = codes "app";
  namespace = none;
  generation = some 2;
  owner_ref = some (codes "uid");
  spec = (resource entries).spec;
  resource_status = some (failed_status (resource entries) unnamed (codes "t0"));
}

status_patch-merge_example :
    (merge (stored broken) (status_patch (ready_status broken (codes "t1")))
      ≡ ready_status broken (codes "t1"))
    × (merge (stored broken) (status_patch (failed_status broken unnamed (codes "t1")))
        ≡ failed_status broken unnamed (codes "t1"))
    × SaysReady broken
        (codes "t1")
        (merge (stored broken) (status_patch (ready_status broken (codes "t1"))))
    × SaysFailed broken unnamed
        (codes "t1")
        (merge (stored broken) (status_patch (failed_status broken unnamed (codes "t1"))))
status_patch-merge_example = status_patch-merge broken unnamed (codes "t1")

broken-IsKeyed : IsKeyed (old_conditions broken)
unfolding failed_status vaultwarden_operator.Controller.Status.upsert_condition str_eq
broken-IsKeyed = (refl, (refl, tt))

status-IsKeyed_example :
    IsKeyed (ready_status broken (codes "t1")).conditions
    × IsKeyed (failed_status broken unnamed (codes "t1")).conditions
status-IsKeyed_example = status-IsKeyed broken unnamed (codes "t1") broken-IsKeyed

abbrev cluster : Cluster
cluster = record { vault_world = world (some cache) (replicate 20 read_clock); calls = [] }

reconcile_apply_complete_example :
    WritesAtMostOne services api client
      (resource entries)
      cluster
      (reconcile_apply services api client (resource entries) cluster).1
reconcile_apply_complete_example =
    reconcile_apply_complete services api client (resource entries) cluster

reconcile_apply_test : reconcile_apply services api client (resource entries) cluster ≡ (
  ok (requeue (from_secs 60)),
  (reconcile_apply services api client (resource entries) cluster).1,
)
unfolding reconcile_apply parse_sync_interval parse_duration trim
    vaultwarden_operator.Duration.duration_loop vaultwarden_operator.Duration.read_component
    vaultwarden_operator.Duration.read_number vaultwarden_operator.Duration.read_unit
    vaultwarden_operator.Duration.strip_unit vaultwarden_operator.Duration.saturating_add
    vaultwarden_operator.Duration.unit_secs build_requests
    vaultwarden_operator.Controller.build_request vaultwarden_operator.Crd.resolved_secret_name
    vaultwarden_operator.Vault.Fetch.fetch_secrets
    vaultwarden_operator.Vault.Fetch.try_fetch_secrets vaultwarden_operator.Sync.Lookup.lookup_item
    vaultwarden_operator.Sync.Lookup.find_item vaultwarden_operator.Sync.Lookup.in_scope str_eq
    ascii_lower vaultwarden_operator.Controller.Reconcile.publish
    vaultwarden_operator.Controller.Reconcile.write_secret
    vaultwarden_operator.Controller.Reconcile.set_ready_status
reconcile_apply_test = refl

reconcile_apply_reports_example :
    IsRequeued services api
      (resource entries)
      cluster
      (requeue (from_secs 60))
      (reconcile_apply services api client (resource entries) cluster).1
reconcile_apply_reports_example =
    reconcile_apply_reports services api client (resource entries) cluster
      (reconcile_apply services api client (resource entries) cluster).1 (requeue (from_secs 60))
      reconcile_apply_test
