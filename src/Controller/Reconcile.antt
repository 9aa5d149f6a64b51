-- ===== src/Controller/Reconcile.antt =====
-- `reconcile` and `error_policy` of src/controller.rs, with the cluster's API as a parameter.
pub mod Data
pub mod Laws
pub mod Reports
use vaultwarden_operator.Prelude.{
  ◌⊎◌, inl, inr, Bool, none, some, List, [], ◌∷◌, if◌then◌else◌, unwrap_or, Result, ok, err, panic,
  map_err, Str, codes,
}
use vaultwarden_operator.Prelude.HashMap
use vaultwarden_operator.Prelude.HashMap.{HashMap}
use vaultwarden_operator.Prelude.Actions.{Action, next, ◌>>=◌, wrap, tried, lift, pure}
use vaultwarden_operator.Duration.{Duration}
use vaultwarden_operator.Auth.{Services}
use vaultwarden_operator.Vault.{VaultError, SecretRequest, VaultClient, World}
use vaultwarden_operator.Vault.Fetch.{fetch_secrets}
use vaultwarden_operator.Crd.{
  VaultwardenSecretDataItem, IntervalError, SpecError, Message, invalid_interval, invalid_spec,
  fetch_failed, VaultwardenSecret,
}
use vaultwarden_operator.Controller.{default_sync_interval, build_requests, parse_sync_interval}
use vaultwarden_operator.Controller.Status.{ready_status, failed_status, StatusPatch, status_patch}

pub data ReconcileError : Type 0 where
  kube : Str → ReconcileError
  vault : VaultError → ReconcileError
  finalizer : ReconcileError → ReconcileError

-- `controller::Action`
pub data Requeue : Type 0 where
  requeue : Duration → Requeue
  await_change : Requeue

-- What the bodies of a created and of a patched Secret share, less its constant members.
pub record SecretBody : Type 0 where
  pub name : Str
  pub namespace : Str
  pub owner_ref : Str
  pub string_data : HashMap Str

pub data KubeCall : Type 0 where
  get_secret : (namespace name : Str) → KubeCall
  create_secret : SecretBody → KubeCall
  apply_secret : SecretBody → KubeCall
  patch_status : (namespace name : Str) → StatusPatch → KubeCall

-- What the API server answers, and the time, after the calls that were made, the newest first. The
-- answer to a call that gets a Secret says whether there is one.
pub record Kube : Type 0 where
  pub answer : List KubeCall → KubeCall → Result Str Bool
  pub now_rfc3339 : List KubeCall → Str

pub record Cluster : Type 0 where
  pub vault_world : World
  pub calls : List KubeCall

-- The pairs of `zip`, collected into a map: a later pair replaces an earlier one of its key
unfoldable pub secret_data : List VaultwardenSecretDataItem → List Str → HashMap Str → HashMap Str
secret_data [] values acc = acc
secret_data (item ∷ items) [] acc = acc
secret_data (item ∷ items) (v ∷ values) acc =
    secret_data items values (HashMap.insert item.key v acc)

abbrev pub namespace_of : VaultwardenSecret → Str
namespace_of vws = unwrap_or (codes "default") vws.namespace

-- `finalizer::Event`
pub data FinalizerEvent : Type 0 where
  apply cleanup : VaultwardenSecret → FinalizerEvent

unfoldable pub error_policy : VaultwardenSecret → ReconcileError → Requeue
error_policy vws e = requeue default_sync_interval

module _ {RsaPrivateKey : Type 0} (services : Services RsaPrivateKey) (api : Kube) where
  abbrev pub call : KubeCall → Action Cluster ReconcileError Bool
  call c s = (
    map_err kube (api.answer s.calls c),
    record { vault_world = s.vault_world; calls = c ∷ s.calls },
  )

  -- `Utc::now().to_rfc3339()`
  abbrev pub rfc3339 : Action Cluster ReconcileError Str
  rfc3339 s = (ok (api.now_rfc3339 s.calls), s)

  unfoldable pub set_ready_status : VaultwardenSecret → Action Cluster ReconcileError Bool
  set_ready_status vws = do
    now ← rfc3339
    call (patch_status (namespace_of vws) vws.name (status_patch (ready_status vws now)))

  unfoldable pub set_failed_status :
      VaultwardenSecret → Message → Action Cluster ReconcileError Bool
  set_failed_status vws msg = do
    now ← rfc3339
    call (patch_status (namespace_of vws) vws.name (status_patch (failed_status vws msg now)))

  -- a failure: its status is written, and the resource comes back after `d`
  abbrev pub give_up :
      VaultwardenSecret → Message → Duration → Action Cluster ReconcileError Requeue
  give_up vws msg d = do r ← set_failed_status vws msg; pure (requeue d)

  -- the fetch, as a `Result`
  abbrev pub fetch :
      VaultClient → List SecretRequest → Action Cluster ReconcileError (VaultError ⊎ List Str)
  fetch client requests s =
      let r = tried {F = ReconcileError} (fetch_secrets services client requests s.vault_world) in
      (r.0, record { vault_world = r.1; calls = s.calls })

  -- `get_opt`, then `create` or `patch`
  unfoldable pub write_secret : SecretBody → Action Cluster ReconcileError Bool
  write_secret body = do
    found ← call (get_secret body.namespace body.name)
    if found then call (apply_secret body) else call (create_secret body)

  -- the rest after a successful fetch; `controller_owner_ref(&()).unwrap()` may panic
  unfoldable pub publish :
      VaultwardenSecret → Duration → List Str → Action Cluster ReconcileError Requeue
  publish vws interval values = do
    owner ← lift (elim vws.owner_ref [ none ↦ panic | some o ↦ ok o ])
    w ← write_secret (record {
      name = vws.name;
      namespace = namespace_of vws;
      owner_ref = owner;
      string_data = secret_data vws.spec.data_items values [];
    })
    u ← set_ready_status vws
    pure (requeue interval)

  -- the `match` on the fetched values
  abbrev pub after_fetch :
      VaultwardenSecret → Duration → VaultError ⊎ List Str → Action Cluster ReconcileError Requeue
  after_fetch vws interval (inl e) = give_up vws (fetch_failed e) interval
  after_fetch vws interval (inr values) = publish vws interval values

  -- the `match` on the requests
  abbrev pub after_requests :
      VaultClient
      → VaultwardenSecret
      → Duration
      → Result SpecError (List SecretRequest)
      → Action Cluster ReconcileError Requeue
  after_requests client vws interval (err e) = give_up vws (invalid_spec e) interval
  after_requests client vws interval panic = lift panic
  after_requests client vws interval (ok requests) = do
    r ← fetch client requests
    after_fetch vws interval r

  -- the `match` on the interval
  abbrev pub after_interval :
      VaultClient
      → VaultwardenSecret
      → Result IntervalError Duration
      → Action Cluster ReconcileError Requeue
  after_interval client vws (err e) = give_up vws (invalid_interval e) default_sync_interval
  after_interval client vws panic = lift panic
  after_interval client vws (ok interval) =
      after_requests client vws interval (build_requests vws.spec)

  unfoldable pub reconcile_apply :
      VaultClient → VaultwardenSecret → Action Cluster ReconcileError Requeue
  reconcile_apply client vws =
      after_interval client vws (parse_sync_interval vws.spec.sync_interval)

  -- The closure that `reconcile` hands to `kube`'s `finalizer`; the owner reference makes the cluster
  -- delete the Secret.
  unfoldable pub handle_event : VaultClient → FinalizerEvent → Action Cluster ReconcileError Requeue
  handle_event client (apply vws) = reconcile_apply client vws
  handle_event client (cleanup vws) = pure await_change

  -- `reconcile`, over `kube`'s `finalizer`
  unfoldable pub reconcile :
      ((FinalizerEvent → Action Cluster ReconcileError Requeue)
        → Action Cluster ReconcileError Requeue)
      → VaultClient
      → Action Cluster ReconcileError Requeue
  reconcile finalizer_of client = wrap finalizer (finalizer_of (handle_event client))
