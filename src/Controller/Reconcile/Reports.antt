-- ===== src/Controller/Reconcile/Reports.antt =====
-- What a run of `reconcile_apply` of src/controller.rs that ends well reports.
use vaultwarden_operator.Prelude.{
  ◌<◌, ◌≡◌, refl, sym, ap, ◌⊎◌, inl, inr, Bool, true, false, Option, none, some, List, [], ◌∷◌,
  arith, if◌then◌else◌, Result, ok, err, panic, map_err, Str,
}
use vaultwarden_operator.Prelude.Actions.{next, next-eq-ok, ◌>>=◌, tried, pure}
use vaultwarden_operator.Duration.{Duration}
use vaultwarden_operator.Auth.{Services}
use vaultwarden_operator.Vault.{VaultError, SecretRequest, VaultClient, World}
use vaultwarden_operator.Vault.Fetch.{fetch_secrets}
use vaultwarden_operator.Crd.{
  IntervalError, SpecError, Message, invalid_interval, invalid_spec, fetch_failed,
  VaultwardenSecretStatus, VaultwardenSecret,
}
use vaultwarden_operator.Controller.{default_sync_interval, build_requests, parse_sync_interval}
use vaultwarden_operator.Controller.Requests.{parse_sync_interval_positive}
use vaultwarden_operator.Controller.Reconcile.Laws.{writes}
use vaultwarden_operator.Controller.Status.{ready_status, failed_status, status_patch}
use vaultwarden_operator.Controller.Reconcile.{
  ReconcileError, kube, Requeue, requeue, SecretBody, KubeCall, get_secret, create_secret,
  apply_secret, patch_status, Kube, Cluster, secret_data, namespace_of, call, set_ready_status,
  set_failed_status, give_up, write_secret, publish, after_fetch, after_requests, after_interval,
  reconcile_apply,
}

module _ {RsaPrivateKey : Type 0} (services : Services RsaPrivateKey) (api : Kube) where
  -- The call that updates the status of a resource.
  abbrev pub status_call : VaultwardenSecret → VaultwardenSecretStatus → KubeCall
  status_call vws status = patch_status (namespace_of vws) vws.name (status_patch status)

  -- The run wrote a Secret and then reported success, or it reported a failure and made no other
  -- call.
  abbrev pub Reports : VaultwardenSecret → Cluster → Cluster → Type 0
  Reports vws s s' =
      ((now : Str) × (body : SecretBody) × (before : List KubeCall) × (s'.calls
          ≡ status_call vws (ready_status vws now) ∷ before)
        × (writes before ≡ body ∷ writes s.calls))
      ⊎ ((msg : Message) × (now : Str) × (s'.calls
            ≡ status_call vws (failed_status vws msg now) ∷ s.calls))

  abbrev pub IsRequeued : VaultwardenSecret → Cluster → Requeue → Cluster → Type 0
  IsRequeued vws s q s' = (d : Duration) × (q ≡ requeue d) × (0 < d) × Reports vws s s'

  -- an action that ended well with a fixed result
  done-ok :
      (r : Result ReconcileError Bool × Cluster) (q q' : Requeue) (s' : Cluster)
      → next r (λ x. pure q) ≡ (ok q', s')
      → (q' ≡ q) × (s' ≡ r.1)
  done-ok (ok b, s) q q' s' e = (cc, ap (λ r. r.1) (sym e))
  done-ok (err x, s) q q' s' e = cc
  done-ok (panic, s) q q' s' e = cc

  give_up-IsRequeued :
      (vws : VaultwardenSecret) (msg : Message) (d : Duration) (s s' : Cluster) (q : Requeue)
      → 0 < d
      → give_up services api vws msg d s ≡ (ok q, s')
      → IsRequeued vws s q s'
  unfolding set_failed_status
  give_up-IsRequeued vws msg d s s' q p e =
      let (q_eq, s_eq) = done-ok (set_failed_status services api vws msg s) (requeue d) q s' e in
      (d, q_eq, p, inr (msg, api.now_rfc3339 s.calls, ap (λ x. x.calls) s_eq))

  write_secret-ok :
      (body : SecretBody) (s s' : Cluster) (b : Bool)
      → write_secret services api body s ≡ (ok b, s')
      → writes s'.calls ≡ body ∷ writes s.calls
  unfolding write_secret writes
  write_secret-ok body s s' b e = go (api.answer s.calls (get_secret body.namespace body.name)) e
    where
      s1 : Cluster
      s1 = record {
        vault_world = s.vault_world;
        calls = get_secret body.namespace body.name ∷ s.calls;
      }

      go :
          (r : Result Str Bool)
          → next
              (map_err kube r, s1)
              (λ found.
                if found
                then call services api (apply_secret body)
                else call services api (create_secret body))
            ≡ (ok b, s')
          → writes s'.calls ≡ body ∷ writes s.calls
      go (ok true) h = ap (λ r. writes r.1.calls) (sym h)
      go (ok false) h = ap (λ r. writes r.1.calls) (sym h)
      go (err x) h = cc
      go panic h = cc

  publish-IsRequeued :
      (vws : VaultwardenSecret) (d : Duration) (values : List Str) (s s' : Cluster) (q : Requeue)
      → 0 < d
      → publish services api vws d values s ≡ (ok q, s')
      → IsRequeued vws s q s'
  unfolding publish set_ready_status
  publish-IsRequeued vws d values s s' q p e = go vws.owner_ref e
    where
      body : Str → SecretBody
      body o = record {
        name = vws.name;
        namespace = namespace_of vws;
        owner_ref = o;
        string_data = secret_data vws.spec.data_items values [];
      }

      go :
          (o : Option Str)
          → next
              (elim o [ none ↦ panic | some x ↦ ok x ], s)
              (λ owner.
                write_secret services api (body owner)
                >>= (λ w. set_ready_status services api vws >>= (λ u. pure (requeue d))))
            ≡ (ok q, s')
          → IsRequeued vws s q s'
      go none h = cc
      go (some o) h =
          let (w, s1, e1, f1) = next-eq-ok (write_secret services api (body o) s) _ h in
          let (q_eq, s_eq) = done-ok (set_ready_status services api vws s1) (requeue d) q s' f1 in
          (
            d,
            q_eq,
            p,
            inl (
              api.now_rfc3339 s1.calls,
              body o,
              s1.calls,
              ap (λ x. x.calls) s_eq,
              write_secret-ok (body o) s s1 w e1,
            ),
          )

  fetched-IsRequeued :
      (vws : VaultwardenSecret) (d : Duration) (s s' : Cluster) (q : Requeue)
      (r : Result VaultError (List Str) × World)
      → 0 < d
      → next
          (
            (tried {F = ReconcileError} r).0,
            record { vault_world = (tried {F = ReconcileError} r).1; calls = s.calls },
          )
          (after_fetch services api vws d)
        ≡ (ok q, s')
      → IsRequeued vws s q s'
  fetched-IsRequeued vws d s s' q (ok values, w') p e =
      publish-IsRequeued vws d values (record { vault_world = w'; calls = s.calls }) s' q p e
  fetched-IsRequeued vws d s s' q (err x, w') p e =
      give_up-IsRequeued vws (fetch_failed x) d (record { vault_world = w'; calls = s.calls }) s' q
        p e
  fetched-IsRequeued vws d s s' q (panic, w') p e = cc

  requested-IsRequeued :
      (client : VaultClient) (vws : VaultwardenSecret) (d : Duration) (s s' : Cluster) (q : Requeue)
      (r : Result SpecError (List SecretRequest))
      → 0 < d
      → after_requests services api client vws d r s ≡ (ok q, s')
      → IsRequeued vws s q s'
  requested-IsRequeued client vws d s s' q (ok requests) p e =
      fetched-IsRequeued vws d s s' q (fetch_secrets services client requests s.vault_world) p e
  requested-IsRequeued client vws d s s' q (err x) p e =
      give_up-IsRequeued vws (invalid_spec x) d s s' q p e
  requested-IsRequeued client vws d s s' q panic p e = cc

  -- An apply that ends without an error asks to be run again after a positive time. Its last call
  -- updates the status: to success after a Secret was written, or to a failure as its only call.
  pub reconcile_apply_reports :
      (client : VaultClient) (vws : VaultwardenSecret) (s s' : Cluster) (q : Requeue)
      → reconcile_apply services api client vws s ≡ (ok q, s')
      → IsRequeued vws s q s'
  unfolding reconcile_apply
  reconcile_apply_reports client vws s s' q e =
      go (parse_sync_interval vws.spec.sync_interval) refl e
    where
      go :
          (r : Result IntervalError Duration)
          → parse_sync_interval vws.spec.sync_interval ≡ r
          → after_interval services api client vws r s ≡ (ok q, s')
          → IsRequeued vws s q s'
      go (ok d) i h =
          requested-IsRequeued client vws d s s' q (build_requests vws.spec)
            (parse_sync_interval_positive vws.spec.sync_interval d i).0 h
      go (err x) i h =
          give_up-IsRequeued vws (invalid_interval x) default_sync_interval s s' q (omega arith) h
      go panic i h = cc
