-- ===== src/Controller/Reconcile/Laws.antt =====
-- When `reconcile_apply` of src/controller.rs writes a Secret, and what it then holds.
use vaultwarden_operator.Prelude.{
  ◌≡◌, refl, sym, ap, ◌∙◌, ◌⊎◌, inl, inr, Bool, true, false, Option, none, some, List, [], ◌∷◌,
  if◌then◌else◌, Result, ok, err, panic, map_err, Str,
}
use vaultwarden_operator.Prelude.Actions.{next, ◌>>=◌, tried, pure}
use vaultwarden_operator.Duration.{Duration}
use vaultwarden_operator.Auth.{Services}
use vaultwarden_operator.Vault.{VaultError, SecretRequest, VaultClient, World}
use vaultwarden_operator.Vault.Fetch.{fetch_secrets}
use vaultwarden_operator.Crd.{
  IntervalError, SpecError, Message, invalid_interval, invalid_spec, fetch_failed,
  VaultwardenSecret,
}
use vaultwarden_operator.Controller.{default_sync_interval, build_requests, parse_sync_interval}
use vaultwarden_operator.Controller.Reconcile.{
  ReconcileError, kube, Requeue, requeue, SecretBody, KubeCall, get_secret, create_secret,
  apply_secret, patch_status, Kube, Cluster, secret_data, namespace_of, call, set_ready_status,
  set_failed_status, give_up, write_secret, publish, after_fetch, after_requests, after_interval,
  reconcile_apply,
}
use vaultwarden_operator.Prelude.HashMap
use vaultwarden_operator.Controller.Reconcile.Data.{last_value, get-secret_data}

-- the bodies that calls write, the newest first
unfoldable pub writes : List KubeCall → List SecretBody
writes [] = []
writes (create_secret body ∷ calls) = body ∷ writes calls
writes (apply_secret body ∷ calls) = body ∷ writes calls
writes (get_secret ns name ∷ calls) = writes calls
writes (patch_status ns name patch ∷ calls) = writes calls

module _ {RsaPrivateKey : Type 0} (services : Services RsaPrivateKey) (api : Kube) where
  -- The Secret that the resource is to have, from values that a fetch of all its requests gave.
  abbrev pub IsComplete : VaultClient → VaultwardenSecret → World → SecretBody → Type 0
  IsComplete client vws w body =
      (requests : List SecretRequest) × (values : List Str) × (w' : World) × (build_requests
          vws.spec
        ≡ ok requests)
      × (fetch_secrets services client requests w ≡ (ok values, w'))
      × (body.name ≡ vws.name)
      × (body.namespace ≡ namespace_of vws)
      × (some body.owner_ref ≡ vws.owner_ref)
      × ((key : Str) → HashMap.get key body.string_data ≡ last_value key vws.spec.data_items values)

  -- No body more, or one complete one.
  abbrev pub WritesAtMostOne : VaultClient → VaultwardenSecret → Cluster → Cluster → Type 0
  WritesAtMostOne client vws s s' =
      (writes s'.calls ≡ writes s.calls)
      ⊎ ((body : SecretBody) × (writes s'.calls ≡ body ∷ writes s.calls)
          × IsComplete client vws s.vault_world body)

  -- The calls of `s` and `s'` write the same.
  abbrev SameWrites : Cluster → Cluster → Type 0
  SameWrites s s' = writes s'.calls ≡ writes s.calls

  done-SameWrites :
      (r : Result ReconcileError Bool × Cluster) (q : Requeue) (s : Cluster)
      → SameWrites s r.1
      → SameWrites s (next r (λ x. pure q)).1
  done-SameWrites (ok b, s1) q s h = h
  done-SameWrites (err e, s1) q s h = h
  done-SameWrites (panic, s1) q s h = h

  give_up-SameWrites :
      (vws : VaultwardenSecret) (msg : Message) (d : Duration) (s : Cluster)
      → SameWrites s (give_up services api vws msg d s).1
  unfolding writes set_failed_status
  give_up-SameWrites vws msg d s =
      done-SameWrites (set_failed_status services api vws msg s) (requeue d) s refl

  -- What `write_secret` adds: nothing where the first call fails, else the body.
  write_secret-writes :
      (body : SecretBody) (s : Cluster)
      → (writes (write_secret services api body s).1.calls ≡ writes s.calls)
        ⊎ (writes (write_secret services api body s).1.calls ≡ body ∷ writes s.calls)
  unfolding writes write_secret
  write_secret-writes body s = go (api.answer s.calls (get_secret body.namespace body.name))
    where
      s1 : Cluster
      s1 = record {
        vault_world = s.vault_world;
        calls = get_secret body.namespace body.name ∷ s.calls;
      }

      go :
          (r : Result Str Bool)
          → (writes
                (next
                  (map_err kube r, s1)
                  (λ found.
                    if found
                    then call services api (apply_secret body)
                    else call services api (create_secret body))).1.calls
              ≡ writes s.calls)
            ⊎ (writes
                  (next
                    (map_err kube r, s1)
                    (λ found.
                      if found
                      then call services api (apply_secret body)
                      else call services api (create_secret body))).1.calls
                ≡ body ∷ writes s.calls)
      go (ok true) = inr refl
      go (ok false) = inr refl
      go (err e) = inl refl
      go panic = inl refl

  -- the update of the status at the end of a success
  reported-SameWrites :
      (vws : VaultwardenSecret) (d : Duration) (r : Result ReconcileError Bool × Cluster)
      → SameWrites r.1
          (next r (λ w. set_ready_status services api vws >>= (λ u. pure (requeue d)))).1
  unfolding writes set_ready_status
  reported-SameWrites vws d (ok b, s) =
      done-SameWrites (set_ready_status services api vws s) (requeue d) s refl
  reported-SameWrites vws d (err e, s) = refl
  reported-SameWrites vws d (panic, s) = refl

  -- What follows the write of a body, wherever it ends.
  publish-WritesAtMostOne :
      (client : VaultClient) (vws : VaultwardenSecret) (interval : Duration)
      (requests : List SecretRequest) (values : List Str) (w' : World) (s s1 : Cluster)
      → build_requests vws.spec ≡ ok requests
      → fetch_secrets services client requests s.vault_world ≡ (ok values, w')
      → SameWrites s s1
      → WritesAtMostOne client vws s (publish services api vws interval values s1).1
  unfolding publish set_ready_status writes
  publish-WritesAtMostOne client vws interval requests values w' s s1 b f h = go vws.owner_ref refl
    where
      body : Str → SecretBody
      body o = record {
        name = vws.name;
        namespace = namespace_of vws;
        owner_ref = o;
        string_data = secret_data vws.spec.data_items values [];
      }

      end :
          (o : Str)
          → vws.owner_ref ≡ some o
          → (r : Result ReconcileError Bool × Cluster)
          → (writes r.1.calls ≡ writes s1.calls) ⊎ (writes r.1.calls ≡ body o ∷ writes s1.calls)
          → WritesAtMostOne client vws s
              (next r (λ w. set_ready_status services api vws >>= (λ u. pure (requeue interval)))).1
      end o e r (inl k) = inl (reported-SameWrites vws interval r ∙ k ∙ h)
      end o e r (inr k) = inr (
        body o,
        reported-SameWrites vws interval r ∙ k ∙ ap (λ bs. body o ∷ bs) h,
        (
          requests,
          values,
          w',
          b,
          f,
          refl,
          refl,
          sym e,
          λ key. get-secret_data key vws.spec.data_items values,
        ),
      )

      go :
          (o : Option Str)
          → vws.owner_ref ≡ o
          → WritesAtMostOne client vws s
              (next
                (elim o [ none ↦ panic | some x ↦ ok x ], s1)
                (λ owner. write_secret services api (body owner) >>= (λ w.
                  set_ready_status services api vws >>= (λ u. pure (requeue interval))))).1
      go none e = inl h
      go (some o) e =
          end o e (write_secret services api (body o) s1) (write_secret-writes (body o) s1)

  fetched-WritesAtMostOne :
      (client : VaultClient) (vws : VaultwardenSecret) (interval : Duration)
      (requests : List SecretRequest) (s : Cluster) (r : Result VaultError (List Str) × World)
      → build_requests vws.spec ≡ ok requests
      → fetch_secrets services client requests s.vault_world ≡ r
      → WritesAtMostOne client vws s
          (next
            (
              (tried {F = ReconcileError} r).0,
              record { vault_world = (tried {F = ReconcileError} r).1; calls = s.calls },
            )
            (after_fetch services api vws interval)).1
  fetched-WritesAtMostOne client vws interval requests s (ok values, w') b f =
      publish-WritesAtMostOne client vws interval requests values w' s
        (record { vault_world = w'; calls = s.calls }) b f refl
  fetched-WritesAtMostOne client vws interval requests s (err e, w') b f = inl (
      give_up-SameWrites vws (fetch_failed e) interval
        (record { vault_world = w'; calls = s.calls }))
  fetched-WritesAtMostOne client vws interval requests s (panic, w') b f = inl refl

  requested-WritesAtMostOne :
      (client : VaultClient) (vws : VaultwardenSecret) (interval : Duration) (s : Cluster)
      (r : Result SpecError (List SecretRequest))
      → build_requests vws.spec ≡ r
      → WritesAtMostOne client vws s (after_requests services api client vws interval r s).1
  requested-WritesAtMostOne client vws interval s (ok requests) b =
      fetched-WritesAtMostOne client vws interval requests s _ b refl
  requested-WritesAtMostOne client vws interval s (err e) b =
      inl (give_up-SameWrites vws (invalid_spec e) interval s)
  requested-WritesAtMostOne client vws interval s panic b = inl refl

  -- Whatever happens, an apply writes no Secret or one. The one that it writes is named like the
  -- resource, belongs to it, and holds under each key of the spec the value of the last entry with
  -- that key, and nothing else, of a fetch in which every request of the spec succeeded: there is
  -- no partial write.
  pub reconcile_apply_complete :
      (client : VaultClient) (vws : VaultwardenSecret) (s : Cluster)
      → WritesAtMostOne client vws s (reconcile_apply services api client vws s).1
  unfolding reconcile_apply
  reconcile_apply_complete client vws s = go (parse_sync_interval vws.spec.sync_interval)
    where
      go :
          (r : Result IntervalError Duration)
          → WritesAtMostOne client vws s (after_interval services api client vws r s).1
      go (ok d) = requested-WritesAtMostOne client vws d s (build_requests vws.spec) refl
      go (err e) = inl (give_up-SameWrites vws (invalid_interval e) default_sync_interval s)
      go panic = inl refl
