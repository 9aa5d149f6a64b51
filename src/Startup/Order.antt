-- ===== src/Startup/Order.antt =====
-- What `main` of src/main.rs starts and stops, and the login that it announces.
use vaultwarden_operator.Prelude.{
  ◌≡◌, refl, ◌≢◌, ◌↔◌, ◌⊎◌, inl, inr, Bool, true, false, Option, none, some, In, arith, Result, ok,
  err, panic, Str,
}
use vaultwarden_operator.Prelude.{Bytes}
use vaultwarden_operator.Crypto.Keys.{hash_password}
use vaultwarden_operator.Auth.{Services, login, login_with_api_key, login_with_password}
use vaultwarden_operator.Leader.{Acquisition, acquired, exited, waiting}
use vaultwarden_operator.Startup.Main.{
  StartError, api_key, auth_mode, Operator, run_controller, step_down, Shutdown, signalled,
  lease_lost, lead, main,
}

-- The controller runs exactly if the operator has a client for Kubernetes, the lease and a vault
-- client, whatever ends it then; and the lease is given back exactly if the controller ran.
pub main_controller_iff :
    (has_client : Bool) (acquisition : Acquisition) (started : Result StartError Operator)
    (shutdown : Shutdown)
    → let deeds = main has_client acquisition started shutdown in
      (In run_controller deeds ↔ (
        (has_client ≡ true)
        × (acquisition ≡ acquired)
        × ((operator : Operator) × (started ≡ ok operator))))
      × (In step_down deeds ↔ In run_controller deeds)
unfolding main lead
main_controller_iff false acquisition started shutdown =
    ((λ i. ground arith, λ h. cc (h.0)), (λ i. ground arith, λ i. ground arith))
main_controller_iff true waiting started shutdown =
    ((λ i. ground arith, λ h. cc (h.1)), (λ i. ground arith, λ i. ground arith))
main_controller_iff true exited started shutdown =
    ((λ i. ground arith, λ h. cc (h.1)), (λ i. ground arith, λ i. ground arith))
main_controller_iff true acquired (err e) shutdown =
    ((λ i. ground arith, λ h. cc (h.2.1)), (λ i. ground arith, λ i. ground arith))
main_controller_iff true acquired panic shutdown =
    ((λ i. ground arith, λ h. cc (h.2.1)), (λ i. ground arith, λ i. ground arith))
main_controller_iff true acquired (ok operator) shutdown =
    let runs = inr (inr (inr (inr (inl refl)))) in
    ((λ i. (refl, refl, (operator, refl)), λ h. runs), (λ i. runs, λ i. gives_back shutdown))
  where
    gives_back : (s : Shutdown) → In step_down (main true acquired (ok operator) s)
    gives_back signalled = inr (inr (inr (inr (inr (inr (inl refl))))))
    gives_back lease_lost = inr (inr (inr (inr (inr (inl refl)))))

-- The kind of login that is announced is the grant that is used: the API key exactly where the mode
-- says so, and else the password.
pub auth_mode-login :
    {RsaPrivateKey : Type 0} (services : Services RsaPrivateKey)
    (base_url email password device_id : Str) (client_id client_secret : Option Str)
    (master_key : Bytes)
    → ((id secret : Str) × (client_id ≡ some id)
        × (client_secret ≡ some secret)
        × (auth_mode client_id client_secret ≡ api_key)
        × (login services base_url email password client_id client_secret device_id master_key
            ≡ login_with_api_key services base_url id secret device_id))
      ⊎ ((auth_mode client_id client_secret ≢ api_key)
          × (login services base_url email password client_id client_secret device_id master_key
              ≡ login_with_password services base_url email
                  (hash_password services.crates password master_key)
                  device_id))
unfolding auth_mode login
auth_mode-login services base_url email password device_id (some id) (some secret) master_key =
    inl (id, secret, refl, refl, refl, refl)
auth_mode-login services base_url email password device_id none secret master_key =
    inr (no_id secret, refl)
  where
    no_id : (o : Option Str) → auth_mode none o ≢ api_key
    no_id none e = cc
    no_id (some x) e = cc
auth_mode-login services base_url email password device_id (some id) none master_key =
    inr ((λ e. cc), refl)
