-- ===== src/Auth/Answers.antt =====
-- What each request of src/vault/auth.rs comes to, where the server answers it with success.
use vaultwarden_operator.Prelude.{
  ℕ, true, Bool-cases, ◌≡◌, refl, sym, ap, ◌∙◌, subst, ◌≢◌, ◌⊎◌, inl, inr, Option, none, some, List,
  [], ◌∷◌, if◌then◌else◌, is_empty, Result, ok, err, panic, map_err, Str, Bytes,
}
use vaultwarden_operator.Prelude.Actions.{Action, next, next-eq-ok, lift, pure, fail}
use vaultwarden_operator.Http.{
  Request, Reply, failed, replied, sent, Trace, is_success, response, send,
}
use vaultwarden_operator.Auth.{
  AuthError, http, empty_profile_key, PreloginResponse, TokenResponse, Services, checked,
  sync_request, prelogin_request, token_request, password_params, api_key_params, prelogin,
  do_token_request, login_with_password, login_with_api_key, fetch_profile_key, login,
  encrypted_key,
}
use vaultwarden_operator.Crypto.Keys.{hash_password}

module _ {E : Type 0} {A B : Type 0} where
  pub lift-ok :
      (r : Result E A) (f : A → Action Trace E B) (b : B) (u t : Trace)
      → next (r, u) f ≡ (ok b, t)
      → (a : A) × (r ≡ ok a) × (f a u ≡ (ok b, t))
  lift-ok (ok a) f b u t e = (a, refl, e)
  lift-ok (err x) f b u t e = cc
  lift-ok panic f b u t e = cc

pub map_err-ok :
    {E F A : Type 0} (f : E → F) (r : Result E A) (a : A) → map_err f r ≡ ok a → r ≡ ok a
map_err-ok f (ok b) a e = cc
map_err-ok f (err x) a e = cc
map_err-ok f panic a e = cc

-- The parameters of the grant: that of the API key where both its parts are set.
abbrev pub grant :
    (email hashed : Str) (client_id client_secret : Option Str) (device_id : Str) → List (Str × Str)
grant email hashed (some id) (some secret) device_id = api_key_params id secret device_id
grant email hashed (some id) none device_id = password_params email hashed device_id
grant email hashed none client_secret device_id = password_params email hashed device_id

module _ {RsaPrivateKey : Type 0} (services : Services RsaPrivateKey) where
  -- After the events of the trace the server answers the request with success, and its answer reads
  -- as the value.
  abbrev pub IsAnswer : {A : Type 0} → (Str → Result Str A) → Trace → Request → A → Type 0
  IsAnswer parse t req a =
      (status : ℕ) × (body : Str) × (services.net.server t req ≡ replied status (inr body))
      × (is_success status ≡ true)
      × (parse body ≡ ok a)

  checked-IsAnswer :
      {A : Type 0} (parse : Str → Result Str A) (t : Trace) (req : Request) (a : A) (r : Reply)
      → services.net.server t req ≡ r
      → (u : Trace) (t' : Trace)
      → next (response http r, u) (λ resp. lift (checked parse resp)) ≡ (ok a, t')
      → IsAnswer parse t req a × (t' ≡ u)
  checked-IsAnswer parse t req a (failed why) h u t' e = cc
  checked-IsAnswer parse t req a (replied status (inl why)) h u t' e =
      elim (Bool-cases (is_success status)) [
        | inl good ↦ let x = rw good at e in cc
        | inr bad ↦ let x = rw bad at e in cc
      ]
  checked-IsAnswer parse t req a (replied status (inr body)) h u t' e =
      elim (Bool-cases (is_success status)) [
        | inl good ↦
            let x = rw good at e in
            (
              (status, body, h, good, map_err-ok http (parse body) a (ap (λ r. r.0) x)),
              ap (λ r. r.1) (sym x),
            )
        | inr bad ↦ let x = rw bad at e in cc
      ]

  asked :
      {A : Type 0} (parse : Str → Result Str A) (req : Request) (a : A) (t t' : Trace)
      → next (send services.net http req t) (λ resp. lift (checked parse resp)) ≡ (ok a, t')
      → IsAnswer parse t req a × (t' ≡ sent req ∷ t)
  asked parse req a t t' e =
      checked-IsAnswer parse t req a (services.net.server t req) refl (sent req ∷ t) t' e

  pub prelogin-trace :
      (base_url email : Str) (pre : PreloginResponse) (t t' : Trace)
      → prelogin services base_url email t ≡ (ok pre, t')
      → IsAnswer services.prelogin_from_json t (prelogin_request base_url email) pre
        × (t' ≡ sent (prelogin_request base_url email) ∷ t)
  unfolding prelogin
  prelogin-trace base_url email pre t t' e =
      asked services.prelogin_from_json (prelogin_request base_url email) pre t t' e

  -- what a request for a token comes to
  abbrev pub IsToken : Str → List (Str × Str) → TokenResponse → Trace → Trace → Type 0
  IsToken base_url params tok t t' =
      IsAnswer services.token_from_json t (token_request base_url params) tok
      × (t' ≡ sent (token_request base_url params) ∷ t)

  do_token_request-IsToken :
      (base_url : Str) (params : List (Str × Str)) (tok : TokenResponse) (t t' : Trace)
      → do_token_request services base_url params t ≡ (ok tok, t')
      → IsToken base_url params tok t t'
  unfolding do_token_request
  do_token_request-IsToken base_url params tok t t' e =
      asked services.token_from_json (token_request base_url params) tok t t' e

  pub login-IsToken :
      (base_url email password : Str) (id secret : Option Str) (device_id : Str) (mk : Bytes)
      (tok : TokenResponse) (t t' : Trace)
      → login services base_url email password id secret device_id mk t ≡ (ok tok, t')
      → IsToken base_url
          (grant email (hash_password services.crates password mk) id secret device_id)
          tok
          t
          t'
  unfolding login login_with_password login_with_api_key
  login-IsToken base_url email password (some i) (some s) device_id mk tok t t' e =
      do_token_request-IsToken base_url _ tok t t' e
  login-IsToken base_url email password (some i) none device_id mk tok t t' e =
      do_token_request-IsToken base_url _ tok t t' e
  login-IsToken base_url email password none secret device_id mk tok t t' e =
      do_token_request-IsToken base_url _ tok t t' e

  -- Where the encrypted key comes from: the token response, or else one more request.
  abbrev pub IsKeySource : Str → TokenResponse → Str → Trace → Trace → Type 0
  IsKeySource base_url tok key t t' =
      (key ≢ [])
      × (((key ≡ tok.key) × (t' ≡ t))
          ⊎ ((tok.key ≡ [])
              × IsAnswer services.profile_key_from_json t (sync_request base_url tok.access_token)
                  key
              × (t' ≡ sent (sync_request base_url tok.access_token) ∷ t)))

  fetch_profile_key-trace :
      (base_url token key : Str) (t t' : Trace)
      → fetch_profile_key services base_url token t ≡ (ok key, t')
      → (key ≢ [])
        × IsAnswer services.profile_key_from_json t (sync_request base_url token) key
        × (t' ≡ sent (sync_request base_url token) ∷ t)
  unfolding fetch_profile_key
  fetch_profile_key-trace base_url token key t t' e =
      let req = sync_request base_url token in
      let (resp, u, e1, f1) = next-eq-ok (send services.net http req t) _ e in
      let (k, e2, f2) = lift-ok (checked services.profile_key_from_json resp) _ key u t' f1 in
      let read : next (send services.net http req t)
            (λ r. lift (checked services.profile_key_from_json r))
          ≡ (ok k, u) =
        ap (λ r. next r (λ x. lift (checked services.profile_key_from_json x))) e1
        ∙ ap (λ r. asked_for r u) e2 in
      let (answer, sent_it) = asked services.profile_key_from_json req k t u read in
      go k f2 answer sent_it
    where
      asked_for : Result AuthError Str → Trace → Result AuthError Str × Trace
      asked_for r u = (r, u)

      go :
          (k : Str) {u : Trace}
          → (if is_empty k then fail empty_profile_key else pure k) u ≡ (ok key, t')
          → IsAnswer services.profile_key_from_json t (sync_request base_url token) k
          → u ≡ sent (sync_request base_url token) ∷ t
          → (key ≢ [])
            × IsAnswer services.profile_key_from_json t (sync_request base_url token) key
            × (t' ≡ sent (sync_request base_url token) ∷ t)
      go [] h answer i = cc
      go (c ∷ k) h answer i =
          let same : c ∷ k ≡ key = cc in
          (
            (λ n. cc),
            subst (IsAnswer services.profile_key_from_json t (sync_request base_url token)) same
                answer,
            ap (λ r. r.1) (sym h) ∙ i,
          )

  pub encrypted_key-IsKeySource :
      (base_url : Str) (tok : TokenResponse) (key : Str) (t t' : Trace)
      → encrypted_key services base_url tok t ≡ (ok key, t')
      → IsKeySource base_url tok key t t'
  unfolding encrypted_key
  encrypted_key-IsKeySource base_url tok key t t' e = go tok.key e refl
    where
      go :
          (k : Str)
          → (if is_empty k then fetch_profile_key services base_url tok.access_token else pure k) t
            ≡ (ok key, t')
          → tok.key ≡ k
          → IsKeySource base_url tok key t t'
      go [] h same =
          let (some_key, answer, sent_it) =
            fetch_profile_key-trace base_url tok.access_token key t t' h in
          (some_key, inr (same, answer, sent_it))
      go (c ∷ k) h same =
          let key_eq : c ∷ k ≡ key = cc in
          ((λ n. cc), inl (sym key_eq ∙ sym same, ap (λ r. r.1) (sym h)))
