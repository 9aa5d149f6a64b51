-- ===== src/Auth/Requests.antt =====
-- The requests that a login of src/vault/auth.rs makes, and the key that it ends with.
use vaultwarden_operator.Prelude.{
  ◌≡◌, refl, ap, ◌∙◌, subst, Option, ◌∷◌, Result, ok, err, panic, map_err, Str, Bytes,
}
use vaultwarden_operator.Prelude.Actions.{next-eq-ok}
use vaultwarden_operator.Http.{sent, Trace}
use vaultwarden_operator.Auth.{
  AuthError, crypto, PreloginResponse, TokenResponse, Services, Login, prelogin_request,
  token_request, prelogin, login, encrypted_key, authenticate,
}
use vaultwarden_operator.Crypto.{SymmetricKey}
use vaultwarden_operator.Crypto.Keys.{make_master_key, hash_password, decrypt_symmetric_key}
use vaultwarden_operator.Auth.Answers.{
  lift-ok, map_err-ok, grant, IsAnswer, prelogin-trace, login-IsToken, IsKeySource,
  encrypted_key-IsKeySource,
}

module _ {RsaPrivateKey : Type 0} (services : Services RsaPrivateKey) where
  -- How a login got its values and its trace.
  abbrev pub IsLogin :
      (base_url email password : Str) (id secret : Option Str) (device_id : Str)
      → Login
      → (t t' : Trace) → Type 0
  IsLogin base_url email password id secret device_id (access, refresh, expires_in, sym_key) t t' =
      (pre : PreloginResponse) × (mk : Bytes) × (tok : TokenResponse) × (key : Str) × IsAnswer
        services services.prelogin_from_json t (prelogin_request base_url email) pre
      × (make_master_key services.unicode services.crates password email pre.kdf pre.kdf_iterations
            pre.kdf_memory pre.kdf_parallelism
          ≡ ok mk)
      × IsAnswer services services.token_from_json (sent (prelogin_request base_url email) ∷ t)
          (token_request base_url
            (grant email (hash_password services.crates password mk) id secret device_id))
          tok
      × IsKeySource services base_url tok key
          (sent (
              token_request base_url
                (grant email (hash_password services.crates password mk) id secret device_id))
            ∷ sent (prelogin_request base_url email)
            ∷ t)
          t'
      × (decrypt_symmetric_key services.crates key mk ≡ ok sym_key)
      × (access ≡ tok.access_token)
      × (refresh ≡ tok.refresh_token)
      × (expires_in ≡ tok.expires_in)

  -- the steps of a login, put together
  steps-IsLogin :
      (base_url email password : Str) (id secret : Option Str) (device_id : Str)
      (pre : PreloginResponse) (mk : Bytes) (tok : TokenResponse) (key : Str)
      (sym_key : SymmetricKey) (t t1 t2 t3 : Trace)
      → prelogin services base_url email t ≡ (ok pre, t1)
      → make_master_key services.unicode services.crates password email pre.kdf pre.kdf_iterations
          pre.kdf_memory pre.kdf_parallelism
        ≡ ok mk
      → login services base_url email password id secret device_id mk t1 ≡ (ok tok, t2)
      → encrypted_key services base_url tok t2 ≡ (ok key, t3)
      → decrypt_symmetric_key services.crates key mk ≡ ok sym_key
      → IsLogin base_url email password id secret device_id
          (tok.access_token, tok.refresh_token, tok.expires_in, sym_key)
          t
          t3
  steps-IsLogin base_url email password id secret device_id pre mk tok key sym_key t t1 t2 t3 e1 m
        e3 e4 k =
      let params = grant email (hash_password services.crates password mk) id secret device_id in
      let (preset, first) = prelogin-trace services base_url email pre t t1 e1 in
      let (token, second) =
        login-IsToken services base_url email password id secret device_id mk tok t1 t2 e3 in
      let source = encrypted_key-IsKeySource services base_url tok key t2 t3 e4 in
      (
        pre,
        mk,
        tok,
        key,
        preset,
        m,
        subst
            (λ u. IsAnswer services services.token_from_json u (token_request base_url params) tok)
            first token,
        subst (λ u. IsKeySource services base_url tok key u t3)
            (second ∙ ap (λ u. sent (token_request base_url params) ∷ u) first) source,
        k,
        refl,
        refl,
        refl,
      )

  -- the result and the trace of an action that has ended
  abbrev outcome : Login → Trace → Result AuthError Login × Trace
  outcome l u = (ok l, u)

  ended :
      (l l' : Login) (u u' : Trace) (P : Login → Trace → Type 0)
      → P l u
      → outcome l u ≡ outcome l' u'
      → P l' u'
  ended l l' u u' P p e = subst (λ r. P (login_of r.0) r.1) e p
    where
      login_of : Result AuthError Login → Login
      login_of (ok x) = x
      login_of (err why) = l
      login_of panic = l

  -- A login that succeeds has made the prelogin request, then one token request, with the API-key
  -- grant where both parts of the API key are set and else with the password grant, and then, only
  -- if the token response has no key, one sync request with the new token, and the server has
  -- answered each with success. Its tokens are those of the answer to the token request, and its
  -- symmetric key is the decryption of the key of that answer, or of the answer to the sync request,
  -- under the master key of the parameters that the answer to prelogin has.
  pub authenticate_sound :
      (base_url email password : Str) (id secret : Option Str) (device_id : Str) (l : Login)
      (t t' : Trace)
      → authenticate services base_url email password id secret device_id t ≡ (ok l, t')
      → IsLogin base_url email password id secret device_id l t t'
  unfolding authenticate
  authenticate_sound base_url email password id secret device_id l t t' e =
      let (pre, t1, e1, f1) = next-eq-ok (prelogin services base_url email t) _ e in
      let (mk, e2, f2) =
        lift-ok
          (map_err crypto (
            make_master_key services.unicode services.crates password email pre.kdf
              pre.kdf_iterations pre.kdf_memory pre.kdf_parallelism))
          _ _ t1 t' f1 in
      let (tok, t2, e3, f3) =
        next-eq-ok (login services base_url email password id secret device_id mk t1) _ f2 in
      let (key, t3, e4, f4) = next-eq-ok (encrypted_key services base_url tok t2) _ f3 in
      let (sk, e5, f5) =
        lift-ok (map_err crypto (decrypt_symmetric_key services.crates key mk)) _ _ t3 t' f4 in
      ended (tok.access_token, tok.refresh_token, tok.expires_in, sk) l t3 t'
        (λ x u. IsLogin base_url email password id secret device_id x t u)
        (steps-IsLogin base_url email password id secret device_id pre mk tok key sk t t1 t2 t3 e1
          (map_err-ok crypto _ mk e2) e3 e4 (map_err-ok crypto _ sk e5))
        f5
