-- ===== src/Auth/Spans.antt =====
-- What the requests of src/vault/auth.rs, and that of a sync, have in common.
use vaultwarden_operator.Prelude.{
  ℕ, ◌+◌, ◌⊎◌, Bool, true, false, Option, none, some, [], ◌∷◌, if◌then◌else◌, is_empty, Result, ok,
  err, panic, map_err, Str, Bytes,
}
use vaultwarden_operator.Prelude.Actions.{Action, next, pure, fail}
use vaultwarden_operator.Http.{Request, sent, Trace, send}
use vaultwarden_operator.Auth.{
  PreloginResponse, TokenResponse, Services, crypto, checked, empty_profile_key, prelogin,
  do_token_request, login_with_password, login_with_api_key, fetch_profile_key, login,
  encrypted_key, authenticate, refresh_token,
}
use vaultwarden_operator.Crypto.Keys.{make_master_key, decrypt_symmetric_key}
use vaultwarden_operator.Sync.Fetch.{fetch_sync}

-- What holds of two traces with at most `k` requests between them, and nothing else.
pub record IsSpan (R : ℕ → Trace → Trace → Type 0) : Type 0 where
  pub stay : (k : ℕ) (t : Trace) → R k t t
  pub trans : (j k : ℕ) (t t1 t2 : Trace) → R j t t1 → R k t1 t2 → R (j + k) t t2
  pub one : (t : Trace) (req : Request) → R 1 t (sent req ∷ t)

module _ (R : ℕ → Trace → Trace → Type 0) (span : IsSpan R) where
  module _ {E : Type 0} {A B : Type 0} where
    pub next-R :
        (j k : ℕ) (t : Trace) (r : Result E A × Trace) (f : A → Action Trace E B)
        → R j t r.1
        → ((a : A) (t' : Trace) → R k t' (f a t').1)
        → R (j + k) t (next r f).1
    next-R j k t (ok a, t') f h g = span.trans j k t t' (f a t').1 h (g a t')
    next-R j k t (err e, t') f h g = span.trans j k t t' t' h (span.stay k t')
    next-R j k t (panic, t') f h g = span.trans j k t t' t' h (span.stay k t')

    pub lift-R :
        (k : ℕ) (t : Trace) (r : Result E A) (f : A → Action Trace E B)
        → ((a : A) → R k t (f a t).1)
        → R k t (next (r, t) f).1
    lift-R k t (ok a) f h = h a
    lift-R k t (err e) f h = span.stay k t
    lift-R k t panic f h = span.stay k t

  module _ {E : Type 0} {A : Type 0} where
    if-R :
        (k : ℕ) (w : Trace) (b : Bool) (m n : Action Trace E A)
        → R k w (m w).1
        → R k w (n w).1
        → R k w ((if b then m else n) w).1
    if-R k w true m n h g = h
    if-R k w false m n h g = g

  module _ {RsaPrivateKey : Type 0} (services : Services RsaPrivateKey) where
    pub send-R :
        {E : Type 0} {B : Type 0} (k : ℕ) (t : Trace) (http : Str → E) (req : Request)
        (f : ℕ × (Str ⊎ Str) → Action Trace E B)
        → ((a : ℕ × (Str ⊎ Str)) (t' : Trace) → R k t' (f a t').1)
        → R (1 + k) t (next (send services.net http req t) f).1
    send-R k t http req f h = next-R 1 k t (send services.net http req t) f (span.one t req) h

    prelogin-R : (base_url email : Str) (t : Trace) → R 1 t (prelogin services base_url email t).1
    unfolding prelogin
    prelogin-R base_url email t = send-R 0 t _ _ _ (λ a t'. span.stay 0 t')

    login-R :
        (base_url email password : Str) (id secret : Option Str) (device_id : Str)
        (master_key : Bytes) (t : Trace)
        → R 1 t (login services base_url email password id secret device_id master_key t).1
    unfolding login login_with_password login_with_api_key do_token_request
    login-R base_url email password none secret device_id master_key t =
        send-R 0 t _ _ _ (λ a t'. span.stay 0 t')
    login-R base_url email password (some id) none device_id master_key t =
        send-R 0 t _ _ _ (λ a t'. span.stay 0 t')
    login-R base_url email password (some id) (some secret) device_id master_key t =
        send-R 0 t _ _ _ (λ a t'. span.stay 0 t')

    encrypted_key-R :
        (base_url access_token key refresh : Str) (n : ℕ) (t : Trace)
        → R 1 t
            (encrypted_key services base_url
              (record {
                access_token = access_token;
                expires_in = n;
                refresh_token = refresh;
                key = key;
              })
              t).1
    unfolding encrypted_key fetch_profile_key
    encrypted_key-R base_url access_token [] refresh n t = send-R 0 t _ _ _ (λ a t'.
        lift-R 0 t' (checked services.profile_key_from_json a) _ (λ k.
          if-R 0 t' (is_empty k) (fail empty_profile_key) (pure k) (span.stay 0 t')
            (span.stay 0 t')))
    encrypted_key-R base_url access_token (c ∷ key) refresh n t = span.stay 1 t

    pub authenticate-R :
        (base_url email password : Str) (id secret : Option Str) (device_id : Str) (t : Trace)
        → R 3 t (authenticate services base_url email password id secret device_id t).1
    unfolding authenticate
    authenticate-R base_url email password id secret device_id t =
        next-R 1 2 t (prelogin services base_url email t) _ (prelogin-R base_url email t)
          (λ (pre : PreloginResponse) t1.
            lift-R 2 t1
              (map_err crypto (
                make_master_key services.unicode services.crates password email pre.kdf
                  pre.kdf_iterations pre.kdf_memory pre.kdf_parallelism))
              _
              (λ mk.
                next-R 1 1 t1 (login services base_url email password id secret device_id mk t1) _
                  (login-R base_url email password id secret device_id mk t1)
                  (λ (tok : TokenResponse) t2.
                    next-R 1 0 t2 (encrypted_key services base_url tok t2) _
                      (encrypted_key-R base_url tok.access_token tok.key tok.refresh_token
                        tok.expires_in t2)
                      (λ key t3.
                        lift-R 0 t3 (map_err crypto (decrypt_symmetric_key services.crates key mk))
                          _ (λ k. span.stay 0 t3)))))

    pub refresh_token-R :
        (base_url refresh_tok : Str) (t : Trace)
        → R 1 t (refresh_token services base_url refresh_tok t).1
    unfolding refresh_token
    refresh_token-R base_url [] t = span.stay 1 t
    refresh_token-R base_url (c ∷ refresh_tok) t =
        send-R 0 t _ _ _
          (λ a t'. lift-R 0 t' (checked services.token_from_json a) _ (λ tok. span.stay 0 t'))

    pub fetch_sync-R :
        (base_url access_token : Str) (t : Trace)
        → R 1 t (fetch_sync services base_url access_token t).1
    unfolding fetch_sync
    fetch_sync-R base_url access_token t = send-R 0 t _ _ _ (λ a t'. span.stay 0 t')
