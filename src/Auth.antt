-- ===== src/Auth.antt =====
-- src/vault/auth.rs: prelogin, the grants, and the refresh of a token.
pub mod Answers
pub mod Requests
pub mod Spans
pub mod Sends
mod Tests
use vaultwarden_operator.Prelude.{
  ℕ, ◌⊎◌, not, Option, none, some, List, [], ◌∷◌, ◌++◌, if◌then◌else◌, is_empty, Result, err,
  map_err, Str, Bytes, codes, Unicode,
}
use vaultwarden_operator.Prelude.Actions.{Action, ◌>>=◌, lift, pure, fail}
use vaultwarden_operator.Http.{
  get, post, no_body, json_email, form, Request, Trace, Net, is_success, send, json,
  text_or_default,
}
use vaultwarden_operator.Crypto.{CryptoError, SymmetricKey, Crates}
use vaultwarden_operator.Crypto.Keys.{make_master_key, hash_password, decrypt_symmetric_key}
use vaultwarden_operator.Sync.{SyncResponse}
use vaultwarden_operator.Prelude.HashMap.{HashMap}

pub data AuthError : Type 0 where
  http : Str → AuthError
  server : (status : ℕ) (body : Str) → AuthError
  crypto : CryptoError → AuthError
  no_refresh_token empty_profile_key : AuthError

pub record PreloginResponse : Type 0 where
  pub kdf : ℕ
  pub kdf_iterations : ℕ
  pub kdf_memory : Option ℕ
  pub kdf_parallelism : Option ℕ

pub record TokenResponse : Type 0 where
  pub access_token : Str
  pub expires_in : ℕ
  pub refresh_token : Str
  pub key : Str

-- The code that the client calls and the repository does not hold: the crates, the network, and
-- what `serde` derives to read a response.
pub record Services (RsaPrivateKey : Type 0) : Type 0 where
  pub unicode : Unicode
  pub crates : Crates RsaPrivateKey
  pub net : Net
  pub prelogin_from_json : Str → Result Str PreloginResponse
  pub token_from_json : Str → Result Str TokenResponse
  -- `profile.key` of a `ProfileKeyResponse`
  pub profile_key_from_json : Str → Result Str Str
  pub sync_from_json : Str → Result Str SyncResponse
  -- the order in which `HashMap::values` goes through a map
  pub order : HashMap Str → List (Str × Str)
  -- `Uuid::new_v4`
  pub new_v4 : Trace → Str

-- The result of `authenticate`: the access token, the refresh token, the seconds to the expiry, and
-- the symmetric key.
abbrev pub Login : Type 0
Login = Str × Str × ℕ × SymmetricKey

module _ {A : Type 0} where
  -- the status check and the decoding that four requests share
  abbrev pub checked : (Str → Result Str A) → ℕ × (Str ⊎ Str) → Result AuthError A
  checked parse (status, body) =
      if not (is_success status)
      then err (server status (text_or_default body))
      else json http parse body

abbrev pub token_url : Str → Str
token_url base_url = base_url ++ codes "/identity/connect/token"

abbrev pub sync_request : Str → Str → Request
sync_request base_url access_token = record {
  method = get;
  url = base_url ++ codes "/api/sync";
  bearer = some access_token;
  body = no_body;
}

-- `(grant_type, refresh_token, client_id)`
abbrev pub refresh_request : Str → Str → Request
refresh_request base_url refresh_tok = record {
  method = post;
  url = token_url base_url;
  bearer = none;
  body = form (
      (codes "grant_type", codes "refresh_token")
      ∷ (codes "refresh_token", refresh_tok)
      ∷ (codes "client_id", codes "web")
      ∷ []);
}

-- `None` where the response has no new token
abbrev pub rotated : Str → Option Str
rotated t = if is_empty t then none else some t

abbrev pub prelogin_request : (base_url email : Str) → Request
prelogin_request base_url email = record {
  method = post;
  url = base_url ++ codes "/identity/accounts/prelogin";
  bearer = none;
  body = json_email email;
}

abbrev pub token_request : (base_url : Str) → List (Str × Str) → Request
token_request base_url params = record {
  method = post;
  url = token_url base_url;
  bearer = none;
  body = form params;
}

-- the parameters of the password grant
abbrev pub password_params : (email hashed_password device_id : Str) → List (Str × Str)
password_params email hashed_password device_id =
    (codes "grant_type", codes "password")
    ∷ (codes "username", email)
    ∷ (codes "password", hashed_password)
    ∷ (codes "scope", codes "api offline_access")
    ∷ (codes "client_id", codes "web")
    ∷ (codes "deviceType", codes "14")
    ∷ (codes "deviceIdentifier", device_id)
    ∷ (codes "deviceName", codes "vaultwarden-operator")
    ∷ []

-- the parameters of the API-key grant
abbrev pub api_key_params : (client_id client_secret device_id : Str) → List (Str × Str)
api_key_params client_id client_secret device_id =
    (codes "grant_type", codes "client_credentials")
    ∷ (codes "client_id", client_id)
    ∷ (codes "client_secret", client_secret)
    ∷ (codes "scope", codes "api")
    ∷ (codes "deviceType", codes "14")
    ∷ (codes "deviceIdentifier", device_id)
    ∷ (codes "deviceName", codes "vaultwarden-operator")
    ∷ []

module _ {RsaPrivateKey : Type 0} (services : Services RsaPrivateKey) where
  unfoldable pub prelogin : (base_url email : Str) → Action Trace AuthError PreloginResponse
  prelogin base_url email = do
    resp ← send services.net http (prelogin_request base_url email)
    lift (checked services.prelogin_from_json resp)

  unfoldable pub do_token_request :
      (base_url : Str) → List (Str × Str) → Action Trace AuthError TokenResponse
  do_token_request base_url params = do
    resp ← send services.net http (token_request base_url params)
    lift (checked services.token_from_json resp)

  unfoldable pub login_with_password :
      (base_url email hashed_password device_id : Str) → Action Trace AuthError TokenResponse
  login_with_password base_url email hashed_password device_id =
      do_token_request base_url (password_params email hashed_password device_id)

  unfoldable pub login_with_api_key :
      (base_url client_id client_secret device_id : Str) → Action Trace AuthError TokenResponse
  login_with_api_key base_url client_id client_secret device_id =
      do_token_request base_url (api_key_params client_id client_secret device_id)

  unfoldable pub fetch_profile_key : (base_url access_token : Str) → Action Trace AuthError Str
  fetch_profile_key base_url access_token = do
    resp ← send services.net http (sync_request base_url access_token)
    key ← lift (checked services.profile_key_from_json resp)
    if is_empty key then fail empty_profile_key else pure key

  -- Step 3: the API-key grant where both parts of the key are set, else the password grant.
  unfoldable pub login :
      (base_url email password : Str) (client_id client_secret : Option Str)
      → (device_id : Str) (master_key : Bytes) → Action Trace AuthError TokenResponse
  login base_url email password (some id) (some secret) device_id master_key =
      login_with_api_key base_url id secret device_id
  login base_url email password _ _ device_id master_key =
      login_with_password base_url email (hash_password services.crates password master_key)
        device_id

  -- Step 4.
  unfoldable pub encrypted_key : (base_url : Str) → TokenResponse → Action Trace AuthError Str
  encrypted_key base_url token_resp =
      if is_empty token_resp.key
      then fetch_profile_key base_url token_resp.access_token
      else pure token_resp.key

  unfoldable pub authenticate :
      (base_url email password : Str) (client_id client_secret : Option Str) (device_id : Str)
      → Action Trace AuthError Login
  authenticate base_url email password client_id client_secret device_id = do
    pre ← prelogin base_url email
    master_key ← lift (
        map_err crypto (
          make_master_key services.unicode services.crates password email pre.kdf pre.kdf_iterations
            pre.kdf_memory pre.kdf_parallelism))
    token_resp ← login base_url email password client_id client_secret device_id master_key
    enc_key ← encrypted_key base_url token_resp
    sym_key ← lift (map_err crypto (decrypt_symmetric_key services.crates enc_key master_key))
    pure (token_resp.access_token, token_resp.refresh_token, token_resp.expires_in, sym_key)

  unfoldable pub refresh_token :
      (base_url refresh_tok : Str) → Action Trace AuthError (Str × Option Str × ℕ)
  refresh_token base_url refresh_tok = if is_empty refresh_tok then fail no_refresh_token else do
    resp ← send services.net http (refresh_request base_url refresh_tok)
    tok ← lift (checked services.token_from_json resp)
    pure (tok.access_token, rotated tok.refresh_token, tok.expires_in)
