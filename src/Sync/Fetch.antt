-- ===== src/Sync/Fetch.antt =====
-- `fetch_sync` of src/vault/sync.rs, and its errors.
use vaultwarden_operator.Prelude.{ℕ, ◌⊎◌, not, ◌==◌, if◌then◌else◌, Result, err, Str}
use vaultwarden_operator.Prelude.Actions.{Action, ◌>>=◌, lift}
use vaultwarden_operator.Http.{Trace, is_success, send, json, text_or_default}
use vaultwarden_operator.Auth.{Services, sync_request}
use vaultwarden_operator.Crypto.{CryptoError}
use vaultwarden_operator.Sync.{SyncResponse}

pub data SyncError : Type 0 where
  http : Str → SyncError
  server : (status : ℕ) (body : Str) → SyncError
  crypto : CryptoError → SyncError
  not_found : Str → SyncError
  unauthorized : SyncError

-- the status check of `fetch_sync`, where 401 stands apart
abbrev pub sync_checked :
    (Str → Result Str SyncResponse) → ℕ × (Str ⊎ Str) → Result SyncError SyncResponse
sync_checked parse (status, body) =
    if status == 401
    then err unauthorized
    else if not (is_success status)
    then err (server status (text_or_default body))
    else json http parse body

module _ {RsaPrivateKey : Type 0} (services : Services RsaPrivateKey) where
  unfoldable pub fetch_sync : (base_url access_token : Str) → Action Trace SyncError SyncResponse
  fetch_sync base_url access_token = do
    resp ← send services.net http (sync_request base_url access_token)
    lift (sync_checked services.sync_from_json resp)
