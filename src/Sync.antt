-- ===== src/Sync.antt =====
-- src/vault/sync.rs: the data of a sync response, the decrypted cache, and the errors of a lookup.
pub mod Decrypt
pub mod Lookup
pub mod Extract
pub mod Fetch
mod Tests
mod Cases
use vaultwarden_operator.Prelude.{ℕ, ◌+◌, Bool, true, false, Option, List, [], ◌>>=◌, Str}
use vaultwarden_operator.Prelude.HashMap.{HashMap}

pub record SyncOrganization : Type 0 where
  pub id : Str
  pub name : Str
  pub key : Str

pub record SyncProfile : Type 0 where
  pub id : Str
  pub email : Str
  pub key : Str
  pub private_key : Str
  pub organizations : List SyncOrganization

pub record SyncUri : Type 0 where
  pub uri : Option Str

pub record SyncLogin : Type 0 where
  pub username : Option Str
  pub password : Option Str
  pub uri : Option Str
  pub uris : List SyncUri

pub record SyncCard : Type 0 where
  pub cardholder_name : Option Str
  pub number : Option Str
  pub code : Option Str

pub record SyncField : Type 0 where
  pub name : Option Str
  pub value : Option Str
  pub field_type : ℕ

pub record SyncCipher : Type 0 where
  pub id : Str
  pub cipher_type : ℕ
  pub organization_id : Option Str
  pub name : Str
  pub notes : Option Str
  pub login : Option SyncLogin
  pub card : Option SyncCard
  pub fields : List SyncField

pub record SyncResponse : Type 0 where
  pub profile : SyncProfile
  pub ciphers : List SyncCipher

pub record DecryptedItem : Type 0 where
  pub id : Str
  pub cipher_type : ℕ
  pub organization_id : Option Str
  pub name : Str
  pub username : Str
  pub password : Str
  pub notes : Str
  pub uri : Str
  pub fields : HashMap Str

pub record VaultCache : Type 0 where
  pub items : List DecryptedItem
  pub orgs_by_name : HashMap (List Str)

pub record DecryptSkips : Type 0 where
  pub no_org_key : ℕ
  pub decrypt_failed : ℕ

abbrev pub total : DecryptSkips → ℕ
total skips = skips.no_org_key + skips.decrypt_failed

pub data LookupError : Type 0 where
  vault_not_found vault_ambiguous : Str → LookupError
  not_found_in_vault : (name vault : Str) (searched : ℕ) → LookupError
  not_found : (name : Str) (searched : ℕ) → LookupError

unfoldable pub is_stale_miss : LookupError → Bool
is_stale_miss (vault_ambiguous v) = false
is_stale_miss _ = true
