-- ===== src/Sync/Decrypt.antt =====
-- `decrypt_cipher`, `index_orgs` and `decrypt_vault` of src/vault/sync.rs.
pub mod Contents
pub mod Items
pub mod Owners
pub mod Accounts
pub mod Index
use vaultwarden_operator.Prelude.{
  ◌+◌, Bool, not, ◌&&◌, Option, none, some, List, [], ◌∷◌, ◌++◌, if◌then◌else◌, opt_filter,
  unwrap_or, is_empty, Result, ok, err, panic, ◌>>=◌, or_default, caught, Str, Unicode,
}
use vaultwarden_operator.Prelude.HashMap
use vaultwarden_operator.Prelude.HashMap.{HashMap}
use vaultwarden_operator.Sync.{
  SyncOrganization, SyncUri, SyncLogin, SyncField, SyncCipher, SyncResponse, DecryptedItem,
  VaultCache, DecryptSkips,
}
use vaultwarden_operator.Crypto.{CryptoError, SymmetricKey, Crates}
use vaultwarden_operator.Crypto.CipherString.{decrypt_str}
use vaultwarden_operator.Crypto.Keys.{decrypt_private_key, decrypt_org_key}

abbrev pub nonempty : Str → Bool
nonempty s = not (is_empty s)

module _ (unicode : Unicode) where
  -- `entry(..).or_default().push(id)`
  unfoldable pub push_at : Str → Str → HashMap (List Str) → HashMap (List Str)
  push_at key id by_name =
      HashMap.insert key (unwrap_or [] (HashMap.get key by_name) ++ id ∷ []) by_name

  unfoldable pub index_from : HashMap (List Str) → List SyncOrganization → HashMap (List Str)
  unfolding push_at
  index_from by_name [] = by_name
  index_from by_name (org ∷ orgs) =
      index_from (push_at (unicode.to_lowercase org.name) org.id by_name) orgs

  unfoldable pub index_orgs : List SyncOrganization → HashMap (List Str)
  unfolding index_from
  index_orgs = index_from []

-- the key for a cipher; `none` skips it
unfoldable pub key_for : HashMap SymmetricKey → SymmetricKey → Option Str → Option SymmetricKey
key_for org_keys sym_key none = some sym_key
key_for org_keys sym_key (some org_id) =
    if is_empty org_id then some sym_key else HashMap.get org_id org_keys

abbrev pub no_skips : DecryptSkips
no_skips = record { no_org_key = 0; decrypt_failed = 0 }

module _ {RsaPrivateKey : Type 0} (c : Crates RsaPrivateKey) where
  -- `decrypt_str(..).unwrap_or_default()` on a field that may be missing
  abbrev pub decrypt_or_default : Option Str → SymmetricKey → Result CryptoError Str
  decrypt_or_default none key = ok []
  decrypt_or_default (some s) key = or_default [] (decrypt_str c s key)

  abbrev pub first_uri : List SyncUri → Option Str
  first_uri [] = none
  first_uri (u ∷ us) = u.uri

  -- `login.uri`, or the first of `login.uris` where that decrypts to nothing
  abbrev pub decrypt_uri : SyncLogin → SymmetricKey → Result CryptoError Str
  decrypt_uri login key = do
    uri ← decrypt_or_default login.uri key
    if is_empty uri then decrypt_or_default (first_uri login.uris) key else ok uri

  -- the user name, the password and the URI of a login
  abbrev pub decrypt_login : Option SyncLogin → SymmetricKey → Result CryptoError (Str × Str × Str)
  decrypt_login none key = ok ([], [], [])
  decrypt_login (some login) key = do
    username ← decrypt_or_default login.username key
    password ← decrypt_or_default login.password key
    uri ← decrypt_uri login key
    ok (username, password, uri)

  unfoldable pub decrypt_fields :
      List SyncField → SymmetricKey → HashMap Str → Result CryptoError (HashMap Str)
  decrypt_fields [] key fields = ok fields
  decrypt_fields (field ∷ rest) key fields = do
    fname ← decrypt_or_default field.name key
    fvalue ← decrypt_or_default field.value key
    decrypt_fields rest key (if nonempty fname then HashMap.insert fname fvalue fields else fields)

  unfoldable pub decrypt_cipher : SyncCipher → SymmetricKey → Result CryptoError DecryptedItem
  unfolding decrypt_fields
  decrypt_cipher cipher key = do
    name ← decrypt_str c cipher.name key
    notes ← decrypt_or_default cipher.notes key
    (username, password, uri) ← decrypt_login cipher.login key
    fields ← decrypt_fields cipher.fields key []
    ok (record {
      id = cipher.id;
      cipher_type = cipher.cipher_type;
      organization_id = opt_filter nonempty cipher.organization_id;
      name = name;
      username = username;
      password = password;
      notes = notes;
      uri = uri;
      fields = fields;
    })

  -- the loop over the organizations; a key that fails to decrypt is left out
  unfoldable pub decrypt_org_keys :
      List SyncOrganization → RsaPrivateKey → HashMap SymmetricKey → Result ⊥ (HashMap SymmetricKey)
  decrypt_org_keys [] private_key org_keys = ok org_keys
  decrypt_org_keys (org ∷ orgs) private_key org_keys = do
    found ← caught (decrypt_org_key c org.key private_key)
    decrypt_org_keys orgs private_key
        (elim found [ none ↦ org_keys | some k ↦ HashMap.insert org.id k org_keys ])

  abbrev pub match_private_key :
      List SyncOrganization → Option RsaPrivateKey → Result ⊥ (HashMap SymmetricKey)
  match_private_key orgs none = ok []
  match_private_key orgs (some private_key) = decrypt_org_keys orgs private_key []

  unfoldable pub org_keys_of : SyncResponse → SymmetricKey → Result ⊥ (HashMap SymmetricKey)
  org_keys_of sync sym_key =
      if not (is_empty sync.profile.organizations) && nonempty sync.profile.private_key
      then caught (decrypt_private_key c sync.profile.private_key sym_key)
        >>= match_private_key sync.profile.organizations
      else ok []

  -- one round of the loop over the ciphers
  unfoldable pub decrypt_one :
      HashMap SymmetricKey
      → SymmetricKey
      → SyncCipher
      → List DecryptedItem × DecryptSkips
      → Result ⊥ (List DecryptedItem × DecryptSkips)
  unfolding key_for
  decrypt_one org_keys sym_key cipher (items, skips) =
      elim (key_for org_keys sym_key cipher.organization_id) [
        | none ↦ ok (items, record skips { no_org_key = skips.no_org_key + 1 })
        | some key ↦ elim (decrypt_cipher cipher key) [
          | ok item ↦ ok (items ++ item ∷ [], skips)
          | err e ↦ ok (items, record skips { decrypt_failed = skips.decrypt_failed + 1 })
          | panic ↦ panic
        ]
      ]

  unfoldable pub decrypt_ciphers :
      HashMap SymmetricKey
      → SymmetricKey
      → List SyncCipher
      → List DecryptedItem × DecryptSkips
      → Result ⊥ (List DecryptedItem × DecryptSkips)
  decrypt_ciphers org_keys sym_key [] acc = ok acc
  decrypt_ciphers org_keys sym_key (cipher ∷ rest) acc = do
    next ← decrypt_one org_keys sym_key cipher acc
    decrypt_ciphers org_keys sym_key rest next

  unfoldable pub decrypt_vault :
      Unicode → SyncResponse → SymmetricKey → Result ⊥ (VaultCache × DecryptSkips)
  decrypt_vault unicode sync sym_key = do
    org_keys ← org_keys_of sync sym_key
    (items, skips) ← decrypt_ciphers org_keys sym_key sync.ciphers ([], no_skips)
    ok (
      record { items = items; orgs_by_name = index_orgs unicode sync.profile.organizations },
      skips,
    )
