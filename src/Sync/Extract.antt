-- ===== src/Sync/Extract.antt =====
-- `extract_secret` of src/vault/sync.rs. A `HashMap` iterates in an order of its own, so the order
-- is a parameter.
pub mod Value
use vaultwarden_operator.Prelude.{
  Option, none, some, List, [], ◌∷◌, if◌then◌else◌, opt_filter, ◌>>=◌, Str, codes,
}
use vaultwarden_operator.Prelude.HashMap
use vaultwarden_operator.Prelude.HashMap.{HashMap}
use vaultwarden_operator.Sync.{DecryptedItem}
use vaultwarden_operator.Sync.Decrypt.{nonempty}

abbrev pub secret_names : List Str
secret_names =
    codes "value" ∷ codes "secret" ∷ codes "api_key" ∷ codes "apikey" ∷ codes "token" ∷ []

-- the loop over the known names
unfoldable pub named_field : List Str → HashMap Str → Option Str
named_field [] fields = none
named_field (name ∷ names) fields = elim (opt_filter nonempty (HashMap.get name fields)) [
  | some v ↦ some v
  | none ↦ named_field names fields
]

-- the loop over `values()`
unfoldable pub first_value : List (Str × Str) → Str
first_value [] = []
first_value ((k, v) ∷ rest) = if nonempty v then v else first_value rest

module _ (order : HashMap Str → List (Str × Str)) where
  unfoldable pub extract_secret : DecryptedItem → Str
  unfolding named_field first_value
  extract_secret item =
      if nonempty item.password
      then item.password
      else elim (named_field secret_names item.fields) [
        | some v ↦ v
        | none ↦ if nonempty item.notes then item.notes else first_value (order item.fields)
      ]
