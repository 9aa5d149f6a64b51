-- ===== src/Sync/Lookup.antt =====
-- `find_item` and `lookup_item` of src/vault/sync.rs.
pub mod Find
pub mod Scope
use vaultwarden_operator.Prelude.{
  Bool, true, false, ◌&&◌, Option, none, some, List, [], ◌∷◌, length, find, Result, err, panic,
  ◌>>=◌, ok_or, Str, str_eq, contains, Unicode,
}
use vaultwarden_operator.Prelude.HashMap
use vaultwarden_operator.Prelude.HashMap.{HashMap}
use vaultwarden_operator.Sync.{
  DecryptedItem, VaultCache, LookupError, vault_not_found, vault_ambiguous, not_found_in_vault,
  not_found,
}

-- `org_id.is_none_or(|id| item.organization_id.as_deref() == Some(id))`
unfoldable pub in_scope : Option Str → DecryptedItem → Bool
in_scope none item = true
in_scope (some id) item = elim item.organization_id [ none ↦ false | some owner ↦ str_eq owner id ]

module _ (unicode : Unicode) where
  abbrev pub is_exact : Option Str → Str → DecryptedItem → Bool
  is_exact org_id key item = in_scope org_id item && str_eq (unicode.to_lowercase item.name) key

  abbrev pub is_partial : Option Str → Str → DecryptedItem → Bool
  is_partial org_id key item = in_scope org_id item && contains (unicode.to_lowercase item.name) key

  -- the loop over exact matches, then the loop over partial ones
  unfoldable pub find_item : List DecryptedItem → Str → Option Str → Option DecryptedItem
  find_item items name org_id =
      let key = unicode.to_lowercase name in
      elim (find (is_exact org_id key) items) [
        | some item ↦ some item
        | none ↦ find (is_partial org_id key) items
      ]

  -- the match on the ids that a vault name has; `org_ids[0]` would panic on an empty list
  unfoldable pub lookup_scoped :
      VaultCache → Str → Str → Option (List Str) → Result LookupError DecryptedItem
  lookup_scoped cache name v none = err (vault_not_found v)
  lookup_scoped cache name v (some []) = panic
  lookup_scoped cache name v (some (id ∷ [])) =
      ok_or (not_found_in_vault name v (length cache.items)) (find_item cache.items name (some id))
  lookup_scoped cache name v (some (id ∷ id' ∷ ids)) = err (vault_ambiguous v)

  unfoldable pub lookup_item : VaultCache → Str → Option Str → Result LookupError DecryptedItem
  unfolding lookup_scoped
  lookup_item cache name (some v) =
      lookup_scoped cache name v (HashMap.get (unicode.to_lowercase v) cache.orgs_by_name)
  lookup_item cache name none =
      ok_or (not_found name (length cache.items)) (find_item cache.items name none)
