-- ===== src/Sync/Lookup/Scope.antt =====
-- How a vault name scopes `lookup_item` of src/vault/sync.rs.
use vaultwarden_operator.Prelude.{
  ◌≡◌, refl, sym, ap, ◌∙◌, inl, inr, some, List, [], ◌∷◌, arith, Option-cases, length, In, Result,
  ok, err, ok_or, Str, Unicode,
}
use vaultwarden_operator.Prelude.HashMap
use vaultwarden_operator.Prelude.HashMap.{HashMap}
use vaultwarden_operator.Sync.{
  SyncOrganization, SyncResponse, DecryptedItem, VaultCache, DecryptSkips, LookupError,
  vault_not_found, vault_ambiguous, not_found_in_vault,
}
use vaultwarden_operator.Sync.Lookup.{find_item, lookup_scoped, lookup_item}
use vaultwarden_operator.Crypto.{SymmetricKey, Crates}
use vaultwarden_operator.Sync.Decrypt.{index_orgs, decrypt_vault}
use vaultwarden_operator.Sync.Decrypt.Index.{ids_of, entry, get-index_orgs}
use vaultwarden_operator.Sync.Decrypt.Accounts.{decrypt_vault_sound}
use vaultwarden_operator.Sync.Lookup.Find.{Holds, find_item-InScope}

module _ (unicode : Unicode) where
  -- What a lookup in the organizations `ids` of a vault name answers.
  abbrev pub answer : VaultCache → Str → Str → List Str → Result LookupError DecryptedItem
  answer cache name v [] = err (vault_not_found v)
  answer cache name v (id ∷ []) =
      ok_or (not_found_in_vault name v (length cache.items))
        (find_item unicode cache.items name (some id))
  answer cache name v (id ∷ id' ∷ ids) = err (vault_ambiguous v)

  lookup_scoped-entry :
      (cache : VaultCache) (name v : Str) (ids : List Str)
      → lookup_scoped unicode cache name v (entry unicode ids) ≡ answer cache name v ids
  unfolding lookup_scoped
  lookup_scoped-entry cache name v [] = refl
  lookup_scoped-entry cache name v (id ∷ []) = refl
  lookup_scoped-entry cache name v (id ∷ id' ∷ ids) = refl

  lookup_item-entry :
      (cache : VaultCache) (orgs : List SyncOrganization) (name v : Str)
      → HashMap.get (unicode.to_lowercase v) cache.orgs_by_name
        ≡ entry unicode (ids_of unicode (unicode.to_lowercase v) orgs)
      → lookup_item unicode cache name (some v)
        ≡ answer cache name v (ids_of unicode (unicode.to_lowercase v) orgs)
  unfolding lookup_item
  lookup_item-entry cache orgs name v index =
      ap (lookup_scoped unicode cache name v) index
      ∙ lookup_scoped-entry cache name v (ids_of unicode (unicode.to_lowercase v) orgs)

  -- A scoped lookup on an index that `index_orgs` built does not panic: with no organization of that
  -- name it reports the vault missing, with one it searches the items of that organization alone,
  -- and with several it reports the name ambiguous.
  pub lookup_item_scoped :
      (cache : VaultCache) (orgs : List SyncOrganization) (name v : Str)
      → cache.orgs_by_name ≡ index_orgs unicode orgs
      → lookup_item unicode cache name (some v)
        ≡ answer cache name v (ids_of unicode (unicode.to_lowercase v) orgs)
  lookup_item_scoped cache orgs name v index =
      let k = unicode.to_lowercase v in
      lookup_item-entry cache orgs name v (ap (HashMap.get k) index ∙ get-index_orgs unicode k orgs)

  answer_sound :
      (cache : VaultCache) (name v : Str) (ids : List Str) (item : DecryptedItem)
      → answer cache name v ids ≡ ok item
      → (id : Str) × (ids ≡ id ∷ []) × (find_item unicode cache.items name (some id) ≡ some item)
  answer_sound cache name v [] item e = absurd (ground arith)
  answer_sound cache name v (id ∷ []) item e =
      elim (Option-cases (find_item unicode cache.items name (some id))) [
        | inl missed ↦ absurd (ground arith)
        | inr (found, got) ↦ (id, refl, ground arith)
      ]
  answer_sound cache name v (id ∷ id' ∷ ids) item e = absurd (ground arith)

  -- In a decrypted vault, an item that a scoped lookup returns is owned by the only organization
  -- of that name, is an item of the cache, and its name holds the name that was looked up.
  pub lookup_item_no_fallback :
      {K : Type 0} (c : Crates K) (sync : SyncResponse) (sym_key : SymmetricKey)
      (cache : VaultCache) (skips : DecryptSkips) (name v : Str) (item : DecryptedItem)
      → decrypt_vault c unicode sync sym_key ≡ ok (cache, skips)
      → lookup_item unicode cache name (some v) ≡ ok item
      → (id : Str) × (ids_of unicode (unicode.to_lowercase v) sync.profile.organizations ≡ id ∷ [])
        × (item.organization_id ≡ some id)
        × In item cache.items
        × Holds unicode name item
  lookup_item_no_fallback c sync sym_key cache skips name v item made found =
      let d = decrypt_vault_sound c unicode sync sym_key cache skips made in
      let answered =
        sym (
          lookup_item-entry cache sync.profile.organizations name v
            (d.index (unicode.to_lowercase v)))
        ∙ found in
      let (id, only, got) = answer_sound cache name v _ item answered in
      let (listed, owner, holds) = find_item-InScope unicode name (some id) cache.items item got in
      (id, only, owner, listed, holds)
