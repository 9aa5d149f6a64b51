-- ===== src/Sync/Decrypt/Accounts.antt =====
-- Whose key opened the items of a vault that `decrypt_vault` of src/vault/sync.rs has decrypted, and
-- what they hold.
use vaultwarden_operator.Prelude.{
  ℕ, ◌+◌, ◌≡◌, refl, sym, ap, ◌∙◌, subst, ◌⊎◌, inl, inr, if◌then◌else◌, Option, none, some, List,
  [], ◌∷◌, arith, Bool-cases, opt_filter, or_else, length, All, In, Result, ok, err, panic,
  >>=-eq-ok, Str, str_eq, eq_of_str_eq, Unicode,
}
use vaultwarden_operator.Prelude.HashMap
use vaultwarden_operator.Sync.{
  SyncOrganization, SyncCipher, SyncResponse, DecryptedItem, VaultCache, DecryptSkips, total,
}
use vaultwarden_operator.Crypto.{CryptoError, SymmetricKey, Crates}
use vaultwarden_operator.Crypto.Keys.{decrypt_private_key, decrypt_org_key}
use vaultwarden_operator.Sync.Decrypt.{
  nonempty, index_orgs, org_keys_of, key_for, decrypt_ciphers, no_skips, decrypt_vault,
}
use vaultwarden_operator.Sync.Decrypt.Contents.{IsClear, decrypt_cipher-IsClear}
use vaultwarden_operator.Sync.Decrypt.Index.{ids_of, entry, get-index_orgs}
use vaultwarden_operator.Sync.Decrypt.Items.{
  Decrypts, end, opened, no_key, failed, decrypt_ciphers-IsRun, length-Decrypts, map-Decrypts,
}
use vaultwarden_operator.Sync.Decrypt.Owners.{
  ok_of, key_in, key_with, unlocked, owner_key, key_for-owner_key,
}

module _ {K : Type 0} (c : Crates K) (unicode : Unicode) (sync : SyncResponse)
    (sym_key : SymmetricKey) where
  -- what a decrypted vault is made of
  pub record IsDecrypted (cache : VaultCache) (skips : DecryptSkips) : Type 0 where
    pub ciphers :
        Decrypts c
          (owner_key c sync sym_key)
          sync.ciphers
          cache.items
          skips.no_org_key
          skips.decrypt_failed
    pub index :
        (key : Str)
        → HashMap.get key cache.orgs_by_name
          ≡ entry unicode (ids_of unicode key sync.profile.organizations)

  -- The items are those of the ciphers that decrypt, in order, and the skips count the others by
  -- cause. A cipher of no organization has the user's key, any other the key of the last
  -- organization of the profile with its id whose key decrypts, by a private key that decrypts. The
  -- index has under each key the ids of the organizations whose lowercased name it is, in order, and
  -- no entry if there are none.
  pub decrypt_vault_sound :
      (cache : VaultCache) (skips : DecryptSkips)
      → decrypt_vault c unicode sync sym_key ≡ ok (cache, skips)
      → IsDecrypted cache skips
  unfolding decrypt_vault
  decrypt_vault_sound cache skips e =
      let (org_keys, keys, e1) = >>=-eq-ok (org_keys_of c sync sym_key) _ e in
      let ((items, skips'), run, e2) =
        >>=-eq-ok (decrypt_ciphers c org_keys sym_key sync.ciphers ([], no_skips)) _ e1 in
      let r = decrypt_ciphers-IsRun c org_keys sym_key sync.ciphers [] items no_skips skips' run in
      let owner = owner_key c sync sym_key in
      let same_items : r.fresh ≡ cache.items = ground (arith, e2, r.items_eq) in
      let same_n : r.missing ≡ skips.no_org_key = ground (arith, e2, r.missing_eq) in
      let same_f : r.broken ≡ skips.decrypt_failed = ground (arith, e2, r.broken_eq) in
      let same_index : index_orgs unicode sync.profile.organizations ≡ cache.orgs_by_name =
        ground (arith, e2) in
      record {
        ciphers =
            subst (λ n. Decrypts c owner sync.ciphers cache.items n skips.decrypt_failed) same_n
              (subst (λ f. Decrypts c owner sync.ciphers cache.items r.missing f) same_f
                (subst (λ is. Decrypts c owner sync.ciphers is r.missing r.broken) same_items
                  (map-Decrypts c (key_for org_keys sym_key) owner
                    (key_for-owner_key c sync sym_key org_keys keys) r.run)));
        index = λ key.
            ap (HashMap.get key) (sym same_index)
            ∙ get-index_orgs unicode key sync.profile.organizations;
      }

  -- Every cipher of the response is an item of the cache or is counted as skipped.
  pub decrypt_vault_conserves :
      (cache : VaultCache) (skips : DecryptSkips)
      → decrypt_vault c unicode sync sym_key ≡ ok (cache, skips)
      → length cache.items + total skips ≡ length sync.ciphers
  decrypt_vault_conserves cache skips e =
      let d = decrypt_vault_sound cache skips e in
      omega (arith, length-Decrypts c (owner_key c sync sym_key) d.ciphers)

  -- The key of an organization is decrypted from that organization's entry.
  pub record IsKeyOf (id : Str) (key : SymmetricKey) : Type 0 where
    pub private_key : K
    pub unlocked : decrypt_private_key c sync.profile.private_key sym_key ≡ ok private_key
    pub org : SyncOrganization
    pub listed : In org sync.profile.organizations
    pub same_id : org.id ≡ id
    pub decrypted : decrypt_org_key c org.key private_key ≡ ok key

  ok_of-some : {A : Type 0} (r : Result CryptoError A) (a : A) → ok_of r ≡ some a → r ≡ ok a
  ok_of-some (ok b) a e = ground (arith, e)
  ok_of-some (err why) a e = absurd (ground (arith, e))
  ok_of-some panic a e = absurd (ground (arith, e))

  key_in-IsKeyOf :
      (pk : K) (id : Str) (orgs : List SyncOrganization) (key : SymmetricKey)
      → decrypt_private_key c sync.profile.private_key sym_key ≡ ok pk
      → ((o : SyncOrganization) → In o orgs → In o sync.profile.organizations)
      → key_in c pk id orgs ≡ some key
      → IsKeyOf id key
  key_in-IsKeyOf pk id [] key open_pk sub e = absurd (ground (arith, e))
  key_in-IsKeyOf pk id (org ∷ orgs) key open_pk sub e =
      go (key_in-IsKeyOf pk id orgs key open_pk (λ o i. sub o (inr i))) (key_in c pk id orgs) refl e
    where
      go :
          (key_in c pk id orgs ≡ some key → IsKeyOf id key)
          → (rest : Option SymmetricKey) → key_in c pk id orgs ≡ rest
          → or_else rest (if str_eq org.id id then ok_of (decrypt_org_key c org.key pk) else none)
            ≡ some key
          → IsKeyOf id key
      go in_rest (some k) got e = in_rest (got ∙ e)
      go in_rest none got e = elim (Bool-cases (str_eq org.id id)) [
        | inl same ↦ record {
          private_key = pk;
          unlocked = open_pk;
          org = org;
          listed = sub org (inl refl);
          same_id = eq_of_str_eq org.id id same;
          decrypted = ok_of-some (decrypt_org_key c org.key pk) key (rw same at e);
        }
        | inr other ↦ absurd (ground (arith, e, other))
      ]

  key_with-IsKeyOf :
      (text : Str) (id : Str) (key : SymmetricKey)
      → sync.profile.private_key ≡ text
      → key_with c (unlocked c text sym_key) id sync.profile.organizations ≡ some key
      → IsKeyOf id key
  key_with-IsKeyOf [] id key same e = absurd (ground (arith, e))
  key_with-IsKeyOf (x ∷ xs) id key same e = go (decrypt_private_key c (x ∷ xs) sym_key) refl e
    where
      go :
          (r : Result CryptoError K)
          → decrypt_private_key c (x ∷ xs) sym_key ≡ r
          → key_with c (ok_of r) id sync.profile.organizations ≡ some key
          → IsKeyOf id key
      go (ok pk) opens e =
          key_in-IsKeyOf pk id sync.profile.organizations key
            (ap (λ t. decrypt_private_key c t sym_key) same ∙ opens) (λ o i. i) e
      go (err why) opens e = absurd (ground (arith, e))
      go panic opens e = absurd (ground (arith, e))

  -- no organization and the user's key, or an organization and its key
  abbrev pub OwnsKey : Option Str → SymmetricKey → Type 0
  OwnsKey owner key =
      ((owner ≡ none) × (key ≡ sym_key)) ⊎ ((id : Str) × (owner ≡ some id) × IsKeyOf id key)

  owner_key-OwnsKey :
      (owner : Option Str) (key : SymmetricKey)
      → owner_key c sync sym_key owner ≡ some key
      → OwnsKey (opt_filter nonempty owner) key
  owner_key-OwnsKey none key e = inl (refl, ground (arith, e))
  owner_key-OwnsKey (some []) key e = inl (refl, ground (arith, e))
  owner_key-OwnsKey (some (x ∷ xs)) key e =
      inr (x ∷ xs, refl, key_with-IsKeyOf sync.profile.private_key (x ∷ xs) key refl e)

  -- the cipher and the key that an item comes from
  pub record IsOpened (item : DecryptedItem) : Type 0 where
    pub cipher : SyncCipher
    pub listed : In cipher sync.ciphers
    pub key : SymmetricKey
    pub contents : IsClear c key cipher item
    pub owner : OwnsKey item.organization_id key

  Decrypts-IsOpened :
      {cs : List SyncCipher} {items : List DecryptedItem} {n f : ℕ}
      → ((x : SyncCipher) → In x cs → In x sync.ciphers)
      → Decrypts c (owner_key c sync sym_key) cs items n f
      → All IsOpened items
  Decrypts-IsOpened sub end = tt
  Decrypts-IsOpened sub (opened {cipher} key item found opens r) =
      let contents = decrypt_cipher-IsClear c key cipher item opens in
      (
        record {
          cipher = cipher;
          listed = sub cipher (inl refl);
          key = key;
          contents = contents;
          owner =
              subst (λ o. OwnsKey o key) (sym contents.organization_id)
                (owner_key-OwnsKey cipher.organization_id key found);
        },
        Decrypts-IsOpened (λ x i. sub x (inr i)) r,
      )
  Decrypts-IsOpened sub (no_key missed r) = Decrypts-IsOpened (λ x i. sub x (inr i)) r
  Decrypts-IsOpened sub (failed key why found fails r) = Decrypts-IsOpened (λ x i. sub x (inr i)) r

  -- Every item of the cache has the contents of a cipher of the response, decrypted with one key:
  -- its name, and its notes, user name, password, URI and fields, where a text that is missing or
  -- does not decrypt is empty, the URI is else the first of the cipher's URIs, and a field has the
  -- value of the last with its name. The key is the user's if the item belongs to no organization,
  -- else the one of the organization that it is filed under.
  pub decrypt_vault-IsOpened :
      (cache : VaultCache) (skips : DecryptSkips)
      → decrypt_vault c unicode sync sym_key ≡ ok (cache, skips)
      → All IsOpened cache.items
  decrypt_vault-IsOpened cache skips e =
      let d = decrypt_vault_sound cache skips e in Decrypts-IsOpened (λ x i. i) d.ciphers
