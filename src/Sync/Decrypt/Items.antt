-- ===== src/Sync/Decrypt/Items.antt =====
-- What `decrypt_vault` of src/vault/sync.rs makes of the ciphers of a response.
use vaultwarden_operator.Prelude.{
  ℕ, suc, ◌+◌, ◌≡◌, refl, sym, ◌∙◌, Str, Option, none, some, List, [], ◌∷◌, ◌++◌, append_assoc,
  append-nil, arith, length, Result, ok, err, panic, >>=-eq-ok,
}
use vaultwarden_operator.Prelude.HashMap.{HashMap}
use vaultwarden_operator.Sync.{SyncCipher, DecryptedItem, DecryptSkips}
use vaultwarden_operator.Crypto.{CryptoError, SymmetricKey, Crates}
use vaultwarden_operator.Sync.Decrypt.{decrypt_cipher, key_for, decrypt_one, decrypt_ciphers}

module _ {K : Type 0} (c : Crates K) where
  module _ (choose : Option Str → Option SymmetricKey) where
    -- The ciphers in order, the items that come of them, and how many were skipped for want of an
    -- organization's key or because they did not decrypt.
    pub data Decrypts : List SyncCipher → List DecryptedItem → ℕ → ℕ → Type 0 where
      end : Decrypts [] [] 0 0
      opened :
          {cipher : SyncCipher} {cs : List SyncCipher} {items : List DecryptedItem} {n f : ℕ}
          (key : SymmetricKey) (item : DecryptedItem)
          → choose cipher.organization_id ≡ some key
          → decrypt_cipher c cipher key ≡ ok item
          → Decrypts cs items n f
          → Decrypts (cipher ∷ cs) (item ∷ items) n f
      no_key :
          {cipher : SyncCipher} {cs : List SyncCipher} {items : List DecryptedItem} {n f : ℕ}
          → choose cipher.organization_id ≡ none
          → Decrypts cs items n f
          → Decrypts (cipher ∷ cs) items (suc n) f
      failed :
          {cipher : SyncCipher} {cs : List SyncCipher} {items : List DecryptedItem} {n f : ℕ}
          (key : SymmetricKey) (why : CryptoError)
          → choose cipher.organization_id ≡ some key
          → decrypt_cipher c cipher key ≡ err why
          → Decrypts cs items n f
          → Decrypts (cipher ∷ cs) items n (suc f)

    pub length-Decrypts :
        {cs : List SyncCipher} {items : List DecryptedItem} {n f : ℕ}
        → Decrypts cs items n f
        → length items + n + f ≡ length cs
    length-Decrypts end = refl
    length-Decrypts (opened key item found opens r) = omega (arith, length-Decrypts r)
    length-Decrypts (no_key missed r) = omega (arith, length-Decrypts r)
    length-Decrypts (failed key why found fails r) = omega (arith, length-Decrypts r)

  pub map-Decrypts :
      (choose choose' : Option Str → Option SymmetricKey) {cs : List SyncCipher}
      {items : List DecryptedItem} {n f : ℕ}
      → ((o : Option Str) → choose o ≡ choose' o)
      → Decrypts choose cs items n f
      → Decrypts choose' cs items n f
  map-Decrypts choose choose' same end = end
  map-Decrypts choose choose' same (opened {cipher} key item found opens r) =
      opened key item (sym (same cipher.organization_id) ∙ found) opens
        (map-Decrypts choose choose' same r)
  map-Decrypts choose choose' same (no_key {cipher} missed r) =
      no_key (sym (same cipher.organization_id) ∙ missed) (map-Decrypts choose choose' same r)
  map-Decrypts choose choose' same (failed {cipher} key why found fails r) =
      failed key why (sym (same cipher.organization_id) ∙ found) fails
        (map-Decrypts choose choose' same r)

  module _ (org_keys : HashMap SymmetricKey) (sym_key : SymmetricKey) where
    -- one round of the loop
    data Round (cipher : SyncCipher) (items items' : List DecryptedItem)
        (skips skips' : DecryptSkips) : Type 0 where
      keeps :
          (key : SymmetricKey) (item : DecryptedItem)
          → key_for org_keys sym_key cipher.organization_id ≡ some key
          → decrypt_cipher c cipher key ≡ ok item
          → items' ≡ items ++ item ∷ []
          → skips'.no_org_key ≡ skips.no_org_key
          → skips'.decrypt_failed ≡ skips.decrypt_failed
          → Round cipher items items' skips skips'
      lacks :
          key_for org_keys sym_key cipher.organization_id ≡ none
          → items' ≡ items
          → skips'.no_org_key ≡ skips.no_org_key + 1
          → skips'.decrypt_failed ≡ skips.decrypt_failed
          → Round cipher items items' skips skips'
      drops :
          (key : SymmetricKey) (why : CryptoError)
          → key_for org_keys sym_key cipher.organization_id ≡ some key
          → decrypt_cipher c cipher key ≡ err why
          → items' ≡ items
          → skips'.no_org_key ≡ skips.no_org_key
          → skips'.decrypt_failed ≡ skips.decrypt_failed + 1
          → Round cipher items items' skips skips'

    decrypt_one-Round :
        (cipher : SyncCipher) (items items' : List DecryptedItem) (skips skips' : DecryptSkips)
        → decrypt_one c org_keys sym_key cipher (items, skips) ≡ ok (items', skips')
        → Round cipher items items' skips skips'
    unfolding decrypt_one
    decrypt_one-Round cipher items items' skips skips' e =
        go (key_for org_keys sym_key cipher.organization_id) refl
      where
        with_key :
            (key : SymmetricKey) (r : Result CryptoError DecryptedItem)
            → key_for org_keys sym_key cipher.organization_id ≡ some key
            → decrypt_cipher c cipher key ≡ r
            → Round cipher items items' skips skips'
        with_key key (ok item) found opens =
            keeps key item found opens (ground arith) (ground arith) (ground arith)
        with_key key (err why) found opens =
            drops key why found opens (ground arith) (ground arith) (ground arith)
        with_key key panic found opens = absurd (ground arith)

        go :
            (k : Option SymmetricKey)
            → key_for org_keys sym_key cipher.organization_id ≡ k
            → Round cipher items items' skips skips'
        go none missed = lacks missed (ground arith) (ground arith) (ground arith)
        go (some key) found = with_key key (decrypt_cipher c cipher key) found refl

    -- the relation, behind what the loop had before
    pub record IsRun (cs : List SyncCipher) (items items' : List DecryptedItem)
        (skips skips' : DecryptSkips) : Type 0 where
      pub fresh : List DecryptedItem
      pub missing : ℕ
      pub broken : ℕ
      pub run : Decrypts (key_for org_keys sym_key) cs fresh missing broken
      pub items_eq : items' ≡ items ++ fresh
      pub missing_eq : skips'.no_org_key ≡ skips.no_org_key + missing
      pub broken_eq : skips'.decrypt_failed ≡ skips.decrypt_failed + broken

    IsRun-cons :
        {cipher : SyncCipher} {cs : List SyncCipher} {items items1 items' : List DecryptedItem}
        {skips skips1 skips' : DecryptSkips}
        → Round cipher items items1 skips skips1
        → IsRun cs items1 items' skips1 skips'
        → IsRun (cipher ∷ cs) items items' skips skips'
    IsRun-cons {items} (keeps key item found opens items_eq n_eq f_eq) r = record {
      fresh = item ∷ r.fresh;
      missing = r.missing;
      broken = r.broken;
      run = opened key item found opens r.run;
      items_eq = cc (r.items_eq, items_eq, append_assoc items (item ∷ []) r.fresh);
      missing_eq = omega (arith, n_eq, r.missing_eq);
      broken_eq = omega (arith, f_eq, r.broken_eq);
    }
    IsRun-cons (lacks missed items_eq n_eq f_eq) r = record {
      fresh = r.fresh;
      missing = suc r.missing;
      broken = r.broken;
      run = no_key missed r.run;
      items_eq = cc (r.items_eq, items_eq);
      missing_eq = omega (arith, n_eq, r.missing_eq);
      broken_eq = omega (arith, f_eq, r.broken_eq);
    }
    IsRun-cons (drops key why found fails items_eq n_eq f_eq) r = record {
      fresh = r.fresh;
      missing = r.missing;
      broken = suc r.broken;
      run = failed key why found fails r.run;
      items_eq = cc (r.items_eq, items_eq);
      missing_eq = omega (arith, n_eq, r.missing_eq);
      broken_eq = omega (arith, f_eq, r.broken_eq);
    }

    pub decrypt_ciphers-IsRun :
        (cs : List SyncCipher) (items items' : List DecryptedItem) (skips skips' : DecryptSkips)
        → decrypt_ciphers c org_keys sym_key cs (items, skips) ≡ ok (items', skips')
        → IsRun cs items items' skips skips'
    unfolding decrypt_ciphers
    decrypt_ciphers-IsRun [] items items' skips skips' e = record {
      fresh = [];
      missing = 0;
      broken = 0;
      run = end;
      items_eq = cc (append-nil items);
      missing_eq = ground arith;
      broken_eq = ground arith;
    }
    decrypt_ciphers-IsRun (cipher ∷ cs) items items' skips skips' e =
        let ((items1, skips1), round, e') =
          >>=-eq-ok (decrypt_one c org_keys sym_key cipher (items, skips)) _ e in
        IsRun-cons (decrypt_one-Round cipher items items1 skips skips1 round)
          (decrypt_ciphers-IsRun cs items1 items' skips1 skips' e')
