-- ===== src/Sync/Decrypt/Owners.antt =====
-- The keys of the organizations that `decrypt_vault` of src/vault/sync.rs collects, against the
-- organizations of the profile.
use vaultwarden_operator.Prelude.{
  ◌≡◌, refl, sym, ap, ◌∙◌, not, ◌&&◌, Option, none, some, List, [], ◌∷◌, if◌then◌else◌, arith,
  or_else, or_else-none, or_else_assoc, is_empty, Result, ok, err, panic, >>=-eq-ok, caught, ◌>>=◌,
  Str, str_eq,
}
use vaultwarden_operator.Prelude.HashMap
use vaultwarden_operator.Prelude.HashMap.{HashMap, get-empty, get-insert}
use vaultwarden_operator.Sync.{SyncOrganization, SyncResponse}
use vaultwarden_operator.Crypto.{CryptoError, SymmetricKey, Crates}
use vaultwarden_operator.Crypto.Keys.{decrypt_private_key, decrypt_org_key}
use vaultwarden_operator.Sync.Decrypt.{
  nonempty, decrypt_org_keys, match_private_key, org_keys_of, key_for,
}

abbrev pub ok_of : {E A : Type 0} → Result E A → Option A
ok_of (ok a) = some a
ok_of (err e) = none
ok_of panic = none

module _ {K : Type 0} (c : Crates K) where
  -- the key of the last organization with an id whose key decrypts
  abbrev pub key_in : K → Str → List SyncOrganization → Option SymmetricKey
  key_in private_key id [] = none
  key_in private_key id (org ∷ orgs) =
      or_else (key_in private_key id orgs)
        (if str_eq org.id id then ok_of (decrypt_org_key c org.key private_key) else none)

  -- the same, if there is a private key
  abbrev pub key_with : Option K → Str → List SyncOrganization → Option SymmetricKey
  key_with none id orgs = none
  key_with (some private_key) id orgs = key_in private_key id orgs

  -- the private key of an account, if it has one that decrypts
  abbrev pub unlocked : Str → SymmetricKey → Option K
  unlocked [] sym_key = none
  unlocked (x ∷ xs) sym_key = ok_of (decrypt_private_key c (x ∷ xs) sym_key)

  -- The user's key for no organization, else the key of that organization.
  abbrev pub owner_key : SyncResponse → SymmetricKey → Option Str → Option SymmetricKey
  owner_key sync sym_key none = some sym_key
  owner_key sync sym_key (some []) = some sym_key
  owner_key sync sym_key (some (x ∷ xs)) =
      key_with (unlocked sync.profile.private_key sym_key) (x ∷ xs) sync.profile.organizations

  caught-ok_of :
      {A : Type 0} (r : Result CryptoError A) (found : Option A)
      → caught r ≡ ok found
      → found ≡ ok_of r
  caught-ok_of (ok a) found e = ground (arith, e)
  caught-ok_of (err why) found e = ground (arith, e)
  caught-ok_of panic found e = absurd (ground (arith, e))

  get-grown :
      (org_id id : Str) (found : Option SymmetricKey) (before : HashMap SymmetricKey)
      → HashMap.get id (elim found [ none ↦ before | some k ↦ HashMap.insert org_id k before ])
        ≡ or_else (if str_eq org_id id then found else none) (HashMap.get id before)
  get-grown org_id id none before = ground arith
  get-grown org_id id (some k) before = get-insert org_id id k before ∙ ground arith

  get-decrypt_org_keys :
      (id : Str) (orgs : List SyncOrganization) (pk : K) (before after : HashMap SymmetricKey)
      → decrypt_org_keys c orgs pk before ≡ ok after
      → HashMap.get id after ≡ or_else (key_in pk id orgs) (HashMap.get id before)
  unfolding decrypt_org_keys
  get-decrypt_org_keys id [] pk before after e =
      let same : before ≡ after = ground (arith, e) in ap (HashMap.get id) (sym same)
  get-decrypt_org_keys id (org ∷ orgs) pk before after e =
      let (found, tried, e') = >>=-eq-ok (caught (decrypt_org_key c org.key pk)) _ e in
      let here = if str_eq org.id id then found else none in
      get-decrypt_org_keys id orgs pk _ after e'
      ∙ ap (or_else (key_in pk id orgs)) (get-grown org.id id found before)
      ∙ sym (or_else_assoc (key_in pk id orgs) here (HashMap.get id before))
      ∙ ap
          (λ (x : Option SymmetricKey).
            or_else (or_else (key_in pk id orgs) (if str_eq org.id id then x else none))
              (HashMap.get id before))
          (caught-ok_of (decrypt_org_key c org.key pk) found tried)

  get-match_private_key :
      (id : Str) (orgs : List SyncOrganization) (pk : Option K) (after : HashMap SymmetricKey)
      → match_private_key c orgs pk ≡ ok after
      → HashMap.get id after ≡ key_with pk id orgs
  get-match_private_key id orgs none after e =
      let same : [] ≡ after = ground (arith, e) in
      ap (HashMap.get id) (sym same) ∙ get-empty {V = SymmetricKey} id
  get-match_private_key id orgs (some pk) after e =
      get-decrypt_org_keys id orgs pk [] after e
      ∙ ap (or_else (key_in pk id orgs)) (get-empty {V = SymmetricKey} id)
      ∙ or_else-none (key_in pk id orgs)

  key_with-empty : (pk : Option K) (id : Str) → key_with pk id [] ≡ none
  key_with-empty none id = refl
  key_with-empty (some pk) id = refl

  org_keys_in :
      (id : Str) (orgs : List SyncOrganization) (text : Str) (sym_key : SymmetricKey)
      (org_keys : HashMap SymmetricKey)
      → (if not (is_empty orgs) && nonempty text
          then caught (decrypt_private_key c text sym_key) >>= match_private_key c orgs
          else ok [])
        ≡ ok org_keys
      → HashMap.get id org_keys ≡ key_with (unlocked text sym_key) id orgs
  org_keys_in id [] text sym_key org_keys e =
      let same : [] ≡ org_keys = ground (arith, e) in
      ap (HashMap.get id) (sym same)
      ∙ get-empty {V = SymmetricKey} id
      ∙ sym (key_with-empty (unlocked text sym_key) id)
  org_keys_in id (org ∷ orgs) [] sym_key org_keys e =
      let same : [] ≡ org_keys = ground (arith, e) in
      ap (HashMap.get id) (sym same) ∙ get-empty {V = SymmetricKey} id
  org_keys_in id (org ∷ orgs) (x ∷ xs) sym_key org_keys e =
      let (found, tried, e') = >>=-eq-ok (caught (decrypt_private_key c (x ∷ xs) sym_key)) _ e in
      get-match_private_key id (org ∷ orgs) found org_keys e'
      ∙ ap (λ (pk : Option K). key_with pk id (org ∷ orgs))
          (caught-ok_of (decrypt_private_key c (x ∷ xs) sym_key) found tried)

  -- The key that the collected ones give a cipher is that of its owner.
  pub key_for-owner_key :
      (sync : SyncResponse) (sym_key : SymmetricKey) (org_keys : HashMap SymmetricKey)
      → org_keys_of c sync sym_key ≡ ok org_keys
      → (owner : Option Str) → key_for org_keys sym_key owner ≡ owner_key sync sym_key owner
  unfolding org_keys_of key_for
  key_for-owner_key sync sym_key org_keys e none = refl
  key_for-owner_key sync sym_key org_keys e (some []) = refl
  key_for-owner_key sync sym_key org_keys e (some (x ∷ xs)) =
      org_keys_in (x ∷ xs) sync.profile.organizations sync.profile.private_key sym_key org_keys e
