-- ===== src/Sync/Decrypt/Contents.antt =====
-- The contents of an item that `decrypt_cipher` of src/vault/sync.rs makes of a cipher.
use vaultwarden_operator.Prelude.{
  ◌≡◌, refl, sym, ap, ◌∙◌, true, false, Bool, ◌&&◌, Option, none, some, List, [], ◌∷◌,
  if◌then◌else◌, arith, opt_filter, or_else, or_else-none, is_empty, Result, ok, err, panic,
  or_default, >>=-eq-ok, Str, str_eq, subst,
}
use vaultwarden_operator.Prelude.HashMap
use vaultwarden_operator.Prelude.HashMap.{HashMap, get-insert, get-empty}
use vaultwarden_operator.Sync.{SyncUri, SyncLogin, SyncField, SyncCipher, DecryptedItem}
use vaultwarden_operator.Crypto.{CryptoError, SymmetricKey, Crates}
use vaultwarden_operator.Crypto.CipherString.{decrypt_str}
use vaultwarden_operator.Sync.Decrypt.{
  nonempty, decrypt_or_default, first_uri, decrypt_uri, decrypt_login, decrypt_fields,
  decrypt_cipher,
}

-- the value of the last pair with a name; a pair without a name is left out
abbrev pub last_named : Str → List (Str × Str) → Option Str
last_named k [] = none
last_named k ((name, value) ∷ pairs) =
    or_else (last_named k pairs) (if nonempty name && str_eq name k then some value else none)

module _ {K : Type 0} (c : Crates K) (key : SymmetricKey) where
  -- the text of a field that may be missing, and is empty if it does not decrypt
  pub data IsText : Option Str → Str → Type 0 where
    missing : IsText none []
    clear : {s text : Str} → decrypt_str c s key ≡ ok text → IsText (some s) text
    garbled : {s : Str} (why : CryptoError) → decrypt_str c s key ≡ err why → IsText (some s) []

  -- the URI of a login, or the first of its URIs where that is empty
  pub data IsUri (login : SyncLogin) : Str → Type 0 where
    own : {text : Str} → IsText login.uri text → is_empty text ≡ false → IsUri login text
    first :
        {text : Str} (u : SyncUri) (us : List SyncUri)
        → login.uris ≡ u ∷ us
        → IsText login.uri []
        → IsText u.uri text
        → IsUri login text
    bare : login.uris ≡ [] → IsText login.uri [] → IsUri login []

  -- the user name, the password and the URI
  pub data IsLogin : Option SyncLogin → Str → Str → Str → Type 0 where
    without : IsLogin none [] [] []
    with_login :
        {login : SyncLogin} {username password uri : Str}
        → IsText login.username username
        → IsText login.password password
        → IsUri login uri
        → IsLogin (some login) username password uri

  -- the names and the values of the fields, in order
  pub data AreFields : List SyncField → List (Str × Str) → Type 0 where
    end : AreFields [] []
    field :
        {f : SyncField} {fs : List SyncField} {name value : Str} {pairs : List (Str × Str)}
        → IsText f.name name
        → IsText f.value value
        → AreFields fs pairs
        → AreFields (f ∷ fs) ((name, value) ∷ pairs)

  -- an item that has the contents of a cipher
  pub record IsClear (cipher : SyncCipher) (item : DecryptedItem) : Type 0 where
    pub id : item.id ≡ cipher.id
    pub cipher_type : item.cipher_type ≡ cipher.cipher_type
    pub organization_id : item.organization_id ≡ opt_filter nonempty cipher.organization_id
    pub name : decrypt_str c cipher.name key ≡ ok item.name
    pub notes : IsText cipher.notes item.notes
    pub login : IsLogin cipher.login item.username item.password item.uri
    pub pairs : List (Str × Str)
    pub fields : AreFields cipher.fields pairs
    pub get : (k : Str) → HashMap.get k item.fields ≡ last_named k pairs

  or_default-IsText :
      (s text : Str) (r : Result CryptoError Str)
      → decrypt_str c s key ≡ r
      → or_default [] r ≡ ok text
      → IsText (some s) text
  or_default-IsText s text (ok t) e f = clear (ground (arith, e, f))
  or_default-IsText s text (err why) e f =
      let none_left : [] ≡ text = ground (arith, f) in
      subst (λ t. IsText (some s) t) none_left (garbled why e)
  or_default-IsText s text panic e f = absurd (ground (arith, f))

  decrypt_or_default-IsText :
      (found : Option Str) (text : Str)
      → decrypt_or_default c found key ≡ ok text
      → IsText found text
  decrypt_or_default-IsText none text e =
      let none_left : [] ≡ text = ground (arith, e) in subst (λ t. IsText none t) none_left missing
  decrypt_or_default-IsText (some s) text e = or_default-IsText s text (decrypt_str c s key) refl e

  rest-IsUri :
      (login : SyncLogin) (uris : List SyncUri) (text : Str)
      → login.uris ≡ uris
      → IsText login.uri []
      → decrypt_or_default c (first_uri c uris) key ≡ ok text
      → IsUri login text
  rest-IsUri login [] text same own_text e =
      let none_left : [] ≡ text = ground (arith, e) in
      subst (λ t. IsUri login t) none_left (bare same own_text)
  rest-IsUri login (u ∷ us) text same own_text e =
      first u us same own_text (decrypt_or_default-IsText u.uri text e)

  or_else_field :
      (name value : Str) (pairs : List (Str × Str)) (before : HashMap Str) (k : Str) (full : Bool)
      → or_else
          (last_named k pairs)
          (HashMap.get k (if full then HashMap.insert name value before else before))
        ≡ or_else
            (or_else (last_named k pairs) (if full && str_eq name k then some value else none))
            (HashMap.get k before)
  or_else_field name value pairs before k true = rw (get-insert name k value before) (ground arith)
  or_else_field name value pairs before k false = ground arith

  decrypt_fields-AreFields :
      (fs : List SyncField) (before after : HashMap Str)
      → decrypt_fields c fs key before ≡ ok after
      → (pairs : List (Str × Str)) × AreFields fs pairs
        × ((k : Str) → HashMap.get k after ≡ or_else (last_named k pairs) (HashMap.get k before))
  unfolding decrypt_fields
  decrypt_fields-AreFields [] before after e =
      let same : before ≡ after = ground (arith, e) in ([], end, λ k. ap (HashMap.get k) (sym same))
  decrypt_fields-AreFields (f ∷ fs) before after e =
      let (name, named, e1) = >>=-eq-ok (decrypt_or_default c f.name key) _ e in
      let (value, valued, e2) = >>=-eq-ok (decrypt_or_default c f.value key) _ e1 in
      let (pairs, rest, got) = decrypt_fields-AreFields fs _ after e2 in
      (
        (name, value) ∷ pairs,
        field (decrypt_or_default-IsText f.name name named)
            (decrypt_or_default-IsText f.value value valued) rest,
        λ k. got k ∙ or_else_field name value pairs before k (nonempty name),
      )

  decrypt_uri-IsUri :
      (login : SyncLogin) (text : Str) → decrypt_uri c login key ≡ ok text → IsUri login text
  decrypt_uri-IsUri login text e =
      let (uri, read, e1) = >>=-eq-ok (decrypt_or_default c login.uri key) _ e in
      let own_text = decrypt_or_default-IsText login.uri uri read in next uri own_text e1
    where
      next :
          (uri : Str)
          → IsText login.uri uri
          → (if is_empty uri then decrypt_or_default c (first_uri c login.uris) key else ok uri)
            ≡ ok text
          → IsUri login text
      next [] own_text e1 = rest-IsUri login login.uris text refl own_text e1
      next (x ∷ uri) own_text e1 =
          let same : x ∷ uri ≡ text = ground (arith, e1) in
          subst (λ t. IsUri login t) same (own own_text refl)

  decrypt_login-IsLogin :
      (found : Option SyncLogin) (username password uri : Str)
      → decrypt_login c found key ≡ ok (username, password, uri)
      → IsLogin found username password uri
  decrypt_login-IsLogin none username password uri e =
      let n1 : [] ≡ username = ground (arith, e) in
      let n2 : [] ≡ password = ground (arith, e) in
      let n3 : [] ≡ uri = ground (arith, e) in
      subst (λ t. IsLogin none t password uri) n1
        (subst (λ t. IsLogin none [] t uri) n2 (subst (λ t. IsLogin none [] [] t) n3 without))
  decrypt_login-IsLogin (some login) username password uri e =
      let (n, name, e1) = >>=-eq-ok (decrypt_or_default c login.username key) _ e in
      let (p, pass, e2) = >>=-eq-ok (decrypt_or_default c login.password key) _ e1 in
      let (u, place, e3) = >>=-eq-ok (decrypt_uri c login key) _ e2 in
      let n1 : n ≡ username = ground (arith, e3) in
      let n2 : p ≡ password = ground (arith, e3) in
      let n3 : u ≡ uri = ground (arith, e3) in
      with_login (decrypt_or_default-IsText login.username username (name ∙ ap (λ t. ok t) n1))
        (decrypt_or_default-IsText login.password password (pass ∙ ap (λ t. ok t) n2))
        (decrypt_uri-IsUri login uri (place ∙ ap (λ t. ok t) n3))

  -- A cipher that decrypts gives an item with its contents.
  pub decrypt_cipher-IsClear :
      (cipher : SyncCipher) (item : DecryptedItem)
      → decrypt_cipher c cipher key ≡ ok item
      → IsClear cipher item
  unfolding decrypt_cipher
  decrypt_cipher-IsClear cipher item e =
      let (name, named, e1) = >>=-eq-ok (decrypt_str c cipher.name key) _ e in
      let (notes, noted, e2) = >>=-eq-ok (decrypt_or_default c cipher.notes key) _ e1 in
      let ((username, password, uri), logged, e3) =
        >>=-eq-ok (decrypt_login c cipher.login key) _ e2 in
      let (fields, found, e4) = >>=-eq-ok (decrypt_fields c cipher.fields key []) _ e3 in
      let (pairs, are, got) = decrypt_fields-AreFields cipher.fields [] fields found in
      let clear_item : DecryptedItem = record {
        id = cipher.id;
        cipher_type = cipher.cipher_type;
        organization_id = opt_filter nonempty cipher.organization_id;
        name = name;
        username = username;
        password = password;
        notes = notes;
        uri = uri;
        fields = fields;
      } in
      let same : clear_item ≡ item = ground (arith, e4) in
      subst (IsClear cipher) same (record {
        id = refl;
        cipher_type = refl;
        organization_id = refl;
        name = named;
        notes = decrypt_or_default-IsText cipher.notes notes noted;
        login = decrypt_login-IsLogin cipher.login username password uri logged;
        pairs = pairs;
        fields = are;
        get = λ k. got k ∙ rw (get-empty {V = Str} k) (or_else-none (last_named k pairs));
      })
