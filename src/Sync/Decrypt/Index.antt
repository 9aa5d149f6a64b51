-- ===== src/Sync/Decrypt/Index.antt =====
-- `index_orgs` of src/vault/sync.rs against the list of the organizations with a name.
use vaultwarden_operator.Prelude.{
  ◌≡◌, refl, sym, ap, ◌∙◌, inl, inr, Bool, Option, none, some, List, [], ◌∷◌, ◌++◌, append_assoc,
  append-nil, if◌then◌else◌, Bool-cases, unwrap_or, Str, str_eq, eq_of_str_eq, Unicode,
}
use vaultwarden_operator.Prelude.HashMap
use vaultwarden_operator.Prelude.HashMap.{HashMap, get-empty, get-insert}
use vaultwarden_operator.Sync.{SyncOrganization}
use vaultwarden_operator.Sync.Decrypt.{push_at, index_from, index_orgs}

module _ (unicode : Unicode) where
  abbrev pub is_named : Str → SyncOrganization → Bool
  is_named key org = str_eq (unicode.to_lowercase org.name) key

  -- the ids of the organizations whose lowercased name is `key`, in order
  unfoldable pub ids_of : Str → List SyncOrganization → List Str
  ids_of key [] = []
  ids_of key (org ∷ orgs) = if is_named key org then org.id ∷ ids_of key orgs else ids_of key orgs

  -- an entry of the index; no organization, no entry
  abbrev pub entry : List Str → Option (List Str)
  entry [] = none
  entry (id ∷ ids) = some (id ∷ ids)

  abbrev joined : Option (List Str) → List Str → Option (List Str)
  joined none ids = entry ids
  joined (some before) ids = some (before ++ ids)

  get-push_at :
      (key name id : Str) (m : HashMap (List Str))
      → HashMap.get key (push_at unicode name id m) ≡ (
          if str_eq name key
          then some (unwrap_or [] (HashMap.get name m) ++ id ∷ [])
          else HashMap.get key m)
  unfolding push_at
  get-push_at key name id m = get-insert name key _ m

  joined-nil : (o : Option (List Str)) → joined o [] ≡ o
  joined-nil none = refl
  joined-nil (some before) = ap some (append-nil before)

  joined-cons :
      (o : Option (List Str)) (id : Str) (ids : List Str)
      → joined (some (unwrap_or [] o ++ id ∷ [])) ids ≡ joined o (id ∷ ids)
  joined-cons none id ids = refl
  joined-cons (some before) id ids = ap some (append_assoc before (id ∷ []) ids)

  get-index_from :
      (key : Str) (m : HashMap (List Str)) (orgs : List SyncOrganization)
      → HashMap.get key (index_from unicode m orgs) ≡ joined (HashMap.get key m) (ids_of key orgs)
  unfolding index_from ids_of
  get-index_from key m [] = sym (joined-nil (HashMap.get key m))
  get-index_from key m (org ∷ orgs) =
      elim (Bool-cases (str_eq (unicode.to_lowercase org.name) key)) [
        | inl same ↦
            let name = unicode.to_lowercase org.name in
            let pushed = get-push_at key name org.id m in
            let e = eq_of_str_eq name key same in
            let at_key : HashMap.get key (push_at unicode name org.id m)
                ≡ some (unwrap_or [] (HashMap.get key m) ++ org.id ∷ []) =
              rw same at pushed
              ∙ ap (λ k. some (unwrap_or [] (HashMap.get k m) ++ org.id ∷ [])) e in
            rw same (
              get-index_from key (push_at unicode name org.id m) orgs
              ∙ ap (λ o. joined o (ids_of key orgs)) at_key
              ∙ joined-cons (HashMap.get key m) org.id (ids_of key orgs))
        | inr other ↦
            let name = unicode.to_lowercase org.name in
            let pushed = rw other at (get-push_at key name org.id m) in
            rw other (
              get-index_from key (push_at unicode name org.id m) orgs
              ∙ ap (λ o. joined o (ids_of key orgs)) pushed)
      ]

  -- The index has, under each key, the ids of the organizations whose lowercased name is the key,
  -- in the order of the profile, and no entry if there are none.
  pub get-index_orgs :
      (key : Str) (orgs : List SyncOrganization)
      → HashMap.get key (index_orgs unicode orgs) ≡ entry (ids_of key orgs)
  unfolding index_orgs
  get-index_orgs key orgs =
      get-index_from key [] orgs
      ∙ ap (λ o. joined o (ids_of key orgs)) (get-empty {V = List Str} key)
