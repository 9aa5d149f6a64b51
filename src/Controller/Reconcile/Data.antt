-- ===== src/Controller/Reconcile/Data.antt =====
-- The data of the Secret that reconcile_apply of src/controller.rs writes.
use vaultwarden_operator.Prelude.{
  ◌≡◌, refl, ◌∙◌, Option, none, some, List, [], ◌∷◌, arith, if◌then◌else◌, or_else, Str, str_eq,
}
use vaultwarden_operator.Prelude.HashMap
use vaultwarden_operator.Prelude.HashMap.{HashMap, get-empty, get-insert}
use vaultwarden_operator.Crd.{VaultwardenSecretDataItem}
use vaultwarden_operator.Controller.Reconcile.{secret_data}

-- The value of the last entry with the key.
abbrev pub last_value : Str → List VaultwardenSecretDataItem → List Str → Option Str
last_value k [] values = none
last_value k (item ∷ items) [] = none
last_value k (item ∷ items) (v ∷ values) =
    or_else (last_value k items values) (if str_eq item.key k then some v else none)

get-secret_data_from :
    (k : Str) (items : List VaultwardenSecretDataItem) (values : List Str) (acc : HashMap Str)
    → HashMap.get k (secret_data items values acc)
      ≡ or_else (last_value k items values) (HashMap.get k acc)
unfolding secret_data
get-secret_data_from k [] values acc = refl
get-secret_data_from k (item ∷ items) [] acc = refl
get-secret_data_from k (item ∷ items) (v ∷ values) acc =
    get-secret_data_from k items values (HashMap.insert item.key v acc)
    ∙ ground (arith, get-insert item.key k v acc)

-- The data of a Secret holds under each key the value of the last entry with that key, and nothing
-- under a key that no entry has.
pub get-secret_data :
    (k : Str) (items : List VaultwardenSecretDataItem) (values : List Str)
    → HashMap.get k (secret_data items values []) ≡ last_value k items values
get-secret_data k items values =
    get-secret_data_from k items values [] ∙ ground (arith, get-empty {V = Str} k)
