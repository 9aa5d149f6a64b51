-- ===== src/Sync/Extract/Value.antt =====
-- When `extract_secret` of src/vault/sync.rs is empty, and when it depends on the order of a `HashMap`.
use vaultwarden_operator.Prelude.{
  ◌≡◌, refl, ◌≢◌, ◌↔◌, inl, inr, true, false, Option, none, some, List, [], ◌∷◌, arith, Bool-cases,
  Option-cases, All, In, All-In, Str,
}
use vaultwarden_operator.Prelude.HashMap
use vaultwarden_operator.Prelude.HashMap.{HashMap}
use vaultwarden_operator.Sync.{DecryptedItem}
use vaultwarden_operator.Sync.Decrypt.{nonempty}
use vaultwarden_operator.Sync.Extract.{secret_names, named_field, first_value, extract_secret}

-- An iteration yields the entries of the map.
pub record IsIteration (order : HashMap Str → List (Str × Str)) : Type 0 where
  pub entries : (m : HashMap Str) (e : Str × Str) → In e (order m) ↔ In e m

-- every value is empty
abbrev pub AllEmpty : HashMap Str → Type 0
AllEmpty = All (λ e. e.1 ≡ [])

get-AllEmpty : (k v : Str) (m : HashMap Str) → AllEmpty m → HashMap.get k m ≡ some v → v ≡ []
unfolding HashMap.get
get-AllEmpty k v [] h e = absurd (ground arith)
get-AllEmpty k v ((j, w) ∷ m) (p, h) e = ground (arith, get-AllEmpty k v m h)

named_field-AllEmpty :
    (names : List Str) (m : HashMap Str) → AllEmpty m → named_field names m ≡ none
unfolding named_field
named_field-AllEmpty [] m h = refl
named_field-AllEmpty (name ∷ names) m h =
    go (HashMap.get name m) refl (named_field-AllEmpty names m h)
  where
    go :
        (o : Option Str)
        → HashMap.get name m ≡ o
        → named_field names m ≡ none
        → named_field (name ∷ names) m ≡ none
    go none e rest = ground arith
    go (some v) e rest = let empty_v : v ≡ [] = get-AllEmpty name v m h e in ground arith

named_field-nonempty :
    (names : List Str) (m : HashMap Str) (v : Str) → named_field names m ≡ some v → v ≢ []
unfolding named_field
named_field-nonempty [] m v e = absurd (ground arith)
named_field-nonempty (name ∷ names) m v e = ground (arith, named_field-nonempty names m v)

first_value-empty_iff : (es : List (Str × Str)) → (first_value es ≡ []) ↔ AllEmpty es
unfolding first_value
first_value-empty_iff [] = (λ e. tt, λ h. refl)
first_value-empty_iff ((k, v) ∷ es) =
    let (to, from) = first_value-empty_iff es in ground (arith, to, from)

AllEmpty-order :
    (es fs : List (Str × Str)) → ((e : Str × Str) → In e es → In e fs) → AllEmpty fs → AllEmpty es
AllEmpty-order [] fs sub h = tt
AllEmpty-order (e ∷ es) fs sub h = (
  All-In (λ e'. e'.1 ≡ []) fs e h (sub e (inl refl)),
  AllEmpty-order es fs (λ x i. sub x (inr i)) h,
)

-- `nonempty` decides.
nonempty-false : (v : Str) → nonempty v ≡ false → v ≡ []
nonempty-false [] e = refl
nonempty-false (c ∷ v) e = absurd (ground arith)

nonempty-true : (v : Str) → nonempty v ≡ true → v ≢ []
nonempty-true [] e h = absurd (ground arith)
nonempty-true (c ∷ v) e h = absurd (ground arith)

module _ (order : HashMap Str → List (Str × Str)) where
  -- Over an iteration that yields the map's entries: the extracted secret is empty exactly when the
  -- item has no password, no notes and no custom field with a value.
  pub extract_secret_empty_iff :
      IsIteration order
      → (item : DecryptedItem)
      → (extract_secret order item ≡ [])
        ↔ ((item.password ≡ []) × (item.notes ≡ []) × AllEmpty item.fields)
  unfolding extract_secret
  extract_secret_empty_iff it item = (to, from)
    where
      sub : (e : Str × Str) → In e item.fields → In e (order item.fields)
      sub e i = (it.entries item.fields e).1 i

      to :
          extract_secret order item ≡ []
          → (item.password ≡ []) × (item.notes ≡ []) × AllEmpty item.fields
      to e =
          let named = named_field-nonempty secret_names item.fields in
          let fv = (first_value-empty_iff (order item.fields)).0 in
          let ao = AllEmpty-order item.fields (order item.fields) sub in
          elim (Bool-cases (nonempty item.password)) [
            | inl y ↦
                let q : item.password ≡ [] = ground arith in
                absurd (nonempty-true item.password y q)
            | inr n ↦ elim (Option-cases (named_field secret_names item.fields)) [
              | inl nn ↦ elim (Bool-cases (nonempty item.notes)) [
                | inl y ↦
                    let q : item.notes ≡ [] = ground arith in absurd (nonempty-true item.notes y q)
                | inr m ↦
                    let q : first_value (order item.fields) ≡ [] = ground arith in
                    (nonempty-false item.password n, nonempty-false item.notes m, ao (fv q))
              ]
              | inr (v, ss) ↦ let q : v ≡ [] = ground arith in absurd (named v ss q)
            ]
          ]

      from :
          (item.password ≡ []) × (item.notes ≡ []) × AllEmpty item.fields
          → extract_secret order item ≡ []
      from (p, n, h) =
          let nf = named_field-AllEmpty secret_names item.fields h in
          let fv = (first_value-empty_iff (order item.fields)).1 (
            AllEmpty-order (order item.fields) item.fields (λ e i. (it.entries item.fields e).0 i)
              h) in
          ground arith
