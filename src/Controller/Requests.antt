-- ===== src/Controller/Requests.antt =====
-- What `build_requests` and `parse_sync_interval` of src/controller.rs answer.
use vaultwarden_operator.Prelude.{
  ℕ, zero, suc, ◌+◌, ◌<◌, ◌≡◌, refl, sym, ap, ◌∙◌, subst, ◌≢◌, ◌⊎◌, inl, inr, false, Option, none,
  some, List, [], ◌∷◌, arith, Bool-cases, Option-cases, or_else, get_elem?, take, All, Result, ok,
  err, panic, >>=-eq-ok, map_err, Str,
}
use vaultwarden_operator.Duration.{Duration, from_secs, is_zero, DurationError, parse_duration}
use vaultwarden_operator.Vault.{SecretRequest}
use vaultwarden_operator.Crd.{
  VaultwardenSecretDataItem, set_only, resolved_secret_name, VaultwardenSecretSpec, bad_duration,
  no_secret_name,
}
use vaultwarden_operator.Controller.{build_request, build_from, build_requests, parse_sync_interval}

-- One request per entry, in order: the entry's name, and its vault or else the default one.
pub data Requested (default_vault : Option Str)
    : List VaultwardenSecretDataItem → List SecretRequest → Type 0 where
  no_entries : Requested default_vault [] []
  entry :
      (item : VaultwardenSecretDataItem) (name : Str) (items : List VaultwardenSecretDataItem)
      (requests : List SecretRequest)
      → resolved_secret_name item ≡ some name
      → name ≢ []
      → Requested default_vault items requests
      → Requested default_vault
          (item ∷ items)
          (record { name = name; vault = or_else (set_only item.vault) default_vault } ∷ requests)

-- The entry at the index is the first without a name.
abbrev pub IsFirstUnnamed : List VaultwardenSecretDataItem → ℕ → VaultwardenSecretDataItem → Type 0
IsFirstUnnamed items i item =
    (get_elem? items i ≡ some item)
    × (resolved_secret_name item ≡ none)
    × All (λ other. resolved_secret_name other ≢ none) (take i items)

set_only-nonempty : (o : Option Str) (v : Str) → set_only o ≡ some v → v ≢ []
set_only-nonempty none v e = absurd (ground arith)
set_only-nonempty (some []) v e = absurd (ground arith)
set_only-nonempty (some (c ∷ s)) v e = λ n. absurd (ground arith)

resolved_secret_name-nonempty :
    (item : VaultwardenSecretDataItem) (name : Str)
    → resolved_secret_name item ≡ some name
    → name ≢ []
unfolding resolved_secret_name
resolved_secret_name-nonempty item name e = elim (Option-cases (set_only item.secret_name)) [
  | inl n ↦ set_only-nonempty item.vaultwarden_secret name (ground arith)
  | inr (v, s) ↦ set_only-nonempty item.secret_name name (ground arith)
]

-- The answer for the entries from the index `i` on.
abbrev Built : Option Str → ℕ → List VaultwardenSecretDataItem → Type 0
Built d i items =
    ((requests : List SecretRequest) × (build_from d i items ≡ ok requests)
      × Requested d items requests)
    ⊎ ((k j : ℕ) × (item : VaultwardenSecretDataItem) × (k ≡ i + j)
        × (build_from d i items ≡ err (no_secret_name k item.key))
        × IsFirstUnnamed items j item)

build_from-Built :
    (d : Option Str) (i : ℕ) (items : List VaultwardenSecretDataItem) → Built d i items
unfolding build_from build_request
build_from-Built d i [] = inl ([], refl, no_entries)
build_from-Built d i (item ∷ items) =
    go (resolved_secret_name item) refl (build_from-Built d (suc i) items)
  where
    go :
        (o : Option Str)
        → resolved_secret_name item ≡ o
        → Built d (suc i) items
        → Built d i (item ∷ items)
    go none e rest = inr (i, 0, item, omega arith, rw (e), (refl, e, tt))
    go (some name) e (inl (requests, b, r)) = inl (
      record { name = name; vault = or_else (set_only item.vault) d } ∷ requests,
      rw (e, b),
      entry item name items requests e (resolved_secret_name-nonempty item name e) r,
    )
    go (some name) e (inr (k, j, other, at, b, (g, u, a))) =
        inr (k, suc j, other, omega arith, rw (e, b), (g, u, ((λ n. cc), a)))

-- `build_requests` answers with a request for every entry, in their order, each with a name that is
-- not empty and with the entry's vault or else the default one, an empty vault counting as none; or
-- it reports the index and the key of the first entry that has no name.
pub build_requests_cases :
    (spec : VaultwardenSecretSpec)
    → ((requests : List SecretRequest) × (build_requests spec ≡ ok requests)
        × Requested (set_only spec.default_vault) spec.data_items requests)
      ⊎ ((i : ℕ) × (item : VaultwardenSecretDataItem) × (build_requests spec
            ≡ err (no_secret_name i item.key))
          × IsFirstUnnamed spec.data_items i item)
unfolding build_requests
build_requests_cases spec =
    elim (build_from-Built (set_only spec.default_vault) 0 spec.data_items) [
      | inl built ↦ inl built
      | inr (k, j, item, at, b, u) ↦
          let k_eq : k ≡ j = omega arith in
          inr (j, item, b ∙ ap (λ n. err (no_secret_name n item.key)) k_eq, u)
    ]

-- An interval that `parse_sync_interval` accepts is positive, and unless the text is empty it is
-- the duration that the text says.
pub parse_sync_interval_positive :
    (s : Str) (d : Duration)
    → parse_sync_interval s ≡ ok d
    → (0 < d) × (((s ≡ []) × (d ≡ from_secs 300)) ⊎ (parse_duration s ≡ ok d))
unfolding parse_sync_interval
parse_sync_interval_positive [] d e =
    let q : 300000000000 ≡ d = cc in (omega arith, inl (refl, sym q))
parse_sync_interval_positive (c ∷ s) d e =
    let (a, m, f) = >>=-eq-ok (map_err bad_duration (parse_duration (c ∷ s))) _ e in
    let parsed = wrapped (parse_duration (c ∷ s)) a m in
    elim (Bool-cases (is_zero a)) [
      | inl z ↦ cc
      | inr z ↦
          let a_eq : a ≡ d = cc in
          (subst (λ x. 0 < x) a_eq (positive a z), inr (parsed ∙ ap (λ x. ok x) a_eq))
    ]
  where
    wrapped :
        (r : Result DurationError Duration) (a : Duration)
        → map_err bad_duration r ≡ ok a
        → r ≡ ok a
    wrapped (ok b) a h = cc
    wrapped (err x) a h = cc
    wrapped panic a h = cc

    positive : (a : Duration) → is_zero a ≡ false → 0 < a
    positive zero h = cc
    positive (suc a) h = omega arith
