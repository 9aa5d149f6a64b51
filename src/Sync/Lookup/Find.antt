-- ===== src/Sync/Lookup/Find.antt =====
-- What `find_item` of src/vault/sync.rs finds.
use vaultwarden_operator.Prelude.{
  ◌≡◌, refl, subst, ◌↔◌, ◌⊎◌, inl, inr, Bool, true, Option, none, some, List, [], ◌∷◌, arith,
  Bool-cases, Option-cases, find, All, In, Str, str_eq_iff, starts_with, contains, Unicode,
}
use vaultwarden_operator.Sync.{DecryptedItem}
use vaultwarden_operator.Sync.Lookup.{in_scope, is_exact, is_partial, find_item}

abbrev pub InScope : Option Str → DecryptedItem → Type 0
InScope none item = Unit
InScope (some id) item = item.organization_id ≡ some id

pub in_scope_iff :
    (org_id : Option Str) (item : DecryptedItem)
    → (in_scope org_id item ≡ true) ↔ InScope org_id item
unfolding in_scope
in_scope_iff none item = (λ e. tt, λ h. refl)
in_scope_iff (some id) item = go item.organization_id refl
  where
    go :
        (o : Option Str)
        → item.organization_id ≡ o
        → (in_scope (some id) item ≡ true) ↔ (item.organization_id ≡ some id)
    go none e = (λ h. absurd (ground arith), λ h. absurd (ground arith))
    go (some owner) e = ground (arith, str_eq_iff owner id)

starts_with_refl : (s : Str) → starts_with s s ≡ true
unfolding starts_with
starts_with_refl [] = refl
starts_with_refl (c ∷ s) = ground (arith, starts_with_refl s)

pub contains_refl : (s : Str) → contains s s ≡ true
unfolding contains
contains_refl [] = refl
contains_refl (c ∷ s) = ground (arith, starts_with_refl (c ∷ s))

-- `item` stands in the list, passes the test, and no item before it does
pub data IsFirst (P : DecryptedItem → Type 0) : List DecryptedItem → DecryptedItem → Type 0 where
  here :
      {item : DecryptedItem} {items : List DecryptedItem} → P item → IsFirst P (item ∷ items) item
  later :
      {first item : DecryptedItem} {items : List DecryptedItem}
      → ¬ P first
      → IsFirst P items item
      → IsFirst P (first ∷ items) item

find-IsFirst :
    (P : DecryptedItem → Type 0) (p : DecryptedItem → Bool)
    → ((item : DecryptedItem) → (p item ≡ true) ↔ P item)
    → (items : List DecryptedItem) (item : DecryptedItem) → find p items ≡ some item
    → IsFirst P items item
find-IsFirst P p iff [] item e = absurd (ground arith)
find-IsFirst P p iff (x ∷ items) item e = elim (Bool-cases (p x)) [
  | inl passes ↦
      let same : x ≡ item = ground arith in
      subst (λ y. IsFirst P (x ∷ items) y) same (here ((iff x).0 passes))
  | inr fails ↦
      later (λ h. absurd (cc (fails, (iff x).1 h))) (find-IsFirst P p iff items item (ground arith))
]

find-none-All :
    (P : DecryptedItem → Type 0) (p : DecryptedItem → Bool)
    → ((item : DecryptedItem) → (p item ≡ true) ↔ P item)
    → (items : List DecryptedItem) → find p items ≡ none
    → All (λ item. ¬ P item) items
find-none-All P p iff [] e = tt
find-none-All P p iff (x ∷ items) e = elim (Bool-cases (p x)) [
  | inl passes ↦ absurd (ground arith)
  | inr fails ↦ (λ h. absurd (cc (fails, (iff x).1 h)), find-none-All P p iff items (ground arith))
]

All-find-none :
    (P : DecryptedItem → Type 0) (p : DecryptedItem → Bool)
    → ((item : DecryptedItem) → (p item ≡ true) ↔ P item)
    → (items : List DecryptedItem) → All (λ item. ¬ P item) items
    → find p items ≡ none
All-find-none P p iff [] h = refl
All-find-none P p iff (x ∷ items) (n, h) = elim (Bool-cases (p x)) [
  | inl passes ↦ absurd (n ((iff x).0 passes))
  | inr fails ↦ rw fails (All-find-none P p iff items h)
]

IsFirst-In :
    {P : DecryptedItem → Type 0} {items : List DecryptedItem} {item : DecryptedItem}
    → IsFirst P items item
    → In item items × P item
IsFirst-In (here p) = (inl refl, p)
IsFirst-In (later n f) = let (i, p) = IsFirst-In f in (inr i, p)

module _ (unicode : Unicode) (name : Str) where
  abbrev key : Str
  key = unicode.to_lowercase name

  -- the item has the name, up to case
  abbrev pub IsNamed : DecryptedItem → Type 0
  IsNamed item = unicode.to_lowercase item.name ≡ key

  -- the item's name holds the name that is looked up, up to case
  abbrev pub Holds : DecryptedItem → Type 0
  Holds item = contains (unicode.to_lowercase item.name) key ≡ true

module _ (unicode : Unicode) (name : Str) (org_id : Option Str) where
  abbrev pub IsExact : DecryptedItem → Type 0
  IsExact item = InScope org_id item × IsNamed unicode name item

  abbrev pub IsPartial : DecryptedItem → Type 0
  IsPartial item = InScope org_id item × Holds unicode name item

  is_exact_iff :
      (item : DecryptedItem)
      → (is_exact unicode org_id (unicode.to_lowercase name) item ≡ true) ↔ IsExact item
  is_exact_iff item = ground (
    arith,
    in_scope_iff org_id item,
    str_eq_iff (unicode.to_lowercase item.name) (unicode.to_lowercase name),
  )

  is_partial_iff :
      (item : DecryptedItem)
      → (is_partial unicode org_id (unicode.to_lowercase name) item ≡ true) ↔ IsPartial item
  is_partial_iff item = ground (arith, in_scope_iff org_id item)

  -- The item that is found is the first in scope with the name, or, if no item in scope has the
  -- name, the first in scope whose name holds it.
  pub find_item_sound :
      (items : List DecryptedItem) (item : DecryptedItem)
      → find_item unicode items name org_id ≡ some item
      → IsFirst IsExact items item ⊎ (All (λ x. ¬ IsExact x) items × IsFirst IsPartial items item)
  unfolding find_item
  find_item_sound items item e =
      elim (Option-cases (find (is_exact unicode org_id (unicode.to_lowercase name)) items)) [
        | inl missed ↦ inr (
          find-none-All IsExact _ is_exact_iff items missed,
          find-IsFirst IsPartial _ is_partial_iff items item (ground arith),
        )
        | inr (found, exact) ↦ inl (find-IsFirst IsExact _ is_exact_iff items item (ground arith))
      ]

  IsExact-IsPartial : (item : DecryptedItem) → IsExact item → IsPartial item
  IsExact-IsPartial item (scope, named) =
      (scope, rw named (contains_refl (unicode.to_lowercase name)))

  no_partial-no-IsExact :
      (items : List DecryptedItem) → All (λ x. ¬ IsPartial x) items → All (λ x. ¬ IsExact x) items
  no_partial-no-IsExact [] h = tt
  no_partial-no-IsExact (x ∷ items) (n, h) =
      (λ e. n (IsExact-IsPartial x e), no_partial-no-IsExact items h)

  -- What is found is an item of the list, in scope.
  pub find_item-InScope :
      (items : List DecryptedItem) (item : DecryptedItem)
      → find_item unicode items name org_id ≡ some item
      → In item items × InScope org_id item × Holds unicode name item
  find_item-InScope items item e = elim (find_item_sound items item e) [
    | inl first ↦
        let (i, x) = IsFirst-In first in let (s, h) = IsExact-IsPartial item x in (i, s, h)
    | inr (_, first) ↦ let (i, (s, h)) = IsFirst-In first in (i, s, h)
  ]

  -- Nothing is found exactly if no item in scope has a name that holds the one that is looked up.
  pub find_item-none_iff :
      (items : List DecryptedItem)
      → (find_item unicode items name org_id ≡ none) ↔ All (λ x. ¬ IsPartial x) items
  unfolding find_item
  find_item-none_iff items = (
    λ e. find-none-All IsPartial _ is_partial_iff items (ground arith),
    λ h.
        rw (All-find-none IsExact _ is_exact_iff items (no_partial-no-IsExact items h), find_item)
          (All-find-none IsPartial _ is_partial_iff items h),
  )
