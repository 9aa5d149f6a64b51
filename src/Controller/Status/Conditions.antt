-- ===== src/Controller/Status/Conditions.antt =====
-- The conditions of src/controller.rs as a map from types: what upsert_condition and the
-- removal of a failure do to it.
use vaultwarden_operator.Prelude.{
  ◌≡◌, refl, subst, Bool, true, false, not, Option, none, some, List, [], ◌∷◌, arith, if◌then◌else◌,
  find, Str, str_eq, eq_of_str_eq, str_eq_iff,
}
use vaultwarden_operator.Crd.{StatusCondition}
use vaultwarden_operator.Controller.Status.{condition_sync_failed, upsert_condition, without_failed}

-- The condition of a type.
abbrev pub condition_of : Str → List StatusCondition → Option StatusCondition
condition_of t = find (λ c. str_eq c.condition_type t)

-- No two conditions have one type.
abbrev pub IsKeyed : List StatusCondition → Type 0
IsKeyed [] = Unit
IsKeyed (c ∷ cs) = (condition_of c.condition_type cs ≡ none) × IsKeyed cs

pub condition_of-upsert :
    (t : Str) (cs : List StatusCondition) (new : StatusCondition)
    → condition_of t (upsert_condition cs new)
      ≡ (if str_eq new.condition_type t then some new else condition_of t cs)
unfolding upsert_condition
condition_of-upsert t [] new = refl
condition_of-upsert t (c ∷ cs) new = ground (
  arith,
  str_eq_iff c.condition_type new.condition_type,
  str_eq_iff c.condition_type t,
  str_eq_iff new.condition_type t,
  condition_of-upsert t cs new,
)

pub upsert-IsKeyed :
    (cs : List StatusCondition) (new : StatusCondition)
    → IsKeyed cs
    → IsKeyed (upsert_condition cs new)
unfolding upsert_condition
upsert-IsKeyed [] new h = (refl, tt)
upsert-IsKeyed (c ∷ cs) new (n, h) =
    go (str_eq c.condition_type new.condition_type) refl (upsert-IsKeyed cs new h)
  where
    go :
        (b : Bool)
        → str_eq c.condition_type new.condition_type ≡ b
        → IsKeyed (upsert_condition cs new)
        → IsKeyed (if b then new ∷ cs else c ∷ upsert_condition cs new)
    go true e rest = (
      subst (λ t. condition_of t cs ≡ none) (eq_of_str_eq c.condition_type new.condition_type e) n,
      h,
    )
    go false e rest = (
      ground (
        arith,
        condition_of-upsert c.condition_type cs new,
        str_eq_iff c.condition_type new.condition_type,
        str_eq_iff new.condition_type c.condition_type,
        n,
      ),
      rest,
    )

pub condition_of-without_failed :
    (t : Str) (cs : List StatusCondition)
    → condition_of t (without_failed cs)
      ≡ (if str_eq t condition_sync_failed then none else condition_of t cs)
condition_of-without_failed t [] = ground arith
condition_of-without_failed t (c ∷ cs) = ground (
  arith,
  str_eq_iff t condition_sync_failed,
  str_eq_iff c.condition_type t,
  str_eq_iff c.condition_type condition_sync_failed,
  condition_of-without_failed t cs,
)

pub without_failed-IsKeyed : (cs : List StatusCondition) → IsKeyed cs → IsKeyed (without_failed cs)
without_failed-IsKeyed [] h = tt
without_failed-IsKeyed (c ∷ cs) (n, h) =
    go (str_eq c.condition_type condition_sync_failed) (without_failed-IsKeyed cs h)
  where
    none_left : condition_of c.condition_type (without_failed cs) ≡ none
    none_left = ground (arith, condition_of-without_failed c.condition_type cs, n)

    go :
        (b : Bool)
        → IsKeyed (without_failed cs)
        → IsKeyed (if not b then c ∷ without_failed cs else without_failed cs)
    go true rest = rest
    go false rest = (none_left, rest)
