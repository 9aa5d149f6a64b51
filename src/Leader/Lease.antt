-- ===== src/Leader/Lease.antt =====
-- What makes the leader of src/leader.rs give up the lease.
use vaultwarden_operator.Prelude.{
  ℕ, zero, suc, ◌≡◌, refl, ap, ◌↔◌, Bool, true, false, ◌||◌, List, [], ◌∷◌, ◌++◌,
}
use vaultwarden_operator.Leader.{
  Answer, held, held_by_other, failed, Renewal, stepped_down, renewing, one_more, renew_loop,
  keep_renewing,
}

-- The first `n` answers are errors.
unfoldable pub starts_with_errors : ℕ → List Answer → Bool
starts_with_errors zero answers = true
starts_with_errors (suc n) [] = false
starts_with_errors (suc n) (failed ∷ rest) = starts_with_errors n rest
starts_with_errors (suc n) (held ∷ rest) = false
starts_with_errors (suc n) (held_by_other ∷ rest) = false

-- Somewhere, three answers in a row are errors.
unfoldable pub has_three_errors : List Answer → Bool
has_three_errors [] = false
has_three_errors (a ∷ rest) = starts_with_errors 3 (a ∷ rest) || has_three_errors rest

-- Some answer says that another holds the lease.
unfoldable pub is_taken : List Answer → Bool
is_taken [] = false
is_taken (held_by_other ∷ rest) = true
is_taken (held ∷ rest) = is_taken rest
is_taken (failed ∷ rest) = is_taken rest

-- the claim, after `before`
abbrev Renews : ℕ → List Answer → List Answer → Type 0
Renews k before answers =
    (renew_loop k answers ≡ renewing)
    ↔ ((is_taken answers ≡ false) × (has_three_errors (before ++ answers) ≡ false))

one_more-renewing : (r : Renewal) → one_more r ≡ renewing → r ≡ renewing
one_more-renewing (stepped_down n) e = cc
one_more-renewing renewing e = refl

-- after no error, one and two
renew_loop-Renews :
    (answers : List Answer)
    → Renews 0 [] answers × Renews 1 (failed ∷ []) answers × Renews 2 (failed ∷ failed ∷ []) answers
unfolding renew_loop is_taken has_three_errors starts_with_errors
renew_loop-Renews [] =
    ((λ e. (refl, refl), λ h. refl), (λ e. (refl, refl), λ h. refl), (λ e. (refl, refl), λ h. refl))
renew_loop-Renews (held ∷ rest) =
    let (zero_errors, one_error, two_errors) = renew_loop-Renews rest in
    let same : (one_more (renew_loop 0 rest) ≡ renewing)
        ↔ ((is_taken rest ≡ false) × (has_three_errors rest ≡ false)) =
      (
        λ e. zero_errors.0 (one_more-renewing (renew_loop 0 rest) e),
        λ h. ap one_more (zero_errors.1 h),
      ) in
    (same, same, same)
renew_loop-Renews (held_by_other ∷ rest) =
    ((λ e. cc, λ h. cc), (λ e. cc, λ h. cc), (λ e. cc, λ h. cc))
renew_loop-Renews (failed ∷ rest) =
    let (zero_errors, one_error, two_errors) = renew_loop-Renews rest in
    (
      (
        λ e. one_error.0 (one_more-renewing (renew_loop 1 rest) e),
        λ h. ap one_more (one_error.1 h),
      ),
      (
        λ e. two_errors.0 (one_more-renewing (renew_loop 2 rest) e),
        λ h. ap one_more (two_errors.1 h),
      ),
      (λ e. cc, λ h. cc),
    )

-- The leader still renews after a sequence of answers exactly if none of them says that another
-- holds the lease and no three in a row are errors.
pub keep_renewing_iff :
    (answers : List Answer)
    → (keep_renewing answers ≡ renewing)
      ↔ ((is_taken answers ≡ false) × (has_three_errors answers ≡ false))
unfolding keep_renewing
keep_renewing_iff answers = (renew_loop-Renews answers).0
