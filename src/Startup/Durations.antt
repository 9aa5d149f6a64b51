-- ===== src/Startup/Durations.antt =====
-- The durations that src/main.rs reads from the environment.
use vaultwarden_operator.Prelude.{
  zero, suc, ◌<◌, ◌≡◌, refl, sym, ap, subst, ◌⊎◌, inl, inr, false, not, Option, none, some, [], ◌∷◌,
  arith, if◌then◌else◌, Bool-cases, is_empty, Result, ok, err, panic, Str,
}
use vaultwarden_operator.Duration.{Duration, is_zero, DurationError, parse_duration}
use vaultwarden_operator.Startup.{positive_or, env_duration}

above : (a : Duration) → is_zero a ≡ false → 0 < a
above zero z = cc
above (suc a) z = omega arith

positive_or-positive :
    (fallback d : Duration) (r : Result DurationError Duration)
    → positive_or fallback r ≡ ok d
    → ((d ≡ fallback) ⊎ (r ≡ ok d)) × ((d ≡ fallback) ⊎ (0 < d))
positive_or-positive fallback d (ok a) e = elim (Bool-cases (is_zero a)) [
  | inl z ↦ let same : fallback ≡ d = cc in (inl (sym same), inl (sym same))
  | inr z ↦
      let same : a ≡ d = cc in
      (inr (ap (λ x. ok x) same), inr (subst (λ x. 0 < x) same (above a z)))
]
positive_or-positive fallback d (err x) e = (inl cc, inl cc)
positive_or-positive fallback d panic e = cc

-- With a positive default, a duration from the environment is positive: it is the default, or what
-- the text of the variable says.
pub env_duration_positive :
    (env : Str → Option Str) (key : Str) (fallback d : Duration)
    → 0 < fallback
    → env_duration env key fallback ≡ ok d
    → (0 < d) × ((d ≡ fallback) ⊎ ((v : Str) × (env key ≡ some v) × (parse_duration v ≡ ok d)))
unfolding env_duration
env_duration_positive env key fallback d p e = go (env key) refl e
  where
    go :
        (o : Option Str)
        → env key ≡ o
        → elim o [
          | none ↦ ok fallback
          | some v ↦
              if not (is_empty v) then positive_or fallback (parse_duration v) else ok fallback
        ]
          ≡ ok d
        → (0 < d) × ((d ≡ fallback) ⊎ ((v : Str) × (env key ≡ some v) × (parse_duration v ≡ ok d)))
    go none k h = let same : fallback ≡ d = cc in (omega arith, inl (sym same))
    go (some []) k h = let same : fallback ≡ d = cc in (omega arith, inl (sym same))
    go (some (c ∷ v)) k h =
        let (from_text, big) = positive_or-positive fallback d (parse_duration (c ∷ v)) h in
        (
          elim big [ inl same ↦ omega arith | inr q ↦ q ],
          elim from_text [ inl same ↦ inl same | inr q ↦ inr (c ∷ v, k, q) ],
        )
