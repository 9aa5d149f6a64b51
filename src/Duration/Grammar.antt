-- ===== src/Duration/Grammar.antt =====
-- What a duration of src/duration.rs is, without the parser: components, each a number and a unit.
use vaultwarden_operator.Prelude.{
  ℕ, ◌+◌, ◌*◌, ◌/◌, ◌%◌, ◌^◌, leb, if◌then◌else◌, Bool, ◌≤◌, ◌<◌, ◌≡◌, refl, ◌≢◌, true, List, [],
  ◌∷◌, ◌++◌, arith, length, length-append, All, In, Str,
}
use vaultwarden_operator.Duration.{
  Duration, TimeUnit, nanos, micros, millis, secs, mins, hours, u64_max, is_ascii_digit, decimal,
  unit_prefixes, unit_secs, saturating_add,
}

pub record Component : Type 0 where
  pub digits : Str
  pub suffix : Str
  pub unit : TimeUnit

abbrev pub IsDigit : ℕ → Type 0
IsDigit c = is_ascii_digit c ≡ true

-- one or more digits whose number fits in a `u64`
abbrev pub IsNumber : Str → Type 0
IsNumber ds = (ds ≢ []) × All IsDigit ds × (decimal 0 ds ≤ u64_max)

abbrev pub IsComponent : Component → Type 0
IsComponent k = IsNumber k.digits × In (k.suffix, k.unit) unit_prefixes

-- the components, written one behind the other
unfoldable pub text_of : List Component → Str
text_of [] = []
text_of (k ∷ ks) = k.digits ++ (k.suffix ++ text_of ks)

-- what the loop adds up
unfoldable pub total_from : ℕ → List Component → ℕ
total_from total [] = total
total_from total (k ∷ ks) =
    total_from (saturating_add total (unit_secs k.unit (decimal 0 k.digits))) ks

-- what a unit is, in nanoseconds
unfoldable pub unit_nanos : TimeUnit → ℕ
unit_nanos nanos = 1
unit_nanos micros = 1000
unit_nanos millis = 1000000
unit_nanos secs = 1000000000
unit_nanos mins = 60 * 1000000000
unit_nanos hours = 60 * 60 * 1000000000

-- the duration that a component stands for, and the sum of several
abbrev pub span : Component → Duration
span k = decimal 0 k.digits * unit_nanos k.unit

unfoldable pub sum_spans : List Component → Duration
sum_spans [] = 0
sum_spans (k ∷ ks) = span k + sum_spans ks

-- the components whose unit is a second or more
abbrev pub is_coarse : Component → Bool
is_coarse k = leb 1000000000 (unit_nanos k.unit)

unfoldable pub coarse : List Component → List Component
coarse [] = []
coarse (k ∷ ks) = if is_coarse k then k ∷ coarse ks else coarse ks

-- the whole seconds of the unit, so many times, modulo 2 ^ 64
abbrev pub wrapped_secs : Component → ℕ
wrapped_secs k = (decimal 0 k.digits * (unit_nanos k.unit / 1000000000)) % 2 ^ 64

unfoldable pub sum_wrapped : List Component → ℕ
sum_wrapped [] = 0
sum_wrapped (k ∷ ks) = wrapped_secs k + sum_wrapped ks

-- no `s` in front, which would turn the unit `m` before it into `ms`
abbrev pub NoS : Str → Type 0
NoS [] = Unit
NoS (c ∷ r) = c ≢ b's'

pub NoS-number : (ds r : Str) → ds ≢ [] → All IsDigit ds → NoS (ds ++ r)
NoS-number [] r n h = absurd (n refl)
NoS-number (d ∷ ds) r n (h, _) = ground arith

pub NoS-text_of : (ks : List Component) → All IsComponent ks → NoS (text_of ks)
unfolding text_of
NoS-text_of [] h = tt
NoS-text_of (k ∷ ks) (((n, d, _), _), _) = NoS-number k.digits _ n d

-- Every round of the loop takes at least a character.
pub length-component : (ds p rest : Str) → ds ≢ [] → length rest < length (ds ++ (p ++ rest))
length-component [] p rest n = absurd (n refl)
length-component (d ∷ ds) p rest n =
    omega (arith, length-append ds (p ++ rest), length-append p rest)
