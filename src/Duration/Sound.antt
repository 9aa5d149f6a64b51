-- ===== src/Duration/Sound.antt =====
-- What a text is made of that `parse_duration` of src/duration.rs accepts.
use vaultwarden_operator.Prelude.{
  ℕ, zero, suc, ◌+◌, ◌*◌, ◌/◌, ◌%◌, ◌^◌, min, ◌≤◌, ◌≡◌, refl, ◌≢◌, inl, inr, some, List, [], ◌∷◌,
  ◌++◌, arith, Option-cases, length, All, In, ok, >>=-eq-ok, Str, trim, strip_prefix,
}
use vaultwarden_operator.Duration.{
  Duration, from_secs, TimeUnit, nanos, micros, millis, secs, mins, hours, u64_max, split_number,
  decimal, parse_u64, strip_unit_from, unit_prefixes, strip_unit, unit_secs, saturating_add,
  number_of, read_number, read_unit, read_component, duration_loop, parse_trimmed, parse_duration,
}
use vaultwarden_operator.Duration.Grammar.{
  Component, IsDigit, IsComponent, text_of, total_from, unit_nanos, sum_wrapped, sum_spans,
}

pub split_number_sound :
    (r : Str) → ((split_number r).0 ++ (split_number r).1 ≡ r) × All IsDigit (split_number r).0
unfolding split_number
split_number_sound [] = (refl, tt)
split_number_sound (c ∷ r) = ground (arith, split_number_sound r)

strip_prefix_sound : (p r rest : Str) → strip_prefix p r ≡ some rest → r ≡ p ++ rest
unfolding strip_prefix
strip_prefix_sound [] r rest e = cc
strip_prefix_sound (a ∷ p) [] rest e = cc
strip_prefix_sound (a ∷ p) (c ∷ r) rest e = ground (arith, strip_prefix_sound p r rest)

strip_unit_from_sound :
    (table : List (Str × TimeUnit)) (r rest : Str) (u : TimeUnit)
    → strip_unit_from table r ≡ some (u, rest)
    → (p : Str) × In (p, u) table × (r ≡ p ++ rest)
strip_unit_from_sound [] r rest u e = cc
strip_unit_from_sound ((p, v) ∷ table) r rest u e = elim (Option-cases (strip_prefix p r)) [
  | inl missed ↦
      let (q, here, same) = strip_unit_from_sound table r rest u (ground arith) in
      (q, inr here, same)
  | inr (r', found) ↦ (p, inl (ground arith), strip_prefix_sound p r rest (ground arith))
]

pub number_of_sound :
    (text ds rem rest : Str) (n : ℕ)
    → number_of text ds rem ≡ ok (n, rest)
    → (ds ≢ []) × (decimal 0 ds ≤ u64_max) × (n ≡ decimal 0 ds) × (rest ≡ rem)
unfolding number_of parse_u64
number_of_sound text [] rem rest n e = cc
number_of_sound text (d ∷ ds) rem rest n e = ground arith

read_unit_sound :
    (text r rest : Str) (u : TimeUnit)
    → read_unit text r ≡ ok (u, rest)
    → (p : Str) × In (p, u) unit_prefixes × (r ≡ p ++ rest)
unfolding read_unit strip_unit
read_unit_sound text [] rest u e = cc
read_unit_sound text (c ∷ r) rest u e =
    elim (Option-cases (strip_unit_from unit_prefixes (c ∷ r))) [
      | inl missed ↦ absurd (ground arith)
      | inr ((v, r'), found) ↦ strip_unit_from_sound unit_prefixes (c ∷ r) rest u (ground arith)
    ]

-- One round of the loop reads a component.
pub read_component_sound :
    (text r rest : Str) (n : ℕ)
    → read_component text r ≡ ok (n, rest)
    → (k : Component) × IsComponent k
      × (r ≡ k.digits ++ (k.suffix ++ rest))
      × (n ≡ unit_secs k.unit (decimal 0 k.digits))
unfolding read_component read_number
read_component_sound text r rest n e =
    let (ds, rem) = split_number r in
    let (spelled, digits) = split_number_sound r in
    let ((num, behind), read, e') = >>=-eq-ok (number_of text ds rem) _ e in
    let ((u, rest'), unit, e'') = >>=-eq-ok (read_unit text behind) _ e' in
    let (nonempty, fits, num_eq, behind_eq) = number_of_sound text ds rem behind num read in
    let (p, known, behind_text) = read_unit_sound text behind rest' u unit in
    (
      record { digits = ds; suffix = p; unit = u },
      ((nonempty, digits, fits), known),
      ground arith,
      ground arith,
    )

loop_sound :
    (fuel : ℕ) (text r : Str) (total : ℕ) (d : Duration)
    → duration_loop fuel text r total ≡ ok d
    → (ks : List Component) × All IsComponent ks
      × (r ≡ text_of ks)
      × (d ≡ from_secs (total_from total ks))
unfolding duration_loop text_of total_from
loop_sound zero text [] total d e = ([], tt, refl, ground arith)
loop_sound zero text (c ∷ r) total d e = cc
loop_sound (suc fuel) text [] total d e = ([], tt, refl, ground arith)
loop_sound (suc fuel) text (c ∷ r) total d e =
    let ((added, rest), read, e') = >>=-eq-ok (read_component text (c ∷ r)) _ e in
    let (k, is, spelled, added_eq) = read_component_sound text (c ∷ r) rest added read in
    let (ks, are, rest_eq, d_eq) = loop_sound fuel text rest (saturating_add total added) d e' in
    (k ∷ ks, (is, are), cc, cc)

ne-nil_of_text_of : (ks : List Component) {c : ℕ} {r : Str} → c ∷ r ≡ text_of ks → ks ≢ []
unfolding text_of
ne-nil_of_text_of [] e = absurd (ground arith)
ne-nil_of_text_of (k ∷ ks) e = cc

unit_secs_wrapped :
    (u : TimeUnit) (n : ℕ)
    → n ≤ u64_max
    → unit_secs u n ≡ (n * (unit_nanos u / 1000000000)) % 2 ^ 64
unfolding unit_secs unit_nanos
unit_secs_wrapped nanos n fits = omega arith
unit_secs_wrapped micros n fits = omega arith
unit_secs_wrapped millis n fits = omega arith
unit_secs_wrapped secs n fits = omega arith
unit_secs_wrapped mins n fits = refl
unit_secs_wrapped hours n fits = refl

wrapped_span :
    (u : TimeUnit) (n : ℕ)
    → from_secs ((n * (unit_nanos u / 1000000000)) % 2 ^ 64) ≤ n * unit_nanos u
unfolding unit_nanos
wrapped_span nanos n = omega arith
wrapped_span micros n = omega arith
wrapped_span millis n = omega arith
wrapped_span secs n = omega arith
wrapped_span mins n = omega arith
wrapped_span hours n = omega arith

total_from-wrapped :
    (total : ℕ) (ks : List Component)
    → total ≤ u64_max
    → All IsComponent ks
    → total_from total ks ≡ min (total + sum_wrapped ks) u64_max
unfolding total_from sum_wrapped saturating_add
total_from-wrapped total [] fits h = omega arith
total_from-wrapped total (k ∷ ks) fits (is, h) =
    let same = unit_secs_wrapped k.unit (decimal 0 k.digits) is.0.2 in
    let n = unit_secs k.unit (decimal 0 k.digits) in
    let later = total_from-wrapped (min (total + n) u64_max) ks (omega arith) h in omega arith

sum_wrapped-sum_spans : (ks : List Component) → from_secs (sum_wrapped ks) ≤ sum_spans ks
unfolding sum_wrapped sum_spans
sum_wrapped-sum_spans [] = omega arith
sum_wrapped-sum_spans (k ∷ ks) =
    let h = wrapped_span k.unit (decimal 0 k.digits) in
    let later = sum_wrapped-sum_spans ks in omega arith

-- what an accepted text is, and its duration
abbrev pub IsParsed : Str → Duration → Type 0
IsParsed r d =
    (ks : List Component) × (ks ≢ [])
    × All IsComponent ks
    × (r ≡ text_of ks)
    × (d ≡ from_secs (min (sum_wrapped ks) u64_max))
    × (d ≤ sum_spans ks)

trimmed_sound : (r : Str) (d : Duration) → parse_trimmed r ≡ ok d → IsParsed r d
trimmed_sound [] d e = absurd (ground arith)
trimmed_sound (c ∷ r) d e =
    let (ks, are, spelled, value) = loop_sound (length (c ∷ r)) (c ∷ r) (c ∷ r) 0 d e in
    let total = total_from-wrapped 0 ks (omega arith) are in
    let less = sum_wrapped-sum_spans ks in
    (ks, ne-nil_of_text_of ks spelled, are, spelled, omega arith, omega arith)

-- An accepted text is, trimmed, a nonempty list of components. Its value is the sum of their seconds,
-- held at the largest `u64`, where each counts its number of the whole seconds of its unit, modulo
-- 2 ^ 64, and so nothing if the unit is less than a second. It is never more than the sum of the
-- spans that the components stand for.
pub parse_duration_sound :
    (text : Str) (d : Duration) → parse_duration text ≡ ok d → IsParsed (trim text) d
unfolding parse_duration
parse_duration_sound text d e = trimmed_sound (trim text) d e
