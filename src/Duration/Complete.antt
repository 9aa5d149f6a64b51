-- ===== src/Duration/Complete.antt =====
-- Which texts `parse_duration` of src/duration.rs accepts.
use vaultwarden_operator.Prelude.{
  ℕ, zero, suc, ◌+◌, ◌*◌, ◌%◌, ◌^◌, ◌≤◌, ◌<◌, min, ◌≡◌, refl, ap, ◌∙◌, ◌≢◌, inl, inr, Bool-cases,
  leb, true, false, some, List, [], ◌∷◌, ◌++◌, append_assoc, append-nil, arith, le→leb, length, All,
  In, ok, Str, codes, trim,
}
use vaultwarden_operator.Duration.{
  from_secs, TimeUnit, nanos, micros, millis, secs, mins, hours, u64_max, is_ascii_digit,
  split_number, decimal, parse_u64, unit_prefixes, strip_unit, unit_secs, saturating_add, number_of,
  read_number, read_unit, read_component, duration_loop, parse_trimmed, parse_duration,
}
use vaultwarden_operator.Duration.Grammar.{
  Component, IsDigit, IsNumber, IsComponent, text_of, total_from, unit_nanos, span, sum_spans,
  is_coarse, coarse, NoS, NoS-number, length-component,
}

abbrev pub NoDigit : Str → Type 0
NoDigit [] = Unit
NoDigit (c ∷ r) = is_ascii_digit c ≡ false

pub split_number_complete :
    (ds r : Str) → All IsDigit ds → NoDigit r → split_number (ds ++ r) ≡ (ds, r)
unfolding split_number
split_number_complete [] [] h n = refl
split_number_complete [] (c ∷ r) h n = ground arith
split_number_complete (d ∷ ds) r (p, h) n = ground (arith, split_number_complete ds r h n)

pub strip_unit_complete :
    (p r : Str) (u : TimeUnit)
    → In (p, u) unit_prefixes
    → NoS r
    → (strip_unit (p ++ r) ≡ some (u, r)) × NoDigit (p ++ r) × (p ≢ [])
unfolding strip_unit
strip_unit_complete p [] u i n = ground arith
strip_unit_complete p (c ∷ r) u i n = ground arith

pub read_number_complete :
    (text ds r : Str) → IsNumber ds → NoDigit r → read_number text (ds ++ r) ≡ ok (decimal 0 ds, r)
unfolding read_number number_of parse_u64
read_number_complete text ds r (ne, h, fits) n = rw (split_number_complete ds r h n) (go ds ne fits)
  where
    go : (ds : Str) → ds ≢ [] → decimal 0 ds ≤ u64_max → number_of text ds r ≡ ok (decimal 0 ds, r)
    go [] ne fits = absurd (ne refl)
    go (d ∷ ds) ne fits = rw (le→leb (decimal 0 (d ∷ ds)) u64_max fits, number_of, parse_u64) refl

pub read_unit_complete :
    (text p r : Str) (u : TimeUnit)
    → In (p, u) unit_prefixes
    → NoS r
    → read_unit text (p ++ r) ≡ ok (u, r)
unfolding read_unit
read_unit_complete text [] r u i n = absurd ((strip_unit_complete [] r u i n).2 refl)
read_unit_complete text (c ∷ p) r u i n = rw ((strip_unit_complete (c ∷ p) r u i n).0, read_unit)

pub read_component_complete :
    (text r : Str) (k : Component)
    → IsComponent k
    → NoS r
    → read_component text (k.digits ++ (k.suffix ++ r))
      ≡ ok (unit_secs k.unit (decimal 0 k.digits), r)
unfolding read_component
read_component_complete text r k (num, i) n = rw (
  read_number_complete text k.digits (k.suffix ++ r) num
      (strip_unit_complete k.suffix r k.unit i n).1,
  read_unit_complete text k.suffix r k.unit i n,
)

loop_step :
    (fuel : ℕ) (text whole r : Str) (total : ℕ) (k : Component)
    → IsComponent k
    → NoS r
    → whole ≡ k.digits ++ (k.suffix ++ r)
    → length whole ≤ fuel
    → (fuel' : ℕ) × (length r ≤ fuel')
      × (duration_loop fuel text whole total
          ≡ duration_loop fuel' text r
              (saturating_add total (unit_secs k.unit (decimal 0 k.digits))))
unfolding duration_loop
loop_step fuel text [] r total k is n e fits =
    absurd (omega (arith, length-component k.digits k.suffix r is.0.0, ap length e))
loop_step zero text (c ∷ w) r total k is n e fits = absurd (omega arith)
loop_step (suc fuel) text (c ∷ w) r total k is n e fits = (
  fuel,
  omega (arith, length-component k.digits k.suffix r is.0.0, ap length e),
  rw (e, read_component_complete text r k is n),
)

NoS-text_append :
    (ks : List Component) (tail : Str) → All IsComponent ks → NoS tail → NoS (text_of ks ++ tail)
unfolding text_of
NoS-text_append [] tail h n = n
NoS-text_append (k ∷ ks) tail ((num, i), h) n = rw append_assoc (NoS-number k.digits _ num.0 num.1)

-- The loop reads well-formed components and comes to what is behind them with fuel left.
pub loop_reads :
    (ks : List Component) (fuel : ℕ) (text tail : Str) (total : ℕ)
    → All IsComponent ks
    → NoS tail
    → length (text_of ks ++ tail) ≤ fuel
    → (fuel' : ℕ) × (length tail ≤ fuel')
      × (duration_loop fuel text (text_of ks ++ tail) total
          ≡ duration_loop fuel' text tail (total_from total ks))
unfolding text_of total_from
loop_reads [] fuel text tail total h n fits = (fuel, fits, refl)
loop_reads (k ∷ ks) fuel text tail total (is, h) n fits =
    let e = (ap (λ (t : Str). k.digits ++ t) (append_assoc k.suffix (text_of ks) tail)) in
    let (f, fits', step) =
      loop_step fuel text (text_of (k ∷ ks) ++ tail) (text_of ks ++ tail) total k is
        (NoS-text_append ks tail h n) (append_assoc k.digits _ tail ∙ e) fits in
    let (f', fits'', rest) = loop_reads ks f text tail _ h n fits' in (f', fits'', step ∙ rest)

-- a component whose unit is less than a second counts nothing, and the seconds of the others are
-- theirs, where they fit
fine_secs : (u : TimeUnit) (n : ℕ) → leb 1000000000 (unit_nanos u) ≡ false → unit_secs u n ≡ 0
unfolding unit_secs unit_nanos
fine_secs nanos n fine = refl
fine_secs micros n fine = refl
fine_secs millis n fine = refl
fine_secs secs n fine = cc
fine_secs mins n fine = cc
fine_secs hours n fine = cc

coarse_secs :
    (u : TimeUnit) (n : ℕ)
    → leb 1000000000 (unit_nanos u) ≡ true
    → n * unit_nanos u ≤ from_secs u64_max
    → (from_secs (unit_secs u n) ≡ n * unit_nanos u)
unfolding unit_secs unit_nanos
coarse_secs nanos n is small = cc
coarse_secs micros n is small = cc
coarse_secs millis n is small = cc
coarse_secs secs n is small = refl
coarse_secs mins n is small = omega arith
coarse_secs hours n is small = omega arith

total_from-eq-sum :
    (total : ℕ) (ks : List Component)
    → total ≤ u64_max
    → All (λ k. span k ≤ from_secs u64_max) (coarse ks)
    → from_secs (total_from total ks)
      ≡ min (from_secs total + sum_spans (coarse ks)) (from_secs u64_max)
unfolding total_from sum_spans saturating_add coarse
total_from-eq-sum total [] fits h = omega arith
total_from-eq-sum total (k ∷ ks) fits h = elim (Bool-cases (is_coarse k)) [
  | inl is ↦
      let (small, rest) = rw is at h in
      let same = coarse_secs k.unit (decimal 0 k.digits) is small in
      let n = unit_secs k.unit (decimal 0 k.digits) in
      let later = total_from-eq-sum (min (total + n) u64_max) ks (omega arith) rest in
      rw is (omega arith)
  | inr fine ↦
      let rest = rw fine at h in
      let same = fine_secs k.unit (decimal 0 k.digits) fine in
      let n = unit_secs k.unit (decimal 0 k.digits) in
      let later = total_from-eq-sum (min (total + n) u64_max) ks (omega arith) rest in
      rw fine (omega arith)
]

pub loop_at_end :
    (fuel : ℕ) (text : Str) (total : ℕ) → duration_loop fuel text [] total ≡ ok (from_secs total)
unfolding duration_loop
loop_at_end zero text total = refl
loop_at_end (suc fuel) text total = refl

trimmed_complete :
    (r : Str) (ks : List Component)
    → ks ≢ []
    → All IsComponent ks
    → r ≡ text_of ks
    → parse_trimmed r ≡ ok (from_secs (total_from 0 ks))
unfolding text_of
trimmed_complete [] [] ne h e = absurd (ne refl)
trimmed_complete [] (k ∷ ks) ne (is, h) e =
    absurd (omega (arith, length-component k.digits k.suffix (text_of ks) is.0.0, ap length e))
trimmed_complete (c ∷ r) ks ne h e =
    let enough : length (text_of ks ++ []) ≤ suc (length r) =
      rw append-nil (omega (arith, ap length e)) in
    let (f, _, reads) = loop_reads ks (length (c ∷ r)) (c ∷ r) [] 0 h tt enough in
    cc (e, append-nil (text_of ks), reads, loop_at_end f (c ∷ r) (total_from 0 ks))

-- A text that spells components is accepted, if the spans of those whose unit is a second or more
-- fit in the seconds of a `u64` each. Its value is the sum of these spans, held at the largest
-- `u64` of seconds: components in nanoseconds, microseconds and milliseconds count nothing.
pub parse_duration_complete :
    (text : Str) (ks : List Component)
    → ks ≢ []
    → All IsComponent ks
    → All (λ k. span k ≤ from_secs u64_max) (coarse ks)
    → trim text ≡ text_of ks
    → parse_duration text ≡ ok (min (sum_spans (coarse ks)) (from_secs u64_max))
unfolding parse_duration
parse_duration_complete text ks ne are fit e =
    trimmed_complete (trim text) ks ne are e
    ∙ ap ok (total_from-eq-sum 0 ks (omega arith) fit ∙ omega arith)

-- One number of minutes whose seconds do not fit in a `u64` is accepted with its seconds modulo
-- 2 ^ 64, which are fewer: the multiplication wraps around and is not held at the largest `u64`.
pub parse_duration_minutes_wrap :
    (text ds : Str)
    → IsNumber ds
    → trim text ≡ ds ++ codes "m"
    → u64_max < decimal 0 ds * 60
    → (parse_duration text ≡ ok (from_secs ((decimal 0 ds * 60) % 2 ^ 64)))
      × ((decimal 0 ds * 60) % 2 ^ 64 < decimal 0 ds * 60)
unfolding parse_duration text_of total_from unit_secs saturating_add
parse_duration_minutes_wrap text ds num e big = (
  trimmed_complete (trim text) (record { digits = ds; suffix = codes "m"; unit = mins } ∷ []) (cc)
        ((num, inr (inr (inr (inr (inr (inl refl)))))), tt) e
      ∙ ap (λ n. ok (from_secs n)) (omega arith),
  omega arith,
)
