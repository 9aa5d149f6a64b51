-- ===== src/Duration/Panic.antt =====
-- Where `parse_duration` of src/duration.rs panics.
use vaultwarden_operator.Prelude.{
  ℕ, zero, suc, ◌≤◌, ◌≡◌, refl, ap, ◌≢◌, ◌↔◌, inl, inr, none, List, [], ◌∷◌, ◌++◌, append_assoc,
  arith, length, length-append, All, panic, >>=-eq-panic, Str, trim,
}
use vaultwarden_operator.Duration.{
  split_number, strip_unit, saturating_add, number_of, read_number, read_unit, read_component,
  duration_loop, parse_trimmed, parse_duration,
}
use vaultwarden_operator.Duration.Grammar.{
  Component, IsNumber, IsComponent, text_of, total_from, NoS-number, length-component,
}
use vaultwarden_operator.Duration.Sound.{split_number_sound, number_of_sound, read_component_sound}
use vaultwarden_operator.Duration.Complete.{read_number_complete, loop_reads}

-- Components, and then a number before a character of several bytes that begins no unit.
pub record BadUnit (r : Str) : Type 0 where
  pub before : List Component
  pub number : Str
  pub char : ℕ
  pub after : Str
  pub components : All IsComponent before
  pub digits : IsNumber number
  pub wide : 128 ≤ char
  pub unknown : strip_unit (char ∷ after) ≡ none
  pub spelled : r ≡ text_of before ++ (number ++ char ∷ after)

number_of-ne-panic : (text ds rem : Str) → number_of text ds rem ≢ panic
unfolding number_of
number_of-ne-panic text [] rem e = cc
number_of-ne-panic text (d ∷ ds) rem e = ground arith

read_unit_panic :
    (text r : Str)
    → read_unit text r ≡ panic
    → (c : ℕ) × (rest : Str) × (r ≡ c ∷ rest) × (128 ≤ c) × (strip_unit (c ∷ rest) ≡ none)
unfolding read_unit
read_unit_panic text [] e = cc
read_unit_panic text (c ∷ r) e = (c, r, refl, ground arith, ground arith)

component_panic : (text r : Str) → read_component text r ≡ panic → BadUnit r
unfolding read_component read_number text_of
component_panic text r e =
    let (ds, rem) = split_number r in
    let (spelled, digits) = split_number_sound r in
    elim (>>=-eq-panic (number_of text ds rem) _ e) [
      | inl never ↦ absurd (number_of-ne-panic text ds rem never)
      | inr ((num, behind), read, e') ↦
          let (nonempty, fits, num_eq, behind_eq) = number_of_sound text ds rem behind num read in
          elim (>>=-eq-panic (read_unit text behind) _ e') [
            | inl stop ↦
                let (c, rest, behind_text, wide, unknown) = read_unit_panic text behind stop in
                record {
                  before = [];
                  number = ds;
                  char = c;
                  after = rest;
                  components = tt;
                  digits = (nonempty, digits, fits);
                  wide = wide;
                  unknown = unknown;
                  spelled = cc;
                }
            | inr (unit, found, never) ↦ cc
          ]
    ]

BadUnit-cons :
    (k : Component) {r rest : Str}
    → IsComponent k
    → r ≡ k.digits ++ (k.suffix ++ rest)
    → BadUnit rest
    → BadUnit r
unfolding text_of
BadUnit-cons k is e bad =
    let stop = bad.number ++ bad.char ∷ bad.after in
    record {
      before = k ∷ bad.before;
      number = bad.number;
      char = bad.char;
      after = bad.after;
      components = (is, bad.components);
      digits = bad.digits;
      wide = bad.wide;
      unknown = bad.unknown;
      spelled = cc (
        e,
        bad.spelled,
        append_assoc k.digits (k.suffix ++ text_of bad.before) stop,
        append_assoc k.suffix (text_of bad.before) stop,
      );
    }

loop_panic :
    (fuel : ℕ) (text r : Str) (total : ℕ)
    → length r ≤ fuel
    → duration_loop fuel text r total ≡ panic
    → BadUnit r
unfolding duration_loop
loop_panic fuel text [] total fits e = cc
loop_panic zero text (c ∷ r) total fits e = absurd (omega arith)
loop_panic (suc fuel) text (c ∷ r) total fits e =
    elim (>>=-eq-panic (read_component text (c ∷ r)) _ e) [
      | inl stop ↦ component_panic text (c ∷ r) stop
      | inr ((added, rest), read, e') ↦
          let (k, is, spelled, added_eq) = read_component_sound text (c ∷ r) rest added read in
          let bad : BadUnit rest =
            loop_panic fuel text rest (saturating_add total added)
              (omega (arith, length-component k.digits k.suffix rest is.0.0, ap length spelled))
              e' in
          BadUnit-cons k is spelled bad
    ]

read_unit_wide :
    (text rest : Str) (c : ℕ)
    → 128 ≤ c
    → strip_unit (c ∷ rest) ≡ none
    → read_unit text (c ∷ rest) ≡ panic
unfolding read_unit
read_unit_wide text rest c wide unknown = ground arith

component_at_BadUnit :
    (text number rest : Str) (c : ℕ)
    → IsNumber number
    → 128 ≤ c
    → strip_unit (c ∷ rest) ≡ none
    → read_component text (number ++ c ∷ rest) ≡ panic
unfolding read_component
component_at_BadUnit text number rest c num wide unknown =
    rw (read_number_complete text number (c ∷ rest) num (ground arith))
      (rw (read_unit_wide text rest c wide unknown))

loop_stops :
    (fuel : ℕ) (text whole number rest : Str) (total c : ℕ)
    → IsNumber number
    → 128 ≤ c
    → strip_unit (c ∷ rest) ≡ none
    → whole ≡ number ++ c ∷ rest
    → length whole ≤ fuel
    → duration_loop fuel text whole total ≡ panic
unfolding duration_loop
loop_stops fuel text [] number rest total c num wide unknown e fits =
    absurd (omega (arith, ap length e, length-append number (c ∷ rest)))
loop_stops zero text (d ∷ w) number rest total c num wide unknown e fits = absurd (omega arith)
loop_stops (suc fuel) text (d ∷ w) number rest total c num wide unknown e fits =
    rw (e, component_at_BadUnit text number rest c num wide unknown)

loop_at_BadUnit :
    (r : Str) (fuel : ℕ) (text : Str) (total : ℕ)
    → length r ≤ fuel
    → BadUnit r
    → duration_loop fuel text r total ≡ panic
loop_at_BadUnit r fuel text total fits bad =
    let stop = bad.number ++ bad.char ∷ bad.after in
    let (f, fits', reads) =
      loop_reads bad.before fuel text stop total bad.components
        (NoS-number bad.number _ bad.digits.0 bad.digits.1) (rw (← bad.spelled) fits) in
    let stopped =
      loop_stops f text stop bad.number bad.after (total_from total bad.before) bad.char bad.digits
        bad.wide bad.unknown refl fits' in
    cc (bad.spelled, reads, stopped)

not-BadUnit-nil : ¬ BadUnit []
not-BadUnit-nil bad = omega (
  arith,
  ap length bad.spelled,
  length-append (text_of bad.before) (bad.number ++ bad.char ∷ bad.after),
  length-append bad.number (bad.char ∷ bad.after),
)

-- The parser panics exactly on components followed by a number and a character of several bytes
-- that begins no unit.
pub parse_duration_panic_iff : (text : Str) → (parse_duration text ≡ panic) ↔ BadUnit (trim text)
unfolding parse_duration
parse_duration_panic_iff text = go (trim text)
  where
    go : (r : Str) → (parse_trimmed r ≡ panic) ↔ BadUnit r
    go [] = (λ e. absurd (ground arith), λ bad. absurd (not-BadUnit-nil bad))
    go (c ∷ r) = (
      loop_panic (length (c ∷ r)) (c ∷ r) (c ∷ r) 0 (omega arith),
      loop_at_BadUnit (c ∷ r) (length (c ∷ r)) (c ∷ r) 0 (omega arith),
    )
