-- ===== src/Duration/Tests.antt =====
-- Runs of `parse_duration`, and the theorems at concrete inputs.
use vaultwarden_operator.Prelude.{
  min, ◌≡◌, refl, ◌↔◌, List, [], ◌∷◌, arith, All, ok, err, panic, Str, codes, trim,
}
use vaultwarden_operator.Duration.{
  from_secs, unexpected_char, missing_unit, unknown_unit, mins, hours, u64_max, decimal, strip_unit,
  unit_secs, saturating_add, read_number, read_unit, read_component, duration_loop, parse_duration,
}
use vaultwarden_operator.Duration.Grammar.{
  Component, IsNumber, IsComponent, text_of, unit_nanos, sum_spans, coarse,
}
use vaultwarden_operator.Duration.Sound.{IsParsed, parse_duration_sound}
use vaultwarden_operator.Duration.Complete.{parse_duration_complete}
use vaultwarden_operator.Duration.Panic.{BadUnit, parse_duration_panic_iff}

parse_duration_tests :
    (parse_duration (codes " 1h30m") ≡ ok (from_secs 5400))
    × (parse_duration (codes "5x") ≡ err (unknown_unit (codes "5x") b'x'))
    × (parse_duration (codes "5µs1ms2m") ≡ ok (from_secs 120))
    × (parse_duration (codes "1000ms") ≡ ok 0)
    × (parse_duration (codes "5é") ≡ panic)
    × (parse_duration (codes "5") ≡ err (missing_unit (codes "5")))
    × (parse_duration (codes "x") ≡ err (unexpected_char (codes "x")))
unfolding parse_duration duration_loop read_component read_unit read_number strip_unit unit_secs
    saturating_add trim
parse_duration_tests = (refl, refl, refl, refl, refl, refl, refl)

abbrev one_hour_thirty : List Component
one_hour_thirty =
    record { digits = codes "1"; suffix = codes "h"; unit = hours }
    ∷ record { digits = codes "30"; suffix = codes "m"; unit = mins }
    ∷ []

one_hour_thirty-IsComponent : All IsComponent one_hour_thirty
unfolding decimal
one_hour_thirty-IsComponent = ground arith

parse_duration_complete_example :
    parse_duration (codes " 1h30m")
    ≡ ok (min (sum_spans (coarse one_hour_thirty)) (from_secs u64_max))
unfolding text_of trim unit_nanos coarse decimal
parse_duration_complete_example =
    parse_duration_complete (codes " 1h30m") one_hour_thirty (cc) one_hour_thirty-IsComponent
      (omega arith) refl

parse_duration_sound_example : IsParsed (trim (codes " 1h30m")) (from_secs 5400)
parse_duration_sound_example =
    parse_duration_sound (codes " 1h30m") (from_secs 5400) parse_duration_tests.0

parse_duration_panic_iff_example :
    (parse_duration (codes "5é") ≡ panic) ↔ BadUnit (trim (codes "5é"))
parse_duration_panic_iff_example = parse_duration_panic_iff (codes "5é")

abbrev many : Str
many = codes "307445734561825861"

many-IsNumber : IsNumber many
unfolding decimal
many-IsNumber = ground arith
