-- ===== src/Duration.antt =====
-- src/duration.rs: the parser of Go-style durations.
pub mod Grammar
pub mod Sound
pub mod Complete
pub mod Panic
mod Tests
use vaultwarden_operator.Prelude.{
  ℕ, zero, suc, ◌+◌, ◌-◌, ◌*◌, ◌%◌, ◌^◌, min, Bool, ◌&&◌, Option, none, some, List, [], ◌∷◌, ltb,
  leb, ◌==◌, if◌then◌else◌, length, Result, ok, err, panic, ◌>>=◌, Str, codes, trim, strip_prefix,
}

-- `std::time::Duration`, in nanoseconds.
abbrev pub Duration : Type 0
Duration = ℕ

abbrev pub from_secs : ℕ → Duration
from_secs n = n * 1000000000

abbrev pub is_zero : Duration → Bool
is_zero d = d == 0

-- The `Err` messages of `parse_duration`, each with the trimmed text that it shows.
pub data DurationError : Type 0 where
  empty_string : DurationError
  unexpected_char invalid_number missing_unit : Str → DurationError
  unknown_unit : Str → ℕ → DurationError

pub data TimeUnit : Type 0 where
  nanos micros millis secs mins hours : TimeUnit

abbrev pub u64_max : ℕ
u64_max = 2 ^ 64 - 1

abbrev pub is_ascii_digit : ℕ → Bool
is_ascii_digit c = leb b'0' c && leb c b'9'

-- `remaining` cut at its first character that is no digit
unfoldable pub split_number : Str → Str × Str
split_number [] = ([], [])
split_number (c ∷ r) =
    if is_ascii_digit c then (c ∷ (split_number r).0, (split_number r).1) else ([], c ∷ r)

-- the number that digits spell behind `n`
unfoldable pub decimal : ℕ → Str → ℕ
decimal n [] = n
decimal n (c ∷ r) = decimal (n * 10 + (c - b'0')) r

-- `str::parse::<u64>` on digits: it fails where the number does not fit.
unfoldable pub parse_u64 : Str → Option ℕ
unfolding decimal
parse_u64 r = if leb (decimal 0 r) u64_max then some (decimal 0 r) else none

abbrev pub strip_unit_from : List (Str × TimeUnit) → Str → Option (TimeUnit × Str)
strip_unit_from [] r = none
strip_unit_from ((p, u) ∷ rest) r = elim (strip_prefix p r) [
  | none ↦ strip_unit_from rest r
  | some r' ↦ some (u, r')
]

abbrev pub unit_prefixes : List (Str × TimeUnit)
unit_prefixes =
    (codes "ns", nanos)
    ∷ (codes "µs", micros)
    ∷ (codes "us", micros)
    ∷ (codes "ms", millis)
    ∷ (codes "s", secs)
    ∷ (codes "m", mins)
    ∷ (codes "h", hours)
    ∷ []

-- the chain of `strip_prefix` tests
unfoldable pub strip_unit : Str → Option (TimeUnit × Str)
unfolding strip_prefix
strip_unit = strip_unit_from unit_prefixes

-- `num * 60` and `num * 3600` are not checked: a release build wraps around.
unfoldable pub unit_secs : TimeUnit → ℕ → ℕ
unit_secs secs num = num
unit_secs mins num = (num * 60) % 2 ^ 64
unit_secs hours num = (num * 3600) % 2 ^ 64
unit_secs _ num = 0

-- `u64::saturating_add`
unfoldable pub saturating_add : ℕ → ℕ → ℕ
saturating_add a b = min (a + b) u64_max

-- `&remaining[..1]` in the last error message panics if the first character is longer than a byte.
abbrev pub no_unit : {A : Type 0} → Str → ℕ → Result DurationError A
no_unit text c = if ltb c 128 then err (unknown_unit text c) else panic

-- the digits at the front of `remaining`, as a number, and what is behind them
unfoldable pub number_of : Str → Str → Str → Result DurationError (ℕ × Str)
unfolding parse_u64
number_of text [] rem = err (unexpected_char text)
number_of text (d ∷ ds) rem = elim (parse_u64 (d ∷ ds)) [
  | none ↦ err (invalid_number text)
  | some num ↦ ok (num, rem)
]

unfoldable pub read_number : Str → Str → Result DurationError (ℕ × Str)
unfolding number_of split_number
read_number text remaining = number_of text (split_number remaining).0 (split_number remaining).1

unfoldable pub read_unit : Str → Str → Result DurationError (TimeUnit × Str)
read_unit text [] = err (missing_unit text)
read_unit text (c ∷ r) = elim (strip_unit (c ∷ r)) [ none ↦ no_unit text c | some p ↦ ok p ]

-- one round of the `while` loop: the seconds that it adds, and the new `remaining`
unfoldable pub read_component : Str → Str → Result DurationError (ℕ × Str)
read_component text remaining = do
  (num, behind) ← read_number text remaining
  (u, rest) ← read_unit text behind
  ok (unit_secs u num, rest)

-- The `while` loop, on fuel: a round takes a character, so the length of the text is enough fuel.
unfoldable pub duration_loop : ℕ → Str → Str → ℕ → Result DurationError Duration
duration_loop fuel text [] total = ok (from_secs total)
duration_loop zero text (c ∷ r) total = panic
duration_loop (suc fuel) text (c ∷ r) total = do
  (added, rest) ← read_component text (c ∷ r)
  duration_loop fuel text rest (saturating_add total added)

abbrev pub parse_trimmed : Str → Result DurationError Duration
parse_trimmed [] = err empty_string
parse_trimmed (c ∷ r) = duration_loop (length (c ∷ r)) (c ∷ r) (c ∷ r) 0

unfoldable pub parse_duration : Str → Result DurationError Duration
parse_duration text = parse_trimmed (trim text)
