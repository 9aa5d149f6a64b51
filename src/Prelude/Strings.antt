-- ===== src/Prelude/Strings.antt =====
-- The `str` and integer routines of the standard library that the sources call: `split_once`,
-- `splitn`, `parse::<u8>` and `String::from_utf8`.
use Prim.Native.Nat.{ℕ, zero, suc, ◌+◌, ◌-◌, ◌*◌}
use mathlib.Core.Path.{◌≡◌, refl}
use mathlib.Core.Bool.{Bool, false, ◌&&◌, not}
use mathlib.Core.Option.{Option, none, some}
use mathlib.Core.List.{List, [], ◌∷◌, ◌++◌}
use native.Mathlib.Omega.{arith}
use vaultwarden_operator.Prelude.Tests.{◌==◌, ltb, leb, if◌then◌else◌}
use vaultwarden_operator.Prelude.Lists.{All}
use vaultwarden_operator.Prelude.Text.{Str, Bytes, codes}

-- `str::split_once` at a character
unfoldable pub split_once : ℕ → Str → Option (Str × Str)
split_once sep [] = none
split_once sep (c ∷ s) =
    if c == sep
    then some ([], s)
    else elim (split_once sep s) [ none ↦ none | some (a, b) ↦ some (c ∷ a, b) ]

-- `str::splitn`: at most `n` parts, of which the last holds the rest
unfoldable pub splitn : ℕ → ℕ → Str → List Str
splitn zero sep s = []
splitn (suc zero) sep s = s ∷ []
splitn (suc (suc n)) sep s = elim (split_once sep s) [
  | none ↦ s ∷ []
  | some (a, b) ↦ a ∷ splitn (suc n) sep b
]

abbrev pub Lacks : ℕ → Str → Type 0
Lacks sep s = All (λ c. (c == sep) ≡ false) s

pub split_once-append :
    (sep : ℕ) (a b : Str) → Lacks sep a → split_once sep (a ++ sep ∷ b) ≡ some (a, b)
unfolding split_once
split_once-append sep [] b h = ground arith
split_once-append sep (c ∷ a) b (n, h) = ground (arith, split_once-append sep a b h)

pub split_once-Lacks : (sep : ℕ) (a : Str) → Lacks sep a → split_once sep a ≡ none
unfolding split_once
split_once-Lacks sep [] h = refl
split_once-Lacks sep (c ∷ a) (n, h) = ground (arith, split_once-Lacks sep a h)

-- the text before the first separator holds none
pub split_once_sound :
    (sep : ℕ) (s a b : Str) → split_once sep s ≡ some (a, b) → (s ≡ a ++ sep ∷ b) × Lacks sep a
unfolding split_once
split_once_sound sep [] a b e = cc
split_once_sound sep (c ∷ s) [] b e = ground arith
split_once_sound sep (c ∷ s) (d ∷ a) b e = ground (arith, split_once_sound sep s a b)

-- two and three parts that hold no separator are told apart
pub splitn_two :
    (n sep : ℕ) (a b : Str)
    → Lacks sep a
    → Lacks sep b
    → splitn (suc (suc (suc n))) sep (a ++ sep ∷ b) ≡ a ∷ b ∷ []
unfolding splitn
splitn_two n sep a b ha hb =
    rw (split_once-append sep a b ha, splitn) (rw (split_once-Lacks sep b hb, splitn))

pub splitn_three :
    (n sep : ℕ) (a b d : Str)
    → Lacks sep a
    → Lacks sep b
    → Lacks sep d
    → splitn (suc (suc (suc (suc n)))) sep (a ++ sep ∷ (b ++ sep ∷ d)) ≡ a ∷ b ∷ d ∷ []
unfolding splitn
splitn_three n sep a b d ha hb hd =
    rw (split_once-append sep a (b ++ sep ∷ d) ha, splitn) (rw (splitn_two n sep b d hb hd))

abbrev is_digit : ℕ → Bool
is_digit c = leb b'0' c && leb c b'9'

-- the digits behind `n`, while the number stays within `top`
unfoldable pub small_decimal : ℕ → ℕ → Str → Option ℕ
small_decimal top n [] = some n
small_decimal top n (c ∷ s) =
    if is_digit c && leb (n * 10 + (c - b'0')) top
    then small_decimal top (n * 10 + (c - b'0')) s
    else none

abbrev digits_to_u8 : Str → Option ℕ
digits_to_u8 [] = none
digits_to_u8 (c ∷ s) = small_decimal 255 0 (c ∷ s)

-- `str::parse::<u8>`: digits behind an optional `+`
unfoldable pub parse_u8 : Str → Option ℕ
unfolding small_decimal
parse_u8 [] = none
parse_u8 (c ∷ s) = if c == b'+' then digits_to_u8 s else digits_to_u8 (c ∷ s)

abbrev is_cont : ℕ → Bool
is_cont b = leb 0x80 b && leb b 0xbf

-- The length of the sequence that a first byte begins, and its payload.
abbrev lead : ℕ → Option (ℕ × ℕ)
lead b =
    if ltb b 0x80
    then some (0, b)
    else if ltb b 0xc2
    then none
    else if ltb b 0xe0
    then some (1, b - 0xc0)
    else if ltb b 0xf0
    then some (2, b - 0xe0)
    else if ltb b 0xf5
    then some (3, b - 0xf0)
    else none

-- the least code point that needs `n` continuation bytes
abbrev least_of : ℕ → ℕ
least_of zero = 0
least_of (suc zero) = 0x80
least_of (suc (suc zero)) = 0x800
least_of (suc (suc (suc n))) = 0x10000

abbrev is_scalar : ℕ → ℕ → Bool
is_scalar n c = leb (least_of n) c && (leb c 0x10ffff && not (leb 0xd800 c && leb c 0xdfff))

-- What a decoder has read of the current sequence: its length, the bytes left and the payload.
pub data Utf8State : Type 0 where
  between : Utf8State
  within : (len left payload : ℕ) → Utf8State

abbrev keep_char : ℕ → Option Str → Option Str
keep_char c none = none
keep_char c (some s) = some (c ∷ s)

unfoldable pub utf8_from : Utf8State → Bytes → Option Str
utf8_from between [] = some []
utf8_from (within len left payload) [] = none
utf8_from between (b ∷ bs) = elim (lead b) [
  | none ↦ none
  | some (zero, c) ↦ keep_char c (utf8_from between bs)
  | some (suc n, c) ↦ utf8_from (within (suc n) n c) bs
]
utf8_from (within len left payload) (b ∷ bs) =
    if is_cont b
    then elim left [
      | zero ↦
          if is_scalar len (payload * 64 + (b - 0x80))
          then keep_char (payload * 64 + (b - 0x80)) (utf8_from between bs)
          else none
      | suc k ↦ utf8_from (within len k (payload * 64 + (b - 0x80))) bs
    ]
    else none

-- `String::from_utf8`
unfoldable pub from_utf8 : Bytes → Option Str
unfolding utf8_from
from_utf8 = utf8_from between

from_utf8_tests :
    (from_utf8 (0x61 ∷ 0xc3 ∷ 0xa9 ∷ 0xe2 ∷ 0x82 ∷ 0xac ∷ []) ≡ some (codes "aé€"))
    × (from_utf8 (0xc0 ∷ 0x80 ∷ []) ≡ none)
    × (from_utf8 (0xed ∷ 0xa0 ∷ 0x80 ∷ []) ≡ none)
    × (from_utf8 (0xe2 ∷ 0x82 ∷ []) ≡ none)
    × (from_utf8 (0xf0 ∷ 0x9f ∷ 0x98 ∷ 0x80 ∷ []) ≡ some (codes "😀"))
unfolding from_utf8
from_utf8_tests = (refl, refl, refl, refl, refl)

parse_u8_tests :
    (parse_u8 (codes "2") ≡ some 2)
    × (parse_u8 (codes "+255") ≡ some 255)
    × (parse_u8 (codes "256") ≡ none)
    × (parse_u8 (codes "+") ≡ none)
    × (parse_u8 (codes "x") ≡ none)
unfolding parse_u8
parse_u8_tests = (refl, refl, refl, refl, refl)
