-- ===== src/Startup.antt =====
-- src/main.rs: how the operator reads its environment. A variable that is unset, or that is no
-- Unicode text, is `none`.
pub mod Durations
pub mod Main
pub mod Order
pub mod Sound
pub mod Serving
pub mod Lapse
mod Tests
use vaultwarden_operator.Prelude.{
  ◌*◌, not, Option, none, some, [], if◌then◌else◌, opt_filter, is_empty, Result, ok, err, panic,
  ◌>>=◌, Str,
}
use vaultwarden_operator.Duration.{Duration, from_secs, is_zero, DurationError, parse_duration}

abbrev pub default_vault_cache_refresh_interval : Duration
default_vault_cache_refresh_interval = from_secs (5 * 60)

abbrev pub default_vault_cache_min_refresh_interval : Duration
default_vault_cache_min_refresh_interval = from_secs 30

-- the `match` on the parsed text; a panic of the parser goes through
abbrev pub positive_or : Duration → Result DurationError Duration → Result ⊥ Duration
positive_or fallback (ok d) = if not (is_zero d) then ok d else ok fallback
positive_or fallback (err e) = ok fallback
positive_or fallback panic = panic

unfoldable pub env_duration :
    (env : Str → Option Str) (key : Str) (fallback : Duration) → Result ⊥ Duration
env_duration env key fallback = elim (env key) [
  | none ↦ ok fallback
  | some v ↦ if not (is_empty v) then positive_or fallback (parse_duration v) else ok fallback
]

unfoldable pub optional_env : (env : Str → Option Str) → Str → Option Str
optional_env env key = opt_filter (λ s. not (is_empty s)) (env key)
