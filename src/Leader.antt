-- ===== src/Leader.antt =====
-- src/leader.rs: the loops that acquire and keep the lease.
pub mod Lease
pub mod Timing
mod Tests
use vaultwarden_operator.Prelude.{
  ℕ, suc, ◌-◌, ◌/◌, max, not, Option, List, [], ◌∷◌, leb, if◌then◌else◌, opt_filter, unwrap_or,
  is_empty, ◌>>=◌, Str, codes,
}
use vaultwarden_operator.Duration.{Duration, from_secs}

abbrev pub default_lease_name : Str
default_lease_name = codes "vaultwarden-operator-leader"

abbrev pub lease_ttl : Duration
lease_ttl = from_secs 15

abbrev pub renew_interval : Duration
renew_interval = from_secs 5

pub record LeaderConfig : Type 0 where
  pub lease_name : Str
  pub namespace : Str
  pub holder_id : Str

-- The environment variable where it is set, the client's default namespace, the host name where it
-- is text, and a fresh UUID.
unfoldable pub from_env :
    (env : Option Str) (namespace : Str) (hostname : Option Str) (uuid : Str) → LeaderConfig
from_env env namespace hostname uuid = record {
  lease_name = unwrap_or default_lease_name env;
  namespace = namespace;
  holder_id = unwrap_or uuid (opt_filter (λ s. not (is_empty s)) hostname);
}

-- What `try_acquire_or_renew` answers: the lease is ours, it is another's, or an error.
pub data Answer : Type 0 where
  held held_by_other failed : Answer

-- What ends the pause after an attempt.
pub data Pause : Type 0 where
  timer sigterm : Pause

-- How `acquire` ends: with the lease, with the process, or not within these attempts.
pub data Acquisition : Type 0 where
  acquired exited waiting : Acquisition

-- the loop of `acquire`, over the attempts and the pauses that follow them
unfoldable pub acquire : List (Answer × Pause) → Acquisition
acquire [] = waiting
acquire ((held, p) ∷ rest) = acquired
acquire ((held_by_other, timer) ∷ rest) = acquire rest
acquire ((failed, timer) ∷ rest) = acquire rest
acquire ((held_by_other, sigterm) ∷ rest) = exited
acquire ((failed, sigterm) ∷ rest) = exited

-- `(LEASE_TTL.as_secs() / RENEW_INTERVAL.as_secs()).max(2)`
abbrev pub error_threshold : ℕ
error_threshold = max (lease_ttl / from_secs 1 / (renew_interval / from_secs 1)) 2

-- What `keep_renewing` did: it gave the lease up after so many attempts, or it still renews.
pub data Renewal : Type 0 where
  stepped_down : ℕ → Renewal
  renewing : Renewal

abbrev pub one_more : Renewal → Renewal
one_more (stepped_down n) = stepped_down (suc n)
one_more renewing = renewing

-- the loop of `keep_renewing`, with `consecutive_errors`
unfoldable pub renew_loop : ℕ → List Answer → Renewal
renew_loop consecutive_errors [] = renewing
renew_loop consecutive_errors (held ∷ rest) = one_more (renew_loop 0 rest)
renew_loop consecutive_errors (held_by_other ∷ rest) = stepped_down 1
renew_loop consecutive_errors (failed ∷ rest) =
    let later = one_more (renew_loop (suc consecutive_errors) rest) in
    if leb error_threshold (suc consecutive_errors) then stepped_down 1 else later

unfoldable pub keep_renewing : List Answer → Renewal
unfolding renew_loop
keep_renewing = renew_loop 0
