-- ===== src/Leader/Tests.antt =====
-- The loops of src/leader.rs at concrete answers.
use vaultwarden_operator.Prelude.{◌≡◌, refl, ◌↔◌, false, List, [], ◌∷◌, ◌≤◌, take}
use vaultwarden_operator.Duration.{from_secs}
use vaultwarden_operator.Leader.{
  lease_ttl, held, held_by_other, failed, timer, sigterm, acquired, exited, acquire, stepped_down,
  renewing, keep_renewing,
}
use vaultwarden_operator.Leader.Timing.{Attempt, since_held, keep_renewing-since_held}
use vaultwarden_operator.Leader.Lease.{has_three_errors, is_taken, keep_renewing_iff}

leader_tests :
    (acquire ((held_by_other, timer) ∷ (failed, timer) ∷ (held, timer) ∷ []) ≡ acquired)
    × (acquire ((held_by_other, sigterm) ∷ (held, timer) ∷ []) ≡ exited)
    × (keep_renewing (held ∷ failed ∷ failed ∷ held ∷ []) ≡ renewing)
    × (keep_renewing (held ∷ failed ∷ failed ∷ failed ∷ held ∷ []) ≡ stepped_down 4)
unfolding acquire keep_renewing
leader_tests = (refl, refl, refl, refl)

keep_renewing_iff_example : (keep_renewing (failed ∷ failed ∷ held ∷ failed ∷ []) ≡ renewing) ↔ (
    (is_taken (failed ∷ failed ∷ held ∷ failed ∷ []) ≡ false)
    × (has_three_errors (failed ∷ failed ∷ held ∷ failed ∷ []) ≡ false))
keep_renewing_iff_example = keep_renewing_iff (failed ∷ failed ∷ held ∷ failed ∷ [])

-- three failures that take a second each, after a renewal
abbrev failing : List Attempt
failing =
    (held, from_secs 1) ∷ (failed, from_secs 1) ∷ (failed, from_secs 1) ∷ (failed, from_secs 1) ∷ []

keep_renewing-since_held_example : lease_ttl ≤ since_held 0 (take 4 failing)
unfolding keep_renewing is_taken
keep_renewing-since_held_example = keep_renewing-since_held failing 4 refl refl
