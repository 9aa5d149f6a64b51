-- ===== src/Leader/Timing.antt =====
-- How long the leader of src/leader.rs goes on without its lease.
use vaultwarden_operator.Prelude.{
  ℕ, suc, ◌+◌, ◌*◌, ◌≤◌, ◌≡◌, refl, false, List, [], ◌∷◌, map, take, arith, leb, leb→le, inl, inr,
  Bool-cases,
}
use vaultwarden_operator.Duration.{Duration}
use vaultwarden_operator.Leader.{
  lease_ttl, renew_interval, Answer, held, held_by_other, failed, error_threshold, Renewal,
  stepped_down, renewing, one_more, renew_loop, keep_renewing,
}
use vaultwarden_operator.Leader.Lease.{is_taken}

-- An attempt of `keep_renewing`, with the time that its answer takes.
abbrev pub Attempt : Type 0
Attempt = Answer × Duration

abbrev pub answers : List Attempt → List Answer
answers = map (λ a. a.0)

-- The time since the lease was last renewed, after these attempts; each follows a sleep.
unfoldable pub since_held : Duration → List Attempt → Duration
since_held before [] = before
since_held before ((held, latency) ∷ rest) = since_held 0 rest
since_held before ((held_by_other, latency) ∷ rest) =
    since_held (before + renew_interval + latency) rest
since_held before ((failed, latency) ∷ rest) = since_held (before + renew_interval + latency) rest

later_round :
    (r : Renewal) (n : ℕ)
    → one_more r ≡ stepped_down n
    → (m : ℕ) × (r ≡ stepped_down m) × (n ≡ suc m)
later_round (stepped_down m) n e = (m, refl, cc)
later_round renewing n e = cc

-- after `k` errors in a row
renew_loop-since_held :
    (k : ℕ) (before : Duration) (attempts : List Attempt) (n : ℕ)
    → k * renew_interval ≤ before
    → renew_loop k (answers attempts) ≡ stepped_down n
    → is_taken (answers attempts) ≡ false
    → lease_ttl ≤ since_held before (take n attempts)
unfolding renew_loop is_taken since_held
renew_loop-since_held k before [] n h e free = cc
renew_loop-since_held k before ((held, latency) ∷ rest) n h e free =
    let (m, e', same) = later_round (renew_loop 0 (answers rest)) n e in
    rw same (renew_loop-since_held 0 0 rest m (omega arith) e' free)
renew_loop-since_held k before ((held_by_other, latency) ∷ rest) n h e free = cc
renew_loop-since_held k before ((failed, latency) ∷ rest) n h e free =
    elim (Bool-cases (leb error_threshold (suc k))) [
      | inl last ↦
          let big : error_threshold ≤ suc k = leb→le error_threshold (suc k) last in
          let stopped = rw last at e in let same : n ≡ 1 = cc in rw same (omega arith)
      | inr more ↦
          let again = rw more at e in
          let (m, e', same) = later_round (renew_loop (suc k) (answers rest)) n again in
          rw same (
            renew_loop-since_held (suc k) (before + renew_interval + latency) rest m (omega arith)
              e' free)
    ]

-- A leader that gives up although no answer says that another holds the lease, does so only when it
-- has not renewed it for as long as it lasts, or longer.
pub keep_renewing-since_held :
    (attempts : List Attempt) (n : ℕ)
    → keep_renewing (answers attempts) ≡ stepped_down n
    → is_taken (answers attempts) ≡ false
    → lease_ttl ≤ since_held 0 (take n attempts)
unfolding keep_renewing
keep_renewing-since_held attempts n e free =
    renew_loop-since_held 0 0 attempts n (omega arith) e free
