-- ===== src/Auth/Sends.antt =====
-- How many requests the functions of src/vault/auth.rs send.
use vaultwarden_operator.Prelude.{ℕ, ◌+◌, ◌≤◌, Option, List, [], ◌∷◌, arith, length, Str}
use vaultwarden_operator.Duration.{Duration}
use vaultwarden_operator.Http.{Request, sent, read_clock, slept, Trace}
use vaultwarden_operator.Auth.{Services, authenticate, refresh_token}
use vaultwarden_operator.Sync.Fetch.{fetch_sync}
use vaultwarden_operator.Auth.Spans.{IsSpan, authenticate-R, refresh_token-R, fetch_sync-R}

-- the requests of a trace, the newest first
unfoldable pub requests_of : Trace → List Request
requests_of [] = []
requests_of (sent req ∷ t) = req ∷ requests_of t
requests_of (read_clock ∷ t) = requests_of t
requests_of (slept d ∷ t) = requests_of t

abbrev pub sends : Trace → ℕ
sends t = length (requests_of t)

-- the time slept in a trace
unfoldable pub slept_in : Trace → Duration
slept_in [] = 0
slept_in (sent req ∷ t) = slept_in t
slept_in (read_clock ∷ t) = slept_in t
slept_in (slept d ∷ t) = d + slept_in t

-- At most `k` requests lie between the traces, and what was slept before counts after.
abbrev pub Sends : ℕ → Trace → Trace → Type 0
Sends k t t' = (sends t' ≤ sends t + k) × (slept_in t ≤ slept_in t')

pub Sends-IsSpan : IsSpan Sends
unfolding requests_of slept_in
Sends-IsSpan = record {
  stay = λ k t. omega arith;
  trans = λ j k t t1 t2 h g. omega arith;
  one = λ t req. omega arith;
}

module _ {RsaPrivateKey : Type 0} (services : Services RsaPrivateKey) where
  pub authenticate-Sends :
      (base_url email password : Str) (id secret : Option Str) (device_id : Str) (t : Trace)
      → Sends 3 t (authenticate services base_url email password id secret device_id t).1
  authenticate-Sends = authenticate-R Sends Sends-IsSpan services

  pub refresh_token-Sends :
      (base_url refresh_tok : Str) (t : Trace)
      → Sends 1 t (refresh_token services base_url refresh_tok t).1
  refresh_token-Sends = refresh_token-R Sends Sends-IsSpan services

  pub fetch_sync-Sends :
      (base_url access_token : Str) (t : Trace)
      → Sends 1 t (fetch_sync services base_url access_token t).1
  fetch_sync-Sends = fetch_sync-R Sends Sends-IsSpan services
