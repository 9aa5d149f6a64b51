-- ===== src/Http.antt =====
-- What src/vault uses of `reqwest` and of the clock: a request is answered, and an instant is read,
-- from what has happened before. The server and the clock are parameters.
use vaultwarden_operator.Prelude.{
  ℕ, ◌+◌, ◌*◌, ◌^◌, ◌⊎◌, inl, inr, Bool, ◌&&◌, Option, List, [], ◌∷◌, ltb, leb, if◌then◌else◌,
  Result, ok, err, panic, map_err, Str,
}
use vaultwarden_operator.Prelude.Actions.{Action}
use vaultwarden_operator.Duration.{Duration}

pub data Method : Type 0 where
  get post : Method

pub data Body : Type 0 where
  no_body : Body
  -- the JSON object with the one member `email`
  json_email : Str → Body
  form : List (Str × Str) → Body

pub record Request : Type 0 where
  pub method : Method
  pub url : Str
  pub bearer : Option Str
  pub body : Body

-- The text of a `reqwest::Error`, or a status with the body, whose reading can fail too.
pub data Reply : Type 0 where
  failed : Str → Reply
  replied : (status : ℕ) → Str ⊎ Str → Reply

pub data Event : Type 0 where
  sent : Request → Event
  read_clock : Event
  slept : Duration → Event

-- the newest event first
abbrev pub Trace : Type 0
Trace = List Event

-- Instants are in nanoseconds.
pub record Net : Type 0 where
  pub server : Trace → Request → Reply
  pub clock : Trace → ℕ

abbrev pub is_success : ℕ → Bool
is_success status = leb 200 status && leb status 299

module _ {E : Type 0} where
  abbrev pub response : (Str → E) → Reply → Result E (ℕ × (Str ⊎ Str))
  response http (failed e) = err (http e)
  response http (replied status body) = ok (status, body)

  -- `.send().await?`
  abbrev pub send : Net → (Str → E) → Request → Action Trace E (ℕ × (Str ⊎ Str))
  send net http req t = (response http (net.server t req), sent req ∷ t)

  -- `Instant::now()`
  abbrev pub now : Net → Action Trace E ℕ
  now net t = (ok (net.clock t), read_clock ∷ t)

  abbrev pub sleep : Duration → Action Trace E (Unit {0})
  sleep d t = (ok tt, slept d ∷ t)

  -- `Instant + Duration`, which panics where the seconds leave `i64`
  abbrev pub instant_add : ℕ → Duration → Result E ℕ
  instant_add instant d =
      if ltb (instant + d) (2 ^ 63 * 1000000000) then ok (instant + d) else panic

  -- `resp.json().await?`
  abbrev pub json : {A : Type 0} → (Str → E) → (Str → Result Str A) → Str ⊎ Str → Result E A
  json http parse (inl e) = err (http e)
  json http parse (inr text) = map_err http (parse text)

-- `resp.text().await.unwrap_or_default()`
abbrev pub text_or_default : Str ⊎ Str → Str
text_or_default (inl e) = []
text_or_default (inr text) = text
