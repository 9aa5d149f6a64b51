-- ===== src/Crd.antt =====
-- src/crd.rs: the custom resource, its spec and its status.
use vaultwarden_operator.Prelude.{
  ℕ, Bool, false, not, Option, none, List, [], opt_filter, or_else, is_empty, Str, codes,
}
use vaultwarden_operator.Duration.{DurationError}
use vaultwarden_operator.Vault.{VaultError}

pub record VaultwardenSecretDataItem : Type 0 where
  pub key : Str
  pub secret_name : Option Str
  pub vaultwarden_secret : Option Str
  pub vault : Option Str

-- `filter(|s| !s.is_empty())`
abbrev pub set_only : Option Str → Option Str
set_only = opt_filter (λ s. not (is_empty s))

unfoldable pub resolved_secret_name : VaultwardenSecretDataItem → Option Str
resolved_secret_name item = or_else (set_only item.secret_name) (set_only item.vaultwarden_secret)

pub record VaultwardenSecretSpec : Type 0 where
  pub sync_interval : Str
  pub default_vault : Option Str
  pub data_items : List VaultwardenSecretDataItem

-- what serde puts in the place of an absent `syncInterval`
abbrev pub default_sync_interval : Str
default_sync_interval = codes "5m"

-- The `Err` of `parse_sync_interval` and of `build_requests`, and the failure of a fetch.
pub data IntervalError : Type 0 where
  bad_duration : DurationError → IntervalError
  not_positive : IntervalError

pub data SpecError : Type 0 where
  no_secret_name : (index : ℕ) (key : Str) → SpecError

pub data Message : Type 0 where
  invalid_interval : IntervalError → Message
  invalid_spec : SpecError → Message
  fetch_failed : VaultError → Message

-- A text that the resource holds, or one that the operator builds by `format!`: that one begins with
-- a fixed word, so it is not empty.
pub data Text : Type 0 where
  text : Str → Text
  shown : Message → Text

abbrev pub is_empty_text : Text → Bool
is_empty_text (text s) = is_empty s
is_empty_text (shown m) = false

pub record StatusCondition : Type 0 where
  pub condition_type : Str
  pub status : Str
  pub reason : Str
  pub message : Text
  pub observed_generation : Option ℕ
  pub last_transition_time : Str

pub record VaultwardenSecretStatus : Type 0 where
  pub ready : Bool
  pub last_sync_time : Option Str
  pub last_sync_error : Text
  pub observed_generation : Option ℕ
  pub conditions : List StatusCondition

-- `Default::default()`
abbrev pub default_status : VaultwardenSecretStatus
default_status = record {
  ready = false;
  last_sync_time = none;
  last_sync_error = text [];
  observed_generation = none;
  conditions = [];
}

-- The resource as the controller sees it; `owner_ref` is what `controller_owner_ref` makes of its
-- metadata.
pub record VaultwardenSecret : Type 0 where
  pub name : Str
  pub namespace : Option Str
  pub generation : Option ℕ
  pub owner_ref : Option Str
  pub spec : VaultwardenSecretSpec
  pub resource_status : Option VaultwardenSecretStatus
