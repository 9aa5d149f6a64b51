-- ===== src/Controller/Status.antt =====
-- The status of a resource in src/controller.rs: its conditions, and the merge patch that updates it.
pub mod Conditions
pub mod Laws
use vaultwarden_operator.Prelude.{
  ℕ, Bool, true, false, not, Option, none, some, List, [], ◌∷◌, if◌then◌else◌, unwrap_or, keep,
  ◌>>=◌, Str, codes, str_eq,
}
use vaultwarden_operator.Crd.{
  Text, text, shown, is_empty_text, Message, StatusCondition, VaultwardenSecretStatus,
  VaultwardenSecret,
}

abbrev pub condition_ready : Str
condition_ready = codes "Ready"

abbrev pub condition_sync_failed : Str
condition_sync_failed = codes "SyncFailed"

-- replaces the first condition of the type, or adds one at the end
unfoldable pub upsert_condition : List StatusCondition → StatusCondition → List StatusCondition
upsert_condition [] new = new ∷ []
upsert_condition (c ∷ cs) new =
    let rest = upsert_condition cs new in
    if str_eq c.condition_type new.condition_type then new ∷ cs else c ∷ rest

-- the conditions that the resource has
abbrev pub old_conditions : VaultwardenSecret → List StatusCondition
old_conditions vws = elim vws.resource_status [ none ↦ [] | some s ↦ s.conditions ]

abbrev pub without_failed : List StatusCondition → List StatusCondition
without_failed = keep (λ c. not (str_eq c.condition_type condition_sync_failed))

abbrev pub succeeded : (generation : ℕ) (now : Str) → StatusCondition
succeeded generation now = record {
  condition_type = condition_ready;
  status = codes "True";
  reason = codes "SyncSucceeded";
  message = text (codes "Vault secrets synced successfully");
  observed_generation = some generation;
  last_transition_time = now;
}

abbrev pub failed :
    (condition_type status : Str) → Message → (generation : ℕ) (now : Str) → StatusCondition
failed condition_type status msg generation now = record {
  condition_type = condition_type;
  status = status;
  reason = codes "SyncFailed";
  message = shown msg;
  observed_generation = some generation;
  last_transition_time = now;
}

-- `metadata.generation.unwrap_or(0)`
abbrev pub generation_of : VaultwardenSecret → ℕ
generation_of vws = unwrap_or 0 vws.generation

-- The status that `set_ready_status` writes at the time `now`.
unfoldable pub ready_status : VaultwardenSecret → Str → VaultwardenSecretStatus
ready_status vws now = record {
  ready = true;
  last_sync_time = some now;
  last_sync_error = text [];
  observed_generation = some (generation_of vws);
  conditions =
      upsert_condition (without_failed (old_conditions vws)) (succeeded (generation_of vws) now);
}

-- The status that `set_failed_status` writes.
unfoldable pub failed_status : VaultwardenSecret → Message → Str → VaultwardenSecretStatus
failed_status vws msg now = record {
  ready = false;
  last_sync_time = elim vws.resource_status [ none ↦ none | some s ↦ s.last_sync_time ];
  last_sync_error = shown msg;
  observed_generation = some (generation_of vws);
  conditions =
      upsert_condition
        (upsert_condition (old_conditions vws)
          (failed condition_ready (codes "False") msg (generation_of vws) now))
        (failed condition_sync_failed (codes "True") msg (generation_of vws) now);
}

-- A member of a JSON object.
pub data Member {ℓ} (A : Type ℓ) : Type ℓ where
  absent null : Member A
  value : A → Member A

module _ {ℓ} {A : Type ℓ} where
  -- `skip_serializing_if = "Option::is_none"`
  abbrev pub serialize_option : Option A → Member A
  serialize_option none = absent
  serialize_option (some a) = value a

  -- `skip_serializing_if = "Vec::is_empty"`
  abbrev pub serialize_list : List A → Member (List A)
  serialize_list [] = absent
  serialize_list (a ∷ as') = value (a ∷ as')

-- The `status` object of the patch.
pub record StatusPatch : Type 0 where
  pub ready : Bool
  pub last_sync_time : Member Str
  pub last_sync_error : Member Text
  pub observed_generation : Member ℕ
  pub conditions : Member (List StatusCondition)

unfoldable pub status_patch : VaultwardenSecretStatus → StatusPatch
status_patch status = record {
  ready = status.ready;
  last_sync_time = serialize_option status.last_sync_time;
  last_sync_error =
      if is_empty_text status.last_sync_error then null else value status.last_sync_error;
  observed_generation = serialize_option status.observed_generation;
  conditions = serialize_list status.conditions;
}
