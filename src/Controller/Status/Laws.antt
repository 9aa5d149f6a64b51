-- ===== src/Controller/Status/Laws.antt =====
-- What the status patches of src/controller.rs leave in the resource.
use vaultwarden_operator.Prelude.{
  ◌≡◌, refl, sym, subst, true, false, ◌∙◌, inl, inr, Option, none, some, List, [], ◌∷◌, arith,
  if◌then◌else◌, Option-cases, unwrap_or, Str, codes, str_eq,
}
use vaultwarden_operator.Crd.{
  text, shown, Message, StatusCondition, VaultwardenSecretStatus, default_status, VaultwardenSecret,
}
use vaultwarden_operator.Controller.Status.{
  condition_ready, condition_sync_failed, upsert_condition, old_conditions, without_failed,
  succeeded, failed, generation_of, ready_status, failed_status, Member, absent, null, value,
  serialize_option, serialize_list, StatusPatch, status_patch,
}
use vaultwarden_operator.Controller.Status.Conditions.{
  condition_of, IsKeyed, condition_of-upsert, upsert-IsKeyed, condition_of-without_failed,
  without_failed-IsKeyed,
}

-- RFC 7386: an absent member keeps the old value, and null removes it.
abbrev pub merge_member : {A : Type 0} → A → A → Member A → A
merge_member old removed absent = old
merge_member old removed null = removed
merge_member old removed (value a) = a

abbrev pub merge_option : {A : Type 0} → Option A → Member A → Option A
merge_option old absent = old
merge_option old null = none
merge_option old (value a) = some a

abbrev pub merge : VaultwardenSecretStatus → StatusPatch → VaultwardenSecretStatus
merge old patch = record {
  ready = patch.ready;
  last_sync_time = merge_option old.last_sync_time patch.last_sync_time;
  last_sync_error = merge_member old.last_sync_error (text []) patch.last_sync_error;
  observed_generation = merge_option old.observed_generation patch.observed_generation;
  conditions = merge_member old.conditions [] patch.conditions;
}

-- The status that the API server has, where there is none the default one.
abbrev pub stored : VaultwardenSecret → VaultwardenSecretStatus
stored vws = unwrap_or default_status vws.resource_status

upsert-serialize_list :
    (cs : List StatusCondition) (new : StatusCondition) (old : List StatusCondition)
    → merge_member old [] (serialize_list (upsert_condition cs new)) ≡ upsert_condition cs new
unfolding upsert_condition
upsert-serialize_list [] new old = refl
upsert-serialize_list (c ∷ cs) new old = ground arith

-- the patch of a success
ready_status-merge :
    (vws : VaultwardenSecret) (now : Str)
    → merge (stored vws) (status_patch (ready_status vws now)) ≡ ready_status vws now
unfolding ready_status status_patch
ready_status-merge vws now =
    rw (upsert-serialize_list (without_failed (old_conditions vws)) _ (stored vws).conditions)

kept_time :
    (o : Option VaultwardenSecretStatus)
    → merge_option
        (unwrap_or default_status o).last_sync_time
        (serialize_option (elim o [ none ↦ none | some s ↦ s.last_sync_time ]))
      ≡ elim o [ none ↦ none | some s ↦ s.last_sync_time ]
kept_time none = refl
kept_time (some s) = elim (Option-cases s.last_sync_time) [
  | inl n ↦ ground arith
  | inr (t, e) ↦ ground arith
]

-- the same of a failure
failed_status-merge :
    (vws : VaultwardenSecret) (msg : Message) (now : Str)
    → merge (stored vws) (status_patch (failed_status vws msg now)) ≡ failed_status vws msg now
unfolding failed_status status_patch
failed_status-merge vws msg now =
    rw (upsert-serialize_list _ _ (stored vws).conditions, kept_time vws.resource_status)

-- The conditions that `set_ready_status` leaves: the Ready condition of a success, no SyncFailed
-- condition, and what there was of every other type.
condition_of-ready_status :
    (vws : VaultwardenSecret) (now t : Str)
    → condition_of t (ready_status vws now).conditions ≡ (
        if str_eq condition_ready t
        then some (succeeded (generation_of vws) now)
        else if str_eq t condition_sync_failed
        then none
        else condition_of t (old_conditions vws))
unfolding ready_status
condition_of-ready_status vws now t =
    condition_of-upsert t (without_failed (old_conditions vws)) (succeeded (generation_of vws) now)
    ∙ rw (condition_of-without_failed t (old_conditions vws))

-- The conditions that `set_failed_status` leaves: Ready is false and SyncFailed is true, both with
-- the message, and every other type keeps what there was.
condition_of-failed_status :
    (vws : VaultwardenSecret) (msg : Message) (now t : Str)
    → condition_of t (failed_status vws msg now).conditions ≡ (
        if str_eq condition_sync_failed t
        then some (failed condition_sync_failed (codes "True") msg (generation_of vws) now)
        else if str_eq condition_ready t
        then some (failed condition_ready (codes "False") msg (generation_of vws) now)
        else condition_of t (old_conditions vws))
unfolding failed_status
condition_of-failed_status vws msg now t =
    condition_of-upsert t _
      (failed condition_sync_failed (codes "True") msg (generation_of vws) now)
    ∙ rw (
        condition_of-upsert t (old_conditions vws)
          (failed condition_ready (codes "False") msg (generation_of vws) now))

-- Where no two conditions of a resource have one type, both updates keep it so.
pub status-IsKeyed :
    (vws : VaultwardenSecret) (msg : Message) (now : Str)
    → IsKeyed (old_conditions vws)
    → IsKeyed (ready_status vws now).conditions × IsKeyed (failed_status vws msg now).conditions
unfolding ready_status failed_status
status-IsKeyed vws msg now h = (
  upsert-IsKeyed (without_failed (old_conditions vws)) (succeeded (generation_of vws) now)
      (without_failed-IsKeyed (old_conditions vws) h),
  upsert-IsKeyed _ (failed condition_sync_failed (codes "True") msg (generation_of vws) now) (
      upsert-IsKeyed (old_conditions vws)
        (failed condition_ready (codes "False") msg (generation_of vws) now) h),
)

-- What the resource says after a success, and after a failure.
pub record SaysReady (vws : VaultwardenSecret) (now : Str) (s : VaultwardenSecretStatus)
    : Type 0 where
  pub ready : s.ready ≡ true
  pub time : s.last_sync_time ≡ some now
  pub no_error : s.last_sync_error ≡ text []
  pub generation : s.observed_generation ≡ some (generation_of vws)
  pub conditions :
      (t : Str)
      → condition_of t s.conditions ≡ (
          if str_eq condition_ready t
          then some (succeeded (generation_of vws) now)
          else if str_eq t condition_sync_failed
          then none
          else condition_of t (old_conditions vws))

pub record SaysFailed (vws : VaultwardenSecret) (msg : Message) (now : Str)
    (s : VaultwardenSecretStatus) : Type 0 where
  pub not_ready : s.ready ≡ false
  pub time : s.last_sync_time ≡ (stored vws).last_sync_time
  pub error : s.last_sync_error ≡ shown msg
  pub generation : s.observed_generation ≡ some (generation_of vws)
  pub conditions :
      (t : Str)
      → condition_of t s.conditions ≡ (
          if str_eq condition_sync_failed t
          then some (failed condition_sync_failed (codes "True") msg (generation_of vws) now)
          else if str_eq condition_ready t
          then some (failed condition_ready (codes "False") msg (generation_of vws) now)
          else condition_of t (old_conditions vws))

ready_status-SaysReady :
    (vws : VaultwardenSecret) (now : Str) → SaysReady vws now (ready_status vws now)
unfolding ready_status
ready_status-SaysReady vws now = record {
  ready = refl;
  time = refl;
  no_error = refl;
  generation = refl;
  conditions = condition_of-ready_status vws now;
}

stored_time :
    (o : Option VaultwardenSecretStatus)
    → elim o [ none ↦ none | some s ↦ s.last_sync_time ]
      ≡ (unwrap_or default_status o).last_sync_time
stored_time none = refl
stored_time (some s) = refl

failed_status-SaysFailed :
    (vws : VaultwardenSecret) (msg : Message) (now : Str)
    → SaysFailed vws msg now (failed_status vws msg now)
unfolding failed_status
failed_status-SaysFailed vws msg now = record {
  not_ready = refl;
  time = stored_time vws.resource_status;
  error = refl;
  generation = refl;
  conditions = condition_of-failed_status vws msg now;
}

-- Merged into the status that it was made from, the patch of a success and that of a failure give
-- the statuses that were meant. After the success these are ready, with the time, no error, the
-- generation and the conditions of a success, so the old error is gone; after the failure they are
-- not ready, keep the old time, and have the message and the conditions of a failure.
pub status_patch-merge :
    (vws : VaultwardenSecret) (msg : Message) (now : Str)
    → (merge (stored vws) (status_patch (ready_status vws now)) ≡ ready_status vws now)
      × (merge (stored vws) (status_patch (failed_status vws msg now)) ≡ failed_status vws msg now)
      × SaysReady vws now (merge (stored vws) (status_patch (ready_status vws now)))
      × SaysFailed vws msg now (merge (stored vws) (status_patch (failed_status vws msg now)))
status_patch-merge vws msg now =
    let good = ready_status-merge vws now in
    let bad = failed_status-merge vws msg now in
    (
      good,
      bad,
      subst (SaysReady vws now) (sym good) (ready_status-SaysReady vws now),
      subst (SaysFailed vws msg now) (sym bad) (failed_status-SaysFailed vws msg now),
    )
