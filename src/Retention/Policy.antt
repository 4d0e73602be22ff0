-- ===== src/Retention/Policy.antt =====
-- The resolvers of services/retention.py that choose the effective profile of a device and a
-- storage, their id-only twin, and the labels shown to the user.
use netbox_plugin_backup.Prelude.{
  ℕ, ◌≡◌, ◌↔◌, Bool, ◌&&◌, Option, none, some, is_some, arith, if◌then◌else◌,
}

-- A foreign key column is the id or nothing; dereferencing gives the row of that id.
pub record TargetPolicies : Type 0 where
  pub retention_override : Option ℕ
  -- The backup policy's (non-null) retention profile, where a policy is assigned.
  pub policy_override : Option ℕ
  pub remote_retention_policy : Option ℕ

pub record StoragePolicies : Type 0 where
  pub enforce_retention_policy : Bool
  pub local_retention_policy : Option ℕ
  pub remote_retention_policy : Option ℕ

unfoldable pub effective_retention_policy : TargetPolicies → Option StoragePolicies → Option ℕ
effective_retention_policy t none =
    if is_some t.retention_override
    then t.retention_override
    else if is_some t.policy_override
    then t.policy_override
    else none
effective_retention_policy t (some s) =
    if s.enforce_retention_policy && is_some s.local_retention_policy
    then s.local_retention_policy
    else if is_some t.retention_override
    then t.retention_override
    else if is_some t.policy_override
    then t.policy_override
    else if is_some s.local_retention_policy
    then s.local_retention_policy
    else none

unfoldable pub effective_local_retention_policy : TargetPolicies → StoragePolicies → Option ℕ
unfolding effective_retention_policy
effective_local_retention_policy t s = effective_retention_policy t (some s)

pub effective_remote_retention_policy : TargetPolicies → StoragePolicies → Option ℕ
effective_remote_retention_policy t d =
    if d.enforce_retention_policy && is_some d.remote_retention_policy
    then d.remote_retention_policy
    else if is_some t.remote_retention_policy
    then t.remote_retention_policy
    else if is_some d.remote_retention_policy
    then d.remote_retention_policy
    else none

pub effective_remote_retention_policy_id : TargetPolicies → StoragePolicies → Option ℕ
effective_remote_retention_policy_id t d =
    if d.enforce_retention_policy && is_some d.remote_retention_policy
    then d.remote_retention_policy
    else if is_some t.remote_retention_policy
    then t.remote_retention_policy
    else d.remote_retention_policy

-- The labels of the two `..._policy_source` functions.
pub data PolicySource : Type 0 where
  storage_enforced device_override backup_policy storage_default keep_indefinitely : PolicySource

pub local_retention_policy_source : TargetPolicies → StoragePolicies → PolicySource
local_retention_policy_source t s =
    if s.enforce_retention_policy && is_some s.local_retention_policy
    then storage_enforced
    else if is_some t.retention_override
    then device_override
    else if is_some t.policy_override
    then backup_policy
    else if is_some s.local_retention_policy
    then storage_default
    else keep_indefinitely

pub remote_retention_policy_source : TargetPolicies → StoragePolicies → PolicySource
remote_retention_policy_source t d =
    if d.enforce_retention_policy && is_some d.remote_retention_policy
    then storage_enforced
    else if is_some t.remote_retention_policy
    then device_override
    else if is_some d.remote_retention_policy
    then storage_default
    else keep_indefinitely

-- The profile that a label points at.
abbrev pub labelled_local : TargetPolicies → StoragePolicies → PolicySource → Option ℕ
labelled_local t s storage_enforced = s.local_retention_policy
labelled_local t s device_override = t.retention_override
labelled_local t s backup_policy = t.policy_override
labelled_local t s storage_default = s.local_retention_policy
labelled_local t s keep_indefinitely = none

abbrev pub labelled_remote : TargetPolicies → StoragePolicies → PolicySource → Option ℕ
labelled_remote t d device_override = t.remote_retention_policy
labelled_remote t d keep_indefinitely = none
labelled_remote t d _ = d.remote_retention_policy

-- The label shown for a device and its local storage always points at the profile that the cleanup
-- will apply, and it reads "Keep indefinitely" exactly when there is no profile.
pub local_source_agrees :
    (t : TargetPolicies) (s : StoragePolicies)
    → (effective_local_retention_policy t s
        ≡ labelled_local t s (local_retention_policy_source t s))
      × ((local_retention_policy_source t s ≡ keep_indefinitely)
          ↔ (effective_local_retention_policy t s ≡ none))
unfolding effective_local_retention_policy local_retention_policy_source
local_source_agrees t s = ground arith

-- For a remote storage the row resolver, the id resolver and the label agree, and the label reads
-- "Keep indefinitely" exactly when there is no profile.
pub remote_source_agrees :
    (t : TargetPolicies) (d : StoragePolicies)
    → (effective_remote_retention_policy t d ≡ effective_remote_retention_policy_id t d)
      × (effective_remote_retention_policy_id t d
          ≡ labelled_remote t d (remote_retention_policy_source t d))
      × ((remote_retention_policy_source t d ≡ keep_indefinitely)
          ↔ (effective_remote_retention_policy_id t d ≡ none))
unfolding effective_remote_retention_policy effective_remote_retention_policy_id
    remote_retention_policy_source
remote_source_agrees t d = ground arith
