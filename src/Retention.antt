-- ===== src/Retention.antt =====
-- netbox_config_backup/services/retention.py: the data of the retention planner, and the settings
-- it is given. The children model the planner's parts: the policy resolvers (Policy), the
-- revision plan (Revisions) with its buckets (Sampling) and its hard cap (Cap), the run plan
-- (Runs), and the whole plan (Plan).
pub mod Order
pub mod Policy
pub mod Sampling
pub mod Revisions
pub mod Runs
pub mod Plan
mod Tests
use netbox_plugin_backup.Prelude.{
  ℕ, suc, ◌+◌, ◌-◌, Bool, true, false, ◌&&◌, ◌||◌, not, Option, none, some, List, [], ◌∷◌, ◌++◌,
  Result, ok, err, ◌>>=◌, nat_beq, ltb, leb, any_of, count_if, length, require, if◌then◌else◌,
}
use netbox_plugin_backup.Clock.{DateTime, PyError}
use netbox_plugin_backup.Choices.{RunStatus}

-- The policy's columns are positive integer fields, so the settings are natural numbers.
pub record RetentionSettings : Type 0 where
  pub keep_all_days : ℕ
  pub daily_days : ℕ
  pub weekly_weeks : ℕ
  pub monthly_months : ℕ
  pub minimum_changed_revisions : ℕ
  pub unchanged_run_days : ℕ
  pub changed_run_days : ℕ
  pub failed_run_days : ℕ
  pub max_runs_per_target : ℕ
  pub max_revisions_per_target : Option ℕ

pub record RevisionCandidate : Type 0 where
  pub object_id : ℕ
  pub created : DateTime
  pub is_protected : Bool
  pub content_changed : Bool

pub record RunCandidate : Type 0 where
  pub object_id : ℕ
  pub timestamp : DateTime
  pub status : RunStatus

-- The reason texts, one constructor for each.
pub data Reason : Type 0 where
  latest_revision protected_revision minimum_changed recent_revision : Reason
  daily_sample weekly_sample monthly_sample : Reason
  outside_windows revision_limit : Reason
  active_run unknown_status run_limit : Reason
  unchanged_retained unchanged_expired changed_retained changed_expired : Reason
  failed_retained failed_expired : Reason

pub record RetentionDecision : Type 0 where
  pub object_id : ℕ
  pub timestamp : DateTime
  pub keep : Bool
  pub reasons : List Reason

pub record RetentionPlan : Type 0 where
  pub generated_at : DateTime
  pub revision_decisions : List RetentionDecision
  pub run_decisions : List RetentionDecision

-- `sum(decision.keep for decision in decisions)`
unfoldable pub count_kept : List RetentionDecision → ℕ
count_kept = count_if (λ d. d.keep)

unfoldable pub revisions_to_keep : RetentionPlan → ℕ
unfolding count_kept
revisions_to_keep p = count_kept p.revision_decisions

unfoldable pub revisions_to_delete : RetentionPlan → ℕ
unfolding revisions_to_keep
revisions_to_delete p = length p.revision_decisions - revisions_to_keep p

unfoldable pub runs_to_keep : RetentionPlan → ℕ
unfolding count_kept
runs_to_keep p = count_kept p.run_decisions

unfoldable pub runs_to_delete : RetentionPlan → ℕ
unfolding runs_to_keep
runs_to_delete p = length p.run_decisions - runs_to_keep p

-- Reasons are compared as the texts are.
unfoldable pub reason_code : Reason → ℕ
reason_code Reason.latest_revision = 0
reason_code Reason.protected_revision = 1
reason_code Reason.minimum_changed = 2
reason_code Reason.recent_revision = 3
reason_code Reason.daily_sample = 4
reason_code Reason.weekly_sample = 5
reason_code Reason.monthly_sample = 6
reason_code Reason.outside_windows = 7
reason_code Reason.revision_limit = 8
reason_code Reason.active_run = 9
reason_code Reason.unknown_status = 10
reason_code Reason.run_limit = 11
reason_code Reason.unchanged_retained = 12
reason_code Reason.unchanged_expired = 13
reason_code Reason.changed_retained = 14
reason_code Reason.changed_expired = 15
reason_code Reason.failed_retained = 16
reason_code Reason.failed_expired = 17

-- `reason in reasons`
unfoldable pub has_reason : Reason → List Reason → Bool
has_reason r = any_of (λ q. nat_beq (reason_code r) (reason_code q))

-- `_require_aware`
unfoldable pub require_aware : DateTime → Result PyError (Unit {0})
require_aware t = require t.is_aware PyError.value_error

-- `_require_aware` of each in turn.
unfoldable pub require_all_aware : List DateTime → Result PyError (Unit {0})
unfolding require_aware
require_all_aware [] = ok tt
require_all_aware (t ∷ ts) = let rest = require_all_aware ts in require_aware t >>= λ _. rest

-- The columns of a local retention profile, and of a remote one.
pub record LocalPolicy : Type 0 where
  pub keep_all_days : ℕ
  pub daily_days : ℕ
  pub weekly_weeks : ℕ
  pub monthly_months : ℕ
  pub minimum_changed_revisions : ℕ
  pub unchanged_run_days : ℕ
  pub changed_run_days : ℕ
  pub failed_run_days : ℕ
  pub max_runs_per_target : ℕ

pub record RemotePolicy : Type 0 where
  pub keep_all_days : ℕ
  pub daily_days : ℕ
  pub weekly_weeks : ℕ
  pub monthly_months : ℕ
  pub minimum_changed_revisions : ℕ
  pub max_copies_per_target : Option ℕ

unfoldable pub settings_from_policy : LocalPolicy → RetentionSettings
settings_from_policy p = record {
  keep_all_days = p.keep_all_days;
  daily_days = p.daily_days;
  weekly_weeks = p.weekly_weeks;
  monthly_months = p.monthly_months;
  minimum_changed_revisions = p.minimum_changed_revisions;
  unchanged_run_days = p.unchanged_run_days;
  changed_run_days = p.changed_run_days;
  failed_run_days = p.failed_run_days;
  max_runs_per_target = p.max_runs_per_target;
  max_revisions_per_target = none;
}

unfoldable pub settings_from_remote_policy : RemotePolicy → RetentionSettings
settings_from_remote_policy p = record {
  keep_all_days = p.keep_all_days;
  daily_days = p.daily_days;
  weekly_weeks = p.weekly_weeks;
  monthly_months = p.monthly_months;
  minimum_changed_revisions = p.minimum_changed_revisions;
  unchanged_run_days = 0;
  changed_run_days = 0;
  failed_run_days = 0;
  max_runs_per_target = 1;
  max_revisions_per_target = p.max_copies_per_target;
}
