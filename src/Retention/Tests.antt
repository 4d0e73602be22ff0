-- ===== src/Retention/Tests.antt =====
-- Concrete profiles, revisions and runs for the retention planner, and the theorems at them.
use netbox_plugin_backup.Prelude.{
  ℕ, ◌+◌, ◌*◌, ◌≤◌, ◌≡◌, refl, ◌↔◌, inl, inr, Bool, true, false, Option, none, some, List, [], ◌∷◌,
  map, ok, max, length, All, All₂, arith,
}
use netbox_plugin_backup.Choices.{RunStatus}
use netbox_plugin_backup.Clock.{DateTime, day_us}
use netbox_plugin_backup.Retention.{
  RetentionSettings, RevisionCandidate, RunCandidate, RetentionDecision, RetentionPlan, Reason,
  count_kept, revisions_to_keep, revisions_to_delete, runs_to_keep, runs_to_delete,
}
use mathlib.Core.List.{Perm}
use netbox_plugin_backup.Retention.Order.{
  order_newest, insert_newest, sort_newest, sort_newest_lem, IsDescending,
}
use netbox_plugin_backup.Retention.Policy.{TargetPolicies, StoragePolicies}
use netbox_plugin_backup.Retention.Revisions.{created_of, id_of, plan_revisions, mandatory_ids}
use netbox_plugin_backup.Retention.Revisions.Plan.{
  AllAware, deletes, newest_revisions, uncapped, plan_keeps_protected, plan_keeps_newest,
}
use netbox_plugin_backup.Retention.Revisions.Guarantees.{WantedBy, plan_exact, plan_within_cap}
use netbox_plugin_backup.Retention.Runs.{timestamp_of, run_id_of, is_completed_run, plan_runs}
use netbox_plugin_backup.Retention.Runs.Laws.{InRange, Judged, kept_completed, plan_runs_exact}
use netbox_plugin_backup.Retention.Plan.{build_retention_plan, build_retention_plan_total}

-- Noon of day `d`.
abbrev noon : ℕ → DateTime
noon d = record { is_aware = true; micros = d * day_us + 43_200_000_000 }

abbrev profile : Option ℕ → RetentionSettings
profile cap = record {
  keep_all_days = 2;
  daily_days = 5;
  weekly_weeks = 4;
  monthly_months = 2;
  minimum_changed_revisions = 1;
  unchanged_run_days = 1;
  changed_run_days = 30;
  failed_run_days = 7;
  max_runs_per_target = 2;
  max_revisions_per_target = cap;
}

abbrev revision : ℕ → ℕ → Bool → Bool → RevisionCandidate
revision i d is_protected changed = record {
  object_id = i;
  created = noon d;
  is_protected = is_protected;
  content_changed = changed;
}

abbrev revisions : List RevisionCandidate
revisions =
    revision 1 739_000 true true
    ∷ revision 2 739_210 false false
    ∷ revision 3 739_209 false true
    ∷ revision 4 739_100 false false
    ∷ []

abbrev now : DateTime
now = noon 739_211

abbrev run : ℕ → ℕ → RunStatus → RunCandidate
run i d status = record { object_id = i; timestamp = noon d; status = status }

abbrev runs : List RunCandidate
runs =
    run 1 739_210 RunStatus.success_changed
    ∷ run 2 739_209 RunStatus.failed
    ∷ run 3 739_208 RunStatus.success_changed
    ∷ run 4 739_100 RunStatus.queued
    ∷ []

revisions-AllAware : AllAware revisions
revisions-AllAware = (refl, (refl, (refl, (refl, tt))))

runs-aware : All (λ r. r.timestamp.is_aware ≡ true) runs
runs-aware = (refl, (refl, (refl, (refl, tt))))

plan_exact_example :
    (ds : List RetentionDecision) × (plan_revisions (profile none) revisions now ≡ ok ds)
    × (map (λ d. d.object_id) ds ≡ map id_of (newest_revisions revisions))
    × All (λ d. (d.keep ≡ true) ↔ WantedBy (profile none) revisions now d.object_id) ds
plan_exact_example = plan_exact (profile none) revisions now revisions-AllAware (omega arith) refl

plan_within_cap_example :
    (ds : List RetentionDecision) × (plan_revisions (profile (some 2)) revisions now ≡ ok ds)
    × (count_kept ds ≤ max 2 (length (mandatory_ids (uncapped (profile (some 2)) revisions now))))
    × (map (λ d. d.object_id) ds ≡ map id_of (newest_revisions revisions))
plan_within_cap_example =
    plan_within_cap (profile (some 2)) revisions now 1 revisions-AllAware (omega arith) refl
      (refl, (refl, (refl, (refl, tt))))

plan_keeps_protected_example :
    (ds : List RetentionDecision) × (plan_revisions (profile (some 1)) revisions now ≡ ok ds)
    × (deletes 1 ds ≡ false)
plan_keeps_protected_example =
    plan_keeps_protected (profile (some 1)) revisions now 1 revisions-AllAware (omega arith)
      (inl (refl, refl))

plan_keeps_newest_example :
    (ds : List RetentionDecision) × (plan_revisions (profile (some 1)) revisions now ≡ ok ds)
    × (deletes 2 ds ≡ false)
plan_keeps_newest_example =
    plan_keeps_newest (profile (some 1)) revisions now (revision 2 739_210 false false)
      revisions-AllAware (omega arith) (inr (inl refl))
      (inl (omega arith), (inr (refl, omega arith), (inl (omega arith), (inl (omega arith), tt))))

sort_newest_lem_example :
    (ys : List RevisionCandidate) × (sort_newest created_of id_of revisions ≡ ok ys)
    × Perm ys revisions
    × IsDescending created_of id_of ys
sort_newest_lem_example = sort_newest_lem created_of id_of revisions revisions-AllAware

abbrev kept : ℕ → RetentionDecision
kept i = record {
  object_id = i;
  timestamp = noon i;
  keep = true;
  reasons = Reason.recent_revision ∷ [];
}

profile-InRange : InRange (profile none) now.micros
profile-InRange = record { unchanged = omega arith; changed = omega arith; failed = omega arith }

plan_runs_exact_example :
    (ds : List RetentionDecision) × (plan_runs (profile none) runs now ≡ ok ds)
    × All₂ (Judged (profile none) now.micros) (order_newest timestamp_of run_id_of runs) ds
    × (kept_completed (order_newest timestamp_of run_id_of runs) ds ≡ 1 ∷ 2 ∷ [])
unfolding order_newest insert_newest is_completed_run
plan_runs_exact_example = plan_runs_exact (profile none) runs now runs-aware profile-InRange

build_retention_plan_total_example :
    (p : RetentionPlan) × (build_retention_plan (profile none) revisions runs now ≡ ok p)
    × (p.generated_at ≡ now)
    × (revisions_to_keep p + revisions_to_delete p ≡ 4)
    × (runs_to_keep p + runs_to_delete p ≡ 4)
build_retention_plan_total_example =
    build_retention_plan_total (profile none) revisions runs now refl revisions-AllAware runs-aware
      (omega arith) profile-InRange

-- A device with its own local profile, and a storage that has one and does not enforce it.
abbrev device : TargetPolicies
device = record {
  retention_override = some 3;
  policy_override = some 4;
  remote_retention_policy = none;
}

abbrev storage : StoragePolicies
storage = record {
  enforce_retention_policy = false;
  local_retention_policy = some 8;
  remote_retention_policy = some 9;
}
