-- ===== src/Cleanup/Tests.antt =====
-- The theorems on the retention cleanup, applied to one target with three revisions.
use netbox_plugin_backup.Prelude.{
  ℕ, ◌+◌, ◌*◌, ◌≡◌, refl, Bool, true, false, none, some, [], ◌∷◌, ok, err, inl, Text, codes, nat_eq,
  list_eq, string_eq, key_ne, ap, String, ◌==◌, if◌then◌else◌,
}
use netbox_plugin_backup.Clock.{DateTime, day_us, minus_delta}
use netbox_plugin_backup.Retention.{LocalPolicy}
use netbox_plugin_backup.Retention.{
  require_aware, require_all_aware, settings_from_policy, has_reason,
}
use netbox_plugin_backup.Retention.Policy.{
  effective_retention_policy, effective_local_retention_policy,
}
use netbox_plugin_backup.Retention.Plan.{build_retention_plan}
use netbox_plugin_backup.Retention.Order.{sort_newest, order_newest, insert_newest}
use netbox_plugin_backup.Retention.Revisions.{
  mark_latest, changed_first, mark_recent, revision_reasons, decide_revision, apply_cap,
  plan_revisions,
}
use netbox_plugin_backup.Retention.Sampling.{
  append_reason, mark_each, is_seen, within_days, within_weeks, month_index, within_months,
}
use netbox_plugin_backup.Clock.Calendar.{
  weekday, week_start, year_start, is_leap, days_before_month, month_from, year_of, month_of,
  iso_week1_monday, iso_year_week, year_month,
}
use netbox_plugin_backup.Retention.Runs.{plan_runs, decide_runs}
use netbox_plugin_backup.Storage.Local.{
  Disk, local_storage, disk_objects, path_of, parts, stage_delete, stage_with,
  restore_staged_delete, restore_with,
}
use netbox_plugin_backup.Storage.Quarantine.{stage_each, restore_staged}
use netbox_plugin_backup.Prelude.Texts.{split}
use netbox_plugin_backup.Storage.Local.Laws.{same_text_key, local_storage-IsReversible}
use netbox_plugin_backup.Archive.{
  ConfigArtifact, ConfigRevision, Archive, is_in, has_active_run, is_locally_available,
}
use netbox_plugin_backup.Archive.Kept.{Holds}
use netbox_plugin_backup.Cleanup.{
  Profiles, CleanupPlan, plan_cleanup, deleted_ids, deferred, artifacts_of, CleanupFailure,
  retention_cleanup_error, escaped,
}
use netbox_plugin_backup.Cleanup.Execute.{execute_retention_cleanup, Cleaned, carry_out, settle}
use netbox_plugin_backup.Cleanup.Safety.{IsUnchanged, failed_cleanup_changes_nothing}
use netbox_plugin_backup.Cleanup.Spared.{plan_cleanup_spares}
use netbox_plugin_backup.Cleanup.Kept.{cleanup_keeps_spared}

abbrev noon : ℕ → ℕ
noon d = d * day_us + 43_200_000_000

abbrev file_of : ℕ → Text → ConfigArtifact Text
file_of i key = record {
  id = i;
  storage_key = key;
  size = 1;
  local_available = true;
  local_deleted_at = none;
}

abbrev revision : ℕ → ℕ → Bool → Text → ConfigRevision Text
revision i d guarded key = record {
  id = i;
  created = noon d;
  is_protected = guarded;
  content_changed = true;
  previous_revision = none;
  artifacts = file_of i key ∷ [];
  replicas = [];
}

abbrev old : ConfigRevision Text
old = revision 1 739_000 true (codes "a")

-- An old revision that is protected, an old one that is not, and a new one.
abbrev archive : Archive Text
archive = record {
  target_id = 5;
  last_revision = some 3;
  revisions =
      old ∷ revision 2 739_010 false (codes "b") ∷ revision 3 739_210 false (codes "c") ∷ [];
  runs = [];
}

abbrev policy : LocalPolicy
policy = record {
  keep_all_days = 2;
  daily_days = 5;
  weekly_weeks = 4;
  monthly_months = 2;
  minimum_changed_revisions = 1;
  unchanged_run_days = 1;
  changed_run_days = 30;
  failed_run_days = 7;
  max_runs_per_target = 2;
}

abbrev profiles : Profiles
profiles = record {
  target = record {
    retention_override = some 1;
    policy_override = none;
    remote_retention_policy = none;
  };
  local_storage = record {
    enforce_retention_policy = false;
    local_retention_policy = none;
    remote_retention_policy = none;
  };
  policy = λ i. some policy;
}

abbrev now : DateTime
now = record { is_aware = true; micros = noon 739_211 }

abbrev disk : Disk
disk = record {
  files = λ p.
      if p == (codes "a" ∷ [])
      then some (1 ∷ [])
      else if p == (codes "b" ∷ [])
      then some (2 ∷ [])
      else none;
  calls = 0;
}

abbrev never : ℕ → Bool
never n = false

-- The plan takes the old revision that is not protected.
abbrev planned_cleanup : CleanupPlan
planned_cleanup = record { run_ids = []; revision_ids = 2 ∷ []; deferred_revision_ids = [] }

plan_cleanup-planned : plan_cleanup profiles archive now ≡ ok planned_cleanup
unfolding plan_cleanup deleted_ids deferred has_active_run is_locally_available require_aware
    require_all_aware settings_from_policy has_reason effective_retention_policy
    effective_local_retention_policy build_retention_plan sort_newest order_newest insert_newest
    mark_latest changed_first mark_recent revision_reasons decide_revision apply_cap plan_revisions
    append_reason mark_each is_seen within_days within_weeks month_index within_months weekday
    week_start year_start is_leap days_before_month month_from year_of month_of iso_week1_monday
    iso_year_week year_month minus_delta plan_runs decide_runs
plan_cleanup-planned = refl

plan_cleanup_spares_example :
    (has_active_run archive.runs ≡ false) × (is_in planned_cleanup.revision_ids 1 ≡ false)
unfolding is_locally_available
plan_cleanup_spares_example =
    plan_cleanup_spares profiles archive now planned_cleanup 1 plan_cleanup-planned
      (inl (inl (refl, refl), refl))

cleanup_keeps_spared_example :
    Holds old
      (execute_retention_cleanup
        (local_storage never)
        profiles
        true
        now
        (codes "n")
        archive
        disk).archive.revisions
unfolding is_locally_available
cleanup_keeps_spared_example =
    cleanup_keeps_spared (local_storage never) old profiles true now (codes "n") archive disk
      (inl refl) refl (inl refl)

abbrev message_of : CleanupFailure → String
message_of (retention_cleanup_error message) = message
message_of escaped = ""

-- The database refuses the changes after the file was staged.
abbrev uncommitted : Cleaned Disk Text
uncommitted =
    execute_retention_cleanup (local_storage never) profiles false now (codes "n") archive disk

abbrev failed : CleanupFailure
failed =
    retention_cleanup_error "Retention cleanup failed before the database transaction committed."

uncommitted-failed : uncommitted.result ≡ err failed
unfolding execute_retention_cleanup carry_out settle artifacts_of stage_each stage_delete stage_with
    restore_staged restore_staged_delete restore_with path_of parts split
uncommitted-failed = rw plan_cleanup-planned refl

failed_cleanup_changes_nothing_example :
    IsUnchanged
      (local_storage never)
      disk_objects
      same_text_key
      (local_storage-IsReversible never)
      archive
      disk
      uncommitted
failed_cleanup_changes_nothing_example =
    failed_cleanup_changes_nothing (local_storage never) disk_objects same_text_key
      (local_storage-IsReversible never) profiles false now (codes "n") archive disk failed
      uncommitted-failed (λ e. key_ne _ _ refl (ap message_of e))
      (λ e. key_ne _ "" refl (ap message_of e))
