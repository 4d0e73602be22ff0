-- ===== src/Cleanup/Execute.antt =====
-- netbox_config_backup/services/retention_cleanup.py: `execute_retention_cleanup`, from the staging of
-- the files to the two ways out. The rows change in one transaction: they are as before unless it
-- commits. `commits` says whether the database carries the changes out.
use netbox_plugin_backup.Prelude.{
  ℕ, Bool, true, false, List, [], map, reverse, Result, ok, err, length, Text,
}
use netbox_plugin_backup.Clock.{DateTime}
use netbox_plugin_backup.Storage.{Fault, storage_error, unexpected, ConfigStorage}
use netbox_plugin_backup.Storage.Quarantine.{Staging, stage_each, restore_staged, purge_staged}
use netbox_plugin_backup.Storage.Undo.{Raises, undone}
use netbox_plugin_backup.Archive.{ConfigArtifact, Archive, total_size}
use netbox_plugin_backup.Cleanup.{
  Interrupt, cleanup_error, storage_failed, other, CleanupFailure, retention_cleanup_error, escaped,
  RetentionCleanupSummary, Profiles, CleanupPlan, plan_cleanup, artifacts_of, apply_cleanup,
}

abbrev pub not_restored : CleanupFailure
not_restored =
    retention_cleanup_error
      "Retention cleanup failed and quarantined files could not be fully restored."

-- What is raised once all is restored.
abbrev pub translated : Interrupt → CleanupFailure
translated (cleanup_error message) = retention_cleanup_error message
translated storage_failed =
    retention_cleanup_error
      "Retention cleanup could not stage stored configuration files. Nothing was deleted."
translated other =
    retention_cleanup_error "Retention cleanup failed before the database transaction committed."

abbrev pub interrupt_of : Fault → Interrupt
interrupt_of (storage_error message) = storage_failed
interrupt_of unexpected = other

abbrev pub raises : Interrupt → Raises CleanupFailure
raises e = record { not_restored = not_restored; escaped = escaped; cause = translated e }

-- The storage and the rows after a cleanup, with its result.
pub record Cleaned (Store K : Type 0) : Type 0 where
  pub store : Store
  pub archive : Archive K
  pub result : Result CleanupFailure RetentionCleanupSummary

abbrev pub purge_result :
    RetentionCleanupSummary → Result Fault ℕ → Result CleanupFailure RetentionCleanupSummary
purge_result summary (ok failures) = ok (record summary { quarantine_purge_failures = failures })
purge_result summary (err e) = err escaped

abbrev pub summary_of :
    {K : Type 0} → CleanupPlan → List (ConfigArtifact K) → ℕ → RetentionCleanupSummary
summary_of plan artifacts missing = record {
  run_count = length plan.run_ids;
  revision_count = length plan.revision_ids;
  artifact_count = length artifacts;
  artifact_bytes = total_size artifacts;
  missing_artifact_count = missing;
  quarantine_purge_failures = 0;
  deferred_revision_count = length plan.deferred_revision_ids;
}

abbrev pub gave_up : {Store K : Type 0} → Archive K → Store × CleanupFailure → Cleaned Store K
gave_up a (s, e) = record { store = s; archive = a; result = err e }

module _ {Store K : Type 0} (storage : ConfigStorage Store K) where
  -- After the staging loop: the rows change and the staged objects are purged, or all is undone.
  unfoldable pub settle :
      Bool
      → CleanupPlan
      → ℕ
      → Archive K
      → Staging storage
      → Result Fault (Unit {0})
      → Cleaned Store K
  settle commits plan now a st (err e) =
      gave_up a (undone (raises (interrupt_of e)) (restore_staged storage st.staged false st.store))
  settle false plan now a st (ok u) =
      gave_up a (undone (raises other) (restore_staged storage st.staged false st.store))
  settle true plan now a st (ok u) =
      let purge = purge_staged storage (reverse st.staged) 0 st.store in
      record {
        store = purge.0;
        archive = apply_cleanup plan now a;
        result =
            purge_result (summary_of plan (artifacts_of plan.revision_ids a.revisions) st.missing)
              purge.1;
      }

  abbrev pub staging : Text → CleanupPlan → Archive K → Store → Staging storage
  staging namespace plan a s =
      stage_each storage namespace
        (map (λ (x : ConfigArtifact K). x.storage_key) (artifacts_of plan.revision_ids a.revisions))
        s [] 0

  unfoldable pub carry_out :
      Bool → ℕ → Text → Result Interrupt CleanupPlan → Archive K → Store → Cleaned Store K
  carry_out commits now namespace (err e) a s =
      gave_up a (undone (raises e) (restore_staged storage [] false s))
  carry_out commits now namespace (ok plan) a s =
      let st = staging namespace plan a s in settle commits plan now a st st.outcome

  unfoldable pub execute_retention_cleanup :
      Profiles → Bool → DateTime → Text → Archive K → Store → Cleaned Store K
  execute_retention_cleanup profiles commits now namespace a s =
      carry_out commits now.micros namespace (plan_cleanup profiles a now) a s
