-- ===== src/Deletion/Tests.antt =====
-- The theorems on the deletion of a revision, applied to one target with two revisions. The remote
-- storage counts the copies that it removed.
use netbox_plugin_backup.Prelude.{
  ℕ, ◌+◌, ◌*◌, ◌≡◌, ◌≢◌, refl, Bool, true, false, none, some, [], ◌∷◌, Result, ok, err, Text, codes,
  nat_eq, list_eq, string_eq, ◌==◌, if◌then◌else◌,
}
use netbox_plugin_backup.Prelude.Texts.{split}
use netbox_plugin_backup.Choices.{ReplicaStatus}
use netbox_plugin_backup.Storage.Quarantine.{stage_each, restore_staged, purge_staged}
use netbox_plugin_backup.Storage.Local.{
  Disk, local_storage, disk_objects, path_of, parts, stage_delete, stage_with,
  restore_staged_delete, restore_with, purge_staged_delete, delete, delete_with,
}
use netbox_plugin_backup.Storage.Local.Laws.{same_text_key, local_storage-IsReversible}
use netbox_plugin_backup.Archive.{ReplicaRow, ConfigRevision, Archive, has_active_run}
use netbox_plugin_backup.Archive.Kept.{Holds}
use netbox_plugin_backup.Deletion.{
  remote_copy_not_removed, RemoteFault, destination_error, RevisionDeletionSummary, remove_each,
  has_remote_copy, find_revision, validate_replica, validate_replicas, check_deletion,
}
use netbox_plugin_backup.Deletion.Execute.{
  Deleted, delete_config_revision_everywhere, start_deletion, remove_copies, close_deletion,
}
use netbox_plugin_backup.Deletion.Safety.{IsUntouched, failed_deletion_changes_nothing}
use netbox_plugin_backup.Deletion.Target.{
  Profile, TargetRows, target_copy_not_removed, validate_target_external_copies, target_replicas,
  target_artifacts, delete_target_copies, drop_target,
}
use netbox_plugin_backup.Deletion.Target.Execute.{
  TargetDeleted, delete_backup_target, start_target, remove_target_copies, close_target,
}
use netbox_plugin_backup.Deletion.Target.Safety.{IsIntact, failed_target_deletion_changes_nothing}
use netbox_plugin_backup.Deletion.Removed.{has_id, deletion_removes_one}

abbrev copy : ReplicaRow
copy = record {
  id = 1;
  status = ReplicaStatus.success;
  destination_enabled = true;
  destination_is_replicated = true;
  next_retry_at = none;
  remote_available = true;
  remote_path = "/backups/a";
  remote_deleted_at = none;
}

abbrev revision : ℕ → Text → ConfigRevision Text
revision i key = record {
  id = i;
  created = 10 * i;
  is_protected = false;
  content_changed = true;
  previous_revision = none;
  artifacts =
      record {
        id = i;
        storage_key = key;
        size = 1;
        local_available = true;
        local_deleted_at = none;
      }
      ∷ [];
  replicas = copy ∷ [];
}

abbrev archive : Archive Text
archive = record {
  target_id = 5;
  last_revision = some 2;
  revisions = revision 1 (codes "a") ∷ revision 2 (codes "b") ∷ [];
  runs = [];
}

abbrev disk : Disk
disk = record {
  files = λ p.
      if p == (codes "a" ∷ [])
      then some (1 ∷ [])
      else if p == (codes "b" ∷ [])
      then some (2 ∷ [])
      else none;
  calls = 0;
}

abbrev never : ℕ → Bool
never n = false

abbrev removes : ℕ → ReplicaRow → ℕ × Result RemoteFault (ℕ × ℕ)
removes count r = (count + 1, ok (2, 0))

abbrev refuses : ℕ → ReplicaRow → ℕ × Result RemoteFault (ℕ × ℕ)
refuses count r = (count, err (destination_error "connection_failed"))

abbrev finished : Deleted Disk ℕ Text
finished =
    delete_config_revision_everywhere (local_storage never) removes true (codes "n") 1 archive 0
      disk

abbrev summary : RevisionDeletionSummary
summary = record {
  revision_id = 1;
  artifact_count = 1;
  artifact_bytes = 1;
  local_file_count = 1;
  missing_local_file_count = 0;
  replica_count = 1;
  remote_file_count = 2;
  missing_remote_file_count = 0;
  detached_run_count = 0;
  quarantine_purge_failures = 0;
}

finished-summary : finished.result ≡ ok summary
unfolding delete_config_revision_everywhere start_deletion remove_copies close_deletion
    check_deletion find_revision has_active_run validate_replica validate_replicas has_remote_copy
    remove_each stage_each stage_delete stage_with purge_staged purge_staged_delete delete
    delete_with path_of parts split
finished-summary = refl

deletion_removes_one_example :
    (r : ConfigRevision Text) × (find_revision 1 archive.revisions ≡ some r)
    × (r.is_protected ≡ false)
    × (has_active_run archive.runs ≡ false)
    × (validate_replicas r.replicas ≡ ok tt)
    × (summary.revision_id ≡ 1)
    × (has_id 1 finished.archive.revisions ≡ false)
    × ((x : ConfigRevision Text)
        → x.id ≢ 1
        → Holds x archive.revisions
        → Holds x finished.archive.revisions)
deletion_removes_one_example =
    deletion_removes_one (local_storage never) removes true (codes "n") 1 archive 0 disk summary
      finished-summary

abbrev refused_deletion : Deleted Disk ℕ Text
refused_deletion =
    delete_config_revision_everywhere (local_storage never) refuses true (codes "n") 1 archive 0
      disk

refused-failure : refused_deletion.result ≡ err (remote_copy_not_removed "connection_failed")
unfolding delete_config_revision_everywhere start_deletion remove_copies close_deletion
    check_deletion find_revision has_active_run validate_replica validate_replicas has_remote_copy
    remove_each stage_each stage_delete stage_with restore_staged restore_staged_delete restore_with
    path_of parts split
refused-failure = refl

failed_deletion_changes_nothing_example :
    IsUntouched
      (local_storage never)
      disk_objects
      same_text_key
      (local_storage-IsReversible never)
      refuses
      archive
      disk
      refused_deletion
failed_deletion_changes_nothing_example =
    failed_deletion_changes_nothing (local_storage never) disk_objects same_text_key
      (local_storage-IsReversible never) refuses true (codes "n") 1 archive 0 disk
      (remote_copy_not_removed "connection_failed") refused-failure (λ e. cc) (λ e. cc)

abbrev quick : Profile
quick = record { id = 4; is_quick = true; has_other_targets = false; has_platform_mappings = false }

abbrev target_rows : TargetRows Text
target_rows = record { target = some archive; connection = some quick; credential = none }

abbrev refused_target : TargetDeleted Disk ℕ Text
refused_target =
    delete_backup_target (local_storage never) refuses true (codes "n") target_rows 0 disk

refused_target-failure : refused_target.result ≡ err (target_copy_not_removed "connection_failed")
unfolding delete_backup_target start_target remove_target_copies close_target
    validate_target_external_copies target_replicas target_artifacts delete_target_copies
    has_active_run stage_each stage_delete stage_with restore_staged restore_staged_delete
    restore_with path_of parts split
refused_target-failure = refl

-- Without a failure the target goes, and with it the profile that only it used.
target_gone :
    (delete_backup_target (local_storage never) removes true (codes "n") target_rows 0 disk).rows
    ≡ record { target = none; connection = none; credential = none }
unfolding delete_backup_target start_target remove_target_copies close_target
    validate_target_external_copies target_replicas target_artifacts delete_target_copies
    drop_target has_active_run stage_each stage_delete stage_with path_of parts split
target_gone = refl

failed_target_deletion_changes_nothing_example :
    IsIntact
      (local_storage never)
      disk_objects
      same_text_key
      (local_storage-IsReversible never)
      refuses
      target_rows
      disk
      refused_target
failed_target_deletion_changes_nothing_example =
    failed_target_deletion_changes_nothing (local_storage never) disk_objects same_text_key
      (local_storage-IsReversible never) refuses true (codes "n") target_rows 0 disk
      (target_copy_not_removed "connection_failed") refused_target-failure (λ e. cc) (λ e. cc)
