-- ===== src/Deletion.antt =====
-- netbox_config_backup/services/revision_deletion.py: the deletion of one revision everywhere. Its
-- remote copies are removed by `delete_revision_replica` of services/destination.py, a parameter. The
-- rows change in one transaction; `commits` says whether the database carries it out.
pub mod Execute
pub mod Safety
pub mod Removed
pub mod Target
mod Tests
use netbox_plugin_backup.Prelude.{
  ℕ, suc, ◌+◌, ◌≡◌, Bool, true, false, not, ◌&&◌, ◌||◌, Option, none, some, is_some, List, [], ◌∷◌,
  map, reverse, String, Result, ok, err, ◌>>=◌, ◌>>◌, require, length, count_if, nat_beq, string_eq,
  ◌==◌, Text, if◌then◌else◌,
}
use netbox_plugin_backup.Choices.{ReplicaStatus}
use netbox_plugin_backup.Storage.{Fault, storage_error, unexpected, ConfigStorage}
use netbox_plugin_backup.Storage.Quarantine.{Staging, stage_each, restore_staged, purge_staged}
use netbox_plugin_backup.Storage.Undo.{Raises, undone}
use netbox_plugin_backup.Archive.{
  ConfigArtifact, ReplicaRow, ConfigRevision, RunRow, Archive, has_active_run, delete_revisions,
}
use netbox_plugin_backup.Archive.Chain.{relink_kept_revisions}

-- What a deletion raises: RevisionDeletionError with a message, the one that names the error code of
-- a destination, or an exception that it lets through.
pub data DeletionFailure : Type 0 where
  revision_deletion_error : String → DeletionFailure
  remote_copy_not_removed : String → DeletionFailure
  deletion_escaped : DeletionFailure

-- What ends the transaction: an error of its own, ConfigRevision.DoesNotExist, StorageError, or
-- another exception.
pub data Abort : Type 0 where
  deletion_error : DeletionFailure → Abort
  does_not_exist storage_fault other_fault : Abort

-- DestinationError with its code, or another exception.
pub data RemoteFault : Type 0 where
  destination_error : String → RemoteFault
  remote_other : RemoteFault

pub record RevisionDeletionSummary : Type 0 where
  pub revision_id : ℕ
  pub artifact_count : ℕ
  pub artifact_bytes : ℕ
  pub local_file_count : ℕ
  pub missing_local_file_count : ℕ
  pub replica_count : ℕ
  pub remote_file_count : ℕ
  pub missing_remote_file_count : ℕ
  pub detached_run_count : ℕ
  pub quarantine_purge_failures : ℕ

abbrev refused : String → Abort
refused message = deletion_error (revision_deletion_error message)

abbrev pub local_files_left : DeletionFailure
local_files_left =
    revision_deletion_error
      "Revision deletion failed and quarantined local files could not be fully restored."

abbrev pub deletion_translated : Abort → DeletionFailure
deletion_translated (deletion_error e) = e
deletion_translated does_not_exist = revision_deletion_error "The revision no longer exists."
deletion_translated storage_fault =
    revision_deletion_error
      "Stored configuration files could not be quarantined. Nothing was deleted."
deletion_translated other_fault = revision_deletion_error "Revision deletion failed before commit."

abbrev pub abort_of : Fault → Abort
abort_of (storage_error message) = storage_fault
abort_of unexpected = other_fault

abbrev pub deletion_raises : Abort → Raises DeletionFailure
deletion_raises e = record {
  not_restored = local_files_left;
  escaped = deletion_escaped;
  cause = deletion_translated e;
}

abbrev has_recorded_copy : ReplicaRow → Bool
has_recorded_copy r = r.remote_available || not (r.remote_path == "")

-- A transfer that runs or will run.
abbrev is_transferring : ReplicaRow → ReplicaStatus → Bool
is_transferring r ReplicaStatus.queued = true
is_transferring r ReplicaStatus.running = true
is_transferring r ReplicaStatus.failed = is_some r.next_retry_at
is_transferring r ReplicaStatus.pending = false
is_transferring r ReplicaStatus.success = false

-- A copy that the deletion has to remove.
unfoldable pub has_remote_copy : ReplicaRow → Bool
has_remote_copy r = has_recorded_copy r && not (is_some r.remote_deleted_at)

unfoldable pub validate_replica : ReplicaRow → Result Abort (Unit {0})
unfolding has_remote_copy
validate_replica r =
    if is_transferring r r.status
    then err
        (refused "The revision has an active or scheduled remote transfer and cannot be deleted.")
    else if not (has_remote_copy r)
    then ok tt
    else if not r.destination_is_replicated
    then err (refused "The revision has an external copy which this version cannot remove safely.")
    else if not r.destination_enabled
    then err (
        refused
          "A remote storage containing this revision is disabled. Enable it before deleting the revision so its copy can be removed safely.")
    else if r.remote_path == ""
    then err (refused "A remote copy has inconsistent path metadata. The revision was not deleted.")
    else ok tt

unfoldable pub validate_replicas : List ReplicaRow → Result Abort (Unit {0})
validate_replicas [] = ok tt
validate_replicas (r ∷ rs) = do validate_replica r; validate_replicas rs

-- The counts of the removed copies, and the exception that ended the loop.
pub record Removal (Remote : Type 0) : Type 0 where
  pub remote : Remote
  pub replica_count : ℕ
  pub removed_files : ℕ
  pub missing_files : ℕ
  pub outcome : Result Abort (Unit {0})

abbrev remote_abort : RemoteFault → Abort
remote_abort (destination_error code) = deletion_error (remote_copy_not_removed code)
remote_abort remote_other = other_fault

module _ {Remote : Type 0}
    (delete_revision_replica : Remote → ReplicaRow → Remote × Result RemoteFault (ℕ × ℕ)) where
  abbrev removed_one :
      Remote × Result RemoteFault (ℕ × ℕ)
      → Removal Remote
      → (Removal Remote → Removal Remote)
      → Removal Remote
  removed_one (remote, ok (deleted, missing)) before next = next (record {
    remote = remote;
    replica_count = before.replica_count + 1;
    removed_files = before.removed_files + deleted;
    missing_files = before.missing_files + missing;
    outcome = ok tt;
  })
  removed_one (remote, err e) before next = record before {
    remote = remote;
    outcome = err (remote_abort e);
  }

  unfoldable pub remove_each : List ReplicaRow → Removal Remote → Removal Remote
  remove_each [] done = done
  remove_each (r ∷ rs) done =
      let rest : Removal Remote → Removal Remote = remove_each rs in
      if has_remote_copy r
      then removed_one (delete_revision_replica done.remote r) done rest
      else rest done

-- `BackupRun.objects.filter(revision=revision)`
abbrev pub is_run_of : ℕ → RunRow → Bool
is_run_of i run = elim run.revision [ none ↦ false | some j ↦ nat_beq j i ]

module _ {K : Type 0} where
  unfoldable pub find_revision : ℕ → List (ConfigRevision K) → Option (ConfigRevision K)
  find_revision i [] = none
  find_revision i (r ∷ rs) =
      let rest = find_revision i rs in if nat_beq r.id i then some r else rest

  abbrev found : Option (ConfigRevision K) → Result Abort (ConfigRevision K)
  found none = err does_not_exist
  found (some r) = ok r

  -- The checks ahead of the first change.
  unfoldable pub check_deletion : ℕ → Archive K → Result Abort (ConfigRevision K)
  check_deletion i a = do
    r ← found (find_revision i a.revisions)
    require (not r.is_protected)
        (refused "The revision is protected. Unprotect it before deleting it.")
    require (not (has_active_run a.runs)) (
        refused
          "The target has an active backup run. Wait for it to finish before deleting the revision.")
    validate_replicas r.replicas
    ok r

  -- The changes of the rows.
  unfoldable pub drop_revision : ℕ → Archive K → Archive K
  drop_revision i a = delete_revisions (i ∷ []) (relink_kept_revisions (i ∷ []) a)
