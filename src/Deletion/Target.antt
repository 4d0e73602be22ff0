-- ===== src/Deletion/Target.antt =====
-- netbox_config_backup/services/target_deletion.py and services/target_deletion_ftp.py: the deletion of
-- a target with its history, its stored objects, its remote copies and the profiles of the quick
-- setup that nothing else uses; Execute puts the steps together. The removal of one remote copy is a parameter, as for a revision.
-- The rows change in one transaction; `commits` says whether the database carries it out. A
-- ValueError of the removal itself is not told apart from other exceptions.
pub mod Execute
pub mod Safety
use netbox_plugin_backup.Prelude.{
  ℕ, suc, ◌+◌, ◌≡◌, Bool, true, false, not, ◌&&◌, ◌||◌, Option, none, some, is_some, List, [], ◌∷◌,
  ◌++◌, map, reverse, String, Result, ok, err, ◌>>=◌, ◌>>◌, require, length, any_of, keep_if, leb,
  string_eq, ◌==◌, Text, if◌then◌else◌,
}
use netbox_plugin_backup.Choices.{ReplicaStatus}
use netbox_plugin_backup.Storage.{Fault, storage_error, unexpected, ConfigStorage}
use netbox_plugin_backup.Storage.Quarantine.{Staging, stage_each, restore_staged, purge_staged}
use netbox_plugin_backup.Storage.Undo.{Raises, undone}
use netbox_plugin_backup.Archive.{
  ConfigArtifact, ReplicaRow, ConfigRevision, Archive, has_active_run,
}
use netbox_plugin_backup.Deletion.{RemoteFault, destination_error, remote_other}

-- A connection or credential profile that is the target's own choice: whether the quick setup made
-- it (its name starts with "[Quick]"), and whether other targets or platforms use it.
pub record Profile : Type 0 where
  pub id : ℕ
  pub is_quick : Bool
  pub has_other_targets : Bool
  pub has_platform_mappings : Bool

-- The target's rows, and the profiles that it refers to.
pub record TargetRows (K : Type 0) : Type 0 where
  pub target : Option (Archive K)
  pub connection : Option Profile
  pub credential : Option Profile

pub record TargetDeletionSummary : Type 0 where
  pub run_count : ℕ
  pub revision_count : ℕ
  pub artifact_count : ℕ
  pub quick_connection : Bool
  pub quick_credential : Bool

-- TargetDeletionError with a message, the one that names the error code of a destination, or an
-- exception that is let through.
pub data TargetFailure : Type 0 where
  target_deletion_error : String → TargetFailure
  target_copy_not_removed : String → TargetFailure
  target_escaped : TargetFailure

pub data TargetAbort : Type 0 where
  target_error : TargetFailure → TargetAbort
  target_storage_fault target_other : TargetAbort

abbrev pub target_files_left : TargetFailure
target_files_left =
    target_deletion_error
      "Target deletion failed and quarantined files could not be fully restored."

abbrev pub target_translated : TargetAbort → TargetFailure
target_translated (target_error e) = e
target_translated target_storage_fault =
    target_deletion_error
      "Stored configuration files could not be quarantined. Nothing was deleted."
target_translated target_other = target_deletion_error "Target deletion failed before commit."

abbrev pub target_abort_of : Fault → TargetAbort
target_abort_of (storage_error message) = target_storage_fault
target_abort_of unexpected = target_other

abbrev pub target_raises : TargetAbort → Raises TargetFailure
target_raises e = record {
  not_restored = target_files_left;
  escaped = target_escaped;
  cause = target_translated e;
}

abbrev target_refused : String → TargetAbort
target_refused message = target_error (target_deletion_error message)

abbrev is_copied : ReplicaRow → Bool
is_copied r = r.remote_available || not (r.remote_path == "")

abbrev is_in_transfer : ReplicaStatus → Bool
is_in_transfer ReplicaStatus.queued = true
is_in_transfer ReplicaStatus.running = true
is_in_transfer ReplicaStatus.pending = false
is_in_transfer ReplicaStatus.success = false
is_in_transfer ReplicaStatus.failed = false

-- `validate_target_external_copies`
unfoldable pub validate_target_external_copies : List ReplicaRow → Result TargetAbort (Unit {0})
validate_target_external_copies rs = do
  require (not (any_of (λ r. is_in_transfer r.status) rs))
      (target_refused "The target has an active remote transfer and cannot be deleted.")
  require
      (not
        (any_of (λ r. r.destination_is_replicated && not r.destination_enabled && is_copied r) rs))
      (target_refused
        "A remote storage containing this target is disabled. Enable it before deleting the target so its external copies can be removed safely.")
  require (not (any_of (λ r. not r.destination_is_replicated && is_copied r) rs)) (
      target_refused
        "The target still has an external copy which this version cannot remove safely. Delete that copy before removing the target.")
  ok tt

abbrev copy_abort : RemoteFault → TargetAbort
copy_abort (destination_error code) = target_error (target_copy_not_removed code)
copy_abort remote_other = target_other

module _ {Remote : Type 0}
    (delete_revision_replica : Remote → ReplicaRow → Remote × Result RemoteFault (ℕ × ℕ)) where
  abbrev copy_gone :
      Remote × Result RemoteFault (ℕ × ℕ)
      → (Remote → Remote × Result TargetAbort (Unit {0}))
      → Remote × Result TargetAbort (Unit {0})
  copy_gone (remote, ok counts) next = next remote
  copy_gone (remote, err e) next = (remote, err (copy_abort e))

  -- `delete_target_ftp_copies`
  unfoldable pub delete_target_copies :
      List ReplicaRow → Remote → Remote × Result TargetAbort (Unit {0})
  delete_target_copies [] remote = (remote, ok tt)
  delete_target_copies (r ∷ rs) remote =
      let rest : Remote → Remote × Result TargetAbort (Unit {0}) = delete_target_copies rs in
      if not r.destination_is_replicated || not (is_copied r)
      then rest remote
      else if r.remote_path == ""
      then (
        remote,
        err (
            target_refused
              "A remote copy has inconsistent path metadata. The target was not deleted."),
      )
      else copy_gone (delete_revision_replica remote r) rest

abbrev insert_replica : ReplicaRow → List ReplicaRow → List ReplicaRow
insert_replica r [] = r ∷ []
insert_replica r (q ∷ qs) =
    let rest = insert_replica r qs in if leb r.id q.id then r ∷ q ∷ qs else q ∷ rest

-- `.order_by("pk")`
abbrev order_replicas : List ReplicaRow → List ReplicaRow
order_replicas [] = []
order_replicas (r ∷ rs) = insert_replica r (order_replicas rs)

abbrev is_quick_profile : Option Profile → Bool
is_quick_profile none = false
is_quick_profile (some p) = p.is_quick

-- A profile of the quick setup goes with the last target that uses it.
abbrev kept_profile : Option Profile → Option Profile
kept_profile none = none
kept_profile (some p) =
    if p.is_quick && not p.has_other_targets && not p.has_platform_mappings then none else some p

module _ {K : Type 0} where
  abbrev all_replicas : List (ConfigRevision K) → List ReplicaRow
  all_replicas [] = []
  all_replicas (r ∷ rs) = r.replicas ++ all_replicas rs

  -- The replicas that are not deleted remotely yet.
  unfoldable pub target_replicas : Archive K → List ReplicaRow
  target_replicas a =
      order_replicas (keep_if (λ r. not (is_some r.remote_deleted_at)) (all_replicas a.revisions))

  unfoldable pub target_artifacts : List (ConfigRevision K) → List (ConfigArtifact K)
  target_artifacts [] = []
  target_artifacts (r ∷ rs) = r.artifacts ++ target_artifacts rs

  unfoldable pub summarize_target_deletion : Archive K → TargetRows K → TargetDeletionSummary
  summarize_target_deletion a rows = record {
    run_count = length a.runs;
    revision_count = length a.revisions;
    artifact_count = length (target_artifacts a.revisions);
    quick_connection = is_quick_profile rows.connection;
    quick_credential = is_quick_profile rows.credential;
  }

  unfoldable pub drop_target : TargetRows K → TargetRows K
  drop_target rows = record {
    target = none;
    connection = kept_profile rows.connection;
    credential = kept_profile rows.credential;
  }

  -- The checks ahead of the first change; a target that is gone is another exception.
  abbrev pub checked_target : Option (Archive K) → Result TargetAbort (Archive K)
  checked_target none = err target_other
  checked_target (some a) = do
    require (not (has_active_run a.runs))
        (target_refused "The target has an active backup run and cannot be deleted.")
    validate_target_external_copies (target_replicas a)
    ok a
