-- ===== src/Deletion/Execute.antt =====
-- netbox_config_backup/services/revision_deletion.py: `delete_config_revision_everywhere`, from the
-- checks to the two ways out. Its remote copies are removed by `delete_revision_replica` of
-- services/destination.py, a parameter, and are not brought back. The rows change in one
-- transaction; `commits` says whether the database carries it out.
use netbox_plugin_backup.Prelude.{
  ℕ, Bool, true, false, [], map, reverse, Result, ok, err, length, count_if, Text,
}
use netbox_plugin_backup.Storage.{Fault, ConfigStorage}
use netbox_plugin_backup.Storage.Quarantine.{Staging, stage_each, restore_staged, purge_staged}
use netbox_plugin_backup.Storage.Undo.{undone}
use netbox_plugin_backup.Archive.{ConfigArtifact, ReplicaRow, ConfigRevision, Archive, total_size}
use netbox_plugin_backup.Deletion.{
  DeletionFailure, deletion_escaped, Abort, other_fault, abort_of, deletion_raises, RemoteFault,
  RevisionDeletionSummary, Removal, remove_each, check_deletion, is_run_of, drop_revision,
}

-- What a deletion leaves, with its result.
pub record Deleted (Store Remote K : Type 0) : Type 0 where
  pub store : Store
  pub remote : Remote
  pub archive : Archive K
  pub result : Result DeletionFailure RevisionDeletionSummary

abbrev pub purge_counted :
    RevisionDeletionSummary → Result Fault ℕ → Result DeletionFailure RevisionDeletionSummary
purge_counted summary (ok failures) = ok (record summary { quarantine_purge_failures = failures })
purge_counted summary (err e) = err deletion_escaped

abbrev pub abandoned :
    {Store Remote K : Type 0}
    → Remote
    → Archive K
    → Store × DeletionFailure
    → Deleted Store Remote K
abandoned remote a (s, e) = record { store = s; remote = remote; archive = a; result = err e }

module _ {Store Remote K : Type 0} (storage : ConfigStorage Store K)
    (delete_revision_replica : Remote → ReplicaRow → Remote × Result RemoteFault (ℕ × ℕ)) where
  abbrev pub deletion_summary :
      ConfigRevision K → Archive K → Staging storage → Removal Remote → RevisionDeletionSummary
  deletion_summary r a st removal = record {
    revision_id = r.id;
    artifact_count = length r.artifacts;
    artifact_bytes = total_size r.artifacts;
    local_file_count = length st.staged;
    missing_local_file_count = st.missing;
    replica_count = removal.replica_count;
    remote_file_count = removal.removed_files;
    missing_remote_file_count = removal.missing_files;
    detached_run_count = count_if (is_run_of r.id) a.runs;
    quarantine_purge_failures = 0;
  }

  -- After the remote copies: the rows change and the staged objects are purged, or all is undone.
  unfoldable pub close_deletion :
      Bool
      → ConfigRevision K
      → Archive K
      → Staging storage
      → Removal Remote
      → Result Abort (Unit {0})
      → Deleted Store Remote K
  close_deletion commits r a st removal (err e) =
      abandoned removal.remote a
        (undone (deletion_raises e) (restore_staged storage st.staged false st.store))
  close_deletion false r a st removal (ok u) =
      abandoned removal.remote a
        (undone (deletion_raises other_fault) (restore_staged storage st.staged false st.store))
  close_deletion true r a st removal (ok u) =
      let purge = purge_staged storage (reverse st.staged) 0 st.store in
      record {
        store = purge.0;
        remote = removal.remote;
        archive = drop_revision r.id a;
        result = purge_counted (deletion_summary r a st removal) purge.1;
      }

  abbrev pub no_removal : Remote → Removal Remote
  no_removal remote = record {
    remote = remote;
    replica_count = 0;
    removed_files = 0;
    missing_files = 0;
    outcome = ok tt;
  }

  -- After the staging loop.
  unfoldable pub remove_copies :
      Bool
      → ConfigRevision K
      → Archive K
      → Remote
      → Staging storage
      → Result Fault (Unit {0})
      → Deleted Store Remote K
  remove_copies commits r a remote st (err e) =
      abandoned remote a
        (undone (deletion_raises (abort_of e)) (restore_staged storage st.staged false st.store))
  remove_copies commits r a remote st (ok u) =
      let removal = remove_each delete_revision_replica r.replicas (no_removal remote) in
      close_deletion commits r a st removal removal.outcome

  abbrev pub revision_staging : Text → ConfigRevision K → Store → Staging storage
  revision_staging namespace r s =
      stage_each storage namespace (map (λ (x : ConfigArtifact K). x.storage_key) r.artifacts) s []
        0

  unfoldable pub start_deletion :
      Bool
      → Text
      → Result Abort (ConfigRevision K)
      → Archive K
      → Remote
      → Store
      → Deleted Store Remote K
  start_deletion commits namespace (err e) a remote s =
      abandoned remote a (undone (deletion_raises e) (restore_staged storage [] false s))
  start_deletion commits namespace (ok r) a remote s =
      let st = revision_staging namespace r s in remove_copies commits r a remote st st.outcome

  unfoldable pub delete_config_revision_everywhere :
      Bool → Text → ℕ → Archive K → Remote → Store → Deleted Store Remote K
  delete_config_revision_everywhere commits namespace i a remote s =
      start_deletion commits namespace (check_deletion i a) a remote s
