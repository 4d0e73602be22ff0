-- ===== src/Deletion/Target/Execute.antt =====
-- netbox_config_backup/services/target_deletion.py: `delete_backup_target`, from the staging of the
-- objects to the two ways out.
use netbox_plugin_backup.Prelude.{ℕ, Bool, true, false, [], map, reverse, Result, ok, err, Text}
use netbox_plugin_backup.Storage.{Fault, ConfigStorage}
use netbox_plugin_backup.Storage.Quarantine.{Staging, stage_each, restore_staged, purge_staged}
use netbox_plugin_backup.Storage.Undo.{undone}
use netbox_plugin_backup.Archive.{ConfigArtifact, ReplicaRow, Archive}
use netbox_plugin_backup.Deletion.{RemoteFault}
use netbox_plugin_backup.Deletion.Target.{
  TargetRows, TargetDeletionSummary, TargetFailure, target_escaped, TargetAbort, target_other,
  target_raises, target_abort_of, delete_target_copies, target_replicas, target_artifacts,
  summarize_target_deletion, drop_target, checked_target,
}

-- What a deletion leaves, with its result.
pub record TargetDeleted (Store Remote K : Type 0) : Type 0 where
  pub store : Store
  pub remote : Remote
  pub rows : TargetRows K
  pub result : Result TargetFailure TargetDeletionSummary

abbrev pub target_kept :
    {Store Remote K : Type 0}
    → Remote
    → TargetRows K
    → Store × TargetFailure
    → TargetDeleted Store Remote K
target_kept remote rows (s, e) = record { store = s; remote = remote; rows = rows; result = err e }

-- A purge that fails is only logged.
abbrev pub purge_logged :
    TargetDeletionSummary → Result Fault ℕ → Result TargetFailure TargetDeletionSummary
purge_logged summary (ok failures) = ok summary
purge_logged summary (err e) = err target_escaped

module _ {Store Remote K : Type 0} (storage : ConfigStorage Store K)
    (delete_revision_replica : Remote → ReplicaRow → Remote × Result RemoteFault (ℕ × ℕ)) where
  unfoldable pub close_target :
      Bool
      → Archive K
      → TargetRows K
      → Staging storage
      → Remote × Result TargetAbort (Unit {0})
      → TargetDeleted Store Remote K
  close_target commits a rows st (remote, err e) =
      target_kept remote rows
        (undone (target_raises e) (restore_staged storage st.staged false st.store))
  close_target false a rows st (remote, ok u) =
      target_kept remote rows
        (undone (target_raises target_other) (restore_staged storage st.staged false st.store))
  close_target true a rows st (remote, ok u) =
      let purge = purge_staged storage (reverse st.staged) 0 st.store in
      record {
        store = purge.0;
        remote = remote;
        rows = drop_target rows;
        result = purge_logged (summarize_target_deletion a rows) purge.1;
      }

  unfoldable pub remove_target_copies :
      Bool
      → Archive K
      → TargetRows K
      → Remote
      → Staging storage
      → Result Fault (Unit {0})
      → TargetDeleted Store Remote K
  remove_target_copies commits a rows remote st (err e) =
      target_kept remote rows (
        undone (target_raises (target_abort_of e))
          (restore_staged storage st.staged false st.store))
  remove_target_copies commits a rows remote st (ok u) =
      close_target commits a rows st
        (delete_target_copies delete_revision_replica (target_replicas a) remote)

  abbrev pub target_staging : Text → Archive K → Store → Staging storage
  target_staging namespace a s =
      stage_each storage namespace
        (map (λ (x : ConfigArtifact K). x.storage_key) (target_artifacts a.revisions)) s [] 0

  unfoldable pub start_target :
      Bool
      → Text
      → Result TargetAbort (Archive K)
      → TargetRows K
      → Remote
      → Store
      → TargetDeleted Store Remote K
  start_target commits namespace (err e) rows remote s =
      target_kept remote rows (undone (target_raises e) (restore_staged storage [] false s))
  start_target commits namespace (ok a) rows remote s =
      let st = target_staging namespace a s in
      remove_target_copies commits a rows remote st st.outcome

  unfoldable pub delete_backup_target :
      Bool → Text → TargetRows K → Remote → Store → TargetDeleted Store Remote K
  delete_backup_target commits namespace rows remote s =
      start_target commits namespace (checked_target rows.target) rows remote s
