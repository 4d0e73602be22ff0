-- ===== src/Deletion/Safety.antt =====
-- Proofs on netbox_config_backup/services/revision_deletion.py: what a failed deletion leaves behind.
use netbox_plugin_backup.Prelude.{
  ℕ, ◌≡◌, ◌≢◌, refl, sym, ◌∙◌, Bool, true, false, List, [], Result, ok, err, err-injective, Text,
}
use netbox_plugin_backup.Storage.{Fault, ConfigStorage, View, IsReversible}
use netbox_plugin_backup.Storage.Quarantine.{Staging, restore_staged}
use netbox_plugin_backup.Storage.Trail.{Trail, start, stage_each-Trail}
use netbox_plugin_backup.Storage.Undo.{undone, undone-Trail}
use netbox_plugin_backup.Archive.{ReplicaRow, ConfigRevision, Archive}
use netbox_plugin_backup.Deletion.{
  DeletionFailure, deletion_escaped, Abort, other_fault, abort_of, local_files_left,
  deletion_raises, RemoteFault, RevisionDeletionSummary, Removal, remove_each, check_deletion,
}
use netbox_plugin_backup.Deletion.Execute.{
  Deleted, purge_counted, abandoned, deletion_summary, close_deletion, no_removal, remove_copies,
  revision_staging, start_deletion, delete_config_revision_everywhere,
}

module _ {Store Remote K : Type 0} (storage : ConfigStorage Store K) (objects : Store → View K)
    (same : K → K → Bool) (laws : IsReversible storage objects same)
    (delete_revision_replica : Remote → ReplicaRow → Remote × Result RemoteFault (ℕ × ℕ)) where
  -- The rows and the local objects are as they were.
  abbrev pub IsUntouched : Archive K → Store → Deleted Store Remote K → Type 0
  IsUntouched a s r = (r.archive ≡ a) × ((x : K) → objects r.store x ≡ objects s x)

  -- A result that tells that all was restored.
  abbrev pub IsRestored : Deleted Store Remote K → Type 0
  IsRestored r =
      (e : DeletionFailure) × (r.result ≡ err e) × (e ≢ local_files_left) × (e ≢ deletion_escaped)

  abandoned-IsUntouched :
      (remote : Remote) (a : Archive K) (s u : Store) (staged : List (K × K)) (cause : Abort)
      → Trail same (objects s) staged (objects u)
      → IsRestored (
          abandoned remote a
            (undone (deletion_raises cause) (restore_staged storage staged false u)))
      → IsUntouched a s (
          abandoned remote a
            (undone (deletion_raises cause) (restore_staged storage staged false u)))
  abandoned-IsUntouched remote a s u staged cause trail (e, h, n, m) =
      let same_cause = err-injective h in
      (
        refl,
        undone-Trail storage objects same laws (deletion_raises cause) (objects s) staged u trail
            (λ q. n (sym same_cause ∙ q)) (λ q. m (sym same_cause ∙ q)),
      )

  purge_counted-escaped :
      (summary : RevisionDeletionSummary) (x : Result Fault ℕ) (e : DeletionFailure)
      → purge_counted summary x ≡ err e
      → deletion_escaped ≡ e
  purge_counted-escaped summary (ok failures) e h = absurd (cc)
  purge_counted-escaped summary (err fault) e h = err-injective h

  close_deletion-IsUntouched :
      (commits : Bool) (r : ConfigRevision K) (a : Archive K) (s : Store) (st : Staging storage)
      (removal : Removal Remote) (outcome : Result Abort (Unit {0}))
      → Trail same (objects s) st.staged (objects st.store)
      → IsRestored (close_deletion storage delete_revision_replica commits r a st removal outcome)
      → IsUntouched a s
          (close_deletion storage delete_revision_replica commits r a st removal outcome)
  unfolding close_deletion
  close_deletion-IsUntouched commits r a s st removal (err cause) trail h =
      abandoned-IsUntouched removal.remote a s st.store st.staged cause trail h
  close_deletion-IsUntouched false r a s st removal (ok u) trail h =
      abandoned-IsUntouched removal.remote a s st.store st.staged other_fault trail h
  close_deletion-IsUntouched true r a s st removal (ok u) trail (e, h, n, m) = absurd (
      m (
        sym (
          purge_counted-escaped (deletion_summary storage delete_revision_replica r a st removal) _
            e h)))

  remove_copies-IsUntouched :
      (commits : Bool) (r : ConfigRevision K) (a : Archive K) (remote : Remote) (s : Store)
      (st : Staging storage) (outcome : Result Fault (Unit {0}))
      → Trail same (objects s) st.staged (objects st.store)
      → IsRestored (remove_copies storage delete_revision_replica commits r a remote st outcome)
      → IsUntouched a s
          (remove_copies storage delete_revision_replica commits r a remote st outcome)
  unfolding remove_copies
  remove_copies-IsUntouched commits r a remote s st (err fault) trail h =
      abandoned-IsUntouched remote a s st.store st.staged (abort_of fault) trail h
  remove_copies-IsUntouched commits r a remote s st (ok u) trail h =
      close_deletion-IsUntouched commits r a s st
        (remove_each delete_revision_replica r.replicas
          (no_removal storage delete_revision_replica remote))
        _ trail h

  start_deletion-IsUntouched :
      (commits : Bool) (namespace : Text) (checked : Result Abort (ConfigRevision K))
      (a : Archive K) (remote : Remote) (s : Store)
      → IsRestored
          (start_deletion storage delete_revision_replica commits namespace checked a remote s)
      → IsUntouched a s
          (start_deletion storage delete_revision_replica commits namespace checked a remote s)
  unfolding start_deletion
  start_deletion-IsUntouched commits namespace (err cause) a remote s h =
      abandoned-IsUntouched remote a s s [] cause (start (objects s) (λ x. refl)) h
  start_deletion-IsUntouched commits namespace (ok r) a remote s h =
      remove_copies-IsUntouched commits r a remote s
        (revision_staging storage delete_revision_replica namespace r s) _
        (stage_each-Trail storage objects same laws (objects s) namespace _ s [] 0
          (start (objects s) (λ x. refl)))
        h

  -- On a storage that keeps the promises of its interface, a deletion that fails with any message but
  -- the one on local files that could not be fully restored leaves every row and every local object
  -- as it was, whatever failed on the way: the checks, a staging, a remote copy or the database.
  pub failed_deletion_changes_nothing :
      (commits : Bool) (namespace : Text) (i : ℕ) (a : Archive K) (remote : Remote) (s : Store)
      (e : DeletionFailure)
      → (delete_config_revision_everywhere storage delete_revision_replica commits namespace i a
          remote s).result
        ≡ err e
      → e ≢ local_files_left
      → e ≢ deletion_escaped
      → IsUntouched a s (
          delete_config_revision_everywhere storage delete_revision_replica commits namespace i a
            remote s)
  unfolding delete_config_revision_everywhere
  failed_deletion_changes_nothing commits namespace i a remote s e h n m =
      start_deletion-IsUntouched commits namespace (check_deletion i a) a remote s (e, h, n, m)
