-- ===== src/Deletion/Target/Safety.antt =====
-- Proofs on netbox_config_backup/services/target_deletion.py: what a failed deletion leaves behind.
use netbox_plugin_backup.Prelude.{
  ℕ, ◌≡◌, ◌≢◌, refl, sym, ◌∙◌, Bool, true, false, List, [], Result, ok, err, err-injective, Text,
}
use netbox_plugin_backup.Storage.{Fault, ConfigStorage, View, IsReversible}
use netbox_plugin_backup.Storage.Quarantine.{Staging, restore_staged}
use netbox_plugin_backup.Storage.Trail.{Trail, start, stage_each-Trail}
use netbox_plugin_backup.Storage.Undo.{undone, undone-Trail}
use netbox_plugin_backup.Archive.{ReplicaRow, Archive}
use netbox_plugin_backup.Deletion.{RemoteFault}
use netbox_plugin_backup.Deletion.Target.{
  TargetRows, TargetDeletionSummary, TargetFailure, target_escaped, TargetAbort, target_other,
  target_files_left, target_raises, target_abort_of, delete_target_copies, target_replicas,
  summarize_target_deletion, checked_target,
}
use netbox_plugin_backup.Deletion.Target.Execute.{
  TargetDeleted, target_kept, purge_logged, close_target, remove_target_copies, target_staging,
  start_target, delete_backup_target,
}

module _ {Store Remote K : Type 0} (storage : ConfigStorage Store K) (objects : Store → View K)
    (same : K → K → Bool) (laws : IsReversible storage objects same)
    (delete_revision_replica : Remote → ReplicaRow → Remote × Result RemoteFault (ℕ × ℕ)) where
  -- The rows and the local objects are as they were.
  abbrev pub IsIntact : TargetRows K → Store → TargetDeleted Store Remote K → Type 0
  IsIntact rows s r = (r.rows ≡ rows) × ((x : K) → objects r.store x ≡ objects s x)

  -- A result that tells that all was restored.
  abbrev HasCause : TargetDeleted Store Remote K → Type 0
  HasCause r =
      (e : TargetFailure) × (r.result ≡ err e) × (e ≢ target_files_left) × (e ≢ target_escaped)

  target_kept-IsIntact :
      (remote : Remote) (rows : TargetRows K) (s u : Store) (staged : List (K × K))
      (cause : TargetAbort)
      → Trail same (objects s) staged (objects u)
      → HasCause (
          target_kept remote rows
            (undone (target_raises cause) (restore_staged storage staged false u)))
      → IsIntact rows s (
          target_kept remote rows
            (undone (target_raises cause) (restore_staged storage staged false u)))
  target_kept-IsIntact remote rows s u staged cause trail (e, h, n, m) =
      let same_cause = err-injective h in
      (
        refl,
        undone-Trail storage objects same laws (target_raises cause) (objects s) staged u trail
            (λ q. n (sym same_cause ∙ q)) (λ q. m (sym same_cause ∙ q)),
      )

  purge_logged-escaped :
      (summary : TargetDeletionSummary) (x : Result Fault ℕ) (e : TargetFailure)
      → purge_logged summary x ≡ err e
      → target_escaped ≡ e
  purge_logged-escaped summary (ok failures) e h = absurd (cc)
  purge_logged-escaped summary (err fault) e h = err-injective h

  close_target-IsIntact :
      (commits : Bool) (a : Archive K) (rows : TargetRows K) (s : Store) (st : Staging storage)
      (removal : Remote × Result TargetAbort (Unit {0}))
      → Trail same (objects s) st.staged (objects st.store)
      → HasCause (close_target storage delete_revision_replica commits a rows st removal)
      → IsIntact rows s (close_target storage delete_revision_replica commits a rows st removal)
  unfolding close_target
  close_target-IsIntact commits a rows s st (remote, err cause) trail h =
      target_kept-IsIntact remote rows s st.store st.staged cause trail h
  close_target-IsIntact false a rows s st (remote, ok u) trail h =
      target_kept-IsIntact remote rows s st.store st.staged target_other trail h
  close_target-IsIntact true a rows s st (remote, ok u) trail (e, h, n, m) =
      absurd (m (sym (purge_logged-escaped (summarize_target_deletion a rows) _ e h)))

  remove_target_copies-IsIntact :
      (commits : Bool) (a : Archive K) (rows : TargetRows K) (remote : Remote) (s : Store)
      (st : Staging storage) (outcome : Result Fault (Unit {0}))
      → Trail same (objects s) st.staged (objects st.store)
      → HasCause
          (remove_target_copies storage delete_revision_replica commits a rows remote st outcome)
      → IsIntact rows s
          (remove_target_copies storage delete_revision_replica commits a rows remote st outcome)
  unfolding remove_target_copies
  remove_target_copies-IsIntact commits a rows remote s st (err fault) trail h =
      target_kept-IsIntact remote rows s st.store st.staged (target_abort_of fault) trail h
  remove_target_copies-IsIntact commits a rows remote s st (ok u) trail h =
      close_target-IsIntact commits a rows s st
        (delete_target_copies delete_revision_replica (target_replicas a) remote) trail h

  start_target-IsIntact :
      (commits : Bool) (namespace : Text) (checked : Result TargetAbort (Archive K))
      (rows : TargetRows K) (remote : Remote) (s : Store)
      → HasCause
          (start_target storage delete_revision_replica commits namespace checked rows remote s)
      → IsIntact rows s
          (start_target storage delete_revision_replica commits namespace checked rows remote s)
  unfolding start_target
  start_target-IsIntact commits namespace (err cause) rows remote s h =
      target_kept-IsIntact remote rows s s [] cause (start (objects s) (λ x. refl)) h
  start_target-IsIntact commits namespace (ok a) rows remote s h =
      remove_target_copies-IsIntact commits a rows remote s
        (target_staging storage delete_revision_replica namespace a s) _
        (stage_each-Trail storage objects same laws (objects s) namespace _ s [] 0
          (start (objects s) (λ x. refl)))
        h

  -- On a storage that keeps the promises of its interface, the deletion of a target that fails with
  -- any message but the one on local files that could not be fully restored leaves the target, its
  -- profiles and every local object as they were, whatever failed on the way.
  pub failed_target_deletion_changes_nothing :
      (commits : Bool) (namespace : Text) (rows : TargetRows K) (remote : Remote) (s : Store)
      (e : TargetFailure)
      → (delete_backup_target storage delete_revision_replica commits namespace rows remote
          s).result
        ≡ err e
      → e ≢ target_files_left
      → e ≢ target_escaped
      → IsIntact rows s
          (delete_backup_target storage delete_revision_replica commits namespace rows remote s)
  unfolding delete_backup_target
  failed_target_deletion_changes_nothing commits namespace rows remote s e h n m =
      start_target-IsIntact commits namespace (checked_target rows.target) rows remote s
        (e, h, n, m)
