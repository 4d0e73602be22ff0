-- ===== src/Deletion/Removed.antt =====
-- Proofs on netbox_config_backup/services/revision_deletion.py: what a deletion that succeeds does.
use netbox_plugin_backup.Prelude.{
  ℕ, ◌≡◌, ◌≢◌, refl, sym, ap, ◌∙◌, subst, Bool, true, false, not, Option, none, some, List, [], ◌∷◌,
  map, keep_if, any_of, Result, ok, err, ok-injective, >>=-eq-ok, require-eq-ok, nat_beq,
  nat_beq_iff, Bool-cases, inl, inr, Text, arith,
}
use netbox_plugin_backup.Storage.{Fault, ConfigStorage}
use netbox_plugin_backup.Storage.Quarantine.{Staging}
use netbox_plugin_backup.Archive.{
  ReplicaRow, ConfigRevision, Archive, is_in, has_active_run, set_null, delete_revisions,
}
use netbox_plugin_backup.Archive.Chain.{relink_kept_revisions}
use netbox_plugin_backup.Archive.Kept.{Holds, relink-Holds, delete_revisions-Holds}
use netbox_plugin_backup.Deletion.{
  Abort, RemoteFault, RevisionDeletionSummary, Removal, remove_each, find_revision, found,
  validate_replicas, check_deletion, drop_revision,
}
use netbox_plugin_backup.Deletion.Execute.{
  Deleted, purge_counted, deletion_summary, close_deletion, no_removal, remove_copies,
  revision_staging, start_deletion, delete_config_revision_everywhere,
}

module _ {K : Type 0} where
  abbrev pub has_id : ℕ → List (ConfigRevision K) → Bool
  has_id i rs = any_of (λ r. nat_beq r.id i) rs

  find_revision-id :
      (i : ℕ) (rs : List (ConfigRevision K)) (r : ConfigRevision K)
      → find_revision i rs ≡ some r
      → r.id ≡ i
  unfolding find_revision
  find_revision-id i [] r h = cc
  find_revision-id i (q ∷ rs) r h = elim (Bool-cases (nat_beq q.id i)) [
    | inl e ↦
        let p : some q ≡ some r = rw e at h in
        let same : r ≡ q = cc in ap (λ (x : ConfigRevision K). x.id) same ∙ (nat_beq_iff q.id i).0 e
    | inr e ↦ find_revision-id i rs r (rw e at h)
  ]

  not-has_id :
      (i : ℕ) (rs : List (ConfigRevision K))
      → has_id i (
          map
            (λ (r : ConfigRevision K). record r {
              previous_revision = set_null (i ∷ []) r.previous_revision;
            })
            (keep_if (λ (r : ConfigRevision K). not (is_in (i ∷ []) r.id)) rs))
        ≡ false
  not-has_id i [] = refl
  not-has_id i (r ∷ rs) = elim (Bool-cases (nat_beq r.id i)) [
    | inl e ↦ rw e (not-has_id i rs)
    | inr e ↦ rw e (rw e (not-has_id i rs))
  ]

  drop_revision-has_id : (i : ℕ) (a : Archive K) → has_id i (drop_revision i a).revisions ≡ false
  unfolding drop_revision delete_revisions
  drop_revision-has_id i a = not-has_id i (relink_kept_revisions (i ∷ []) a).revisions

  drop_revision-Holds :
      (i : ℕ) (a : Archive K) (x : ConfigRevision K)
      → x.id ≢ i
      → Holds x a.revisions
      → Holds x (drop_revision i a).revisions
  unfolding drop_revision
  drop_revision-Holds i a x n h =
      delete_revisions-Holds x (i ∷ []) _ (ground arith) (relink-Holds x (i ∷ []) a h)

  found-ok : (o : Option (ConfigRevision K)) (q : ConfigRevision K) → found o ≡ ok q → o ≡ some q
  found-ok none q h = cc
  found-ok (some r) q h = ap some (ok-injective h)

  -- What the checks have seen.
  check_deletion-ok :
      (i : ℕ) (a : Archive K) (r : ConfigRevision K)
      → check_deletion i a ≡ ok r
      → (find_revision i a.revisions ≡ some r)
        × (r.is_protected ≡ false)
        × (has_active_run a.runs ≡ false)
        × (validate_replicas r.replicas ≡ ok tt)
  unfolding check_deletion
  check_deletion-ok i a r h =
      let (q, h1, h2) = >>=-eq-ok (found (find_revision i a.revisions)) _ h in
      let (open_one, h3) = require-eq-ok (not q.is_protected) _ _ h2 in
      let (idle, h4) = require-eq-ok (not (has_active_run a.runs)) _ _ h3 in
      let (u, valid, h5) = >>=-eq-ok (validate_replicas q.replicas) _ h4 in
      subst
        (λ x.
          (find_revision i a.revisions ≡ some x)
          × (x.is_protected ≡ false)
          × (has_active_run a.runs ≡ false)
          × (validate_replicas x.replicas ≡ ok tt))
        (ok-injective h5)
        (found-ok (find_revision i a.revisions) q h1, ground arith, ground arith, valid)

module _ {Store Remote K : Type 0} (storage : ConfigStorage Store K)
    (delete_revision_replica : Remote → ReplicaRow → Remote × Result RemoteFault (ℕ × ℕ)) where
  purge_counted-ok :
      (summary : RevisionDeletionSummary) (x : Result Fault ℕ) (last : RevisionDeletionSummary)
      → purge_counted summary x ≡ ok last
      → summary.revision_id ≡ last.revision_id
  purge_counted-ok summary (ok failures) last h =
      ap (λ (y : RevisionDeletionSummary). y.revision_id) (ok-injective h)
  purge_counted-ok summary (err e) last h = absurd (cc)

  -- A success has changed the rows of the revision that its summary names.
  abbrev IsDropped : ConfigRevision K → Archive K → Deleted Store Remote K → Type 0
  IsDropped r a d = d.archive ≡ drop_revision r.id a

  close_deletion-ok :
      (commits : Bool) (r : ConfigRevision K) (a : Archive K) (st : Staging storage)
      (removal : Removal Remote) (outcome : Result Abort (Unit {0}))
      (last : RevisionDeletionSummary)
      → (close_deletion storage delete_revision_replica commits r a st removal outcome).result
        ≡ ok last
      → IsDropped r a
          (close_deletion storage delete_revision_replica commits r a st removal outcome)
        × (r.id ≡ last.revision_id)
  unfolding close_deletion
  close_deletion-ok commits r a st removal (err cause) last h = absurd (cc)
  close_deletion-ok false r a st removal (ok u) last h = absurd (cc)
  close_deletion-ok true r a st removal (ok u) last h = (
    refl,
    purge_counted-ok (deletion_summary storage delete_revision_replica r a st removal) _ last h,
  )

  remove_copies-ok :
      (commits : Bool) (r : ConfigRevision K) (a : Archive K) (remote : Remote)
      (st : Staging storage) (outcome : Result Fault (Unit {0})) (last : RevisionDeletionSummary)
      → (remove_copies storage delete_revision_replica commits r a remote st outcome).result
        ≡ ok last
      → IsDropped r a (remove_copies storage delete_revision_replica commits r a remote st outcome)
        × (r.id ≡ last.revision_id)
  unfolding remove_copies
  remove_copies-ok commits r a remote st (err fault) last h = absurd (cc)
  remove_copies-ok commits r a remote st (ok u) last h =
      close_deletion-ok commits r a st
        (remove_each delete_revision_replica r.replicas
          (no_removal storage delete_revision_replica remote))
        _ last h

  start_deletion-ok :
      (commits : Bool) (namespace : Text) (checked : Result Abort (ConfigRevision K))
      (a : Archive K) (remote : Remote) (s : Store) (last : RevisionDeletionSummary)
      → (start_deletion storage delete_revision_replica commits namespace checked a remote s).result
        ≡ ok last
      → (r : ConfigRevision K) × (checked ≡ ok r)
        × IsDropped r a
            (start_deletion storage delete_revision_replica commits namespace checked a remote s)
        × (r.id ≡ last.revision_id)
  unfolding start_deletion
  start_deletion-ok commits namespace (err cause) a remote s last h = absurd (cc)
  start_deletion-ok commits namespace (ok r) a remote s last h =
      let (dropped, named) =
        remove_copies-ok commits r a remote
          (revision_staging storage delete_revision_replica namespace r s) _ last h in
      (r, refl, dropped, named)

  -- A deletion that reports success was asked for a revision that is there, is not protected and
  -- whose replicas pass the checks, while no run is active. Afterwards no row has its id, every other
  -- revision is there with its contents, and the summary names the revision.
  pub deletion_removes_one :
      (commits : Bool) (namespace : Text) (i : ℕ) (a : Archive K) (remote : Remote) (s : Store)
      (last : RevisionDeletionSummary)
      → (delete_config_revision_everywhere storage delete_revision_replica commits namespace i a
          remote s).result
        ≡ ok last
      → let after =
          (delete_config_revision_everywhere storage delete_revision_replica commits namespace i a
            remote s).archive in
        (r : ConfigRevision K) × (find_revision i a.revisions ≡ some r)
        × (r.is_protected ≡ false)
        × (has_active_run a.runs ≡ false)
        × (validate_replicas r.replicas ≡ ok tt)
        × (last.revision_id ≡ i)
        × (has_id i after.revisions ≡ false)
        × ((x : ConfigRevision K) → x.id ≢ i → Holds x a.revisions → Holds x after.revisions)
  unfolding delete_config_revision_everywhere
  deletion_removes_one commits namespace i a remote s last h =
      let (r, checked, dropped, named) =
        start_deletion-ok commits namespace (check_deletion i a) a remote s last h in
      let (there, open_one, idle, valid) = check_deletion-ok i a r checked in
      let e = find_revision-id i a.revisions r there in
      let after = dropped ∙ ap (λ j. drop_revision j a) e in
      (
        r,
        there,
        open_one,
        idle,
        valid,
        sym named ∙ e,
        ap (λ (b : Archive K). has_id i b.revisions) after ∙ drop_revision-has_id i a,
        λ x n held. rw after (drop_revision-Holds i a x n held),
      )
