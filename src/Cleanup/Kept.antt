-- ===== src/Cleanup/Kept.antt =====
-- Proofs on netbox_config_backup/services/retention_cleanup.py: the rows after a cleanup, whatever its
-- outcome.
use netbox_plugin_backup.Prelude.{
  ℕ, ◌≡◌, refl, ap, ◌∙◌, ◌⊎◌, inl, inr, Bool, true, false, List, Result, ok, err, any_of, Any-map,
  Any-of_map, Text, arith,
}
use netbox_plugin_backup.Clock.{DateTime}
use netbox_plugin_backup.Storage.{Fault, ConfigStorage}
use netbox_plugin_backup.Storage.Quarantine.{Staging}
use netbox_plugin_backup.Archive.{ConfigRevision, Archive, is_in, is_locally_available}
use netbox_plugin_backup.Archive.Kept.{
  contents, Holds, relink-Holds, delete_revisions-Holds, delete_runs-Holds,
}
use netbox_plugin_backup.Cleanup.{
  Interrupt, Profiles, CleanupPlan, needs_upload_source, mark_unavailable, apply_cleanup,
  plan_cleanup,
}
use netbox_plugin_backup.Cleanup.Execute.{staging, settle, carry_out, execute_retention_cleanup}
use netbox_plugin_backup.Cleanup.Spared.{IsSpared, plan_cleanup_spares, is_in-keep_if}

module _ {K : Type 0} (x : ConfigRevision K) where
  mark_unavailable-Holds :
      (ids : List ℕ) (now : ℕ) (a : Archive K)
      → is_in ids x.id ≡ false
      → Holds x a.revisions
      → Holds x (mark_unavailable ids now a).revisions
  unfolding mark_unavailable
  mark_unavailable-Holds ids now a e n =
      let P : ConfigRevision K → Type 0 = λ r. contents r ≡ contents x in
      Any-of_map P P _ (λ r p. rw (ap (λ (q : ConfigRevision K). is_in ids q.id) p ∙ e) p)
        a.revisions n

  -- A revision that is not in the plan stays as it is, but for its place in the chain.
  apply_cleanup-Holds :
      (plan : CleanupPlan) (now : ℕ) (a : Archive K)
      → is_in plan.revision_ids x.id ≡ false
      → Holds x a.revisions
      → Holds x (apply_cleanup plan now a).revisions
  unfolding apply_cleanup
  apply_cleanup-Holds plan now a e n =
      delete_revisions-Holds x _ _ (is_in-keep_if _ x.id plan.revision_ids ∙ ground arith) (
        delete_runs-Holds x plan.run_ids _
          (relink-Holds x _ _ (mark_unavailable-Holds plan.revision_ids now a e n)))

module _ {Store K : Type 0} (storage : ConfigStorage Store K) (x : ConfigRevision K) where
  settle-Holds :
      (commits : Bool) (plan : CleanupPlan) (now : ℕ) (a : Archive K) (st : Staging storage)
      (outcome : Result Fault (Unit {0}))
      → is_in plan.revision_ids x.id ≡ false
      → Holds x a.revisions
      → Holds x (settle storage commits plan now a st outcome).archive.revisions
  unfolding settle
  settle-Holds commits plan now a st (err fault) e n = n
  settle-Holds false plan now a st (ok u) e n = n
  settle-Holds true plan now a st (ok u) e n = apply_cleanup-Holds x plan now a e n

  carry_out-Holds :
      (commits : Bool) (now : ℕ) (namespace : Text) (plan : Result Interrupt CleanupPlan)
      (a : Archive K) (s : Store)
      → ((p : CleanupPlan) → plan ≡ ok p → is_in p.revision_ids x.id ≡ false)
      → Holds x a.revisions
      → Holds x (carry_out storage commits now namespace plan a s).archive.revisions
  unfolding carry_out
  carry_out-Holds commits now namespace (err e) a s spared n = n
  carry_out-Holds commits now namespace (ok plan) a s spared n =
      settle-Holds commits plan now a (staging storage namespace plan a s) _ (spared plan refl) n

  -- Whatever the storage and the database do and however the cleanup ends, a revision with local
  -- files that is protected, or that a replica still has to be uploaded from, is there afterwards
  -- with all its fields, artifacts and replicas, but for its place in the chain.
  pub cleanup_keeps_spared :
      (profiles : Profiles) (commits : Bool) (now : DateTime) (namespace : Text) (a : Archive K)
      (s : Store)
      → Holds x a.revisions
      → is_locally_available x ≡ true
      → (x.is_protected ≡ true) ⊎ (any_of needs_upload_source x.replicas ≡ true)
      → Holds x
          (execute_retention_cleanup storage profiles commits now namespace a s).archive.revisions
  unfolding execute_retention_cleanup is_locally_available
  cleanup_keeps_spared profiles commits now namespace a s n available reason =
      let spared : (r : ConfigRevision K)
          → contents r ≡ contents x
          → IsSpared x.id r × (is_locally_available r ≡ true) =
        λ r p. (
          elim reason [
            | inl h ↦ inl (
              ap (λ (q : ConfigRevision K). q.id) p,
              ap (λ (q : ConfigRevision K). q.is_protected) p ∙ h,
            )
            | inr h ↦ inr (
              ap (λ (q : ConfigRevision K). q.id) p,
              ap (λ (q : ConfigRevision K). any_of needs_upload_source q.replicas) p ∙ h,
            )
          ],
          ap (λ (q : ConfigRevision K). any_of (λ c. c.local_available) q.artifacts) p ∙ available,
        ) in
      carry_out-Holds commits now.micros namespace (plan_cleanup profiles a now) a s
        (λ p h. (plan_cleanup_spares profiles a now p x.id h (Any-map _ _ spared a.revisions n)).1)
        n
