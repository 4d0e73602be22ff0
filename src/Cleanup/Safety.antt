-- ===== src/Cleanup/Safety.antt =====
-- Proofs on netbox_config_backup/services/retention_cleanup.py: what a failed cleanup leaves behind.
use netbox_plugin_backup.Prelude.{
  ℕ, ◌≡◌, ◌≢◌, refl, sym, ◌∙◌, Bool, true, false, List, [], Result, ok, err, err-injective, Text,
}
use netbox_plugin_backup.Clock.{DateTime}
use netbox_plugin_backup.Storage.{Fault, ConfigStorage, View, IsReversible}
use netbox_plugin_backup.Storage.Quarantine.{Staging, restore_staged}
use netbox_plugin_backup.Storage.Trail.{Trail, start, stage_each-Trail}
use netbox_plugin_backup.Storage.Undo.{undone, undone-Trail}
use netbox_plugin_backup.Archive.{Archive}
use netbox_plugin_backup.Cleanup.{
  Interrupt, other, CleanupFailure, escaped, RetentionCleanupSummary, Profiles, CleanupPlan,
  plan_cleanup, artifacts_of,
}
use netbox_plugin_backup.Cleanup.Execute.{
  not_restored, interrupt_of, raises, summary_of, Cleaned, gave_up, purge_result, staging, settle,
  carry_out, execute_retention_cleanup,
}

module _ {Store K : Type 0} (storage : ConfigStorage Store K) (objects : Store → View K)
    (same : K → K → Bool) (laws : IsReversible storage objects same) where
  -- The rows and the objects are as they were.
  abbrev pub IsUnchanged : Archive K → Store → Cleaned Store K → Type 0
  IsUnchanged a s r = (r.archive ≡ a) × ((x : K) → objects r.store x ≡ objects s x)

  gave_up-IsUnchanged :
      (a : Archive K) (s u : Store) (staged : List (K × K)) (cause : Interrupt) (e : CleanupFailure)
      → Trail same (objects s) staged (objects u)
      → (gave_up a (undone (raises cause) (restore_staged storage staged false u))).result ≡ err e
      → e ≢ not_restored
      → e ≢ escaped
      → IsUnchanged a s (gave_up a (undone (raises cause) (restore_staged storage staged false u)))
  gave_up-IsUnchanged a s u staged cause e trail h n m =
      let same_cause = err-injective h in
      (
        refl,
        undone-Trail storage objects same laws (raises cause) (objects s) staged u trail
            (λ q. n (sym same_cause ∙ q)) (λ q. m (sym same_cause ∙ q)),
      )

  purge_result-escaped :
      (summary : RetentionCleanupSummary) (x : Result Fault ℕ) (e : CleanupFailure)
      → purge_result summary x ≡ err e
      → escaped ≡ e
  purge_result-escaped summary (ok failures) e h = absurd (cc)
  purge_result-escaped summary (err fault) e h = err-injective h

  settle-IsUnchanged :
      (commits : Bool) (plan : CleanupPlan) (now : ℕ) (a : Archive K) (s : Store)
      (st : Staging storage) (outcome : Result Fault (Unit {0})) (e : CleanupFailure)
      → Trail same (objects s) st.staged (objects st.store)
      → (settle storage commits plan now a st outcome).result ≡ err e
      → e ≢ not_restored
      → e ≢ escaped
      → IsUnchanged a s (settle storage commits plan now a st outcome)
  unfolding settle
  settle-IsUnchanged commits plan now a s st (err fault) e trail h n m =
      gave_up-IsUnchanged a s st.store st.staged (interrupt_of fault) e trail h n m
  settle-IsUnchanged false plan now a s st (ok u) e trail h n m =
      gave_up-IsUnchanged a s st.store st.staged other e trail h n m
  settle-IsUnchanged true plan now a s st (ok u) e trail h n m = absurd (
      m (
        sym (
          purge_result-escaped
            (summary_of plan (artifacts_of plan.revision_ids a.revisions) st.missing) _ e h)))

  carry_out-IsUnchanged :
      (commits : Bool) (now : ℕ) (namespace : Text) (plan : Result Interrupt CleanupPlan)
      (a : Archive K) (s : Store) (e : CleanupFailure)
      → (carry_out storage commits now namespace plan a s).result ≡ err e
      → e ≢ not_restored
      → e ≢ escaped
      → IsUnchanged a s (carry_out storage commits now namespace plan a s)
  unfolding carry_out
  carry_out-IsUnchanged commits now namespace (err cause) a s e h n m =
      gave_up-IsUnchanged a s s [] cause e (start (objects s) (λ x. refl)) h n m
  carry_out-IsUnchanged commits now namespace (ok plan) a s e h n m =
      settle-IsUnchanged commits plan now a s (staging storage namespace plan a s) _ e
        (stage_each-Trail storage objects same laws (objects s) namespace _ s [] 0
          (start (objects s) (λ x. refl)))
        h n m

  -- On a storage that keeps the promises of its interface, a cleanup that fails with any message but
  -- the one on quarantined files that could not be fully restored leaves every row and every object
  -- as it was, whatever failed on the way: the guards, the plan, a staging or the database.
  pub failed_cleanup_changes_nothing :
      (profiles : Profiles) (commits : Bool) (now : DateTime) (namespace : Text) (a : Archive K)
      (s : Store) (e : CleanupFailure)
      → (execute_retention_cleanup storage profiles commits now namespace a s).result ≡ err e
      → e ≢ not_restored
      → e ≢ escaped
      → IsUnchanged a s (execute_retention_cleanup storage profiles commits now namespace a s)
  unfolding execute_retention_cleanup
  failed_cleanup_changes_nothing profiles commits now namespace a s e h n m =
      carry_out-IsUnchanged commits now.micros namespace (plan_cleanup profiles a now) a s e h n m
