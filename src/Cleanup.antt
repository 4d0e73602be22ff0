-- ===== src/Cleanup.antt =====
-- netbox_config_backup/services/retention_cleanup.py: one target's local retention. The plan, the
-- staging of the files, the changes of the rows, and the two ways out. The rows change in one
-- transaction; `commits` says whether the database carries it out.
pub mod Execute
pub mod Safety
pub mod Spared
pub mod Kept
mod Tests
use netbox_plugin_backup.Prelude.{
  ℕ, suc, ◌+◌, ◌≡◌, Bool, true, false, not, ◌&&◌, ◌||◌, Option, none, some, is_some, List, [], ◌∷◌,
  ◌++◌, map, reverse, String, Result, ok, err, ◌>>=◌, ◌>>◌, require, or_else, keep_if, any_of,
  length, Text, if◌then◌else◌,
}
use netbox_plugin_backup.Choices.{ReplicaStatus}
use netbox_plugin_backup.Clock.{DateTime, PyError}
use netbox_plugin_backup.Scheduling.{aware}
use netbox_plugin_backup.Retention.{
  RevisionCandidate, RunCandidate, RetentionDecision, RetentionPlan, LocalPolicy,
  settings_from_policy,
}
use netbox_plugin_backup.Retention.Policy.{
  TargetPolicies, StoragePolicies, effective_local_retention_policy,
}
use netbox_plugin_backup.Retention.Plan.{
  ReplicaPointer, has_recorded_remote_copy, build_retention_plan,
}
use netbox_plugin_backup.Storage.{Fault, storage_error, unexpected, ConfigStorage}
use netbox_plugin_backup.Storage.Quarantine.{Staging, stage_each, restore_staged, purge_staged}
use netbox_plugin_backup.Archive.{
  ConfigArtifact, ReplicaRow, ConfigRevision, RunRow, Archive, is_in, has_active_run,
  is_locally_available, delete_revisions, delete_runs,
}
use netbox_plugin_backup.Archive.Chain.{relink_kept_revisions}

-- RetentionCleanupError, StorageError, or another exception.
pub data Interrupt : Type 0 where
  cleanup_error : String → Interrupt
  storage_failed other : Interrupt

-- What a cleanup raises: RetentionCleanupError, or an exception that it lets through.
pub data CleanupFailure : Type 0 where
  retention_cleanup_error : String → CleanupFailure
  escaped : CleanupFailure

pub record RetentionCleanupSummary : Type 0 where
  pub run_count : ℕ
  pub revision_count : ℕ
  pub artifact_count : ℕ
  pub artifact_bytes : ℕ
  pub missing_artifact_count : ℕ
  pub quarantine_purge_failures : ℕ
  pub deferred_revision_count : ℕ

-- The rows of profiles that a cleanup reads.
pub record Profiles : Type 0 where
  pub target : TargetPolicies
  pub local_storage : StoragePolicies
  pub policy : ℕ → Option LocalPolicy

-- The ids of the decisions to delete.
unfoldable pub deleted_ids : List RetentionDecision → List ℕ
deleted_ids [] = []
deleted_ids (d ∷ ds) = if d.keep then deleted_ids ds else d.object_id ∷ deleted_ids ds

abbrev pub run_candidate : RunRow → RunCandidate
run_candidate run = record {
  object_id = run.id;
  timestamp = aware (elim run.finished_at [ none ↦ run.queued_at | some t ↦ t ]);
  status = run.status;
}

-- A replica that still needs the local files.
abbrev is_pending_upload : ReplicaRow → ReplicaStatus → Bool
is_pending_upload r ReplicaStatus.queued = true
is_pending_upload r ReplicaStatus.running = true
is_pending_upload r ReplicaStatus.pending = r.destination_enabled
is_pending_upload r ReplicaStatus.failed = r.destination_enabled && is_some r.next_retry_at
is_pending_upload r ReplicaStatus.success = false

unfoldable pub needs_upload_source : ReplicaRow → Bool
needs_upload_source r = not (is_some r.remote_deleted_at) && is_pending_upload r r.status

abbrev pub pointer_of : ReplicaRow → ReplicaPointer
pointer_of r = record {
  remote_deleted_at = r.remote_deleted_at;
  remote_available = r.remote_available;
  remote_path = r.remote_path;
}

pub record CleanupPlan : Type 0 where
  pub run_ids : List ℕ
  pub revision_ids : List ℕ
  pub deferred_revision_ids : List ℕ

abbrev planned : Result PyError RetentionPlan → Result Interrupt RetentionPlan
planned (ok p) = ok p
planned (err e) = err other

abbrev found_policy : Option LocalPolicy → Result Interrupt LocalPolicy
found_policy none = err other
found_policy (some p) = ok p

abbrev effective_id : Option ℕ → Result Interrupt ℕ
effective_id none =
    err (cleanup_error "The backup target has no effective Local retention profile.")
effective_id (some i) = ok i

module _ {K : Type 0} where
  abbrev pub revision_candidate : ConfigRevision K → RevisionCandidate
  revision_candidate r = record {
    object_id = r.id;
    created = aware r.created;
    is_protected = r.is_protected;
    content_changed = r.content_changed;
  }

  abbrev pub locally_available : Archive K → List (ConfigRevision K)
  locally_available a = keep_if is_locally_available a.revisions

  -- `deferred_revision_ids`
  unfoldable pub deferred : List ℕ → List (ConfigRevision K) → List ℕ
  unfolding needs_upload_source
  deferred planned [] = []
  deferred planned (r ∷ rs) =
      if is_in planned r.id && any_of needs_upload_source r.replicas
      then r.id ∷ deferred planned rs
      else deferred planned rs

  -- `execute_retention_cleanup` up to the first change.
  unfoldable pub plan_cleanup : Profiles → Archive K → DateTime → Result Interrupt CleanupPlan
  unfolding deleted_ids deferred
  plan_cleanup profiles a now = do
    require (not (has_active_run a.runs))
        (cleanup_error "Retention cleanup cannot run while the target has an active backup.")
    policy_id ←
        effective_id (effective_local_retention_policy profiles.target profiles.local_storage)
    policy ← found_policy (profiles.policy policy_id)
    plan ← planned (
        build_retention_plan (settings_from_policy policy)
          (map revision_candidate (locally_available a)) (map run_candidate a.runs) now)
    let planned_ids = deleted_ids plan.revision_decisions
    let deferred_ids = deferred planned_ids (locally_available a)
    ok (record {
      run_ids = deleted_ids plan.run_decisions;
      revision_ids = keep_if (λ i. not (is_in deferred_ids i)) planned_ids;
      deferred_revision_ids = deferred_ids;
    })

  abbrev available : List (ConfigArtifact K) → List (ConfigArtifact K)
  available artifacts = keep_if (λ a. a.local_available) artifacts

  -- The artifacts whose files are removed.
  unfoldable pub artifacts_of : List ℕ → List (ConfigRevision K) → List (ConfigArtifact K)
  artifacts_of ids [] = []
  artifacts_of ids (r ∷ rs) =
      let rest = artifacts_of ids rs in
      if is_in ids r.id then available r.artifacts ++ rest else rest

  abbrev mark_artifact : ℕ → ConfigArtifact K → ConfigArtifact K
  mark_artifact now a =
      if a.local_available
      then record a { local_available = false; local_deleted_at = some now }
      else a

  unfoldable pub mark_unavailable : List ℕ → ℕ → Archive K → Archive K
  mark_unavailable ids now a = record a {
    revisions =
        map
          (λ (r : ConfigRevision K).
            if is_in ids r.id
            then record r { artifacts = map (mark_artifact now) r.artifacts }
            else r)
          a.revisions;
  }

  abbrev ids_where : (ConfigRevision K → Bool) → List (ConfigRevision K) → List ℕ
  ids_where p rs = map (λ (r : ConfigRevision K). r.id) (keep_if p rs)

  abbrev is_remotely_preserved : ConfigRevision K → Bool
  is_remotely_preserved r = has_recorded_remote_copy (map pointer_of r.replicas)

  -- The changes of the rows: artifacts are marked, the chain is reconnected over the revisions that
  -- keep local files, and the runs and the revisions without a remote copy are deleted.
  unfoldable pub apply_cleanup : CleanupPlan → ℕ → Archive K → Archive K
  unfolding mark_unavailable
  apply_cleanup plan now a =
      let preserved =
        ids_where (λ r. is_in plan.revision_ids r.id && is_remotely_preserved r) a.revisions in
      let database_ids = keep_if (λ i. not (is_in preserved i)) plan.revision_ids in
      let unavailable =
        ids_where (λ r. is_in plan.revision_ids r.id || not (is_locally_available r)) a.revisions in
      delete_revisions database_ids (
        delete_runs plan.run_ids
          (relink_kept_revisions unavailable (mark_unavailable plan.revision_ids now a)))
