-- ===== src/Archive.antt =====
-- The rows of one target in netbox_config_backup/models.py that the deletions read and write:
-- revisions with their artifacts and replicas, and runs. Times are UTC instants in microseconds.
pub mod Chain
pub mod Kept
mod Tests
use netbox_plugin_backup.Prelude.{
  ℕ, ◌+◌, Bool, true, false, not, ◌&&◌, ◌||◌, Option, none, some, is_some, List, [], ◌∷◌, String,
  nat_beq, any_of, keep_if, map, length, if◌then◌else◌,
}
use netbox_plugin_backup.Choices.{RunStatus, is_active_run, ReplicaStatus}

-- `K` is the type of storage keys.
pub record ConfigArtifact (K : Type 0) : Type 0 where
  pub id : ℕ
  pub storage_key : K
  pub size : ℕ
  pub local_available : Bool
  pub local_deleted_at : Option ℕ

-- A replica with what is read of its destination.
pub record ReplicaRow : Type 0 where
  pub id : ℕ
  pub status : ReplicaStatus
  pub destination_enabled : Bool
  pub destination_is_replicated : Bool
  pub next_retry_at : Option ℕ
  pub remote_available : Bool
  pub remote_path : String
  pub remote_deleted_at : Option ℕ

pub record ConfigRevision (K : Type 0) : Type 0 where
  pub id : ℕ
  pub created : ℕ
  pub is_protected : Bool
  pub content_changed : Bool
  pub previous_revision : Option ℕ
  pub artifacts : List (ConfigArtifact K)
  pub replicas : List ReplicaRow

pub record RunRow : Type 0 where
  pub id : ℕ
  pub status : RunStatus
  pub queued_at : ℕ
  pub finished_at : Option ℕ
  pub revision : Option ℕ

-- One target. The order of the rows has no meaning.
pub record Archive (K : Type 0) : Type 0 where
  pub target_id : ℕ
  pub last_revision : Option ℕ
  pub revisions : List (ConfigRevision K)
  pub runs : List RunRow

-- `id in ids`
abbrev pub is_in : List ℕ → ℕ → Bool
is_in ids i = any_of (λ j. nat_beq i j) ids

-- `BackupRun.objects.filter(target=target, status__in=(QUEUED, RUNNING)).exists()`
unfoldable pub has_active_run : List RunRow → Bool
has_active_run = any_of (λ run. is_active_run run.status)

-- The field of a foreign key with `on_delete=SET_NULL`, once the rows of these ids are deleted.
abbrev pub set_null : List ℕ → Option ℕ → Option ℕ
set_null gone none = none
set_null gone (some i) = if is_in gone i then none else some i

module _ {K : Type 0} where
  -- `any(artifact.local_available for artifact in revision.artifacts.all())`
  unfoldable pub is_locally_available : ConfigRevision K → Bool
  is_locally_available r = any_of (λ a. a.local_available) r.artifacts

  -- `ConfigRevision.objects.filter(pk__in=gone).delete()`
  unfoldable pub delete_revisions : List ℕ → Archive K → Archive K
  delete_revisions gone a = record a {
    last_revision = set_null gone a.last_revision;
    revisions =
        map
          (λ (r : ConfigRevision K). record r {
            previous_revision = set_null gone r.previous_revision;
          })
          (keep_if (λ r. not (is_in gone r.id)) a.revisions);
    runs = map (λ (run : RunRow). record run { revision = set_null gone run.revision }) a.runs;
  }

  -- `BackupRun.objects.filter(pk__in=gone).delete()`
  unfoldable pub delete_runs : List ℕ → Archive K → Archive K
  delete_runs gone a = record a { runs = keep_if (λ run. not (is_in gone run.id)) a.runs }

-- `sum(artifact.size for artifact in artifacts)`
abbrev pub total_size : {K : Type 0} → List (ConfigArtifact K) → ℕ
total_size [] = 0
total_size (a ∷ rest) = a.size + total_size rest
