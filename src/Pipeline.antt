-- ===== src/Pipeline.antt =====
-- netbox_config_backup/services/backup.py: one backup run. The driver, the secret providers, the
-- repository, the storage, the clock and the hash are interfaces in the source and parameters here:
-- each call gives its result or the exception that it raises. The state is the storage, the calls
-- that the repository has carried out and the keys stored by this run, both newest first.
pub mod Prepare
pub mod Gather
pub mod Execute
pub mod Outcome
pub mod StorageLaws
pub mod Undeleted
pub mod Rollback
pub mod Stored
pub mod OnLocal
pub mod Unchanged
mod Tests
use netbox_plugin_backup.Prelude.{
  ℕ, String, Bool, true, false, ◌&&◌, not, Option, none, some, List, [], ◌∷◌, ◌++◌, Result, ok, err,
  string_eq, ◌==◌, if◌then◌else◌,
}

-- The exceptions that the pipeline tells apart; `internal` is any other.
pub data Failure : Type 0 where
  driver_error operation_error : String → String → Failure
  registry_error storage_error : String → Failure
  secret_error : Failure
  internal : Failure

-- The first `except` clause, and `_expected_error`.
unfoldable pub is_expected : Failure → Bool
is_expected internal = false
is_expected _ = true

unfoldable pub expected_error : Failure → String × String
expected_error (driver_error code message) = (code, message)
expected_error (operation_error code message) = (code, message)
expected_error (registry_error message) = ("UNSUPPORTED_PLATFORM", message)
expected_error secret_error = ("SECRET_RESOLUTION_FAILED", "Credential resolution failed.")
expected_error (storage_error message) = ("STORAGE_FAILED", message)
expected_error internal = ("INTERNAL_ERROR", "Unexpected internal backup error.")

pub record CollectedArtifact : Type 0 where
  pub artifact_type : String
  pub filename : String
  pub content : String
  pub format : String
  pub is_primary : Bool

pub record PreparedArtifact : Type 0 where
  pub artifact : CollectedArtifact
  pub raw_hash : String
  pub normalized_hash : String
  pub is_primary : Bool

pub record ValidationResult : Type 0 where
  pub valid : Bool
  pub error_code : String
  pub safe_message : String

-- What `driver.normalize` does: bytes, a UnicodeError or ValueError, or another exception.
pub data Normalized : Type 0 where
  bytes : String → Normalized
  not_bytes invalid : Normalized
  raises : Failure → Normalized

-- Options and receivers go to the driver untouched and are part of its `collect`. An empty text
-- stands for a provider or reference that is not set.
pub record ExecutionContext : Type 0 where
  pub target_id : ℕ
  pub device_id : ℕ
  pub driver_id : String
  pub is_changed_only : Bool
  pub secret_provider_id : String
  pub secret_reference : String
  pub has_receiver : Bool
  pub receiver_secret_provider_id : String
  pub receiver_secret_reference : String

pub record Driver : Type 0 where
  -- On the credentials of the device and of the receiver.
  pub collect : Option String → Option String → Result Failure (List CollectedArtifact)
  pub validate : CollectedArtifact → Result Failure ValidationResult
  pub normalize : CollectedArtifact → Normalized
  pub normalizer_version : String

pub record RevisionSnapshot : Type 0 where
  pub revision_id : ℕ
  pub normalized_hash : String
  pub primary_raw_hash : String

-- `devices/<device_id>/revisions/<uuid>/<filename>`; a file name has no slash.
pub record StorageKey : Type 0 where
  pub device_id : ℕ
  pub revision_uuid : String
  pub filename : String

pub record StoredArtifactRecord : Type 0 where
  pub artifact_type : String
  pub format : String
  pub storage_key : StorageKey
  pub size : ℕ
  pub raw_hash : String
  pub normalized_hash : String
  pub is_primary : Bool

pub data RunOutcome : Type 0 where
  success_unchanged success_changed failed errored : RunOutcome

pub record BackupResult : Type 0 where
  pub status : RunOutcome
  pub changed : Bool
  pub raw_changed : Bool
  pub revision_id : Option ℕ
  pub error_code : String

-- The repository's changes of state, with what the run decides; the ids and times that are passed
-- through are left out.
pub data Call : Type 0 where
  mark_running : Call
  commit_unchanged : Bool → Call
  commit_revision : String → Bool → Bool → List StoredArtifactRecord → Call
  mark_failed : RunOutcome → String → String → Call

-- The collaborators of the pipeline, for one run. `Store` is the state of the storage.
pub record Env (Store : Type 0) : Type 0 where
  pub context : Result Failure ExecutionContext
  pub create_driver : String → Result Failure Driver
  -- The provider of an id resolves a reference.
  pub resolve : String → String → Result Failure String
  pub latest : ℕ → Result Failure (Option RevisionSnapshot)
  -- The result of a call of the repository: a revision id where it returns one.
  pub repository : Call → Result Failure (Option ℕ)
  pub put : Store → StorageKey → String → Store × Result Failure ℕ
  pub delete : Store → StorageKey → Store × Result Failure (Unit {0})
  pub revision_uuid : String
  pub sha256_hex : String → String
  -- `safe_message[: error_message_max_length]`
  pub truncate : String → String

pub record World (Store : Type 0) : Type 0 where
  pub store : Store
  pub calls : List Call
  pub stored_keys : List StorageKey
