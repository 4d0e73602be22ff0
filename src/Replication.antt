-- ===== src/Replication.antt =====
-- netbox_config_backup/services/replication.py: the life of one replica of a revision on one remote
-- storage. Each write is one transaction. The transfer and the path that is chosen for a new copy
-- are parameters; the row's lengths are limited by `truncate` on codes and messages.
pub mod Attempts
pub mod Available
mod Tests
use netbox_plugin_backup.Prelude.{
  ℕ, suc, ◌+◌, ◌*◌, Bool, true, false, not, ◌&&◌, ◌||◌, Option, none, some, is_some, List, [], ◌∷◌,
  String, Result, ok, err, ◌>>=◌, ◌>>◌, require, leb, ◌==◌, string_eq, if◌then◌else◌,
}
use netbox_plugin_backup.Choices.{ReplicaStatus}
use netbox_plugin_backup.Clock.{minute_us}

pub record DestinationError : Type 0 where
  pub error_code : String
  pub safe_message : String

pub record BackupDestination : Type 0 where
  pub enabled : Bool
  -- Its protocol is one of REPLICATED_DESTINATION_PROTOCOLS.
  pub is_replicated : Bool
  pub max_retries : ℕ
  pub retry_delay_minutes : ℕ
  pub last_success_at : Option ℕ
  pub last_error_code : String
  pub last_error_message : String

pub record RevisionReplica : Type 0 where
  pub id : ℕ
  pub status : ReplicaStatus
  pub attempts : ℕ
  pub queued_at : ℕ
  pub started_at : Option ℕ
  pub finished_at : Option ℕ
  pub next_retry_at : Option ℕ
  pub bytes_transferred : ℕ
  pub remote_path : String
  pub remote_available : Bool
  pub remote_deleted_at : Option ℕ
  pub error_code : String
  pub error_message : String
  pub job_id : Option ℕ

pub data ReplicaEvent : Type 0 where
  replica_recovered replica_failed : ReplicaEvent

pub record Copy : Type 0 where
  pub replica : RevisionReplica
  pub destination : BackupDestination
  -- Newest first.
  pub events : List ReplicaEvent

abbrev pub is_active : ReplicaStatus → Bool
is_active ReplicaStatus.queued = true
is_active ReplicaStatus.running = true
is_active status = false

abbrev pub is_success : ReplicaStatus → Bool
is_success ReplicaStatus.success = true
is_success status = false

-- `enqueue_revision_replica`; `job` is the id that the queue gives. Nothing where no job is made.
unfoldable pub enqueue_revision_replica : Bool → ℕ → ℕ → Copy → Option Copy
enqueue_revision_replica force job now c =
    if not c.destination.is_replicated
      || not c.destination.enabled
      || is_some c.replica.remote_deleted_at
    then none
    else if is_active c.replica.status || (not force && is_success c.replica.status)
    then none
    else some (record c {
      replica = record c.replica {
        status = ReplicaStatus.queued;
        queued_at = now;
        started_at = none;
        finished_at = none;
        next_retry_at = none;
        error_code = "";
        error_message = "";
        remote_available = false;
        job_id = some job;
      };
    })

abbrev pub is_ready : ReplicaStatus → Bool
is_ready ReplicaStatus.running = false
is_ready ReplicaStatus.success = false
is_ready status = true

abbrev destination_error : String → String → DestinationError
destination_error code message = record { error_code = code; safe_message = message }

-- `_mark_running`; `new_path` is the path for a copy that has none yet.
unfoldable pub mark_replica_running : String → ℕ → Copy → Result DestinationError Copy
mark_replica_running new_path now c = do
  require c.destination.enabled (
      destination_error "DESTINATION_DISABLED"
        "The external destination is disabled and no network connection was attempted.")
  require (not (is_some c.replica.remote_deleted_at)) (
      destination_error "REPLICA_EXPIRED"
        "The remote revision copy has expired and cannot be uploaded again.")
  require (is_ready c.replica.status)
      (destination_error "REPLICA_STATE_CONFLICT" "The revision replica is not ready to run.")
  ok (record c {
    replica = record c.replica {
      remote_path = if c.replica.remote_path == "" then new_path else c.replica.remote_path;
      status = ReplicaStatus.running;
      started_at = some now;
      finished_at = none;
      attempts = c.replica.attempts + 1;
      error_code = "";
      error_message = "";
      remote_available = false;
    };
  })

-- `_mark_success`
unfoldable pub mark_replica_success : String → ℕ → ℕ → Copy → Copy
mark_replica_success remote_path bytes_transferred now c = record {
  replica = record c.replica {
    status = ReplicaStatus.success;
    finished_at = some now;
    next_retry_at = none;
    remote_path = remote_path;
    bytes_transferred = bytes_transferred;
    error_code = "";
    error_message = "";
    remote_available = true;
    remote_deleted_at = none;
  };
  destination = record c.destination {
    last_success_at = some now;
    last_error_code = "";
    last_error_message = "";
  };
  events = if c.destination.last_error_code == "" then c.events else replica_recovered ∷ c.events;
}

-- `_mark_failed`; `truncate n` is the slice of the first `n` characters.
unfoldable pub mark_replica_failed : (ℕ → String → String) → DestinationError → ℕ → Copy → Copy
mark_replica_failed truncate e now c = record {
  replica = record c.replica {
    status = ReplicaStatus.failed;
    finished_at = some now;
    error_code = truncate 64 e.error_code;
    error_message = truncate 500 e.safe_message;
    remote_available = false;
    next_retry_at =
        if leb c.replica.attempts c.destination.max_retries
        then some (now + c.destination.retry_delay_minutes * minute_us)
        else none;
  };
  destination = record c.destination {
    last_error_code = truncate 64 e.error_code;
    last_error_message = truncate 500 e.safe_message;
  };
  events = if c.destination.last_error_code == "" then replica_failed ∷ c.events else c.events;
}

-- What the transfer does: a copy at a path, a DestinationError, or another exception.
pub data Transfer : Type 0 where
  sent : String → ℕ → Transfer
  refused : DestinationError → Transfer
  crashed : Transfer

-- The `try` around the transfer and what follows it, at the time it ends.
unfoldable pub settle_transfer :
    (ℕ → String → String) → Transfer → ℕ → Copy → Result DestinationError String × Copy
unfolding mark_replica_success mark_replica_failed
settle_transfer truncate (sent path bytes) now c = (ok path, mark_replica_success path bytes now c)
settle_transfer truncate (refused e) now c = (err e, mark_replica_failed truncate e now c)
settle_transfer truncate crashed now c =
    let e =
      destination_error "INTERNAL_ERROR"
        "External replication stopped because of an internal error." in
    (err e, mark_replica_failed truncate e now c)

-- `execute_revision_replica`; the transfer is given the path that is recorded before it.
unfoldable pub execute_revision_replica :
    (ℕ → String → String)
    → String
    → (String → Transfer)
    → ℕ
    → ℕ
    → Copy
    → Result DestinationError String × Copy
unfolding settle_transfer
execute_revision_replica truncate new_path transfer started ended c =
    elim (mark_replica_running new_path started c) [
      | ok running ↦ settle_transfer truncate (transfer running.replica.remote_path) ended running
      | err e ↦ (err e, c)
    ]

-- The filter of `dispatch_due_replicas`.
abbrev is_passed : Option ℕ → ℕ → Bool
is_passed none now = false
is_passed (some t) now = leb t now

abbrev is_due_status : RevisionReplica → ReplicaStatus → ℕ → Bool
is_due_status r ReplicaStatus.pending now = true
is_due_status r ReplicaStatus.failed now = is_passed r.next_retry_at now
is_due_status r status now = false

unfoldable pub is_due_replica : ℕ → Copy → Bool
is_due_replica now c =
    c.destination.enabled
    && c.destination.is_replicated
    && not (is_some c.replica.remote_deleted_at)
    && is_due_status c.replica c.replica.status now
