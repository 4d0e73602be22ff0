-- ===== src/Replication/Tests.antt =====
-- A copy that is dispatched, tried and refused, and the theorems at it.
use netbox_plugin_backup.Prelude.{
  ℕ, ◌+◌, ◌≤◌, ◌≡◌, refl, true, false, none, some, is_some, not, ◌&&◌, [], String,
}
use netbox_plugin_backup.Choices.{ReplicaStatus}
use netbox_plugin_backup.Replication.{
  Copy, Transfer, sent, refused, mark_replica_success, enqueue_revision_replica,
  mark_replica_running, settle_transfer, is_due_replica, is_success,
}
use netbox_plugin_backup.Replication.Attempts.{Automatic, attempts_bounded}
use netbox_plugin_backup.Replication.Available.{
  Reachable, available_lem, is_expirable, expire_replica,
}

abbrev start : Copy
start = record {
  replica = record {
    id = 1;
    status = ReplicaStatus.pending;
    attempts = 0;
    queued_at = 5;
    started_at = none;
    finished_at = none;
    next_retry_at = none;
    bytes_transferred = 0;
    remote_path = "";
    remote_available = false;
    remote_deleted_at = none;
    error_code = "";
    error_message = "";
    job_id = none;
  };
  destination = record {
    enabled = true;
    is_replicated = true;
    max_retries = 2;
    retry_delay_minutes = 10;
    last_success_at = none;
    last_error_code = "";
    last_error_message = "";
  };
  events = [];
}

abbrev queued : Copy
queued = record start {
  replica = record start.replica { status = ReplicaStatus.queued; queued_at = 6; job_id = some 8 };
}

abbrev running : Copy
running = record queued {
  replica = record queued.replica {
    status = ReplicaStatus.running;
    started_at = some 7;
    attempts = 1;
    remote_path = "backups/7";
  };
}

abbrev timeout : Transfer
timeout = refused (record { error_code = "TIMEOUT"; safe_message = "No answer." })

abbrev keep : ℕ → String → String
keep n text = text

abbrev refused_copy : Copy
refused_copy = (settle_transfer keep timeout 9 running).1

reached : Automatic keep start refused_copy
unfolding enqueue_revision_replica mark_replica_running is_due_replica
reached =
    Automatic.ended timeout 9 running
      (Automatic.started "backups/7" 7 queued running
        (Automatic.dispatched 8 6 start queued Automatic.begin refl refl) refl refl)
      refl

attempts_bounded_example : refused_copy.replica.attempts ≤ 2 + 1
attempts_bounded_example = attempts_bounded keep start refused_copy refl refl reached

abbrev sent_copy : Copy
sent_copy = (settle_transfer keep (sent "backups/7" 30) 9 running).1

expired_copy : Reachable keep start (expire_replica 12 sent_copy)
unfolding enqueue_revision_replica mark_replica_running settle_transfer mark_replica_success
    is_expirable
expired_copy =
    Reachable.expired 12 sent_copy
      (Reachable.ended (sent "backups/7" 30) 9 running
        (Reachable.started "backups/7" 7 queued running
          (Reachable.enqueued false 8 6 start queued Reachable.begin refl) refl)
        refl)
      refl

available_lem_example : (expire_replica 12 sent_copy).replica.remote_available ≡ (
    is_success (expire_replica 12 sent_copy).replica.status
    && not (is_some (expire_replica 12 sent_copy).replica.remote_deleted_at))
available_lem_example =
    available_lem keep start (expire_replica 12 sent_copy) refl refl expired_copy
