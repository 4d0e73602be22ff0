-- ===== src/Repository.antt =====
-- netbox_config_backup/services/django_repository.py: the repository's writes for one run and its
-- target. Each is one transaction: what raises leaves the state as it was. What is queued for after
-- the commit (notifications, replicas) is a list, newest first, as are the target's revisions.
pub mod Streak
mod Tests
use netbox_plugin_backup.Prelude.{
  ℕ, suc, ◌+◌, Bool, true, false, not, ◌&&◌, ◌||◌, Option, none, some, is_some, List, [], ◌∷◌,
  String, Result, ok, err, ◌>>=◌, nat_beq, ltb, ◌==◌, string_eq, if◌then◌else◌,
}
use netbox_plugin_backup.Choices.{RunStatus, TargetStatus, target_status_eq}
use netbox_plugin_backup.Clock.{PyError}
use netbox_plugin_backup.Records.{BackupTarget, BackupRun}
use netbox_plugin_backup.Scheduling.{
  Services, calculate_failure_next_run, calculate_target_next_run, target_timezone_name,
}
use netbox_plugin_backup.Pipeline.{StoredArtifactRecord}

pub data EventType : Type 0 where
  backup_recovered backup_failed backup_stuck : EventType

pub data Queued : Type 0 where
  run_event : EventType → ℕ → Queued
  queue_replicas ensure_replicas : ℕ → Queued

-- The columns that are only passed through (uuid, driver, version of the normalizer) are left out.
pub record Revision : Type 0 where
  pub id : ℕ
  pub normalized_hash : String
  pub content_changed : Bool
  pub previous_revision : Option ℕ
  pub artifacts : List StoredArtifactRecord

pub record Database : Type 0 where
  pub run : BackupRun
  pub target : BackupTarget
  pub revisions : List Revision
  pub queued : List Queued

-- The operator's switches, and the services of the schedule.
pub record Controls : Type 0 where
  pub services : Services
  pub events_enabled : Bool
  pub notify_on_every_failure : Bool

-- `queue_run_event`, if it is called at all.
unfoldable pub queue_run_event : Controls → Bool → EventType → Database → Database
queue_run_event c called event db =
    if called && c.events_enabled
    then record db { queued = run_event event db.run.id ∷ db.queued }
    else db

unfoldable pub mark_running : ℕ → Database → Result PyError Database
mark_running started_at db = elim db.run.status [
  | RunStatus.queued ↦ ok (record db {
    run = record db.run {
      status = RunStatus.running;
      started_at = some started_at;
      error_code = "";
      error_message = "";
    };
  })
  | _ ↦ err PyError.value_error
]

-- `_target_was_unhealthy`
unfoldable pub target_was_unhealthy : BackupTarget → Bool
target_was_unhealthy t =
    ltb 0 t.consecutive_failures
    || (t.status == TargetStatus.failed || t.status == TargetStatus.stale)

abbrev pub latest_of : List Revision → Option ℕ
latest_of [] = none
latest_of (r ∷ rs) = some r.id

-- `_mark_target_success`
abbrev pub succeeded : BackupTarget → Option ℕ → ℕ → Bool → BackupTarget
succeeded t revision finished_at content_changed = record t {
  status = TargetStatus.healthy;
  last_attempt_at = some finished_at;
  last_success_at = some finished_at;
  consecutive_failures = 0;
  last_revision = if is_some revision then revision else t.last_revision;
  last_change_at = if content_changed then some finished_at else t.last_change_at;
}

unfoldable pub mark_target_success :
    Controls → BackupTarget → Option ℕ → ℕ → Bool → Result PyError BackupTarget
mark_target_success c t revision finished_at content_changed =
    let marked = succeeded t revision finished_at content_changed in
    if is_some t.next_run_at then ok marked else (do
      next ← calculate_target_next_run c.services marked finished_at
      ok (record marked { next_run_at = next }))

abbrev pub ensure_latest : Option ℕ → List Queued → List Queued
ensure_latest none queued = queued
ensure_latest (some revision) queued = ensure_replicas revision ∷ queued

unfoldable pub commit_unchanged : Controls → Bool → ℕ → Database → Result PyError Database
unfolding mark_target_success queue_run_event
commit_unchanged c raw_changed finished_at db = do
  target ← mark_target_success c db.target (latest_of db.revisions) finished_at false
  let saved : Database = record db {
    run = record db.run {
      status = RunStatus.success_unchanged;
      finished_at = some finished_at;
      changed = false;
      raw_changed = raw_changed;
      revision = latest_of db.revisions;
    };
    target = target;
  }
  let announced = queue_run_event c (target_was_unhealthy db.target) backup_recovered saved
  ok (record announced { queued = ensure_latest (latest_of db.revisions) announced.queued })

-- `revision_id` is the key that the database gives to the new row.
unfoldable pub commit_revision :
    Controls
    → ℕ
    → String
    → Bool
    → Bool
    → List StoredArtifactRecord
    → ℕ
    → Database
    → Result PyError Database
unfolding mark_target_success queue_run_event
commit_revision c revision_id normalized_hash content_changed raw_changed artifacts finished_at db =
    do
      target ← mark_target_success c db.target (some revision_id) finished_at content_changed
      let saved : Database = record db {
        run = record db.run {
          status =
              if content_changed then RunStatus.success_changed else RunStatus.success_unchanged;
          finished_at = some finished_at;
          changed = content_changed;
          raw_changed = raw_changed;
          revision = some revision_id;
        };
        target = target;
        revisions =
            record {
              id = revision_id;
              normalized_hash = normalized_hash;
              content_changed = content_changed;
              previous_revision = latest_of db.revisions;
              artifacts = artifacts;
            }
            ∷ db.revisions;
      }
      let announced = queue_run_event c (target_was_unhealthy db.target) backup_recovered saved
      ok (record announced { queued = queue_replicas revision_id ∷ announced.queued })

-- `failure_next_run` of services/dispatcher.py
unfoldable pub failure_next_run : Controls → BackupTarget → ℕ → ℕ → Result PyError (Option ℕ)
failure_next_run c t failed_at failures =
    calculate_failure_next_run c.services t.policy_override failed_at failures t.key
      (target_timezone_name c.services t)

unfoldable pub mark_failed :
    Controls → RunStatus → String → String → ℕ → Database → Result PyError Database
unfolding queue_run_event
mark_failed c status error_code error_message finished_at db = do
  next ← failure_next_run c db.target finished_at (db.target.consecutive_failures + 1)
  let saved : Database = record db {
    run = record db.run {
      status = status;
      finished_at = some finished_at;
      error_code = error_code;
      error_message = error_message;
    };
    target = record db.target {
      status = TargetStatus.failed;
      last_attempt_at = some finished_at;
      consecutive_failures = db.target.consecutive_failures + 1;
      next_run_at = next;
    };
  }
  ok (
      queue_run_event c (nat_beq db.target.consecutive_failures 0 || c.notify_on_every_failure)
        (if error_code == "STALE_RUN" then backup_stuck else backup_failed) saved)
