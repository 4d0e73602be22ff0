-- ===== src/Records.antt =====
-- The database rows of netbox_config_backup/models.py that the services read and write, with the
-- columns that they use. Times are UTC instants in microseconds.
use netbox_plugin_backup.Prelude.{ℕ, String, Bool, Option, List}
use netbox_plugin_backup.Choices.{RunStatus, RunSource, TargetStatus}

pub data ScheduleType : Type 0 where
  interval daily : ScheduleType
  other : String → ScheduleType

pub record BackupPolicy : Type 0 where
  pub key : String
  pub enabled : Bool
  pub schedule_type : ScheduleType
  pub interval_minutes : Option ℕ
  -- Microseconds since midnight.
  pub time_of_day : Option ℕ
  pub timezone_is_site : Bool
  pub jitter_minutes : ℕ
  pub max_retries : ℕ
  pub retry_backoff_minutes : List ℕ

pub record BackupTarget : Type 0 where
  pub id : ℕ
  pub key : String
  pub enabled : Bool
  pub status : TargetStatus
  pub policy_override : Option BackupPolicy
  pub site_time_zone : Option String
  pub created : Option ℕ
  pub last_attempt_at : Option ℕ
  pub last_success_at : Option ℕ
  pub last_change_at : Option ℕ
  pub last_revision : Option ℕ
  pub consecutive_failures : ℕ
  pub next_run_at : Option ℕ

-- The text `<source>:<scheduled_for>` of a dispatched run, by its two parts.
pub record DedupeKey : Type 0 where
  pub source : RunSource
  pub scheduled_for : ℕ

pub record BackupRun : Type 0 where
  pub id : ℕ
  pub target : ℕ
  pub status : RunStatus
  pub source : RunSource
  pub scheduled_for : Option ℕ
  pub dedupe_key : Option DedupeKey
  pub job_id : Option ℕ
  pub queued_at : ℕ
  pub started_at : Option ℕ
  pub finished_at : Option ℕ
  pub changed : Bool
  pub raw_changed : Bool
  pub revision : Option ℕ
  pub error_code : String
  pub error_message : String
