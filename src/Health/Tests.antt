-- ===== src/Health/Tests.antt =====
-- Concrete targets and runs for the health refresh, and the theorems at them.
use netbox_plugin_backup.Prelude.{
  ℕ, ◌+◌, ◌*◌, ◌≡◌, refl, ◌↔◌, pos, true, false, none, some, List, [], ◌∷◌, ok, arith,
}
use netbox_plugin_backup.Choices.{RunStatus, RunSource, TargetStatus}
use netbox_plugin_backup.Clock.{DateTime, minute_us, day_us}
use netbox_plugin_backup.Records.{ScheduleType, BackupPolicy, BackupTarget, BackupRun}
use netbox_plugin_backup.Scheduling.{
  Zone, Services, calculate_next_run, schedule_interval, next_interval, aware,
}
use netbox_plugin_backup.Health.{
  TargetHealthEvaluation, evaluation, is_failing, judge_deadline, judge_reference, evaluate_target,
  evaluate_target_health, Refresh, refresh_one, refresh_target_health, is_run_stuck,
  stuck_run_query,
}
use netbox_plugin_backup.Health.Laws.{is_run_stuck-eq-query, evaluate_target_status}
use netbox_plugin_backup.Health.Refreshing.{IsRefresh, refresh_target_health_lem}

abbrev utc : Zone
utc = record { to_local = λ t. t; to_utc = λ t. t }

abbrev services : Services
services = record {
  find_zone = λ name. some utc;
  utc = utc;
  hash_head = λ t p d. 11 + d;
  default_time_zone = "UTC";
}

abbrev hourly : BackupPolicy
hourly = record {
  key = "hourly";
  enabled = true;
  schedule_type = ScheduleType.interval;
  interval_minutes = some 60;
  time_of_day = none;
  timezone_is_site = false;
  jitter_minutes = 0;
  max_retries = 0;
  retry_backoff_minutes = [];
}

-- The last success was at the start of day 10.
abbrev device : TargetStatus → BackupTarget
device status = record {
  id = 4;
  key = "4";
  enabled = true;
  status = status;
  policy_override = some hourly;
  site_time_zone = none;
  created = some 0;
  last_attempt_at = none;
  last_success_at = some (10 * day_us);
  last_change_at = none;
  last_revision = none;
  consecutive_failures = 0;
  next_run_at = none;
}

abbrev deadline : ℕ
deadline = 10 * day_us + 60 * minute_us + 30 * minute_us

abbrev overdue : TargetHealthEvaluation
overdue = evaluation TargetStatus.stale (some deadline) true

evaluated :
    (status : TargetStatus)
    → is_failing (device status) ≡ false
    → evaluate_target services (device status) (11 * day_us) 30 ≡ ok overdue
unfolding evaluate_target judge_reference judge_deadline calculate_next_run schedule_interval
    next_interval
evaluated status h = rw h refl

evaluate_target_status_example :
    ((overdue.status ≡ TargetStatus.disabled) ↔ ((device TargetStatus.healthy).enabled ≡ false))
    × ((overdue.status ≡ TargetStatus.failed) ↔ (
        ((device TargetStatus.healthy).enabled ≡ true)
        × (is_failing (device TargetStatus.healthy) ≡ true)))
evaluate_target_status_example =
    evaluate_target_status services (device TargetStatus.healthy) (11 * day_us) 30 overdue
      (evaluated TargetStatus.healthy refl)

abbrev now : DateTime
now = aware (11 * day_us)

evaluated_now :
    (status : TargetStatus)
    → is_failing (device status) ≡ false
    → evaluate_target_health services (device status) now (pos 30) ≡ ok overdue
unfolding evaluate_target_health
evaluated_now status h = evaluated status h

abbrev refreshed : Refresh
refreshed = record {
  targets = device TargetStatus.stale ∷ device TargetStatus.stale ∷ [];
  updated = 1;
  newly_stale = 4 ∷ [];
  counts = record { healthy = 0; stale = 2; failed = 0; never = 0; disabled = 0 };
}

abbrev devices : List BackupTarget
devices = device TargetStatus.healthy ∷ device TargetStatus.stale ∷ []

refreshes : refresh_target_health services now (pos 30) devices ≡ ok refreshed
unfolding refresh_target_health refresh_one
refreshes = rw (evaluated_now TargetStatus.healthy refl, evaluated_now TargetStatus.stale refl)

refresh_target_health_lem_example : IsRefresh services now (pos 30) devices refreshed
refresh_target_health_lem_example =
    refresh_target_health_lem services now (pos 30) devices refreshed refreshes

-- Running, with no start recorded, and queued on day 10.
abbrev run : BackupRun
run = record {
  id = 1;
  target = 4;
  status = RunStatus.running;
  source = RunSource.scheduled;
  scheduled_for = none;
  dedupe_key = none;
  job_id = none;
  queued_at = 10 * day_us;
  started_at = none;
  finished_at = none;
  changed = false;
  raw_changed = false;
  revision = none;
  error_code = "";
  error_message = "";
}

is_run_stuck-eq-query_example :
    is_run_stuck run now (pos 120) ≡ stuck_run_query run (11 * day_us) 120
is_run_stuck-eq-query_example = is_run_stuck-eq-query run now 119 refl (omega arith)
