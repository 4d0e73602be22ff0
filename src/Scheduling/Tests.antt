-- ===== src/Scheduling/Tests.antt =====
-- Concrete policies for the schedule, and the theorems at them; among them a clock that is set back.
use netbox_plugin_backup.Prelude.{
  ℕ, suc, ◌+◌, ◌-◌, ◌*◌, ◌≤◌, ◌<◌, ◌≡◌, refl, ◌↔◌, ◌⊎◌, true, false, ◌&&◌, not, none, some, is_some,
  List, [], ◌∷◌, ok, err, is_ok, get_elem?, length, min, arith, leb, if◌then◌else◌,
}
use netbox_plugin_backup.Choices.{TargetStatus}
use netbox_plugin_backup.Clock.{DateTime, PyError, minute_us, day_us}
use netbox_plugin_backup.Records.{ScheduleType, BackupPolicy, BackupTarget}
use netbox_plugin_backup.Scheduling.{
  Zone, Services, zone_named, jitter_minutes, daily_candidate, calculate_next_run, aware,
  is_retry_scheduled, calculate_failure_next_run, calculate_target_next_run, scheduled_status,
  apply_target_schedule,
}
use netbox_plugin_backup.Scheduling.Laws.{calculate_next_run_interval}
use netbox_plugin_backup.Scheduling.Retry.{
  calculate_next_run_defined, retry_deadline, apply_target_schedule_lem, next_run_in_fold,
}

abbrev hour_us : ℕ
hour_us = 60 * minute_us

abbrev utc : Zone
utc = record { to_local = λ t. t; to_utc = λ t. t }

-- An hour east until the instant 10 d 12 h, and UTC from then on: the wall clocks from 12 h to 13 h
-- of day 10 occur twice, and the first occurrence is meant.
abbrev set_back : Zone
set_back = record {
  to_local = λ t. if leb (10 * day_us + 12 * hour_us) t then t else t + hour_us;
  to_utc = λ w. if leb (10 * day_us + 13 * hour_us) w then w else w - hour_us;
}

abbrev services : Zone → Services
services zone = record {
  find_zone = λ name. some zone;
  utc = utc;
  hash_head = λ t p d. 11 + d;
  default_time_zone = "UTC";
}

abbrev backoff : List ℕ
backoff = 5 ∷ 15 ∷ []

abbrev policy : ScheduleType → BackupPolicy
policy t = record {
  key = "nightly";
  enabled = true;
  schedule_type = t;
  interval_minutes = some 60;
  time_of_day = some (12 * hour_us + 30 * minute_us);
  timezone_is_site = false;
  jitter_minutes = 0;
  max_retries = 3;
  retry_backoff_minutes = backoff;
}

abbrev device : BackupTarget
device = record {
  id = 4;
  key = "4";
  enabled = true;
  status = TargetStatus.disabled;
  policy_override = none;
  site_time_zone = none;
  created = some 0;
  last_attempt_at = none;
  last_success_at = none;
  last_change_at = none;
  last_revision = none;
  consecutive_failures = 2;
  next_run_at = some 7;
}

abbrev start : DateTime
start = aware (10 * day_us)

abbrev later : DateTime
later = aware (10 * day_us + 200 * minute_us)

calculate_next_run_interval_example :
    (r k : ℕ) × (calculate_next_run
        (services utc)
        (policy ScheduleType.interval)
        start
        "4"
        "UTC"
        (some later)
      ≡ ok r)
    × (r ≡ 10 * day_us + suc k * (60 * minute_us))
    × (10 * day_us + 200 * minute_us < r)
    × ((k ≡ 0) ⊎ (r ≤ 10 * day_us + 200 * minute_us + 60 * minute_us))
calculate_next_run_interval_example =
    calculate_next_run_interval (services utc) (policy ScheduleType.interval) start "4" "UTC"
      (some later) 60 refl refl refl refl (omega arith)

calculate_next_run_defined_example :
    let next =
      calculate_next_run (services utc) (policy (ScheduleType.other "cron")) start "4" "UTC" none in
    (is_ok next ≡ false) × (((r : ℕ) × (next ≡ ok r)) ⊎ (next ≡ err PyError.value_error))
calculate_next_run_defined_example =
    calculate_next_run_defined (services utc) (policy (ScheduleType.other "cron")) start "4" "UTC"
      none

retry_deadline_example :
    (m : ℕ) × (get_elem? backoff (min (3 - 1) (length backoff - 1)) ≡ some m)
    × (calculate_failure_next_run
          (services utc)
          (some (policy ScheduleType.interval))
          day_us
          3
          "4"
          "UTC"
        ≡ ok (some (day_us + m * minute_us)))
unfolding is_retry_scheduled
retry_deadline_example =
    retry_deadline (services utc) (policy ScheduleType.interval) day_us 3 "4" "UTC" refl

abbrev rescheduled : BackupTarget
rescheduled = record device { status = TargetStatus.failed; next_run_at = none }

apply_target_schedule_lem_example :
    ((rescheduled.status ≡ TargetStatus.disabled) ↔ (device.enabled ≡ false))
    × ((is_some rescheduled.next_run_at && not (device.enabled && is_some device.policy_override))
        ≡ false)
    × (rescheduled.consecutive_failures ≡ device.consecutive_failures)
    × (rescheduled.last_success_at ≡ device.last_success_at)
unfolding apply_target_schedule calculate_target_next_run scheduled_status
apply_target_schedule_lem_example =
    apply_target_schedule_lem (services utc) device rescheduled day_us refl

-- 12:15 for the second time; the policy asks for 12:30.
next_run_in_fold_example :
    (r : ℕ) × (calculate_next_run
        (services set_back)
        (policy ScheduleType.daily)
        (aware (10 * day_us + 12 * hour_us + 15 * minute_us))
        "4"
        "Europe/Lisbon"
        none
      ≡ ok r)
    × (r ≤ 10 * day_us + 12 * hour_us + 15 * minute_us)
unfolding zone_named daily_candidate jitter_minutes
next_run_in_fold_example =
    next_run_in_fold (services set_back) (policy ScheduleType.daily)
      (aware (10 * day_us + 12 * hour_us + 15 * minute_us)) "4" "Europe/Lisbon" none
      (12 * hour_us + 30 * minute_us) refl refl refl refl (omega arith) (omega arith)
