-- ===== src/Dispatch/Tests.antt =====
-- The theorems on the queueing of runs, applied to two targets of which one is due.
use netbox_plugin_backup.Prelude.{
  ℕ, ◌+◌, ◌*◌, ◌≡◌, refl, true, false, Option, none, some, is_some, [], ◌∷◌, arith,
}
use netbox_plugin_backup.Choices.{RunStatus, RunSource, TargetStatus}
use netbox_plugin_backup.Clock.{minute_us}
use netbox_plugin_backup.Records.{ScheduleType, BackupPolicy, BackupTarget, BackupRun}
use netbox_plugin_backup.Scheduling.{
  Zone, Services, calculate_next_run, schedule_interval, next_interval,
}
use netbox_plugin_backup.Dispatch.{
  Ledger, JobQueue, has_active, has_key, find_target, due_of, queue_target, dispatch_one,
  dispatch_each, enqueue_backup_run, DispatchSummary,
}
use netbox_plugin_backup.Dispatch.Round.{
  live, clear_inactive, apply_schedules, initialize_target_schedules, insert_due, order_due,
  candidate_ids, dispatch_due_targets,
}
use netbox_plugin_backup.Dispatch.Cancel.{
  CoreJob, find_run, is_queued, is_started, can_remove, job_of, save_cancelled,
  cancel_queued_backup_run,
}
use netbox_plugin_backup.Dispatch.Laws.{IsExclusive}
use netbox_plugin_backup.Dispatch.Released.{cancel_releases}
use netbox_plugin_backup.Dispatch.Served.{dispatch_serves_due}

abbrev clock : Zone
clock = record { to_local = λ t. t; to_utc = λ t. t }

abbrev env : Services
env = record {
  find_zone = λ name. none;
  utc = clock;
  hash_head = λ a b d. 0;
  default_time_zone = "UTC";
}

abbrev hourly : BackupPolicy
hourly = record {
  key = "1";
  enabled = true;
  schedule_type = ScheduleType.interval;
  interval_minutes = some 60;
  time_of_day = none;
  timezone_is_site = false;
  jitter_minutes = 0;
  max_retries = 0;
  retry_backoff_minutes = [];
}

abbrev target : ℕ → Option ℕ → BackupTarget
target i next = record {
  id = i;
  key = "t";
  enabled = true;
  status = TargetStatus.healthy;
  policy_override = some hourly;
  site_time_zone = none;
  created = none;
  last_attempt_at = none;
  last_success_at = none;
  last_change_at = none;
  last_revision = none;
  consecutive_failures = 0;
  next_run_at = next;
}

abbrev now : ℕ
now = 100 * minute_us

abbrev ledger : Ledger
ledger = record {
  targets = target 1 (some (200 * minute_us)) ∷ target 2 (some (90 * minute_us)) ∷ [];
  runs = [];
  next_run_id = 7;
}

abbrev jobs : JobQueue
jobs i = some (i + 100)

abbrev no_counts : DispatchSummary
no_counts = record {
  initialized = 0;
  due = 0;
  queued = 0;
  skipped_active = 0;
  conflicts = 0;
  worker_unavailable = false;
  worker_state_unknown = false;
}

abbrev due_target : BackupTarget
due_target = target 2 (some (90 * minute_us))

dispatch_serves_due_example :
    has_active 2 (dispatch_due_targets env jobs now live 100 ledger).ledger.runs ≡ true
unfolding find_target due_of has_key initialize_target_schedules apply_schedules clear_inactive
    dispatch_due_targets candidate_ids order_due insert_due dispatch_each dispatch_one queue_target
    enqueue_backup_run has_active calculate_next_run schedule_interval next_interval
dispatch_serves_due_example =
    dispatch_serves_due env jobs now 2 (target 2 (some (90 * minute_us))) hourly (90 * minute_us)
      100 ledger refl refl refl (omega arith) refl

-- The run of the second target, whose job waits in the queue.
abbrev waiting : BackupRun
waiting = record {
  id = 7;
  target = 2;
  status = RunStatus.queued;
  source = RunSource.scheduled;
  scheduled_for = some 5;
  dedupe_key = none;
  job_id = some 107;
  queued_at = now;
  started_at = none;
  finished_at = none;
  changed = false;
  raw_changed = false;
  revision = none;
  error_code = "";
  error_message = "";
}

abbrev busy : Ledger
busy = record ledger { runs = waiting ∷ [] }

abbrev removable : ℕ → Option CoreJob
removable i = some (record { is_running = false; is_removable = true })

abbrev released : Ledger
released = record busy { runs = save_cancelled 7 now busy.runs }

busy-IsExclusive : IsExclusive busy.runs
unfolding IsExclusive
busy-IsExclusive = λ j. ground arith

cancel_releases_example :
    (r : BackupRun) × (find_run 7 busy.runs ≡ some r)
    × (is_queued r.status ≡ true)
    × (is_started (job_of removable r) ≡ false)
    × (can_remove (job_of removable r) ≡ true)
    × (true ≡ is_some (job_of removable r))
    × (has_active r.target released.runs ≡ false)
    × IsExclusive released.runs
    × (released.targets ≡ busy.targets)
unfolding find_run cancel_queued_backup_run
cancel_releases_example = cancel_releases removable now 7 busy released true refl busy-IsExclusive
