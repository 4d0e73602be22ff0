-- ===== src/Repository/Tests.antt =====
-- Two failed runs in a row, and the theorems at them.
use netbox_plugin_backup.Prelude.{ℕ, ◌+◌, ◌≡◌, refl, true, false, none, some, [], ◌∷◌, ok}
use netbox_plugin_backup.Choices.{RunStatus, RunSource, TargetStatus}
use netbox_plugin_backup.Scheduling.{Zone, calculate_failure_next_run}
use netbox_plugin_backup.Repository.{
  backup_failed, run_event, Database, Controls, queue_run_event, target_was_unhealthy,
  failure_next_run, mark_failed,
}
use netbox_plugin_backup.Repository.Streak.{
  History, alerts, streak, first_failures, streak_lem, alerts_lem, last_outcome_lem,
}

abbrev utc : Zone
utc = record { to_local = λ t. t; to_utc = λ t. t }

abbrev controls : Controls
controls = record {
  services = record {
    find_zone = λ name. none;
    utc = utc;
    hash_head = λ t p d. d;
    default_time_zone = "UTC";
  };
  events_enabled = true;
  notify_on_every_failure = false;
}

abbrev start : Database
start = record {
  run = record {
    id = 1;
    target = 4;
    status = RunStatus.running;
    source = RunSource.manual;
    scheduled_for = none;
    dedupe_key = none;
    job_id = none;
    queued_at = 5;
    started_at = some 6;
    finished_at = none;
    changed = false;
    raw_changed = false;
    revision = none;
    error_code = "";
    error_message = "";
  };
  target = record {
    id = 4;
    key = "4";
    enabled = true;
    status = TargetStatus.never;
    policy_override = none;
    site_time_zone = none;
    created = some 0;
    last_attempt_at = none;
    last_success_at = none;
    last_change_at = none;
    last_revision = none;
    consecutive_failures = 0;
    next_run_at = none;
  };
  revisions = [];
  queued = [];
}

-- The state after the `n`th failure, at the time `t`.
abbrev down : ℕ → ℕ → Database
down n t = record start {
  run = record start.run {
    status = RunStatus.failed;
    finished_at = some t;
    error_code = "TIMEOUT";
    error_message = "No answer.";
  };
  target = record start.target {
    status = TargetStatus.failed;
    last_attempt_at = some t;
    consecutive_failures = n;
  };
  queued = run_event backup_failed 1 ∷ [];
}

first : mark_failed controls RunStatus.failed "TIMEOUT" "No answer." 9 start ≡ ok (down 1 9)
unfolding mark_failed queue_run_event failure_next_run calculate_failure_next_run
first = refl

second : mark_failed controls RunStatus.failed "TIMEOUT" "No answer." 12 (down 1 9) ≡ ok (down 2 12)
unfolding mark_failed queue_run_event failure_next_run calculate_failure_next_run
second = refl

twice : History controls start (false ∷ false ∷ []) (down 2 12)
twice =
    History.failed RunStatus.failed "TIMEOUT" "No answer." 12 (false ∷ []) (down 1 9) (down 2 12)
      (History.failed RunStatus.failed "TIMEOUT" "No answer." 9 [] start (down 1 9) History.begin
        first)
      second

streak_lem_example : (down 2 12).target.consecutive_failures ≡ streak (false ∷ false ∷ []) 0
streak_lem_example = streak_lem controls start (down 2 12) (false ∷ false ∷ []) twice

alerts_lem_example : alerts (down 2 12) ≡ first_failures (false ∷ false ∷ []) 0 + alerts start
alerts_lem_example = alerts_lem controls start (down 2 12) (false ∷ false ∷ []) refl refl twice

last_outcome_lem_example : target_was_unhealthy (down 2 12).target ≡ true
last_outcome_lem_example = last_outcome_lem controls start (down 2 12) false (false ∷ []) twice
