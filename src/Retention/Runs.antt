-- ===== src/Retention/Runs.antt =====
-- `_plan_runs` of services/retention.py: which backup runs stay in the history.
pub mod Laws
use netbox_plugin_backup.Prelude.{
  ℕ, ◌+◌, ◌*◌, Bool, true, false, ◌&&◌, List, [], ◌∷◌, Result, ok, err, ◌>>=◌, ◌>>◌, nat_beq, leb,
  if◌then◌else◌,
}
use netbox_plugin_backup.Choices.{RunStatus, is_active_run}
use netbox_plugin_backup.Clock.{DateTime, PyError, minus_delta, day_us}
use netbox_plugin_backup.Retention.{
  RetentionSettings, RunCandidate, RetentionDecision, Reason, require_aware,
}
use netbox_plugin_backup.Retention.Order.{sort_newest}

abbrev pub timestamp_of : RunCandidate → DateTime
timestamp_of r = r.timestamp

abbrev pub run_id_of : RunCandidate → ℕ
run_id_of r = r.object_id

-- `status in KNOWN_RUN_STATUSES - ACTIVE_RUN_STATUSES`
unfoldable pub is_completed_run : RunStatus → Bool
is_completed_run RunStatus.queued = false
is_completed_run RunStatus.running = false
is_completed_run (RunStatus.other text) = false
is_completed_run _ = true

-- `_within_exact_days`; the cutoff is computed only for a number of days other than 0.
unfoldable pub within_exact_days : ℕ → ℕ → ℕ → Result PyError Bool
within_exact_days timestamp now days =
    if nat_beq days 0
    then ok false
    else (do cutoff ← minus_delta now (days * day_us); ok (leb cutoff timestamp))

abbrev pub judged : Reason → Reason → Bool → Bool × Reason
judged retained expired keep = (keep, if keep then retained else expired)

-- The chain of tests on the status: whether to keep the run, and why.
unfoldable pub judge_run :
    RetentionSettings → ℕ → RunCandidate → RunStatus → Result PyError (Bool × Reason)
judge_run s now run RunStatus.queued = ok (true, Reason.active_run)
judge_run s now run RunStatus.running = ok (true, Reason.active_run)
judge_run s now run (RunStatus.other text) = ok (true, Reason.unknown_status)
judge_run s now run RunStatus.success_unchanged = do
  keep ← within_exact_days run.timestamp.micros now s.unchanged_run_days
  ok (judged Reason.unchanged_retained Reason.unchanged_expired keep)
judge_run s now run RunStatus.success_changed = do
  keep ← within_exact_days run.timestamp.micros now s.changed_run_days
  ok (judged Reason.changed_retained Reason.changed_expired keep)
judge_run s now run _ = do
  keep ← within_exact_days run.timestamp.micros now s.failed_run_days
  ok (judged Reason.failed_retained Reason.failed_expired keep)

abbrev pub run_decision : RunCandidate → Bool → Reason → RetentionDecision
run_decision run keep reason = record {
  object_id = run.object_id;
  timestamp = run.timestamp;
  keep = keep;
  reasons = reason ∷ [];
}

-- The limit on completed runs: the decision, and the number retained so far.
unfoldable pub limit_run :
    RetentionSettings → ℕ → RunCandidate → Bool × Reason → RetentionDecision × ℕ
limit_run s retained run (keep, reason) =
    if is_completed_run run.status && keep
    then (if leb s.max_runs_per_target retained
        then (run_decision run false Reason.run_limit, retained)
        else (run_decision run keep reason, retained + 1))
    else (run_decision run keep reason, retained)

-- The loop over the runs, newest first.
unfoldable pub decide_runs :
    RetentionSettings → ℕ → ℕ → List RunCandidate → Result PyError (List RetentionDecision)
decide_runs s now retained [] = ok []
decide_runs s now retained (run ∷ runs) = do
  require_aware run.timestamp
  verdict ← judge_run s now run run.status
  rest ← decide_runs s now (limit_run s retained run verdict).1 runs
  ok ((limit_run s retained run verdict).0 ∷ rest)

unfoldable pub plan_runs :
    RetentionSettings → List RunCandidate → DateTime → Result PyError (List RetentionDecision)
plan_runs s runs now = do
  ordered ← sort_newest timestamp_of run_id_of runs
  decide_runs s now.micros 0 ordered
