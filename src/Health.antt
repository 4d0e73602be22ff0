-- ===== src/Health.antt =====
-- netbox_config_backup/services/health.py: the health of a target, the refresh of all targets, and
-- the two tests for a stuck run. Database times are aware, so the test of the reference's zone is
-- always passed.
pub mod Laws
pub mod Refreshing
mod Tests
use netbox_plugin_backup.Prelude.{
  ℕ, zero, suc, ◌+◌, ◌*◌, ℤ, pos, negsuc, Bool, true, false, ◌&&◌, ◌||◌, not, Option, none, some,
  is_some, or_else, List, [], ◌∷◌, length, Result, ok, err, ◌>>=◌, ◌>>◌, require, nat_beq, ltb, leb,
  ◌==◌, if◌then◌else◌,
}
use netbox_plugin_backup.Choices.{
  RunStatus, is_active_run, TargetStatus, target_status_eq, target_status_beq,
}
use netbox_plugin_backup.Clock.{DateTime, PyError, minus_delta, minute_us}
use netbox_plugin_backup.Records.{BackupPolicy, BackupTarget, BackupRun}
use netbox_plugin_backup.Scheduling.{Services, aware, calculate_next_run, target_timezone_name}

pub record TargetHealthEvaluation : Type 0 where
  pub status : TargetStatus
  pub expected_success_by : Option ℕ
  pub monitored : Bool

abbrev pub evaluation : TargetStatus → Option ℕ → Bool → TargetHealthEvaluation
evaluation status by monitored = record {
  status = status;
  expected_success_by = by;
  monitored = monitored;
}

-- `TARGET_HEALTHY if target.last_success_at else TARGET_NEVER`
abbrev pub success_status : BackupTarget → TargetStatus
success_status t = if is_some t.last_success_at then TargetStatus.healthy else TargetStatus.never

-- The `try` on the next run and what follows it: only ValueError is caught.
unfoldable pub judge_deadline :
    BackupTarget → ℕ → ℕ → Result PyError ℕ → Result PyError TargetHealthEvaluation
judge_deadline t now grace (ok next_expected) =
    let deadline = next_expected + grace * minute_us in
    if leb deadline now
    then ok (evaluation TargetStatus.stale (some deadline) true)
    else ok (evaluation (success_status t) (some deadline) true)
judge_deadline t now grace (err PyError.value_error) = ok (evaluation (success_status t) none false)
judge_deadline t now grace (err e) = err e

-- With an enabled policy and a reference, the run after the reference sets the deadline.
unfoldable pub judge_reference :
    Services
    → BackupTarget
    → BackupPolicy
    → ℕ
    → ℕ
    → Option ℕ
    → Result PyError TargetHealthEvaluation
unfolding judge_deadline
judge_reference env t p now grace none = ok (evaluation TargetStatus.never none true)
judge_reference env t p now grace (some reference) = judge_deadline t now grace (
    calculate_next_run env p (aware reference) t.key (target_timezone_name env t)
      (some (aware reference)))

abbrev pub judge_policy :
    Services → BackupTarget → Option BackupPolicy → ℕ → ℕ → Result PyError TargetHealthEvaluation
judge_policy env t none now grace = ok (evaluation (success_status t) none false)
judge_policy env t (some p) now grace =
    if p.enabled
    then judge_reference env t p now grace (or_else t.last_success_at t.created)
    else ok (evaluation (success_status t) none false)

-- `target.consecutive_failures > 0 or target.status == TARGET_FAILED`
abbrev pub is_failing : BackupTarget → Bool
is_failing t = ltb 0 t.consecutive_failures || target_status_beq t.status TargetStatus.failed

unfoldable pub evaluate_target :
    Services → BackupTarget → ℕ → ℕ → Result PyError TargetHealthEvaluation
unfolding judge_reference
evaluate_target env t now grace =
    if not t.enabled
    then ok (evaluation TargetStatus.disabled none false)
    else if is_failing t
    then ok (evaluation TargetStatus.failed none true)
    else judge_policy env t t.policy_override now grace

unfoldable pub evaluate_target_health :
    Services → BackupTarget → DateTime → ℤ → Result PyError TargetHealthEvaluation
unfolding evaluate_target
evaluate_target_health env t now (negsuc n) = err PyError.value_error
evaluate_target_health env t now (pos grace) =
    if now.is_aware then evaluate_target env t now.micros grace else err PyError.value_error

-- `counts`, by status.
pub record Counts : Type 0 where
  pub healthy : ℕ
  pub stale : ℕ
  pub failed : ℕ
  pub never : ℕ
  pub disabled : ℕ

abbrev pub add_count : TargetStatus → Counts → Counts
add_count TargetStatus.healthy c = record c { healthy = c.healthy + 1 }
add_count TargetStatus.stale c = record c { stale = c.stale + 1 }
add_count TargetStatus.failed c = record c { failed = c.failed + 1 }
add_count TargetStatus.never c = record c { never = c.never + 1 }
add_count TargetStatus.disabled c = record c { disabled = c.disabled + 1 }

abbrev pub no_counts : Counts
no_counts = record { healthy = 0; stale = 0; failed = 0; never = 0; disabled = 0 }

-- The rows after the refresh, the number updated, the ids announced as stale, and the counts. A
-- row's `last_updated` is not modelled.
pub record Refresh : Type 0 where
  pub targets : List BackupTarget
  pub updated : ℕ
  pub newly_stale : List ℕ
  pub counts : Counts

-- One round of the loop, ahead of the rounds that follow.
unfoldable pub refresh_one : BackupTarget → TargetStatus → Refresh → Refresh
refresh_one t status rest =
    let counted = add_count status rest.counts in
    if target_status_beq t.status status
    then record rest { targets = t ∷ rest.targets; counts = counted }
    else record {
      targets = record t { status = status } ∷ rest.targets;
      updated = rest.updated + 1;
      newly_stale =
          if target_status_beq status TargetStatus.stale
          then t.id ∷ rest.newly_stale
          else rest.newly_stale;
      counts = counted;
    }

unfoldable pub refresh_target_health :
    Services → DateTime → ℤ → List BackupTarget → Result PyError Refresh
unfolding refresh_one
refresh_target_health env now grace [] =
    ok (record { targets = []; updated = 0; newly_stale = []; counts = no_counts })
refresh_target_health env now grace (t ∷ ts) = do
  evaluation ← evaluate_target_health env t now grace
  rest ← refresh_target_health env now grace ts
  ok (refresh_one t evaluation.status rest)

-- `is_run_stuck`; a run that is running counts from its start, if that is recorded.
abbrev pub stuck_since : BackupRun → RunStatus → ℕ
stuck_since r RunStatus.running = elim r.started_at [ none ↦ r.queued_at | some t ↦ t ]
stuck_since r _ = r.queued_at

unfoldable pub is_run_stuck : BackupRun → DateTime → ℤ → Result PyError Bool
is_run_stuck r now (negsuc n) = err PyError.value_error
is_run_stuck r now (pos zero) = err PyError.value_error
is_run_stuck r now (pos (suc n)) =
    if not now.is_aware
    then err PyError.value_error
    else if not (is_active_run r.status)
    then ok false
    else (do
      cutoff ← minus_delta now.micros (suc n * minute_us)
      ok (leb (stuck_since r r.status) cutoff))

-- `stuck_run_query` as a test on a row: a comparison with a null column fails.
abbrev pub le_cutoff : Option ℕ → ℕ → Bool
le_cutoff none cutoff = false
le_cutoff (some t) cutoff = leb t cutoff

abbrev pub matches_query : BackupRun → RunStatus → ℕ → Bool
matches_query r RunStatus.queued cutoff = leb r.queued_at cutoff
matches_query r RunStatus.running cutoff =
    le_cutoff r.started_at cutoff || (not (is_some r.started_at) && leb r.queued_at cutoff)
matches_query r _ cutoff = false

unfoldable pub stuck_run_query : BackupRun → ℕ → ℕ → Result PyError Bool
stuck_run_query r now timeout = do
  cutoff ← minus_delta now (timeout * minute_us)
  ok (matches_query r r.status cutoff)
