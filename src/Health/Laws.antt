-- ===== src/Health/Laws.antt =====
-- `evaluate_target_health`, `is_run_stuck` and `stuck_run_query` of services/health.py.
use netbox_plugin_backup.Prelude.{
  ℕ, suc, ◌*◌, ◌≤◌, ◌≡◌, ◌≢◌, refl, ◌↔◌, pos, Bool, true, false, not, Option, none, some, or_else,
  Result, ok, err, arith, if◌then◌else◌,
}
use netbox_plugin_backup.Choices.{TargetStatus}
use netbox_plugin_backup.Clock.{DateTime, PyError, minus_delta-ok, minute_us}
use netbox_plugin_backup.Records.{BackupPolicy, BackupTarget, BackupRun}
use netbox_plugin_backup.Scheduling.{Services}
use netbox_plugin_backup.Health.{
  TargetHealthEvaluation, evaluation, success_status, judge_deadline, judge_reference, judge_policy,
  is_failing, evaluate_target, is_run_stuck, stuck_run_query,
}

-- For a positive timeout that reaches back no further than `datetime.min` and an aware `now`, the
-- test on a run and the database query agree on every run, whatever its status.
pub is_run_stuck-eq-query :
    (r : BackupRun) (now : DateTime) (n : ℕ)
    → now.is_aware ≡ true
    → suc n * minute_us ≤ now.micros
    → is_run_stuck r now (pos (suc n)) ≡ stuck_run_query r now.micros (suc n)
unfolding is_run_stuck stuck_run_query
is_run_stuck-eq-query r now n a h = ground (arith, minus_delta-ok now.micros (suc n * minute_us) h)

-- A status that the schedule can give.
abbrev pub IsScheduled : TargetStatus → Type 0
IsScheduled status = (status ≢ TargetStatus.disabled) × (status ≢ TargetStatus.failed)

success-IsScheduled : (t : BackupTarget) → IsScheduled (success_status t)
success-IsScheduled t = (ground arith, ground arith)

judge_deadline-IsScheduled :
    (t : BackupTarget) (now grace : ℕ) (r : Result PyError ℕ) (e : TargetHealthEvaluation)
    → judge_deadline t now grace r ≡ ok e
    → IsScheduled e.status
unfolding judge_deadline
judge_deadline-IsScheduled t now grace (ok n) e h = (ground arith, ground arith)
judge_deadline-IsScheduled t now grace (err PyError.value_error) e h = (ground arith, ground arith)
judge_deadline-IsScheduled t now grace (err x) e h = (cc, cc)

judge_reference-IsScheduled :
    (env : Services) (t : BackupTarget) (p : BackupPolicy) (now grace : ℕ) (o : Option ℕ)
    (e : TargetHealthEvaluation)
    → judge_reference env t p now grace o ≡ ok e
    → IsScheduled e.status
unfolding judge_reference
judge_reference-IsScheduled env t p now grace none e h = (ground arith, ground arith)
judge_reference-IsScheduled env t p now grace (some reference) e h =
    judge_deadline-IsScheduled t now grace _ e h

pub policy-IsScheduled :
    (env : Services) (t : BackupTarget) (o : Option BackupPolicy) (now grace : ℕ)
    (e : TargetHealthEvaluation)
    → judge_policy env t o now grace ≡ ok e
    → IsScheduled e.status
policy-IsScheduled env t none now grace e h = (ground arith, ground arith)
policy-IsScheduled env t (some p) now grace e h = ground (
  arith,
  judge_reference-IsScheduled env t p now grace (or_else t.last_success_at t.created) e,
  success-IsScheduled t,
)

by_guards :
    (enabled failing : Bool) (e : TargetHealthEvaluation)
    (rest : Result PyError TargetHealthEvaluation)
    → (rest ≡ ok e → IsScheduled e.status)
    → (if not enabled
        then ok (evaluation TargetStatus.disabled none false)
        else if failing
        then ok (evaluation TargetStatus.failed none true)
        else rest)
      ≡ ok e
    → ((e.status ≡ TargetStatus.disabled) ↔ (enabled ≡ false))
      × ((e.status ≡ TargetStatus.failed) ↔ ((enabled ≡ true) × (failing ≡ true)))
by_guards false failing e rest scheduled h =
    ((λ _. refl, λ _. ground arith), (λ s. ground arith, λ b. ground arith))
by_guards true true e rest scheduled h =
    ((λ s. ground arith, λ b. ground arith), (λ _. (refl, refl), λ _. ground arith))
by_guards true false e rest scheduled h = (
  (λ s. absurd ((scheduled h).0 s), λ b. ground arith),
  (λ s. absurd ((scheduled h).1 s), λ b. ground arith),
)

-- An evaluation says disabled exactly for a disabled target, and failed exactly for an enabled one
-- that has failures or was marked failed.
pub evaluate_target_status :
    (env : Services) (t : BackupTarget) (now grace : ℕ) (e : TargetHealthEvaluation)
    → evaluate_target env t now grace ≡ ok e
    → ((e.status ≡ TargetStatus.disabled) ↔ (t.enabled ≡ false))
      × ((e.status ≡ TargetStatus.failed) ↔ ((t.enabled ≡ true) × (is_failing t ≡ true)))
unfolding evaluate_target
evaluate_target_status env t now grace e h =
    by_guards t.enabled (is_failing t) e (judge_policy env t t.policy_override now grace)
      (policy-IsScheduled env t t.policy_override now grace e) h
