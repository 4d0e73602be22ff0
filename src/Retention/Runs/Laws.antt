-- ===== src/Retention/Runs/Laws.antt =====
-- `_plan_runs` of services/retention.py: which runs it keeps.
use netbox_plugin_backup.Prelude.{
  ℕ, zero, suc, ◌+◌, ◌-◌, ◌*◌, ◌≤◌, ◌≡◌, refl, ap, ◌∙◌, Bool, true, false, ◌&&◌, ◌||◌, not, List,
  [], ◌∷◌, map, ok, leb, ltb, take, keep_if, All, All₂, Bool-cases, inl, inr, arith, if◌then◌else◌,
}
use netbox_plugin_backup.Choices.{RunStatus}
use netbox_plugin_backup.Clock.{DateTime, minus_delta-ok, day_us}
use netbox_plugin_backup.Retention.{
  RetentionSettings, RunCandidate, RetentionDecision, Reason, require_aware,
}
use netbox_plugin_backup.Retention.Order.{order_newest, sort_newest-ok, order_newest-All}
use netbox_plugin_backup.Retention.Runs.{
  timestamp_of, run_id_of, is_completed_run, judged, within_exact_days, judge_run, run_decision,
  limit_run, decide_runs, plan_runs,
}

-- The window of a completed run, in days.
abbrev window_days : RetentionSettings → RunStatus → ℕ
window_days s RunStatus.success_unchanged = s.unchanged_run_days
window_days s RunStatus.success_changed = s.changed_run_days
window_days s _ = s.failed_run_days

-- A time is younger than the window of a status.
abbrev in_window : RetentionSettings → ℕ → ℕ → RunStatus → Bool
in_window s now t status =
    ltb 0 (window_days s status) && leb (now - window_days s status * day_us) t

-- A completed run that its window keeps.
abbrev pub is_retained : RetentionSettings → ℕ → RunCandidate → Bool
is_retained s now r = is_completed_run r.status && in_window s now r.timestamp.micros r.status

-- The three windows reach back no further than `datetime.min`.
pub record InRange (s : RetentionSettings) (now : ℕ) : Type 0 where
  pub unchanged : s.unchanged_run_days * day_us ≤ now
  pub changed : s.changed_run_days * day_us ≤ now
  pub failed : s.failed_run_days * day_us ≤ now

within_exact_days-ok :
    (t now days : ℕ)
    → days * day_us ≤ now
    → within_exact_days t now days ≡ ok (ltb 0 days && leb (now - days * day_us) t)
unfolding within_exact_days
within_exact_days-ok t now days h = ground (arith, minus_delta-ok now (days * day_us) h)

-- The verdict where nothing is raised.
verdict : RetentionSettings → ℕ → ℕ → RunStatus → Bool × Reason
verdict s now t RunStatus.queued = (true, Reason.active_run)
verdict s now t RunStatus.running = (true, Reason.active_run)
verdict s now t (RunStatus.other text) = (true, Reason.unknown_status)
verdict s now t RunStatus.success_unchanged =
    judged Reason.unchanged_retained Reason.unchanged_expired
      (in_window s now t RunStatus.success_unchanged)
verdict s now t RunStatus.success_changed =
    judged Reason.changed_retained Reason.changed_expired
      (in_window s now t RunStatus.success_changed)
verdict s now t status =
    judged Reason.failed_retained Reason.failed_expired (in_window s now t status)

verdict_keep :
    (s : RetentionSettings) (now t : ℕ) (status : RunStatus)
    → (verdict s now t status).0 ≡ (not (is_completed_run status) || in_window s now t status)
unfolding verdict is_completed_run
verdict_keep s now t RunStatus.queued = refl
verdict_keep s now t status = refl

judge_run-ok :
    (s : RetentionSettings) (now : ℕ) (run : RunCandidate) (status : RunStatus)
    → InRange s now
    → judge_run s now run status ≡ ok (verdict s now run.timestamp.micros status)
unfolding judge_run verdict
judge_run-ok s now run RunStatus.queued h = refl
judge_run-ok s now run RunStatus.running h = refl
judge_run-ok s now run (RunStatus.other text) h = refl
judge_run-ok s now run RunStatus.success_unchanged h =
    rw (within_exact_days-ok run.timestamp.micros now s.unchanged_run_days h.unchanged)
judge_run-ok s now run RunStatus.success_changed h =
    rw (within_exact_days-ok run.timestamp.micros now s.changed_run_days h.changed)
judge_run-ok s now run _ h =
    rw (within_exact_days-ok run.timestamp.micros now s.failed_run_days h.failed)

-- The loop where nothing is raised.
decided : RetentionSettings → ℕ → ℕ → List RunCandidate → List RetentionDecision
decided s now k [] = []
decided s now k (run ∷ runs) =
    let v = verdict s now run.timestamp.micros run.status in
    (limit_run s k run v).0 ∷ decided s now (limit_run s k run v).1 runs

pub require_aware-ok : (t : DateTime) → t.is_aware ≡ true → require_aware t ≡ ok tt
unfolding require_aware
require_aware-ok t h = rw h

decide_runs-ok :
    (s : RetentionSettings) (now k : ℕ) (runs : List RunCandidate)
    → InRange s now
    → All (λ r. r.timestamp.is_aware ≡ true) runs
    → decide_runs s now k runs ≡ ok (decided s now k runs)
unfolding decide_runs decided
decide_runs-ok s now k [] h a = refl
decide_runs-ok s now k (run ∷ runs) h a =
    let v = verdict s now run.timestamp.micros run.status in
    rw (
      require_aware-ok run.timestamp a.0,
      judge_run-ok s now run run.status h,
      decide_runs-ok s now (limit_run s k run v).1 runs h a.1,
    )

-- The ids of the completed runs that are kept, in order.
abbrev pub kept_completed : List RunCandidate → List RetentionDecision → List ℕ
kept_completed [] ds = []
kept_completed (r ∷ rs) [] = []
kept_completed (r ∷ rs) (d ∷ ds) =
    if is_completed_run r.status && d.keep
    then d.object_id ∷ kept_completed rs ds
    else kept_completed rs ds

-- What a decision says of its run, apart from the limit.
pub record Judged (s : RetentionSettings) (now : ℕ) (r : RunCandidate) (d : RetentionDecision)
    : Type 0 where
  pub same_id : d.object_id ≡ r.object_id
  pub others_kept : (is_completed_run r.status || d.keep) ≡ true
  pub kept_in_window : (is_completed_run r.status && d.keep && not (is_retained s now r)) ≡ false

limit_run-Judged :
    (s : RetentionSettings) (now k : ℕ) (r : RunCandidate)
    → Judged s now r (limit_run s k r (verdict s now r.timestamp.micros r.status)).0
unfolding limit_run
limit_run-Judged s now k r = ground (arith, verdict_keep s now r.timestamp.micros r.status)

decided-Judged :
    (s : RetentionSettings) (now k : ℕ) (runs : List RunCandidate)
    → All₂ (Judged s now) runs (decided s now k runs)
unfolding decided
decided-Judged s now k [] = tt
decided-Judged s now k (r ∷ rs) = (
  limit_run-Judged s now k r,
  decided-Judged s now (limit_run s k r (verdict s now r.timestamp.micros r.status)).1 rs,
)

-- The three ways through the limit.
limit_run-passed :
    (s : RetentionSettings) (k : ℕ) (r : RunCandidate) (v : Bool × Reason)
    → (is_completed_run r.status && v.0) ≡ false
    → limit_run s k r v ≡ (run_decision r v.0 v.1, k)
unfolding limit_run
limit_run-passed s k r v h = rw h

limit_run-full :
    (s : RetentionSettings) (k : ℕ) (r : RunCandidate) (v : Bool × Reason)
    → (is_completed_run r.status && v.0) ≡ true
    → 0 ≡ s.max_runs_per_target - k
    → limit_run s k r v ≡ (run_decision r false Reason.run_limit, k)
unfolding limit_run
limit_run-full s k r v h e =
    let full : leb s.max_runs_per_target k ≡ true = ground arith in rw (h, full)

limit_run-room :
    (s : RetentionSettings) (k room : ℕ) (r : RunCandidate) (v : Bool × Reason)
    → (is_completed_run r.status && v.0) ≡ true
    → suc room ≡ s.max_runs_per_target - k
    → limit_run s k r v ≡ (run_decision r v.0 v.1, k + 1)
unfolding limit_run
limit_run-room s k room r v h e =
    let free : leb s.max_runs_per_target k ≡ false = ground arith in rw (h, free)

retained-verdict :
    (s : RetentionSettings) (now : ℕ) (r : RunCandidate)
    → (is_completed_run r.status && (verdict s now r.timestamp.micros r.status).0)
      ≡ is_retained s now r
retained-verdict s now r = rw verdict_keep (go (is_completed_run r.status))
  where
    go :
        (c : Bool)
        → (c && (not c || in_window s now r.timestamp.micros r.status))
          ≡ (c && in_window s now r.timestamp.micros r.status)
    go true = refl
    go false = refl

abbrev verdict_of : RetentionSettings → ℕ → RunCandidate → Bool × Reason
verdict_of s now r = verdict s now r.timestamp.micros r.status

-- With room for `room` more, the completed runs that are kept are the first in their windows.
decided-kept :
    (s : RetentionSettings) (now k room : ℕ) (runs : List RunCandidate)
    → room ≡ s.max_runs_per_target - k
    → kept_completed runs (decided s now k runs)
      ≡ take room (map run_id_of (keep_if (is_retained s now) runs))
unfolding decided
decided-kept s now k zero [] e = refl
decided-kept s now k (suc room) [] e = refl
decided-kept s now k zero (r ∷ rs) e = elim (Bool-cases (is_retained s now r)) [
  | inl t ↦
      simp (limit_run-full s k r (verdict_of s now r) (retained-verdict s now r ∙ t) e)
        (ground (arith, decided-kept s now k zero rs e))
  | inr f ↦
      simp
        (
          limit_run-passed s k r (verdict_of s now r) (retained-verdict s now r ∙ f),
          retained-verdict,
          f,
        )
        (decided-kept s now k zero rs e)
]
decided-kept s now k (suc room) (r ∷ rs) e = elim (Bool-cases (is_retained s now r)) [
  | inl t ↦
      simp
        (
          limit_run-room s k room r (verdict_of s now r) (retained-verdict s now r ∙ t) e,
          retained-verdict,
          t,
        )
        (ap (λ l. r.object_id ∷ l) (decided-kept s now (k + 1) room rs (omega arith)))
  | inr f ↦
      simp
        (
          limit_run-passed s k r (verdict_of s now r) (retained-verdict s now r ∙ f),
          retained-verdict,
          f,
        )
        (decided-kept s now k (suc room) rs e)
]

-- For aware times and windows within range there is a run plan; it has one decision for each run,
-- newest first; runs that are active or of an unknown status are kept; a completed run is kept only
-- inside its window; and the completed runs kept are exactly the newest of those in their windows,
-- up to the limit per target.
pub plan_runs_exact :
    (s : RetentionSettings) (runs : List RunCandidate) (now : DateTime)
    → All (λ r. r.timestamp.is_aware ≡ true) runs
    → InRange s now.micros
    → let ordered = order_newest timestamp_of run_id_of runs in
      (ds : List RetentionDecision) × (plan_runs s runs now ≡ ok ds)
      × All₂ (Judged s now.micros) ordered ds
      × (kept_completed ordered ds
          ≡ take s.max_runs_per_target (map run_id_of (keep_if (is_retained s now.micros) ordered)))
unfolding plan_runs
plan_runs_exact s runs now a h =
    let ordered = order_newest timestamp_of run_id_of runs in
    (
      decided s now.micros 0 ordered,
      rw (
        sort_newest-ok timestamp_of run_id_of runs a,
        decide_runs-ok s now.micros 0 ordered h
            (order_newest-All timestamp_of run_id_of (λ r. r.timestamp.is_aware ≡ true) runs a),
      ),
      decided-Judged s now.micros 0 ordered,
      decided-kept s now.micros 0 s.max_runs_per_target ordered (omega arith),
    )
