-- ===== src/Health/Refreshing.antt =====
-- `refresh_target_health` of services/health.py: its totals, its writes, and its repetition.
use mathlib.Core.Path.{subst}
use netbox_plugin_backup.Prelude.{
  ℕ, suc, ◌+◌, ◌≤◌, ◌≡◌, ◌≢◌, refl, sym, ap, ◌∙◌, ℤ, pos, negsuc, Bool, true, false, ◌||◌, not,
  List, [], ◌∷◌, length, Result, ok, >>=-eq-ok, ok-injective, All₂, arith, if◌then◌else◌, ◌↔◌,
  Option, none, some, or_else, inl, inr, Bool-cases, ltb,
}
use netbox_plugin_backup.Choices.{TargetStatus, target_status_beq, target_status_beq_iff}
use netbox_plugin_backup.Clock.{DateTime, PyError}
use netbox_plugin_backup.Records.{BackupPolicy, BackupTarget}
use netbox_plugin_backup.Scheduling.{Services, target_timezone_name}
use netbox_plugin_backup.Health.{
  TargetHealthEvaluation, evaluation, success_status, judge_reference, judge_policy, add_count,
  evaluate_target, evaluate_target_health, Counts, Refresh, refresh_one, refresh_target_health,
}
use netbox_plugin_backup.Health.Laws.{policy-IsScheduled}

abbrev pub total : Counts → ℕ
total c = c.healthy + c.stale + c.failed + c.never + c.disabled

module _ (env : Services) (now : DateTime) (grace : ℤ) where
  -- The row after the refresh has the evaluated status; everything else is as it was.
  abbrev pub Refreshed : BackupTarget → BackupTarget → Type 0
  Refreshed t u =
      (e : TargetHealthEvaluation) × (evaluate_target_health env t now grace ≡ ok e)
      × (u ≡ record t { status = e.status })

  refresh_one-total :
      (t : BackupTarget) (status : TargetStatus) (rest : Refresh)
      → total (refresh_one t status rest).counts ≡ suc (total rest.counts)
  unfolding refresh_one
  refresh_one-total t TargetStatus.healthy rest = ground arith
  refresh_one-total t TargetStatus.stale rest = ground arith
  refresh_one-total t TargetStatus.failed rest = ground arith
  refresh_one-total t TargetStatus.never rest = ground arith
  refresh_one-total t TargetStatus.disabled rest = ground arith

  refresh_one-targets :
      (t : BackupTarget) (status : TargetStatus) (rest : Refresh)
      → (refresh_one t status rest).targets ≡ record t { status = status } ∷ rest.targets
  unfolding refresh_one
  refresh_one-targets t status rest = elim (Bool-cases (target_status_beq t.status status)) [
    | inl same ↦ rw same (
        ap (λ x. record t { status = x } ∷ rest.targets)
          ((target_status_beq_iff t.status status).0 same))
    | inr differ ↦ rw differ
  ]

  refresh_one-bounds :
      (t : BackupTarget) (status : TargetStatus) (rest : Refresh)
      → length rest.newly_stale ≤ rest.updated
      → length (refresh_one t status rest).newly_stale ≤ (refresh_one t status rest).updated
  unfolding refresh_one
  refresh_one-bounds t status rest h = elim (Bool-cases (target_status_beq t.status status)) [
    | inl same ↦ rw same h
    | inr differ ↦ rw differ (ground arith)
  ]

  -- What a refresh of `ts` says.
  pub record IsRefresh (ts : List BackupTarget) (r : Refresh) : Type 0 where
    pub rows : All₂ Refreshed ts r.targets
    pub counted : total r.counts ≡ length ts
    pub announced : length r.newly_stale ≤ r.updated

  refresh_one-IsRefresh :
      (t : BackupTarget) (ts : List BackupTarget) (e : TargetHealthEvaluation) (rest : Refresh)
      → evaluate_target_health env t now grace ≡ ok e
      → IsRefresh ts rest
      → IsRefresh (t ∷ ts) (refresh_one t e.status rest)
  refresh_one-IsRefresh t ts e rest h k = record {
    rows = rw refresh_one-targets ((e, h, refl), k.rows);
    counted = refresh_one-total t e.status rest ∙ ap suc k.counted;
    announced = refresh_one-bounds t e.status rest k.announced;
  }

  -- A refresh that succeeds evaluates every row, writes to each row its evaluated status and nothing
  -- else, counts every row under one status, and announces as stale at most as many as it updates.
  pub refresh_target_health_lem :
      (ts : List BackupTarget) (r : Refresh)
      → refresh_target_health env now grace ts ≡ ok r
      → IsRefresh ts r
  unfolding refresh_target_health
  refresh_target_health_lem [] r h =
      subst (IsRefresh []) (ok-injective h)
        (record { rows = tt; counted = refl; announced = omega arith })
  refresh_target_health_lem (t ∷ ts) r h =
      let (e, evaluated, h2) = >>=-eq-ok (evaluate_target_health env t now grace) _ h in
      let (rest, refreshed, h3) = >>=-eq-ok (refresh_target_health env now grace ts) _ h2 in
      subst (IsRefresh (t ∷ ts)) (ok-injective h3)
        (refresh_one-IsRefresh t ts e rest evaluated (refresh_target_health_lem ts rest refreshed))

-- The status is read only to see whether the target was marked failed.
policy_again :
    (env : Services) (t : BackupTarget) (status : TargetStatus) (o : Option BackupPolicy)
    (now grace : ℕ)
    → judge_policy env (record t { status = status }) o now grace ≡ judge_policy env t o now grace
unfolding judge_reference target_timezone_name
policy_again env t status none now grace = refl
policy_again env t status (some p) now grace = go (or_else t.last_success_at t.created)
  where
    go :
        (o : Option ℕ)
        → (if p.enabled
            then judge_reference env (record t { status = status }) p now grace o
            else ok (evaluation (success_status t) none false))
          ≡ (if p.enabled
              then judge_reference env t p now grace o
              else ok (evaluation (success_status t) none false))
    go none = refl
    go (some reference) = refl

again_by :
    (enabled counted marked marked' : Bool) (e : TargetHealthEvaluation)
    (rest rest' : Result PyError TargetHealthEvaluation)
    → rest' ≡ rest
    → (marked' ≡ true) ↔ (e.status ≡ TargetStatus.failed)
    → (rest ≡ ok e → e.status ≢ TargetStatus.failed)
    → (if not enabled
        then ok (evaluation TargetStatus.disabled none false)
        else if counted || marked
        then ok (evaluation TargetStatus.failed none true)
        else rest)
      ≡ ok e
    → (if not enabled
        then ok (evaluation TargetStatus.disabled none false)
        else if counted || marked'
        then ok (evaluation TargetStatus.failed none true)
        else rest')
      ≡ ok e
again_by false counted marked marked' e rest rest' same m other h = h
again_by true true marked marked' e rest rest' same m other h = h
again_by true false true marked' e rest rest' same m other h =
    let set : marked' ≡ true = m.1 (ground arith) in rw set h
again_by true false false true e rest rest' same m other h = absurd (other h (m.0 refl))
again_by true false false false e rest rest' same m other h = same ∙ h

evaluate_again :
    (env : Services) (t : BackupTarget) (now grace : ℕ) (e : TargetHealthEvaluation)
    → evaluate_target env t now grace ≡ ok e
    → evaluate_target env (record t { status = e.status }) now grace ≡ ok e
unfolding evaluate_target
evaluate_again env t now grace e h =
    again_by t.enabled (ltb 0 t.consecutive_failures)
      (target_status_beq t.status TargetStatus.failed)
      (target_status_beq e.status TargetStatus.failed) e
      (judge_policy env t t.policy_override now grace)
      (judge_policy env (record t { status = e.status }) t.policy_override now grace)
      (policy_again env t e.status t.policy_override now grace)
      (target_status_beq_iff e.status TargetStatus.failed)
      (λ k. (policy-IsScheduled env t t.policy_override now grace e k).1) h

evaluate_health_again :
    (env : Services) (t : BackupTarget) (now : DateTime) (grace : ℤ) (e : TargetHealthEvaluation)
    → evaluate_target_health env t now grace ≡ ok e
    → evaluate_target_health env (record t { status = e.status }) now grace ≡ ok e
unfolding evaluate_target_health
evaluate_health_again env t now (negsuc n) e h = cc
evaluate_health_again env t now (pos grace) e h = elim (Bool-cases now.is_aware) [
  | inl a ↦ simp a (evaluate_again env t now.micros grace e (simp a at h))
  | inr a ↦ absurd (ground arith)
]

refresh_one-same :
    (t : BackupTarget) (rest : Refresh)
    → refresh_one t t.status rest
      ≡ record rest { targets = t ∷ rest.targets; counts = add_count t.status rest.counts }
unfolding refresh_one
refresh_one-same t rest =
    let same : target_status_beq t.status t.status ≡ true =
      (target_status_beq_iff t.status t.status).1 refl in
    rw same

-- A second refresh at the same time, of the rows that the first one wrote, succeeds; it writes the
-- same rows, updates nothing and announces nothing.
pub refresh_again :
    (env : Services) (now : DateTime) (grace : ℤ) (ts us : List BackupTarget)
    → All₂ (Refreshed env now grace) ts us
    → (r : Refresh) × (refresh_target_health env now grace us ≡ ok r)
      × (r.targets ≡ us)
      × (r.updated ≡ 0)
      × (r.newly_stale ≡ [])
unfolding refresh_target_health
refresh_again env now grace [] [] h = (_, refl, refl, refl, refl)
refresh_again env now grace [] (u ∷ us) h = elim h [ ]
refresh_again env now grace (t ∷ ts) [] h = elim h [ ]
refresh_again env now grace (t ∷ ts) (u ∷ us) ((e, evaluated, written), later) =
    let (rest, refreshed, rows, none_updated, none_stale) =
      refresh_again env now grace ts us later in
    let again : evaluate_target_health env u now grace ≡ ok e =
      rw written (evaluate_health_again env t now grace e evaluated) in
    let same : refresh_one u e.status rest
        ≡ record rest { targets = u ∷ rest.targets; counts = add_count u.status rest.counts } =
      ap (λ x. refresh_one u x rest) (sym (ap (λ (x : BackupTarget). x.status) written))
      ∙ refresh_one-same u rest in
    (
      record rest { targets = u ∷ rest.targets; counts = add_count u.status rest.counts },
      simp (again, refreshed, same),
      ap (λ l. u ∷ l) rows,
      none_updated,
      none_stale,
    )
