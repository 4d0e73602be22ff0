-- ===== src/Cleanup/Spared.antt =====
-- Proofs on netbox_config_backup/services/retention_cleanup.py: which revisions a cleanup leaves alone.
use netbox_plugin_backup.Prelude.{
  ℕ, ◌*◌, ◌≤◌, ◌≡◌, refl, sym, ap, ◌∙◌, ◌⊎◌, inl, inr, Bool, true, false, not, ◌&&◌, List, [], ◌∷◌,
  map, Result, ok, err, ok-injective, >>=-eq-ok, require-eq-ok, keep_if, any_of, Any, Any-keep_if,
  Any-either, Any-of_map, nat_beq, Bool-cases, arith,
}
use netbox_plugin_backup.Clock.{DateTime, PyError, minus_delta, day_us}
use netbox_plugin_backup.Retention.{
  RetentionSettings, RevisionCandidate, RunCandidate, RetentionDecision, RetentionPlan,
  settings_from_policy, require_aware, require_all_aware,
}
use netbox_plugin_backup.Retention.Order.{sort_newest}
use netbox_plugin_backup.Retention.Policy.{effective_local_retention_policy}
use netbox_plugin_backup.Retention.Plan.{build_retention_plan}
use netbox_plugin_backup.Retention.Revisions.{created_of, id_of, plan_revisions}
use netbox_plugin_backup.Retention.Revisions.Plan.{AllAware, deletes, plan_keeps_protected}
use netbox_plugin_backup.Retention.Runs.{plan_runs}
use netbox_plugin_backup.Archive.{
  ConfigRevision, Archive, is_in, has_active_run, is_locally_available,
}
use netbox_plugin_backup.Cleanup.{
  Profiles, CleanupPlan, planned, found_policy, effective_id, deleted_ids, needs_upload_source,
  revision_candidate, run_candidate, locally_available, deferred, plan_cleanup,
}

is_in-deleted_ids : (j : ℕ) (ds : List RetentionDecision) → is_in (deleted_ids ds) j ≡ deletes j ds
unfolding deleted_ids deletes
is_in-deleted_ids j [] = refl
is_in-deleted_ids j (d ∷ ds) = ground (arith, is_in-deleted_ids j ds)

pub is_in-keep_if :
    (test : ℕ → Bool) (j : ℕ) (ids : List ℕ) → is_in (keep_if test ids) j ≡ (test j && is_in ids j)
is_in-keep_if test j [] = ground arith
is_in-keep_if test j (i ∷ ids) = elim (Bool-cases (nat_beq j i)) [
  | inl e ↦ let q : j ≡ i = ground arith in rw q (ground (arith, is_in-keep_if test i ids))
  | inr e ↦ ground (arith, is_in-keep_if test j ids)
]

-- The window of a profile with a plan reaches back no further than `datetime.min`.
plan-window :
    (s : RetentionSettings) (revisions : List RevisionCandidate) (now : DateTime)
    (ds : List RetentionDecision)
    → plan_revisions s revisions now ≡ ok ds
    → s.keep_all_days * day_us ≤ now.micros
unfolding plan_revisions minus_delta
plan-window s revisions now ds h =
    let (ordered, sorted, h1) = >>=-eq-ok (sort_newest created_of id_of revisions) _ h in
    let (u, all_aware, h2) = >>=-eq-ok (require_all_aware (map created_of ordered)) _ h1 in
    let (cutoff, in_range, h3) =
      >>=-eq-ok (minus_delta now.micros (s.keep_all_days * day_us)) _ h2 in
    ground arith

planned-ok : (r : Result PyError RetentionPlan) (p : RetentionPlan) → planned r ≡ ok p → r ≡ ok p
planned-ok (ok q) p h = ap ok (ok-injective h)
planned-ok (err e) p h = cc

-- The decisions of a plan on the revisions.
plan-revisions :
    (s : RetentionSettings) (revisions : List RevisionCandidate) (runs : List RunCandidate)
    (now : DateTime) (p : RetentionPlan)
    → planned (build_retention_plan s revisions runs now) ≡ ok p
    → plan_revisions s revisions now ≡ ok p.revision_decisions
unfolding build_retention_plan
plan-revisions s revisions runs now p h =
    let (u, aware_now, h1) =
      >>=-eq-ok (require_aware now) _
        (planned-ok (build_retention_plan s revisions runs now) p h) in
    let (decisions, made, h2) = >>=-eq-ok (plan_revisions s revisions now) _ h1 in
    let (run_decisions, runs_made, h3) = >>=-eq-ok (plan_runs s runs now) _ h2 in
    made ∙ ap (λ (q : RetentionPlan). ok q.revision_decisions) (ok-injective h3)

module _ {K : Type 0} where
  -- A pending upload of a planned revision defers it.
  is_in-deferred :
      (ids : List ℕ) (j : ℕ) (rs : List (ConfigRevision K))
      → is_in ids j ≡ true
      → Any (λ r. (r.id ≡ j) × (any_of needs_upload_source r.replicas ≡ true)) rs
      → is_in (deferred ids rs) j ≡ true
  unfolding deferred
  is_in-deferred ids j [] h n = elim n [ ]
  is_in-deferred ids j (r ∷ rs) h (inl p) = rw (p.0, h, p.1) (ground arith)
  is_in-deferred ids j (r ∷ rs) h (inr n) = ground (arith, is_in-deferred ids j rs h n)

  candidates-AllAware : (rs : List (ConfigRevision K)) → AllAware (map revision_candidate rs)
  candidates-AllAware [] = tt
  candidates-AllAware (r ∷ rs) = (refl, candidates-AllAware rs)

  -- What a plan was made from.
  pub plan_cleanup-ok :
      (profiles : Profiles) (a : Archive K) (now : DateTime) (plan : CleanupPlan)
      → plan_cleanup profiles a now ≡ ok plan
      → (has_active_run a.runs ≡ false)
        × (s : RetentionSettings) × (ds : List RetentionDecision) × (plan_revisions s
              (map revision_candidate (locally_available a))
              now
            ≡ ok ds)
        × (plan.revision_ids
            ≡ keep_if
                (λ i. not (is_in (deferred (deleted_ids ds) (locally_available a)) i))
                (deleted_ids ds))
  unfolding plan_cleanup build_retention_plan
  plan_cleanup-ok profiles a now plan h =
      let (idle, h1) = require-eq-ok (not (has_active_run a.runs)) _ _ h in
      let (policy_id, found_id, h2) =
        >>=-eq-ok
          (effective_id (effective_local_retention_policy profiles.target profiles.local_storage)) _
          h1 in
      let (policy, found, h3) = >>=-eq-ok (found_policy (profiles.policy policy_id)) _ h2 in
      let s = settings_from_policy policy in
      let candidates = map revision_candidate (locally_available a) in
      let (p, made, h4) =
        >>=-eq-ok (planned (build_retention_plan s candidates (map run_candidate a.runs) now)) _
          h3 in
      (
        ground arith,
        s,
        p.revision_decisions,
        plan-revisions s candidates (map run_candidate a.runs) now p made,
        sym (ap (λ (c : CleanupPlan). c.revision_ids) (ok-injective h4)),
      )

  -- A protected revision, or one that a replica still has to be uploaded from.
  abbrev pub IsSpared : ℕ → ConfigRevision K → Type 0
  IsSpared j r =
      ((r.id ≡ j) × (r.is_protected ≡ true))
      ⊎ ((r.id ≡ j) × (any_of needs_upload_source r.replicas ≡ true))

  protected_stays :
      (s : RetentionSettings) (rs : List (ConfigRevision K)) (now : DateTime)
      (ds : List RetentionDecision) (j : ℕ)
      → plan_revisions s (map revision_candidate rs) now ≡ ok ds
      → Any (λ r. (r.id ≡ j) × (r.is_protected ≡ true)) rs
      → is_in (deleted_ids ds) j ≡ false
  protected_stays s rs now ds j made n =
      let candidates = map revision_candidate rs in
      let (ds', made', stays) =
        plan_keeps_protected s candidates now j (candidates-AllAware rs)
          (plan-window s candidates now ds made)
          (Any-of_map _ _ revision_candidate (λ r p. (p.1, p.0)) rs n) in
      is_in-deleted_ids j ds ∙ ap (deletes j) (ok-injective (sym made ∙ made')) ∙ stays

  deferred_stays :
      (ids : List ℕ) (rs : List (ConfigRevision K)) (j : ℕ)
      → Any (λ r. (r.id ≡ j) × (any_of needs_upload_source r.replicas ≡ true)) rs
      → (not (is_in (deferred ids rs) j) && is_in ids j) ≡ false
  deferred_stays ids rs j n = elim (Bool-cases (is_in ids j)) [
    | inl e ↦ ground (arith, is_in-deferred ids j rs e n)
    | inr e ↦ ground arith
  ]

  -- A plan is made only while no run is active, and it takes no revision with local files that is
  -- protected, and none that a replica still has to be uploaded from.
  pub plan_cleanup_spares :
      (profiles : Profiles) (a : Archive K) (now : DateTime) (plan : CleanupPlan) (j : ℕ)
      → plan_cleanup profiles a now ≡ ok plan
      → Any (λ r. IsSpared j r × (is_locally_available r ≡ true)) a.revisions
      → (has_active_run a.runs ≡ false) × (is_in plan.revision_ids j ≡ false)
  plan_cleanup_spares profiles a now plan j h n =
      let (idle, s, ds, made, chosen) = plan_cleanup-ok profiles a now plan h in
      let rs = locally_available a in
      let ids = deleted_ids ds in
      let found = Any-either _ _ rs (Any-keep_if (IsSpared j) is_locally_available a.revisions n) in
      (
        idle,
        rw (chosen, is_in-keep_if (λ i. not (is_in (deferred ids rs) i)) j ids)
            (elim found [
              | inl p ↦ ground (arith, protected_stays s rs now ds j made p)
              | inr p ↦ deferred_stays ids rs j p
            ]),
      )
