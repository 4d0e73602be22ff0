-- ===== src/Retention/Revisions/Wanted.antt =====
-- `_plan_revisions` of services/retention.py: the rules of a retention profile, stated on the
-- revisions in order and not through the dictionary of reasons.
use netbox_plugin_backup.Prelude.{
  ℕ, ◌≤◌, ◌≡◌, ◌≢◌, refl, ap, ◌⊎◌, inl, inr, Bool, true, false, not, List, [], ◌∷◌, nat_eq, pair_eq,
  nat_beq, leb, leb→le, Any, Any-map, Bool-cases, arith,
}
use netbox_plugin_backup.Retention.{RetentionSettings, RevisionCandidate, Reason}
use netbox_plugin_backup.Retention.Sampling.{Reasons, mark_each}
use netbox_plugin_backup.Retention.Sampling.Grows.{append_if-only, mark_each-only}
use netbox_plugin_backup.Retention.Sampling.Latest.{IsSample, mark_latest-only}
use netbox_plugin_backup.Retention.Revisions.{
  mark_latest, mark_recent, changed_first, in_days, in_weeks, in_months, day_bucket, week_bucket,
  month_bucket, revision_reasons, is_empty,
}

module _ (s : RetentionSettings) (now cutoff : ℕ) (ordered : List RevisionCandidate) where
  -- The rules by which the revision with the id `j` is kept.
  pub data Wanted (j : ℕ) : Type 0 where
    newest :
        (x : RevisionCandidate) (rest : List RevisionCandidate)
        → ordered ≡ x ∷ rest
        → x.object_id ≡ j
        → Wanted j
    guarded : Any (λ x. (x.is_protected ≡ true) × (x.object_id ≡ j)) ordered → Wanted j
    changed :
        Any
          (λ (x : RevisionCandidate). x.object_id ≡ j)
          (changed_first s.minimum_changed_revisions ordered)
        → Wanted j
    recent :
        s.keep_all_days ≢ 0
        → Any (λ x. (cutoff ≤ x.created.micros) × (x.object_id ≡ j)) ordered
        → Wanted j
    daily : IsSample Reason.daily_sample (in_days s now) day_bucket ordered j → Wanted j
    weekly : IsSample Reason.weekly_sample (in_weeks s now) week_bucket ordered j → Wanted j
    monthly : IsSample Reason.monthly_sample (in_months s now) month_bucket ordered j → Wanted j

some_reason : List Reason → Bool
some_reason rs = not (is_empty rs)

mark_latest-only' :
    (ordered : List RevisionCandidate) (d : Reasons) (j : ℕ)
    → some_reason (mark_latest ordered d j) ≡ true
    → (some_reason (d j) ≡ true)
      ⊎ ((x : RevisionCandidate) × (rest : List RevisionCandidate) × (ordered ≡ x ∷ rest)
          × (x.object_id ≡ j))
unfolding mark_latest
mark_latest-only' [] d j h = inl h
mark_latest-only' (x ∷ xs) d j h =
    elim (append_if-only some_reason true x.object_id j Reason.latest_revision d h) [
      | inl old ↦ inl old
      | inr (_, i) ↦ inr (x, xs, refl, i)
    ]

mark_recent-only :
    (k cutoff : ℕ) (ordered : List RevisionCandidate) (d : Reasons) (j : ℕ)
    → some_reason (mark_recent k cutoff ordered d j) ≡ true
    → (some_reason (d j) ≡ true)
      ⊎ ((k ≢ 0) × Any (λ x. (cutoff ≤ x.created.micros) × (x.object_id ≡ j)) ordered)
unfolding mark_recent
mark_recent-only k cutoff ordered d j h = elim (Bool-cases (nat_beq k 0)) [
  | inl z ↦ inl (rw z at h)
  | inr n ↦
      elim (mark_each-only Reason.recent_revision (λ r. leb cutoff r.created.micros) some_reason
        ordered d j (rw n at h)) [
          | inl old ↦ inl old
          | inr a ↦ inr (
            ground arith,
            Any-map _ _ (λ x p. (leb→le cutoff x.created.micros p.0, p.1)) ordered a,
          )
        ]
]

-- The first three marks, before the windows.
pub early_reasons : RetentionSettings → List RevisionCandidate → Reasons
early_reasons s ordered =
    mark_each Reason.minimum_changed (λ _. true) (changed_first s.minimum_changed_revisions ordered)
      (mark_each Reason.protected_revision (λ r. r.is_protected) ordered
        (mark_latest ordered (λ _. [])))

module _ (s : RetentionSettings) (now cutoff : ℕ) (ordered : List RevisionCandidate) where
  early : (j : ℕ) → some_reason (early_reasons s ordered j) ≡ true → Wanted s now cutoff ordered j
  unfolding early_reasons some_reason
  early j h =
      elim (mark_each-only Reason.minimum_changed (λ _. true) some_reason
        (changed_first s.minimum_changed_revisions ordered) _ j h) [
          | inr a ↦ changed (Any-map _ _ (λ x p. p.1) _ a)
          | inl h2 ↦
              elim (mark_each-only Reason.protected_revision (λ r. r.is_protected) some_reason
                ordered _ j h2) [
                  | inr a ↦ guarded a
                  | inl h1 ↦ elim (mark_latest-only' ordered (λ _. []) j h1) [
                    | inr (x, rest, e, i) ↦ newest x rest e i
                    | inl h0 ↦ absurd (unfold some_reason in cc)
                  ]
                ]
        ]

  -- A revision with a reason is kept by one of the rules.
  pub reasons-Wanted :
      (j : ℕ)
      → is_empty (revision_reasons s ordered now cutoff j) ≡ false
      → Wanted s now cutoff ordered j
  unfolding revision_reasons some_reason early_reasons
  reasons-Wanted j h =
      elim (mark_latest-only Reason.monthly_sample (in_months s now) month_bucket some_reason
        ordered _ j (ap not h)) [
          | inr m ↦ monthly m
          | inl h6 ↦
              elim (mark_latest-only Reason.weekly_sample (in_weeks s now) week_bucket some_reason
                ordered _ j h6) [
                  | inr w ↦ weekly w
                  | inl h5 ↦
                      elim (mark_latest-only Reason.daily_sample (in_days s now) day_bucket
                        some_reason ordered _ j h5) [
                          | inr d ↦ daily d
                          | inl h4 ↦ elim (mark_recent-only s.keep_all_days cutoff ordered _ j h4) [
                            | inr (k, a) ↦ recent k a
                            | inl h3 ↦ early j h3
                          ]
                        ]
                ]
        ]
