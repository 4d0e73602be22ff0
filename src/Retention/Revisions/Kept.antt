-- ===== src/Retention/Revisions/Kept.antt =====
-- The rules of Wanted and the reasons that `_plan_revisions` gathers.
use netbox_plugin_backup.Prelude.{
  ℕ, ◌≤◌, ◌≡◌, ◌≢◌, refl, Bool, true, false, List, [], ◌∷◌, nat_eq, pair_eq, nat_beq, leb, le→leb,
  Any, Any-All, Any-map, arith, if◌then◌else◌, Key,
}
use netbox_plugin_backup.Retention.{RetentionSettings, RevisionCandidate, Reason, has_reason}
use netbox_plugin_backup.Retention.Sampling.{Reasons, mark_each, mark_latest_per_bucket}
use netbox_plugin_backup.Retention.Sampling.Grows.{
  Grows, Grows-refl, Grows-trans, append_reason-Grows, append_reason-has, mark_each-Grows,
  mark_each-has,
}
use netbox_plugin_backup.Retention.Sampling.Latest.{IsSample, mark_latest-Grows, mark_latest-has}
use netbox_plugin_backup.Retention.Revisions.{
  mark_latest, mark_recent, changed_first, in_days, in_weeks, in_months, day_bucket, week_bucket,
  month_bucket, revision_reasons, is_empty,
}
use netbox_plugin_backup.Retention.Revisions.Wanted.{
  Wanted, newest, guarded, changed, recent, daily, weekly, monthly,
}

pub nonempty_of_reason :
    (q : Reason) (rs : List Reason) → has_reason q rs ≡ true → is_empty rs ≡ false
unfolding has_reason
nonempty_of_reason q [] h = cc
nonempty_of_reason q (r ∷ rs) h = refl

-- A marked item's id has the reason.
mark_each-Any :
    (r : Reason) (test : RevisionCandidate → Bool) (xs : List RevisionCandidate) (d : Reasons)
    (j : ℕ)
    → Any (λ x. (test x ≡ true) × (x.object_id ≡ j)) xs
    → has_reason r (mark_each r test xs d j) ≡ true
mark_each-Any r test xs d j a =
    Any-All _ _ _ (λ x p f. let e = p.1 in rw (← e) (f p.0)) xs a (mark_each-has r test xs d)

mark_latest-Grows_lem :
    (ordered : List RevisionCandidate) (d : Reasons) → Grows d (mark_latest ordered d)
unfolding mark_latest
mark_latest-Grows_lem [] d = Grows-refl d
mark_latest-Grows_lem (x ∷ xs) d = append_reason-Grows x.object_id Reason.latest_revision d

mark_recent-Grows :
    (k cutoff : ℕ) (ordered : List RevisionCandidate) (d : Reasons)
    → Grows d (mark_recent k cutoff ordered d)
unfolding mark_recent
mark_recent-Grows k cutoff ordered d = go (nat_beq k 0)
  where
    go :
        (b : Bool)
        → Grows d (
            if b
            then d
            else mark_each Reason.recent_revision (λ r. leb cutoff r.created.micros) ordered d)
    go true = Grows-refl d
    go false = mark_each-Grows Reason.recent_revision (λ r. leb cutoff r.created.micros) ordered d

sample-has :
    {K : Type 0} ⦃e : Key K⦄ (r : Reason) (eligible : RevisionCandidate → Bool)
    (bucket : RevisionCandidate → K) (ordered : List RevisionCandidate) (d : Reasons) (j : ℕ)
    → IsSample r eligible bucket ordered j
    → has_reason r (mark_latest_per_bucket r eligible bucket [] ordered d j) ≡ true
sample-has r eligible bucket ordered d j m =
    let i = m.has_id in
    let split = m.splits in
    rw (split, ← i)
      (mark_latest-has r eligible bucket m.newer m.older m.item d m.is_eligible m.is_first)

module _ (s : RetentionSettings) (now cutoff : ℕ) (ordered : List RevisionCandidate) where
  abbrev d1 : Reasons
  d1 = mark_latest ordered (λ _. [])

  abbrev d2 : Reasons
  d2 = mark_each Reason.protected_revision (λ r. r.is_protected) ordered d1

  abbrev d3 : Reasons
  d3 =
      mark_each Reason.minimum_changed (λ _. true)
        (changed_first s.minimum_changed_revisions ordered) d2

  abbrev d4 : Reasons
  d4 = mark_recent s.keep_all_days cutoff ordered d3

  abbrev d5 : Reasons
  d5 = mark_latest_per_bucket Reason.daily_sample (in_days s now) day_bucket [] ordered d4

  abbrev d6 : Reasons
  d6 = mark_latest_per_bucket Reason.weekly_sample (in_weeks s now) week_bucket [] ordered d5

  abbrev d7 : Reasons
  d7 = mark_latest_per_bucket Reason.monthly_sample (in_months s now) month_bucket [] ordered d6

  grows6 : Grows d6 d7
  grows6 = mark_latest-Grows Reason.monthly_sample (in_months s now) month_bucket [] ordered d6

  grows5 : Grows d5 d7
  grows5 =
      Grows-trans
        (mark_latest-Grows Reason.weekly_sample (in_weeks s now) week_bucket [] ordered d5) grows6

  grows4 : Grows d4 d7
  grows4 =
      Grows-trans (mark_latest-Grows Reason.daily_sample (in_days s now) day_bucket [] ordered d4)
        grows5

  grows3 : Grows d3 d7
  grows3 = Grows-trans (mark_recent-Grows s.keep_all_days cutoff ordered d3) grows4

  grows2 : Grows d2 d7
  grows2 =
      Grows-trans
        (mark_each-Grows Reason.minimum_changed (λ _. true)
          (changed_first s.minimum_changed_revisions ordered) d2)
        grows3

  grows1 : Grows d1 d7
  grows1 =
      Grows-trans (mark_each-Grows Reason.protected_revision (λ r. r.is_protected) ordered d1)
        grows2

  pub latest-has :
      (x : RevisionCandidate) (rest : List RevisionCandidate)
      → ordered ≡ x ∷ rest
      → has_reason Reason.latest_revision (revision_reasons s ordered now cutoff x.object_id) ≡ true
  unfolding revision_reasons
  latest-has x rest e =
      grows1.at x.object_id Reason.latest_revision
        (rw e (append_reason-has x.object_id Reason.latest_revision (λ _. [])))

  pub protected-has :
      (j : ℕ)
      → Any (λ x. (x.is_protected ≡ true) × (x.object_id ≡ j)) ordered
      → has_reason Reason.protected_revision (revision_reasons s ordered now cutoff j) ≡ true
  unfolding revision_reasons
  protected-has j a =
      grows2.at j Reason.protected_revision
        (mark_each-Any Reason.protected_revision (λ r. r.is_protected) ordered d1 j a)

  recent-has :
      (j : ℕ)
      → s.keep_all_days ≢ 0
      → Any (λ x. (cutoff ≤ x.created.micros) × (x.object_id ≡ j)) ordered
      → has_reason Reason.recent_revision (d4 j) ≡ true
  unfolding mark_recent
  recent-has j k a =
      let e : nat_beq s.keep_all_days 0 ≡ false = ground arith in
      rw e (
        mark_each-Any Reason.recent_revision (λ r. leb cutoff r.created.micros) ordered d3 j
          (Any-map _ _ (λ x p. (le→leb cutoff x.created.micros p.0, p.1)) ordered a))

  -- Each rule leaves its revision with a reason.
  pub Wanted-nonempty :
      (j : ℕ)
      → Wanted s now cutoff ordered j
      → is_empty (revision_reasons s ordered now cutoff j) ≡ false
  unfolding revision_reasons
  Wanted-nonempty j (newest x rest e i) = nonempty_of_reason _ _ (rw i at (latest-has x rest e))
  Wanted-nonempty j (guarded a) = nonempty_of_reason _ _ (protected-has j a)
  Wanted-nonempty j (changed a) = nonempty_of_reason _ _ (
      grows3.at j Reason.minimum_changed (
        mark_each-Any Reason.minimum_changed (λ _. true) _ d2 j
          (Any-map _ _ (λ x i. (refl, i)) _ a)))
  Wanted-nonempty j (recent k a) =
      nonempty_of_reason _ _ (grows4.at j Reason.recent_revision (recent-has j k a))
  Wanted-nonempty j (daily m) =
      nonempty_of_reason _ _ (grows5.at j Reason.daily_sample (sample-has _ _ _ ordered d4 j m))
  Wanted-nonempty j (weekly m) =
      nonempty_of_reason _ _ (grows6.at j Reason.weekly_sample (sample-has _ _ _ ordered d5 j m))
  Wanted-nonempty j (monthly m) =
      nonempty_of_reason Reason.monthly_sample _ (sample-has _ _ _ ordered d6 j m)
