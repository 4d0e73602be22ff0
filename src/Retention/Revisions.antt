-- ===== src/Retention/Revisions.antt =====
-- `_plan_revisions` of services/retention.py: the reasons to keep each revision, the decisions, and
-- the hard cap on copies.
pub mod Wanted
pub mod Kept
pub mod Cap
pub mod Plan
pub mod Guarantees
use netbox_plugin_backup.Prelude.{
  ℕ, zero, suc, ◌-◌, ◌*◌, ◌<◌, Bool, true, false, ◌&&◌, ◌||◌, not, Option, none, some, List, [],
  ◌∷◌, ◌++◌, map, Result, ok, err, ◌>>=◌, ◌>>◌, nat_eq, pair_eq, nat_beq, ltb, leb, take, keep_if,
  any_of, length, if◌then◌else◌,
}
use netbox_plugin_backup.Clock.{DateTime, PyError, minus_delta, day_us, utc_day}
use netbox_plugin_backup.Clock.Calendar.{iso_year_week, year_month}
use netbox_plugin_backup.Retention.{
  RetentionSettings, RevisionCandidate, RetentionDecision, Reason, has_reason, require_all_aware,
}
use netbox_plugin_backup.Retention.Order.{sort_newest}
use netbox_plugin_backup.Retention.Sampling.{
  Reasons, append_reason, mark_each, mark_latest_per_bucket, within_days, within_weeks,
  within_months,
}

abbrev pub created_of : RevisionCandidate → DateTime
created_of r = r.created

abbrev pub id_of : RevisionCandidate → ℕ
id_of r = r.object_id

-- `if ordered: reasons[ordered[0].object_id].append("Latest revision")`
unfoldable pub mark_latest : List RevisionCandidate → Reasons → Reasons
unfolding append_reason
mark_latest [] reasons = reasons
mark_latest (x ∷ xs) reasons = append_reason x.object_id Reason.latest_revision reasons

unfoldable pub changed_first : ℕ → List RevisionCandidate → List RevisionCandidate
changed_first n ordered = take n (keep_if (λ r. r.content_changed) ordered)

-- `if settings.keep_all_days:` and its loop.
unfoldable pub mark_recent : ℕ → ℕ → List RevisionCandidate → Reasons → Reasons
unfolding mark_each
mark_recent keep_all_days cutoff ordered reasons =
    if nat_beq keep_all_days 0
    then reasons
    else mark_each Reason.recent_revision (λ r. leb cutoff r.created.micros) ordered reasons

abbrev in_days : RetentionSettings → ℕ → RevisionCandidate → Bool
in_days s now r = within_days r.created.micros now s.daily_days

abbrev in_weeks : RetentionSettings → ℕ → RevisionCandidate → Bool
in_weeks s now r = within_weeks r.created.micros now s.weekly_weeks

abbrev in_months : RetentionSettings → ℕ → RevisionCandidate → Bool
in_months s now r = within_months r.created.micros now s.monthly_months

abbrev day_bucket : RevisionCandidate → ℕ
day_bucket r = utc_day r.created.micros

abbrev week_bucket : RevisionCandidate → ℕ × ℕ
week_bucket r = iso_year_week (utc_day r.created.micros)

abbrev month_bucket : RevisionCandidate → ℕ × ℕ
month_bucket r = year_month (utc_day r.created.micros)

-- The dictionary `reasons` once all marks are made, in the order of the source.
unfoldable pub revision_reasons : RetentionSettings → List RevisionCandidate → ℕ → ℕ → Reasons
unfolding mark_latest changed_first mark_recent mark_each mark_latest_per_bucket
revision_reasons s ordered now cutoff =
    let d1 = mark_latest ordered (λ _. []) in
    let d2 = mark_each Reason.protected_revision (λ r. r.is_protected) ordered d1 in
    let d3 =
      mark_each Reason.minimum_changed (λ _. true)
        (changed_first s.minimum_changed_revisions ordered) d2 in
    let d4 = mark_recent s.keep_all_days cutoff ordered d3 in
    let d5 = mark_latest_per_bucket Reason.daily_sample (in_days s now) day_bucket [] ordered d4 in
    let d6 =
      mark_latest_per_bucket Reason.weekly_sample (in_weeks s now) week_bucket [] ordered d5 in
    mark_latest_per_bucket Reason.monthly_sample (in_months s now) month_bucket [] ordered d6

abbrev or_outside : List Reason → List Reason
or_outside [] = Reason.outside_windows ∷ []
or_outside (r ∷ rs) = r ∷ rs

abbrev is_empty : List Reason → Bool
is_empty [] = true
is_empty (r ∷ rs) = false

unfoldable pub decide_revision : Reasons → RevisionCandidate → RetentionDecision
decide_revision reasons r = record {
  object_id = r.object_id;
  timestamp = r.created;
  keep = not (is_empty (reasons r.object_id));
  reasons = or_outside (reasons r.object_id);
}

-- `"Latest revision" in decision.reasons or "Protected revision" in decision.reasons`
unfoldable pub is_mandatory_decision : RetentionDecision → Bool
is_mandatory_decision d =
    has_reason Reason.latest_revision d.reasons || has_reason Reason.protected_revision d.reasons

-- The set `mandatory` of ids, without repetition.
unfoldable pub mandatory_ids : List RetentionDecision → List ℕ
unfolding is_mandatory_decision
mandatory_ids [] = []
mandatory_ids (d ∷ ds) =
    let rest = mandatory_ids ds in
    if is_mandatory_decision d && not (any_of (nat_beq d.object_id) rest)
    then d.object_id ∷ rest
    else rest

unfoldable pub over_limit : RetentionDecision → RetentionDecision
over_limit d = record d { keep = false; reasons = Reason.revision_limit ∷ [] }

-- `if not decision.keep or decision.object_id in mandatory`
abbrev pub passes_cap : List ℕ → RetentionDecision → Bool
passes_cap mandatory d = not d.keep || any_of (nat_beq d.object_id) mandatory

-- `if remaining`, for a decision that does not pass.
abbrev pub uses_slot : List ℕ → ℕ → RetentionDecision → Bool
uses_slot mandatory remaining d = not (passes_cap mandatory d) && ltb 0 remaining

-- The loop over the decisions; `remaining` counts down.
unfoldable pub cap_decisions : List ℕ → ℕ → List RetentionDecision → List RetentionDecision
unfolding over_limit
cap_decisions mandatory remaining [] = []
cap_decisions mandatory remaining (d ∷ ds) =
    (if passes_cap mandatory d || uses_slot mandatory remaining d then d else over_limit d)
    ∷ cap_decisions mandatory (if uses_slot mandatory remaining d then remaining - 1 else remaining)
        ds

-- `if not settings.max_revisions_per_target`: no cap, or a cap of 0.
unfoldable pub apply_cap : Option ℕ → List RetentionDecision → List RetentionDecision
unfolding cap_decisions mandatory_ids
apply_cap none decisions = decisions
apply_cap (some zero) decisions = decisions
apply_cap (some (suc n)) decisions =
    let mandatory = mandatory_ids decisions in
    cap_decisions mandatory (suc n - length mandatory) decisions

unfoldable pub plan_revisions :
    RetentionSettings → List RevisionCandidate → DateTime → Result PyError (List RetentionDecision)
plan_revisions s revisions now = do
  ordered ← sort_newest created_of id_of revisions
  require_all_aware (map created_of ordered)
  cutoff ← minus_delta now.micros (s.keep_all_days * day_us)
  ok (
      apply_cap s.max_revisions_per_target
        (map (decide_revision (revision_reasons s ordered now.micros cutoff)) ordered))
