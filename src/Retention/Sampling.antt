-- ===== src/Retention/Sampling.antt =====
-- The marks of services/retention.py: `_plan_revisions` gathers the reasons to keep each revision
-- in a dictionary of lists, and `_mark_latest_per_bucket` adds one reason for the newest eligible
-- revision of each day, week or month.
pub mod Grows
pub mod Latest
use netbox_plugin_backup.Prelude.{
  ℕ, ◌+◌, ◌-◌, ◌*◌, ◌%◌, Bool, true, false, not, ◌&&◌, List, [], ◌∷◌, ◌++◌, Key, nat_eq, ◌==◌,
  any_of, ltb, leb, if◌then◌else◌,
}
use netbox_plugin_backup.Clock.{utc_day}
use netbox_plugin_backup.Clock.Calendar.{week_start, year_month}
use netbox_plugin_backup.Retention.{RevisionCandidate, Reason}

-- `reasons`: every id of the plan has a list, empty at first; no other id is looked up.
abbrev pub Reasons : Type 0
Reasons = ℕ → List Reason

-- `reasons[item.object_id].append(reason)`
unfoldable pub append_reason : ℕ → Reason → Reasons → Reasons
append_reason ident reason reasons j = if j == ident then reasons j ++ reason ∷ [] else reasons j

-- `for revision in items: if test: append`
unfoldable pub mark_each :
    Reason → (RevisionCandidate → Bool) → List RevisionCandidate → Reasons → Reasons
unfolding append_reason
mark_each reason test [] reasons = reasons
mark_each reason test (x ∷ xs) reasons =
    mark_each reason test xs (if test x then append_reason x.object_id reason reasons else reasons)

-- `key in seen`
unfoldable pub is_seen {ℓ} : {K : Type ℓ} ⦃e : Key K⦄ → K → List K → Bool
is_seen key seen = any_of (λ k. key == k) seen

module _ {K : Type 0} ⦃e : Key K⦄ where
  unfoldable pub mark_latest_per_bucket :
      Reason
      → (RevisionCandidate → Bool)
      → (RevisionCandidate → K)
      → List K
      → List RevisionCandidate
      → Reasons
      → Reasons
  unfolding append_reason is_seen
  mark_latest_per_bucket reason eligible bucket seen [] reasons = reasons
  mark_latest_per_bucket reason eligible bucket seen (x ∷ xs) reasons =
      let is_new = eligible x && not (is_seen (bucket x) seen) in
      mark_latest_per_bucket reason eligible bucket (if is_new then bucket x ∷ seen else seen) xs
        (if is_new then append_reason x.object_id reason reasons else reasons)

-- The three windows count calendar days, weeks and months back from `now`, both in UTC. The
-- source tests `0 <= age < n` on integers; an age is negative where the later date comes first.
unfoldable pub within_days : ℕ → ℕ → ℕ → Bool
within_days timestamp now days =
    if days == 0
    then false
    else leb (utc_day timestamp) (utc_day now) && ltb (utc_day now - utc_day timestamp) days

unfoldable pub within_weeks : ℕ → ℕ → ℕ → Bool
unfolding week_start
within_weeks timestamp now weeks =
    if weeks == 0
    then false
    else leb (week_start (utc_day timestamp)) (week_start (utc_day now))
      && ltb (week_start (utc_day now) - week_start (utc_day timestamp)) (weeks * 7)

unfoldable pub month_index : ℕ → ℕ
unfolding year_month
month_index t = (year_month (utc_day t)).0 * 12 + (year_month (utc_day t)).1

unfoldable pub within_months : ℕ → ℕ → ℕ → Bool
unfolding month_index
within_months timestamp now months =
    if months == 0
    then false
    else leb (month_index timestamp) (month_index now)
      && ltb (month_index now - month_index timestamp) months
