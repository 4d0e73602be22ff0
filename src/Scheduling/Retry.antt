-- ===== src/Scheduling/Retry.antt =====
-- services/scheduling.py: whether there is a next run, retries after a failure, the schedule of a
-- target, and the hour in which a clock is set back.
use netbox_plugin_backup.Prelude.{
  ℕ, zero, suc, ◌+◌, ◌-◌, ◌*◌, ◌/◌, ◌≤◌, ◌<◌, ◌≡◌, refl, ap, String, Bool, true, false, ◌&&◌, not,
  Option, none, some, is_some, List, [], ◌∷◌, Result, ok, err, is_ok, get_elem?, length, ltb, leb,
  min, inl, inr, arith, ◌⊎◌, ◌↔◌,
}
use netbox_plugin_backup.Choices.{TargetStatus, target_status_eq}
use netbox_plugin_backup.Clock.{DateTime, PyError, minute_us, day_us}
use netbox_plugin_backup.Records.{ScheduleType, BackupPolicy, BackupTarget}
use netbox_plugin_backup.Scheduling.{
  Zone, Services, zone_named, daily_candidate, next_daily, calculate_next_run, reference_of, aware,
  retry_delay, is_retry_scheduled, calculate_failure_next_run, is_nonempty,
  calculate_target_next_run, apply_target_schedule,
}
use netbox_plugin_backup.Scheduling.Laws.{schedule_daily-ok}

-- The fields that a policy of this type needs are set.
abbrev pub has_schedule : BackupPolicy → ScheduleType → Bool
has_schedule p ScheduleType.interval = elim p.interval_minutes [ none ↦ false | some m ↦ ltb 0 m ]
has_schedule p ScheduleType.daily = is_some p.time_of_day
has_schedule p (ScheduleType.other text) = false

value_or_error :
    (r : Result PyError ℕ)
    → ((e : PyError) → r ≡ err e → e ≡ PyError.value_error)
    → ((n : ℕ) × (r ≡ ok n)) ⊎ (r ≡ err PyError.value_error)
value_or_error (ok n) h = inl (n, refl)
value_or_error (err e) h = inr (ap err (h e refl))

-- A next run is calculated exactly if both times are aware and the policy has the fields of its
-- type, with a positive interval; otherwise ValueError is raised.
pub calculate_next_run_defined :
    (env : Services) (p : BackupPolicy) (after : DateTime) (target_key timezone_name : String)
    (now : Option DateTime)
    → let next = calculate_next_run env p after target_key timezone_name now in
      (is_ok next
        ≡ (after.is_aware && (reference_of after now).is_aware && has_schedule p p.schedule_type))
      × (((r : ℕ) × (next ≡ ok r)) ⊎ (next ≡ err PyError.value_error))
unfolding calculate_next_run
calculate_next_run_defined env p after target_key timezone_name now =
    (ground arith, value_or_error _ (λ e h. ground arith))

get_elem?-in_range {ℓ} :
    {A : Type ℓ} (xs : List A) (i : ℕ) → i < length xs → (a : A) × (get_elem? xs i ≡ some a)
get_elem?-in_range [] i h = elim h [ ]
get_elem?-in_range (x ∷ xs) zero h = (x, refl)
get_elem?-in_range (x ∷ xs) (suc i) h = get_elem?-in_range xs i (omega arith)

retry_delay_pos :
    (bs : List ℕ) (failures : ℕ)
    → 0 < failures
    → retry_delay bs failures ≡ get_elem? bs (min (failures - 1) (length bs - 1))
unfolding retry_delay
retry_delay_pos bs zero h = absurd (omega arith)
retry_delay_pos bs (suc failures) h = let e : suc failures - 1 ≡ failures = omega arith in rw e

length_nonempty {ℓ} : {A : Type ℓ} (xs : List A) → is_nonempty xs ≡ true → 0 < length xs
length_nonempty [] h = cc
length_nonempty (x ∷ xs) h = omega arith

-- What a scheduled retry rests on.
retry_facts :
    (p : BackupPolicy) (failures : ℕ)
    → is_retry_scheduled (some p) failures ≡ true
    → (p.enabled ≡ true)
      × (is_nonempty p.retry_backoff_minutes ≡ true)
      × (0 < failures)
      × (leb failures p.max_retries ≡ true)
unfolding is_retry_scheduled
retry_facts p failures h = ground arith

module _ (env : Services) (p : BackupPolicy) (failed_at failures : ℕ)
    (target_key timezone_name : String) where
  abbrev failure_run : Result PyError (Option ℕ)
  failure_run = calculate_failure_next_run env (some p) failed_at failures target_key timezone_name

  -- While a retry is scheduled, the deadline is the backoff of this failure, or the last one, after
  -- the failure; the index never leaves the list.
  pub retry_deadline :
      is_retry_scheduled (some p) failures ≡ true
      → (m : ℕ) × (get_elem? p.retry_backoff_minutes
            (min (failures - 1) (length p.retry_backoff_minutes - 1))
          ≡ some m)
        × (failure_run ≡ ok (some (failed_at + m * minute_us)))
  unfolding calculate_failure_next_run
  retry_deadline h =
      let (e, n, f, m) = retry_facts p failures h in
      let len = length_nonempty p.retry_backoff_minutes n in
      let (delay, found) =
        get_elem?-in_range p.retry_backoff_minutes
          (min (failures - 1) (length p.retry_backoff_minutes - 1)) (omega (arith, len)) in
      (delay, found, simp (e, m, n, retry_delay_pos p.retry_backoff_minutes failures f, found))

  -- After a failure without a scheduled retry, an enabled policy falls back to its regular schedule.
  pub retries_exhausted :
      is_retry_scheduled (some p) failures ≡ false
      → p.enabled ≡ true
      → 0 < failures
      → (r : ℕ) → calculate_next_run env p (aware failed_at) target_key timezone_name none ≡ ok r
      → failure_run ≡ ok (some r)
  unfolding calculate_failure_next_run is_retry_scheduled
  retries_exhausted h e f r c = ground arith

-- Applying the schedule leaves exactly a disabled target disabled; a target that is disabled or has
-- no policy gets no next run; the failures and the last success stay.
pub apply_target_schedule_lem :
    (env : Services) (t u : BackupTarget) (now : ℕ)
    → apply_target_schedule env t now ≡ ok u
    → ((u.status ≡ TargetStatus.disabled) ↔ (t.enabled ≡ false))
      × ((is_some u.next_run_at && not (t.enabled && is_some t.policy_override)) ≡ false)
      × (u.consecutive_failures ≡ t.consecutive_failures)
      × (u.last_success_at ≡ t.last_success_at)
unfolding apply_target_schedule calculate_target_next_run
apply_target_schedule_lem env t u now h =
    ((ground arith, ground arith), ground arith, ground arith, ground arith)

today_ahead :
    (env : Services) (zone : Zone) (p : BackupPolicy) (time reference : ℕ) (target_key : String)
    → let wall = daily_candidate env p time (zone.to_local reference / day_us) target_key in
      zone.to_local reference < wall
      → next_daily env zone p time reference target_key ≡ zone.to_utc wall
unfolding next_daily
today_ahead env zone p time reference target_key ahead =
    let wall = daily_candidate env p time (zone.to_local reference / day_us) target_key in
    let not_passed : leb wall (zone.to_local reference) ≡ false = ground arith in
    rw (not_passed, next_daily)

-- Where a local clock is set back, a daily run can lie in the past: if today's time of day is still
-- ahead on the wall clock but its first occurrence is no later than the reference, the run returned is
-- no later than the reference.
pub next_run_in_fold :
    (env : Services) (p : BackupPolicy) (after : DateTime) (target_key timezone_name : String)
    (now : Option DateTime) (time : ℕ)
    → let reference = (reference_of after now).micros in
      let zone = zone_named env timezone_name in
      let wall = daily_candidate env p time (zone.to_local reference / day_us) target_key in
      after.is_aware ≡ true
      → (reference_of after now).is_aware ≡ true
      → p.schedule_type ≡ ScheduleType.daily
      → p.time_of_day ≡ some time
      → zone.to_local reference < wall
      → zone.to_utc wall ≤ reference
      → (r : ℕ) × (calculate_next_run env p after target_key timezone_name now ≡ ok r)
        × (r ≤ reference)
unfolding calculate_next_run
next_run_in_fold env p after target_key timezone_name now time a b t i ahead past =
    let reference = (reference_of after now).micros in
    let zone = zone_named env timezone_name in
    let wall = daily_candidate env p time (zone.to_local reference / day_us) target_key in
    (
      zone.to_utc wall,
      simp (
        a,
        b,
        t,
        schedule_daily-ok env p time reference target_key timezone_name i,
        today_ahead env zone p time reference target_key ahead,
      ),
      past,
    )
