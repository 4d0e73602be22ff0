-- ===== src/Scheduling/Laws.antt =====
-- `calculate_next_run` of services/scheduling.py: the time of the next run, for both kinds of policy.
use native.Mathlib.Nat.{mod-lt}
use netbox_plugin_backup.Prelude.{
  ℕ, suc, ◌+◌, ◌-◌, ◌*◌, ◌/◌, ◌≤◌, ◌<◌, ◌≡◌, refl, String, true, false, Option, some, ok, nat_beq,
  leb, leb→le, Bool-cases, inl, inr, arith, if◌then◌else◌, ◌⊎◌,
}
use netbox_plugin_backup.Clock.{DateTime, minute_us, day_us}
use netbox_plugin_backup.Records.{ScheduleType, BackupPolicy}
use netbox_plugin_backup.Scheduling.{
  Services, zone_named, jitter_minutes, daily_candidate, next_interval, next_daily,
  schedule_interval, schedule_daily, calculate_next_run, reference_of,
}

-- Skipping the missed intervals lands in the step after the reference.
catch_up :
    (d step : ℕ) → 0 < step → (d < (d / step + 1) * step) × ((d / step + 1) * step ≤ d + step)
catch_up d step h = grind arith

module _ (minutes after reference : ℕ) (positive : 0 < minutes) where
  abbrev step : ℕ
  step = minutes * minute_us

  abbrev lag : ℕ
  lag = reference - (after + step)

  late_interval :
      leb (after + step) reference ≡ true
      → next_interval minutes after reference ≡ after + step + (lag / step + 1) * step
  unfolding next_interval
  late_interval late = rw late

  early_interval :
      leb (after + step) reference ≡ false → next_interval minutes after reference ≡ after + step
  unfolding next_interval
  early_interval early = rw early

  -- For a positive interval the next run is on the grid of `after`, strictly after the reference, and
  -- at most one interval after it, unless it is the first point of the grid.
  pub next_interval_bounds :
      (k : ℕ) × (next_interval minutes after reference ≡ after + suc k * step)
      × (reference < next_interval minutes after reference)
      × ((k ≡ 0) ⊎ (next_interval minutes after reference ≤ reference + step))
  next_interval_bounds = elim (Bool-cases (leb (after + step) reference)) [
    | inl late ↦ (
      lag / step + 1,
      rw (late_interval late) (grind arith),
      omega (arith, late_interval late, leb→le _ _ late, catch_up lag step (omega arith)),
      inr (omega (arith, late_interval late, leb→le _ _ late, catch_up lag step (omega arith))),
    )
    | inr early ↦ (
      0,
      rw (early_interval early) (omega arith),
      rw (early_interval early) (ground arith),
      inl refl,
    )
  ]

schedule_interval-ok :
    (p : BackupPolicy) (minutes after reference : ℕ)
    → p.interval_minutes ≡ some minutes
    → 0 < minutes
    → schedule_interval p after reference ≡ ok (next_interval minutes after reference)
unfolding schedule_interval
schedule_interval-ok p minutes after reference i h =
    let nonzero : nat_beq minutes 0 ≡ false = ground arith in rw (i, nonzero)

pub schedule_daily-ok :
    (env : Services) (p : BackupPolicy) (time reference : ℕ) (target_key timezone_name : String)
    → p.time_of_day ≡ some time
    → schedule_daily env p reference target_key timezone_name
      ≡ ok (next_daily env (zone_named env timezone_name) p time reference target_key)
unfolding schedule_daily
schedule_daily-ok env p time reference target_key timezone_name i = rw i

-- The jitter is at most its maximum, whatever the hash.
pub jitter_minutes-le :
    (env : Services) (target_key policy_key : String) (date maximum : ℕ)
    → jitter_minutes env target_key policy_key date maximum ≤ maximum
unfolding jitter_minutes
jitter_minutes-le env target_key policy_key date maximum =
    grind (arith, mod-lt (env.hash_head target_key policy_key date) {m = maximum + 1} (omega arith))

module _ (env : Services) (p : BackupPolicy) (after : DateTime)
    (target_key timezone_name : String) where
  -- An interval policy with a positive interval always gets a next run: strictly after the reference
  -- (`now`, or `after`), on the grid of `after`, and at most one interval after the reference unless
  -- it is the first point of the grid.
  pub calculate_next_run_interval :
      (now : Option DateTime) (minutes : ℕ)
      → after.is_aware ≡ true
      → (reference_of after now).is_aware ≡ true
      → p.schedule_type ≡ ScheduleType.interval
      → p.interval_minutes ≡ some minutes
      → 0 < minutes
      → (r k : ℕ) × (calculate_next_run env p after target_key timezone_name now ≡ ok r)
        × (r ≡ after.micros + suc k * (minutes * minute_us))
        × ((reference_of after now).micros < r)
        × ((k ≡ 0) ⊎ (r ≤ (reference_of after now).micros + minutes * minute_us))
  unfolding calculate_next_run
  calculate_next_run_interval now minutes a b t i h =
      let reference = (reference_of after now).micros in
      let (k, grid, later, near) = next_interval_bounds minutes after.micros reference h in
      (
        next_interval minutes after.micros reference,
        k,
        simp (a, b, t, schedule_interval-ok p minutes after.micros reference i h),
        grid,
        later,
        near,
      )

  -- The wall clock that the daily branch chooses.
  abbrev chosen : ℕ → ℕ → ℕ
  chosen time local =
      if leb (daily_candidate env p time (local / day_us) target_key) local
      then daily_candidate env p time (local / day_us + 1) target_key
      else daily_candidate env p time (local / day_us) target_key

  -- The jitter of a date.
  abbrev pub jitter_on : ℕ → ℕ
  jitter_on date = jitter_minutes env target_key p.key date p.jitter_minutes

  -- The time of day on a date, with the jitter of the date.
  abbrev pub planned_on : ℕ → ℕ → ℕ
  planned_on time date = date * day_us + time + jitter_on date * minute_us

  -- The date is the local one while its run lies ahead, and the next one when that has passed.
  abbrev pub IsNextDate : ℕ → ℕ → ℕ → Type 0
  IsNextDate time local date =
      ((date ≡ local / day_us) × (local < planned_on time date))
      ⊎ ((date ≡ local / day_us + 1) × (planned_on time (local / day_us) ≤ local))

  pub chosen_date :
      (time local : ℕ)
      → (date : ℕ) × (chosen time local ≡ planned_on time date)
        × IsNextDate time local date
        × (local < chosen time local)
  unfolding daily_candidate
  chosen_date time local = elim (Bool-cases (leb (planned_on time (local / day_us)) local)) [
    | inl e ↦ (local / day_us + 1, rw e refl, inr (refl, ground arith), rw e (ground arith))
    | inr e ↦ (local / day_us, rw e refl, inl (refl, ground arith), rw e (ground arith))
  ]
