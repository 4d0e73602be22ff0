-- ===== src/Scheduling.antt =====
-- netbox_config_backup/services/scheduling.py: the next regular run, the retry after a failure, and
-- the schedule of a target. The timezone database and SHA-256 are parameters: a zone gives the wall
-- clock of an instant, and the instant of a wall clock (its first occurrence, `fold=0`); the hash
-- gives the first eight bytes of the digest of `target:policy:date` as a number.
pub mod Laws
pub mod Retry
mod Tests
use netbox_plugin_backup.Prelude.{
  ℕ, zero, suc, ◌+◌, ◌-◌, ◌*◌, ◌/◌, ◌%◌, ◌≤◌, ◌<◌, ◌≡◌, String, Bool, true, false, ◌&&◌, ◌||◌, not,
  Option, none, some, is_some, List, [], ◌∷◌, Result, ok, err, ◌>>=◌, ◌>>◌, require, get_elem?,
  length, nat_beq, ltb, leb, min, if◌then◌else◌, or_else, ◌==◌,
}
use mathlib.Core.Option.{get_or}
use netbox_plugin_backup.Choices.{TargetStatus, target_status_eq}
use netbox_plugin_backup.Clock.{DateTime, PyError, minute_us, day_us}
use netbox_plugin_backup.Records.{ScheduleType, BackupPolicy, BackupTarget}

pub record Zone : Type 0 where
  pub to_local : ℕ → ℕ
  pub to_utc : ℕ → ℕ

pub record Services : Type 0 where
  pub find_zone : String → Option Zone
  pub utc : Zone
  pub hash_head : String → String → ℕ → ℕ
  -- `settings.TIME_ZONE`
  pub default_time_zone : String

-- `_deterministic_jitter_minutes`
unfoldable pub jitter_minutes : Services → String → String → ℕ → ℕ → ℕ
jitter_minutes env target_key policy_key local_date maximum =
    if nat_beq maximum 0 then 0 else env.hash_head target_key policy_key local_date % (maximum + 1)

-- `_zone`
unfoldable pub zone_named : Services → String → Zone
zone_named env name = elim (env.find_zone name) [ none ↦ env.utc | some z ↦ z ]

-- `_daily_candidate`, as a wall clock.
unfoldable pub daily_candidate : Services → BackupPolicy → ℕ → ℕ → String → ℕ
unfolding jitter_minutes
daily_candidate env policy time_of_day candidate_date target_key =
    candidate_date * day_us
    + time_of_day
    + jitter_minutes env target_key policy.key candidate_date policy.jitter_minutes * minute_us

-- The interval branch: missed intervals are skipped in one step.
unfoldable pub next_interval : ℕ → ℕ → ℕ → ℕ
next_interval minutes after reference =
    let step = minutes * minute_us in
    let candidate = after + step in
    if leb candidate reference
    then candidate + ((reference - candidate) / step + 1) * step
    else candidate

-- The daily branch: today's candidate, or tomorrow's if that has passed on the local wall clock.
unfoldable pub next_daily : Services → Zone → BackupPolicy → ℕ → ℕ → String → ℕ
next_daily env zone policy time_of_day reference target_key =
    let local = zone.to_local reference in
    let date = local / day_us in
    let candidate = daily_candidate env policy time_of_day date target_key in
    zone.to_utc (
      if leb candidate local
      then daily_candidate env policy time_of_day (date + 1) target_key
      else candidate)

unfoldable pub schedule_interval : BackupPolicy → ℕ → ℕ → Result PyError ℕ
schedule_interval policy after reference = elim policy.interval_minutes [
  | none ↦ err PyError.value_error
  | some minutes ↦
      if nat_beq minutes 0
      then err PyError.value_error
      else ok (next_interval minutes after reference)
]

unfoldable pub schedule_daily : Services → BackupPolicy → ℕ → String → String → Result PyError ℕ
unfolding zone_named
schedule_daily env policy reference target_key timezone_name = elim policy.time_of_day [
  | none ↦ err PyError.value_error
  | some time ↦ ok (next_daily env (zone_named env timezone_name) policy time reference target_key)
]

abbrev by_type : ScheduleType → Result PyError ℕ → Result PyError ℕ → Result PyError ℕ
by_type ScheduleType.interval i d = i
by_type ScheduleType.daily i d = d
by_type (ScheduleType.other text) i d = err PyError.value_error

abbrev pub reference_of : DateTime → Option DateTime → DateTime
reference_of after none = after
reference_of after (some now) = now

-- The result is an aware UTC value.
unfoldable pub calculate_next_run :
    Services → BackupPolicy → DateTime → String → String → Option DateTime → Result PyError ℕ
unfolding schedule_interval schedule_daily
calculate_next_run env policy after target_key timezone_name now =
    let reference = reference_of after now in
    if not after.is_aware || not reference.is_aware
    then err PyError.value_error
    else by_type policy.schedule_type (schedule_interval policy after.micros reference.micros)
        (schedule_daily env policy reference.micros target_key timezone_name)

abbrev pub aware : ℕ → DateTime
aware t = record { is_aware = true; micros = t }

-- `backoff[min(failures - 1, len(backoff) - 1)]`; without a failure the index is -1, the last.
unfoldable pub retry_delay : List ℕ → ℕ → Option ℕ
retry_delay backoff zero = get_elem? backoff (length backoff - 1)
retry_delay backoff (suc failures) = get_elem? backoff (min failures (length backoff - 1))

abbrev pub is_nonempty {ℓ} : {A : Type ℓ} → List A → Bool
is_nonempty [] = false
is_nonempty (x ∷ xs) = true

unfoldable pub is_retry_scheduled : Option BackupPolicy → ℕ → Bool
is_retry_scheduled none failures = false
is_retry_scheduled (some p) failures =
    p.enabled && is_nonempty p.retry_backoff_minutes && ltb 0 failures && leb failures p.max_retries

abbrev delayed : ℕ → Option ℕ → Result PyError (Option ℕ)
delayed failed_at none = err PyError.index_error
delayed failed_at (some m) = ok (some (failed_at + m * minute_us))

unfoldable pub calculate_failure_next_run :
    Services → Option BackupPolicy → ℕ → ℕ → String → String → Result PyError (Option ℕ)
unfolding retry_delay
calculate_failure_next_run env none failed_at failures target_key timezone_name = ok none
calculate_failure_next_run env (some p) failed_at failures target_key timezone_name =
    if not p.enabled
    then ok none
    else if leb failures p.max_retries && is_nonempty p.retry_backoff_minutes
    then delayed failed_at (retry_delay p.retry_backoff_minutes failures)
    else (do
      next ← calculate_next_run env p (aware failed_at) target_key timezone_name none
      ok (some next))

-- `target_timezone_name`: the site's zone, where the policy asks for it and the site has one.
unfoldable pub target_timezone_name : Services → BackupTarget → String
target_timezone_name env t = elim t.policy_override [
  | none ↦ env.default_time_zone
  | some p ↦
      if p.timezone_is_site
      then get_or t.site_time_zone env.default_time_zone
      else env.default_time_zone
]

unfoldable pub calculate_target_next_run : Services → BackupTarget → ℕ → Result PyError (Option ℕ)
calculate_target_next_run env t now = elim t.policy_override [
  | none ↦ ok none
  | some p ↦ if not t.enabled || not p.enabled then ok none else (do
    next ← calculate_next_run env p (aware now) t.key (target_timezone_name env t) none
    ok (some next))
]

-- The status of a target whose schedule is applied anew.
unfoldable pub scheduled_status : BackupTarget → TargetStatus
scheduled_status t =
    if not t.enabled
    then TargetStatus.disabled
    else if t.status == TargetStatus.disabled
    then (if nat_beq t.consecutive_failures 0
        then (if is_some t.last_success_at then TargetStatus.healthy else TargetStatus.never)
        else TargetStatus.failed)
    else t.status

unfoldable pub apply_target_schedule : Services → BackupTarget → ℕ → Result PyError BackupTarget
unfolding scheduled_status
apply_target_schedule env t now = do
  next ← calculate_target_next_run env t now
  ok (record t { next_run_at = next; status = scheduled_status t })
