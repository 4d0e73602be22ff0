-- ===== src/Clock.antt =====
-- Python's `datetime` as the program uses it. An aware value is its UTC instant, in microseconds
-- since 0001-01-01 (`datetime.min`); a naive one is its wall clock. Both are never negative.
pub mod Calendar
use netbox_plugin_backup.Prelude.{
  ℕ, ◌≤◌, ◌≡◌, arith, ◌-◌, ◌*◌, ◌/◌, Bool, not, Result, ok, err, ltb, if◌then◌else◌,
}

-- The exceptions of the standard library that the modelled code lets through.
pub data PyError : Type 0 where
  value_error type_error overflow_error index_error : PyError

pub record DateTime : Type 0 where
  pub is_aware : Bool
  pub micros : ℕ

abbrev pub minute_us : ℕ
minute_us = 60_000_000

abbrev pub day_us : ℕ
day_us = 86_400_000_000

-- `now - timedelta(...)`, which raises when the result would lie before `datetime.min`.
unfoldable pub minus_delta : ℕ → ℕ → Result PyError ℕ
minus_delta now delta = if ltb now delta then err PyError.overflow_error else ok (now - delta)

-- `.astimezone(UTC).date()`: the number of days since 0001-01-01, a Monday.
abbrev pub utc_day : ℕ → ℕ
utc_day t = t / day_us

pub minus_delta-ok : (now delta : ℕ) → delta ≤ now → minus_delta now delta ≡ ok (now - delta)
unfolding minus_delta
minus_delta-ok now delta h = ground arith
