-- ===== src/Clock/Calendar.antt =====
-- The standard library's proleptic Gregorian calendar, on days counted from 0001-01-01.
use netbox_plugin_backup.Prelude.{
  ℕ, suc, ◌+◌, ◌-◌, ◌*◌, ◌/◌, ◌%◌, ◌≤◌, ◌<◌, ◌≡◌, refl, Bool, ◌&&◌, ◌||◌, zero, nat_eq, ltb, leb,
  ◌==◌, not, if◌then◌else◌, arith,
}

-- `date.weekday()`, Monday being 0.
unfoldable pub weekday : ℕ → ℕ
weekday d = d % 7

-- The Monday of the week of `d`: `d - timedelta(days=d.weekday())`.
unfoldable pub week_start : ℕ → ℕ
unfolding weekday
week_start d = d - weekday d

-- The day number of 1 January of year `y`.
unfoldable pub year_start : ℕ → ℕ
year_start y = 365 * (y - 1) + (y - 1) / 4 - (y - 1) / 100 + (y - 1) / 400

unfoldable pub is_leap : ℕ → Bool
is_leap y = (y % 4 == 0) && (not (y % 100 == 0) || (y % 400 == 0))

unfoldable pub days_before_month : ℕ → Bool → ℕ
days_before_month m leap =
    let base : ℕ =
      if leb m 1
      then 0
      else if m == 2
      then 31
      else if m == 3
      then 59
      else if m == 4
      then 90
      else if m == 5
      then 120
      else if m == 6
      then 151
      else if m == 7
      then 181
      else if m == 8
      then 212
      else if m == 9
      then 243
      else if m == 10
      then 273
      else if m == 11
      then 304
      else 334 in
    if ltb 2 m && leap then base + 1 else base

-- The last month `m`, tried downwards, whose first day of the year is not after `n`.
unfoldable pub month_from : ℕ → ℕ → Bool → ℕ
month_from zero n leap = 1
month_from (suc m) n leap =
    let rest = month_from m n leap in if leb (days_before_month (suc m) leap) n then suc m else rest

-- The year of a day, by 400, 100, 4 and single years as the standard library computes it.
unfoldable pub year_of : ℕ → ℕ
year_of d =
    let n = d % 146097 in
    let n100 = n / 36524 in
    let m = n % 36524 in
    let n4 = m / 1461 in
    let k = m % 1461 in
    let n1 = k / 365 in
    let y = d / 146097 * 400 + n100 * 100 + n4 * 4 + n1 + 1 in
    if (n1 == 4) || (n100 == 4) then y - 1 else y

unfoldable pub month_of : ℕ → ℕ
unfolding month_from days_before_month is_leap year_start year_of
month_of d = month_from 12 (d - year_start (year_of d)) (is_leap (year_of d))

-- The Monday of ISO week 1, the week with the first Thursday of the year.
unfoldable pub iso_week1_monday : ℕ → ℕ
unfolding year_start weekday
iso_week1_monday y =
    let first = year_start y in
    if ltb 3 (weekday first) then first - weekday first + 7 else first - weekday first

-- `date.isocalendar()[:2]`: the ISO year and week.
unfoldable pub iso_year_week : ℕ → ℕ × ℕ
unfolding iso_week1_monday year_of
iso_year_week d =
    let y = year_of d in
    if ltb d (iso_week1_monday y)
    then (y - 1, (d - iso_week1_monday (y - 1)) / 7 + 1)
    else if leb (iso_week1_monday (y + 1)) d
    then (y + 1, 1)
    else (y, (d - iso_week1_monday y) / 7 + 1)

unfoldable pub year_month : ℕ → ℕ × ℕ
unfolding year_of month_of
year_month d = (year_of d, month_of d)

-- A day and the Monday of its week: never later, and at most six days apart.
pub week_start_bounds : (d : ℕ) → (week_start d ≤ d) × (d < week_start d + 7)
unfolding week_start
week_start_bounds d = omega arith

-- 2024-02-29, 2024-12-30 (week 1 of 2025) and 2021-01-03 (week 53 of 2020).
calendar_days :
    (year_month 738944 ≡ (2024, 2))
    × (iso_year_week 739249 ≡ (2025, 1))
    × (iso_year_week 737792 ≡ (2020, 53))
unfolding year_month iso_year_week
calendar_days = (refl, refl, refl)
