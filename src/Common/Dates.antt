-- ===== src/Common/Dates.antt =====
-- What the code uses of JavaScript's `Date`: `Date.UTC`, and the getters that take an instant
-- apart, in the proleptic Gregorian calendar. Dates are from 1970 on.
pub mod RoundTrip
use prime_focus_css_api.Common.{
  ℕ, zero, suc, ◌+◌, ◌-◌, ◌*◌, ◌/◌, ◌%◌, ◌≤◌, ◌<◌, ◌≡◌, refl, ap, Bool, true, false, ◌&&◌, ◌||◌,
  not, arith, ltb, leb, ◌==◌, if◌then◌else◌, inl, inr, Bool-cases, ltb→lt, Instant,
}

-- A calendar date; months and days count from 1.
pub record LocalDate : Type 0 where
  pub year : ℕ
  pub month : ℕ
  pub day : ℕ

abbrev pub day_ms : ℕ
day_ms = 86_400_000

unfoldable pub is_leap : ℕ → Bool
is_leap y = (y % 4 == 0) && (not (y % 100 == 0) || (y % 400 == 0))

unfoldable pub days_in_year : ℕ → ℕ
unfolding is_leap
days_in_year y = if is_leap y then 366 else 365

-- Months count from 0 here, as in `Date.UTC`.
unfoldable pub days_in_month : ℕ → ℕ → ℕ
unfolding is_leap
days_in_month y m =
    if m == 1
    then (if is_leap y then 29 else 28)
    else if m == 3 || m == 5 || m == 8 || m == 10
    then 30
    else 31

-- Days from 1 January of 1970 to 1 January `k` years later.
unfoldable pub days_before_year : ℕ → ℕ
unfolding days_in_year
days_before_year zero = 0
days_before_year (suc k) = days_before_year k + days_in_year (1970 + k)

unfoldable pub days_before_month : ℕ → ℕ → ℕ
unfolding days_in_month
days_before_month y zero = 0
days_before_month y (suc m) = days_before_month y m + days_in_month y m

-- `Date.UTC(year, month - 1, day)` in days; a day past the end of its month runs on.
unfoldable pub utc_days : LocalDate → ℕ
utc_days d = days_before_year (d.year - 1970) + days_before_month d.year (d.month - 1) + (d.day - 1)

unfoldable pub date_utc : LocalDate → Instant
unfolding utc_days
date_utc d = utc_days d * day_ms

-- The year of a day number and the days into that year; `k` is the year less 1970.
unfoldable pub year_of : ℕ → ℕ → ℕ → ℕ × ℕ
unfolding days_in_year
year_of zero k n = (k, n)
year_of (suc fuel) k n = elim (ltb n (days_in_year (1970 + k))) [
  | true ↦ (k, n)
  | false ↦ year_of fuel (suc k) (n - days_in_year (1970 + k))
]

unfoldable pub month_of : ℕ → ℕ → ℕ → ℕ → ℕ × ℕ
unfolding days_in_month
month_of zero y m n = (m, n)
month_of (suc fuel) y m n = elim (ltb n (days_in_month y m)) [
  | true ↦ (m, n)
  | false ↦ month_of fuel y (suc m) (n - days_in_month y m)
]

-- `getUTCFullYear`, `getUTCMonth` and `getUTCDate` of a day number.
unfoldable pub date_of_days : ℕ → LocalDate
date_of_days n =
    let (k, in_year) = year_of n 0 n in
    let (m, in_month) = month_of 11 (1970 + k) 0 in_year in
    record { year = 1970 + k; month = m + 1; day = in_month + 1 }

-- `getUTCDay`: the first of January 1970 was a Thursday.
unfoldable pub utc_weekday : ℕ → ℕ
utc_weekday n = (n + 4) % 7
