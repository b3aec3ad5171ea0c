-- ===== src/Common/Dates/RoundTrip.antt =====
-- A day number taken apart into a calendar date and put together again.
use prime_focus_css_api.Common.{
  ℕ, zero, suc, ◌+◌, ◌-◌, ◌≤◌, ◌<◌, ◌≡◌, refl, arith, ltb, ltb→lt, Bool-cases, inl, inr, false,
}
use prime_focus_css_api.Common.Dates.{
  days_in_year, days_in_month, days_before_year, days_before_month, utc_days, date_of_days, year_of,
  month_of,
}

ltb→le : (a b : ℕ) → ltb a b ≡ false → b ≤ a
ltb→le a b h = ground arith

days_in_year-pos : (y : ℕ) → 365 ≤ days_in_year y
unfolding days_in_year
days_in_year-pos y = ground arith

-- The year loop keeps the day number, and with enough fuel ends inside a year.
year_of_lem :
    (fuel k n : ℕ)
    → n ≤ fuel
    → (days_before_year (year_of fuel k n).0 + (year_of fuel k n).1 ≡ days_before_year k + n)
      × ((year_of fuel k n).1 < days_in_year (1970 + (year_of fuel k n).0))
unfolding year_of days_before_year
year_of_lem zero k n le = (refl, omega (arith, days_in_year-pos (1970 + k)))
year_of_lem (suc fuel) k n le = elim (Bool-cases (ltb n (days_in_year (1970 + k)))) [
  | inl e ↦ rw (e, year_of) (refl, ltb→lt _ _ e)
  | inr e ↦
      let ih =
        year_of_lem fuel (suc k) (n - days_in_year (1970 + k))
          (omega (arith, days_in_year-pos (1970 + k))) in
      rw (e, year_of) (omega (arith, ih, ltb→le _ _ e), ih.1)
]

month_of_lem :
    (fuel y m n : ℕ)
    → days_before_month y (month_of fuel y m n).0 + (month_of fuel y m n).1
      ≡ days_before_month y m + n
unfolding month_of days_before_month
month_of_lem zero y m n = refl
month_of_lem (suc fuel) y m n = elim (Bool-cases (ltb n (days_in_month y m))) [
  | inl e ↦ rw (e, month_of) refl
  | inr e ↦
      rw (e, month_of)
        (omega (arith, month_of_lem fuel y (suc m) (n - days_in_month y m), ltb→le _ _ e))
]

utc_days_parts :
    (k m i : ℕ)
    → utc_days (record { year = 1970 + k; month = m + 1; day = i + 1 })
      ≡ days_before_year k + days_before_month (1970 + k) m + i
unfolding utc_days
utc_days_parts k m i =
    let year : 1970 + k - 1970 ≡ k = omega arith in
    let month : m + 1 - 1 ≡ m = omega arith in
    let day : i + 1 - 1 ≡ i = omega arith in rw year (rw month (rw day refl))

-- The getters of a day number give back that day number under `Date.UTC`.
pub utc_days-date_of_days : (n : ℕ) → utc_days (date_of_days n) ≡ n
unfolding date_of_days utc_days days_before_year year_of days_before_month
utc_days-date_of_days n =
    let (k, in_year) = year_of n 0 n in
    omega (
      arith,
      year_of_lem n 0 n (omega arith),
      month_of_lem 11 (1970 + k) 0 in_year,
      utc_days_parts k (month_of 11 (1970 + k) 0 in_year).0 (month_of 11 (1970 + k) 0 in_year).1,
    )
