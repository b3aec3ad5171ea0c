-- ===== src/Sla/Clock/Tests.antt =====
-- modules/sla/sla.clock.test.ts: runs of the clock on a week with two short days, in one zone.
use prime_focus_css_api.Common.{
  ◌≡◌, refl, some, none, List, [], ◌∷◌, ◌+◌, ◌*◌, ◌/◌, ◌%◌, ◌≤◌, ◌<◌, Option, ℕ, arith, Instant,
}
use prime_focus_css_api.Common.Errors.{ok}
use prime_focus_css_api.Common.Doubles.{one_plus_quotient}
use prime_focus_css_api.Common.Dates.{
  date_of_days, day_ms, days_before_year, year_of, days_before_month, month_of,
}
use prime_focus_css_api.Sla.Clock.{
  BusinessCalendar, add_business_minutes, business_minutes_between, consumed_fraction, walk_days,
  elapsed_days, day_segments, day_start, overlap_all,
}
use prime_focus_css_api.Sla.Clock.Windows.{
  Text, BusinessHoursWindow, parse_time_of_day, weekly_open_minutes,
}
use prime_focus_css_api.Sla.Clock.Zone.{Formatter, local_date_of, next_local_date, minute_ms}
use prime_focus_css_api.Sla.Clock.Accounting.{
  business_minutes_between-add, days_after, IsRegular, open_time,
}
use prime_focus_css_api.Sla.Clock.Deadline.{
  add_business_minutes_total, add_business_minutes-LandsIn, LandsIn,
}
use prime_focus_css_api.Sla.Clock.Week.{parse_time_of_day-time_text, time_text}

-- A zone two hours ahead of UTC all year, such as Africa/Harare.
abbrev pub harare : Formatter
harare t =
    let local = t / 1000 + 7200 in
    let d = date_of_days (local / 86400) in
    record {
      year = d.year;
      month = d.month;
      day = d.day;
      hour = local % 86400 / 3600;
      minute = local % 3600 / 60;
      second = local % 60;
    }

abbrev pub intl : Text → Option Formatter
intl _ = some harare

abbrev pub eight : Text
eight = b'0' ∷ b'8' ∷ b':' ∷ b'0' ∷ b'0' ∷ []

abbrev pub five : Text
five = b'1' ∷ b'7' ∷ b':' ∷ b'0' ∷ b'0' ∷ []

abbrev pub week : List BusinessHoursWindow
week =
    record { day = 1; opens_at = eight; closes_at = five }
    ∷ record { day = 2; opens_at = eight; closes_at = five }
    ∷ record { day = 5; opens_at = eight; closes_at = five }
    ∷ []

abbrev pub calendar : BusinessCalendar
calendar = record { timezone = []; weekly = week; holidays = [] }

-- Friday 7 August 2026, 16:40 local, and Monday 10 August, 08:40.
abbrev pub friday : Instant
friday = 20672 * day_ms + 52_800_000

abbrev pub monday : Instant
monday = 20675 * day_ms + 24_000_000

pub rolls_over : add_business_minutes intl friday 60 calendar ≡ ok monday
unfolding add_business_minutes date_of_days walk_days weekly_open_minutes local_date_of
    days_before_year year_of days_before_month month_of
rolls_over = refl

friday_date : local_date_of harare friday ≡ record { year = 2026; month = 8; day = 7 }
unfolding local_date_of date_of_days days_before_year year_of days_before_month month_of
friday_date = refl

friday_usable : 0 < weekly_open_minutes calendar.weekly
unfolding weekly_open_minutes
friday_usable = omega arith

abbrev InOrder : Type 0
InOrder =
    ((1786053600000 ≤ 1786082400000)
      × (1786082400000 ≤ 1786114800000)
      × (1786114800000 ≤ 1786140000000))
    × (1786140000000 ≤ 1786226400000)
    × (1786226400000 ≤ 1786312800000)
    × ((1786312800000 ≤ 1786341600000)
        × (1786341600000 ≤ 1786374000000)
        × (1786374000000 ≤ 1786399200000))
    × Unit

in_order : InOrder
in_order = omega arith

friday-IsRegular : IsRegular harare calendar 4 (local_date_of harare friday)
unfolding local_date_of date_of_days day_segments day_start next_local_date days_before_year year_of
    days_before_month month_of
friday-IsRegular =
    let (friday_open, saturday, sunday, monday_open, end) = in_order in
    (friday_open, (saturday, (sunday, (monday_open, tt))))

friday_start : day_start harare calendar (local_date_of harare friday) ≡ 1786053600000
unfolding local_date_of date_of_days day_start days_before_year year_of days_before_month month_of
friday_start = refl

friday_midnight : day_start harare calendar (local_date_of harare friday) ≤ friday
friday_midnight = rw friday_start (omega arith)

tuesday_start :
    day_start harare calendar (days_after harare calendar 4 (local_date_of harare friday))
    ≡ 1786399200000
unfolding local_date_of date_of_days day_start next_local_date days_before_year year_of
    days_before_month month_of
tuesday_start = refl

monday_end :
    monday < day_start harare calendar (days_after harare calendar 4 (local_date_of harare friday))
monday_end = rw tuesday_start (omega arith)

business_minutes_between-add_example : business_minutes_between intl friday monday calendar ≡ ok 60
business_minutes_between-add_example =
    business_minutes_between-add intl calendar harare 4 friday 60 monday refl (omega arith)
      (omega arith) friday-IsRegular friday_midnight monday_end rolls_over

open_until_tuesday :
    open_time harare calendar 4 (local_date_of harare friday) friday 1786399200000 ≡ 33_600_000
unfolding local_date_of date_of_days day_segments day_start next_local_date open_time overlap_all
    days_before_year year_of days_before_month month_of
open_until_tuesday = refl

friday_enough :
    60 * minute_ms
    ≤ open_time harare calendar 4
        (local_date_of harare friday)
        friday
        (day_start harare calendar (days_after harare calendar 4 (local_date_of harare friday)))
friday_enough = rw tuesday_start (rw open_until_tuesday (omega arith))

add_business_minutes_total_example :
    (t : Instant) × (add_business_minutes intl friday 60 calendar ≡ ok t)
add_business_minutes_total_example =
    add_business_minutes_total intl calendar harare 4 friday 60 refl friday_usable (omega arith)
      friday-IsRegular friday_midnight friday_enough

add_business_minutes-LandsIn_example :
    (friday + 60 * minute_ms ≤ monday)
    × ((k : ℕ) × LandsIn monday (
          day_segments harare calendar
            (days_after harare calendar k (local_date_of harare friday))))
add_business_minutes-LandsIn_example =
    add_business_minutes-LandsIn intl calendar harare friday 60 monday refl (omega arith) rolls_over

at_half_past :
    consumed_fraction intl 60 monday none (monday + 5 * minute_ms) calendar
    ≡ ok (one_plus_quotient 5 60)
unfolding consumed_fraction business_minutes_between elapsed_days local_date_of date_of_days
    days_before_year year_of days_before_month month_of
at_half_past = refl

parse_time_of_day-time_text_example : parse_time_of_day (time_text 16 55) ≡ some 1015
parse_time_of_day-time_text_example = parse_time_of_day-time_text 16 55 (omega arith) (omega arith)
