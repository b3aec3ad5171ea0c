-- ===== src/Sla/Clock.antt =====
-- modules/sla/sla.clock.ts: business-hours arithmetic. Instants are milliseconds; minutes are
-- natural numbers, so `minutes <= 0` is `minutes == 0`. A formatter is what `Intl.DateTimeFormat`
-- gives for a zone: a parameter that reads an instant on that zone's wall clock.
pub mod Windows
pub mod Zone
pub mod Segments
pub mod Texts
pub mod Accounting
pub mod Deadline
mod Consumption
pub mod Week
pub mod Tests
use prime_focus_css_api.Common.{
  ℕ, zero, suc, ◌+◌, ◌-◌, ◌*◌, ◌/◌, max, min, Bool, true, false, not, Option, none, some, List, [],
  ◌∷◌, map, ltb, leb, ◌==◌, if◌then◌else◌, is_some, or_else, Instant, any,
}
use prime_focus_css_api.Common.Int.{sub_ℕ}
use prime_focus_css_api.Common.Doubles.{Double, one, quotient, one_plus_quotient}
use prime_focus_css_api.Common.Dates.{LocalDate}
use prime_focus_css_api.Common.Errors.{Result, ok, err, validation, ensure, required, ◌>>=◌, ◌>>◌}
use prime_focus_css_api.Sla.Clock.Windows.{
  Text, BusinessHoursWindow, Window, windows_for_day, weekly_open_minutes,
}
use prime_focus_css_api.Sla.Clock.Zone.{
  Formatter, minute_ms, local_date_key, next_local_date, day_of_week, utc_from_local, local_date_of,
}

pub record BusinessCalendar : Type 0 where
  pub timezone : Text
  pub weekly : List BusinessHoursWindow
  pub holidays : List Text

abbrev pub max_lookahead_days : ℕ
max_lookahead_days = 730

abbrev pub max_elapsed_days : ℕ
max_elapsed_days = 1000

-- An open stretch of time, between two instants.
pub record Segment : Type 0 where
  pub opens : Instant
  pub closes : Instant

-- Where the walk stands: at the answer, or with time still to place after a cursor.
pub data Walk : Type 0 where
  found : Instant → Walk
  left : ℕ → Instant → Walk

unfoldable pub same_text : Text → Text → Bool
same_text [] [] = true
same_text (a ∷ s) (b ∷ t) = if a == b then same_text s t else false
same_text _ _ = false

unfoldable pub is_working_day : LocalDate → BusinessCalendar → Bool
unfolding same_text local_date_key
is_working_day date calendar = not (any (same_text (local_date_key date)) calendar.holidays)

-- The body of the loop over windows in `addBusinessMinutes`, at one window and then at all.
unfoldable pub consume : Segment → ℕ → Instant → Walk
consume w remaining cursor =
    let segment_start = max w.opens cursor in
    if leb w.closes segment_start
    then left remaining cursor
    else if leb remaining (w.closes - segment_start)
    then found (segment_start + remaining)
    else left (remaining - (w.closes - segment_start)) w.closes

unfoldable pub consume_all : List Segment → ℕ → Instant → Walk
consume_all [] remaining cursor = left remaining cursor
consume_all (w ∷ ws) remaining cursor = elim (consume w remaining cursor) [
  | found t ↦ found t
  | left r c ↦ consume_all ws r c
]

-- The overlap of `businessMinutesBetween` at one window, 0 where it is negative.
unfoldable pub overlap : Instant → Instant → Segment → ℕ
overlap start end w = min w.closes end - max w.opens start

unfoldable pub overlap_all : Instant → Instant → List Segment → ℕ
unfolding overlap
overlap_all start end [] = 0
overlap_all start end (w ∷ ws) = overlap start end w + overlap_all start end ws

module _ (formatter : Formatter) (calendar : BusinessCalendar) where
  unfoldable pub segment_of : LocalDate → Window → Segment
  unfolding utc_from_local
  segment_of date w = record {
    opens = utc_from_local formatter date w.start_minute;
    closes = utc_from_local formatter date w.end_minute;
  }

  -- The open time of one local date: none on a holiday.
  unfoldable pub day_segments : LocalDate → List Segment
  unfolding segment_of is_working_day windows_for_day day_of_week
  day_segments date =
      if is_working_day date calendar
      then map (segment_of date) (windows_for_day calendar.weekly (day_of_week date))
      else []

  unfoldable pub day_start : LocalDate → Instant
  unfolding utc_from_local
  day_start date = utc_from_local formatter date 0

  -- The loop over days of `addBusinessMinutes`.
  unfoldable pub walk_days : ℕ → LocalDate → ℕ → Instant → Option Instant
  unfolding day_segments consume_all consume next_local_date day_start
  walk_days zero date remaining cursor = none
  walk_days (suc n) date remaining cursor =
      elim (consume_all (day_segments date) remaining cursor) [
        | found t ↦ some t
        | left r c ↦ walk_days n (next_local_date date) r (max c (day_start (next_local_date date)))
      ]

  -- The loop over days of `businessMinutesBetween`.
  unfoldable pub elapsed_days : ℕ → LocalDate → Instant → Instant → ℕ → ℕ
  unfolding day_segments overlap_all next_local_date day_start
  elapsed_days zero date start end total = total
  elapsed_days (suc n) date start end total =
      let rest =
        elapsed_days n (next_local_date date) start end
          (total + overlap_all start end (day_segments date)) in
      if ltb end (day_start date) then total else rest

-- `formatterFor`: a zone that is not an IANA zone is refused. `intl` is the `Intl` of the runtime;
-- the cache of formatters is left out, since it only keeps what `intl` gives.
unfoldable pub formatter_for : (Text → Option Formatter) → Text → Result Formatter
formatter_for intl timezone = required (intl timezone) validation

unfoldable pub assert_usable : BusinessCalendar → Result (Unit {0})
assert_usable calendar = ensure (not (weekly_open_minutes calendar.weekly == 0)) validation

module _ (intl : Text → Option Formatter) where
  unfoldable pub add_business_minutes : Instant → ℕ → BusinessCalendar → Result Instant
  unfolding assert_usable formatter_for
  add_business_minutes from minutes calendar = if minutes == 0 then ok from else do
    assert_usable calendar
    formatter ← formatter_for intl calendar.timezone
    required
        (walk_days formatter calendar (suc max_lookahead_days) (local_date_of formatter from)
          (minutes * minute_ms) from)
        validation

  unfoldable pub business_minutes_between : Instant → Instant → BusinessCalendar → Result ℕ
  unfolding formatter_for
  business_minutes_between from to calendar = if leb to from then ok 0 else do
    formatter ← formatter_for intl calendar.timezone
    ok (
        (elapsed_days formatter calendar (suc max_elapsed_days) (local_date_of formatter from) from
            to 0
          + 30_000)
        / minute_ms)

  -- A floating-point number, as the divisions of the code round it.
  unfoldable pub consumed_fraction :
      ℕ → Instant → Option Instant → Instant → BusinessCalendar → Result Double
  unfolding business_minutes_between
  consumed_fraction target_minutes due_at paused_at now calendar =
      let at = or_else paused_at now in
      if target_minutes == 0
      then ok one
      else if leb due_at at
      then (business_minutes_between due_at at calendar >>= λ overdue.
          ok (one_plus_quotient overdue target_minutes))
      else do
        remaining ← business_minutes_between at due_at calendar
        ok (quotient (sub_ℕ target_minutes remaining) target_minutes)
