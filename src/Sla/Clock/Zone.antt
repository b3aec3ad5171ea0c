-- ===== src/Sla/Clock/Zone.antt =====
-- modules/sla/sla.clock.ts, "zone conversion": between instants and the wall clock of a zone.
use prime_focus_css_api.Common.{
  ℕ, ◌+◌, ◌-◌, ◌*◌, ◌/◌, ◌%◌, [], ◌∷◌, ◌++◌, if◌then◌else◌, Instant, ltb, suc, zero,
}
use prime_focus_css_api.Common.Int.{ℤ, pos_part, neg_part, sub_ℕ, eq_ℤ}
use prime_focus_css_api.Common.Dates.{LocalDate, utc_days, date_utc, date_of_days, utc_weekday}
use prime_focus_css_api.Sla.Clock.Windows.{Text}

abbrev pub minute_ms : ℕ
minute_ms = 60_000

pub record ZonedParts : Type 0 where
  pub year : ℕ
  pub month : ℕ
  pub day : ℕ
  pub hour : ℕ
  pub minute : ℕ
  pub second : ℕ

-- What a formatter's `formatToParts` reads at an instant.
abbrev pub Formatter : Type 0
Formatter = Instant → ZonedParts

-- Decimal digits, and `padStart(2, '0')`.
unfoldable pub decimal_from : ℕ → ℕ → Text → Text
decimal_from zero n acc = acc
decimal_from (suc f) n acc =
    let rest = decimal_from f (n / 10) ((b'0' + n % 10) ∷ acc) in
    if ltb n 10 then (b'0' + n) ∷ acc else rest

unfoldable pub decimal : ℕ → Text
unfolding decimal_from
decimal n = decimal_from (suc n) n []

unfoldable pub two_digits : ℕ → Text
unfolding decimal
two_digits n = if ltb n 10 then b'0' ∷ decimal n else decimal n

unfoldable pub local_date_key : LocalDate → Text
unfolding two_digits decimal
local_date_key d = decimal d.year ++ (b'-' ∷ (two_digits d.month ++ (b'-' ∷ two_digits d.day)))

unfoldable pub next_local_date : LocalDate → LocalDate
unfolding utc_days date_of_days
next_local_date d = date_of_days (utc_days (record d { day = d.day + 1 }))

unfoldable pub day_of_week : LocalDate → ℕ
unfolding utc_days utc_weekday
day_of_week d = utc_weekday (utc_days d)

-- An instant less an offset; instants before the epoch are not represented.
abbrev less : ℕ → ℤ → ℕ
less n o = n + neg_part o - pos_part o

module _ (formatter : Formatter) where
  unfoldable pub zoned_parts : Instant → ZonedParts
  zoned_parts instant = let parts = formatter instant in record parts { hour = parts.hour % 24 }

  unfoldable pub offset_ms_at : Instant → ℤ
  unfolding zoned_parts date_utc
  offset_ms_at instant =
      let parts = zoned_parts instant in
      sub_ℕ
        (date_utc (record { year = parts.year; month = parts.month; day = parts.day })
          + parts.hour * 3_600_000
          + parts.minute * 60_000
          + parts.second * 1000)
        (instant / 1000 * 1000)

  unfoldable pub utc_from_local : LocalDate → ℕ → Instant
  unfolding offset_ms_at date_utc
  utc_from_local date minute_of_day =
      let naive = date_utc date + minute_of_day * minute_ms in
      let first_guess = offset_ms_at naive in
      let utc = less naive first_guess in
      let settled = offset_ms_at utc in if eq_ℤ settled first_guess then utc else less naive settled

  unfoldable pub local_date_of : Instant → LocalDate
  unfolding zoned_parts
  local_date_of instant =
      let parts = zoned_parts instant in
      record { year = parts.year; month = parts.month; day = parts.day }
