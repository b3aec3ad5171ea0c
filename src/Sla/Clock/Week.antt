-- ===== src/Sla/Clock/Week.antt =====
-- modules/sla/sla.clock.ts: times of day, the windows of a week, and the day walk's calendar steps.
use prime_focus_css_api.Common.{
  ℕ, ◌+◌, ◌*◌, ◌/◌, ◌%◌, ◌≤◌, ◌<◌, ◌≡◌, refl, Option, some, none, [], ◌∷◌, arith, false, ◌∙◌,
}
use prime_focus_css_api.Common.Dates.{LocalDate, utc_days}
use prime_focus_css_api.Common.Dates.RoundTrip.{utc_days-date_of_days}
use prime_focus_css_api.Sla.Clock.Windows.{
  Text, is_space, trim_start, trim, match_time, parse_time_of_day, total_minutes,
}
use prime_focus_css_api.Sla.Clock.Zone.{next_local_date}

total_minutes-le : (o : Option (ℕ × ℕ)) {m : ℕ} → total_minutes o ≡ some m → m ≤ 1440
unfolding total_minutes
total_minutes-le none h = cc
total_minutes-le (some (a, b)) h = ground arith

-- A time of day is never past the end of the day.
pub parse_time_of_day-le : (value : Text) {m : ℕ} → parse_time_of_day value ≡ some m → m ≤ 1440
unfolding parse_time_of_day
parse_time_of_day-le value h = total_minutes-le (match_time (trim value)) h

-- `HH:MM`, zero-padded.
abbrev pub time_text : ℕ → ℕ → Text
time_text h m = (b'0' + h / 10) ∷ (b'0' + h % 10) ∷ b':' ∷ (b'0' + m / 10) ∷ (b'0' + m % 10) ∷ []

digit-ne-space : (c : ℕ) → b'0' ≤ c → c ≤ b'9' → is_space c ≡ false
unfolding is_space
digit-ne-space c lo hi = ground arith

trim_five :
    (a b c d e : ℕ)
    → is_space a ≡ false
    → is_space e ≡ false
    → trim (a ∷ b ∷ c ∷ d ∷ e ∷ []) ≡ a ∷ b ∷ c ∷ d ∷ e ∷ []
unfolding trim
trim_five a b c d e ha he = rw (ha, trim_start) (rw (he, trim_start) refl)

match_padded : (h m : ℕ) → h < 24 → m < 60 → match_time (time_text h m) ≡ some (h, m)
unfolding match_time
match_padded h m lh lm = ground arith

-- A time of day written HH:MM with padding reads back as its minutes past midnight.
pub parse_time_of_day-time_text :
    (h m : ℕ) → h < 24 → m < 60 → parse_time_of_day (time_text h m) ≡ some (h * 60 + m)
unfolding parse_time_of_day total_minutes
parse_time_of_day-time_text h m lh lm =
    rw
      (trim_five _ _ _ _ _ (digit-ne-space (b'0' + h / 10) (omega arith) (omega arith))
        (digit-ne-space (b'0' + m % 10) (omega arith) (omega arith)))
      (rw (match_padded h m lh lm) (ground arith))

-- The next local date of a date with a positive day number is one day later, across months and
-- years.
utc_days-next_local_date :
    (d : LocalDate) → 0 < d.day → utc_days (next_local_date d) ≡ utc_days d + 1
unfolding next_local_date
utc_days-next_local_date d pos =
    utc_days-date_of_days (utc_days (record d { day = d.day + 1 })) ∙ unfold utc_days in omega arith
