-- ===== src/Sla/Clock/Deadline.antt =====
-- modules/sla/sla.clock.ts: where a deadline falls, and when one is found.
use prime_focus_css_api.Common.{
  ℕ, zero, suc, ◌+◌, ◌*◌, ◌≤◌, ◌<◌, max, ◌≡◌, refl, Option, some, List, [], ◌∷◌, arith, ◌==◌,
  Instant, Bool-cases, Option-cases, ◌⊎◌, inl, inr, ap, ◌∙◌,
}
use prime_focus_css_api.Common.Dates.{LocalDate}
use prime_focus_css_api.Common.Errors.{ok}
use prime_focus_css_api.Sla.Clock.{
  BusinessCalendar, Segment, Walk, found, left, consume, consume_all, day_segments, day_start,
  walk_days, max_lookahead_days, add_business_minutes,
}
use prime_focus_css_api.Sla.Clock.Accounting.{
  days_after, IsRegular, IsRegular-le, open_time, walk_days-advances, add_business_minutes-walk,
}
use prime_focus_css_api.Sla.Clock.Segments.{
  IsWithin-le, overlap_all-start, DayDone, consume_all-DayDone, Consumed, skipped, ended, used,
  consume-Consumed, Walk-cases, consume_all-Advances, Advances,
}
use prime_focus_css_api.Sla.Clock.Windows.{Text, weekly_open_minutes}
use prime_focus_css_api.Sla.Clock.Zone.{Formatter, minute_ms, next_local_date, local_date_of}

-- An instant inside one of the stretches, its start left out and its end included.
abbrev pub LandsIn : Instant → List Segment → Type 0
LandsIn t [] = ⊥
LandsIn t (w ∷ ws) = ((w.opens < t) × (t ≤ w.closes)) ⊎ LandsIn t ws

consume_all-LandsIn :
    (ws : List Segment) (remaining : ℕ) (cursor t : Instant)
    → 0 < remaining
    → consume_all ws remaining cursor ≡ found t
    → LandsIn t ws
unfolding consume_all
consume_all-LandsIn [] remaining cursor t p e = cc
consume_all-LandsIn (w ∷ ws) remaining cursor t p₀ e =
    go (consume w remaining cursor) (consume-Consumed w remaining cursor) e
      (λ r c p q. consume_all-LandsIn ws r c t p q)
  where
    go :
        (m : Walk)
        → Consumed w remaining cursor m
        → (elim m [ found t ↦ found t | left r c ↦ consume_all ws r c ]) ≡ found t
        → ((r : ℕ) (c : Instant) → 0 < r → consume_all ws r c ≡ found t → LandsIn t ws)
        → LandsIn t (w ∷ ws)
    go _ (skipped s) e ih = inr (ih remaining cursor p₀ e)
    go _ (ended u eq le) e ih = let hit : u ≡ t = cc e in inl (omega arith, omega arith)
    go _ (used r s eq p) e ih = inr (ih r w.closes p e)

module _ (formatter : Formatter) (calendar : BusinessCalendar) where
  walk_days-LandsIn :
      (n : ℕ) (date : LocalDate) (remaining : ℕ) (cursor t : Instant)
      → 0 < remaining
      → walk_days formatter calendar n date remaining cursor ≡ some t
      → (k : ℕ) × (k < n)
        × LandsIn t (day_segments formatter calendar (days_after formatter calendar k date))
  unfolding walk_days
  walk_days-LandsIn zero date remaining cursor t p e = cc
  walk_days-LandsIn (suc n) date remaining cursor t p e =
      let segs = day_segments formatter calendar date in
      let next = next_local_date date in
      elim (Walk-cases (consume_all segs remaining cursor)) [
        | inl (u, eq) ↦
            let same : some u ≡ some t = rw (eq, walk_days) at e in
            let hit : u ≡ t = cc same in
            (0, omega arith, consume_all-LandsIn segs remaining cursor t p (rw hit at eq))
        | inr (r, c, eq) ↦
            let a : Advances remaining cursor (left r c) =
              rw eq at (consume_all-Advances segs remaining cursor) in
            let (k, lt, lands) =
              walk_days-LandsIn n next r (max c (day_start formatter calendar next)) t (a.2 p)
                (rw (eq, walk_days) at e) in
            (suc k, omega arith, lands)
      ]

  walk_days-found :
      (n : ℕ) (date : LocalDate) (remaining : ℕ) (cursor t : Instant)
      → consume_all (day_segments formatter calendar date) remaining cursor ≡ found t
      → walk_days formatter calendar (suc n) date remaining cursor ≡ some t
  unfolding walk_days
  walk_days-found n date remaining cursor t eq = rw (eq, walk_days) refl

  walk_days-left :
      (n : ℕ) (date : LocalDate) (remaining r : ℕ) (cursor c : Instant)
      → consume_all (day_segments formatter calendar date) remaining cursor ≡ left r c
      → walk_days formatter calendar (suc n) date remaining cursor
        ≡ walk_days formatter calendar n
            (next_local_date date)
            r
            (max c (day_start formatter calendar (next_local_date date)))
  unfolding walk_days
  walk_days-left n date remaining r cursor c eq = rw (eq, walk_days) refl

  -- Enough regular days with enough open time in them: the walk finds its end.
  walk_days_total :
      (n m : ℕ) (date : LocalDate) (remaining : ℕ) (start end : Instant)
      → m ≤ n
      → 0 < remaining
      → IsRegular formatter calendar m date
      → day_start formatter calendar (days_after formatter calendar m date) ≤ end
      → remaining ≤ open_time formatter calendar m date start end
      → (t : Instant) × (walk_days formatter calendar n date remaining
            (max start (day_start formatter calendar date))
          ≡ some t)
  unfolding open_time
  walk_days_total n zero date remaining start end le p reg fin enough = absurd (omega arith)
  walk_days_total zero (suc m) date remaining start end le p reg fin enough = absurd (omega arith)
  walk_days_total (suc n) (suc m) date remaining start end le p reg fin enough =
      let next = next_local_date date in
      let lo = day_start formatter calendar date in
      let hi = day_start formatter calendar next in
      let segs = day_segments formatter calendar date in
      let cursor = max start lo in
      let done = consume_all-DayDone segs lo hi remaining cursor reg.0 in
      let moved = overlap_all-start segs lo hi start cursor end reg.0 (omega arith) in
      elim (Walk-cases (consume_all segs remaining cursor)) [
        | inl (u, eq) ↦ (u, walk_days-found n date remaining cursor u eq)
        | inr (k, c, eq) ↦
            let d : DayDone segs hi remaining cursor (left k c) = rw eq at done in
            let top : max c hi ≡ max start hi = omega (arith, d, IsWithin-le segs reg.0) in
            let later : hi ≤ end = omega (arith, IsRegular-le formatter calendar m next reg.1) in
            let (t, w) =
              walk_days_total n m next k start end (omega arith) (d.3 p) reg.1 fin
                (omega (arith, d.4 end later, moved)) in
            (
              t,
              walk_days-left n date remaining k cursor c eq
                  ∙ ap (walk_days formatter calendar n next k) top
                  ∙ w,
            )
      ]

module _ (intl : Text → Option Formatter) (calendar : BusinessCalendar) where
  -- Adding working time never goes back.
  pub add_business_minutes-le :
      (from : Instant) (minutes : ℕ) (t : Instant)
      → add_business_minutes intl from minutes calendar ≡ ok t
      → from ≤ t
  unfolding add_business_minutes
  add_business_minutes-le from minutes t e = elim (Bool-cases (minutes == 0)) [
    | inl z ↦ ground arith
    | inr nz ↦ elim (Option-cases (intl calendar.timezone)) [
      | inl unknown ↦ ground arith
      | inr (formatter, zone) ↦ omega (
        arith,
        walk_days-advances formatter calendar _ _ _ from t (
            add_business_minutes-walk intl calendar formatter from minutes t zone (ground arith) e),
      )
    ]
  ]

  -- In a known zone a deadline for a positive number of minutes is at least that long after the
  -- start on the wall clock, and lies inside an open stretch of some day of the walk.
  pub add_business_minutes-LandsIn :
      (formatter : Formatter) (from : Instant) (minutes : ℕ) (t : Instant)
      → intl calendar.timezone ≡ some formatter
      → 0 < minutes
      → add_business_minutes intl from minutes calendar ≡ ok t
      → (from + minutes * minute_ms ≤ t)
        × ((k : ℕ) × LandsIn t (
              day_segments formatter calendar
                (days_after formatter calendar k (local_date_of formatter from))))
  add_business_minutes-LandsIn formatter from minutes t zone p e =
      let walked = add_business_minutes-walk intl calendar formatter from minutes t zone p e in
      let (k, lt, lands) = walk_days-LandsIn formatter calendar _ _ _ from t (omega arith) walked in
      (walk_days-advances formatter calendar _ _ _ from t walked, (k, lands))

  -- With a known zone, a week with open time, a start not before the midnight of its own day, and
  -- at least the minutes asked for open in the first m <= 731 days, all regular,
  -- addBusinessMinutes gives a deadline and does not throw.
  pub add_business_minutes_total :
      (formatter : Formatter) (m : ℕ) (from : Instant) (minutes : ℕ)
      → intl calendar.timezone ≡ some formatter
      → 0 < weekly_open_minutes calendar.weekly
      → m ≤ suc max_lookahead_days
      → IsRegular formatter calendar m (local_date_of formatter from)
      → day_start formatter calendar (local_date_of formatter from) ≤ from
      → minutes * minute_ms
        ≤ open_time formatter calendar m (local_date_of formatter from) from (
            day_start formatter calendar
              (days_after formatter calendar m (local_date_of formatter from)))
      → (t : Instant) × (add_business_minutes intl from minutes calendar ≡ ok t)
  unfolding add_business_minutes
  add_business_minutes_total formatter m from minutes zone usable le regular midnight enough =
      elim (Bool-cases (minutes == 0)) [
        | inl z ↦ (from, ground arith)
        | inr nz ↦
            let date = local_date_of formatter from in
            let top : max from (day_start formatter calendar date) ≡ from = omega arith in
            let (t, w) =
              walk_days_total formatter calendar (suc max_lookahead_days) m date
                (minutes * minute_ms) from _ le (ground arith) regular (omega arith) enough in
            let walked : walk_days formatter calendar (suc max_lookahead_days) date
                  (minutes * minute_ms) from
                ≡ some t =
              rw top at w in
            (t, ground arith)
      ]
