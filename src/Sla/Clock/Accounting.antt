-- ===== src/Sla/Clock/Accounting.antt =====
-- modules/sla/sla.clock.ts: `addBusinessMinutes` and `businessMinutesBetween` measure the same
-- thing, on a calendar whose days are in order.
use prime_focus_css_api.Common.{
  ℕ, zero, suc, ◌+◌, ◌*◌, ◌/◌, ◌≤◌, ◌<◌, max, ◌≡◌, refl, Option, some, arith, ltb, Instant,
  Bool-cases, ltb→lt, lt→ltb, inl, inr,
}
use prime_focus_css_api.Common.Dates.{LocalDate}
use prime_focus_css_api.Common.Errors.{ok}
use prime_focus_css_api.Sla.Clock.{
  BusinessCalendar, found, left, consume_all, overlap_all, day_segments, day_start, walk_days,
  elapsed_days, max_lookahead_days, max_elapsed_days, add_business_minutes,
  business_minutes_between,
}
use prime_focus_css_api.Sla.Clock.Segments.{
  IsWithin, IsWithin-le, overlap_all-zero, overlap_all-start, DayDone, consume_all-DayDone,
  Advances, consume_all-Advances, Walk-cases,
}
use prime_focus_css_api.Sla.Clock.Windows.{Text}
use prime_focus_css_api.Sla.Clock.Zone.{Formatter, minute_ms, next_local_date, local_date_of}

module _ (formatter : Formatter) (calendar : BusinessCalendar) where
  abbrev pub days_after : ℕ → LocalDate → LocalDate
  days_after zero date = date
  days_after (suc n) date = days_after n (next_local_date date)

  -- On each of `n` days the open stretches are in order, between that midnight and the next.
  abbrev pub IsRegular : ℕ → LocalDate → Type 0
  IsRegular zero date = Unit
  IsRegular (suc n) date =
      IsWithin (day_start formatter calendar date)
        (day_start formatter calendar (next_local_date date)) (day_segments formatter calendar date)
      × IsRegular n (next_local_date date)

  unfoldable pub open_time : ℕ → LocalDate → Instant → Instant → ℕ
  open_time zero date start end = 0
  open_time (suc n) date start end =
      overlap_all start end (day_segments formatter calendar date)
      + open_time n (next_local_date date) start end

  open_time-zero :
      (n : ℕ) (date : LocalDate) (start end : Instant)
      → IsRegular n date
      → end ≤ day_start formatter calendar date
      → open_time n date start end ≡ 0
  unfolding open_time
  open_time-zero zero date start end r le = refl
  open_time-zero (suc n) date start end r le =
      let segs = day_segments formatter calendar date in
      omega (
        arith,
        overlap_all-zero segs _ _ start end r.0 le,
        open_time-zero n (next_local_date date) start end r.1 (omega (arith, IsWithin-le segs r.0)),
      )

  pub IsRegular-le :
      (n : ℕ) (date : LocalDate)
      → IsRegular n date
      → day_start formatter calendar date ≤ day_start formatter calendar (days_after n date)
  IsRegular-le zero date r = omega arith
  IsRegular-le (suc n) date r = omega (
    arith,
    IsWithin-le (day_segments formatter calendar date) r.0,
    IsRegular-le n (next_local_date date) r.1,
  )

  -- The elapsed-time loop counts the open_time of the days before the one that begins after `end`.
  elapsed_days-open_time :
      (f m : ℕ) (date : LocalDate) (start end : Instant) (total : ℕ)
      → m < f
      → IsRegular m date
      → end < day_start formatter calendar (days_after m date)
      → elapsed_days formatter calendar f date start end total ≡ total + open_time m date start end
  unfolding open_time elapsed_days
  elapsed_days-open_time zero m date start end total lt r after = absurd (omega arith)
  elapsed_days-open_time (suc f) zero date start end total lt r after =
      rw (lt→ltb _ _ after) (omega arith)
  elapsed_days-open_time (suc f) (suc m) date start end total lt r after =
      let ds = day_start formatter calendar date in
      let segs = day_segments formatter calendar date in
      elim (Bool-cases (ltb end ds)) [
        | inl e ↦
            rw e
              (omega (arith, open_time-zero (suc m) date start end r (omega (arith, ltb→lt _ _ e))))
        | inr e ↦ rw e (
            omega (
              arith,
              elapsed_days-open_time f m (next_local_date date) start end
                  (total + overlap_all start end segs) (omega arith) r.1 after,
            ))
      ]

  pub walk_days-advances :
      (n : ℕ) (date : LocalDate) (remaining : ℕ) (cursor : Instant) (t : Instant)
      → walk_days formatter calendar n date remaining cursor ≡ some t
      → cursor + remaining ≤ t
  unfolding walk_days
  walk_days-advances zero date remaining cursor t e = cc
  walk_days-advances (suc n) date remaining cursor t e =
      let segs = day_segments formatter calendar date in
      let next = next_local_date date in
      let adv = consume_all-Advances segs remaining cursor in
      elim (Walk-cases (consume_all segs remaining cursor)) [
        | inl (u, eq) ↦
            let same : some u ≡ some t = rw (eq, walk_days) at e in
            let hit : u ≡ t = cc same in
            let le : cursor + remaining ≤ u = rw eq at adv in omega arith
        | inr (r, c, eq) ↦
            let later =
              walk_days-advances n next r (max c (day_start formatter calendar next)) t
                (rw (eq, walk_days) at e) in
            let le : Advances remaining cursor (left r c) = rw eq at adv in omega arith
      ]

  -- A walk that ends within the regular days has passed exactly the open time it was given.
  walk_days-open_time :
      (n m : ℕ) (date : LocalDate) (remaining : ℕ) (start t : Instant)
      → m ≤ n
      → IsRegular m date
      → walk_days formatter calendar n date remaining
          (max start (day_start formatter calendar date))
        ≡ some t
      → t < day_start formatter calendar (days_after m date)
      → open_time m date start t ≡ remaining
  unfolding open_time walk_days
  walk_days-open_time n zero date remaining start t le r e after = absurd (
      omega (
        arith,
        walk_days-advances n date remaining (max start (day_start formatter calendar date)) t e,
      ))
  walk_days-open_time zero (suc m) date remaining start t le r e after = absurd (omega arith)
  walk_days-open_time (suc n) (suc m) date remaining start t le r e after =
      let next = next_local_date date in
      let lo = day_start formatter calendar date in
      let hi = day_start formatter calendar next in
      let segs = day_segments formatter calendar date in
      let cursor = max start lo in
      let done = consume_all-DayDone segs lo hi remaining cursor r.0 in
      let moved =
        λ (end : Instant). overlap_all-start segs lo hi start cursor end r.0 (omega arith) in
      elim (Walk-cases (consume_all segs remaining cursor)) [
        | inl (u, eq) ↦
            let same : some u ≡ some t = rw (eq, walk_days) at e in
            let hit : u ≡ t = cc same in
            let d : DayDone segs hi remaining cursor (found u) = rw eq at done in
            let d' : DayDone segs hi remaining cursor (found t) = rw hit at d in
            omega (arith, d', moved t, open_time-zero m next start t r.1 (d'.1))
        | inr (k, c, eq) ↦
            let d : DayDone segs hi remaining cursor (left k c) = rw eq at done in
            let top : max c hi ≡ max start hi = omega (arith, d, IsWithin-le segs r.0) in
            let e' : walk_days formatter calendar n next k (max c hi) ≡ some t =
              rw (eq, walk_days) at e in
            let e'' : walk_days formatter calendar n next k (max start hi) ≡ some t =
              rw top at e' in
            let adv = walk_days-advances n next k (max start hi) t e'' in
            omega (
              arith,
              d.4 t (omega arith),
              moved t,
              walk_days-open_time n m next k start t (omega arith) r.1 e'' after,
            )
      ]

round_minutes : (m : ℕ) → (m * minute_ms + 30_000) / minute_ms ≡ m
round_minutes m = omega arith

module _ (intl : Text → Option Formatter) (calendar : BusinessCalendar) where
  -- A successful call of `addBusinessMinutes` is the day walk's answer.
  pub add_business_minutes-walk :
      (formatter : Formatter) (from : Instant) (minutes : ℕ) (t : Instant)
      → intl calendar.timezone ≡ some formatter
      → 0 < minutes
      → add_business_minutes intl from minutes calendar ≡ ok t
      → walk_days formatter calendar
          (suc max_lookahead_days)
          (local_date_of formatter from)
          (minutes * minute_ms)
          from
        ≡ some t
  unfolding add_business_minutes
  add_business_minutes-walk formatter from minutes t zone pos e = ground arith

  -- Where addBusinessMinutes gives a deadline for a positive number of minutes in a known zone,
  -- the working minutes between its start and the deadline are that number, if the start is not
  -- before the midnight of its own day and the deadline is before the midnight that follows m <=
  -- 730 regular days from that one (a regular day: its open stretches in order, between its
  -- midnight and the next).
  pub business_minutes_between-add :
      (formatter : Formatter) (m : ℕ) (from : Instant) (minutes : ℕ) (t : Instant)
      → intl calendar.timezone ≡ some formatter
      → 0 < minutes
      → m ≤ max_lookahead_days
      → IsRegular formatter calendar m (local_date_of formatter from)
      → day_start formatter calendar (local_date_of formatter from) ≤ from
      → t
        < day_start formatter calendar
            (days_after formatter calendar m (local_date_of formatter from))
      → add_business_minutes intl from minutes calendar ≡ ok t
      → business_minutes_between intl from t calendar ≡ ok minutes
  unfolding business_minutes_between
  business_minutes_between-add formatter m from minutes t zone pos le regular midnight after e =
      let date = local_date_of formatter from in
      let walked = add_business_minutes-walk formatter from minutes t zone pos e in
      let top : from ≡ max from (day_start formatter calendar date) = omega arith in
      let later : from < t =
        omega (arith, walk_days-advances formatter calendar _ date _ from t walked) in
      let used =
        walk_days-open_time formatter calendar (suc max_lookahead_days) m date (minutes * minute_ms)
          from t (omega arith) regular (rw (← top) walked) after in
      let counted =
        elapsed_days-open_time formatter calendar (suc max_elapsed_days) m date from t 0
          (omega arith) regular after in
      let total : elapsed_days formatter calendar (suc max_elapsed_days) date from t 0
          ≡ minutes * minute_ms =
        omega (arith, used, counted) in
      ground (arith, round_minutes minutes)
