-- ===== src/Sla/Scan/Tests.antt =====
-- modules/sla/sla.service.ts, "the scan": one overdue target, scanned twice.
use prime_focus_css_api.Common.{ℕ, ◌≡◌, refl, some, none, List, [], ◌∷◌, Uuid, Option, Instant}
use prime_focus_css_api.Common.Errors.{Result, ok}
use prime_focus_css_api.Sla.Clock.{BusinessCalendar}
use prime_focus_css_api.Sla.Clock.Tests.{intl, calendar, friday, monday}
use prime_focus_css_api.Sla.Store.{resolution, TicketSlaTargetRow}
use prime_focus_css_api.Sla.Scan.{World, published, notified, breach, breach_row, record_breach}
use prime_focus_css_api.Sla.Scan.Laws.{record_breach_once}

abbrev calendar_for : Option Uuid → Result BusinessCalendar
calendar_for _ = ok calendar

abbrev assigned_to : Uuid → Option Uuid
assigned_to _ = some 5

abbrev late : TicketSlaTargetRow
late = record {
  id = 10;
  ticket_id = 7;
  policy_id = some 1;
  kind = resolution;
  target_minutes = 120;
  business_hours_id = some 2;
  started_at = friday;
  due_at = friday;
  paused_at = none;
  paused_minutes = 0;
  satisfied_at = none;
  breached_at = none;
}

abbrev before : World
before = record {
  store = record { policies = []; targets = late ∷ []; breaches = []; next_id = 11 };
  audited = [];
  announced = [];
}

abbrev after : World
after = record {
  store = record {
    policies = [];
    targets = breach monday late ∷ [];
    breaches = breach_row late late monday 60 ∷ [];
    next_id = 11;
  };
  audited = (7, resolution) ∷ [];
  announced = published 7 resolution ∷ notified 5 7 resolution ∷ [];
}

breaches_late : record_breach intl calendar_for assigned_to late monday before ≡ ok after
unfolding record_breach prime_focus_css_api.Sla.Clock.business_minutes_between
    prime_focus_css_api.Sla.Scan.mark_breached prime_focus_css_api.Sla.Store.find_target
    prime_focus_css_api.Common.find_where prime_focus_css_api.Sla.Store.insert_breach
    prime_focus_css_api.Sla.Store.update_target prime_focus_css_api.Common.update_where
    prime_focus_css_api.Sla.Clock.elapsed_days prime_focus_css_api.Common.Dates.days_before_year
    prime_focus_css_api.Sla.Clock.Zone.local_date_of prime_focus_css_api.Common.Dates.year_of
    prime_focus_css_api.Common.Dates.days_before_month prime_focus_css_api.Common.Dates.month_of
breaches_late = refl

breaches_again : record_breach intl calendar_for assigned_to late monday after ≡ ok after
unfolding record_breach prime_focus_css_api.Sla.Clock.business_minutes_between
    prime_focus_css_api.Sla.Scan.mark_breached prime_focus_css_api.Sla.Store.find_target
    prime_focus_css_api.Common.find_where
breaches_again = refl

record_breach_once_example : after ≡ after
record_breach_once_example =
    record_breach_once intl calendar_for assigned_to late monday monday before after after
      breaches_late breaches_again
