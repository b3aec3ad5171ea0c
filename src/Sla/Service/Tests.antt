-- ===== src/Sla/Service/Tests.antt =====
-- modules/sla/sla.service.ts: one ticket's clocks through its life, under a policy of an hour to
-- answer and two to resolve.
use prime_focus_css_api.Common.{
  ◌+◌, ◌≡◌, refl, true, some, none, List, [], ◌∷◌, Uuid, Instant, Option, select_where,
  update_where, find_where, arith,
}
use prime_focus_css_api.Common.Errors.{Result, ok}
use prime_focus_css_api.Common.Dates.{
  date_of_days, days_before_year, year_of, days_before_month, month_of,
}
use prime_focus_css_api.Sla.Clock.{
  BusinessCalendar, add_business_minutes, business_minutes_between, walk_days, elapsed_days,
}
use prime_focus_css_api.Sla.Clock.Windows.{weekly_open_minutes}
use prime_focus_css_api.Sla.Clock.Zone.{local_date_of}
use prime_focus_css_api.Sla.Clock.Tests.{intl, calendar, friday, monday}
use prime_focus_css_api.Sla.Store.{
  first_response, resolution, SlaPolicyRow, TicketSlaTargetRow, SlaStore, find_policy_for,
  find_target, live_targets_for_ticket, insert_target,
}
use prime_focus_css_api.Sla.Service.{
  TicketClockContext, on_status_changed, pause_targets, resume_targets,
  apply_targets_for_new_ticket, reopen_resolution_target, satisfy, pause, resume,
}
use prime_focus_css_api.Sla.Service.Rows.{Rows}
use prime_focus_css_api.Sla.Service.Lifecycle.{
  on_status_changed-pause, on_status_changed-resume, Restarted, stopped,
}
use prime_focus_css_api.Sla.Service.Inserts.{FreshIn}
use prime_focus_css_api.Sla.Service.Targets.{
  on_status_changed-resolve, on_status_changed-reopen, apply_targets_for_new_ticket-fresh, clock,
  met,
}
use prime_focus_css_api.Ticket.Model.{normal}
use prime_focus_css_api.Ticket.Status.{open_status, pending, resolved}

abbrev calendar_for : Option Uuid → Result BusinessCalendar
calendar_for _ = ok calendar

abbrev ticket : TicketClockContext
ticket = record { id = 7; product_id = 3; priority = normal }

abbrev policy : SlaPolicyRow
policy = record {
  id = 1;
  product_id = 3;
  priority = normal;
  first_response_minutes = 60;
  resolution_minutes = 120;
  business_hours_id = 2;
  is_active = true;
}

abbrev target : TicketSlaTargetRow
target = record {
  id = 10;
  ticket_id = 7;
  policy_id = some 1;
  kind = resolution;
  target_minutes = 120;
  business_hours_id = some 2;
  started_at = friday;
  due_at = monday + 3_600_000;
  paused_at = none;
  paused_minutes = 0;
  satisfied_at = none;
  breached_at = none;
}

abbrev responded : TicketSlaTargetRow
responded = record target { id = 11; kind = first_response; target_minutes = 60; due_at = monday }

abbrev store_of : List TicketSlaTargetRow → SlaStore
store_of ts = record { policies = policy ∷ []; targets = ts; breaches = []; next_id = 12 }

abbrev running : SlaStore
running = store_of (target ∷ responded ∷ [])

abbrev later : Instant
later = friday + 600_000

abbrev waiting : SlaStore
waiting = store_of (pause later target ∷ pause later responded ∷ [])

pauses : on_status_changed intl calendar_for ticket open_status pending later running ≡ ok waiting
unfolding on_status_changed pause_targets live_targets_for_ticket select_where update_where
pauses = refl

on_status_changed-pause_example :
    Rows (λ t t'. t' ≡ stopped 7 later t) (target ∷ responded ∷ []) waiting.targets
on_status_changed-pause_example =
    on_status_changed-pause intl calendar_for ticket later running open_status pending waiting
      ((ground arith, tt), (tt, tt)) refl refl refl pauses

-- Ten minutes later on the same Friday, in office hours.
abbrev answered : SlaStore
answered = store_of (
    resume 10 (monday + 4_200_000) (pause later target)
    ∷ resume 10 (monday + 600_000) (pause later responded)
    ∷ [])

resumes :
    on_status_changed intl calendar_for ticket pending open_status (later + 600_000) waiting
    ≡ ok answered
unfolding on_status_changed resume_targets live_targets_for_ticket add_business_minutes
    business_minutes_between date_of_days walk_days elapsed_days weekly_open_minutes local_date_of
    days_before_year year_of days_before_month month_of select_where update_where
resumes = refl

on_status_changed-resume_example :
    Rows (Restarted intl calendar_for 7 (later + 600_000)) waiting.targets answered.targets
on_status_changed-resume_example =
    on_status_changed-resume intl calendar_for ticket pending open_status (later + 600_000) waiting
      answered ((ground arith, tt), (tt, tt)) refl refl refl resumes

holds_target : find_target 7 resolution running ≡ some target
unfolding find_target find_where
holds_target = refl

on_status_changed-resolve_example :
    (s' : SlaStore) × (on_status_changed intl calendar_for ticket open_status resolved later running
      ≡ ok s')
    × ((t : TicketSlaTargetRow)
        → find_target 7 resolution running ≡ some t
        → find_target 7 resolution s' ≡ some (met later t))
    × (find_target 7 resolution running ≡ none → s' ≡ running)
on_status_changed-resolve_example =
    on_status_changed-resolve intl calendar_for ticket open_status resolved later running refl refl

governed : find_policy_for 3 normal running ≡ some policy
unfolding find_policy_for find_where
governed = refl

abbrev done : SlaStore
done = store_of (satisfy later target ∷ responded ∷ [])

governed_done : find_policy_for 3 normal done ≡ some policy
unfolding find_policy_for find_where
governed_done = refl

abbrev reopened : SlaStore
reopened =
    store_of (record target { started_at = friday; due_at = monday + 3_600_000 } ∷ responded ∷ [])

reopens : on_status_changed intl calendar_for ticket resolved open_status friday done ≡ ok reopened
unfolding on_status_changed reopen_resolution_target add_business_minutes date_of_days walk_days
    weekly_open_minutes local_date_of days_before_year year_of days_before_month month_of
    find_policy_for insert_target find_where update_where
reopens = refl

on_status_changed-reopen_example :
    (c : BusinessCalendar) × (due : Instant) × (calendar_for (some 2) ≡ ok c)
    × (add_business_minutes intl friday 120 c ≡ ok due)
    × FreshIn (clock intl calendar_for ticket policy resolution 120 friday due) reopened
    × (find_target 7 first_response reopened ≡ find_target 7 first_response done)
on_status_changed-reopen_example =
    on_status_changed-reopen intl calendar_for ticket resolved open_status friday done reopened
      policy refl refl governed_done reopens

holds_first : find_target 7 first_response running ≡ some responded
unfolding find_target find_where
holds_first = refl

abbrev started : SlaStore
started = record {
  policies = policy ∷ [];
  targets = record responded { id = 12 } ∷ record target { id = 13 } ∷ [];
  breaches = [];
  next_id = 14;
}

starts : apply_targets_for_new_ticket intl calendar_for ticket friday (store_of []) ≡ ok started
unfolding apply_targets_for_new_ticket add_business_minutes date_of_days walk_days
    weekly_open_minutes local_date_of days_before_year year_of days_before_month month_of
    find_policy_for insert_target find_where
starts = refl

governed_empty : find_policy_for 3 normal (store_of []) ≡ some policy
unfolding find_policy_for find_where
governed_empty = refl

apply_targets_for_new_ticket-fresh_example :
    (c : BusinessCalendar) × (respond resolve : Instant) × (calendar_for (some 2) ≡ ok c)
    × (add_business_minutes intl friday 60 c ≡ ok respond)
    × (add_business_minutes intl friday 120 c ≡ ok resolve)
    × FreshIn (clock intl calendar_for ticket policy first_response 60 friday respond) started
    × FreshIn (clock intl calendar_for ticket policy resolution 120 friday resolve) started
apply_targets_for_new_ticket-fresh_example =
    apply_targets_for_new_ticket-fresh intl calendar_for ticket friday (store_of []) started policy
      governed_empty starts
