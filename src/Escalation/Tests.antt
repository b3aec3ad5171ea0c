-- ===== src/Escalation/Tests.antt =====
-- The theorems on escalation at a concrete ladder.
use prime_focus_css_api.Common.{
  refl, Option, none, some, List, [], ◌∷◌, true, arith, Uuid, All, count,
}
use prime_focus_css_api.Common.Doubles.{one}
use prime_focus_css_api.Common.Errors.{Result, ok}
use prime_focus_css_api.Sla.Clock.{BusinessCalendar, consumed_fraction}
use prime_focus_css_api.Sla.Clock.Zone.{Formatter}
use prime_focus_css_api.Sla.Clock.Windows.{Text}
use prime_focus_css_api.Sla.Store.{TicketSlaTargetRow, first_response}
use prime_focus_css_api.Ticket.Model.{high}
use prime_focus_css_api.Escalation.{
  EscalationRuleRow, notify, DueTarget, Ladder, run, escalate_target, consumed_for, applicable,
}
use prime_focus_css_api.Escalation.Once.{Once, Counted}
use prime_focus_css_api.Escalation.Fires.{HasFired, escalate_target-fires}
use prime_focus_css_api.Escalation.Passes.{run-Once, run-Counted}

abbrev members : Uuid → Option (List Uuid)
members team = some (8 ∷ 9 ∷ [])

abbrev nowhere : Text → Option Formatter
nowhere zone = none

abbrev always_open : BusinessCalendar
always_open = record { timezone = []; weekly = []; holidays = [] }

abbrev calendars : Option Uuid → Result BusinessCalendar
calendars id = ok always_open

-- A target without minutes counts as used up.
abbrev target : TicketSlaTargetRow
target = record {
  id = 5;
  ticket_id = 1;
  policy_id = none;
  kind = first_response;
  target_minutes = 0;
  business_hours_id = none;
  started_at = 0;
  due_at = 0;
  paused_at = none;
  paused_minutes = 0;
  satisfied_at = none;
  breached_at = none;
}

abbrev entry : DueTarget
entry = record {
  target = target;
  ticket_id = 1;
  product_id = 2;
  priority = high;
  assigned_to_user_id = none;
}

abbrev rule : EscalationRuleRow
rule = record {
  id = 7;
  product_id = none;
  priority = some high;
  target_kind = none;
  threshold_percent = 90;
  action = notify;
  notify_user_id = some 8;
  notify_team_id = some 3;
  reassign_to_user_id = none;
  reassign_to_team_id = none;
  raise_priority = true;
  is_active = true;
}

abbrev start : Ladder
start = record { escalations = []; audited = []; asked = [] }

start-Once : Once start
unfolding count
start-Once t r g = omega arith

run-Once_example : Once (run members nowhere calendars (rule ∷ []) (entry ∷ entry ∷ []) 100 start).2
run-Once_example =
    run-Once members nowhere calendars (rule ∷ []) (entry ∷ entry ∷ []) 100 start start-Once

run-Counted_example :
    let (_, triggered, after) =
      run members nowhere calendars (rule ∷ []) (entry ∷ entry ∷ []) 100 start in
    Counted triggered start after
run-Counted_example =
    run-Counted members nowhere calendars (rule ∷ []) (entry ∷ entry ∷ []) 100 start

escalate_target-fires_example :
    All
      (λ r.
        HasFired entry r (escalate_target members nowhere calendars entry (rule ∷ []) 100 start).1)
      (applicable members nowhere calendars entry (rule ∷ []) one)
unfolding consumed_for consumed_fraction
escalate_target-fires_example =
    escalate_target-fires members nowhere calendars entry (rule ∷ []) 100 start {fraction = one}
      refl
