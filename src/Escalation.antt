-- ===== src/Escalation.antt =====
-- src/modules/escalation: the ladder of escalation.service.ts over escalation.repository.ts. What a rung asks
-- of other modules, a notice, a change of team, owner or priority, an event, is a list of calls, as if
-- each returned. `team_members` is what teamService.get gives. A share is a double (Common.Doubles)
-- and its percentage is that of the code; one below nothing counts as nothing, since the schema of a
-- rule wants a threshold of at least one.
mod Model
mod Calls
pub mod Once
pub mod Fires
pub mod Passes
mod Tests
unfoldable pub use Model.*
unfoldable pub use Calls.*
use prime_focus_css_api.Common.{
  ℕ, suc, ◌+◌, ◌*◌, ◌/◌, max, Bool, true, false, not, ◌&&◌, Option, none, some, List, [], ◌∷◌, ◌++◌,
  leb, ◌==◌, is_some, opt_eq, any, if◌then◌else◌, Uuid, Instant, length, find_where, select_where,
}
use prime_focus_css_api.Common.Doubles.{Double, percent}
use prime_focus_css_api.Common.Errors.{Result, ok, err, validation, ensure, ◌>>◌}
use prime_focus_css_api.Sla.Clock.{BusinessCalendar, consumed_fraction}
use prime_focus_css_api.Sla.Clock.Zone.{Formatter}
use prime_focus_css_api.Sla.Clock.Windows.{Text}
use prime_focus_css_api.Sla.Store.{SlaTargetKind, TicketSlaTargetRow, same_kind}
use prime_focus_css_api.Ticket.Model.{TicketPriority, low, normal, high, urgent, same_priority}

abbrev pub is_firing : Uuid → Uuid → Uuid → EscalationRow → Bool
is_firing ticket_id rule_id target_id row =
    row.ticket_id == ticket_id && row.rule_id == rule_id && row.target_id == target_id

abbrev pub is_firing_of : Uuid → Uuid → EscalationRow → Bool
is_firing_of ticket_id target_id row = row.ticket_id == ticket_id && row.target_id == target_id

unfoldable pub fired_rule_ids : Uuid → Uuid → Ladder → List EscalationRow
fired_rule_ids ticket_id target_id w = select_where (is_firing_of ticket_id target_id) w.escalations

-- `alreadyFired.has`
abbrev pub has_rule : Uuid → List EscalationRow → Bool
has_rule rule_id rows = any (λ (row : EscalationRow). row.rule_id == rule_id) rows

-- `claim`: an insertion that gives up where the row is there.
unfoldable pub claim : EscalationRow → Ladder → Bool × Ladder
claim values w =
    elim (find_where (is_firing values.ticket_id values.rule_id values.target_id) w.escalations) [
      | some _ ↦ (false, w)
      | none ↦ (true, record w { escalations = w.escalations ++ (values ∷ []) })
    ]

module _ (team_members : Uuid → Option (List Uuid)) where
  abbrev pub firing : EscalationRuleRow → DueTarget → Instant → EscalationRow
  firing rule entry now = record {
    ticket_id = entry.ticket_id;
    rule_id = rule.id;
    target_id = entry.target.id;
    threshold_percent = rule.threshold_percent;
    action = rule.action;
    from_user_id = entry.assigned_to_user_id;
    to_user_id = rule.reassign_to_user_id;
    triggered_at = now;
  }

  unfoldable pub apply_rule : EscalationRuleRow → DueTarget → Instant → Ladder → Bool × Ladder
  unfolding claim carry_out
  apply_rule rule entry now w =
      let (claimed, w₁) = claim (firing rule entry now) w in
      if not claimed then (false, w₁) else (
        true,
        asks (carry_out team_members rule entry ++ (publishes entry.ticket_id rule.id ∷ []))
            (record w₁ { audited = w₁.audited ++ (entry.ticket_id ∷ []) }),
      )

  -- The loop of `escalateTarget` over the rules that apply.
  unfoldable pub fire_all :
      List EscalationRuleRow → List EscalationRow → DueTarget → Instant → Ladder → ℕ × Ladder
  unfolding apply_rule
  fire_all [] already_fired entry now w = (0, w)
  fire_all (rule ∷ rules) already_fired entry now w =
      if has_rule rule.id already_fired
      then fire_all rules already_fired entry now w
      else (let (fired, w₁) = apply_rule rule entry now w in
          let (more, w₂) = fire_all rules already_fired entry now w₁ in
          ((if fired then 1 else 0) + more, w₂))

  module _ (intl : Text → Option Formatter)
      (calendar_for : Option Uuid → Result BusinessCalendar) where
    -- `consumedFor`
    unfoldable pub consumed_for : TicketSlaTargetRow → Instant → Result Double
    unfolding consumed_fraction
    consumed_for target now = elim (calendar_for target.business_hours_id) [
      | err e ↦ err e
      | ok calendar ↦
          consumed_fraction intl target.target_minutes target.due_at target.paused_at now calendar
    ]

    abbrev pub consumed_percent : TicketSlaTargetRow → Double → ℕ
    consumed_percent target fraction =
        if is_some target.breached_at then max 100 (percent fraction) else percent fraction

    abbrev pub applicable : DueTarget → List EscalationRuleRow → Double → List EscalationRuleRow
    applicable entry rules fraction =
        select_where
          (λ (rule : EscalationRuleRow).
            rule_applies rule entry (consumed_percent entry.target fraction))
          rules

    unfoldable pub escalate_target :
        DueTarget → List EscalationRuleRow → Instant → Ladder → Result ℕ × Ladder
    unfolding consumed_for rule_applies fired_rule_ids fire_all
    escalate_target entry rules now w = elim (consumed_for entry.target now) [
      | err e ↦ (err e, w)
      | ok fraction ↦
          let already_fired = fired_rule_ids entry.ticket_id entry.target.id w in
          let (fired, w₁) = fire_all (applicable entry rules fraction) already_fired entry now w in
          (ok fired, w₁)
    ]

    -- The loop of `run` over the targets; the error of one is only logged.
    unfoldable pub escalate_all :
        List DueTarget → List EscalationRuleRow → Instant → Ladder → ℕ × Ladder
    unfolding escalate_target
    escalate_all [] rules now w = (0, w)
    escalate_all (entry ∷ entries) rules now w =
        let (fired, w₁) = escalate_target entry rules now w in
        let (more, w₂) = escalate_all entries rules now w₁ in
        (elim fired [ err _ ↦ more | ok n ↦ n + more ], w₂)

    -- `run` on the active rules and the targets that the queries give: how many it examined and triggered.
    unfoldable pub run : List EscalationRuleRow → List DueTarget → Instant → Ladder → ℕ × ℕ × Ladder
    unfolding escalate_all
    run [] targets now w = (0, 0, w)
    run (rule ∷ rules) targets now w =
        let (triggered, w₁) = escalate_all targets (rule ∷ rules) now w in
        (length targets, triggered, w₁)
