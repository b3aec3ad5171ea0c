-- ===== src/Escalation/Passes.antt =====
-- The pass of the job over all targets.
use prime_focus_css_api.Common.{ℕ, Option, List, [], ◌∷◌, inl, inr, Uuid, Instant, arith}
use prime_focus_css_api.Common.Errors.{Result, ok, err, Result-cases}
use prime_focus_css_api.Sla.Clock.{BusinessCalendar}
use prime_focus_css_api.Sla.Clock.Zone.{Formatter}
use prime_focus_css_api.Sla.Clock.Windows.{Text}
use prime_focus_css_api.Escalation.{
  EscalationRuleRow, DueTarget, Ladder, escalate_target, escalate_all, run, consumed_for,
  applicable, fired_rule_ids,
}
use prime_focus_css_api.Escalation.Once.{Once, Counted, fire_all-Once, fire_all-Counted}

-- What a pass over one target adds to the count.
abbrev outcome : Result ℕ → ℕ
outcome (err _) = 0
outcome (ok n) = n

module _ (team_members : Uuid → Option (List Uuid)) (intl : Text → Option Formatter)
    (calendar_for : Option Uuid → Result BusinessCalendar) where
  escalate_target-Once :
      (entry : DueTarget) (rules : List EscalationRuleRow) (now : Instant) (w : Ladder)
      → Once w
      → Once (escalate_target team_members intl calendar_for entry rules now w).1
  unfolding escalate_target
  escalate_target-Once entry rules now w once =
      elim (Result-cases (consumed_for team_members intl calendar_for entry.target now)) [
        | inl (e, u) ↦ rw (u, escalate_target) once
        | inr (fraction, u) ↦
            rw (u, escalate_target)
              (fire_all-Once team_members
                (applicable team_members intl calendar_for entry rules fraction)
                (fired_rule_ids entry.ticket_id entry.target.id w) entry now w once)
      ]

  escalate_target-Counted :
      (entry : DueTarget) (rules : List EscalationRuleRow) (now : Instant) (w : Ladder)
      → let (fired, after) = escalate_target team_members intl calendar_for entry rules now w in
        Counted (outcome fired) w after
  unfolding escalate_target
  escalate_target-Counted entry rules now w =
      elim (Result-cases (consumed_for team_members intl calendar_for entry.target now)) [
        | inl (e, u) ↦ rw (u, escalate_target) (omega arith, omega arith)
        | inr (fraction, u) ↦
            rw (u, escalate_target)
              (fire_all-Counted team_members
                (applicable team_members intl calendar_for entry rules fraction)
                (fired_rule_ids entry.ticket_id entry.target.id w) entry now w)
      ]

  escalate_all-Once :
      (entries : List DueTarget) (rules : List EscalationRuleRow) (now : Instant) (w : Ladder)
      → Once w
      → Once (escalate_all team_members intl calendar_for entries rules now w).1
  unfolding escalate_all
  escalate_all-Once [] rules now w once = once
  escalate_all-Once (entry ∷ entries) rules now w once =
      escalate_all-Once entries rules now _ (escalate_target-Once entry rules now w once)

  escalate_all-Counted :
      (entries : List DueTarget) (rules : List EscalationRuleRow) (now : Instant) (w : Ladder)
      → let (triggered, after) = escalate_all team_members intl calendar_for entries rules now w in
        Counted triggered w after
  unfolding escalate_all
  escalate_all-Counted [] rules now w = (omega arith, omega arith)
  escalate_all-Counted (entry ∷ entries) rules now w =
      let (fired, w₁) = escalate_target team_members intl calendar_for entry rules now w in
      let (rows, told) = escalate_target-Counted entry rules now w in
      let (rows', told') = escalate_all-Counted entries rules now w₁ in
      elim (Result-cases fired) [
        | inl (e, u) ↦
            rw (u, escalate_all)
              (omega (arith, rw u at rows, rows'), omega (arith, rw u at told, told'))
        | inr (n, u) ↦
            rw (u, escalate_all)
              (omega (arith, rw u at rows, rows'), omega (arith, rw u at told, told'))
      ]

  -- If no rule has two escalation rows for one target of one ticket, none has after a pass over
  -- any rules and targets, repeated ones included.
  pub run-Once :
      (rules : List EscalationRuleRow) (targets : List DueTarget) (now : Instant) (w : Ladder)
      → Once w
      → Once (run team_members intl calendar_for rules targets now w).2
  unfolding run
  run-Once [] targets now w once = once
  run-Once (rule ∷ rules) targets now w once = escalate_all-Once targets (rule ∷ rules) now w once

  -- The number that a pass reports as triggered is the number of escalation rows that it added,
  -- and the number of ticket-escalated events that it asked for.
  pub run-Counted :
      (rules : List EscalationRuleRow) (targets : List DueTarget) (now : Instant) (w : Ladder)
      → let (_, triggered, after) = run team_members intl calendar_for rules targets now w in
        Counted triggered w after
  unfolding run
  run-Counted [] targets now w = (omega arith, omega arith)
  run-Counted (rule ∷ rules) targets now w = escalate_all-Counted targets (rule ∷ rules) now w
