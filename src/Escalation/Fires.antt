-- ===== src/Escalation/Fires.antt =====
-- After a pass over a target every rule that applies to it has fired.
use prime_focus_css_api.Common.{
  ◌≡◌, refl, true, Option, List, [], ◌∷◌, ◌==◌, is_some, All, inl, inr, Bool-cases, Option-cases,
  ==_refl, arith, Uuid, Instant, find_where, select_where, find_where-append,
  find_where-append_kept,
}
use prime_focus_css_api.Common.Errors.{Result, ok}
use prime_focus_css_api.Common.Doubles.{Double}
use prime_focus_css_api.Sla.Clock.{BusinessCalendar}
use prime_focus_css_api.Sla.Clock.Zone.{Formatter}
use prime_focus_css_api.Sla.Clock.Windows.{Text}
use prime_focus_css_api.Escalation.{
  EscalationRuleRow, EscalationRow, DueTarget, Ladder, is_firing, is_firing_of, claim, firing,
  apply_rule, fire_all, has_rule, fired_rule_ids, escalate_target, consumed_for, applicable,
}

abbrev pub HasFired : DueTarget → EscalationRuleRow → Ladder → Type 0
HasFired entry rule w =
    is_some (find_where (is_firing entry.ticket_id rule.id entry.target.id) w.escalations) ≡ true

-- What the query of the rules that fired says is so.
any-select_where :
    (t r g : Uuid) (rows : List EscalationRow)
    → has_rule r (select_where (is_firing_of t g) rows) ≡ true
    → is_some (find_where (is_firing t r g) rows) ≡ true
unfolding select_where find_where
any-select_where t r g [] seen = cc
any-select_where t r g (row ∷ rows) seen = elim (Bool-cases (is_firing t r g row)) [
  | inl u ↦ rw u refl
  | inr u ↦ elim (Bool-cases (is_firing_of t g row)) [
    | inr v ↦ rw u (any-select_where t r g rows (rw v at seen))
    | inl v ↦ elim (Bool-cases (row.rule_id == r)) [
      | inr z ↦ rw u (any-select_where t r g rows (rw z at (rw v at seen)))
      | inl z ↦ ground arith
    ]
  ]
]

module _ (team_members : Uuid → Option (List Uuid)) where
  apply_rule-keeps :
      (rule other : EscalationRuleRow) (entry : DueTarget) (now : Instant) (w : Ladder)
      → HasFired entry other w
      → HasFired entry other (apply_rule team_members rule entry now w).1
  unfolding apply_rule claim
  apply_rule-keeps rule other entry now w fired =
      let row = firing team_members rule entry now in
      elim (Option-cases
        (find_where (is_firing row.ticket_id row.rule_id row.target_id) w.escalations)) [
          | inr (there, u) ↦ rw (u, claim, apply_rule) fired
          | inl u ↦
              elim (Option-cases
                (find_where (is_firing entry.ticket_id other.id entry.target.id) w.escalations)) [
                  | inl v ↦ cc (rw v at fired)
                  | inr (mine, v) ↦
                      let still = find_where-append_kept _ w.escalations row v in
                      rw (u, claim, apply_rule) (rw still refl)
                ]
        ]

  apply_rule-fires :
      (rule : EscalationRuleRow) (entry : DueTarget) (now : Instant) (w : Ladder)
      → HasFired entry rule (apply_rule team_members rule entry now w).1
  unfolding apply_rule claim
  apply_rule-fires rule entry now w =
      let row = firing team_members rule entry now in
      let mine : is_firing entry.ticket_id rule.id entry.target.id row ≡ true =
        rw (==_refl entry.ticket_id) (rw (==_refl rule.id) (==_refl entry.target.id)) in
      elim (Option-cases
        (find_where (is_firing row.ticket_id row.rule_id row.target_id) w.escalations)) [
          | inr (there, u) ↦ rw (u, claim, apply_rule) (rw u refl)
          | inl u ↦
              let added =
                find_where-append (is_firing entry.ticket_id rule.id entry.target.id) w.escalations
                  row u mine in
              rw (u, claim, apply_rule) (rw added refl)
        ]

  fire_all-keeps :
      (rules : List EscalationRuleRow) (seen : List EscalationRow) (other : EscalationRuleRow)
      (entry : DueTarget) (now : Instant) (w : Ladder)
      → HasFired entry other w
      → HasFired entry other (fire_all team_members rules seen entry now w).1
  unfolding fire_all
  fire_all-keeps [] seen other entry now w fired = fired
  fire_all-keeps (rule ∷ rules) seen other entry now w fired =
      elim (Bool-cases (has_rule rule.id seen)) [
        | inl u ↦ rw (u, fire_all) (fire_all-keeps rules seen other entry now w fired)
        | inr u ↦
            rw (u, fire_all)
              (fire_all-keeps rules seen other entry now
                (apply_rule team_members rule entry now w).1
                (apply_rule-keeps rule other entry now w fired))
      ]

  -- The rules that were skipped had fired.
  abbrev IsSound : List EscalationRow → DueTarget → Ladder → Type 0
  IsSound seen entry w =
      (rule : EscalationRuleRow) → has_rule rule.id seen ≡ true → HasFired entry rule w

  fire_all-fires :
      (rules : List EscalationRuleRow) (seen : List EscalationRow) (entry : DueTarget)
      (now : Instant) (w : Ladder) (after : Ladder)
      → IsSound seen entry w
      → (fire_all team_members rules seen entry now w).1 ≡ after
      → All (λ rule. HasFired entry rule after) rules
  unfolding fire_all
  fire_all-fires [] seen entry now w after sound done = tt
  fire_all-fires (rule ∷ rules) seen entry now w after sound done =
      elim (Bool-cases (has_rule rule.id seen)) [
        | inl u ↦
            let rest = rw (u, fire_all) at done in
            let kept = fire_all-keeps rules seen rule entry now w (sound rule u) in
            (rw rest at kept, fire_all-fires rules seen entry now w after sound rest)
        | inr u ↦
            let w₁ = (apply_rule team_members rule entry now w).1 in
            let rest = rw (u, fire_all) at done in
            let kept =
              fire_all-keeps rules seen rule entry now w₁ (apply_rule-fires rule entry now w) in
            (
              rw rest at kept,
              fire_all-fires rules seen entry now w₁ after
                  (λ other was. apply_rule-keeps rule other entry now w (sound other was)) rest,
            )
      ]

  module _ (intl : Text → Option Formatter)
      (calendar_for : Option Uuid → Result BusinessCalendar) where
    -- Where the consumption of a target can be measured, every rule that applies to it at that
    -- percentage has an escalation row for it after escalateTarget.
    pub escalate_target-fires :
        (entry : DueTarget) (rules : List EscalationRuleRow) (now : Instant) (w : Ladder)
        {fraction : Double}
        → consumed_for team_members intl calendar_for entry.target now ≡ ok fraction
        → All
            (λ rule.
              HasFired entry rule
                (escalate_target team_members intl calendar_for entry rules now w).1)
            (applicable team_members intl calendar_for entry rules fraction)
    unfolding escalate_target fired_rule_ids
    escalate_target-fires entry rules now w {fraction} measured =
        let seen = fired_rule_ids entry.ticket_id entry.target.id w in
        let rules_now = applicable team_members intl calendar_for entry rules fraction in
        let after = (fire_all team_members rules_now seen entry now w).1 in
        rw (measured, escalate_target)
          (fire_all-fires rules_now seen entry now w after
            (λ rule was. any-select_where entry.ticket_id rule.id entry.target.id w.escalations was)
            refl)
