-- ===== src/Escalation/Calls.antt =====
-- src/modules/escalation/escalation.service.ts, carryOut and its helpers: what a rung asks of other modules.
-- `team_members` is what teamService.get gives.
use prime_focus_css_api.Common.{
  Option, none, some, List, [], ◌∷◌, ◌++◌, ◌==◌, opt_eq, any, if◌then◌else◌, Uuid,
}
use prime_focus_css_api.Ticket.Model.{TicketPriority, low, normal, high, urgent, same_priority}
use prime_focus_css_api.Escalation.Model.{
  EscalationRuleRow, DueTarget, Ask, notifies_by, reassigns_by, notifies, moves_team, assigns,
  raises,
}

abbrev pub next_priority : TicketPriority → TicketPriority
next_priority low = normal
next_priority normal = high
next_priority high = urgent
next_priority urgent = urgent

unfoldable pub raise_priority : DueTarget → List Ask
raise_priority entry =
    if same_priority (next_priority entry.priority) entry.priority
    then []
    else raises entry.ticket_id (next_priority entry.priority) ∷ []

unfoldable pub reassign_calls : EscalationRuleRow → DueTarget → List Ask
reassign_calls rule entry =
    (elim rule.reassign_to_team_id [ none ↦ [] | some team ↦ moves_team entry.ticket_id team ∷ [] ])
    ++ (elim rule.reassign_to_user_id [
      | none ↦ []
      | some user ↦
          if opt_eq (some user) entry.assigned_to_user_id
          then []
          else assigns entry.ticket_id user ∷ []
    ])

-- `recipients.add`
abbrev pub add_recipient : List Uuid → Uuid → List Uuid
add_recipient recipients user =
    if any (λ u. u == user) recipients then recipients else recipients ++ (user ∷ [])

unfoldable pub add_recipients : List Uuid → List Uuid → List Uuid
add_recipients recipients [] = recipients
add_recipients recipients (user ∷ users) = add_recipients (add_recipient recipients user) users

unfoldable pub notices : Uuid → List Uuid → List Ask
notices ticket_id [] = []
notices ticket_id (user ∷ users) = notifies ticket_id user ∷ notices ticket_id users

module _ (team_members : Uuid → Option (List Uuid)) where
  unfoldable pub notify_targets : EscalationRuleRow → List Uuid
  unfolding add_recipients
  notify_targets rule =
      let first : List Uuid = elim rule.notify_user_id [ none ↦ [] | some user ↦ user ∷ [] ] in
      elim rule.notify_team_id [
        | none ↦ first
        | some team ↦ elim (team_members team) [
          | none ↦ first
          | some users ↦ add_recipients first users
        ]
      ]

  unfoldable pub carry_out : EscalationRuleRow → DueTarget → List Ask
  unfolding notify_targets reassign_calls raise_priority notices
  carry_out rule entry =
      (if notifies_by rule.action then notices entry.ticket_id (notify_targets rule) else [])
      ++ (if reassigns_by rule.action then reassign_calls rule entry else [])
      ++ (if rule.raise_priority then raise_priority entry else [])
