-- ===== src/Escalation/Model.antt =====
-- src/modules/escalation/escalation.model.ts, the entry of a pass, and which rules apply to it.
use prime_focus_css_api.Common.{
  ℕ, Bool, true, false, not, ◌&&◌, Option, none, some, List, ◌++◌, leb, ◌==◌, is_some,
  if◌then◌else◌, Uuid, Instant,
}
use prime_focus_css_api.Common.Errors.{Result, ok, err, validation}
use prime_focus_css_api.Sla.Store.{SlaTargetKind, TicketSlaTargetRow, same_kind}
use prime_focus_css_api.Ticket.Model.{TicketPriority, same_priority}

pub data EscalationAction : Type 0 where
  notify reassign notify_and_reassign : EscalationAction

pub record EscalationRuleRow : Type 0 where
  pub id : Uuid
  pub product_id : Option Uuid
  pub priority : Option TicketPriority
  pub target_kind : Option SlaTargetKind
  pub threshold_percent : ℕ
  pub action : EscalationAction
  pub notify_user_id : Option Uuid
  pub notify_team_id : Option Uuid
  pub reassign_to_user_id : Option Uuid
  pub reassign_to_team_id : Option Uuid
  pub raise_priority : Bool
  pub is_active : Bool

pub record EscalationRow : Type 0 where
  pub ticket_id : Uuid
  pub rule_id : Uuid
  pub target_id : Uuid
  pub threshold_percent : ℕ
  pub action : EscalationAction
  pub from_user_id : Option Uuid
  pub to_user_id : Option Uuid
  pub triggered_at : Instant

-- `DueTarget`, without what only stands in texts.
pub record DueTarget : Type 0 where
  pub target : TicketSlaTargetRow
  pub ticket_id : Uuid
  pub product_id : Uuid
  pub priority : TicketPriority
  pub assigned_to_user_id : Option Uuid

-- The calls to other modules.
pub data Ask : Type 0 where
  notifies : Uuid → Uuid → Ask
  moves_team assigns : Uuid → Uuid → Ask
  raises : Uuid → TicketPriority → Ask
  publishes : Uuid → Uuid → Ask

pub record Ladder : Type 0 where
  pub escalations : List EscalationRow
  pub audited : List Uuid
  pub asked : List Ask

abbrev pub asks : List Ask → Ladder → Ladder
asks calls w = record w { asked = w.asked ++ calls }

abbrev pub notifies_by : EscalationAction → Bool
notifies_by reassign = false
notifies_by _ = true

abbrev pub reassigns_by : EscalationAction → Bool
reassigns_by notify = false
reassigns_by _ = true

unfoldable pub assert_action_is_achievable : EscalationRuleRow → Result (Unit {0})
assert_action_is_achievable rule =
    if notifies_by rule.action
      && not (is_some rule.notify_user_id)
      && not (is_some rule.notify_team_id)
    then err validation
    else if reassigns_by rule.action
        && not (is_some rule.reassign_to_user_id)
        && not (is_some rule.reassign_to_team_id)
    then err validation
    else ok tt

-- `column !== null && column !== value`, turned around.
abbrev pub matches {ℓ} : {A : Type ℓ} → (A → A → Bool) → Option A → A → Bool
matches same none value = true
matches same (some wanted) value = same wanted value

unfoldable pub rule_applies : EscalationRuleRow → DueTarget → ℕ → Bool
rule_applies rule entry consumed_percent =
    rule.is_active
    && matches (λ a b. a == b) rule.product_id entry.product_id
    && matches same_priority rule.priority entry.priority
    && matches same_kind rule.target_kind entry.target.kind
    && leb rule.threshold_percent consumed_percent
