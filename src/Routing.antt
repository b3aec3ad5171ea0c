-- ===== src/Routing.antt =====
-- modules/routing/routing.scoring.ts: rule matching and agent selection. A load ratio is compared by
-- cross multiplication. `localeCompare` and `toLowerCase` are the runtime's: `by_name` says how two
-- user ids compare, and `lower` is the lower case of a text.
pub mod Compare
pub mod Best
pub mod Choice
mod Tests
use prime_focus_css_api.Common.{
  ℕ, ◌*◌, max, Bool, true, false, not, ◌&&◌, ◌||◌, Option, some, none, List, [], ◌∷◌, leb, ltb,
  ◌==◌, if◌then◌else◌, is_some, is_none, or_else, any, select_where, Uuid, Instant,
}
use prime_focus_css_api.Routing.Compare.{Order, earlier, tied, later, and_then, by_number, opposite}
use prime_focus_css_api.Sla.Clock.{same_text}
use prime_focus_css_api.Sla.Clock.Windows.{Text}
use prime_focus_css_api.Ticket.Model.{TicketPriority, same_priority, TicketChannel, same_channel}

pub data CustomerTier : Type 0 where
  standard priority vip : CustomerTier

abbrev pub same_tier : CustomerTier → CustomerTier → Bool
same_tier standard standard = true
same_tier priority priority = true
same_tier vip vip = true
same_tier _ _ = false

pub data AgentAvailability : Type 0 where
  online away offline : AgentAvailability

pub record RoutingCriteria : Type 0 where
  pub product_id : Uuid
  pub category_id : Option Uuid
  pub priority : TicketPriority
  pub channel : TicketChannel
  pub customer_tier : CustomerTier
  pub language : Text

pub record RoutingCandidate : Type 0 where
  pub user_id : Uuid
  pub availability : AgentAvailability
  pub open_tickets : ℕ
  pub max_open_tickets : ℕ
  pub skill_proficiency : Option ℕ
  pub last_assigned_at : Option Instant
  pub team_ids : List Uuid

pub record AgentSelectionOptions : Type 0 where
  pub team_id : Option Uuid
  pub required_skill : Option Text
  pub allow_away : Bool

pub record RoutingRuleRow : Type 0 where
  pub id : Uuid
  pub product_id : Option Uuid
  pub category_id : Option Uuid
  pub priority : Option TicketPriority
  pub channel : Option TicketChannel
  pub customer_tier : Option CustomerTier
  pub language : Option Text
  pub required_skill : Option Text
  pub assign_to_team_id : Option Uuid
  pub is_active : Bool

pub record RoutingDecision : Type 0 where
  pub rule : Option RoutingRuleRow
  pub team_id : Option Uuid
  pub required_skill : Option Text

-- `wanted === null || wanted === actual`
abbrev pub states {ℓ κ} : {A : Type ℓ} {B : Type κ} → (A → B → Bool) → Option A → B → Bool
states same none actual = true
states same (some wanted) actual = same wanted actual

-- `rule.categoryId === criteria.categoryId`, where the second may be null.
abbrev pub same_category : Uuid → Option Uuid → Bool
same_category wanted none = false
same_category wanted (some actual) = wanted == actual

-- Whether a skill is asked for: the empty string is falsy.
abbrev pub is_named : Option Text → Bool
is_named none = false
is_named (some []) = false
is_named (some (_ ∷ _)) = true

module _ (lower : Text → Text) where
  unfoldable pub rule_matches : RoutingRuleRow → RoutingCriteria → Bool
  rule_matches rule criteria =
      if not rule.is_active
      then false
      else if not (states (λ a b. a == b) rule.product_id criteria.product_id)
      then false
      else if not (states same_category rule.category_id criteria.category_id)
      then false
      else if not (states same_priority rule.priority criteria.priority)
      then false
      else if not (states same_channel rule.channel criteria.channel)
      then false
      else if not (states same_tier rule.customer_tier criteria.customer_tier)
      then false
      else states (λ a b. same_text (lower a) (lower b)) rule.language criteria.language

  unfoldable pub decide : List RoutingRuleRow → RoutingCriteria → Option Uuid → RoutingDecision
  decide [] criteria fallback_team_id = record {
    rule = none;
    team_id = fallback_team_id;
    required_skill = none;
  }
  decide (rule ∷ rules) criteria fallback_team_id =
      let rest = decide rules criteria fallback_team_id in
      if rule_matches rule criteria
      then record {
        rule = some rule;
        team_id =
            if is_some rule.assign_to_team_id then rule.assign_to_team_id else fallback_team_id;
        required_skill = rule.required_skill;
      }
      else rest

abbrev pub is_available : RoutingCandidate → AgentSelectionOptions → Bool
is_available c options = elim c.availability [
  | online ↦ true
  | away ↦ options.allow_away
  | offline ↦ false
]

unfoldable pub is_eligible : RoutingCandidate → AgentSelectionOptions → Bool
is_eligible c options =
    if not (is_available c options)
    then false
    else if leb c.max_open_tickets c.open_tickets
    then false
    else if is_named options.required_skill && is_none c.skill_proficiency
    then false
    else elim options.team_id [ none ↦ true | some team ↦ any (λ t. t == team) c.team_ids ]

-- The load of two agents, as fractions of their own limits.
abbrev pub by_load : RoutingCandidate → RoutingCandidate → Order
by_load left right =
    by_number (left.open_tickets * max 1 right.max_open_tickets)
      (right.open_tickets * max 1 left.max_open_tickets)

abbrev pub by_skill : RoutingCandidate → RoutingCandidate → Order
by_skill left right =
    by_number (or_else right.skill_proficiency 0) (or_else left.skill_proficiency 0)

abbrev pub by_last_assigned : RoutingCandidate → RoutingCandidate → Order
by_last_assigned left right =
    by_number (or_else left.last_assigned_at 0) (or_else right.last_assigned_at 0)

pub data Relaxed : Type 0 where
  exact team team_and_skill : Relaxed

abbrev pub without_team : AgentSelectionOptions → AgentSelectionOptions
without_team options = record options { team_id = none }

abbrev pub without_skill : AgentSelectionOptions → AgentSelectionOptions
without_skill options = record options { team_id = none; required_skill = none }

-- `[0] ?? null`
abbrev pub first_of : List RoutingCandidate → Option RoutingCandidate
first_of [] = none
first_of (c ∷ _) = some c

module _ (by_name : Uuid → Uuid → Order) where
  unfoldable pub compare_candidates : RoutingCandidate → RoutingCandidate → Order
  compare_candidates left right = and_then (by_load left right) (
      and_then (by_skill left right)
        (and_then (by_last_assigned left right) (by_name left.user_id right.user_id)))

  -- `sort(compareCandidates)`, which is stable.
  unfoldable pub insert_candidate : RoutingCandidate → List RoutingCandidate → List RoutingCandidate
  insert_candidate c [] = c ∷ []
  insert_candidate c (d ∷ ds) =
      let rest = insert_candidate c ds in
      elim (compare_candidates c d) [ later ↦ d ∷ rest | _ ↦ c ∷ d ∷ ds ]

  unfoldable pub sort_candidates : List RoutingCandidate → List RoutingCandidate
  unfolding insert_candidate
  sort_candidates [] = []
  sort_candidates (c ∷ cs) = insert_candidate c (sort_candidates cs)

  unfoldable pub choose_agent :
      List RoutingCandidate → AgentSelectionOptions → Option RoutingCandidate
  unfolding sort_candidates
  choose_agent candidates options =
      first_of (sort_candidates (select_where (λ c. is_eligible c options) candidates))

  -- The last attempt.
  unfoldable pub choose_without_skill :
      List RoutingCandidate → AgentSelectionOptions → Option RoutingCandidate × Relaxed
  choose_without_skill candidates options =
      if is_named options.required_skill
      then elim (choose_agent candidates (without_skill options)) [
        | some agent ↦ (some agent, team_and_skill)
        | none ↦ (none, exact)
      ]
      else (none, exact)

  unfoldable pub choose_agent_with_fallback :
      List RoutingCandidate → AgentSelectionOptions → Option RoutingCandidate × Relaxed
  unfolding choose_without_skill
  choose_agent_with_fallback candidates options = elim (choose_agent candidates options) [
    | some agent ↦ (some agent, exact)
    | none ↦
        if is_some options.team_id
        then elim (choose_agent candidates (without_team options)) [
          | some agent ↦ (some agent, team)
          | none ↦ choose_without_skill candidates options
        ]
        else choose_without_skill candidates options
  ]
