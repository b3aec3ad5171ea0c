-- ===== src/Routing/Tests.antt =====
-- modules/routing/routing.scoring.test.ts: a full-timer and a part-timer, in one team.
use prime_focus_css_api.Common.{
  ◌≡◌, refl, true, false, some, none, List, [], ◌∷◌, All, select_where,
}
use prime_focus_css_api.Sla.Clock.Windows.{Text}
use prime_focus_css_api.Routing.{
  RoutingCandidate, RoutingCriteria, RoutingRuleRow, AgentSelectionOptions, online, offline,
  standard, choose_agent, choose_agent_with_fallback, compare_candidates, is_eligible, rule_matches,
  team,
}
use prime_focus_css_api.Routing.Compare.{in_order, by_number, by_number-IsOrder}
use prime_focus_css_api.Routing.Best.{Among, choose_agent-best, choose_agent-none}
use prime_focus_css_api.Routing.Choice.{
  Attempt, is_free, choose_agent_with_fallback-Attempt, choose_agent_with_fallback-free,
}
use prime_focus_css_api.Ticket.Model.{normal, email}

abbrev full_time : RoutingCandidate
full_time = record {
  user_id = 1;
  availability = online;
  open_tickets = 6;
  max_open_tickets = 20;
  skill_proficiency = none;
  last_assigned_at = none;
  team_ids = 4 ∷ [];
}

-- With fewer tickets, and nearer to their limit.
abbrev part_time : RoutingCandidate
part_time = record full_time { user_id = 2; open_tickets = 3; max_open_tickets = 5 }

abbrev options : AgentSelectionOptions
options = record { team_id = some 4; required_skill = none; allow_away = false }

abbrev agents : List RoutingCandidate
agents = part_time ∷ full_time ∷ []

chooses : choose_agent by_number agents options ≡ some full_time
unfolding choose_agent is_eligible compare_candidates select_where
chooses = refl

choose_agent-best_example :
    Among full_time agents
    × (is_eligible full_time options ≡ true)
    × All
        (λ c.
          is_eligible c options ≡ true → in_order (compare_candidates by_number full_time c) ≡ true)
        agents
choose_agent-best_example =
    choose_agent-best by_number by_number-IsOrder agents options full_time chooses

abbrev absent : RoutingCandidate
absent = record full_time { availability = offline }

chooses_nobody : choose_agent by_number (absent ∷ []) options ≡ none
unfolding choose_agent is_eligible select_where
chooses_nobody = refl

choose_agent-none_example : All (λ c. is_eligible c options ≡ false) (absent ∷ [])
choose_agent-none_example = choose_agent-none by_number (absent ∷ []) options chooses_nobody

abbrev elsewhere : AgentSelectionOptions
elsewhere = record options { team_id = some 9 }

choose_agent_with_fallback-Attempt_example :
    Attempt by_number agents elsewhere (choose_agent_with_fallback by_number agents elsewhere)
choose_agent_with_fallback-Attempt_example =
    choose_agent_with_fallback-Attempt by_number agents elsewhere

relaxes : choose_agent_with_fallback by_number agents elsewhere ≡ (some full_time, team)
unfolding choose_agent_with_fallback choose_agent is_eligible compare_candidates select_where
relaxes = refl

choose_agent_with_fallback-free_example :
    Among full_time agents × (is_free full_time elsewhere ≡ true)
choose_agent_with_fallback-free_example =
    choose_agent_with_fallback-free by_number agents elsewhere full_time team by_number-IsOrder
      relaxes

abbrev catch_all : RoutingRuleRow
catch_all = record {
  id = 1;
  product_id = none;
  category_id = none;
  priority = none;
  channel = none;
  customer_tier = none;
  language = none;
  required_skill = none;
  assign_to_team_id = none;
  is_active = true;
}

abbrev retired : RoutingRuleRow
retired = record catch_all { id = 2; is_active = false }

abbrev criteria : RoutingCriteria
criteria = record {
  product_id = 3;
  category_id = none;
  priority = normal;
  channel = email;
  customer_tier = standard;
  language = b'e' ∷ b'n' ∷ [];
}

abbrev lower : Text → Text
lower t = t

passes : rule_matches lower retired criteria ≡ false
unfolding rule_matches
passes = refl
