-- ===== src/Routing/Choice.antt =====
-- modules/routing/routing.scoring.ts: which rule decides, and what relaxing the constraints may and
-- may not do.
use prime_focus_css_api.Common.{
  ◌≡◌, refl, sym, ◌∙◌, Bool, true, false, not, ◌&&◌, Option, some, none, List, [], ◌∷◌, ◌++◌, arith,
  inl, inr, leb, All, Bool-cases, Option-cases, is_some, Uuid,
}
use prime_focus_css_api.Sla.Clock.Windows.{Text}
use prime_focus_css_api.Routing.{
  RoutingCandidate, RoutingCriteria, RoutingRuleRow, AgentSelectionOptions, rule_matches, decide,
  is_available, is_eligible, is_named, choose_agent, Relaxed, exact, team, team_and_skill,
  without_team, without_skill, choose_without_skill, choose_agent_with_fallback,
}
use prime_focus_css_api.Routing.Compare.{Order, IsOrder}
use prime_focus_css_api.Routing.Best.{Among, All-weaken, choose_agent-best, choose_agent-none}

-- After rules that do not match, a rule that does is the one that decides; where none matches, no
-- rule decides and the ticket goes to the fallback team.
decide_first :
    (lower : Text → Text) (passed : List RoutingRuleRow) (rule : RoutingRuleRow)
    (rest : List RoutingRuleRow) (criteria : RoutingCriteria) (fallback : Option Uuid)
    → All (λ r. rule_matches lower r criteria ≡ false) passed
    → (rule_matches lower rule criteria ≡ true
        → (decide lower (passed ++ (rule ∷ rest)) criteria fallback).rule ≡ some rule)
      × ((decide lower passed criteria fallback).rule ≡ none)
      × ((decide lower passed criteria fallback).team_id ≡ fallback)
unfolding decide
decide_first lower [] rule rest criteria fallback h = (λ m. rw m refl, refl, refl)
decide_first lower (p ∷ ps) rule rest criteria fallback (h, hs) =
    rw (h, decide) (decide_first lower ps rule rest criteria fallback hs)

-- Free: available under the options, and below their own limit.
abbrev pub is_free : RoutingCandidate → AgentSelectionOptions → Bool
is_free c options = is_available c options && not (leb c.max_open_tickets c.open_tickets)

eligible-free :
    (c : RoutingCandidate) (options : AgentSelectionOptions)
    → is_eligible c options ≡ true
    → is_free c options ≡ true
unfolding is_eligible
eligible-free c options h = ground arith

free-eligible :
    (c : RoutingCandidate) (options : AgentSelectionOptions)
    → is_named options.required_skill ≡ false
    → options.team_id ≡ none
    → is_free c options ≡ true
    → is_eligible c options ≡ true
unfolding is_eligible
free-eligible c options no_skill no_team h = ground arith

not-free :
    (cs : List RoutingCandidate) (options asked : AgentSelectionOptions)
    → is_named asked.required_skill ≡ false
    → asked.team_id ≡ none
    → asked.allow_away ≡ options.allow_away
    → All (λ c. is_eligible c asked ≡ false) cs
    → All (λ c. is_free c options ≡ false) cs
not-free cs options asked no_skill no_team same h = All-weaken cs one h
  where
    one : (c : RoutingCandidate) → is_eligible c asked ≡ false → is_free c options ≡ false
    one c out = elim (Bool-cases (is_free c asked)) [
      | inl free ↦ cc (sym out ∙ free-eligible c asked no_skill no_team free)
      | inr busy ↦ rw (← same) busy
    ]

module _ (by_name : Uuid → Uuid → Order) (candidates : List RoutingCandidate)
    (options : AgentSelectionOptions) where
  -- The attempts in their order, and what each says of the ones before it.
  pub data Attempt : Option RoutingCandidate × Relaxed → Type 0 where
    exactly :
        (agent : RoutingCandidate)
        → choose_agent by_name candidates options ≡ some agent
        → Attempt (some agent, exact)
    team_dropped :
        (agent : RoutingCandidate)
        → All (λ c. is_eligible c options ≡ false) candidates
        → choose_agent by_name candidates (without_team options) ≡ some agent
        → Attempt (some agent, team)
    skill_dropped :
        (agent : RoutingCandidate)
        → All (λ c. is_eligible c options ≡ false) candidates
        → All (λ c. is_eligible c (without_team options) ≡ false) candidates
        → choose_agent by_name candidates (without_skill options) ≡ some agent
        → Attempt (some agent, team_and_skill)
    nobody : All (λ c. is_free c options ≡ false) candidates → Attempt (none, exact)

  last-Attempt :
      All (λ c. is_eligible c options ≡ false) candidates
      → All (λ c. is_eligible c (without_team options) ≡ false) candidates
      → Attempt (choose_without_skill by_name candidates options)
  unfolding choose_without_skill
  last-Attempt none_exact none_team = elim (Bool-cases (is_named options.required_skill)) [
    | inr unnamed ↦
        rw unnamed
          (nobody (not-free candidates options (without_team options) unnamed refl refl none_team))
    | inl named ↦
        rw named (elim (Option-cases (choose_agent by_name candidates (without_skill options))) [
          | inr (agent, found) ↦ rw found (skill_dropped agent none_exact none_team found)
          | inl gone ↦ rw gone (
              nobody (
                not-free candidates options (without_skill options) refl refl refl
                  (choose_agent-none by_name candidates (without_skill options) gone)))
        ])
  ]

  same_without_team :
      is_some options.team_id ≡ false
      → (c : RoutingCandidate) → is_eligible c options ≡ false
      → is_eligible c (without_team options) ≡ false
  unfolding is_eligible
  same_without_team no_team c h = ground arith

  -- chooseAgentWithFallback gives an agent without the team, or without the team and the skill,
  -- only after nobody was eligible under the constraints tried before, and gives nobody only when
  -- every candidate is unavailable or at their limit.
  pub choose_agent_with_fallback-Attempt :
      Attempt (choose_agent_with_fallback by_name candidates options)
  unfolding choose_agent_with_fallback
  choose_agent_with_fallback-Attempt =
      elim (Option-cases (choose_agent by_name candidates options)) [
        | inr (agent, found) ↦ rw (found, choose_agent_with_fallback) (exactly agent found)
        | inl gone ↦
            let none_exact = choose_agent-none by_name candidates options gone in
            elim (Bool-cases (is_some options.team_id)) [
              | inr no_team ↦
                  rw (gone, choose_agent_with_fallback)
                    (rw no_team (
                      last-Attempt none_exact
                        (All-weaken candidates (same_without_team no_team) none_exact)))
              | inl has_team ↦
                  elim (Option-cases (choose_agent by_name candidates (without_team options))) [
                    | inr (agent, found) ↦
                        rw (gone, choose_agent_with_fallback)
                          (rw has_team (rw found (team_dropped agent none_exact found)))
                    | inl gone' ↦
                        rw (gone, choose_agent_with_fallback)
                          (rw has_team (
                            rw gone' (
                              last-Attempt none_exact (
                                choose_agent-none by_name candidates (without_team options)
                                  gone'))))
                  ]
            ]
      ]

-- When names are ordered, the agent of chooseAgentWithFallback is one of the candidates, available
-- under the options and below their own limit, whatever was relaxed.
pub choose_agent_with_fallback-free :
    (by_name : Uuid → Uuid → Order) (candidates : List RoutingCandidate)
    (options : AgentSelectionOptions) (agent : RoutingCandidate) (relaxed : Relaxed)
    → IsOrder by_name
    → choose_agent_with_fallback by_name candidates options ≡ (some agent, relaxed)
    → Among agent candidates × (is_free agent options ≡ true)
choose_agent_with_fallback-free by_name candidates options agent relaxed named e =
    let a : Attempt by_name candidates options (some agent, relaxed) =
      rw e at (choose_agent_with_fallback-Attempt by_name candidates options) in
    go relaxed a
  where
    chosen :
        (asked : AgentSelectionOptions)
        → asked.allow_away ≡ options.allow_away
        → choose_agent by_name candidates asked ≡ some agent
        → Among agent candidates × (is_free agent options ≡ true)
    chosen asked same h =
        let (among, eligible, _) = choose_agent-best by_name named candidates asked agent h in
        (among, rw (← same) (eligible-free agent asked eligible))

    go :
        (r : Relaxed)
        → Attempt by_name candidates options (some agent, r)
        → Among agent candidates × (is_free agent options ≡ true)
    go exact (exactly agent h) = chosen options refl h
    go team (team_dropped agent _ h) = chosen (without_team options) refl h
    go team_and_skill (skill_dropped agent _ _ h) = chosen (without_skill options) refl h
