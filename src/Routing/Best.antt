-- ===== src/Routing/Best.antt =====
-- modules/routing/routing.scoring.ts: the agent at the head of the sorted list is a best one.
use prime_focus_css_api.Common.{
  max, ◌≡◌, refl, sym, ◌∙◌, Bool, true, false, some, none, List, [], ◌∷◌, arith, inl, inr, ◌⊎◌, ◌↔◌,
  All, select_where, All-select_where, Bool-cases, or_else, Uuid,
}
use mathlib.Core.Path.{subst}
use prime_focus_css_api.Routing.{
  RoutingCandidate, AgentSelectionOptions, is_eligible, by_load, by_skill, by_last_assigned,
  compare_candidates, insert_candidate, sort_candidates, first_of, choose_agent,
}
use prime_focus_css_api.Routing.Compare.{
  Order, earlier, later, in_order, IsOrder, by_key-IsOrder, reverse-IsOrder, by_ratio-IsOrder,
  and_then-IsOrder, order-Cases, is_earlier, is_tied, is_later,
}

-- That an agent is one of a list.
abbrev pub Among : RoutingCandidate → List RoutingCandidate → Type 0
Among a [] = ⊥
Among a (c ∷ cs) = (a ≡ c) ⊎ Among a cs

pub All-weaken :
    {P Q : RoutingCandidate → Type 0} (cs : List RoutingCandidate)
    → ((c : RoutingCandidate) → P c → Q c)
    → All P cs
    → All Q cs
All-weaken [] f h = tt
All-weaken (c ∷ cs) f (h, hs) = (f c h, All-weaken cs f hs)

pub All-Among : (cs : List RoutingCandidate) → All (λ c. Among c cs) cs
All-Among [] = tt
All-Among (c ∷ cs) = (inl refl, All-weaken cs (λ d h. inr h) (All-Among cs))

module _ (by_name : Uuid → Uuid → Order) where
  -- When names are ordered, compareCandidates is an order: it turns around with its arguments and
  -- is transitive.
  compare_candidates-IsOrder : IsOrder by_name → IsOrder (compare_candidates by_name)
  unfolding compare_candidates
  compare_candidates-IsOrder named =
      and_then-IsOrder by_load _
        (by_ratio-IsOrder (λ c. c.open_tickets) (λ c. max 1 c.max_open_tickets) (λ c. omega arith))
        (and_then-IsOrder by_skill _ (reverse-IsOrder (λ c. or_else c.skill_proficiency 0)) (
          and_then-IsOrder by_last_assigned _ (by_key-IsOrder (λ c. or_else c.last_assigned_at 0))
            (record {
              flips = λ x y. named.flips x.user_id y.user_id;
              trans = λ x y z. named.trans x.user_id y.user_id z.user_id;
            })))

  insert_candidate-All :
      (P : RoutingCandidate → Type 0) (c : RoutingCandidate) (ds : List RoutingCandidate)
      → (P c × All P ds) ↔ All P (insert_candidate by_name c ds)
  unfolding insert_candidate
  insert_candidate-All P c [] = (λ h. h, λ h. h)
  insert_candidate-All P c (d ∷ ds) =
      let (into, out) = insert_candidate-All P c ds in
      elim (order-Cases (compare_candidates by_name c d)) [
        | is_earlier e ↦ rw (e, insert_candidate) (λ h. h, λ h. h)
        | is_tied e ↦ rw (e, insert_candidate) (λ h. h, λ h. h)
        | is_later e ↦
            rw (e, insert_candidate)
              (
                λ h. let (pc, (pd, pds)) = h in (pd, into (pc, pds)),
                λ h. let (pd, tail) = h in let (pc, pds) = out tail in (pc, (pd, pds)),
              )
      ]

  sort_candidates-All :
      (P : RoutingCandidate → Type 0) (cs : List RoutingCandidate)
      → All P cs ↔ All P (sort_candidates by_name cs)
  unfolding sort_candidates
  sort_candidates-All P [] = (λ h. h, λ h. h)
  sort_candidates-All P (c ∷ cs) =
      let (into, out) = sort_candidates-All P cs in
      let (put, take) = insert_candidate-All P c (sort_candidates by_name cs) in
      (λ h. put (h.0, into h.1), λ h. let (a, b) = take h in (a, out b))

  -- A list in which nobody is later than somebody behind.
  abbrev IsSorted : List RoutingCandidate → Type 0
  IsSorted [] = Unit
  IsSorted (c ∷ cs) = All (λ d. in_order (compare_candidates by_name c d) ≡ true) cs × IsSorted cs

  insert_candidate-IsSorted :
      IsOrder by_name
      → (c : RoutingCandidate) (ds : List RoutingCandidate) → IsSorted ds
      → IsSorted (insert_candidate by_name c ds)
  unfolding insert_candidate
  insert_candidate-IsSorted named c [] h = (tt, tt)
  insert_candidate-IsSorted named c (d ∷ ds) (first, rest) =
      let o = compare_candidates-IsOrder named in
      let behind : in_order (compare_candidates by_name c d) ≡ true
          → All (λ x. in_order (compare_candidates by_name c x) ≡ true) ds =
        λ e. All-weaken ds (λ x. o.trans c d x e) first in
      elim (order-Cases (compare_candidates by_name c d)) [
        | is_earlier e ↦
            let ahead : in_order (compare_candidates by_name c d) ≡ true = rw e refl in
            rw (e, insert_candidate) ((ahead, behind ahead), (first, rest))
        | is_tied e ↦
            let ahead : in_order (compare_candidates by_name c d) ≡ true = rw e refl in
            rw (e, insert_candidate) ((ahead, behind ahead), (first, rest))
        | is_later e ↦
            let ahead : in_order (compare_candidates by_name d c) ≡ true =
              rw (o.flips c d) (rw e refl) in
            rw (e, insert_candidate)
              (
                (insert_candidate-All _ c ds).0 (ahead, first),
                insert_candidate-IsSorted named c ds rest,
              )
      ]

  sort_candidates-IsSorted :
      IsOrder by_name → (cs : List RoutingCandidate) → IsSorted (sort_candidates by_name cs)
  unfolding sort_candidates
  sort_candidates-IsSorted named [] = tt
  sort_candidates-IsSorted named (c ∷ cs) =
      insert_candidate-IsSorted named c (sort_candidates by_name cs)
        (sort_candidates-IsSorted named cs)

  first-All :
      (P : RoutingCandidate → Type 0) (cs : List RoutingCandidate) {a : RoutingCandidate}
      → All P cs
      → first_of cs ≡ some a
      → P a
  first-All P [] h e = cc e
  first-All P (c ∷ cs) {a} h e = let same : c ≡ a = cc e in rw (← same) h.0

  compare_refl :
      IsOrder by_name → (c : RoutingCandidate) → in_order (compare_candidates by_name c c) ≡ true
  compare_refl named c =
      let f = (compare_candidates-IsOrder named).flips c c in
      elim (order-Cases (compare_candidates by_name c c)) [
        | is_earlier e ↦ rw e refl
        | is_tied e ↦ rw e refl
        | is_later e ↦ let g : later ≡ earlier = rw e at f in cc g
      ]

  first-least :
      IsOrder by_name
      → (cs : List RoutingCandidate) {a : RoutingCandidate} → IsSorted cs
      → first_of cs ≡ some a
      → All (λ c. in_order (compare_candidates by_name a c) ≡ true) cs
  first-least named [] h e = tt
  first-least named (c ∷ cs) {a} h e =
      let same : c ≡ a = cc e in
      (
        subst (λ x. in_order (compare_candidates by_name x c) ≡ true) same (compare_refl named c),
        subst (λ x. All (λ d. in_order (compare_candidates by_name x d) ≡ true) cs) same h.0,
      )

  select_where-All :
      (p : RoutingCandidate → Bool) (P : RoutingCandidate → Type 0) (cs : List RoutingCandidate)
      → All P (select_where p cs)
      → All (λ c. p c ≡ true → P c) cs
  unfolding select_where
  select_where-All p P [] h = tt
  select_where-All p P (c ∷ cs) h = elim (Bool-cases (p c)) [
    | inl e ↦
        let h' : P c × All P (select_where p cs) = rw (e, select_where) at h in
        (λ _. h'.0, select_where-All p P cs h'.1)
    | inr e ↦
        let h' : All P (select_where p cs) = rw (e, select_where) at h in
        (λ t. cc (sym e ∙ t), select_where-All p P cs h')
  ]

  selected-All :
      (p : RoutingCandidate → Bool) (cs : List RoutingCandidate)
      → All (λ c. p c ≡ true) (select_where p cs)
  unfolding select_where
  selected-All p [] = tt
  selected-All p (c ∷ cs) = elim (Bool-cases (p c)) [
    | inl e ↦ rw (e, select_where) (e, selected-All p cs)
    | inr e ↦ rw (e, select_where) (selected-All p cs)
  ]

  -- When names are ordered, the agent that chooseAgent gives is one of the candidates, is
  -- eligible, and no eligible candidate is strictly before them.
  pub choose_agent-best :
      IsOrder by_name
      → (candidates : List RoutingCandidate) (options : AgentSelectionOptions)
        (agent : RoutingCandidate)
      → choose_agent by_name candidates options ≡ some agent
      → Among agent candidates
        × (is_eligible agent options ≡ true)
        × All
            (λ c.
              is_eligible c options ≡ true → in_order (compare_candidates by_name agent c) ≡ true)
            candidates
  unfolding choose_agent
  choose_agent-best named candidates options agent e =
      let ok = λ (c : RoutingCandidate). is_eligible c options in
      let eligible = select_where ok candidates in
      let up = λ (P : RoutingCandidate → Type 0). sort_candidates-All P eligible in
      (
        first-All (λ a. Among a candidates) _
            ((up (λ a. Among a candidates)).0
              (All-select_where (λ a. Among a candidates) ok candidates (All-Among candidates)))
            e,
        first-All (λ a. ok a ≡ true) _ ((up (λ a. ok a ≡ true)).0 (selected-All ok candidates)) e,
        select_where-All ok _ candidates (
            (up (λ c. in_order (compare_candidates by_name agent c) ≡ true)).1
              (first-least named _ (sort_candidates-IsSorted named eligible) e)),
      )

  insert_candidate-first :
      (c : RoutingCandidate) (ds : List RoutingCandidate)
      → first_of (insert_candidate by_name c ds) ≡ none
      → ⊥
  unfolding insert_candidate
  insert_candidate-first c [] e = cc e
  insert_candidate-first c (d ∷ ds) e = elim (order-Cases (compare_candidates by_name c d)) [
    | is_earlier q ↦ cc (rw (q, insert_candidate) at e)
    | is_tied q ↦ cc (rw (q, insert_candidate) at e)
    | is_later q ↦ cc (rw (q, insert_candidate) at e)
  ]

  -- Nobody is chosen only when nobody is eligible.
  pub choose_agent-none :
      (candidates : List RoutingCandidate) (options : AgentSelectionOptions)
      → choose_agent by_name candidates options ≡ none
      → All (λ c. is_eligible c options ≡ false) candidates
  unfolding choose_agent sort_candidates select_where
  choose_agent-none [] options e = tt
  choose_agent-none (c ∷ cs) options e = elim (Bool-cases (is_eligible c options)) [
    | inl q ↦ absurd (insert_candidate-first c _ (rw (q, select_where) at e))
    | inr q ↦ (q, choose_agent-none cs options (rw (q, select_where) at e))
  ]
