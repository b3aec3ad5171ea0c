-- ===== src/Escalation/Once.antt =====
-- A rung fires once for a target, and each firing is counted and announced.
use prime_focus_css_api.Common.{
  ℕ, ◌+◌, ◌≤◌, ◌≡◌, refl, Bool, true, false, Option, none, List, [], ◌∷◌, ◌++◌, ◌==◌, inl, inr,
  Bool-cases, Option-cases, ==_iff, and_left, and_right, arith, Uuid, Instant, length, count,
  count-append, find_where, if◌then◌else◌,
}
use prime_focus_css_api.Escalation.{
  EscalationRuleRow, EscalationRow, DueTarget, Ask, publishes, Ladder, is_firing, claim, carry_out,
  firing, apply_rule, fire_all, has_rule, notices, reassign_calls, raise_priority, notify_targets,
}

-- No rule has two firings for one target of one ticket.
abbrev pub Once : Ladder → Type 0
Once w = (t r g : Uuid) → count (is_firing t r g) w.escalations ≤ 1

count-none {ℓ} : {A : Type ℓ} (p : A → Bool) (xs : List A) → find_where p xs ≡ none → count p xs ≡ 0
unfolding count find_where
count-none p [] free = refl
count-none p (x ∷ xs) free = elim (Bool-cases (p x)) [
  | inl u ↦ cc (rw u at free)
  | inr u ↦ rw u (omega (arith, count-none p xs (rw u at free)))
]

count-concat {ℓ} :
    {A : Type ℓ} (p : A → Bool) (xs ys : List A) → count p (xs ++ ys) ≡ count p xs + count p ys
unfolding count
count-concat p [] ys = omega arith
count-concat p (x ∷ xs) ys = omega (arith, count-concat p xs ys)

claim-Once : (values : EscalationRow) (w : Ladder) → Once w → Once (claim values w).1
unfolding claim
claim-Once values w once t r g =
    elim (Option-cases
      (find_where (is_firing values.ticket_id values.rule_id values.target_id) w.escalations)) [
        | inr (row, u) ↦ rw (u, claim) (once t r g)
        | inl u ↦
            let added = count-append (is_firing t r g) w.escalations values in
            let free = count-none _ w.escalations u in
            elim (Bool-cases (is_firing t r g values)) [
              | inr v ↦ rw (u, claim) (omega (arith, rw v at added, once t r g))
              | inl v ↦
                  let same_t = (==_iff values.ticket_id t).0 (and_left _ _ (and_left _ _ v)) in
                  let same_r =
                    (==_iff values.rule_id r).0
                      (and_right (values.ticket_id == t) _ (and_left _ _ v)) in
                  let same_g = (==_iff values.target_id g).0 (and_right _ _ v) in
                  let none_yet : count (is_firing t r g) w.escalations ≡ 0 =
                    rw same_g at (rw same_r at (rw same_t at free)) in
                  rw (u, claim) (omega (arith, rw v at added, none_yet))
            ]
      ]

-- The events that tell of an escalation.
abbrev pub is_publish : Ask → Bool
is_publish (publishes _ _) = true
is_publish _ = false

-- `n` firings were added, and as many events asked for.
abbrev pub Counted : ℕ → Ladder → Ladder → Type 0
Counted n w after =
    (length after.escalations ≡ length w.escalations + n)
    × (count is_publish after.asked ≡ count is_publish w.asked + n)

notices-is_publish :
    (ticket_id : Uuid) (users : List Uuid) → count is_publish (notices ticket_id users) ≡ 0
unfolding notices count
notices-is_publish ticket_id [] = refl
notices-is_publish ticket_id (user ∷ users) = omega (arith, notices-is_publish ticket_id users)

reassign_calls-is_publish :
    (rule : EscalationRuleRow) (entry : DueTarget)
    → count is_publish (reassign_calls rule entry) ≡ 0
unfolding reassign_calls count
reassign_calls-is_publish rule entry = ground arith

raise_priority-is_publish : (entry : DueTarget) → count is_publish (raise_priority entry) ≡ 0
unfolding raise_priority count
raise_priority-is_publish entry = ground arith

length-append_last {ℓ} :
    {A : Type ℓ} (xs : List A) (y : A) → length (xs ++ (y ∷ [])) ≡ length xs + 1
length-append_last [] y = refl
length-append_last (x ∷ xs) y = omega (arith, length-append_last xs y)

module _ (team_members : Uuid → Option (List Uuid)) where
  carry_out-is_publish :
      (rule : EscalationRuleRow) (entry : DueTarget)
      → count is_publish (carry_out team_members rule entry) ≡ 0
  unfolding carry_out count
  carry_out-is_publish rule entry = grind (
    arith,
    count-concat is_publish,
    notices-is_publish entry.ticket_id (notify_targets team_members rule),
    reassign_calls-is_publish rule entry,
    raise_priority-is_publish entry,
  )

  apply_rule-Counted :
      (rule : EscalationRuleRow) (entry : DueTarget) (now : Instant) (w : Ladder)
      → let (fired, after) = apply_rule team_members rule entry now w in
        Counted (if fired then 1 else 0) w after
  unfolding apply_rule claim count
  apply_rule-Counted rule entry now w =
      let row = firing team_members rule entry now in
      elim (Option-cases
        (find_where (is_firing row.ticket_id row.rule_id row.target_id) w.escalations)) [
          | inr (there, u) ↦ rw (u, claim, apply_rule) (omega arith, omega arith)
          | inl u ↦
              let told = publishes entry.ticket_id rule.id in
              let calls = carry_out team_members rule entry in
              let all_told = count-concat is_publish w.asked (calls ++ (told ∷ [])) in
              let told_once = count-append is_publish calls told in
              rw (u, claim, apply_rule)
                (
                  length-append_last w.escalations row,
                  omega (arith, all_told, told_once, carry_out-is_publish rule entry),
                )
        ]

  apply_rule-Once :
      (rule : EscalationRuleRow) (entry : DueTarget) (now : Instant) (w : Ladder)
      → Once w
      → Once (apply_rule team_members rule entry now w).1
  unfolding apply_rule
  apply_rule-Once rule entry now w once t r g =
      grind (arith, claim-Once (firing team_members rule entry now) w once t r g)

  pub fire_all-Once :
      (rules : List EscalationRuleRow) (seen : List EscalationRow) (entry : DueTarget)
      (now : Instant) (w : Ladder)
      → Once w
      → Once (fire_all team_members rules seen entry now w).1
  unfolding fire_all
  fire_all-Once [] seen entry now w once = once
  fire_all-Once (rule ∷ rules) seen entry now w once = elim (Bool-cases (has_rule rule.id seen)) [
    | inl u ↦ rw (u, fire_all) (fire_all-Once rules seen entry now w once)
    | inr u ↦
        rw (u, fire_all)
          (fire_all-Once rules seen entry now (apply_rule team_members rule entry now w).1
            (apply_rule-Once rule entry now w once))
  ]

  pub fire_all-Counted :
      (rules : List EscalationRuleRow) (seen : List EscalationRow) (entry : DueTarget)
      (now : Instant) (w : Ladder)
      → let (fired, after) = fire_all team_members rules seen entry now w in Counted fired w after
  unfolding fire_all
  fire_all-Counted [] seen entry now w = (omega arith, omega arith)
  fire_all-Counted (rule ∷ rules) seen entry now w = elim (Bool-cases (has_rule rule.id seen)) [
    | inl u ↦ rw (u, fire_all) (fire_all-Counted rules seen entry now w)
    | inr u ↦
        let (rows, told) = apply_rule-Counted rule entry now w in
        let (rows', told') =
          fire_all-Counted rules seen entry now (apply_rule team_members rule entry now w).1 in
        rw (u, fire_all) (omega (arith, rows, rows'), omega (arith, told, told'))
  ]
