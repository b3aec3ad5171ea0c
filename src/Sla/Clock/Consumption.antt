-- ===== src/Sla/Clock/Consumption.antt =====
-- modules/sla/sla.clock.ts: on which side of 1 the share is that consumedFraction gives.
use Prim.Native.Nat.{◌^◌}
use prime_focus_css_api.Common.{
  ℕ, ◌≡◌, ◌≤◌, ◌<◌, ◌==◌, leb, refl, Bool, true, false, Option, ◌⊎◌, inl, inr, arith, Instant,
  or_else, if◌then◌else◌,
}
use prime_focus_css_api.Common.Int.{pos, sub_ℕ, ◌≤ℤ◌}
use prime_focus_css_api.Common.Doubles.{Double, quotient, one_plus_quotient}
use prime_focus_css_api.Common.Doubles.Rounding.{one_plus_quotient-above, quotient-sub_below}
use prime_focus_css_api.Common.Errors.{Result, both-ok, ok, ◌>>=◌}
use prime_focus_css_api.Sla.Clock.{BusinessCalendar, business_minutes_between, consumed_fraction}
use prime_focus_css_api.Sla.Clock.Windows.{Text}
use prime_focus_css_api.Sla.Clock.Zone.{Formatter}

-- A test is decided where its outcome is a value.
if-ok :
    (test : Bool) (x y : Result Double) (f : Double)
    → (if test then x else y) ≡ ok f
    → ((test ≡ true) × (x ≡ ok f)) ⊎ ((test ≡ false) × (y ≡ ok f))
if-ok true x y f e = inl (refl, e)
if-ok false x y f e = inr (refl, e)

module _ (intl : Text → Option Formatter) (calendar : BusinessCalendar) where
  -- Where consumedFraction of a positive target succeeds, the fraction is at least 1 from the
  -- deadline on and at most 1 before it, by the time of the pause or else now.
  consumed_fraction-due :
      (target : ℕ) (due now : Instant) (paused : Option Instant) (f : Double)
      → 0 < target
      → consumed_fraction intl target due paused now calendar ≡ ok f
      → (due ≤ or_else paused now → pos (2 ^ f.places) ≤ℤ f.significand)
        × (or_else paused now < due → f.significand ≤ℤ pos (2 ^ f.places))
  unfolding consumed_fraction
  consumed_fraction-due target due now paused f pos_target e =
      let some_minutes : (target == 0) ≡ false = ground arith in
      let at = or_else paused now in
      let late_value = business_minutes_between intl due at calendar >>= λ overdue.
      ok (one_plus_quotient overdue target) in
      let early_value = business_minutes_between intl at due calendar >>= λ remaining.
      ok (quotient (sub_ℕ target remaining) target) in
      elim (if-ok (leb due at) late_value early_value f
        (rw (some_minutes, consumed_fraction) at e)) [
          | inl (late, e₁) ↦
              let (overdue, _, e₂) = both-ok (business_minutes_between intl due at calendar) _ e₁ in
              let same : one_plus_quotient overdue target ≡ f = cc e₂ in
              (λ _. rw (← same) (one_plus_quotient-above overdue target), λ early. ground arith)
          | inr (early, e₁) ↦
              let (remaining, _, e₂) =
                both-ok (business_minutes_between intl at due calendar) _ e₁ in
              let same : quotient (sub_ℕ target remaining) target ≡ f = cc e₂ in
              (
                λ late. ground arith,
                λ _. rw (← same) (quotient-sub_below target remaining pos_target),
              )
        ]
