-- ===== src/Routing/Compare.antt =====
-- modules/routing/routing.scoring.ts: comparators, what makes one an order, and how they combine.
use native.Mathlib.Nat.{mul-le-mul_right, le_of_mul-le-mul_right}
use prime_focus_css_api.Common.{ℕ, ◌*◌, ◌≤◌, ◌<◌, ◌≡◌, refl, Bool, true, false, arith, ltb}

-- The sign of a comparator's result.
pub data Order : Type 0 where
  earlier tied later : Order

abbrev pub opposite : Order → Order
opposite earlier = later
opposite tied = tied
opposite later = earlier

-- `if (left !== right) return left - right`, and the rest.
abbrev pub and_then : Order → Order → Order
and_then tied rest = rest
and_then earlier _ = earlier
and_then later _ = later

abbrev pub by_number : ℕ → ℕ → Order
by_number a b = elim (ltb a b) [
  | true ↦ earlier
  | false ↦ elim (ltb b a) [ true ↦ later | false ↦ tied ]
]

abbrev pub in_order : Order → Bool
in_order later = false
in_order _ = true

-- A comparator that a sort may be given.
pub record IsOrder {ℓ} {A : Type ℓ} (cmp : A → A → Order) : Type ℓ where
  pub flips : (x y : A) → cmp y x ≡ opposite (cmp x y)
  pub trans :
      (x y z : A)
      → in_order (cmp x y) ≡ true
      → in_order (cmp y z) ≡ true
      → in_order (cmp x z) ≡ true

pub by_number-IsOrder : IsOrder by_number
by_number-IsOrder = record { flips = λ x y. ground arith; trans = λ x y z h k. ground arith }

-- Fractions by cross multiplication, the denominators positive.
ratio_trans : (a b c d e f : ℕ) → 0 < d → a * d ≤ c * b → c * f ≤ e * d → a * f ≤ e * b
ratio_trans a b c d e f pos h k =
    let p : (a * d) * f ≤ (c * b) * f = mul-le-mul_right f h in
    let q : (c * f) * b ≤ (e * d) * b = mul-le-mul_right b k in
    let r : (a * f) * d ≤ (e * b) * d = grind arith in le_of_mul-le-mul_right r pos

by_number_le : (a b : ℕ) → in_order (by_number a b) ≡ true → a ≤ b
by_number_le a b h = ground arith

le_by_number : (a b : ℕ) → a ≤ b → in_order (by_number a b) ≡ true
le_by_number a b h = ground arith

pub data Cases (o : Order) : Type 0 where
  is_earlier : o ≡ earlier → Cases o
  is_tied : o ≡ tied → Cases o
  is_later : o ≡ later → Cases o

pub order-Cases : (o : Order) → Cases o
order-Cases earlier = is_earlier refl
order-Cases tied = is_tied refl
order-Cases later = is_later refl

combined_trans :
    (p q r u v w : Order)
    → (in_order p ≡ true → in_order q ≡ true → in_order r ≡ true)
    → (in_order q ≡ true → in_order (opposite r) ≡ true → in_order (opposite p) ≡ true)
    → (in_order (opposite r) ≡ true → in_order p ≡ true → in_order (opposite q) ≡ true)
    → (in_order u ≡ true → in_order v ≡ true → in_order w ≡ true)
    → in_order (and_then p u) ≡ true
    → in_order (and_then q v) ≡ true
    → in_order (and_then r w) ≡ true
combined_trans p q earlier u v w t₁ t₂ t₃ d h k = refl
combined_trans tied tied tied u v w t₁ t₂ t₃ d h k = d h k
combined_trans later q r u v w t₁ t₂ t₃ d h k = cc h
combined_trans p later r u v w t₁ t₂ t₃ d h k = cc k
combined_trans earlier earlier tied u v w t₁ t₂ t₃ d h k = cc (t₂ refl refl)
combined_trans earlier tied tied u v w t₁ t₂ t₃ d h k = cc (t₂ refl refl)
combined_trans tied earlier tied u v w t₁ t₂ t₃ d h k = cc (t₃ refl refl)
combined_trans earlier earlier later u v w t₁ t₂ t₃ d h k = cc (t₁ refl refl)
combined_trans earlier tied later u v w t₁ t₂ t₃ d h k = cc (t₁ refl refl)
combined_trans tied earlier later u v w t₁ t₂ t₃ d h k = cc (t₁ refl refl)
combined_trans tied tied later u v w t₁ t₂ t₃ d h k = cc (t₁ refl refl)

module _ {ℓ} {A : Type ℓ} where
  -- An order read off a number of each item.
  pub by_key-IsOrder : (key : A → ℕ) → IsOrder (λ (x y : A). by_number (key x) (key y))
  by_key-IsOrder key = record {
    flips = λ x y. by_number-IsOrder.flips (key x) (key y);
    trans = λ x y z. by_number-IsOrder.trans (key x) (key y) (key z);
  }

  -- An order turned around.
  pub reverse-IsOrder : (key : A → ℕ) → IsOrder (λ (x y : A). by_number (key y) (key x))
  reverse-IsOrder key = record {
    flips = λ x y. by_number-IsOrder.flips (key y) (key x);
    trans = λ x y z h k. by_number-IsOrder.trans (key z) (key y) (key x) k h;
  }

  -- The order of the fractions `top x / bottom x`.
  pub by_ratio-IsOrder :
      (top bottom : A → ℕ)
      → ((x : A) → 0 < bottom x)
      → IsOrder (λ (x y : A). by_number (top x * bottom y) (top y * bottom x))
  by_ratio-IsOrder top bottom pos = record {
    flips = λ x y. by_number-IsOrder.flips (top x * bottom y) (top y * bottom x);
    trans = λ x y z h k. le_by_number (top x * bottom z) (top z * bottom x) (
        ratio_trans (top x) (bottom x) (top y) (bottom y) (top z) (bottom z) (pos y)
          (by_number_le _ _ h) (by_number_le _ _ k));
  }

  -- Items that tie go to the second order.
  pub and_then-IsOrder :
      (c d : A → A → Order)
      → IsOrder c
      → IsOrder d
      → IsOrder (λ (x y : A). and_then (c x y) (d x y))
  and_then-IsOrder c d oc od = record { flips = flip; trans = chain }
    where
      flip : (x y : A) → and_then (c y x) (d y x) ≡ opposite (and_then (c x y) (d x y))
      flip x y = elim (order-Cases (c x y)) [
        | is_earlier e ↦ rw (oc.flips x y) (rw e refl)
        | is_tied e ↦ rw (oc.flips x y) (rw e (od.flips x y))
        | is_later e ↦ rw (oc.flips x y) (rw e refl)
      ]

      chain :
          (x y z : A)
          → in_order (and_then (c x y) (d x y)) ≡ true
          → in_order (and_then (c y z) (d y z)) ≡ true
          → in_order (and_then (c x z) (d x z)) ≡ true
      chain x y z =
          combined_trans (c x y) (c y z) (c x z) (d x y) (d y z) (d x z) (oc.trans x y z)
            (λ h k. rw (oc.flips x y) at (oc.trans y z x h (rw (oc.flips x z) k)))
            (λ h k. rw (oc.flips y z) at (oc.trans z x y (rw (oc.flips x z) h) k)) (od.trans x y z)
