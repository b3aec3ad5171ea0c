-- ===== src/Common/Doubles/Rounding.antt =====
-- What rounding to 53 bits keeps.
use Prim.Native.Nat.{◌^◌}
use native.Mathlib.Nat.{
  pow-suc, one-le-pow, le-div_iff_mul-le, div-lt_iff_lt-mul, mul-div_left, mul-mod_left,
}
use prime_focus_css_api.Common.{
  ℕ, zero, suc, ◌+◌, ◌-◌, ◌*◌, ◌/◌, ◌%◌, ◌≡◌, ap, ◌∙◌, ◌==◌, ◌≤◌, ◌<◌, arith, leb, inl, inr,
  Bool-cases, ==_iff,
}
use prime_focus_css_api.Common.Doubles.{nearest, places_of, rounded, quotient, one_plus_quotient}
use prime_focus_css_api.Common.Int.{pos, negsuc, sub_ℕ, ◌≤ℤ◌}

regroup : (n p : ℕ) → n * (p * 2) ≡ 2 * n * p
regroup n p = grind arith

shifted : (n k : ℕ) → n * 2 ^ suc k ≡ 2 * n * 2 ^ k
shifted n k = ap (λ (p : ℕ). n * p) (pow-suc 2 k) ∙ regroup n (2 ^ k)

-- Where the fuel is enough for 53 bits, the places that are found are.
places_of-enough :
    (fuel n d : ℕ) → 2 ^ 52 * d ≤ n * 2 ^ fuel → 2 ^ 52 * d ≤ n * 2 ^ places_of fuel n d
unfolding places_of
places_of-enough zero n d h = h
places_of-enough (suc fuel) n d h = elim (Bool-cases (leb (2 ^ 52 * d) n)) [
  | inl here ↦ rw (here, places_of) (ground arith)
  | inr later ↦
      let twice = places_of-enough fuel (2 * n) d (rw (shifted n fuel) at h) in
      rw (later, places_of) (rw (shifted n (places_of fuel (2 * n) d)) twice)
]

mul-le-mul_comm : (p a b : ℕ) → a ≤ b → p * a ≤ b * p
mul-le-mul_comm p a b h = grind arith

mul-le-mul_swap : (p a b : ℕ) → a ≤ b → a * p ≤ p * b
mul-le-mul_swap p a b h = grind arith

nearest-between :
    (n d : ℕ)
    → 0 < d
    → (n / d ≤ nearest n d) × (nearest n d ≤ n / d + 1) × (n % d ≡ 0 → nearest n d ≡ n / d)
unfolding nearest
nearest-between n d pos_d = ground arith

pub nearest-above : (n d m : ℕ) → 0 < d → m * d ≤ n → m ≤ nearest n d
nearest-above n d m pos_d h =
    let (low, _, _) = nearest-between n d pos_d in
    let whole : m ≤ n / d = (le-div_iff_mul-le pos_d).1 h in omega (arith, low, whole)

pub nearest-below : (n d m : ℕ) → 0 < d → n ≤ m * d → nearest n d ≤ m
nearest-below n d m pos_d h =
    let (_, high, exact) = nearest-between n d pos_d in
    elim (Bool-cases (n == m * d)) [
      | inl same ↦
          let e : n ≡ m * d = (==_iff n (m * d)).0 same in
          let none_left : n % d ≡ 0 = ap (λ x. x % d) e ∙ mul-mod_left m d in
          let whole : n / d ≡ m = ap (λ x. x / d) e ∙ mul-div_left m pos_d in
          omega (arith, exact none_left, whole)
      | inr less ↦
          let whole : n / d < m = (div-lt_iff_lt-mul pos_d).1 (ground arith) in
          omega (arith, high, whole)
    ]

-- A quotient that is at least 1 stays so, and one that is at most 1 too.
pub quotient-above :
    (n d : ℕ)
    → 0 < d
    → d ≤ n
    → pos (2 ^ (quotient (pos n) d).places) ≤ℤ (quotient (pos n) d).significand
unfolding quotient rounded
quotient-above n d pos_d h =
    let p = 2 ^ places_of 128 n d in
    omega (arith, nearest-above (n * p) d p pos_d (mul-le-mul_comm p d n h))

pub quotient-below :
    (n d : ℕ)
    → 0 < d
    → n ≤ d
    → (quotient (pos n) d).significand ≤ℤ pos (2 ^ (quotient (pos n) d).places)
unfolding quotient rounded
quotient-below n d pos_d h =
    let p = 2 ^ places_of 128 n d in
    omega (arith, nearest-below (n * p) d p pos_d (mul-le-mul_swap p n d h))

pub one_plus_quotient-above :
    (n d : ℕ) → pos (2 ^ (one_plus_quotient n d).places) ≤ℤ (one_plus_quotient n d).significand
unfolding one_plus_quotient rounded
one_plus_quotient-above n d =
    let q = 2 ^ places_of 128 n d in
    let m = nearest (n * q) d in
    let p = 2 ^ places_of 128 (q + m) q in
    omega (
      arith,
      nearest-above ((q + m) * p) q p (one-le-pow (places_of 128 n d) 2 (omega arith))
          (mul-le-mul_comm p q (q + m) (omega arith)),
    )

quotient-negative :
    (n d : ℕ) → (quotient (negsuc n) d).significand ≤ℤ pos (2 ^ (quotient (negsuc n) d).places)
unfolding quotient
quotient-negative n d = ground arith

pub quotient-sub_below :
    (d r : ℕ)
    → 0 < d
    → (quotient (sub_ℕ d r) d).significand ≤ℤ pos (2 ^ (quotient (sub_ℕ d r) d).places)
quotient-sub_below d r pos_d = elim (Bool-cases (leb r d)) [
  | inl left ↦ rw left (quotient-below (d - r) d pos_d (omega arith))
  | inr over ↦ rw over (quotient-negative (r - d - 1) d)
]
