-- ===== src/Common/Doubles.antt =====
-- The floating-point numbers of the runtime, as far as a share of a number of minutes needs them:
-- IEEE 754 doubles, 53 bits rounded to nearest and ties to even, of which only numbers below 2 ^ 53
-- with at most 128 binary places are represented.
pub mod Rounding
mod Tests
use Prim.Native.Nat.{◌^◌}
use prime_focus_css_api.Common.{ℕ, zero, suc, ◌+◌, ◌*◌, ◌/◌, ◌%◌, ltb, leb, if◌then◌else◌}
use prime_focus_css_api.Common.Int.{ℤ, pos, negsuc, sub_ℕ}

-- The number significand / 2 ^ places.
pub record Double : Type 0 where
  pub significand : ℤ
  pub places : ℕ

abbrev pub one : Double
one = record { significand = pos 1; places = 0 }

-- The whole number nearest to n / d, and the even one of two that are as near.
unfoldable pub nearest : ℕ → ℕ → ℕ
nearest n d =
    let below = n / d in
    let twice = 2 * (n % d) in
    if ltb twice d then below else if ltb d twice then suc below else below + below % 2

-- The binary places after which n / d has 53 bits.
unfoldable pub places_of : ℕ → ℕ → ℕ → ℕ
places_of zero n d = 0
places_of (suc fuel) n d =
    let rest = places_of fuel (2 * n) d in if leb (2 ^ 52 * d) n then 0 else suc rest

unfoldable pub rounded : ℕ → ℕ → ℕ × ℕ
rounded n d = let places = places_of 128 n d in (nearest (n * 2 ^ places) d, places)

-- `n / d` of two whole numbers.
unfoldable pub quotient : ℤ → ℕ → Double
quotient (pos n) d =
    let (m, places) = rounded n d in record { significand = pos m; places = places }
quotient (negsuc n) d =
    let (m, places) = rounded (suc n) d in record { significand = sub_ℕ 0 m; places = places }

-- `1 + n / d`
unfoldable pub one_plus_quotient : ℕ → ℕ → Double
one_plus_quotient n d =
    let (m, places) = rounded n d in
    let (m', places') = rounded (2 ^ places + m) (2 ^ places) in
    record { significand = pos m'; places = places' }

-- `Math.round(x * 100)`, where it is not negative, and 0 otherwise.
unfoldable pub percent : Double → ℕ
percent x = elim x.significand [
  | negsuc _ ↦ 0
  | pos n ↦
      let (m, places) = rounded (n * 100) (2 ^ x.places) in (2 * m + 2 ^ places) / (2 * 2 ^ places)
]
