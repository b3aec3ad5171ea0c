-- ===== src/Common/Doubles/Tests.antt =====
-- Shares whose percentage is not that of the exact fraction, and one that is a tie.
use prime_focus_css_api.Common.{◌≡◌, refl}
use prime_focus_css_api.Common.Int.{pos, negsuc}
use prime_focus_css_api.Common.Doubles.{
  quotient, one_plus_quotient, percent, rounded, places_of, nearest,
}

rounds_down : percent (quotient (pos 57) 200) ≡ 28
unfolding percent quotient rounded places_of nearest
rounds_down = refl

rounds_up : percent (quotient (pos 1) 200) ≡ 1
unfolding percent quotient rounded places_of nearest
rounds_up = refl

overdue : percent (one_plus_quotient 3 200) ≡ 101
unfolding percent one_plus_quotient rounded places_of nearest
overdue = refl

below_zero : percent (quotient (negsuc 9) 60) ≡ 0
unfolding percent quotient rounded places_of nearest
below_zero = refl
