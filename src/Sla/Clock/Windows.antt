-- ===== src/Sla/Clock/Windows.antt =====
-- modules/sla/sla.clock.ts, "window parsing": `HH:MM` texts as lists of character codes, and the
-- usable windows of a weekday.
use prime_focus_css_api.Common.{
  ℕ, zero, suc, ◌+◌, ◌-◌, ◌*◌, Bool, ◌&&◌, ◌||◌, Option, none, some, List, [], ◌∷◌, ltb, leb, ◌==◌,
  if◌then◌else◌,
}
use mathlib.Core.List.{reverse}

abbrev pub Text : Type 0
Text = List ℕ

-- `BusinessHoursWindow`
pub record BusinessHoursWindow : Type 0 where
  pub day : ℕ
  pub opens_at : Text
  pub closes_at : Text

pub record Window : Type 0 where
  pub start_minute : ℕ
  pub end_minute : ℕ

abbrev pub day_minutes : ℕ
day_minutes = 1440

-- The white space that `String.prototype.trim` removes.
unfoldable pub is_space : ℕ → Bool
is_space c =
    (leb 9 c && leb c 13)
    || c == 32
    || c == 160
    || c == 0x1680
    || (leb 0x2000 c && leb c 0x200a)
    || c == 0x2028
    || c == 0x2029
    || c == 0x202f
    || c == 0x205f
    || c == 0x3000
    || c == 0xfeff

unfoldable pub trim_start : Text → Text
unfolding is_space
trim_start [] = []
trim_start (c ∷ s) = let rest = trim_start s in if is_space c then rest else c ∷ s

unfoldable pub trim : Text → Text
unfolding trim_start
trim s = reverse (trim_start (reverse (trim_start s)))

abbrev pub is_digit : ℕ → Bool
is_digit c = leb b'0' c && leb c b'9'

abbrev pub is_tens : ℕ → Bool
is_tens c = leb b'0' c && leb c b'5'

-- The groups of `/^(\d{1,2}):([0-5]\d)$/`, as numbers.
unfoldable pub match_time : Text → Option (ℕ × ℕ)
match_time (h ∷ c ∷ t ∷ u ∷ []) =
    if is_digit h && c == b':' && is_tens t && is_digit u
    then some (h - b'0', (t - b'0') * 10 + (u - b'0'))
    else none
match_time (g ∷ h ∷ c ∷ t ∷ u ∷ []) =
    if is_digit g && is_digit h && c == b':' && is_tens t && is_digit u
    then some ((g - b'0') * 10 + (h - b'0'), (t - b'0') * 10 + (u - b'0'))
    else none
match_time _ = none

unfoldable pub total_minutes : Option (ℕ × ℕ) → Option ℕ
total_minutes none = none
total_minutes (some (hour, minute)) =
    let total = hour * 60 + minute in if ltb day_minutes total then none else some total

unfoldable pub parse_time_of_day : Text → Option ℕ
unfolding match_time total_minutes trim
parse_time_of_day value = total_minutes (match_time (trim value))

unfoldable pub keep_window : Option Window → List Window → List Window
keep_window none ws = ws
keep_window (some w) ws = w ∷ ws

unfoldable pub window_of : Option ℕ → Option ℕ → Option Window
window_of (some s) (some e) =
    if leb e s then none else some (record { start_minute = s; end_minute = e })
window_of _ _ = none

-- The entries of one weekday, those that end before they start or cannot be read left out.
unfoldable pub usable_windows : List BusinessHoursWindow → ℕ → List Window
unfolding window_of keep_window parse_time_of_day
usable_windows [] day = []
usable_windows (entry ∷ weekly) day =
    let rest = usable_windows weekly day in
    if entry.day == day
    then keep_window
        (window_of (parse_time_of_day entry.opens_at) (parse_time_of_day entry.closes_at)) rest
    else rest

-- `Array.prototype.sort` is stable: an equal start keeps its place.
unfoldable pub insert_window : Window → List Window → List Window
insert_window w [] = w ∷ []
insert_window w (v ∷ vs) =
    let rest = insert_window w vs in
    if leb w.start_minute v.start_minute then w ∷ v ∷ vs else v ∷ rest

unfoldable pub sort_windows : List Window → List Window
unfolding insert_window
sort_windows [] = []
sort_windows (w ∷ ws) = insert_window w (sort_windows ws)

unfoldable pub windows_for_day : List BusinessHoursWindow → ℕ → List Window
unfolding usable_windows sort_windows parse_time_of_day
windows_for_day weekly day = sort_windows (usable_windows weekly day)

unfoldable pub open_minutes : List Window → ℕ
open_minutes [] = 0
open_minutes (w ∷ ws) = (w.end_minute - w.start_minute) + open_minutes ws

-- `total` over the days from `day`, `n` of them.
unfoldable pub open_minutes_from : List BusinessHoursWindow → ℕ → ℕ → ℕ
unfolding windows_for_day open_minutes
open_minutes_from weekly zero day = 0
open_minutes_from weekly (suc n) day =
    open_minutes (windows_for_day weekly day) + open_minutes_from weekly n (day + 1)

unfoldable pub weekly_open_minutes : List BusinessHoursWindow → ℕ
unfolding open_minutes_from
weekly_open_minutes weekly = open_minutes_from weekly 7 0
