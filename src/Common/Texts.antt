-- ===== src/Common/Texts.antt =====
-- Texts as lists of character codes: the tests of the runtime that the components share.
use Prim.Native.Nat.{ℕ}
use mathlib.Core.Bool.{Bool, true, false, ◌&&◌}
use mathlib.Core.List.{List, [], ◌∷◌}
use prime_focus_css_api.Common.Tests.{◌==◌}

-- `text.startsWith(prefix)`, the prefix first.
unfoldable pub starts_with : List ℕ → List ℕ → Bool
starts_with [] text = true
starts_with (c ∷ cs) [] = false
starts_with (c ∷ cs) (d ∷ ds) = c == d && starts_with cs ds
