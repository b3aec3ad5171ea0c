-- ===== src/Sla/Clock/Texts.antt =====
-- The comparison of two texts, `a === b`.
use prime_focus_css_api.Common.{
  ◌≡◌, refl, true, [], ◌∷◌, ◌==◌, inl, inr, Bool-cases, ==_iff, ==_refl,
}
use prime_focus_css_api.Sla.Clock.{same_text}
use prime_focus_css_api.Sla.Clock.Windows.{Text}

pub same_text_refl : (a : Text) → same_text a a ≡ true
unfolding same_text
same_text_refl [] = refl
same_text_refl (c ∷ cs) = rw (==_refl c) (same_text_refl cs)

pub same_text-eq : (a b : Text) → same_text a b ≡ true → a ≡ b
unfolding same_text
same_text-eq [] [] same = refl
same_text-eq [] (d ∷ ds) same = cc
same_text-eq (c ∷ cs) [] same = cc
same_text-eq (c ∷ cs) (d ∷ ds) same = elim (Bool-cases (c == d)) [
  | inr u ↦ cc (rw u at same)
  | inl u ↦ let rest = same_text-eq cs ds (rw u at same) in cc ((==_iff c d).0 u, rest)
]
