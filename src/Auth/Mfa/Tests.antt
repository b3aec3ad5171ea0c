-- ===== src/Auth/Mfa/Tests.antt =====
-- The theorems on guesses at a concrete code.
use prime_focus_css_api.Common.{◌≡◌, refl, [], ◌∷◌, arith, find_where}
use prime_focus_css_api.Common.Errors.{err}
use prime_focus_css_api.Auth.Store.{find_challenge_by_id}
use prime_focus_css_api.Auth.Mfa.Guesses.{
  Guess, guess, guess_all, exhausted_error, guess_all-exhausts,
}
use prime_focus_css_api.Auth.Fixtures.{settings, digest, otp_digest, challenge, database}

abbrev miss : Guess
miss = record { code = 1; at = 100 }

abbrev hit : Guess
hit = record { code = 23; at = 200 }

guess_all-exhausts_example :
    guess settings otp_digest digest 4 hit
      (guess_all settings otp_digest digest 4 (miss ∷ miss ∷ []) database)
    ≡ (
      err (exhausted_error settings otp_digest digest challenge hit),
      guess_all settings otp_digest digest 4 (miss ∷ miss ∷ []) database,
    )
unfolding find_challenge_by_id find_where
guess_all-exhausts_example =
    guess_all-exhausts settings otp_digest digest 4 challenge (miss ∷ miss ∷ []) hit database refl
      refl (omega arith) ((refl, refl), ((refl, refl), tt)) (omega arith)
