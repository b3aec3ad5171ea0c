-- ===== src/Auth/Tests.antt =====
-- The theorems on sessions and on signing in at concrete rows.
use prime_focus_css_api.Common.{
  ℕ, ◌+◌, ◌≤◌, ◌<◌, ◌≡◌, refl, ◌↔◌, Bool, true, false, Option, none, some, List, [], ◌∷◌, ◌==◌, inl,
  inr, arith, Uuid, Instant, count, find_where,
}
use prime_focus_css_api.Common.Errors.{ErrorCode, app_error, err}
use prime_focus_css_api.Sla.Clock.Windows.{Text}
use prime_focus_css_api.Sla.Clock.{same_text}
use prime_focus_css_api.Auth.Store.{
  Hash, Secret, SessionRow, PasswordResetTokenRow, OtpChallengeRow, Account, AuthDb, AuthEnv,
  find_account, find_session_by_token_hash, find_password_reset, find_challenge_by_id,
  with_password, rotate, mark_rotated, insert_session,
}
use prime_focus_css_api.Auth.Sessions.{refresh, new_session, session_revoked_error}
use prime_focus_css_api.Auth.Sessions.Counts.{live_count, family_size}
use prime_focus_css_api.Auth.Sessions.Rotation.{CanRefresh, refresh-replay, refresh-rotates}
use prime_focus_css_api.Auth.Sessions.Traces.{
  Single, Steps, refreshes, activates, stop, then_step, Steps-Single,
}
use prime_focus_css_api.Auth.Login.{
  LoginInput, Draws, login, generic_credentials_error, normalise_email,
  start_session_for_activated_user,
}
use prime_focus_css_api.Auth.Login.Disclosure.{IsUnproven, login-invalid_credentials}
use prime_focus_css_api.Auth.Login.Lockout.{Attempt, attempt, attempt_all, login-lockout}
use prime_focus_css_api.Auth.Mfa.Challenges.{SingleChallenge, live_challenges}
use prime_focus_css_api.Auth.Mfa.Traces.{Steps-SingleChallenge}
use prime_focus_css_api.Auth.Fixtures.{
  settings, digest, otp_digest, as_it_is, check_password, salted, agent, database, right_password,
  other_password,
}

abbrev draws : Draws
draws = record { family_id = 8; token = 40; code = 41; device = 42 }

abbrev signing : Text → LoginInput
signing password = record { email = 97 ∷ 64 ∷ 98 ∷ []; password = password; device_token = none }

abbrev after_refresh : AuthDb
after_refresh = (refresh settings digest 5 6 100 database).1

refresh-replay_example :
    (old : SessionRow) × (find_session_by_token_hash 105 database ≡ some old)
    × ((refresh settings digest 5 8 200 after_refresh).0 ≡ err session_revoked_error)
    × (live_count old.family_id (refresh settings digest 5 8 200 after_refresh).1 ≡ 0)
unfolding refresh find_session_by_token_hash prime_focus_css_api.Common.find_where find_account
refresh-replay_example = refresh-replay settings digest 5 6 8 100 200 database after_refresh refl

refresh-rotates_example :
    (old : SessionRow) × (find_session_by_token_hash 105 database ≡ some old)
    × CanRefresh settings digest old 100 database
    × (find_session_by_token_hash 105 after_refresh ≡ some (rotate 10 100 old))
    × (find_session_by_token_hash 106 after_refresh
        ≡ some (new_session settings digest old.user_id old.family_id 6 100 database))
unfolding refresh find_session_by_token_hash prime_focus_css_api.Common.find_where find_account
refresh-rotates_example =
    refresh-rotates settings digest 5 6 100 database after_refresh (omega arith, tt) refl refl

database-Single : Single database
unfolding live_count count
database-Single f = ground arith

abbrev history_end : AuthDb
history_end =
    (refresh settings digest 40 6 100
      (start_session_for_activated_user settings digest otp_digest as_it_is check_password 1 draws
        50 database).1).1

-- The user activates, and the new session is refreshed.
history : Steps settings digest otp_digest as_it_is check_password salted database history_end
unfolding family_size
history =
    then_step database _ _
      (then_step database _ _ (stop database) (activates 1 draws 50 database refl))
      (refreshes 40 6 100 _)

Steps-Single_example : Single history_end
Steps-Single_example =
    Steps-Single settings digest otp_digest as_it_is check_password salted database history_end
      history database-Single

database-SingleChallenge : SingleChallenge database
unfolding SingleChallenge live_challenges count
database-SingleChallenge u = ground arith

Steps-SingleChallenge_example : SingleChallenge history_end
Steps-SingleChallenge_example =
    Steps-SingleChallenge settings digest otp_digest as_it_is check_password salted database
      history_end history database-SingleChallenge

login-invalid_credentials_example :
    ((login settings digest otp_digest as_it_is check_password
        (signing other_password)
        draws
        100
        database).0
      ≡ err generic_credentials_error)
    ↔ IsUnproven settings digest otp_digest as_it_is check_password
        (signing other_password)
        database
login-invalid_credentials_example =
    login-invalid_credentials settings digest otp_digest as_it_is check_password
      (signing other_password) draws 100 database

abbrev wrong_try : Attempt
wrong_try = record { input = signing other_password; draws = draws; at = 100 }

abbrev right_try : Attempt
right_try = record { input = signing right_password; draws = draws; at = 300 }

login-lockout_example :
    (attempt settings digest otp_digest as_it_is check_password right_try
      (attempt settings digest otp_digest as_it_is check_password wrong_try (
        attempt_all settings digest otp_digest as_it_is check_password
          (wrong_try ∷ [])
          database)).1).0
    ≡ err (app_error 403 ErrorCode.account_locked)
unfolding prime_focus_css_api.Auth.Store.find_account_by_email prime_focus_css_api.Common.find_where
    same_text normalise_email prime_focus_css_api.Sla.Clock.Windows.trim
login-lockout_example =
    login-lockout settings digest otp_digest as_it_is check_password (97 ∷ 64 ∷ 98 ∷ []) 6 agent
      (wrong_try ∷ []) wrong_try right_try database refl refl ((refl, refl), tt) (refl, refl) refl
      refl refl (omega arith)
