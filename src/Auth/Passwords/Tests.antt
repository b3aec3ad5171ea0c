-- ===== src/Auth/Passwords/Tests.antt =====
-- The theorems on new passwords at concrete rows.
use prime_focus_css_api.Common.{
  ℕ, ◌+◌, ◌≤◌, ◌<◌, ◌≡◌, refl, ◌↔◌, Bool, true, false, Option, none, some, List, [], ◌∷◌, ◌==◌, inl,
  inr, arith, Uuid, Instant, count, find_where,
}
use prime_focus_css_api.Common.Errors.{ErrorCode, app_error, err}
use prime_focus_css_api.Auth.Store.{
  PasswordResetTokenRow, Account, AuthDb, find_account, find_password_reset, with_password,
}
use prime_focus_css_api.Auth.Passwords.{reset_password, change_password, password_matches}
use prime_focus_css_api.Auth.Passwords.Commits.{HasPassword, IsSignedOut}
use prime_focus_css_api.Auth.Passwords.Resets.{
  reset_password-single_use, change_password-IsSignedOut,
}
use prime_focus_css_api.Auth.Fixtures.{
  settings, digest, as_it_is, check_password, salted, database, right_password, other_password,
}

abbrev after_reset : AuthDb
after_reset =
    (reset_password settings digest as_it_is check_password salted 9 other_password 0 100
      database).1

reset_password-single_use_example :
    (row : PasswordResetTokenRow) × (find_password_reset 109 database ≡ some row)
    × HasPassword settings digest as_it_is check_password salted row.user_id 7 after_reset
    × IsSignedOut row.user_id after_reset
    × (reset_password settings digest as_it_is check_password salted 9 right_password 0 200
          after_reset
        ≡ (err (app_error 400 ErrorCode.reset_token_invalid), after_reset))
unfolding reset_password find_password_reset prime_focus_css_api.Common.find_where find_account
reset_password-single_use_example =
    reset_password-single_use settings digest as_it_is check_password salted 9 other_password
      right_password 0 0 100 200 database after_reset refl

abbrev after_change : AuthDb
after_change =
    (change_password settings digest as_it_is check_password salted 1 right_password other_password
      0 100 database).1

change_password-IsSignedOut_example :
    (user : Account) × (find_account 1 database ≡ some user)
    × (password_matches settings digest as_it_is check_password salted user right_password ≡ true)
    × (password_matches settings digest as_it_is check_password salted user other_password ≡ false)
    × (find_account 1 after_change ≡ some (with_password 7 user))
    × IsSignedOut 1 after_change
unfolding change_password find_account prime_focus_css_api.Common.find_where
change_password-IsSignedOut_example =
    change_password-IsSignedOut settings digest as_it_is check_password salted 1 right_password
      other_password 0 100 database after_change refl
