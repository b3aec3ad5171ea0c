-- ===== src/Auth/Passwords/Resets.antt =====
-- What a new password needs and what it leaves: the link that asked for it, the user's sessions and devices.
use prime_focus_css_api.Common.{
  ℕ, ◌≡◌, refl, Bool, true, false, none, some, leb, inl, inr, Bool-cases, Option-cases, Uuid,
  Instant,
}
use prime_focus_css_api.Common.Errors.{ErrorCode, app_error, ok, err}
use prime_focus_css_api.Sla.Clock.Windows.{Text}
use prime_focus_css_api.Auth.Store.{
  Hash, Secret, PasswordResetTokenRow, Account, AuthDb, AuthEnv, use_reset, find_account,
  find_password_reset, with_password,
}
use prime_focus_css_api.Auth.Passwords.{
  assert_password_acceptable, is_password_acceptable, reset_password, reset_found, commit_reset,
  change_password, commit_change, password_matches,
}
use prime_focus_css_api.Auth.Passwords.Commits.{
  IsSignedOut, HasPassword, commit_reset-used, commit_reset-user, commit_change-user,
}

module _ (env : AuthEnv) (hash_secret : Secret → Hash) (lower : Text → Text)
    (verify : Hash → Text → Bool) (hash_password : Text → ℕ → Hash) where
  reset_found_ok :
      (row : PasswordResetTokenRow) (new_password : Text) (salt : ℕ) (now : Instant) (db : AuthDb)
      {after : AuthDb}
      → reset_found env hash_secret lower verify hash_password row new_password salt now db
        ≡ (ok tt, after)
      → (user : Account) × (row.used_at ≡ none)
        × (leb row.expires_at now ≡ false)
        × (find_account row.user_id db ≡ some user)
        × (is_password_acceptable env hash_secret lower verify hash_password new_password user.email
            ≡ true)
        × (commit_reset env hash_secret lower verify hash_password user.id row.id
              (hash_password new_password salt)
              now
              db
            ≡ after)
  unfolding reset_found assert_password_acceptable
  reset_found_ok row new_password salt now db done = elim (Option-cases row.used_at) [
    | inr (at, u) ↦ cc (rw (u, reset_found) at done)
    | inl u ↦ elim (Bool-cases (leb row.expires_at now)) [
      | inl v ↦ cc (rw v at (rw (u, reset_found) at done))
      | inr v ↦ elim (Option-cases (find_account row.user_id db)) [
        | inl w ↦ cc (rw w at (rw v at (rw (u, reset_found) at done)))
        | inr (user, w) ↦
            elim (Bool-cases (
              is_password_acceptable env hash_secret lower verify hash_password new_password
                user.email)) [
                  | inr z ↦ cc (
                      rw (z, assert_password_acceptable) at
                        (rw w at (rw v at (rw (u, reset_found) at done))))
                  | inl z ↦ (
                    user,
                    u,
                    v,
                    w,
                    z,
                    cc (
                        rw (z, assert_password_acceptable) at
                          (rw w at (rw v at (rw (u, reset_found) at done)))),
                  )
                ]
      ]
    ]
  ]

  reset_password_ok :
      (token : Secret) (new_password : Text) (salt : ℕ) (now : Instant) (db : AuthDb)
      {after : AuthDb}
      → reset_password env hash_secret lower verify hash_password token new_password salt now db
        ≡ (ok tt, after)
      → (row : PasswordResetTokenRow) × (find_password_reset (hash_secret token) db ≡ some row)
        × (reset_found env hash_secret lower verify hash_password row new_password salt now db
            ≡ (ok tt, after))
  unfolding reset_password
  reset_password_ok token new_password salt now db done =
      elim (Option-cases (find_password_reset (hash_secret token) db)) [
        | inl u ↦ cc (rw (u, reset_password) at done)
        | inr (row, u) ↦ (row, u, rw (u, reset_password) at done)
      ]

  -- A successful reset leaves the user of the link with the new password, no failures and no lock,
  -- without live sessions and trusted devices, and the same link is refused from then on and
  -- changes nothing.
  pub reset_password-single_use :
      (token : Secret) (new_password other : Text) (salt salt' : ℕ) (now later : Instant)
      (db after : AuthDb)
      → reset_password env hash_secret lower verify hash_password token new_password salt now db
        ≡ (ok tt, after)
      → (row : PasswordResetTokenRow) × (find_password_reset (hash_secret token) db ≡ some row)
        × HasPassword env hash_secret lower verify hash_password row.user_id
            (hash_password new_password salt)
            after
        × IsSignedOut row.user_id after
        × ((reset_password env hash_secret lower verify hash_password token other salt' later after)
            ≡ (err (app_error 400 ErrorCode.reset_token_invalid), after))
  unfolding reset_password reset_found
  reset_password-single_use token new_password other salt salt' now later db after done =
      let (row, found, used) = reset_password_ok token new_password salt now db done in
      let (user, _, _, known, _, same) = reset_found_ok row new_password salt now db used in
      let (held, out) =
        commit_reset-user env hash_secret lower verify hash_password user row.user_id row.id _ now
          db known same in
      let spent =
        commit_reset-used env hash_secret lower verify hash_password (hash_secret token) row user.id
          (hash_password new_password salt) now db found in
      let marked : find_password_reset (hash_secret token) after ≡ some (use_reset now row) =
        rw same at spent in
      (row, found, (user, held), out, rw (marked, reset_password) refl)

  change_password_ok :
      (actor_id : Uuid) (current new_password : Text) (salt : ℕ) (now : Instant) (db : AuthDb)
      {after : AuthDb}
      → change_password env hash_secret lower verify hash_password actor_id current new_password
          salt now db
        ≡ (ok tt, after)
      → (user : Account) × (find_account actor_id db ≡ some user)
        × (password_matches env hash_secret lower verify hash_password user current ≡ true)
        × (password_matches env hash_secret lower verify hash_password user new_password ≡ false)
        × (commit_change env hash_secret lower verify hash_password user.id
              (hash_password new_password salt)
              now
              db
            ≡ after)
  unfolding change_password assert_password_acceptable
  change_password_ok actor_id current new_password salt now db done =
      elim (Option-cases (find_account actor_id db)) [
        | inl w ↦ cc (rw (w, change_password) at done)
        | inr (user, w) ↦
            let done₁ = rw (w, change_password) at done in
            elim (Bool-cases
              (password_matches env hash_secret lower verify hash_password user current)) [
                | inr u ↦ cc (rw u at done₁)
                | inl u ↦
                    let done₂ = rw u at done₁ in
                    elim (Bool-cases (
                      is_password_acceptable env hash_secret lower verify hash_password new_password
                        user.email)) [
                          | inr z ↦ cc (rw (z, assert_password_acceptable) at done₂)
                          | inl z ↦
                              let done₃ = rw (z, assert_password_acceptable) at done₂ in
                              elim (Bool-cases (
                                password_matches env hash_secret lower verify hash_password user
                                  new_password)) [
                                    | inl v ↦ cc (rw v at done₃)
                                    | inr v ↦ (user, w, u, v, cc (rw v at done₃))
                                  ]
                        ]
              ]
      ]

  -- A successful changePassword was given the current password and another new one; it leaves the
  -- user with the new password, and without live sessions, the one it was called from included,
  -- and trusted devices.
  pub change_password-IsSignedOut :
      (actor_id : Uuid) (current new_password : Text) (salt : ℕ) (now : Instant) (db after : AuthDb)
      → change_password env hash_secret lower verify hash_password actor_id current new_password
          salt now db
        ≡ (ok tt, after)
      → (user : Account) × (find_account actor_id db ≡ some user)
        × (password_matches env hash_secret lower verify hash_password user current ≡ true)
        × (password_matches env hash_secret lower verify hash_password user new_password ≡ false)
        × (find_account actor_id after
            ≡ some (with_password (hash_password new_password salt) user))
        × IsSignedOut actor_id after
  unfolding commit_change find_account
  change_password-IsSignedOut actor_id current new_password salt now db after done =
      let (user, known, right, fresh, same) =
        change_password_ok actor_id current new_password salt now db done in
      let (held, out) =
        commit_change-user env hash_secret lower verify hash_password user actor_id _ now db known
          same in
      (user, known, right, fresh, held, out)
