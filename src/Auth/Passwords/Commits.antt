-- ===== src/Auth/Passwords/Commits.antt =====
-- What the transactions of a new password leave of the user.
use prime_focus_css_api.Common.{
  and_left, and-false, ℕ, ◌≡◌, refl, Bool, true, some, ◌==◌, ==_refl, ==_iff, Uuid, Instant, count,
  count-update_where-zero, find_where_sound, find_where-update,
}
use prime_focus_css_api.Sla.Clock.Windows.{Text}
use prime_focus_css_api.Auth.Store.{
  Hash, Secret, PasswordResetTokenRow, Account, AuthDb, AuthEnv, has_account_id, has_reset_hash,
  use_reset, has_unrevoked_device, find_account, find_password_reset, update_account,
  mark_password_reset_used, revoke_all_devices, with_password, password_reset, password_changed,
}
use prime_focus_css_api.Auth.Sessions.Counts.{
  live_count_of_user, live_count_of_user-revoke_all_for_user,
}
use prime_focus_css_api.Auth.Passwords.{commit_reset, commit_change}

-- No session lets the user in, and no device skips the code.
abbrev pub IsSignedOut : Uuid → AuthDb → Type 0
IsSignedOut user_id db =
    (live_count_of_user user_id db ≡ 0) × (count (has_unrevoked_device user_id) db.devices ≡ 0)

revoke_all_devices-count :
    (user_id : Uuid) (now : Instant) (db : AuthDb)
    → count (has_unrevoked_device user_id) (revoke_all_devices user_id now db).devices ≡ 0
unfolding revoke_all_devices
revoke_all_devices-count user_id now db =
    count-update_where-zero (has_unrevoked_device user_id) (has_unrevoked_device user_id)
      (λ d. record d { revoked_at = some now }) db.devices (λ d on. on)
      (λ d. and-false (d.user_id == user_id))

module _ (env : AuthEnv) (hash_secret : Secret → Hash) (lower : Text → Text)
    (verify : Hash → Text → Bool) (hash_password : Text → ℕ → Hash) where
  -- The account has the new password, and neither failures nor a lock.
  abbrev pub HasPassword : Uuid → Hash → AuthDb → Type 0
  HasPassword user_id hash db =
      (user : Account) × (find_account user_id db ≡ some (with_password hash user))

  -- The link's row after the transaction.
  pub commit_reset-used :
      (h : Hash) (row : PasswordResetTokenRow) (user_id : Uuid) (hash : Hash) (now : Instant)
      (db : AuthDb)
      → find_password_reset h db ≡ some row
      → find_password_reset h
          (commit_reset env hash_secret lower verify hash_password user_id row.id hash now db)
        ≡ some (use_reset now row)
  unfolding find_password_reset commit_reset mark_password_reset_used
  commit_reset-used h row user_id hash now db found = rw (==_refl row.id) at (
      find_where-update (has_reset_hash h) (λ (r : PasswordResetTokenRow). r.id == row.id)
        (use_reset now) db.resets (λ r. refl) found)

  set_password :
      (user : Account) (id : Uuid) (hash : Hash) (db : AuthDb)
      → find_account id db ≡ some user
      → (user.id ≡ id)
        × (find_account id (update_account user.id (with_password hash) db)
            ≡ some (with_password hash user))
  unfolding find_account update_account
  set_password user id hash db found =
      let mine : (user.id == id) ≡ true =
        and_left _ _ (find_where_sound (has_account_id id) db.accounts found) in
      (
        (==_iff user.id id).0 mine,
        rw (==_refl user.id) at (
            find_where-update (has_account_id id) (λ (b : Account). b.id == user.id)
              (with_password hash) db.accounts (λ b. refl) found),
      )

  -- What the two transactions leave of the user.
  pub commit_reset-user :
      (user : Account) (id reset_id : Uuid) (hash : Hash) (now : Instant) (db : AuthDb)
      {after : AuthDb}
      → find_account id db ≡ some user
      → commit_reset env hash_secret lower verify hash_password user.id reset_id hash now db ≡ after
      → (find_account id after ≡ some (with_password hash user)) × IsSignedOut id after
  unfolding commit_reset live_count_of_user revoke_all_devices find_account
  commit_reset-user user id reset_id hash now db known same =
      let (mine, held) = set_password user id hash db known in
      let out : IsSignedOut user.id
          (commit_reset env hash_secret lower verify hash_password user.id reset_id hash now db) =
        (
          live_count_of_user-revoke_all_for_user user.id password_reset now db,
          revoke_all_devices-count user.id now db,
        ) in
      rw (← same) (held, rw (← mine) out)

  pub commit_change-user :
      (user : Account) (id : Uuid) (hash : Hash) (now : Instant) (db : AuthDb) {after : AuthDb}
      → find_account id db ≡ some user
      → commit_change env hash_secret lower verify hash_password user.id hash now db ≡ after
      → (find_account id after ≡ some (with_password hash user)) × IsSignedOut id after
  unfolding commit_change live_count_of_user revoke_all_devices find_account
  commit_change-user user id hash now db known same =
      let (mine, held) = set_password user id hash db known in
      let out : IsSignedOut user.id
          (commit_change env hash_secret lower verify hash_password user.id hash now db) =
        (
          live_count_of_user-revoke_all_for_user user.id password_changed now db,
          revoke_all_devices-count user.id now db,
        ) in
      rw (← same) (held, rw (← mine) out)
