-- ===== src/Auth/Passwords.antt =====
-- modules/auth/auth.service.ts: passwords. `hash_password` is argon2's with its random salt, which is an
-- argument; a transaction that commits leaves the writes of its body, and only commits mail.
pub mod Commits
pub mod Resets
mod Tests
use prime_focus_css_api.Common.{
  ◌+◌, ◌*◌, ℕ, Bool, true, false, not, ◌&&◌, ◌||◌, Option, none, some, List, [], ◌∷◌, ltb, leb,
  ◌==◌, is_some, length, if◌then◌else◌, Uuid, Instant,
}
use prime_focus_css_api.Common.Texts.{starts_with}
use prime_focus_css_api.Common.Errors.{
  Resource, ErrorCode, AppError, app_error, not_found_error, Result, ok, err,
}
use prime_focus_css_api.Sla.Clock.Windows.{Text}
use prime_focus_css_api.Sla.Clock.Zone.{minute_ms}
use prime_focus_css_api.Auth.Store.{
  Hash, Secret, PasswordResetTokenRow, Account, AuthDb, AuthEnv, Outcome, RevokedReason,
  password_reset, password_changed, Trail, password_was_reset, password_was_changed, reset_mail,
  password_changed_mail, reset_requested, left_trail, find_account, find_account_by_email,
  update_account, with_password, revoke_all_for_user, find_password_reset, mark_password_reset_used,
  consume_outstanding_resets, insert_password_reset, revoke_all_devices,
}
use prime_focus_css_api.Auth.Sessions.{is_active}
use prime_focus_css_api.Auth.Login.{normalise_email}

-- `email.split('@')[0]`
unfoldable pub local_part : Text → Text
local_part [] = []
local_part (c ∷ cs) = let rest = local_part cs in if c == b'@' then [] else c ∷ rest

-- `text.includes(part)`
unfoldable pub text_includes : Text → Text → Bool
unfolding starts_with
text_includes [] part = starts_with part []
text_includes (c ∷ cs) part = starts_with part (c ∷ cs) || text_includes cs part

abbrev pub weak_password_error : AppError
weak_password_error = app_error 400 ErrorCode.weak_password

abbrev pub invalid_password_error : AppError
invalid_password_error = app_error 400 ErrorCode.invalid_credentials

module _ (env : AuthEnv) (hash_secret : Secret → Hash) (lower : Text → Text)
    (verify : Hash → Text → Bool) (hash_password : Text → ℕ → Hash) where
  unfoldable pub is_password_acceptable : Text → Text → Bool
  unfolding local_part text_includes
  is_password_acceptable password email =
      let local = lower (local_part email) in
      if ltb (length password) env.password_min_length
      then false
      else not (leb 4 (length local) && text_includes (lower password) local)

  -- `assertPasswordAcceptable`, both of whose refusals are the same error.
  unfoldable pub assert_password_acceptable : Text → Text → Result (Unit {0})
  unfolding is_password_acceptable
  assert_password_acceptable password email =
      if is_password_acceptable password email then ok tt else err weak_password_error

  unfoldable pub request_password_reset : Text → Secret → Instant → AuthDb → AuthDb
  unfolding find_account_by_email consume_outstanding_resets insert_password_reset
  request_password_reset raw_email token now db =
      elim (find_account_by_email (normalise_email lower (normalise_email lower raw_email)) db) [
        | none ↦ db
        | some user ↦
            if not (is_active user.status)
            then db
            else (let db₁ = consume_outstanding_resets user.id now db in
                let row : PasswordResetTokenRow = record {
                  id = db.next_id;
                  user_id = user.id;
                  token_hash = hash_secret token;
                  expires_at = now + env.password_reset_ttl_minutes * minute_ms;
                  used_at = none;
                } in
                left_trail (reset_requested user.id)
                  (left_trail (reset_mail user.id) (insert_password_reset row db₁)))
      ]

  -- The transaction of `resetPassword`.
  unfoldable pub commit_reset : Uuid → Uuid → Hash → Instant → AuthDb → AuthDb
  unfolding update_account mark_password_reset_used revoke_all_for_user revoke_all_devices
  commit_reset user_id reset_id hash now db =
      let db₁ = update_account user_id (with_password hash) db in
      let db₂ = mark_password_reset_used reset_id now db₁ in
      let db₃ = revoke_all_for_user user_id password_reset now db₂ in
      let db₄ = revoke_all_devices user_id now db₃ in
      left_trail (password_changed_mail user_id) (left_trail (password_was_reset user_id) db₄)

  unfoldable pub reset_found :
      PasswordResetTokenRow → Text → ℕ → Instant → AuthDb → Outcome (Unit {0})
  unfolding commit_reset assert_password_acceptable
  reset_found row new_password salt now db =
      if is_some row.used_at
      then (err (app_error 400 ErrorCode.reset_token_invalid), db)
      else if leb row.expires_at now
      then (err (app_error 400 ErrorCode.reset_token_expired), db)
      else elim (find_account row.user_id db) [
        | none ↦ (err (not_found_error Resource.user), db)
        | some user ↦ elim (assert_password_acceptable new_password user.email) [
          | err e ↦ (err e, db)
          | ok _ ↦ (ok tt, commit_reset user.id row.id (hash_password new_password salt) now db)
        ]
      ]

  unfoldable pub reset_password : Secret → Text → ℕ → Instant → AuthDb → Outcome (Unit {0})
  unfolding reset_found
  reset_password token new_password salt now db =
      elim (find_password_reset (hash_secret token) db) [
        | none ↦ (err (app_error 400 ErrorCode.reset_token_invalid), db)
        | some row ↦ reset_found row new_password salt now db
      ]

  -- `user.passwordHash && verifyPassword(user.passwordHash, password)`
  abbrev pub password_matches : Account → Text → Bool
  password_matches user password = elim user.password_hash [
    | none ↦ false
    | some hash ↦ verify hash password
  ]

  -- The transaction of `changePassword`.
  unfoldable pub commit_change : Uuid → Hash → Instant → AuthDb → AuthDb
  unfolding update_account revoke_all_for_user revoke_all_devices
  commit_change user_id hash now db =
      let db₁ = update_account user_id (with_password hash) db in
      let db₂ = revoke_all_for_user user_id password_changed now db₁ in
      let db₃ = revoke_all_devices user_id now db₂ in
      left_trail (password_changed_mail user_id) (left_trail (password_was_changed user_id) db₃)

  unfoldable pub change_password : Uuid → Text → Text → ℕ → Instant → AuthDb → Outcome (Unit {0})
  unfolding commit_change assert_password_acceptable
  change_password actor_id current new_password salt now db = elim (find_account actor_id db) [
    | none ↦ (err (not_found_error Resource.user), db)
    | some user ↦
        if not (password_matches user current)
        then (err invalid_password_error, db)
        else elim (assert_password_acceptable new_password user.email) [
          | err e ↦ (err e, db)
          | ok _ ↦
              if password_matches user new_password
              then (err (app_error 400 ErrorCode.password_reused), db)
              else (ok tt, commit_change user.id (hash_password new_password salt) now db)
        ]
  ]
