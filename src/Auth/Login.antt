-- ===== src/Auth/Login.antt =====
-- modules/auth/auth.service.ts: signing in. `lower` is the runtime's toLowerCase and `verify` is argon2's
-- check of a password against a stored hash; burnPasswordVerify only takes time. What is drawn at
-- random for a session or a code is an argument.
pub mod Disclosure
pub mod Lockout
use prime_focus_css_api.Common.{
  ℕ, ◌+◌, ◌*◌, Bool, true, false, not, Option, none, some, ltb, leb, if◌then◌else◌, Uuid, Instant,
}
use prime_focus_css_api.Common.Errors.{
  Resource, ErrorCode, AppError, app_error, not_found_error, ok, err,
}
use prime_focus_css_api.Sla.Clock.Windows.{Text, trim}
use prime_focus_css_api.Sla.Clock.Zone.{minute_ms}
use prime_focus_css_api.Ticket.Store.{UserStatus, invited, active, suspended}
use prime_focus_css_api.Auth.Store.{
  Hash, Secret, Account, AuthDb, AuthEnv, Outcome, LoginOutcome, Trail, account_locked_trail,
  unknown_email, password_failed, password_ok, account_locked, account_suspended,
  account_not_activated, otp_ok, device_trusted, sso_ok, sso_denied, password_unavailable,
  left_trail, find_account, find_account_by_email, update_account, with_failures, record_attempt,
}
use prime_focus_css_api.Auth.Sessions.{
  TokenPair, is_active, account_suspended_error, complete_login,
}
use prime_focus_css_api.Auth.Mfa.{
  issue_login_challenge, challenge_user_id, resend_login_challenge, verify_login_challenge,
  trust_device, is_device_trusted,
}

pub data LoginResult : Type 0 where
  authenticated : TokenPair → LoginResult
  otp_required : Uuid → LoginResult

-- `LoginInput`
pub record LoginInput : Type 0 where
  pub email : Text
  pub password : Text
  pub device_token : Option Secret

-- What a sign-in may draw at random: a session family, a refresh token, a code and a device token.
pub record Draws : Type 0 where
  pub family_id : Uuid
  pub token : Secret
  pub code : Secret
  pub device : Secret

-- `GENERIC_CREDENTIALS_ERROR`
abbrev pub generic_credentials_error : AppError
generic_credentials_error = app_error 401 ErrorCode.invalid_credentials

abbrev pub is_suspended : UserStatus → Bool
is_suspended suspended = true
is_suspended _ = false

-- `lockedUntil && lockedUntil > now`
abbrev pub is_locked : Account → Instant → Bool
is_locked user now = elim user.locked_until [ none ↦ false | some until ↦ ltb now until ]

unfoldable pub normalise_email : (Text → Text) → Text → Text
normalise_email lower email = lower (trim email)

module _ (env : AuthEnv) where
  abbrev pub locks : Account → Bool
  locks user = leb env.max_failed_logins (user.failed_login_attempts + 1)

  abbrev pub failed_count : Account → ℕ
  failed_count user = if locks user then 0 else user.failed_login_attempts + 1

  abbrev pub failed_lock : Account → Instant → Option Instant
  failed_lock user now =
      if locks user then some (now + env.account_lock_minutes * minute_ms) else user.locked_until

  unfoldable pub register_failed_password : Account → Text → Instant → AuthDb → AuthDb
  unfolding update_account record_attempt
  register_failed_password user email now db =
      let db₁ =
        update_account user.id (with_failures (failed_count user) (failed_lock user now)) db in
      let db₂ = record_attempt email (some user.id) password_failed db₁ in
      if locks user then left_trail (account_locked_trail user.id) db₂ else db₂

module _ (env : AuthEnv) (hash_secret : Secret → Hash) (hash_otp : Secret → Uuid → Hash)
    (lower : Text → Text) (verify : Hash → Text → Bool) where
  abbrev pub device_check : Uuid → Option Secret → Instant → AuthDb → Bool × AuthDb
  device_check user_id none now db = (false, db)
  device_check user_id (some token) now db =
      is_device_trusted env hash_otp hash_secret user_id token now db

  -- The end of `login`, on an account whose password is right and that may sign in.
  unfoldable pub login_proven :
      Account → Text → Option Secret → Draws → Instant → AuthDb → Outcome LoginResult
  unfolding record_attempt issue_login_challenge complete_login is_device_trusted
  login_proven user email device_token draws now db =
      let db₁ = record_attempt email (some user.id) password_ok db in
      let (trusted, db₂) = device_check user.id device_token now db₁ in
      if trusted
      then (let db₃ = record_attempt email (some user.id) device_trusted db₂ in
          let (tokens, db₄) =
            complete_login env hash_secret user.id draws.family_id draws.token now db₃ in
          (ok (authenticated tokens), db₄))
      else (let (id, db₃) =
            issue_login_challenge env hash_otp hash_secret user.id draws.code now db₂ in
          (ok (otp_required id), db₃))

  -- `login` on an account that has a password.
  unfoldable pub login_with_hash :
      Account → Hash → Text → LoginInput → Draws → Instant → AuthDb → Outcome LoginResult
  unfolding login_proven register_failed_password
  login_with_hash user hash email input draws now db =
      if not (verify hash input.password)
      then (err generic_credentials_error, register_failed_password env user email now db)
      else if is_locked user now
      then (
        err (app_error 403 ErrorCode.account_locked),
        record_attempt email (some user.id) account_locked db,
      )
      else if is_suspended user.status
      then (err account_suspended_error, record_attempt email (some user.id) account_suspended db)
      else login_proven user email input.device_token draws now db

  -- `login` on an account that has none.
  unfoldable pub login_without_hash : Account → Text → AuthDb → Outcome LoginResult
  unfolding record_attempt
  login_without_hash user email db =
      if is_active user.status
      then (
        err (app_error 403 ErrorCode.sso_login_required),
        record_attempt email (some user.id) password_unavailable db,
      )
      else (
        err (app_error 403 ErrorCode.account_not_activated),
        record_attempt email (some user.id) account_not_activated db,
      )

  unfoldable pub login_found :
      Account → Text → LoginInput → Draws → Instant → AuthDb → Outcome LoginResult
  unfolding login_with_hash login_without_hash
  login_found user email input draws now db = elim user.password_hash [
    | none ↦ login_without_hash user email db
    | some hash ↦ login_with_hash user hash email input draws now db
  ]

  unfoldable pub login : LoginInput → Draws → Instant → AuthDb → Outcome LoginResult
  unfolding login_found normalise_email
  login input draws now db =
      let email = normalise_email lower input.email in
      elim (find_account_by_email (normalise_email lower email) db) [
        | none ↦ (err generic_credentials_error, record_attempt email none unknown_email db)
        | some user ↦ login_found user email input draws now db
      ]

  -- `verifyOtp` once the code is right, for the challenge's user.
  unfoldable pub otp_signs_in : Uuid → Bool → Draws → Instant → AuthDb → Outcome TokenPair
  unfolding complete_login trust_device record_attempt
  otp_signs_in user_id remember draws now db = elim (find_account user_id db) [
    | none ↦ (err generic_credentials_error, db)
    | some user ↦
        if not (is_active user.status)
        then (err account_suspended_error, db)
        else (let db₁ = record_attempt user.email (some user.id) otp_ok db in
            let (tokens, db₂) =
              complete_login env hash_secret user.id draws.family_id draws.token now db₁ in
            (
              ok tokens,
              if remember
                  then trust_device env hash_otp hash_secret user.id draws.device now db₂
                  else db₂,
            ))
  ]

  unfoldable pub verify_otp : Uuid → Secret → Bool → Draws → Instant → AuthDb → Outcome TokenPair
  unfolding otp_signs_in verify_login_challenge
  verify_otp challenge_id code remember draws now db =
      let (verified, db₁) =
        verify_login_challenge env hash_otp hash_secret challenge_id code now db in
      elim verified [
        | err e ↦ (err e, db₁)
        | ok user_id ↦ otp_signs_in user_id remember draws now db₁
      ]

  unfoldable pub resend_otp : Uuid → Secret → Instant → AuthDb → Outcome Uuid
  unfolding challenge_user_id resend_login_challenge
  resend_otp challenge_id code now db =
      let (found, db₁) = challenge_user_id env hash_otp hash_secret challenge_id db in
      elim found [
        | err e ↦ (err e, db₁)
        | ok user_id ↦ elim (find_account user_id db₁) [
          | none ↦ (err (not_found_error Resource.user), db₁)
          | some user ↦
              resend_login_challenge env hash_otp hash_secret challenge_id user.id code now db₁
        ]
      ]

  -- `startSessionForActivatedUser`
  unfoldable pub start_session_for_activated_user :
      Uuid → Draws → Instant → AuthDb → Outcome TokenPair
  unfolding complete_login
  start_session_for_activated_user user_id draws now db = elim (find_account user_id db) [
    | none ↦ (err (not_found_error Resource.user), db)
    | some user ↦
        let (tokens, db₁) =
          complete_login env hash_secret user.id draws.family_id draws.token now db in
        (ok tokens, db₁)
  ]

  unfoldable pub start_federated_session :
      Uuid → Bool → Draws → Instant → AuthDb → Outcome LoginResult
  unfolding complete_login issue_login_challenge record_attempt
  start_federated_session user_id require_otp draws now db = elim (find_account user_id db) [
    | none ↦ (err (not_found_error Resource.user), db)
    | some user ↦
        if not (is_active user.status)
        then (err account_suspended_error, db)
        else (let db₁ = record_attempt user.email (some user.id) sso_ok db in
            if require_otp
            then (let (id, db₂) =
                  issue_login_challenge env hash_otp hash_secret user.id draws.code now db₁ in
                (ok (otp_required id), db₂))
            else (let (tokens, db₂) =
                  complete_login env hash_secret user.id draws.family_id draws.token now db₁ in
                (ok (authenticated tokens), db₂)))
  ]

-- `recordFederatedDenial`
unfoldable pub record_federated_denial : (Text → Text) → Text → Option Uuid → AuthDb → AuthDb
unfolding normalise_email record_attempt
record_federated_denial lower email user_id db =
    record_attempt (normalise_email lower email) user_id sso_denied db
