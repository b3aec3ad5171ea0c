-- ===== src/Auth/Store/Rows.antt =====
-- The tables of modules/auth and modules/mfa, the columns of users that signing in reads, and the settings
-- of config/env.ts. Addresses, user agents and labels are left out.
use prime_focus_css_api.Common.{ℕ, Option, List, [], ◌∷◌, ◌++◌, Uuid, Instant}
use prime_focus_css_api.Common.Errors.{Result}
use prime_focus_css_api.Sla.Clock.Windows.{Text}
use prime_focus_css_api.Ticket.Store.{UserStatus}

abbrev pub Hash : Type 0
Hash = ℕ

-- An opaque secret, as it is presented.
abbrev pub Secret : Type 0
Secret = ℕ

pub data RevokedReason : Type 0 where
  rotated reuse_detected user_inactive user_signed_out revoked_by_admin : RevokedReason
  user_signed_out_all account_suspended password_reset password_changed : RevokedReason

pub record SessionRow : Type 0 where
  pub id : Uuid
  pub user_id : Uuid
  pub family_id : Uuid
  pub token_hash : Hash
  pub expires_at : Instant
  pub revoked_at : Option Instant
  pub revoked_reason : Option RevokedReason
  pub replaced_by_session_id : Option Uuid

pub record PasswordResetTokenRow : Type 0 where
  pub id : Uuid
  pub user_id : Uuid
  pub token_hash : Hash
  pub expires_at : Instant
  pub used_at : Option Instant

pub data LoginOutcome : Type 0 where
  unknown_email password_failed password_ok account_locked account_suspended : LoginOutcome
  account_not_activated otp_failed otp_expired otp_ok device_trusted : LoginOutcome
  sso_ok sso_denied password_unavailable : LoginOutcome

pub record LoginAttemptRow : Type 0 where
  pub email : Text
  pub user_id : Option Uuid
  pub outcome : LoginOutcome

pub record OtpChallengeRow : Type 0 where
  pub id : Uuid
  pub user_id : Uuid
  pub code_hash : Hash
  pub attempts : ℕ
  pub expires_at : Instant
  pub consumed_at : Option Instant
  pub last_sent_at : Instant
  pub send_count : ℕ

pub record TrustedDeviceRow : Type 0 where
  pub id : Uuid
  pub user_id : Uuid
  pub token_hash : Hash
  pub expires_at : Instant
  pub revoked_at : Option Instant
  pub last_seen_at : Instant

-- A row of users, with its email stored in lower case.
pub record Account : Type 0 where
  pub id : Uuid
  pub email : Text
  pub status : UserStatus
  pub password_hash : Option Hash
  pub failed_login_attempts : ℕ
  pub locked_until : Option Instant
  pub last_login_at : Option Instant
  pub deleted_at : Option Instant

-- What auditService.recordSafely and the mailer are called with, by kind.
pub data Trail : Type 0 where
  account_locked_trail refresh_reuse_detected signed_in session_revoked logged_out : Uuid → Trail
  logged_out_everywhere password_was_reset password_was_changed reset_mail : Uuid → Trail
  password_changed_mail otp_mail device_trusted_trail reset_requested : Uuid → Trail

pub record AuthDb : Type 0 where
  pub accounts : List Account
  pub sessions : List SessionRow
  pub resets : List PasswordResetTokenRow
  pub attempts : List LoginAttemptRow
  pub challenges : List OtpChallengeRow
  pub devices : List TrustedDeviceRow
  pub trail : List Trail
  pub next_id : Uuid

-- The settings of config/env.ts that signing in reads.
pub record AuthEnv : Type 0 where
  pub refresh_token_ttl_days : ℕ
  pub password_min_length : ℕ
  pub max_failed_logins : ℕ
  pub account_lock_minutes : ℕ
  pub otp_ttl_minutes : ℕ
  pub otp_max_attempts : ℕ
  pub otp_resend_cooldown_seconds : ℕ
  pub trusted_device_ttl_days : ℕ
  pub password_reset_ttl_minutes : ℕ

-- What a call that may throw leaves.
abbrev pub Outcome {ℓ} : Type ℓ → Type ℓ
Outcome A = Result A × AuthDb

abbrev pub left_trail : Trail → AuthDb → AuthDb
left_trail t db = record db { trail = db.trail ++ (t ∷ []) }
