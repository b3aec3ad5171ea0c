-- ===== src/Auth/Fixtures.antt =====
-- A small database of accounts, sessions, links and codes, with digests that can be computed.
use prime_focus_css_api.Common.{ℕ, ◌+◌, Bool, none, some, [], ◌∷◌, ◌==◌, Uuid}
use prime_focus_css_api.Sla.Clock.Windows.{Text}
use prime_focus_css_api.Ticket.Store.{active}
use prime_focus_css_api.Auth.Store.{
  Hash, Secret, SessionRow, PasswordResetTokenRow, OtpChallengeRow, Account, AuthDb, AuthEnv,
}

abbrev pub settings : AuthEnv
settings = record {
  refresh_token_ttl_days = 30;
  password_min_length = 3;
  max_failed_logins = 2;
  account_lock_minutes = 15;
  otp_ttl_minutes = 10;
  otp_max_attempts = 2;
  otp_resend_cooldown_seconds = 60;
  trusted_device_ttl_days = 30;
  password_reset_ttl_minutes = 60;
}

abbrev pub digest : Secret → Hash
digest secret = secret + 100

abbrev pub otp_digest : Secret → Uuid → Hash
otp_digest code id = code + id

abbrev pub as_it_is : Text → Text
as_it_is text = text

abbrev pub total : Text → ℕ
total [] = 0
total (c ∷ cs) = c + total cs

abbrev pub check_password : Hash → Text → Bool
check_password hash password = hash == total password

abbrev pub salted : Text → ℕ → Hash
salted password _ = total password

abbrev pub agent : Account
agent = record {
  id = 1;
  email = 97 ∷ 64 ∷ 98 ∷ [];
  status = active;
  password_hash = some 6;
  failed_login_attempts = 0;
  locked_until = none;
  last_login_at = none;
  deleted_at = none;
}

abbrev pub signed_in_session : SessionRow
signed_in_session = record {
  id = 2;
  user_id = 1;
  family_id = 7;
  token_hash = 105;
  expires_at = 1000000;
  revoked_at = none;
  revoked_reason = none;
  replaced_by_session_id = none;
}

abbrev pub reset_link : PasswordResetTokenRow
reset_link = record { id = 3; user_id = 1; token_hash = 109; expires_at = 5000; used_at = none }

abbrev pub challenge : OtpChallengeRow
challenge = record {
  id = 4;
  user_id = 1;
  code_hash = 27;
  attempts = 0;
  expires_at = 9000;
  consumed_at = none;
  last_sent_at = 0;
  send_count = 1;
}

abbrev pub database : AuthDb
database = record {
  accounts = agent ∷ [];
  sessions = signed_in_session ∷ [];
  resets = reset_link ∷ [];
  attempts = [];
  challenges = challenge ∷ [];
  devices = [];
  trail = [];
  next_id = 10;
}

abbrev pub right_password : Text
right_password = 1 ∷ 2 ∷ 3 ∷ []

abbrev pub other_password : Text
other_password = 1 ∷ 2 ∷ 4 ∷ []
