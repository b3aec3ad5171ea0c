-- ===== src/Auth/Store/Users.antt =====
-- modules/user/user.repository.ts and user.service.ts: what signing in does to accounts, and
-- modules/auth/auth.repository.ts: the log of attempts.
use prime_focus_css_api.Common.{
  ℕ, Bool, ◌&&◌, Option, none, some, [], ◌∷◌, ◌++◌, ◌==◌, is_none, Uuid, Instant, find_where,
  update_where,
}
use prime_focus_css_api.Sla.Clock.{same_text}
use prime_focus_css_api.Sla.Clock.Windows.{Text}
use prime_focus_css_api.Auth.Store.Rows.{Hash, LoginOutcome, Account, AuthDb}

abbrev pub has_account_id : Uuid → Account → Bool
has_account_id id a = a.id == id && is_none a.deleted_at

unfoldable pub find_account : Uuid → AuthDb → Option Account
find_account id db = find_where (has_account_id id) db.accounts

abbrev pub has_email : Text → Account → Bool
has_email email a = same_text a.email email && is_none a.deleted_at

unfoldable pub find_account_by_email : Text → AuthDb → Option Account
find_account_by_email email db = find_where (has_email email) db.accounts

unfoldable pub update_account : Uuid → (Account → Account) → AuthDb → AuthDb
update_account id f db = record db {
  accounts = update_where (λ (a : Account). a.id == id) f db.accounts;
}

abbrev pub with_failures : ℕ → Option Instant → Account → Account
with_failures attempts locked_until a = record a {
  failed_login_attempts = attempts;
  locked_until = locked_until;
}

abbrev pub with_login : Instant → Account → Account
with_login now a = record a {
  failed_login_attempts = 0;
  locked_until = none;
  last_login_at = some now;
}

abbrev pub with_password : Hash → Account → Account
with_password hash a = record a {
  password_hash = some hash;
  failed_login_attempts = 0;
  locked_until = none;
}

unfoldable pub record_attempt : Text → Option Uuid → LoginOutcome → AuthDb → AuthDb
record_attempt email user_id outcome db = record db {
  attempts = db.attempts ++ (record { email = email; user_id = user_id; outcome = outcome } ∷ []);
}
