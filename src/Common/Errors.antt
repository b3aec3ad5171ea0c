-- ===== src/Common/Errors.antt =====
-- common/errors: the errors that the API means to produce, by code and HTTP status, and the
-- outcome of a call that may throw one. Of a message only what a not-found error names is kept; other
-- messages, details and log context are left out.
use prime_focus_css_api.Common.{ℕ, ◌≡◌, refl, ◌⊎◌, inl, inr, Bool, true, false, Option, none, some}

-- The values of `ErrorCode`.
pub data ErrorCode : Type 0 where
  internal_error bad_request validation_error not_found method_not_allowed conflict : ErrorCode
  payload_too_large unsupported_media_type rate_limited service_unavailable : ErrorCode
  dependency_failure : ErrorCode
  unauthenticated forbidden token_expired token_invalid invalid_credentials : ErrorCode
  account_locked account_suspended account_not_activated session_revoked : ErrorCode
  session_expired api_key_invalid weak_password password_reused : ErrorCode
  mfa_required otp_invalid otp_expired otp_attempts_exceeded otp_resend_cooldown : ErrorCode
  otp_resend_limit : ErrorCode
  sso_provider_unavailable sso_state_invalid sso_state_expired sso_exchange_failed : ErrorCode
  sso_identity_rejected sso_no_account sso_identity_mismatch sso_login_required : ErrorCode
  sso_last_credential : ErrorCode
  invitation_invalid invitation_expired invitation_already_accepted : ErrorCode
  invitation_revoked user_already_exists : ErrorCode
  reset_token_invalid reset_token_expired : ErrorCode
  last_super_admin system_role_immutable role_in_use user_has_open_tickets : ErrorCode
  self_action_forbidden email_delivery_failed : ErrorCode
  unique_violation foreign_key_violation : ErrorCode
  idempotency_key_in_progress idempotency_key_reused : ErrorCode

-- What a not-found error says that it did not find.
pub data Resource : Type 0 where
  ticket product user session invitation invited_account : Resource

-- `AppError`, by its status, its code and, in a not-found error, what its message names.
pub record AppError : Type 0 where
  pub status_code : ℕ
  pub code : ErrorCode
  pub names : Option Resource

abbrev pub app_error : ℕ → ErrorCode → AppError
app_error s c = record { status_code = s; code = c; names = none }

-- The static constructors of `AppError`.
abbrev pub bad_request_error : AppError
bad_request_error = app_error 400 ErrorCode.bad_request

abbrev pub validation : AppError
validation = app_error 400 ErrorCode.validation_error

abbrev pub not_found_error : Resource → AppError
not_found_error resource = record (app_error 404 ErrorCode.not_found) { names = some resource }

abbrev pub conflict_error : AppError
conflict_error = app_error 409 ErrorCode.conflict

abbrev pub internal : AppError
internal = app_error 500 ErrorCode.internal_error

-- What an async function gives: a value, or the error it throws.
pub data Result {ℓ} (A : Type ℓ) : Type ℓ where
  ok : A → Result A
  err : AppError → Result A

-- `const x = await call; rest`: an error of the call is thrown on.
infixl 5 ◌>>=◌
abbrev pub ◌>>=◌ {ℓ ℓ'} : {X : Type ℓ} {Y : Type ℓ'} → Result X → (X → Result Y) → Result Y
err thrown >>= rest = err thrown
ok value >>= rest = rest value

-- `await call; rest`
infixl 5 ◌>>◌
abbrev pub ◌>>◌ {ℓ ℓ'} : {X : Type ℓ} {Y : Type ℓ'} → Result X → Result Y → Result Y
call >> rest = call >>= (λ _. rest)

-- `if (!test) throw error`
abbrev pub ensure : Bool → AppError → Result (Unit {0})
ensure true e = ok tt
ensure false e = err e

-- `if (!row) throw error`
abbrev pub required {ℓ} : {A : Type ℓ} → Option A → AppError → Result A
required none e = err e
required (some a) e = ok a

-- A sequence of two calls returns only if both do.
pub both-ok {ℓ ℓ'} :
    {X : Type ℓ} {Y : Type ℓ'} (call : Result X) (rest : X → Result Y) {y : Y}
    → (call >>= rest) ≡ ok y
    → (x : X) × (call ≡ ok x) × (rest x ≡ ok y)
both-ok (err thrown) rest returned = cc
both-ok (ok value) rest returned = (value, refl, returned)

pub Result-cases {ℓ} :
    {X : Type ℓ} (r : Result X) → ((e : AppError) × (r ≡ err e)) ⊎ ((x : X) × (r ≡ ok x))
Result-cases (err e) = inl (e, refl)
Result-cases (ok x) = inr (x, refl)
