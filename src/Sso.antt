-- ===== src/Sso.antt =====
-- modules/sso/sso.policy.ts: whom an identity provider may vouch for, and where a sign-in may lead.
-- `lower` is the runtime's toLowerCase. An empty string is falsy, as a missing one is.
pub mod Domains
pub mod Policy
mod Tests
use prime_focus_css_api.Common.{
  ℕ, Bool, true, false, not, ◌&&◌, ◌||◌, Option, none, some, List, [], ◌∷◌, ltb, leb, ◌==◌, any,
  if◌then◌else◌,
}
use prime_focus_css_api.Common.Errors.{AppError, app_error, ErrorCode, Result, ok, err}
use prime_focus_css_api.Sla.Clock.{same_text}
use prime_focus_css_api.Sla.Clock.Windows.{Text, trim}

-- What of the claims the policy reads.
pub record FederatedClaims : Type 0 where
  pub email : Option Text
  pub email_verified : Option Bool

pub record ClaimPolicy : Type 0 where
  pub require_verified_email : Bool
  pub allowed_email_domains : List Text

-- `slice(lastIndexOf('@') + 1)`, where there is an '@'.
unfoldable pub after_last_at : Text → Option Text
after_last_at [] = none
after_last_at (c ∷ cs) = elim (after_last_at cs) [
  | some domain ↦ some domain
  | none ↦ if c == b'@' then some cs else none
]

abbrev pub reject : AppError
reject = app_error 403 ErrorCode.sso_identity_rejected

abbrev pub is_verified : Option Bool → Bool
is_verified none = false
is_verified (some b) = b

abbrev pub is_denied : Option Bool → Bool
is_denied none = false
is_denied (some b) = not b

module _ (lower : Text → Text) where
  unfoldable pub email_domain : Text → Option Text
  unfolding after_last_at
  email_domain [] = none
  email_domain (c ∷ cs) = elim (after_last_at cs) [
    | none ↦ none
    | some [] ↦ none
    | some (d ∷ ds) ↦ some (lower (d ∷ ds))
  ]

  unfoldable pub domain_allowed : Text → List Text → Bool
  unfolding email_domain
  domain_allowed email allowed_domains = elim (email_domain email) [
    | none ↦ false
    | some [] ↦ false
    | some (d ∷ ds) ↦ any (λ allowed. same_text (lower (trim allowed)) (d ∷ ds)) allowed_domains
  ]

  -- The checks on an address that is there.
  unfoldable pub accept : Text → Option Bool → ClaimPolicy → Result Text
  unfolding domain_allowed
  accept email email_verified policy =
      if is_denied email_verified
      then err reject
      else if policy.require_verified_email && not (is_verified email_verified)
      then err reject
      else if not (domain_allowed email policy.allowed_email_domains)
      then err reject
      else ok email

  unfoldable pub assert_claims_acceptable : FederatedClaims → ClaimPolicy → Result Text
  unfolding accept
  assert_claims_acceptable claims policy = elim claims.email [
    | none ↦ err reject
    | some [] ↦ err reject
    | some (c ∷ cs) ↦ accept (c ∷ cs) claims.email_verified policy
  ]

-- `\p{Cc}`
abbrev pub is_control : ℕ → Bool
is_control c = ltb c 32 || (leb 127 c && ltb c 160)

unfoldable pub starts_path : Text → Bool
starts_path [] = false
starts_path (c ∷ []) = c == b'/'
starts_path (c ∷ d ∷ _) = c == b'/' && not (d == b'/')

unfoldable pub is_safe_return_path : Text → Bool
unfolding starts_path
is_safe_return_path value =
    if not (starts_path value) then false else not (any (λ c. c == 92 || is_control c) value)
