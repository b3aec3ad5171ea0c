-- ===== src/Sso/Tests.antt =====
-- modules/sso/sso.policy.test.ts: an address of a federated domain, and a path of the console.
use prime_focus_css_api.Common.{◌≡◌, ◌≢◌, ◌↔◌, refl, true, false, some, [], ◌∷◌, ◌==◌, All}
use prime_focus_css_api.Common.Errors.{ok}
use prime_focus_css_api.Sla.Clock.Windows.{Text}
use prime_focus_css_api.Sso.{
  FederatedClaims, ClaimPolicy, is_control, assert_claims_acceptable, is_safe_return_path,
}
use prime_focus_css_api.Sso.Policy.{
  IsAcceptable, assert_claims_acceptable-ok, is_safe_return_path-ok,
}

abbrev lower : Text → Text
lower t = t

abbrev domain : Text
domain = b'c' ∷ b'o' ∷ []

abbrev address : Text
address = b'a' ∷ b'@' ∷ domain

abbrev claims : FederatedClaims
claims = record { email = some address; email_verified = some true }

abbrev policy : ClaimPolicy
policy = record { require_verified_email = true; allowed_email_domains = domain ∷ [] }

assert_claims_acceptable-ok_example :
    (assert_claims_acceptable lower claims policy ≡ ok address)
    ↔ IsAcceptable lower claims policy address
assert_claims_acceptable-ok_example = assert_claims_acceptable-ok lower claims policy address

accepts : assert_claims_acceptable lower claims policy ≡ ok address
unfolding assert_claims_acceptable prime_focus_css_api.Sla.Clock.same_text
    prime_focus_css_api.Sla.Clock.Windows.trim
accepts = refl

abbrev path : Text
path = b'/' ∷ b'm' ∷ b'e' ∷ []

safe : is_safe_return_path path ≡ true
unfolding is_safe_return_path
safe = refl

is_safe_return_path-ok_example :
    (rest : Text) × (path ≡ b'/' ∷ rest)
    × ((tail : Text) → rest ≢ b'/' ∷ tail)
    × All (λ c. ((c == 92) ≡ false) × (is_control c ≡ false)) path
is_safe_return_path-ok_example = is_safe_return_path-ok path safe
