-- ===== src/Sso/Policy.antt =====
-- modules/sso/sso.policy.ts: what an accepted assertion has, and which part of an address counts.
use prime_focus_css_api.Common.{
  ◌≡◌, refl, ap, ◌∙◌, ◌↔◌, inl, inr, Bool-cases, Bool, true, false, ◌||◌, Option, none, some, [],
  ◌∷◌, ◌==◌, ◌≢◌, any, arith, All,
}
use prime_focus_css_api.Common.Errors.{ok}
use prime_focus_css_api.Sla.Clock.Windows.{Text}
use prime_focus_css_api.Sso.{
  FederatedClaims, ClaimPolicy, is_verified, is_denied, email_domain, domain_allowed, accept,
  assert_claims_acceptable, is_control, starts_path, is_safe_return_path,
}
use prime_focus_css_api.Sso.Domains.{
  IsFederated, IsFederated-domain_allowed, domain_allowed-IsFederated,
}

is_denied-refused : (o : Option Bool) → is_denied o ≡ false → o ≢ some false
is_denied-refused none h q = cc q
is_denied-refused (some true) h q = cc q
is_denied-refused (some false) h q = cc h

refused-is_denied : (o : Option Bool) → o ≢ some false → is_denied o ≡ false
refused-is_denied none h = refl
refused-is_denied (some true) h = refl
refused-is_denied (some false) h = absurd (h refl)

is_verified-true : (o : Option Bool) → is_verified o ≡ true → o ≡ some true
is_verified-true none h = cc h
is_verified-true (some b) h = ap some h

accept-ok :
    (lower : Text → Text) (email : Text) (verified : Option Bool) (policy : ClaimPolicy)
    (address : Text)
    → accept lower email verified policy ≡ ok address
    → (email ≡ address)
      × (is_denied verified ≡ false)
      × (policy.require_verified_email ≡ true → is_verified verified ≡ true)
      × (domain_allowed lower email policy.allowed_email_domains ≡ true)
unfolding accept
accept-ok lower email verified policy address e = ground arith

ok-accept :
    (lower : Text → Text) (email : Text) (verified : Option Bool) (policy : ClaimPolicy)
    → is_denied verified ≡ false
    → (policy.require_verified_email ≡ true → is_verified verified ≡ true)
    → domain_allowed lower email policy.allowed_email_domains ≡ true
    → accept lower email verified policy ≡ ok email
unfolding accept
ok-accept lower email verified policy denied proven allowed =
    elim (Bool-cases policy.require_verified_email) [
      | inl u ↦ rw (denied, accept) (rw u (rw (proven u) (rw allowed refl)))
      | inr u ↦ rw (denied, accept) (rw u (rw allowed refl))
    ]

module _ (lower : Text → Text) where
  -- The address is there, not reported as unverified, reported as verified where the provider
  -- requires that, and of an allowed domain.
  abbrev pub IsAcceptable : FederatedClaims → ClaimPolicy → Text → Type 0
  IsAcceptable claims policy address =
      (claims.email ≡ some address)
      × (claims.email_verified ≢ some false)
      × (policy.require_verified_email ≡ true → claims.email_verified ≡ some true)
      × IsFederated lower address policy.allowed_email_domains

  assert_claims_acceptable-IsAcceptable :
      (claims : FederatedClaims) (policy : ClaimPolicy) (address : Text) (o : Option Text)
      → claims.email ≡ o
      → assert_claims_acceptable lower claims policy ≡ ok address
      → IsAcceptable claims policy address
  unfolding assert_claims_acceptable
  assert_claims_acceptable-IsAcceptable claims policy address none q h =
      cc (rw (q, assert_claims_acceptable) at h)
  assert_claims_acceptable-IsAcceptable claims policy address (some []) q h =
      cc (rw (q, assert_claims_acceptable) at h)
  assert_claims_acceptable-IsAcceptable claims policy address (some (c ∷ cs)) q h =
      let (same, denied, verified, allowed) =
        accept-ok lower (c ∷ cs) claims.email_verified policy address
          (rw (q, assert_claims_acceptable) at h) in
      (
        q ∙ ap some same,
        is_denied-refused claims.email_verified denied,
        λ wanted. is_verified-true claims.email_verified (verified wanted),
        rw same at (domain_allowed-IsFederated lower (c ∷ cs) policy.allowed_email_domains allowed),
      )

  IsAcceptable-assert_claims_acceptable :
      (claims : FederatedClaims) (policy : ClaimPolicy) (address : Text)
      → IsAcceptable claims policy address
      → assert_claims_acceptable lower claims policy ≡ ok address
  unfolding assert_claims_acceptable domain_allowed email_domain
  IsAcceptable-assert_claims_acceptable claims policy [] (q, denied, proven, federated) =
      cc (IsFederated-domain_allowed lower [] policy.allowed_email_domains federated)
  IsAcceptable-assert_claims_acceptable claims policy (c ∷ cs) (q, denied, proven, federated) =
      rw (q, assert_claims_acceptable)
        (ok-accept lower (c ∷ cs) claims.email_verified policy
          (refused-is_denied claims.email_verified denied)
          (λ wanted. ap is_verified (proven wanted))
          (IsFederated-domain_allowed lower (c ∷ cs) policy.allowed_email_domains federated))

  -- assertClaimsAcceptable gives an address exactly when that is the address of the claims, it is
  -- not reported as unverified, is reported as verified where the provider requires that, and has
  -- something on both sides of its last at-sign, what follows being, in lower case and not empty,
  -- one of the allowed domains, trimmed and in lower case.
  pub assert_claims_acceptable-ok :
      (claims : FederatedClaims) (policy : ClaimPolicy) (address : Text)
      → (assert_claims_acceptable lower claims policy ≡ ok address)
        ↔ IsAcceptable claims policy address
  assert_claims_acceptable-ok claims policy address = (
    assert_claims_acceptable-IsAcceptable claims policy address claims.email refl,
    IsAcceptable-assert_claims_acceptable claims policy address,
  )

safe-All :
    (value : Text)
    → any (λ c. c == 92 || is_control c) value ≡ false
    → All (λ c. ((c == 92) ≡ false) × (is_control c ≡ false)) value
safe-All [] h = tt
safe-All (c ∷ cs) h = (ground arith, safe-All cs (ground arith))

-- A return path that is accepted is a slash followed by something that does not begin with a
-- slash, and has no backslash and no control character.
pub is_safe_return_path-ok :
    (value : Text)
    → is_safe_return_path value ≡ true
    → (rest : Text) × (value ≡ b'/' ∷ rest)
      × ((tail : Text) → rest ≢ b'/' ∷ tail)
      × All (λ c. ((c == 92) ≡ false) × (is_control c ≡ false)) value
unfolding is_safe_return_path starts_path
is_safe_return_path-ok [] h = cc h
is_safe_return_path-ok (c ∷ []) h =
    let slash : c ≡ b'/' = ground arith in
    ([], rw slash refl, λ tail e. cc e, safe-All (c ∷ []) (ground arith))
is_safe_return_path-ok (c ∷ d ∷ ds) h =
    let slash : c ≡ b'/' = ground arith in
    let once : (d == b'/') ≡ false = ground arith in
    (
      d ∷ ds,
      rw slash refl,
      λ tail e. let same : d ≡ b'/' = cc e in ground arith,
      safe-All (c ∷ d ∷ ds) (ground arith),
    )
