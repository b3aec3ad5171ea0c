-- ===== src/Sso/Domains.antt =====
-- modules/sso/sso.policy.ts: which addresses domainAllowed lets through.
use mathlib.Core.List.{Memᴰ}
use prime_focus_css_api.Common.{
  ℕ, ◌≡◌, refl, ap, ◌∙◌, sym, Bool, true, false, none, some, List, [], ◌∷◌, ◌++◌, ◌==◌, ◌≢◌, any,
  All, inl, inr, Bool-cases, Option-cases, ==_iff,
}
use prime_focus_css_api.Sla.Clock.{same_text}
use prime_focus_css_api.Sla.Clock.Windows.{Text, trim}
use prime_focus_css_api.Sla.Clock.Texts.{same_text_refl, same_text-eq}
use prime_focus_css_api.Sso.{after_last_at, email_domain, domain_allowed}

abbrev pub NoAt : Text → Type 0
NoAt t = All (λ c. (c == b'@') ≡ false) t

after_last_at-host : (host : Text) → NoAt host → after_last_at host ≡ none
unfolding after_last_at
after_last_at-host [] h = refl
after_last_at-host (c ∷ cs) (h, hs) = rw (after_last_at-host cs hs) (rw h refl)

pub after_last_at-address :
    (user host : Text) → NoAt host → after_last_at (user ++ (b'@' ∷ host)) ≡ some host
unfolding after_last_at
after_last_at-address [] host h = rw (after_last_at-host host h) refl
after_last_at-address (c ∷ cs) host h = rw (after_last_at-address cs host h) refl

after_last_at-none : (t : Text) → after_last_at t ≡ none → NoAt t
unfolding after_last_at
after_last_at-none [] h = tt
after_last_at-none (c ∷ cs) h = elim (Option-cases (after_last_at cs)) [
  | inr (host, u) ↦ cc (rw u at h)
  | inl u ↦ elim (Bool-cases (c == b'@')) [
    | inl v ↦ cc (rw v at (rw u at h))
    | inr v ↦ (v, after_last_at-none cs u)
  ]
]

-- What follows the last at-sign, with what stands before it.
after_last_at-some :
    (t host : Text)
    → after_last_at t ≡ some host
    → (user : Text) × (t ≡ user ++ (b'@' ∷ host)) × NoAt host
unfolding after_last_at
after_last_at-some [] host h = cc h
after_last_at-some (c ∷ cs) host h = elim (Option-cases (after_last_at cs)) [
  | inr (rest, u) ↦
      let (user, e, free) = after_last_at-some cs host (u ∙ (rw u at h)) in
      (c ∷ user, ap (λ (x : Text). c ∷ x) e, free)
  | inl u ↦ elim (Bool-cases (c == b'@')) [
    | inr v ↦ cc (rw v at (rw u at h))
    | inl v ↦
        let same : cs ≡ host = cc (rw v at (rw u at h)) in
        let at : c ≡ b'@' = (==_iff c b'@').0 v in
        ([], rw at (ap (λ (x : Text). b'@' ∷ x) same), rw (← same) (after_last_at-none cs u))
  ]
]

any-Mem : (p : Text → Bool) (l : List Text) → any p l ≡ true → (x : Text) × Memᴰ x l × (p x ≡ true)
any-Mem p [] h = cc h
any-Mem p (x ∷ xs) h = elim (Bool-cases (p x)) [
  | inl u ↦ (x, Memᴰ.head refl, u)
  | inr u ↦ let (y, there, v) = any-Mem p xs (rw u at h) in (y, Memᴰ.tail there, v)
]

Mem-any : (p : Text → Bool) (x : Text) (l : List Text) → Memᴰ x l → p x ≡ true → any p l ≡ true
Mem-any p x _ (Memᴰ.head same) h = rw (← same) (rw h refl)
Mem-any p x (y ∷ ys) (Memᴰ.tail there) h = elim (Bool-cases (p y)) [
  | inl u ↦ rw u refl
  | inr u ↦ rw u (Mem-any p x ys there h)
]

module _ (lower : Text → Text) where
  -- An address with something on both sides of its last at-sign, where what follows is, in lower
  -- case, one of the domains, trimmed and in lower case.
  abbrev pub IsFederated : Text → List Text → Type 0
  IsFederated address domains =
      (user host allowed : Text) × (address ≡ user ++ (b'@' ∷ host))
      × NoAt host
      × (user ≢ [])
      × (host ≢ [])
      × (lower host ≢ [])
      × Memᴰ allowed domains
      × (lower (trim allowed) ≡ lower host)

  -- The domain of an address is, in lower case, what follows its last at-sign, where something
  -- stands before and after it.
  email_domain-address :
      (c : ℕ) (user : Text) (d : ℕ) (host : Text)
      → NoAt (d ∷ host)
      → email_domain lower ((c ∷ user) ++ (b'@' ∷ d ∷ host)) ≡ some (lower (d ∷ host))
  unfolding email_domain
  email_domain-address c user d host h =
      rw (after_last_at-address user (d ∷ host) h, email_domain) refl

  email_domain-parts :
      (address domain : Text)
      → email_domain lower address ≡ some domain
      → (user host : Text) × (address ≡ user ++ (b'@' ∷ host))
        × NoAt host
        × (user ≢ [])
        × (host ≢ [])
        × (lower host ≡ domain)
  unfolding email_domain
  email_domain-parts [] domain e = cc e
  email_domain-parts (c ∷ cs) domain e = elim (Option-cases (after_last_at cs)) [
    | inl u ↦ cc (rw (u, email_domain) at e)
    | inr ([], u) ↦ cc (rw (u, email_domain) at e)
    | inr (d ∷ ds, u) ↦
        let (user, split, free) = after_last_at-some cs (d ∷ ds) u in
        let same : lower (d ∷ ds) ≡ domain = cc (rw (u, email_domain) at e) in
        (
          c ∷ user,
          d ∷ ds,
          ap (λ (x : Text). c ∷ x) split,
          free,
          λ none_before. cc none_before,
          λ none_after. cc none_after,
          same,
        )
  ]

  is_listed : Text → Text → Bool
  is_listed domain allowed = same_text (lower (trim allowed)) domain

  domain_allowed-some :
      (address domain : Text) (domains : List Text)
      → email_domain lower address ≡ some domain
      → domain ≢ []
      → domain_allowed lower address domains ≡ any (is_listed domain) domains
  unfolding domain_allowed is_listed
  domain_allowed-some address [] domains e some_domain = absurd (some_domain refl)
  domain_allowed-some address (d ∷ ds) domains e some_domain = rw (e, domain_allowed) refl

  pub IsFederated-domain_allowed :
      (address : Text) (domains : List Text)
      → IsFederated address domains
      → domain_allowed lower address domains ≡ true
  unfolding is_listed
  IsFederated-domain_allowed address domains ([], _, _, _, _, some_user, _, _, _, _) =
      absurd (some_user refl)
  IsFederated-domain_allowed address domains (c ∷ us, [], _, _, _, _, some_host, _, _, _) =
      absurd (some_host refl)
  IsFederated-domain_allowed address domains
        (c ∷ us, d ∷ ds, allowed, e, free, _, _, some_domain, there, same) =
      let found = ap (email_domain lower) e ∙ email_domain-address c us d ds free in
      domain_allowed-some address (lower (d ∷ ds)) domains found some_domain
      ∙ Mem-any (is_listed (lower (d ∷ ds))) allowed domains there
          (rw same (same_text_refl (lower (d ∷ ds))))

  pub domain_allowed-IsFederated :
      (address : Text) (domains : List Text)
      → domain_allowed lower address domains ≡ true
      → IsFederated address domains
  unfolding domain_allowed is_listed
  domain_allowed-IsFederated address domains h = elim (Option-cases (email_domain lower address)) [
    | inl u ↦ cc (rw (u, domain_allowed) at h)
    | inr ([], u) ↦ cc (rw (u, domain_allowed) at h)
    | inr (d ∷ ds, u) ↦
        let (user, host, e, free, some_user, some_host, same) =
          email_domain-parts address (d ∷ ds) u in
        let some_domain : d ∷ ds ≢ [] = λ q. cc q in
        let listed = sym (domain_allowed-some address (d ∷ ds) domains u some_domain) ∙ h in
        let (allowed, there, hit) = any-Mem (is_listed (d ∷ ds)) domains listed in
        (
          user,
          host,
          allowed,
          e,
          free,
          some_user,
          some_host,
          rw same some_domain,
          there,
          same_text-eq _ _ hit ∙ sym same,
        )
  ]
