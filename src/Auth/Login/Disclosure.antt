-- ===== src/Auth/Login/Disclosure.antt =====
-- What the answer of `login` gives away about the address.
use prime_focus_css_api.Common.{
  ◌≡◌, refl, ◌⊎◌, ◌↔◌, Bool, false, Option, none, some, inl, inr, Bool-cases, Option-cases, Uuid,
  Instant, arith,
}
use prime_focus_css_api.Common.Errors.{err}
use prime_focus_css_api.Sla.Clock.Windows.{Text}
use prime_focus_css_api.Auth.Store.{Hash, Secret, Account, AuthDb, AuthEnv, find_account_by_email}
use prime_focus_css_api.Auth.Login.{
  LoginInput, Draws, generic_credentials_error, normalise_email, login, login_found,
  login_with_hash, login_without_hash, login_proven,
}

module _ (env : AuthEnv) (hash_secret : Secret → Hash) (hash_otp : Secret → Uuid → Hash)
    (lower : Text → Text) (verify : Hash → Text → Bool) where
  -- The account that `login` looks up.
  abbrev pub claimed : LoginInput → AuthDb → Option Account
  claimed input db =
      find_account_by_email (normalise_email lower (normalise_email lower input.email)) db

  -- No such account, or one whose password this is not.
  abbrev pub IsUnproven : LoginInput → AuthDb → Type 0
  IsUnproven input db =
      (claimed input db ≡ none)
      ⊎ ((user : Account) × (hash : Hash) × (claimed input db ≡ some user)
          × (user.password_hash ≡ some hash)
          × (verify hash input.password ≡ false))

  login-hides :
      (input : LoginInput) (draws : Draws) (now : Instant) (db : AuthDb)
      → IsUnproven input db
      → (login env hash_secret hash_otp lower verify input draws now db).0
        ≡ err generic_credentials_error
  unfolding login login_found login_with_hash
  login-hides input draws now db (inl unknown) = rw (unknown, login) refl
  login-hides input draws now db (inr (user, hash, known, has, wrong)) =
      rw (known, login) (rw (has, login_found) (rw (wrong, login_with_hash) refl))

  login-reveals :
      (input : LoginInput) (draws : Draws) (now : Instant) (db : AuthDb)
      → (login env hash_secret hash_otp lower verify input draws now db).0
        ≡ err generic_credentials_error
      → IsUnproven input db
  unfolding login login_found login_with_hash login_without_hash login_proven
  login-reveals input draws now db told = elim (Option-cases (claimed input db)) [
    | inl unknown ↦ inl unknown
    | inr (user, known) ↦ elim (Option-cases user.password_hash) [
      | inl none_set ↦ ground arith
      | inr (hash, has) ↦ elim (Bool-cases (verify hash input.password)) [
        | inr wrong ↦ inr (user, hash, known, has, wrong)
        | inl right ↦ ground arith
      ]
    ]
  ]

  -- login answers invalid_credentials exactly when the address has no account, or one with a
  -- password that is not the one given; no other state of an account can be read from that answer.
  pub login-invalid_credentials :
      (input : LoginInput) (draws : Draws) (now : Instant) (db : AuthDb)
      → ((login env hash_secret hash_otp lower verify input draws now db).0
          ≡ err generic_credentials_error)
        ↔ IsUnproven input db
  login-invalid_credentials input draws now db =
      (login-reveals input draws now db, login-hides input draws now db)
