-- ===== src/Auth/Login/Lockout.antt =====
-- How repeated wrong passwords lock an account.
use prime_focus_css_api.Common.{
  suc, ◌+◌, ◌*◌, ◌<◌, ◌≡◌, refl, Bool, true, false, some, List, [], ◌∷◌, ◌==◌, length, All, inl,
  inr, Bool-cases, ==_refl, Uuid, Instant, arith, find_where-update, update_where, lt→ltb,
}
use prime_focus_css_api.Common.Errors.{ErrorCode, app_error, Result, err}
use prime_focus_css_api.Sla.Clock.Windows.{Text}
use prime_focus_css_api.Sla.Clock.Zone.{minute_ms}
use prime_focus_css_api.Auth.Store.{
  Hash, Secret, Account, AuthDb, AuthEnv, find_account_by_email, update_account, record_attempt,
  with_failures, has_email,
}
use prime_focus_css_api.Auth.Login.{
  LoginResult, LoginInput, Draws, normalise_email, login, login_found, login_with_hash,
  register_failed_password, locks, failed_count, failed_lock,
}

-- A call of `login`.
pub record Attempt : Type 0 where
  pub input : LoginInput
  pub draws : Draws
  pub at : Instant

module _ (env : AuthEnv) (hash_secret : Secret → Hash) (hash_otp : Secret → Uuid → Hash)
    (lower : Text → Text) (verify : Hash → Text → Bool) where
  abbrev pub attempt : Attempt → AuthDb → Result LoginResult × AuthDb
  attempt a db = login env hash_secret hash_otp lower verify a.input a.draws a.at db

  -- The database after some calls, one after the other.
  unfoldable pub attempt_all : List Attempt → AuthDb → AuthDb
  attempt_all [] db = db
  attempt_all (a ∷ rest) db = attempt_all rest (attempt a db).1

  -- An attempt on the address `key` with another password than the one of `hash`.
  abbrev pub IsFor : Text → Attempt → Type 0
  IsFor key a = normalise_email lower (normalise_email lower a.input.email) ≡ key

  abbrev pub IsWrong : Text → Hash → Attempt → Type 0
  IsWrong key hash a = IsFor key a × (verify hash a.input.password ≡ false)

  wrong_attempt_lem :
      (key : Text) (hash : Hash) (user : Account) (a : Attempt) (db : AuthDb)
      → find_account_by_email key db ≡ some user
      → user.password_hash ≡ some hash
      → IsWrong key hash a
      → (attempt a db).1
        ≡ register_failed_password env user (normalise_email lower a.input.email) a.at db
  unfolding login login_found login_with_hash
  wrong_attempt_lem key hash user a db found has (same, wrong) =
      let seen : find_account_by_email (normalise_email lower (normalise_email lower a.input.email))
            db
          ≡ some user =
        rw (same) found in
      rw (seen, login) (rw (has, login_found) (rw (wrong, login_with_hash) refl))

  register_failed_password-accounts :
      (user : Account) (email : Text) (now : Instant) (db : AuthDb)
      → (register_failed_password env user email now db).accounts
        ≡ update_where
            (λ (b : Account). b.id == user.id)
            (with_failures (failed_count env user) (failed_lock env user now))
            db.accounts
  unfolding register_failed_password update_account record_attempt
  register_failed_password-accounts user email now db = elim (Bool-cases (locks env user)) [
    | inl u ↦ rw (u, register_failed_password) refl
    | inr u ↦ rw (u, register_failed_password) refl
  ]

  wrong_attempt :
      (key : Text) (hash : Hash) (user : Account) (a : Attempt) (db : AuthDb)
      → find_account_by_email key db ≡ some user
      → user.password_hash ≡ some hash
      → IsWrong key hash a
      → find_account_by_email key (attempt a db).1
        ≡ some (with_failures (failed_count env user) (failed_lock env user a.at) user)
  unfolding find_account_by_email
  wrong_attempt key hash user a db found has wrong =
      let after =
        find_where-update (has_email key) (λ (b : Account). b.id == user.id)
          (with_failures (failed_count env user) (failed_lock env user a.at)) db.accounts
          (λ b. refl) found in
      let written =
        register_failed_password-accounts user (normalise_email lower a.input.email) a.at db in
      let reached = rw (==_refl user.id) at after in
      rw (wrong_attempt_lem key hash user a db found has wrong) (rw written reached)

  -- Wrong passwords short of the limit are counted.
  wrong_attempts :
      (key : Text) (hash : Hash) (user : Account) (wrong : List Attempt) (db : AuthDb)
      → find_account_by_email key db ≡ some user
      → user.password_hash ≡ some hash
      → All (IsWrong key hash) wrong
      → user.failed_login_attempts + length wrong < env.max_failed_logins
      → find_account_by_email key (attempt_all wrong db)
        ≡ some (with_failures (user.failed_login_attempts + length wrong) user.locked_until user)
  unfolding attempt_all
  wrong_attempts key hash user [] db found has _ below =
      let zero_more : user.failed_login_attempts + 0 ≡ user.failed_login_attempts = omega arith in
      rw zero_more found
  wrong_attempts key hash user (a ∷ rest) db found has (first, others) below =
      let not_yet : locks env user ≡ false = ground (arith, below) in
      let next = rw not_yet at (wrong_attempt key hash user a db found has first) in
      let counted : user.failed_login_attempts + 1 + length rest < env.max_failed_logins =
        omega (arith, below) in
      let ih =
        wrong_attempts key hash
          (with_failures (user.failed_login_attempts + 1) user.locked_until user) rest
          (attempt a db).1 next has others counted in
      let total : user.failed_login_attempts + 1 + length rest
          ≡ user.failed_login_attempts + suc (length rest) =
        omega arith in
      rw (← total) ih

  -- When wrong passwords bring the failures of an account to the limit, a login with the right
  -- password before the lock of the last of them runs out answers account_locked.
  pub login-lockout :
      (key : Text) (hash : Hash) (user : Account) (wrong : List Attempt) (last next : Attempt)
      (db : AuthDb)
      → find_account_by_email key db ≡ some user
      → user.password_hash ≡ some hash
      → All (IsWrong key hash) wrong
      → IsWrong key hash last
      → user.failed_login_attempts + length wrong + 1 ≡ env.max_failed_logins
      → IsFor key next
      → verify hash next.input.password ≡ true
      → next.at < last.at + env.account_lock_minutes * minute_ms
      → (attempt next (attempt last (attempt_all wrong db)).1).0
        ≡ err (app_error 403 ErrorCode.account_locked)
  unfolding login login_found login_with_hash
  login-lockout key hash user wrong last next db found has wrongs last_wrong limit same right
        early =
      let db₁ = attempt_all wrong db in
      let n = user.failed_login_attempts + length wrong in
      let counted = wrong_attempts key hash user wrong db found has wrongs (omega (arith, limit)) in
      let user₁ = with_failures n user.locked_until user in
      let shut : locks env user₁ ≡ true = ground (arith, limit) in
      let locked = rw shut at (wrong_attempt key hash user₁ last db₁ counted has last_wrong) in
      let db₂ = (attempt last db₁).1 in
      let seen : find_account_by_email
            (normalise_email lower (normalise_email lower next.input.email)) db₂
          ≡ some (with_failures 0 (some (last.at + env.account_lock_minutes * minute_ms)) user₁) =
        rw same locked in
      rw (seen, login)
        (rw (has, login_found) (rw (right, login_with_hash) (rw (lt→ltb next.at _ early) refl)))
