-- ===== src/Auth/Mfa/Moves.antt =====
-- What each operation of modules/auth does to the number of codes that a user has in flight.
use prime_focus_css_api.Common.{◌≤◌, max, ◌≡◌, ap, Bool, Uuid, Instant, arith, inl, inr, count}
use prime_focus_css_api.Common.Errors.{Result-cases}
use prime_focus_css_api.Sla.Clock.Windows.{Text}
use prime_focus_css_api.Auth.Store.{Hash, Secret, AuthDb, AuthEnv, is_live_challenge}
use prime_focus_css_api.Auth.Mfa.{is_device_trusted, trust_device, verify_login_challenge}
use prime_focus_css_api.Auth.Mfa.Challenges.{live_challenges, issue-live, resend-live, verify-live}
use prime_focus_css_api.Auth.Login.{
  LoginInput, Draws, login, login_found, login_with_hash, login_without_hash, login_proven,
  register_failed_password, verify_otp, otp_signs_in, resend_otp, start_federated_session,
}
use prime_focus_css_api.Auth.Sessions.Moves.{challenge_user_id_lem}
use prime_focus_css_api.Auth.Sessions.{complete_login}

-- No user gains a code, but the first.
abbrev pub Capped : AuthDb → AuthDb → Type 0
Capped db after = (u : Uuid) → live_challenges u after ≤ max 1 (live_challenges u db)

module _ (env : AuthEnv) (hash_secret : Secret → Hash) (hash_otp : Secret → Uuid → Hash)
    (lower : Text → Text) (verify : Hash → Text → Bool) where
  complete_login-challenges :
      (user_id family_id : Uuid) (token : Secret) (now : Instant) (db : AuthDb)
      → (complete_login env hash_secret user_id family_id token now db).1.challenges ≡ db.challenges
  unfolding complete_login
  complete_login-challenges user_id family_id token now db = ground arith

  pub login-Capped :
      (input : LoginInput) (draws : Draws) (now : Instant) (db : AuthDb)
      → Capped db (login env hash_secret hash_otp lower verify input draws now db).1
  unfolding live_challenges login login_found login_with_hash login_without_hash login_proven
      register_failed_password is_device_trusted complete_login
  login-Capped input draws now db u = grind (arith, issue-live env hash_otp hash_secret u)

  otp_signs_in-challenges :
      (user_id : Uuid) (remember : Bool) (draws : Draws) (now : Instant) (db : AuthDb)
      → (otp_signs_in env hash_secret hash_otp lower verify user_id remember draws now
          db).1.challenges
        ≡ db.challenges
  unfolding otp_signs_in complete_login trust_device
  otp_signs_in-challenges user_id remember draws now db = ground arith

  pub verify_otp-Capped :
      (challenge_id : Uuid) (code : Secret) (remember : Bool) (draws : Draws) (now : Instant)
      (db : AuthDb)
      → Capped db
          (verify_otp env hash_secret hash_otp lower verify challenge_id code remember draws now
            db).1
  unfolding live_challenges verify_otp
  verify_otp-Capped challenge_id code remember draws now db u =
      let (verified, db₁) =
        verify_login_challenge env hash_otp hash_secret challenge_id code now db in
      let fewer = verify-live env hash_otp hash_secret u challenge_id code now db in
      elim (Result-cases verified) [
        | inl (e, r) ↦ rw (r, verify_otp) (omega (arith, fewer))
        | inr (user_id, r) ↦
            let same =
              ap (count (is_live_challenge u))
                (otp_signs_in-challenges user_id remember draws now db₁) in
            rw (r, verify_otp) (omega (arith, fewer, same))
      ]

  pub resend_otp-Capped :
      (challenge_id : Uuid) (code : Secret) (now : Instant) (db : AuthDb)
      → Capped db (resend_otp env hash_secret hash_otp lower verify challenge_id code now db).1
  unfolding live_challenges resend_otp
  resend_otp-Capped challenge_id code now db u = grind (
    arith,
    challenge_user_id_lem env hash_secret hash_otp lower verify challenge_id db,
    resend-live env hash_otp hash_secret u,
  )

  pub start_federated_session-Capped :
      (user_id : Uuid) (require_otp : Bool) (draws : Draws) (now : Instant) (db : AuthDb)
      → Capped db
          (start_federated_session env hash_secret hash_otp lower verify user_id require_otp draws
            now db).1
  unfolding live_challenges start_federated_session complete_login
  start_federated_session-Capped user_id require_otp draws now db u =
      grind (arith, issue-live env hash_otp hash_secret u)
