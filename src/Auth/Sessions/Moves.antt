-- ===== src/Auth/Sessions/Moves.antt =====
-- What each operation of modules/auth does to the number of live sessions of a family.
use prime_focus_css_api.Common.{
  ℕ, ◌+◌, ◌≤◌, ◌≡◌, ap, if◌then◌else◌, Bool, Option, none, some, ◌==◌, arith, inl, inr, Uuid,
  Instant, count,
}
use prime_focus_css_api.Common.Errors.{Result-cases}
use prime_focus_css_api.Sla.Clock.Windows.{Text}
use prime_focus_css_api.Auth.Store.{
  Hash, Secret, SessionRow, Account, AuthDb, AuthEnv, RevokedReason, revoke_all_devices,
  revoke_session, revoke_all_for_user, update_challenge, consume_outstanding_resets,
  insert_password_reset, record_attempt,
}
use prime_focus_css_api.Auth.Sessions.{
  refresh, refresh_found, revoke_own_session, revoke_session_for, logout, logout_everywhere,
  revoke_access, revoke_found,
}
use prime_focus_css_api.Auth.Login.{
  LoginInput, Draws, login, otp_signs_in, login_found, login_with_hash, login_without_hash,
  login_proven, verify_otp, resend_otp, start_session_for_activated_user, start_federated_session,
  record_federated_denial,
}
use prime_focus_css_api.Auth.Passwords.{
  request_password_reset, reset_password, reset_found, commit_reset, change_password, commit_change,
}
use prime_focus_css_api.Auth.Mfa.{
  issue_login_challenge, is_device_trusted, trust_device, verify_login_challenge, verify_found,
  challenge_user_id, resend_login_challenge, resend_found,
}
use prime_focus_css_api.Auth.Sessions.Counts.{
  live_in, live_count, live_count-complete_login, live_count-rotate_session,
  live_count-revoke_where,
}

-- No family gains a live session, but `family_id` one at most.
abbrev pub Grows : Uuid → AuthDb → AuthDb → Type 0
Grows family_id db after =
    (f : Uuid) → live_count f after ≤ live_count f db + (if family_id == f then 1 else 0)

-- No family gains a live session.
abbrev pub Fewer : AuthDb → AuthDb → Type 0
Fewer db after = (f : Uuid) → live_count f after ≤ live_count f db

revoke_found-Fewer :
    (found : Option SessionRow) (user_id session_id : Uuid) (reason : RevokedReason) (now : Instant)
    (db : AuthDb)
    → Fewer db (revoke_found found user_id session_id reason now db).1
unfolding live_count revoke_found revoke_session
revoke_found-Fewer found user_id session_id reason now db f =
    grind (arith, live_count-revoke_where f (λ s. s.id == session_id) reason now db)

pub revoke_own_session-Fewer :
    (actor_id session_id : Uuid) (now : Instant) (db : AuthDb)
    → Fewer db (revoke_own_session actor_id session_id now db).1
unfolding revoke_own_session
revoke_own_session-Fewer actor_id session_id now db =
    revoke_found-Fewer _ actor_id session_id _ now db

pub revoke_session_for-Fewer :
    (user_id session_id : Uuid) (now : Instant) (db : AuthDb)
    → Fewer db (revoke_session_for user_id session_id now db).1
unfolding revoke_session_for
revoke_session_for-Fewer user_id session_id now db f = grind (arith, revoke_found-Fewer)

pub logout-Fewer : (id : Option Uuid) (now : Instant) (db : AuthDb) → Fewer db (logout id now db)
unfolding live_count logout revoke_session
logout-Fewer none now db f = omega arith
logout-Fewer (some id) now db f = live_count-revoke_where f _ _ now db

pub record_federated_denial-Fewer :
    (lower : Text → Text) (email : Text) (user_id : Option Uuid) (db : AuthDb)
    → Fewer db (record_federated_denial lower email user_id db)
unfolding live_count record_federated_denial record_attempt
record_federated_denial-Fewer lower email user_id db f = omega arith

pub logout_everywhere-Fewer :
    (user_id : Uuid) (now : Instant) (db : AuthDb) → Fewer db (logout_everywhere user_id now db)
unfolding live_count logout_everywhere revoke_all_for_user revoke_all_devices
logout_everywhere-Fewer user_id now db f = live_count-revoke_where f _ _ now db

pub revoke_access-Fewer :
    (user_id : Uuid) (reason : RevokedReason) (now : Instant) (db : AuthDb)
    → Fewer db (revoke_access user_id reason now db)
unfolding live_count revoke_access revoke_all_for_user revoke_all_devices
revoke_access-Fewer user_id reason now db f = live_count-revoke_where f _ _ now db

module _ (env : AuthEnv) (hash_secret : Secret → Hash) (hash_otp : Secret → Uuid → Hash)
    (lower : Text → Text) (verify : Hash → Text → Bool) where
  pub login_proven-Grows :
      (user : Account) (email : Text) (device_token : Option Secret) (draws : Draws) (now : Instant)
      (db : AuthDb)
      → Grows draws.family_id db
          (login_proven env hash_secret hash_otp lower verify user email device_token draws now
            db).1
  unfolding live_count login_proven is_device_trusted issue_login_challenge
  login_proven-Grows user email device_token draws now db f =
      grind (arith, live_count-complete_login)

  pub login-Grows :
      (input : LoginInput) (draws : Draws) (now : Instant) (db : AuthDb)
      → Grows draws.family_id db (login env hash_secret hash_otp lower verify input draws now db).1
  unfolding live_count login login_found login_with_hash login_without_hash
  login-Grows input draws now db f = grind (arith, login_proven-Grows)

  pub otp_signs_in-Grows :
      (user_id : Uuid) (remember : Bool) (draws : Draws) (now : Instant) (db : AuthDb)
      → Grows draws.family_id db
          (otp_signs_in env hash_secret hash_otp lower verify user_id remember draws now db).1
  unfolding live_count otp_signs_in trust_device
  otp_signs_in-Grows user_id remember draws now db f = grind (arith, live_count-complete_login)

  verify_login_challenge-sessions :
      (challenge_id : Uuid) (code : Secret) (now : Instant) (db : AuthDb)
      → (verify_login_challenge env hash_otp hash_secret challenge_id code now db).1.sessions
        ≡ db.sessions
  unfolding verify_login_challenge verify_found update_challenge
  verify_login_challenge-sessions challenge_id code now db = ground arith

  pub verify_otp-Grows :
      (challenge_id : Uuid) (code : Secret) (remember : Bool) (draws : Draws) (now : Instant)
      (db : AuthDb)
      → Grows draws.family_id db
          (verify_otp env hash_secret hash_otp lower verify challenge_id code remember draws now
            db).1
  unfolding live_count verify_otp
  verify_otp-Grows challenge_id code remember draws now db f =
      let (verified, db₁) =
        verify_login_challenge env hash_otp hash_secret challenge_id code now db in
      let same : live_count f db₁ ≡ live_count f db =
        ap (count (live_in f)) (verify_login_challenge-sessions challenge_id code now db) in
      elim (Result-cases verified) [
        | inl (e, u) ↦ rw (u, verify_otp) (omega (arith, same))
        | inr (user_id, u) ↦
            rw (u, verify_otp)
              (omega (arith, same, otp_signs_in-Grows user_id remember draws now db₁ f))
      ]

  pub start_session_for_activated_user-Grows :
      (user_id : Uuid) (draws : Draws) (now : Instant) (db : AuthDb)
      → Grows draws.family_id db
          (start_session_for_activated_user env hash_secret hash_otp lower verify user_id draws now
            db).1
  unfolding live_count start_session_for_activated_user
  start_session_for_activated_user-Grows user_id draws now db f =
      grind (arith, live_count-complete_login)

  pub start_federated_session-Grows :
      (user_id : Uuid) (require_otp : Bool) (draws : Draws) (now : Instant) (db : AuthDb)
      → Grows draws.family_id db
          (start_federated_session env hash_secret hash_otp lower verify user_id require_otp draws
            now db).1
  unfolding live_count start_federated_session issue_login_challenge
  start_federated_session-Grows user_id require_otp draws now db f =
      grind (arith, live_count-complete_login)

  pub challenge_user_id_lem :
      (challenge_id : Uuid) (db : AuthDb)
      → (challenge_user_id env hash_otp hash_secret challenge_id db).1 ≡ db
  unfolding challenge_user_id
  challenge_user_id_lem challenge_id db = ground arith

  resend_login_challenge-sessions :
      (challenge_id user_id : Uuid) (code : Secret) (now : Instant) (db : AuthDb)
      → (resend_login_challenge env hash_otp hash_secret challenge_id user_id code now
          db).1.sessions
        ≡ db.sessions
  unfolding resend_login_challenge resend_found update_challenge
  resend_login_challenge-sessions challenge_id user_id code now db = ground arith

  resend_otp-sessions :
      (challenge_id : Uuid) (code : Secret) (now : Instant) (db : AuthDb)
      → (resend_otp env hash_secret hash_otp lower verify challenge_id code now db).1.sessions
        ≡ db.sessions
  unfolding resend_otp
  resend_otp-sessions challenge_id code now db =
      grind (arith, challenge_user_id_lem challenge_id db, resend_login_challenge-sessions)

  pub resend_otp-Fewer :
      (challenge_id : Uuid) (code : Secret) (now : Instant) (db : AuthDb)
      → Fewer db (resend_otp env hash_secret hash_otp lower verify challenge_id code now db).1
  unfolding live_count
  resend_otp-Fewer challenge_id code now db f =
      let same = ap (count (live_in f)) (resend_otp-sessions challenge_id code now db) in
      omega (arith, same)

  pub refresh-Fewer :
      (presented token : Secret) (now : Instant) (db : AuthDb)
      → Fewer db (refresh env hash_secret presented token now db).1
  unfolding live_count refresh refresh_found
  refresh-Fewer presented token now db f =
      grind (arith, live_count-rotate_session env hash_secret f, live_count-revoke_where f)

  pub reset_password-Fewer :
      (hash_password : Text → ℕ → Hash) (token : Secret) (new_password : Text) (salt : ℕ)
      (now : Instant) (db : AuthDb)
      → Fewer db
          (reset_password env hash_secret lower verify hash_password token new_password salt now
            db).1
  unfolding live_count reset_password reset_found commit_reset revoke_all_for_user
  reset_password-Fewer hash_password token new_password salt now db f =
      grind (arith, live_count-revoke_where f)

  pub change_password-Fewer :
      (hash_password : Text → ℕ → Hash) (actor_id : Uuid) (current new_password : Text) (salt : ℕ)
      (now : Instant) (db : AuthDb)
      → Fewer db
          (change_password env hash_secret lower verify hash_password actor_id current new_password
            salt now db).1
  unfolding live_count change_password commit_change revoke_all_for_user
  change_password-Fewer hash_password actor_id current new_password salt now db f =
      grind (arith, live_count-revoke_where f)

  pub request_password_reset-Fewer :
      (hash_password : Text → ℕ → Hash) (raw_email : Text) (token : Secret) (now : Instant)
      (db : AuthDb)
      → Fewer db
          (request_password_reset env hash_secret lower verify hash_password raw_email token now db)
  unfolding live_count request_password_reset consume_outstanding_resets insert_password_reset
  request_password_reset-Fewer hash_password raw_email token now db f = ground arith
