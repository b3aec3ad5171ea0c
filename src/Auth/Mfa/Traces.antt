-- ===== src/Auth/Mfa/Traces.antt =====
-- The steps of Auth.Sessions.Traces, and the one code that each user has in flight at most.
use prime_focus_css_api.Common.{ℕ, ◌≡◌, refl, ap, Bool, Option, Uuid, Instant, arith, count}
use prime_focus_css_api.Sla.Clock.Windows.{Text}
use prime_focus_css_api.Auth.Store.{
  Hash, Secret, AuthDb, AuthEnv, revoke_family, revoke_session, revoke_where, revoke_all_for_user,
  record_attempt, revoke_all_devices, is_live_challenge, insert_session, mark_rotated,
  update_account, mark_password_reset_used, consume_outstanding_resets, insert_password_reset,
}
use prime_focus_css_api.Auth.Sessions.{
  complete_login, issue_tokens, refresh, refresh_found, rotate_session, revoke_found,
  revoke_own_session, revoke_session_for, logout, logout_everywhere, revoke_access,
}
use prime_focus_css_api.Auth.Login.{
  Draws, start_session_for_activated_user, record_federated_denial,
}
use prime_focus_css_api.Auth.Passwords.{
  request_password_reset, reset_password, reset_found, commit_reset, change_password, commit_change,
}
use prime_focus_css_api.Auth.Mfa.Challenges.{live_challenges, SingleChallenge}
use prime_focus_css_api.Auth.Mfa.Moves.{
  Capped, login-Capped, verify_otp-Capped, resend_otp-Capped, start_federated_session-Capped,
}
use prime_focus_css_api.Auth.Sessions.Traces.{
  Step, Steps, signs_in, verifies_otp, activates, federates, denies_federated, resends, refreshes,
  revokes_own, revokes_for, logs_out, logs_out_everywhere, loses_access, requests_reset, resets,
  changes, stop, then_step,
}

Capped-SingleChallenge :
    (db after : AuthDb) → Capped db after → SingleChallenge db → SingleChallenge after
unfolding SingleChallenge
Capped-SingleChallenge db after capped single u = omega (arith, capped u, single u)

same-SingleChallenge :
    (db after : AuthDb)
    → after.challenges ≡ db.challenges
    → SingleChallenge db
    → SingleChallenge after
unfolding SingleChallenge live_challenges
same-SingleChallenge db after same single u =
    let counted = ap (count (is_live_challenge u)) same in omega (arith, counted, single u)

module _ (env : AuthEnv) (hash_secret : Secret → Hash) (hash_otp : Secret → Uuid → Hash)
    (lower : Text → Text) (verify : Hash → Text → Bool) (hash_password : Text → ℕ → Hash) where
  start_session_for_activated_user-challenges :
      (user_id : Uuid) (draws : Draws) (now : Instant) (db : AuthDb)
      → (start_session_for_activated_user env hash_secret hash_otp lower verify user_id draws now
          db).1.challenges
        ≡ db.challenges
  unfolding start_session_for_activated_user issue_tokens insert_session update_account
      complete_login
  start_session_for_activated_user-challenges user_id draws now db = ground arith

  refresh-challenges :
      (presented token : Secret) (now : Instant) (db : AuthDb)
      → (refresh env hash_secret presented token now db).1.challenges ≡ db.challenges
  unfolding refresh refresh_found rotate_session issue_tokens insert_session mark_rotated
      revoke_family revoke_where
  refresh-challenges presented token now db = ground arith

  revoke_own_session-challenges :
      (actor_id session_id : Uuid) (now : Instant) (db : AuthDb)
      → (revoke_own_session actor_id session_id now db).1.challenges ≡ db.challenges
  unfolding revoke_own_session revoke_found revoke_session revoke_where
  revoke_own_session-challenges actor_id session_id now db = ground arith

  revoke_session_for-challenges :
      (user_id session_id : Uuid) (now : Instant) (db : AuthDb)
      → (revoke_session_for user_id session_id now db).1.challenges ≡ db.challenges
  unfolding revoke_session_for revoke_found revoke_session revoke_where
  revoke_session_for-challenges user_id session_id now db = ground arith

  logout-challenges :
      (session_id : Option Uuid) (now : Instant) (db : AuthDb)
      → (logout session_id now db).challenges ≡ db.challenges
  unfolding logout revoke_session revoke_where
  logout-challenges session_id now db = ground arith

  request_password_reset-challenges :
      (raw_email : Text) (token : Secret) (now : Instant) (db : AuthDb)
      → (request_password_reset env hash_secret lower verify hash_password raw_email token now
          db).challenges
        ≡ db.challenges
  unfolding request_password_reset consume_outstanding_resets insert_password_reset
  request_password_reset-challenges raw_email token now db = ground arith

  reset_password-challenges :
      (token : Secret) (new_password : Text) (salt : ℕ) (now : Instant) (db : AuthDb)
      → (reset_password env hash_secret lower verify hash_password token new_password salt now
          db).1.challenges
        ≡ db.challenges
  unfolding reset_password reset_found commit_reset update_account mark_password_reset_used
      revoke_all_for_user revoke_where revoke_all_devices
  reset_password-challenges token new_password salt now db = ground arith

  change_password-challenges :
      (actor_id : Uuid) (current new_password : Text) (salt : ℕ) (now : Instant) (db : AuthDb)
      → (change_password env hash_secret lower verify hash_password actor_id current new_password
          salt now db).1.challenges
        ≡ db.challenges
  unfolding change_password commit_change update_account revoke_all_for_user revoke_where
      revoke_all_devices
  change_password-challenges actor_id current new_password salt now db = ground arith

  Step-SingleChallenge :
      (db after : AuthDb)
      → Step env hash_secret hash_otp lower verify hash_password db after
      → SingleChallenge db
      → SingleChallenge after
  unfolding logout_everywhere revoke_access revoke_all_for_user revoke_where revoke_all_devices
      record_federated_denial record_attempt
  Step-SingleChallenge db _ (signs_in input draws now _ fresh) single =
      Capped-SingleChallenge db _
        (login-Capped env hash_secret hash_otp lower verify input draws now db) single
  Step-SingleChallenge db _ (verifies_otp challenge_id code remember draws now _ fresh) single =
      Capped-SingleChallenge db _
        (verify_otp-Capped env hash_secret hash_otp lower verify challenge_id code remember draws
          now db)
        single
  Step-SingleChallenge db _ (federates user_id require_otp draws now _ fresh) single =
      Capped-SingleChallenge db _
        (start_federated_session-Capped env hash_secret hash_otp lower verify user_id require_otp
          draws now db)
        single
  Step-SingleChallenge db _ (resends challenge_id code now _) single =
      Capped-SingleChallenge db _
        (resend_otp-Capped env hash_secret hash_otp lower verify challenge_id code now db) single
  Step-SingleChallenge db _ (denies_federated email user_id _) single =
      same-SingleChallenge db _ refl single
  Step-SingleChallenge db _ (activates user_id draws now _ fresh) single =
      same-SingleChallenge db _ (start_session_for_activated_user-challenges user_id draws now db)
        single
  Step-SingleChallenge db _ (refreshes presented token now _) single =
      same-SingleChallenge db _ (refresh-challenges presented token now db) single
  Step-SingleChallenge db _ (revokes_own actor_id session_id now _) single =
      same-SingleChallenge db _ (revoke_own_session-challenges actor_id session_id now db) single
  Step-SingleChallenge db _ (revokes_for user_id session_id now _) single =
      same-SingleChallenge db _ (revoke_session_for-challenges user_id session_id now db) single
  Step-SingleChallenge db _ (logs_out session_id now _) single =
      same-SingleChallenge db _ (logout-challenges session_id now db) single
  Step-SingleChallenge db _ (logs_out_everywhere user_id now _) single =
      same-SingleChallenge db _ refl single
  Step-SingleChallenge db _ (loses_access user_id reason now _) single =
      same-SingleChallenge db _ refl single
  Step-SingleChallenge db _ (requests_reset raw_email token now _) single =
      same-SingleChallenge db _ (request_password_reset-challenges raw_email token now db) single
  Step-SingleChallenge db _ (resets token new_password salt now _) single =
      same-SingleChallenge db _ (reset_password-challenges token new_password salt now db) single
  Step-SingleChallenge db _ (changes actor_id current new_password salt now _) single =
      same-SingleChallenge db _
        (change_password-challenges actor_id current new_password salt now db) single

  -- If each user has one open challenge at most, so it is after any sequence of sign-ins (by
  -- password, code, invitation or provider, each under a family id that no session has), denials
  -- by a provider, resent codes, refreshes, revocations, sign-outs, losses of access, and
  -- requests, resets and changes of passwords, with whatever result.
  pub Steps-SingleChallenge :
      (db after : AuthDb)
      → Steps env hash_secret hash_otp lower verify hash_password db after
      → SingleChallenge db
      → SingleChallenge after
  Steps-SingleChallenge db _ (stop _) single = single
  Steps-SingleChallenge db _ (then_step _ mid after before step) single =
      Step-SingleChallenge mid after step (Steps-SingleChallenge db mid before single)
