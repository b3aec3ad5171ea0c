-- ===== src/Auth/Sessions/Traces.antt =====
-- Every way in which modules/auth writes sessions, as a step relation, and what holds after any
-- sequence of steps. A sign-in draws a family id that no session has yet.
use prime_focus_css_api.Common.{
  and_left, ℕ, ◌≤◌, ◌≡◌, Bool, Option, ◌==◌, arith, inl, inr, Bool-cases, ==_iff, Uuid, Instant,
  count-weaken,
}
use prime_focus_css_api.Sla.Clock.Windows.{Text}
use prime_focus_css_api.Auth.Store.{Hash, Secret, AuthDb, AuthEnv, RevokedReason, in_family}
use prime_focus_css_api.Auth.Sessions.{
  refresh, revoke_own_session, revoke_session_for, logout, logout_everywhere, revoke_access,
}
use prime_focus_css_api.Auth.Login.{
  LoginInput, Draws, login, verify_otp, resend_otp, start_session_for_activated_user,
  start_federated_session, record_federated_denial,
}
use prime_focus_css_api.Auth.Passwords.{request_password_reset, reset_password, change_password}
use prime_focus_css_api.Auth.Sessions.Counts.{live_in, live_count, family_size}
use prime_focus_css_api.Auth.Sessions.Moves.{
  Grows, Fewer, revoke_own_session-Fewer, revoke_session_for-Fewer, request_password_reset-Fewer,
  logout-Fewer, logout_everywhere-Fewer, revoke_access-Fewer, login-Grows, verify_otp-Grows,
  start_session_for_activated_user-Grows, start_federated_session-Grows, resend_otp-Fewer,
  record_federated_denial-Fewer, refresh-Fewer, reset_password-Fewer, change_password-Fewer,
}

-- No family has two live sessions.
abbrev pub Single : AuthDb → Type 0
Single db = (f : Uuid) → live_count f db ≤ 1

Fewer-Single : (db after : AuthDb) → Fewer db after → Single db → Single after
Fewer-Single db after fewer single f = omega (arith, fewer f, single f)

Grows-Single :
    (family_id : Uuid) (db after : AuthDb)
    → Grows family_id db after
    → family_size family_id db ≡ 0
    → Single db
    → Single after
unfolding family_size live_count
Grows-Single family_id db after grows fresh single f =
    let weaker =
      count-weaken (live_in f) (in_family f) db.sessions (λ s on. and_left (in_family f s) _ on) in
    elim (Bool-cases (family_id == f)) [
      | inl u ↦
          let fresh_f : family_size f db ≡ 0 = rw (← (==_iff family_id f).0 u) fresh in
          omega (arith, rw u at (grows f), weaker, fresh_f)
      | inr u ↦ omega (arith, rw u at (grows f), single f)
    ]

module _ (env : AuthEnv) (hash_secret : Secret → Hash) (hash_otp : Secret → Uuid → Hash)
    (lower : Text → Text) (verify : Hash → Text → Bool) (hash_password : Text → ℕ → Hash) where
  -- One call, whatever it returns.
  pub data Step : AuthDb → AuthDb → Type 0 where
    signs_in :
        (input : LoginInput) (draws : Draws) (now : Instant) (db : AuthDb)
        → family_size draws.family_id db ≡ 0
        → Step db (login env hash_secret hash_otp lower verify input draws now db).1
    verifies_otp :
        (challenge_id : Uuid) (code : Secret) (remember : Bool) (draws : Draws) (now : Instant)
        (db : AuthDb)
        → family_size draws.family_id db ≡ 0
        → Step db
            (verify_otp env hash_secret hash_otp lower verify challenge_id code remember draws now
              db).1
    activates :
        (user_id : Uuid) (draws : Draws) (now : Instant) (db : AuthDb)
        → family_size draws.family_id db ≡ 0
        → Step db
            (start_session_for_activated_user env hash_secret hash_otp lower verify user_id draws
              now db).1
    federates :
        (user_id : Uuid) (require_otp : Bool) (draws : Draws) (now : Instant) (db : AuthDb)
        → family_size draws.family_id db ≡ 0
        → Step db
            (start_federated_session env hash_secret hash_otp lower verify user_id require_otp draws
              now db).1
    denies_federated :
        (email : Text) (user_id : Option Uuid) (db : AuthDb)
        → Step db (record_federated_denial lower email user_id db)
    resends :
        (challenge_id : Uuid) (code : Secret) (now : Instant) (db : AuthDb)
        → Step db (resend_otp env hash_secret hash_otp lower verify challenge_id code now db).1
    refreshes :
        (presented token : Secret) (now : Instant) (db : AuthDb)
        → Step db (refresh env hash_secret presented token now db).1
    revokes_own :
        (actor_id session_id : Uuid) (now : Instant) (db : AuthDb)
        → Step db (revoke_own_session actor_id session_id now db).1
    revokes_for :
        (user_id session_id : Uuid) (now : Instant) (db : AuthDb)
        → Step db (revoke_session_for user_id session_id now db).1
    logs_out :
        (session_id : Option Uuid) (now : Instant) (db : AuthDb)
        → Step db (logout session_id now db)
    logs_out_everywhere :
        (user_id : Uuid) (now : Instant) (db : AuthDb) → Step db (logout_everywhere user_id now db)
    loses_access :
        (user_id : Uuid) (reason : RevokedReason) (now : Instant) (db : AuthDb)
        → Step db (revoke_access user_id reason now db)
    requests_reset :
        (raw_email : Text) (token : Secret) (now : Instant) (db : AuthDb)
        → Step db (
            request_password_reset env hash_secret lower verify hash_password raw_email token now
              db)
    resets :
        (token : Secret) (new_password : Text) (salt : ℕ) (now : Instant) (db : AuthDb)
        → Step db
            (reset_password env hash_secret lower verify hash_password token new_password salt now
              db).1
    changes :
        (actor_id : Uuid) (current new_password : Text) (salt : ℕ) (now : Instant) (db : AuthDb)
        → Step db
            (change_password env hash_secret lower verify hash_password actor_id current
              new_password salt now db).1

  pub data Steps : AuthDb → AuthDb → Type 0 where
    stop : (db : AuthDb) → Steps db db
    then_step : (db mid after : AuthDb) → Steps db mid → Step mid after → Steps db after

  Step-Single : (db after : AuthDb) → Step db after → Single db → Single after
  Step-Single db _ (signs_in input draws now _ fresh) single =
      Grows-Single draws.family_id db _
        (login-Grows env hash_secret hash_otp lower verify input draws now db) fresh single
  Step-Single db _ (verifies_otp challenge_id code remember draws now _ fresh) single =
      Grows-Single draws.family_id db _
        (verify_otp-Grows env hash_secret hash_otp lower verify challenge_id code remember draws now
          db)
        fresh single
  Step-Single db _ (activates user_id draws now _ fresh) single =
      Grows-Single draws.family_id db _
        (start_session_for_activated_user-Grows env hash_secret hash_otp lower verify user_id draws
          now db)
        fresh single
  Step-Single db _ (federates user_id require_otp draws now _ fresh) single =
      Grows-Single draws.family_id db _
        (start_federated_session-Grows env hash_secret hash_otp lower verify user_id require_otp
          draws now db)
        fresh single
  Step-Single db _ (denies_federated email user_id _) single =
      Fewer-Single db _ (record_federated_denial-Fewer lower email user_id db) single
  Step-Single db _ (resends challenge_id code now _) single =
      Fewer-Single db _
        (resend_otp-Fewer env hash_secret hash_otp lower verify challenge_id code now db) single
  Step-Single db _ (refreshes presented token now _) single =
      Fewer-Single db _ (refresh-Fewer env hash_secret hash_otp lower verify presented token now db)
        single
  Step-Single db _ (revokes_own actor_id session_id now _) single =
      Fewer-Single db _ (revoke_own_session-Fewer actor_id session_id now db) single
  Step-Single db _ (revokes_for user_id session_id now _) single =
      Fewer-Single db _ (revoke_session_for-Fewer user_id session_id now db) single
  Step-Single db _ (logs_out session_id now _) single =
      Fewer-Single db _ (logout-Fewer session_id now db) single
  Step-Single db _ (logs_out_everywhere user_id now _) single =
      Fewer-Single db _ (logout_everywhere-Fewer user_id now db) single
  Step-Single db _ (loses_access user_id reason now _) single =
      Fewer-Single db _ (revoke_access-Fewer user_id reason now db) single
  Step-Single db _ (requests_reset raw_email token now _) single =
      Fewer-Single db _
        (request_password_reset-Fewer env hash_secret hash_otp lower verify hash_password raw_email
          token now db)
        single
  Step-Single db _ (resets token new_password salt now _) single =
      Fewer-Single db _
        (reset_password-Fewer env hash_secret hash_otp lower verify hash_password token new_password
          salt now db)
        single
  Step-Single db _ (changes actor_id current new_password salt now _) single =
      Fewer-Single db _
        (change_password-Fewer env hash_secret hash_otp lower verify hash_password actor_id current
          new_password salt now db)
        single

  -- If no family has two live sessions, none has after any sequence of sign-ins (by password,
  -- code, invitation or provider, each under a family id that no session has), denials by a
  -- provider, resent codes, refreshes, revocations, sign-outs, losses of access, and requests,
  -- resets and changes of passwords, with whatever result.
  pub Steps-Single : (db after : AuthDb) → Steps db after → Single db → Single after
  Steps-Single db _ (stop _) single = single
  Steps-Single db _ (then_step _ mid after before step) single =
      Step-Single mid after step (Steps-Single db mid before single)
