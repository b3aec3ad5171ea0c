-- ===== src/Auth/Sessions.antt =====
-- modules/auth/auth.service.ts: refresh tokens and the sessions behind them. `hash_secret` is the digest
-- of common/utils/crypto.ts; a new refresh token and a new family id are drawn at random, so they are
-- arguments. The access token, a signed claim of the session's id, stands for that id.
pub mod Counts
pub mod Rotation
pub mod Moves
pub mod Traces
use prime_focus_css_api.Common.{
  ℕ, ◌+◌, ◌*◌, Bool, true, false, not, Option, none, some, leb, ◌==◌, is_some, if◌then◌else◌, Uuid,
  Instant,
}
use prime_focus_css_api.Common.Dates.{day_ms}
use prime_focus_css_api.Common.Errors.{
  Resource, ErrorCode, AppError, app_error, not_found_error, Result, ok, err,
}
use prime_focus_css_api.Auth.Store.{
  Hash, Secret, SessionRow, Account, AuthDb, AuthEnv, Outcome, RevokedReason, reuse_detected,
  user_inactive, user_signed_out, revoked_by_admin, user_signed_out_all, refresh_reuse_detected,
  signed_in, session_revoked, logged_out, logged_out_everywhere, left_trail, find_account,
  update_account, with_login, find_session_by_token_hash, find_session_by_id, revoke_session,
  revoke_family, revoke_all_for_user, mark_rotated, insert_session, revoke_all_devices,
}
use prime_focus_css_api.Ticket.Store.{UserStatus, invited, active, suspended}

pub record TokenPair : Type 0 where
  pub session_id : Uuid
  pub refresh_token : Secret

abbrev pub is_active : UserStatus → Bool
is_active active = true
is_active _ = false

abbrev pub session_revoked_error : AppError
session_revoked_error = app_error 401 ErrorCode.session_revoked

abbrev pub account_suspended_error : AppError
account_suspended_error = app_error 403 ErrorCode.account_suspended

module _ (env : AuthEnv) (hash_secret : Secret → Hash) where
  abbrev pub new_session : Uuid → Uuid → Secret → Instant → AuthDb → SessionRow
  new_session user_id family_id token now db = record {
    id = db.next_id;
    user_id = user_id;
    family_id = family_id;
    token_hash = hash_secret token;
    expires_at = now + env.refresh_token_ttl_days * day_ms;
    revoked_at = none;
    revoked_reason = none;
    replaced_by_session_id = none;
  }

  unfoldable pub issue_tokens : Uuid → Uuid → Secret → Instant → AuthDb → TokenPair × AuthDb
  unfolding insert_session
  issue_tokens user_id family_id token now db = (
    record { session_id = db.next_id; refresh_token = token },
    insert_session (new_session user_id family_id token now db) db,
  )

  unfoldable pub complete_login : Uuid → Uuid → Secret → Instant → AuthDb → TokenPair × AuthDb
  unfolding issue_tokens update_account
  complete_login user_id family_id token now db =
      let (tokens, db₁) = issue_tokens user_id family_id token now db in
      (tokens, left_trail (signed_in user_id) (update_account user_id (with_login now) db₁))

  -- The end of `refresh`: the new pair, and the old session marked as rotated into it.
  unfoldable pub rotate_session : SessionRow → Uuid → Secret → Instant → AuthDb → TokenPair × AuthDb
  unfolding issue_tokens mark_rotated
  rotate_session session user_id token now db =
      let (tokens, db₁) = issue_tokens user_id session.family_id token now db in
      elim (find_session_by_token_hash (hash_secret token) db₁) [
        | none ↦ (tokens, db₁)
        | some rotated_into ↦ (tokens, mark_rotated session.id rotated_into.id now db₁)
      ]

  abbrev pub usable : Option Account → Bool
  usable none = false
  usable (some user) = is_active user.status

  -- `refresh` on the session that it finds.
  unfoldable pub refresh_found : SessionRow → Secret → Instant → AuthDb → Outcome TokenPair
  unfolding revoke_family rotate_session
  refresh_found session token now db =
      if is_some session.revoked_at
      then (
        err session_revoked_error,
        left_trail (refresh_reuse_detected session.user_id)
            (revoke_family session.family_id reuse_detected now db),
      )
      else if leb session.expires_at now
      then (err (app_error 401 ErrorCode.session_expired), db)
      else if not (usable (find_account session.user_id db))
      then (err account_suspended_error, revoke_family session.family_id user_inactive now db)
      else (let (tokens, db') = rotate_session session session.user_id token now db in
          (ok tokens, db'))

  unfoldable pub refresh : Secret → Secret → Instant → AuthDb → Outcome TokenPair
  unfolding refresh_found
  refresh presented token now db = elim (find_session_by_token_hash (hash_secret presented) db) [
    | none ↦ (err session_revoked_error, db)
    | some session ↦ refresh_found session token now db
  ]

unfoldable pub revoke_found :
    Option SessionRow → Uuid → Uuid → RevokedReason → Instant → AuthDb → Outcome (Unit {0})
unfolding revoke_session
revoke_found none user_id session_id reason now db = (err (not_found_error Resource.session), db)
revoke_found (some session) user_id session_id reason now db =
    if not (session.user_id == user_id)
    then (err (not_found_error Resource.session), db)
    else (ok tt, left_trail (session_revoked session_id) (revoke_session session_id reason now db))

-- `revokeSession`: the caller's own.
unfoldable pub revoke_own_session : Uuid → Uuid → Instant → AuthDb → Outcome (Unit {0})
unfolding revoke_found
revoke_own_session actor_id session_id now db =
    revoke_found (find_session_by_id session_id db) actor_id session_id user_signed_out now db

-- `revokeSessionFor`: an administrator's, for the user in the path.
unfoldable pub revoke_session_for : Uuid → Uuid → Instant → AuthDb → Outcome (Unit {0})
unfolding revoke_found
revoke_session_for user_id session_id now db = elim (find_account user_id db) [
  | none ↦ (err (not_found_error Resource.user), db)
  | some _ ↦
      revoke_found (find_session_by_id session_id db) user_id session_id revoked_by_admin now db
]

unfoldable pub logout : Option Uuid → Instant → AuthDb → AuthDb
unfolding revoke_session
logout none now db = db
logout (some session_id) now db =
    left_trail (logged_out session_id) (revoke_session session_id user_signed_out now db)

unfoldable pub logout_everywhere : Uuid → Instant → AuthDb → AuthDb
unfolding revoke_all_for_user revoke_all_devices
logout_everywhere user_id now db =
    left_trail (logged_out_everywhere user_id)
      (revoke_all_devices user_id now (revoke_all_for_user user_id user_signed_out_all now db))

unfoldable pub revoke_access : Uuid → RevokedReason → Instant → AuthDb → AuthDb
unfolding revoke_all_for_user revoke_all_devices
revoke_access user_id reason now db =
    revoke_all_devices user_id now (revoke_all_for_user user_id reason now db)

abbrev pub is_live_in : Uuid → AuthDb → Bool
is_live_in session_id db = elim (find_session_by_id session_id db) [
  | none ↦ false
  | some session ↦ not (is_some session.revoked_at)
]

-- `actorFromAccessToken` on the claims `sub` and `sid` of a token that verified.
unfoldable pub actor_from_claims : Uuid → Uuid → AuthDb → Result Account
actor_from_claims sub sid db = elim (find_account sub db) [
  | none ↦ err (app_error 401 ErrorCode.token_invalid)
  | some user ↦
      if not (is_active user.status)
      then err account_suspended_error
      else if not (is_live_in sid db)
      then err session_revoked_error
      else ok user
]

-- `isConnectionStillAuthorised`, for an actor with or without a session.
unfoldable pub is_connection_still_authorised : Uuid → Option Uuid → AuthDb → Bool
is_connection_still_authorised actor_id session_id db = elim (find_account actor_id db) [
  | none ↦ false
  | some user ↦
      if not (is_active user.status)
      then false
      else elim session_id [ none ↦ true | some id ↦ is_live_in id db ]
]
