-- ===== src/Invitation.antt =====
-- src/modules/invitation: invitation.service.ts over invitation.repository.ts, but for the creation of
-- invited accounts. The tables of Auth stand beside the one of invitations. A transaction that throws
-- leaves both as they were.
pub mod Accepts
mod Tests
use prime_focus_css_api.Common.{
  ℕ, ◌+◌, ◌*◌, Bool, true, false, not, ◌&&◌, Option, none, some, List, [], ◌∷◌, leb, ◌==◌, is_some,
  is_none, if◌then◌else◌, Uuid, Instant, find_where, update_where,
}
use mathlib.Core.List.{reverse}
use prime_focus_css_api.Common.Errors.{
  Resource, ErrorCode, AppError, app_error, not_found_error, conflict_error, Result, ok, err,
}
use prime_focus_css_api.Sla.Clock.Windows.{Text}
use prime_focus_css_api.Ticket.Store.{active}
use prime_focus_css_api.Auth.Store.{Hash, Secret, Account, AuthDb, AuthEnv, update_account}
use prime_focus_css_api.Auth.Sessions.{TokenPair}
use prime_focus_css_api.Auth.Login.{Draws, start_session_for_activated_user}
use prime_focus_css_api.Auth.Passwords.{assert_password_acceptable}

pub record InvitationRow : Type 0 where
  pub id : Uuid
  pub user_id : Uuid
  pub email : Text
  pub token_hash : Hash
  pub expires_at : Instant
  pub accepted_at : Option Instant
  pub revoked_at : Option Instant
  pub last_sent_at : Instant
  pub send_count : ℕ

pub record Tables : Type 0 where
  pub auth : AuthDb
  pub invitations : List InvitationRow

abbrev pub max_sends : ℕ
max_sends = 5

abbrev pub has_token_hash : Hash → InvitationRow → Bool
has_token_hash hash i = i.token_hash == hash

abbrev pub has_invitation_id : Uuid → InvitationRow → Bool
has_invitation_id id i = i.id == id

abbrev pub is_live_for : Uuid → InvitationRow → Bool
is_live_for user_id i = i.user_id == user_id && is_none i.accepted_at && is_none i.revoked_at

unfoldable pub find_by_token_hash : Hash → Tables → Option InvitationRow
find_by_token_hash hash w = find_where (has_token_hash hash) w.invitations

unfoldable pub find_invitation : Uuid → Tables → Option InvitationRow
find_invitation id w = find_where (has_invitation_id id) w.invitations

-- The newest one: rows stand in the order of their creation.
unfoldable pub find_live_for_user : Uuid → Tables → Option InvitationRow
find_live_for_user user_id w = find_where (is_live_for user_id) (reverse w.invitations)

abbrev pub accepted : Instant → InvitationRow → InvitationRow
accepted now i = record i { accepted_at = some now }

unfoldable pub mark_accepted : Uuid → Instant → Tables → Tables
mark_accepted id now w = record w {
  invitations = update_where (has_invitation_id id) (accepted now) w.invitations;
}

-- `repository.revoke`
unfoldable pub revoke_row : Uuid → Instant → Tables → Tables
revoke_row id now w = record w {
  invitations =
      update_where (λ i. has_invitation_id id i && is_none i.revoked_at && is_none i.accepted_at)
        (λ i. record i { revoked_at = some now }) w.invitations;
}

unfoldable pub refresh_token : Uuid → Hash → Instant → ℕ → Instant → Tables → Tables
refresh_token id hash expires_at sends now w = record w {
  invitations =
      update_where (has_invitation_id id)
        (λ i. record i {
          token_hash = hash;
          expires_at = expires_at;
          send_count = sends;
          last_sent_at = now;
        })
        w.invitations;
}

-- `userService.activate`
abbrev pub activated : Hash → Account → Account
activated hash a = record a {
  password_hash = some hash;
  status = active;
  failed_login_attempts = 0;
  locked_until = none;
}

-- `revoke`
unfoldable pub revoke_invitation : Uuid → Instant → Tables → Result (Unit {0}) × Tables
unfolding revoke_row
revoke_invitation id now w = elim (find_invitation id w) [
  | none ↦ (err (not_found_error Resource.invitation), w)
  | some i ↦
      if is_some i.accepted_at
      then (err (app_error 409 ErrorCode.invitation_already_accepted), w)
      else (ok tt, revoke_row id now w)
]

unfoldable pub revoke_live_for_user : Uuid → Instant → Tables → Tables
unfolding revoke_row
revoke_live_for_user user_id now w = elim (find_live_for_user user_id w) [
  | none ↦ w
  | some i ↦ revoke_row i.id now w
]

unfoldable pub mark_accepted_by_federation : Uuid → Instant → Tables → Tables
unfolding mark_accepted
mark_accepted_by_federation user_id now w = elim (find_live_for_user user_id w) [
  | none ↦ w
  | some i ↦ mark_accepted i.id now w
]

-- `resend`, with the hours that an invitation lives, the new token being drawn.
unfoldable pub resend :
    (Secret → Hash) → ℕ → Uuid → Secret → Instant → Tables → Result Uuid × Tables
unfolding refresh_token
resend hash_secret ttl_hours id token now w = elim (find_invitation id w) [
  | none ↦ (err (not_found_error Resource.invitation), w)
  | some i ↦
      if is_some i.accepted_at
      then (err (app_error 409 ErrorCode.invitation_already_accepted), w)
      else if is_some i.revoked_at
      then (err (app_error 409 ErrorCode.invitation_revoked), w)
      else if leb max_sends i.send_count
      then (err conflict_error, w)
      else (
        ok i.id,
        refresh_token id (hash_secret token) (now + ttl_hours * 3600000) (i.send_count + 1) now w,
      )
]

module _ (env : AuthEnv) (hash_secret : Secret → Hash) (hash_otp : Secret → Uuid → Hash)
    (lower : Text → Text) (verify : Hash → Text → Bool) (hash_password : Text → ℕ → Hash) where
  unfoldable pub require_usable : Secret → Instant → Tables → Result InvitationRow
  require_usable token now w = elim (find_by_token_hash (hash_secret token) w) [
    | none ↦ err (app_error 400 ErrorCode.invitation_invalid)
    | some i ↦
        if is_some i.accepted_at
        then err (app_error 409 ErrorCode.invitation_already_accepted)
        else if is_some i.revoked_at
        then err (app_error 410 ErrorCode.invitation_revoked)
        else if leb i.expires_at now
        then err (app_error 410 ErrorCode.invitation_expired)
        else ok i
  ]

  -- The transaction of `accept`.
  unfoldable pub commit_accept :
      InvitationRow → Hash → Instant → Tables → Result (Unit {0}) × Tables
  unfolding mark_accepted update_account
  commit_accept i hash now w =
      elim (find_where (λ (a : Account). a.id == i.user_id) w.auth.accounts) [
        | none ↦ (err (not_found_error Resource.invited_account), w)
        | some _ ↦ (
          ok tt,
          mark_accepted i.id now
              (record w { auth = update_account i.user_id (activated hash) w.auth }),
        )
      ]

  -- The session that follows it.
  unfoldable pub start_session : Uuid → Draws → Instant → Tables → Result TokenPair × Tables
  unfolding start_session_for_activated_user
  start_session user_id draws now w =
      let (result, auth) =
        start_session_for_activated_user env hash_secret hash_otp lower verify user_id draws now
          w.auth in
      (result, record w { auth = auth })

  -- `accept` once the link is usable and the password acceptable.
  unfoldable pub accept_with :
      InvitationRow → Hash → Draws → Instant → Tables → Result TokenPair × Tables
  unfolding commit_accept start_session
  accept_with i hash draws now w =
      let (committed, w₁) = commit_accept i hash now w in
      elim committed [ err e ↦ (err e, w₁) | ok _ ↦ start_session i.user_id draws now w₁ ]

  unfoldable pub accept_usable :
      InvitationRow → Text → ℕ → Draws → Instant → Tables → Result TokenPair × Tables
  unfolding accept_with assert_password_acceptable
  accept_usable i password salt draws now w =
      elim (assert_password_acceptable env hash_secret lower verify hash_password password
        i.email) [
          | err e ↦ (err e, w)
          | ok _ ↦ accept_with i (hash_password password salt) draws now w
        ]

  unfoldable pub accept_invitation :
      Secret → Text → ℕ → Draws → Instant → Tables → Result TokenPair × Tables
  unfolding require_usable accept_usable
  accept_invitation token password salt draws now w = elim (require_usable token now w) [
    | err e ↦ (err e, w)
    | ok i ↦ accept_usable i password salt draws now w
  ]
