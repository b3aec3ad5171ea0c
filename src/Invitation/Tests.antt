-- ===== src/Invitation/Tests.antt =====
-- The theorem on accepting an invitation at a concrete one.
use prime_focus_css_api.Common.{
  ℕ, ◌+◌, ◌≡◌, refl, none, some, List, [], ◌∷◌, ◌==◌, if◌then◌else◌, Uuid,
}
use prime_focus_css_api.Common.Errors.{ErrorCode, app_error, err}
use prime_focus_css_api.Ticket.Store.{invited}
use prime_focus_css_api.Auth.Store.{Account, AuthDb}
use prime_focus_css_api.Auth.Login.{Draws}
use prime_focus_css_api.Auth.Sessions.Counts.{live_count}
use prime_focus_css_api.Auth.Fixtures.{
  settings, digest, otp_digest, as_it_is, check_password, salted, agent, database, right_password,
  other_password,
}
use prime_focus_css_api.Invitation.{InvitationRow, Tables, find_by_token_hash, accept_invitation}
use prime_focus_css_api.Invitation.Accepts.{accept_invitation-single_use}

abbrev invitation : InvitationRow
invitation = record {
  id = 6;
  user_id = 1;
  email = 97 ∷ 64 ∷ 98 ∷ [];
  token_hash = 111;
  expires_at = 9000;
  accepted_at = none;
  revoked_at = none;
  last_sent_at = 0;
  send_count = 1;
}

abbrev newcomer : Account
newcomer = record agent { status = invited; password_hash = none }

abbrev tables : Tables
tables = record {
  auth = record database { accounts = newcomer ∷ [] };
  invitations = invitation ∷ [];
}

abbrev draws : Draws
draws = record { family_id = 8; token = 40; code = 41; device = 42 }

abbrev accepted_tables : Tables
accepted_tables =
    (accept_invitation settings digest otp_digest as_it_is check_password salted 11 right_password 0
      draws 100 tables).1

accept_invitation-single_use_example :
    (i : InvitationRow) × (find_by_token_hash 111 tables ≡ some i)
    × (i.accepted_at ≡ none)
    × (i.revoked_at ≡ none)
    × (accept_invitation settings digest otp_digest as_it_is check_password salted 11 other_password
          0 draws 200 accepted_tables
        ≡ (err (app_error 409 ErrorCode.invitation_already_accepted), accepted_tables))
    × ((f : Uuid)
        → live_count f accepted_tables.auth ≡ live_count f tables.auth + (if 8 == f then 1 else 0))
unfolding accept_invitation find_by_token_hash prime_focus_css_api.Common.find_where
    prime_focus_css_api.Auth.Store.find_account prime_focus_css_api.Common.update_where
accept_invitation-single_use_example =
    accept_invitation-single_use settings digest otp_digest as_it_is check_password salted 11
      right_password other_password 0 0 draws draws 100 200 tables accepted_tables refl
