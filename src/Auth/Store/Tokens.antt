-- ===== src/Auth/Store/Tokens.antt =====
-- modules/auth/auth.repository.ts: sessions and password resets.
use prime_focus_css_api.Common.{
  suc, Bool, ◌&&◌, Option, some, [], ◌∷◌, ◌++◌, ◌==◌, is_none, Uuid, Instant, find_where,
  update_where,
}
use prime_focus_css_api.Auth.Store.Rows.{
  Hash, RevokedReason, SessionRow, PasswordResetTokenRow, AuthDb, rotated,
}

abbrev pub has_token : Hash → SessionRow → Bool
has_token hash s = s.token_hash == hash

abbrev pub has_session_id : Uuid → SessionRow → Bool
has_session_id id s = s.id == id

abbrev pub is_live_session : SessionRow → Bool
is_live_session s = is_none s.revoked_at

abbrev pub revoke : RevokedReason → Instant → SessionRow → SessionRow
revoke reason now s = record s { revoked_at = some now; revoked_reason = some reason }

abbrev pub rotate : Uuid → Instant → SessionRow → SessionRow
rotate into now s = record s {
  revoked_at = some now;
  revoked_reason = some rotated;
  replaced_by_session_id = some into;
}

unfoldable pub find_session_by_token_hash : Hash → AuthDb → Option SessionRow
find_session_by_token_hash hash db = find_where (has_token hash) db.sessions

unfoldable pub find_session_by_id : Uuid → AuthDb → Option SessionRow
find_session_by_id id db = find_where (has_session_id id) db.sessions

-- `update sessions set revoked_at … where p and revoked_at is null`
unfoldable pub revoke_where : (SessionRow → Bool) → RevokedReason → Instant → AuthDb → AuthDb
revoke_where p reason now db = record db {
  sessions = update_where (λ s. p s && is_live_session s) (revoke reason now) db.sessions;
}

abbrev pub in_family : Uuid → SessionRow → Bool
in_family family_id s = s.family_id == family_id

abbrev pub of_user : Uuid → SessionRow → Bool
of_user user_id s = s.user_id == user_id

unfoldable pub revoke_session : Uuid → RevokedReason → Instant → AuthDb → AuthDb
unfolding revoke_where
revoke_session id = revoke_where (has_session_id id)

unfoldable pub revoke_family : Uuid → RevokedReason → Instant → AuthDb → AuthDb
unfolding revoke_where
revoke_family family_id = revoke_where (in_family family_id)

unfoldable pub revoke_all_for_user : Uuid → RevokedReason → Instant → AuthDb → AuthDb
unfolding revoke_where
revoke_all_for_user user_id = revoke_where (of_user user_id)

unfoldable pub mark_rotated : Uuid → Uuid → Instant → AuthDb → AuthDb
mark_rotated id into now db = record db {
  sessions = update_where (has_session_id id) (rotate into now) db.sessions;
}

unfoldable pub insert_session : SessionRow → AuthDb → AuthDb
insert_session s db = record db { sessions = db.sessions ++ (s ∷ []); next_id = suc db.next_id }

abbrev pub has_reset_hash : Hash → PasswordResetTokenRow → Bool
has_reset_hash hash r = r.token_hash == hash

abbrev pub use_reset : Instant → PasswordResetTokenRow → PasswordResetTokenRow
use_reset now r = record r { used_at = some now }

abbrev pub is_outstanding : Uuid → PasswordResetTokenRow → Bool
is_outstanding user_id r = r.user_id == user_id && is_none r.used_at

unfoldable pub find_password_reset : Hash → AuthDb → Option PasswordResetTokenRow
find_password_reset hash db = find_where (has_reset_hash hash) db.resets

unfoldable pub mark_password_reset_used : Uuid → Instant → AuthDb → AuthDb
mark_password_reset_used id now db = record db {
  resets = update_where (λ (r : PasswordResetTokenRow). r.id == id) (use_reset now) db.resets;
}

unfoldable pub consume_outstanding_resets : Uuid → Instant → AuthDb → AuthDb
consume_outstanding_resets user_id now db = record db {
  resets = update_where (is_outstanding user_id) (use_reset now) db.resets;
}

unfoldable pub insert_password_reset : PasswordResetTokenRow → AuthDb → AuthDb
insert_password_reset r db = record db { resets = db.resets ++ (r ∷ []); next_id = suc db.next_id }
