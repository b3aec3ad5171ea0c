-- ===== src/Auth/Store/Challenges.antt =====
-- modules/mfa/mfa.repository.ts: trusted devices and challenges.
use prime_focus_css_api.Common.{
  suc, Bool, ◌&&◌, Option, some, [], ◌∷◌, ◌++◌, ltb, ◌==◌, is_none, Uuid, Instant, find_where,
  update_where, delete_where,
}
use prime_focus_css_api.Auth.Store.Rows.{Hash, OtpChallengeRow, TrustedDeviceRow, AuthDb}

abbrev pub is_live_device : Uuid → Hash → Instant → TrustedDeviceRow → Bool
is_live_device user_id hash now d =
    d.user_id == user_id && d.token_hash == hash && is_none d.revoked_at && ltb now d.expires_at

abbrev pub has_unrevoked_device : Uuid → TrustedDeviceRow → Bool
has_unrevoked_device user_id d = d.user_id == user_id && is_none d.revoked_at

unfoldable pub find_live_device : Uuid → Hash → Instant → AuthDb → Option TrustedDeviceRow
find_live_device user_id hash now db = find_where (is_live_device user_id hash now) db.devices

unfoldable pub touch_device : Uuid → Instant → AuthDb → AuthDb
touch_device id now db = record db {
  devices =
      update_where (λ (d : TrustedDeviceRow). d.id == id) (λ d. record d { last_seen_at = now })
        db.devices;
}

unfoldable pub revoke_all_devices : Uuid → Instant → AuthDb → AuthDb
revoke_all_devices user_id now db = record db {
  devices =
      update_where (has_unrevoked_device user_id) (λ d. record d { revoked_at = some now })
        db.devices;
}

abbrev pub has_challenge_id : Uuid → OtpChallengeRow → Bool
has_challenge_id id c = c.id == id

abbrev pub is_live_challenge : Uuid → OtpChallengeRow → Bool
is_live_challenge user_id c = c.user_id == user_id && is_none c.consumed_at

unfoldable pub find_challenge_by_id : Uuid → AuthDb → Option OtpChallengeRow
find_challenge_by_id id db = find_where (has_challenge_id id) db.challenges

unfoldable pub update_challenge : Uuid → (OtpChallengeRow → OtpChallengeRow) → AuthDb → AuthDb
update_challenge id f db = record db {
  challenges = update_where (has_challenge_id id) f db.challenges;
}

unfoldable pub delete_live_challenges : Uuid → AuthDb → AuthDb
delete_live_challenges user_id db = record db {
  challenges = delete_where (is_live_challenge user_id) db.challenges;
}

unfoldable pub insert_challenge : OtpChallengeRow → AuthDb → AuthDb
insert_challenge c db = record db {
  challenges = db.challenges ++ (c ∷ []);
  next_id = suc db.next_id;
}
