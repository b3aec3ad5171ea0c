-- ===== src/Auth/Mfa.antt =====
-- modules/mfa/mfa.service.ts: the emailed code of a login and the devices that may skip it. `hash_otp`
-- and `hash_secret` are the digests of common/utils/crypto.ts, over node's; a code and a device token
-- are drawn at random, so they are arguments.
pub mod Guesses
pub mod Challenges
pub mod Moves
pub mod Traces
mod Tests
use prime_focus_css_api.Common.{
  ℕ, suc, ◌+◌, ◌-◌, ◌*◌, Bool, true, false, not, Option, none, some, List, [], ◌∷◌, ◌++◌, ltb, leb,
  ◌==◌, is_some, if◌then◌else◌, Uuid, Instant,
}
use prime_focus_css_api.Common.Dates.{day_ms}
use prime_focus_css_api.Common.Errors.{ErrorCode, AppError, app_error, not_found_error, ok, err}
use prime_focus_css_api.Sla.Clock.Zone.{minute_ms}
use prime_focus_css_api.Auth.Store.{
  Hash, Secret, OtpChallengeRow, TrustedDeviceRow, AuthDb, AuthEnv, Outcome, left_trail, otp_mail,
  device_trusted_trail, find_live_device, touch_device, find_challenge_by_id, update_challenge,
  delete_live_challenges, insert_challenge,
}

abbrev pub max_sends_per_challenge : ℕ
max_sends_per_challenge = 3

abbrev pub otp_invalid : ℕ → AppError
otp_invalid status = app_error status ErrorCode.otp_invalid

abbrev pub count_attempt : OtpChallengeRow → OtpChallengeRow
count_attempt c = record c { attempts = c.attempts + 1 }

abbrev pub consume_challenge : Instant → OtpChallengeRow → OtpChallengeRow
consume_challenge now c = record c { consumed_at = some now }

abbrev pub replace_code : Hash → ℕ → Instant → OtpChallengeRow → OtpChallengeRow
replace_code hash sends now c = record c {
  code_hash = hash;
  send_count = sends;
  last_sent_at = now;
}

module _ (env : AuthEnv) (hash_otp : Secret → Uuid → Hash) (hash_secret : Secret → Hash) where
  abbrev pub new_challenge : Uuid → Uuid → Secret → Instant → OtpChallengeRow
  new_challenge id user_id code now = record {
    id = id;
    user_id = user_id;
    code_hash = hash_otp code id;
    attempts = 0;
    expires_at = now + env.otp_ttl_minutes * minute_ms;
    consumed_at = none;
    last_sent_at = now;
    send_count = 1;
  }

  unfoldable pub issue_login_challenge : Uuid → Secret → Instant → AuthDb → Uuid × AuthDb
  unfolding delete_live_challenges insert_challenge
  issue_login_challenge user_id code now db =
      let db₁ = delete_live_challenges user_id db in
      let row = new_challenge db.next_id user_id code now in
      (db.next_id, left_trail (otp_mail user_id) (insert_challenge row db₁))

  -- `challengeUserId`
  unfoldable pub challenge_user_id : Uuid → AuthDb → Outcome Uuid
  challenge_user_id id db = elim (find_challenge_by_id id db) [
    | none ↦ (err (otp_invalid 400), db)
    | some c ↦ if is_some c.consumed_at then (err (otp_invalid 400), db) else (ok c.user_id, db)
  ]

  -- `resendLoginChallenge` on the challenge that it finds.
  unfoldable pub resend_found : OtpChallengeRow → Uuid → Secret → Instant → AuthDb → Outcome Uuid
  resend_found c user_id code now db =
      if not (c.user_id == user_id)
      then (err (otp_invalid 400), db)
      else if is_some c.consumed_at
      then (err (otp_invalid 400), db)
      else if leb c.expires_at now
      then (err (app_error 400 ErrorCode.otp_expired), db)
      else if ltb now (c.last_sent_at + env.otp_resend_cooldown_seconds * 1000)
      then (err (app_error 429 ErrorCode.otp_resend_cooldown), db)
      else if leb max_sends_per_challenge c.send_count
      then (err (app_error 429 ErrorCode.otp_resend_limit), db)
      else (
        ok c.id,
        left_trail (otp_mail user_id)
            (update_challenge c.id (replace_code (hash_otp code c.id) (c.send_count + 1) now) db),
      )

  unfoldable pub resend_login_challenge : Uuid → Uuid → Secret → Instant → AuthDb → Outcome Uuid
  unfolding resend_found
  resend_login_challenge id user_id code now db = elim (find_challenge_by_id id db) [
    | none ↦ (err (otp_invalid 400), db)
    | some c ↦ resend_found c user_id code now db
  ]

  -- `verifyLoginChallenge` on the challenge that it finds.
  unfoldable pub verify_found : OtpChallengeRow → Secret → Instant → AuthDb → Outcome Uuid
  verify_found c code now db =
      if is_some c.consumed_at
      then (err (otp_invalid 401), db)
      else if leb c.expires_at now
      then (err (app_error 401 ErrorCode.otp_expired), db)
      else if leb env.otp_max_attempts c.attempts
      then (err (app_error 429 ErrorCode.otp_attempts_exceeded), db)
      else if not (hash_otp code c.id == c.code_hash)
      then (err (otp_invalid 401), update_challenge c.id count_attempt db)
      else (ok c.user_id, update_challenge c.id (consume_challenge now) db)

  unfoldable pub verify_login_challenge : Uuid → Secret → Instant → AuthDb → Outcome Uuid
  unfolding verify_found
  verify_login_challenge id code now db = elim (find_challenge_by_id id db) [
    | none ↦ (err (otp_invalid 401), db)
    | some c ↦ verify_found c code now db
  ]

  unfoldable pub trust_device : Uuid → Secret → Instant → AuthDb → AuthDb
  trust_device user_id token now db = left_trail (device_trusted_trail user_id) (record db {
    devices =
        db.devices
        ++ (record {
          id = db.next_id;
          user_id = user_id;
          token_hash = hash_secret token;
          expires_at = now + env.trusted_device_ttl_days * day_ms;
          revoked_at = none;
          last_seen_at = now;
        }
            ∷ []);
    next_id = suc db.next_id;
  })

  unfoldable pub is_device_trusted : Uuid → Secret → Instant → AuthDb → Bool × AuthDb
  unfolding touch_device
  is_device_trusted user_id token now db =
      elim (find_live_device user_id (hash_secret token) now db) [
        | none ↦ (false, db)
        | some device ↦ (true, touch_device device.id now db)
      ]
