-- ===== src/Auth/Mfa/Challenges.antt =====
-- How many codes a user can have in flight.
use prime_focus_css_api.Common.{
  and-false, ℕ, ◌≤◌, ◌≡◌, true, ◌==◌, inl, inr, Bool-cases, ==_iff, Uuid, Instant, arith, count,
  count-append, count-update_where, count-delete_where, count-delete_where-zero, delete_where,
  if◌then◌else◌,
}
use prime_focus_css_api.Auth.Store.{
  Hash, Secret, OtpChallengeRow, AuthDb, AuthEnv, has_challenge_id, is_live_challenge,
  update_challenge, delete_live_challenges, insert_challenge,
}
use prime_focus_css_api.Auth.Mfa.{
  new_challenge, issue_login_challenge, resend_login_challenge, resend_found,
  verify_login_challenge, verify_found,
}

-- The challenges of a user that are not consumed.
unfoldable pub live_challenges : Uuid → AuthDb → ℕ
unfolding count
live_challenges user_id db = count (is_live_challenge user_id) db.challenges

unfoldable pub SingleChallenge : AuthDb → Type 0
SingleChallenge db = (u : Uuid) → live_challenges u db ≤ 1

-- A write that leaves the user and does not bring a consumed challenge back.
update_challenge-live :
    (u id : Uuid) (f : OtpChallengeRow → OtpChallengeRow) (db : AuthDb)
    → ((c : OtpChallengeRow) → is_live_challenge u (f c) ≡ true → is_live_challenge u c ≡ true)
    → live_challenges u (update_challenge id f db) ≤ live_challenges u db
unfolding live_challenges update_challenge
update_challenge-live u id f db keeps =
    count-update_where (is_live_challenge u) (has_challenge_id id) f db.challenges keeps

module _ (env : AuthEnv) (hash_otp : Secret → Uuid → Hash) (hash_secret : Secret → Hash) where
  pub issue-live :
      (u user_id : Uuid) (code : Secret) (now : Instant) (db : AuthDb)
      → live_challenges u (issue_login_challenge env hash_otp hash_secret user_id code now db).1
        ≤ (if user_id == u then 1 else live_challenges u db)
  unfolding live_challenges issue_login_challenge delete_live_challenges insert_challenge
  issue-live u user_id code now db =
      let row = new_challenge env hash_otp hash_secret db.next_id user_id code now in
      let left = delete_where (is_live_challenge user_id) db.challenges in
      elim (Bool-cases (user_id == u)) [
        | inl same ↦
            let is_u = (==_iff user_id u).0 same in
            let gone = count-delete_where-zero (is_live_challenge user_id) db.challenges in
            let gone_u : count (is_live_challenge u) left ≡ 0 = rw (← is_u) gone in
            rw same
              (omega (arith, rw same at (count-append (is_live_challenge u) left row), gone_u))
        | inr other ↦
            let fewer =
              count-delete_where (is_live_challenge u) (is_live_challenge user_id) db.challenges in
            rw other
              (omega (arith, rw other at (count-append (is_live_challenge u) left row), fewer))
      ]

  pub resend-live :
      (u id user_id : Uuid) (code : Secret) (now : Instant) (db : AuthDb)
      → live_challenges u (resend_login_challenge env hash_otp hash_secret id user_id code now db).1
        ≤ live_challenges u db
  unfolding live_challenges resend_login_challenge resend_found update_challenge
  resend-live u id user_id code now db = grind (arith, count-update_where (is_live_challenge u))

  pub verify-live :
      (u id : Uuid) (code : Secret) (now : Instant) (db : AuthDb)
      → live_challenges u (verify_login_challenge env hash_otp hash_secret id code now db).1
        ≤ live_challenges u db
  unfolding live_challenges verify_login_challenge verify_found update_challenge
  verify-live u id code now db = grind (arith, count-update_where (is_live_challenge u), and-false)
