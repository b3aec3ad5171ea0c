-- ===== src/Auth/Mfa/Guesses.antt =====
-- How many codes of a challenge can be tried.
use prime_focus_css_api.Common.{
  ℕ, suc, ◌+◌, ◌≤◌, ◌<◌, min, ◌≡◌, refl, ap, true, false, some, List, [], ◌∷◌, ◌==◌, leb, length,
  All, inl, inr, Bool-cases, Option-cases, ==_refl, Uuid, Instant, arith, is_some,
  find_where-update, if◌then◌else◌, leb→le,
}
use prime_focus_css_api.Common.Errors.{ErrorCode, AppError, app_error, ok, err}
use prime_focus_css_api.Auth.Store.{
  Hash, Secret, OtpChallengeRow, AuthDb, AuthEnv, Outcome, has_challenge_id, update_challenge,
  find_challenge_by_id,
}
use prime_focus_css_api.Auth.Mfa.{
  verify_login_challenge, verify_found, otp_invalid, count_attempt, consume_challenge,
}

-- A presented code, and when.
pub record Guess : Type 0 where
  pub code : Secret
  pub at : Instant

abbrev pub with_attempts : ℕ → OtpChallengeRow → OtpChallengeRow
with_attempts n c = record c { attempts = n }

module _ (env : AuthEnv) (hash_otp : Secret → Uuid → Hash) (hash_secret : Secret → Hash) where
  abbrev pub guess : Uuid → Guess → AuthDb → Outcome Uuid
  guess id g db = verify_login_challenge env hash_otp hash_secret id g.code g.at db

  -- The database after some guesses at one challenge.
  unfoldable pub guess_all : Uuid → List Guess → AuthDb → AuthDb
  guess_all id [] db = db
  guess_all id (g ∷ rest) db = guess_all id rest (guess id g db).1

  -- Not the challenge's code, and in time.
  abbrev pub IsMiss : OtpChallengeRow → Guess → Type 0
  IsMiss c g = ((hash_otp g.code c.id == c.code_hash) ≡ false) × (leb c.expires_at g.at ≡ false)

  -- What a guess at an exhausted challenge gets.
  abbrev pub exhausted_error : OtpChallengeRow → Guess → AppError
  exhausted_error c g =
      if leb c.expires_at g.at
      then app_error 401 ErrorCode.otp_expired
      else app_error 429 ErrorCode.otp_attempts_exceeded

  guess-exhausted :
      (id : Uuid) (c : OtpChallengeRow) (g : Guess) (db : AuthDb)
      → find_challenge_by_id id db ≡ some c
      → is_some c.consumed_at ≡ false
      → env.otp_max_attempts ≤ c.attempts
      → guess id g db ≡ (err (exhausted_error c g), db)
  unfolding verify_login_challenge verify_found
  guess-exhausted id c g db found open_yet spent =
      let full : leb env.otp_max_attempts c.attempts ≡ true = ground (arith, spent) in
      rw (found, verify_login_challenge)
        (rw (open_yet, verify_found)
          (elim (Bool-cases (leb c.expires_at g.at)) [
            | inl u ↦ rw u refl
            | inr u ↦ rw u (rw full refl)
          ]))

  -- A miss is counted.
  guess-miss :
      (id : Uuid) (c : OtpChallengeRow) (g : Guess) (db : AuthDb)
      → find_challenge_by_id id db ≡ some c
      → is_some c.consumed_at ≡ false
      → c.attempts < env.otp_max_attempts
      → IsMiss c g
      → find_challenge_by_id id (guess id g db).1 ≡ some (count_attempt c)
  unfolding verify_login_challenge verify_found find_challenge_by_id update_challenge
  guess-miss id c g db found open_yet room (wrong, early) =
      let some_left : leb env.otp_max_attempts c.attempts ≡ false = ground (arith, room) in
      let counted =
        find_where-update (has_challenge_id id) (has_challenge_id c.id) count_attempt db.challenges
          (λ d. refl) found in
      rw (found, verify_login_challenge)
        (rw (open_yet, verify_found)
          (rw early (rw some_left (rw wrong (rw (==_refl c.id) at counted)))))

  guess_all-misses :
      (id : Uuid) (c : OtpChallengeRow) (misses : List Guess) (db : AuthDb)
      → find_challenge_by_id id db ≡ some c
      → is_some c.consumed_at ≡ false
      → c.attempts ≤ env.otp_max_attempts
      → All (IsMiss c) misses
      → find_challenge_by_id id (guess_all id misses db)
        ≡ some (with_attempts (min env.otp_max_attempts (c.attempts + length misses)) c)
  unfolding guess_all
  guess_all-misses id c [] db found open_yet bound missed =
      let same : min env.otp_max_attempts (c.attempts + 0) ≡ c.attempts = omega (arith, bound) in
      rw same found
  guess_all-misses id c (g ∷ rest) db found open_yet bound (first, others) =
      elim (Bool-cases (leb env.otp_max_attempts c.attempts)) [
        | inl full ↦
            let spent = leb→le _ _ full in
            let after =
              ap (λ (o : Outcome Uuid). o.1) (guess-exhausted id c g db found open_yet spent) in
            let ih = guess_all-misses id c rest db found open_yet bound others in
            let capped : min env.otp_max_attempts (c.attempts + length rest)
                ≡ min env.otp_max_attempts (c.attempts + suc (length rest)) =
              omega (arith, spent) in
            rw after (rw capped at ih)
        | inr room ↦
            let below : c.attempts < env.otp_max_attempts = ground (arith, room) in
            let next = guess-miss id c g db found open_yet below first in
            let ih =
              guess_all-misses id (count_attempt c) rest (guess id g db).1 next open_yet
                (omega (arith, below)) others in
            let counted : min env.otp_max_attempts (c.attempts + 1 + length rest)
                ≡ min env.otp_max_attempts (c.attempts + suc (length rest)) =
              omega arith in
            rw counted at ih
      ]

  -- After as many wrong codes in time as the limit leaves to an open challenge, any further code
  -- is refused, as expired if it comes late and as too many otherwise, and changes nothing.
  pub guess_all-exhausts :
      (id : Uuid) (c : OtpChallengeRow) (misses : List Guess) (last : Guess) (db : AuthDb)
      → find_challenge_by_id id db ≡ some c
      → is_some c.consumed_at ≡ false
      → c.attempts ≤ env.otp_max_attempts
      → All (IsMiss c) misses
      → env.otp_max_attempts ≤ c.attempts + length misses
      → guess id last (guess_all id misses db)
        ≡ (err (exhausted_error c last), guess_all id misses db)
  guess_all-exhausts id c misses last db found open_yet bound missed enough =
      let reached = guess_all-misses id c misses db found open_yet bound missed in
      guess-exhausted id (with_attempts (min env.otp_max_attempts (c.attempts + length misses)) c)
        last (guess_all id misses db) reached open_yet (omega (arith, enough))

  verify_found_ok :
      (c : OtpChallengeRow) (code : Secret) (now : Instant) (db : AuthDb) {user_id : Uuid}
      {after : AuthDb}
      → verify_found env hash_otp hash_secret c code now db ≡ (ok user_id, after)
      → update_challenge c.id (consume_challenge now) db ≡ after
  unfolding verify_found
  verify_found_ok c code now db done = ground arith

  -- Once a code of a challenge was accepted, every later code for it is refused and changes
  -- nothing.
  guess-single_use :
      (id : Uuid) (first again : Guess) (db after : AuthDb) {user_id : Uuid}
      → guess id first db ≡ (ok user_id, after)
      → guess id again after ≡ (err (otp_invalid 401), after)
  unfolding verify_login_challenge verify_found find_challenge_by_id update_challenge
  guess-single_use id first again db after done = elim (Option-cases (find_challenge_by_id id db)) [
    | inl u ↦ cc (rw (u, verify_login_challenge) at done)
    | inr (c, u) ↦
        let same =
          verify_found_ok c first.code first.at db (rw (u, verify_login_challenge) at done) in
        let consumed =
          find_where-update (has_challenge_id id) (has_challenge_id c.id)
            (consume_challenge first.at) db.challenges (λ d. refl) u in
        let marked : find_challenge_by_id id after ≡ some (consume_challenge first.at c) =
          rw (← same) (rw (==_refl c.id) at consumed) in
        rw (marked, verify_login_challenge) refl
  ]
