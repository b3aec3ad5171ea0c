-- ===== src/Auth/Sessions/Rotation.antt =====
-- What a refresh leaves, and what presenting the same refresh token again does.
use prime_focus_css_api.Common.{
  ◌<◌, ◌≡◌, refl, sym, ap, ◌∙◌, true, false, none, some, [], ◌∷◌, ◌++◌, ◌==◌, arith, inl, inr,
  Bool-cases, Option-cases, ==_refl, leb, Uuid, Instant, is_some, All, All-find_where, find_where,
  find_where-append, find_where-append_kept, find_where-update,
}
use prime_focus_css_api.Common.Errors.{ok, err}
use prime_focus_css_api.Auth.Store.{
  Hash, Secret, SessionRow, AuthDb, AuthEnv, has_token, has_session_id, mark_rotated,
  insert_session, find_session_by_token_hash, find_account, rotate,
}
use prime_focus_css_api.Auth.Sessions.{
  TokenPair, usable, refresh, refresh_found, rotate_session, new_session, session_revoked_error,
}
use prime_focus_css_api.Auth.Sessions.Counts.{
  live_count, live_count-revoke_family, rotate_session_lem,
}

module _ (env : AuthEnv) (hash_secret : Secret → Hash) where
  -- When a refresh may succeed.
  abbrev pub CanRefresh : SessionRow → Instant → AuthDb → Type 0
  CanRefresh old now db =
      (is_some old.revoked_at ≡ false)
      × (leb old.expires_at now ≡ false)
      × (usable env hash_secret (find_account old.user_id db) ≡ true)

  refresh_found_ok :
      (old : SessionRow) (token : Secret) (now : Instant) (db : AuthDb) {tokens : TokenPair}
      {after : AuthDb}
      → refresh_found env hash_secret old token now db ≡ (ok tokens, after)
      → CanRefresh old now db
        × (rotate_session env hash_secret old old.user_id token now db ≡ (tokens, after))
  unfolding refresh_found
  refresh_found_ok old token now db done = elim (Bool-cases (is_some old.revoked_at)) [
    | inl u ↦ cc (rw u at done)
    | inr u ↦ elim (Bool-cases (leb old.expires_at now)) [
      | inl v ↦ cc (rw v at (rw u at done))
      | inr v ↦ elim (Bool-cases (usable env hash_secret (find_account old.user_id db))) [
        | inr w ↦ cc (rw w at (rw v at (rw u at done)))
        | inl w ↦ ((u, v, w), cc (rw w at (rw v at (rw u at done))))
      ]
    ]
  ]

  refresh_ok :
      (presented token : Secret) (now : Instant) (db : AuthDb) {tokens : TokenPair} {after : AuthDb}
      → refresh env hash_secret presented token now db ≡ (ok tokens, after)
      → (old : SessionRow) × (find_session_by_token_hash (hash_secret presented) db ≡ some old)
        × CanRefresh old now db
        × (rotate_session env hash_secret old old.user_id token now db ≡ (tokens, after))
  unfolding refresh
  refresh_ok presented token now db done =
      elim (Option-cases (find_session_by_token_hash (hash_secret presented) db)) [
        | inl u ↦ cc (rw (u, refresh) at done)
        | inr (old, u) ↦
            let (can, rotated) = refresh_found_ok old token now db (rw (u, refresh) at done) in
            (old, u, can, rotated)
      ]

  -- After a refresh the presented token leads to its session, now marked as rotated.
  rotate_session-kept :
      (h : Hash) (old : SessionRow) (user_id : Uuid) (token : Secret) (now : Instant) (db : AuthDb)
      → find_session_by_token_hash h db ≡ some old
      → (into : SessionRow) × (find_where
            (has_token (hash_secret token))
            (db.sessions ++ (new_session env hash_secret user_id old.family_id token now db ∷ []))
          ≡ some into)
        × (find_session_by_token_hash h (rotate_session env hash_secret old user_id token now db).1
            ≡ some (rotate into.id now old))
  unfolding find_session_by_token_hash mark_rotated insert_session
  rotate_session-kept h old user_id token now db found =
      let row = new_session env hash_secret user_id old.family_id token now db in
      let (into, led, same) = rotate_session_lem env hash_secret old user_id token now db in
      let still = find_where-append_kept (has_token h) db.sessions row found in
      let moved =
        find_where-update (has_token h) (has_session_id old.id) (rotate into.id now)
          (db.sessions ++ (row ∷ [])) (λ s. refl) still in
      (into, led, rw same (rw (==_refl old.id) at moved))

  -- When a refresh succeeds and the same refresh token is presented again to what it leaves, at
  -- any time, the answer is session_revoked and no session of the family of that token is live.
  pub refresh-replay :
      (presented token again : Secret) (now later : Instant) (db after : AuthDb)
      {tokens : TokenPair}
      → refresh env hash_secret presented token now db ≡ (ok tokens, after)
      → (old : SessionRow) × (find_session_by_token_hash (hash_secret presented) db ≡ some old)
        × ((refresh env hash_secret presented again later after).0 ≡ err session_revoked_error)
        × (live_count old.family_id (refresh env hash_secret presented again later after).1 ≡ 0)
  unfolding refresh refresh_found live_count
  refresh-replay presented token again now later db after done =
      let (old, found, _, rotated) = refresh_ok presented token now db done in
      let (into, _, kept) =
        rotate_session-kept (hash_secret presented) old old.user_id token now db found in
      let marked = rw rotated at kept in
      (
        old,
        found,
        rw (marked, refresh) refl,
        rw (marked, refresh) (live_count-revoke_family old.family_id _ later after),
      )

  -- On a table whose ids are below the next one, a successful refresh under a new token that no
  -- row has was of a live session in time of an active user; the old token then leads to that
  -- session, revoked as rotated into the new one, and the new token to a fresh live session of the
  -- same user and family.
  pub refresh-rotates :
      (presented token : Secret) (now : Instant) (db after : AuthDb) {tokens : TokenPair}
      → All (λ s. s.id < db.next_id) db.sessions
      → find_session_by_token_hash (hash_secret token) db ≡ none
      → refresh env hash_secret presented token now db ≡ (ok tokens, after)
      → (old : SessionRow) × (find_session_by_token_hash (hash_secret presented) db ≡ some old)
        × CanRefresh old now db
        × (find_session_by_token_hash (hash_secret presented) after
            ≡ some (rotate db.next_id now old))
        × (find_session_by_token_hash (hash_secret token) after
            ≡ some (new_session env hash_secret old.user_id old.family_id token now db))
  unfolding find_session_by_token_hash mark_rotated insert_session
  refresh-rotates presented token now db after below fresh done =
      let (old, found, can, rotated) = refresh_ok presented token now db done in
      let row = new_session env hash_secret old.user_id old.family_id token now db in
      let (into, led, kept) =
        rotate_session-kept (hash_secret presented) old old.user_id token now db found in
      let marked = rw rotated at kept in
      let new_led =
        find_where-append (has_token (hash_secret token)) db.sessions row fresh
          (==_refl (hash_secret token)) in
      let is_row : into ≡ row = cc (led, new_led) in
      let (there, _, same) = rotate_session_lem env hash_secret old old.user_id token now db in
      let is_after : mark_rotated old.id there.id now (insert_session row db) ≡ after =
        ap (λ (p : TokenPair × AuthDb). p.1) (sym same ∙ rotated) in
      let older : old.id < db.next_id =
        All-find_where (λ s. s.id < db.next_id) (has_token (hash_secret presented)) db.sessions
          below found in
      let apart : (db.next_id == old.id) ≡ false = ground (arith, older) in
      let stays =
        find_where-update (has_token (hash_secret token)) (has_session_id old.id)
          (rotate there.id now) (db.sessions ++ (row ∷ [])) (λ s. refl) new_led in
      (old, found, can, rw is_row at marked, rw (← is_after) (rw apart at stays))
