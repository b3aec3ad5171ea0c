-- ===== src/Auth/Sessions/Counts.antt =====
-- How many live sessions a family or a user has, and how the operations of the parent move that number.
use prime_focus_css_api.Common.{
  and-false, ℕ, ◌+◌, ◌≤◌, ◌≡◌, refl, if◌then◌else◌, Bool, true, false, ◌&&◌, some, [], ◌∷◌, ◌++◌,
  ◌==◌, arith, inl, inr, Bool-cases, Option-cases, Uuid, Instant, is_some, count, count-append,
  count-update_where, count-update_where-drop, count-update_where-zero, find_where,
  find_where-append_kept, find_where-append_found, ==_refl,
}
use prime_focus_css_api.Auth.Store.{
  Hash, Secret, SessionRow, AuthDb, AuthEnv, RevokedReason, has_token, has_session_id,
  is_live_session, in_family, of_user, revoke, rotate, revoke_where, revoke_family,
  revoke_all_for_user, mark_rotated, insert_session, find_session_by_token_hash,
}
use prime_focus_css_api.Auth.Sessions.{issue_tokens, complete_login, rotate_session, new_session}

-- A session of the family that is not revoked.
abbrev pub live_in : Uuid → SessionRow → Bool
live_in family_id s = in_family family_id s && is_live_session s

abbrev pub live_for : Uuid → SessionRow → Bool
live_for user_id s = of_user user_id s && is_live_session s

unfoldable pub live_count : Uuid → AuthDb → ℕ
unfolding count
live_count family_id db = count (live_in family_id) db.sessions

unfoldable pub live_count_of_user : Uuid → AuthDb → ℕ
unfolding count
live_count_of_user user_id db = count (live_for user_id) db.sessions

-- The sessions that a family ever had.
unfoldable pub family_size : Uuid → AuthDb → ℕ
unfolding count
family_size family_id db = count (in_family family_id) db.sessions

pub live_count-revoke_where :
    (f : Uuid) (p : SessionRow → Bool) (reason : RevokedReason) (now : Instant) (db : AuthDb)
    → live_count f (revoke_where p reason now db) ≤ live_count f db
unfolding live_count revoke_where
live_count-revoke_where f p reason now db =
    count-update_where (live_in f) _ (revoke reason now) db.sessions
      λ s on. cc (on, and-false (in_family f s))

pub live_count-revoke_family :
    (f : Uuid) (reason : RevokedReason) (now : Instant) (db : AuthDb)
    → live_count f (revoke_family f reason now db) ≡ 0
unfolding live_count revoke_family revoke_where
live_count-revoke_family f reason now db =
    count-update_where-zero (live_in f) _ (revoke reason now) db.sessions (λ s on. on)
      (λ s. and-false (in_family f s))

pub live_count_of_user-revoke_all_for_user :
    (u : Uuid) (reason : RevokedReason) (now : Instant) (db : AuthDb)
    → live_count_of_user u (revoke_all_for_user u reason now db) ≡ 0
unfolding live_count_of_user revoke_all_for_user revoke_where
live_count_of_user-revoke_all_for_user u reason now db =
    count-update_where-zero (live_for u) _ (revoke reason now) db.sessions (λ s on. on)
      (λ s. and-false (of_user u s))

pub live_count-insert_session :
    (f : Uuid) (s : SessionRow) (db : AuthDb)
    → live_count f (insert_session s db) ≡ live_count f db + (if live_in f s then 1 else 0)
unfolding live_count insert_session
live_count-insert_session f s db = count-append (live_in f) db.sessions s

pub live_count-mark_rotated :
    (f id into : Uuid) (now : Instant) (db : AuthDb)
    → live_count f (mark_rotated id into now db) ≤ live_count f db
unfolding live_count mark_rotated
live_count-mark_rotated f id into now db =
    count-update_where (live_in f) _ (rotate into now) db.sessions
      λ s on. cc (on, and-false (in_family f s))

live_in-intro :
    (f : Uuid) (s : SessionRow)
    → (s.family_id == f) ≡ true
    → is_some s.revoked_at ≡ false
    → live_in f s ≡ true
live_in-intro f s family live = elim (Option-cases s.revoked_at) [
  | inl u ↦ rw (family, u) refl
  | inr (at, u) ↦ cc (rw u at live)
]

module _ (env : AuthEnv) (hash_secret : Secret → Hash) where
  -- A sign-in starts one session, in its family.
  pub live_count-complete_login :
      (f user_id family_id : Uuid) (token : Secret) (now : Instant) (db : AuthDb)
      → live_count f (complete_login env hash_secret user_id family_id token now db).1
        ≡ live_count f db + (if family_id == f then 1 else 0)
  unfolding complete_login issue_tokens live_count insert_session
  live_count-complete_login f user_id family_id token now db = elim (Bool-cases (family_id == f)) [
    | inl u ↦ rw u (
        rw u at (
          count-append (live_in f) db.sessions
            (new_session env hash_secret user_id family_id token now db)))
    | inr u ↦ rw u (
        rw u at (
          count-append (live_in f) db.sessions
            (new_session env hash_secret user_id family_id token now db)))
  ]

  -- What a rotation leaves: the new row at the end, and the old one marked with the id that the
  -- new token leads to.
  pub rotate_session_lem :
      (session : SessionRow) (user_id : Uuid) (token : Secret) (now : Instant) (db : AuthDb)
      → let row = new_session env hash_secret user_id session.family_id token now db in
        (into : SessionRow) × (find_where
            (has_token (hash_secret token))
            (db.sessions ++ (row ∷ []))
          ≡ some into)
        × (rotate_session env hash_secret session user_id token now db ≡ (
          record { session_id = db.next_id; refresh_token = token },
          mark_rotated session.id into.id now (insert_session row db),
        ))
  unfolding rotate_session issue_tokens find_session_by_token_hash insert_session
  rotate_session_lem session user_id token now db =
      let row = new_session env hash_secret user_id session.family_id token now db in
      let (into, found) =
        find_where-append_found (has_token (hash_secret token)) db.sessions row
          (==_refl (hash_secret token)) in
      (into, found, rw (found, rotate_session) refl)

  -- A rotation takes the place of a live session, so no family has more live ones than before.
  pub live_count-rotate_session :
      (f : Uuid) (h : Hash) (session : SessionRow) (user_id : Uuid) (token : Secret) (now : Instant)
      (db : AuthDb)
      → find_session_by_token_hash h db ≡ some session
      → is_some session.revoked_at ≡ false
      → live_count f (rotate_session env hash_secret session user_id token now db).1
        ≤ live_count f db
  unfolding live_count mark_rotated insert_session find_session_by_token_hash
  live_count-rotate_session f h session user_id token now db found live =
      let row = new_session env hash_secret user_id session.family_id token now db in
      let (into, _, same) = rotate_session_lem session user_id token now db in
      let grown = count-append (live_in f) db.sessions row in
      rw same (elim (Bool-cases (session.family_id == f)) [
        | inl u ↦
            let shrunk =
              count-update_where-drop (live_in f) (has_session_id session.id) (has_token h)
                (rotate into.id now) (db.sessions ++ (row ∷ [])) (λ s. and-false (in_family f s))
                (find_where-append_kept (has_token h) db.sessions row found)
                (live_in-intro f session u live) (==_refl session.id) in
            omega (arith, rw u at grown, shrunk)
        | inr u ↦
            let kept =
              count-update_where (live_in f) (has_session_id session.id) (rotate into.id now)
                (db.sessions ++ (row ∷ [])) (λ s on. cc (on, and-false (in_family f s))) in
            omega (arith, rw u at grown, kept)
      ])
