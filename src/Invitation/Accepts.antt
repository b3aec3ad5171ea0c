-- ===== src/Invitation/Accepts.antt =====
-- What accepting an invitation needs and leaves.
use prime_focus_css_api.Common.{
  ℕ, ◌+◌, ◌≡◌, refl, ap, ◌∙◌, Bool, none, some, leb, ◌==◌, if◌then◌else◌, inl, inr, Bool-cases,
  Option-cases, ==_refl, Uuid, Instant, find_where, find_where-update, arith,
}
use prime_focus_css_api.Common.Errors.{ErrorCode, app_error, Result, ok, err, Result-cases}
use prime_focus_css_api.Sla.Clock.Windows.{Text}
use prime_focus_css_api.Auth.Store.{Hash, Secret, AuthEnv, find_account, update_account}
use prime_focus_css_api.Auth.Sessions.{TokenPair, complete_login}
use prime_focus_css_api.Auth.Sessions.Counts.{live_count, live_count-complete_login}
use prime_focus_css_api.Auth.Login.{Draws, start_session_for_activated_user}
use prime_focus_css_api.Auth.Passwords.{assert_password_acceptable}
use prime_focus_css_api.Invitation.{
  InvitationRow, Tables, has_token_hash, has_invitation_id, find_by_token_hash, accepted,
  mark_accepted, activated, require_usable, commit_accept, start_session, accept_invitation,
  accept_with, accept_usable,
}

module _ (env : AuthEnv) (hash_secret : Secret → Hash) (hash_otp : Secret → Uuid → Hash)
    (lower : Text → Text) (verify : Hash → Text → Bool) (hash_password : Text → ℕ → Hash) where
  require_usable_ok :
      (token : Secret) (now : Instant) (w : Tables) {i : InvitationRow}
      → require_usable env hash_secret hash_otp lower verify hash_password token now w ≡ ok i
      → (find_by_token_hash (hash_secret token) w ≡ some i)
        × (i.accepted_at ≡ none)
        × (i.revoked_at ≡ none)
  unfolding require_usable
  require_usable_ok token now w {i} usable =
      elim (Option-cases (find_by_token_hash (hash_secret token) w)) [
        | inl u ↦ cc (rw (u, require_usable) at usable)
        | inr (row, u) ↦
            let usable₁ = rw (u, require_usable) at usable in
            elim (Option-cases row.accepted_at) [
              | inr (at, v) ↦ cc (rw v at usable₁)
              | inl v ↦
                  let usable₂ = rw v at usable₁ in
                  elim (Option-cases row.revoked_at) [
                    | inr (at, z) ↦ cc (rw z at usable₂)
                    | inl z ↦
                        let usable₃ = rw z at usable₂ in
                        elim (Bool-cases (leb row.expires_at now)) [
                          | inl x ↦ cc (rw x at usable₃)
                          | inr x ↦
                              let same : row ≡ i = cc (rw x at usable₃) in
                              (cc (u, same), rw (← same) v, rw (← same) z)
                        ]
                  ]
            ]
      ]

  commit_accept_ok :
      (i : InvitationRow) (hash : Hash) (now : Instant) (w : Tables) {after : Tables}
      → commit_accept env hash_secret hash_otp lower verify hash_password i hash now w
        ≡ (ok tt, after)
      → mark_accepted i.id now
          (record w { auth = update_account i.user_id (activated hash) w.auth })
        ≡ after
  unfolding commit_accept
  commit_accept_ok i hash now w done = ground arith

  start_session_ok :
      (user_id : Uuid) (draws : Draws) (now : Instant) (w : Tables) {tokens : TokenPair}
      {after : Tables}
      → start_session env hash_secret hash_otp lower verify hash_password user_id draws now w
        ≡ (ok tokens, after)
      → (after.invitations ≡ w.invitations)
        × ((f : Uuid)
            → live_count f after.auth
              ≡ live_count f w.auth + (if draws.family_id == f then 1 else 0))
  unfolding start_session start_session_for_activated_user
  start_session_ok user_id draws now w {tokens} {after} done =
      elim (Option-cases (find_account user_id w.auth)) [
        | inl u ↦ cc (rw (u, start_session_for_activated_user) at done)
        | inr (user, u) ↦
            let auth =
              (complete_login env hash_secret user.id draws.family_id draws.token now w.auth).1 in
            let same : record w { auth = auth } ≡ after =
              cc (rw (u, start_session_for_activated_user) at done) in
            rw (← same) (
              refl,
              λ f.
                  live_count-complete_login env hash_secret f user.id draws.family_id draws.token
                    now w.auth,
            )
      ]

  accept_with_ok :
      (i : InvitationRow) (hash : Hash) (draws : Draws) (now : Instant) (w : Tables)
      {tokens : TokenPair} {after : Tables}
      → accept_with env hash_secret hash_otp lower verify hash_password i hash draws now w
        ≡ (ok tokens, after)
      → (mid : Tables) × (commit_accept env hash_secret hash_otp lower verify hash_password i hash
            now w
          ≡ (ok tt, mid))
        × (start_session env hash_secret hash_otp lower verify hash_password i.user_id draws now mid
            ≡ (ok tokens, after))
  unfolding accept_with
  accept_with_ok i hash draws now w done =
      elim (Result-cases
        (commit_accept env hash_secret hash_otp lower verify hash_password i hash now w).0) [
          | inl (e, z) ↦ cc (rw (z, accept_with) at done)
          | inr (unit, z) ↦
              let mid =
                (commit_accept env hash_secret hash_otp lower verify hash_password i hash now
                  w).1 in
              (mid, ap (λ (r : Result (Unit {0})). (r, mid)) z, rw (z, accept_with) at done)
        ]

  accept_usable_ok :
      (i : InvitationRow) (password : Text) (salt : ℕ) (draws : Draws) (now : Instant) (w : Tables)
      {tokens : TokenPair} {after : Tables}
      → accept_usable env hash_secret hash_otp lower verify hash_password i password salt draws now
          w
        ≡ (ok tokens, after)
      → accept_with env hash_secret hash_otp lower verify hash_password i
          (hash_password password salt)
          draws
          now
          w
        ≡ (ok tokens, after)
  unfolding accept_usable
  accept_usable_ok i password salt draws now w done =
      elim (Result-cases
        (assert_password_acceptable env hash_secret lower verify hash_password password i.email)) [
          | inl (e, v) ↦ cc (rw (v, accept_usable) at done)
          | inr (unit, v) ↦ rw (v, accept_usable) at done
        ]

  accept_ok :
      (token : Secret) (password : Text) (salt : ℕ) (draws : Draws) (now : Instant) (w : Tables)
      {tokens : TokenPair} {after : Tables}
      → accept_invitation env hash_secret hash_otp lower verify hash_password token password salt
          draws now w
        ≡ (ok tokens, after)
      → (i : InvitationRow) × (require_usable env hash_secret hash_otp lower verify hash_password
            token now w
          ≡ ok i)
        × (accept_with env hash_secret hash_otp lower verify hash_password i
              (hash_password password salt)
              draws
              now
              w
            ≡ (ok tokens, after))
  unfolding accept_invitation
  accept_ok token password salt draws now w done =
      elim (Result-cases
        (require_usable env hash_secret hash_otp lower verify hash_password token now w)) [
          | inl (e, u) ↦ cc (rw (u, accept_invitation) at done)
          | inr (i, u) ↦ (
            i,
            u,
            accept_usable_ok i password salt draws now w (rw (u, accept_invitation) at done),
          )
        ]

  -- A successful accept was of an invitation neither accepted nor revoked; it starts one session,
  -- in the family that was drawn, and from then on the same link is refused as already accepted
  -- and changes nothing.
  pub accept_invitation-single_use :
      (token : Secret) (password other : Text) (salt salt' : ℕ) (draws draws' : Draws)
      (now later : Instant) (w after : Tables) {tokens : TokenPair}
      → accept_invitation env hash_secret hash_otp lower verify hash_password token password salt
          draws now w
        ≡ (ok tokens, after)
      → (i : InvitationRow) × (find_by_token_hash (hash_secret token) w ≡ some i)
        × (i.accepted_at ≡ none)
        × (i.revoked_at ≡ none)
        × (accept_invitation env hash_secret hash_otp lower verify hash_password token other salt'
              draws' later after
            ≡ (err (app_error 409 ErrorCode.invitation_already_accepted), after))
        × ((f : Uuid)
            → live_count f after.auth
              ≡ live_count f w.auth + (if draws.family_id == f then 1 else 0))
  unfolding accept_invitation require_usable find_by_token_hash mark_accepted live_count
      update_account
  accept_invitation-single_use token password other salt salt' draws draws' now later w after done =
      let (i, usable, with_it) = accept_ok token password salt draws now w done in
      let (mid, committed, started) =
        accept_with_ok i (hash_password password salt) draws now w with_it in
      let (found, fresh, open_yet) = require_usable_ok token now w usable in
      let marked = commit_accept_ok i (hash_password password salt) now w committed in
      let (kept, counted) = start_session_ok i.user_id draws now mid started in
      let moved =
        find_where-update (has_token_hash (hash_secret token)) (has_invitation_id i.id)
          (accepted now) w.invitations (λ r. refl) found in
      let in_mid : find_by_token_hash (hash_secret token) mid ≡ some (accepted now i) =
        rw (← marked) (rw (==_refl i.id) at moved) in
      let spent : find_by_token_hash (hash_secret token) after ≡ some (accepted now i) =
        ap (find_where (has_token_hash (hash_secret token))) kept ∙ in_mid in
      let refused : require_usable env hash_secret hash_otp lower verify hash_password token later
            after
          ≡ err (app_error 409 ErrorCode.invitation_already_accepted) =
        rw (spent, require_usable) refl in
      let same_count : (f : Uuid) → live_count f mid.auth ≡ live_count f w.auth =
        λ f. rw (← marked) refl in
      (
        i,
        found,
        fresh,
        open_yet,
        rw (refused, accept_invitation) refl,
        λ f. omega (arith, counted f, same_count f),
      )
