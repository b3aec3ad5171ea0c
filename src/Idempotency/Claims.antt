-- ===== src/Idempotency/Claims.antt =====
-- A request that runs holds its key, whatever happens under other keys.
use prime_focus_css_api.Common.{
  and_left, and_right, and-false, ℕ, ◌+◌, ◌≤◌, ◌≡◌, refl, ap, ◌∙◌, Bool, true, false, ◌&&◌, none,
  some, List, [], ◌∷◌, ltb, ◌==◌, leb, inl, inr, Bool-cases, Option-cases, arith, Instant, All,
  find_where-append, find_where-append_other, find_where-delete_kept, find_where-delete_miss,
  find_where-update_other, if◌then◌else◌,
}
use prime_focus_css_api.Common.Errors.{ErrorCode, app_error}
use prime_focus_css_api.Sla.Clock.{same_text}
use prime_focus_css_api.Sla.Clock.Windows.{Text}
use prime_focus_css_api.Sla.Clock.Texts.{same_text_refl, same_text-eq}
use prime_focus_css_api.Idempotency.{
  Response, KeyRow, Decision, runs, refuses, has_ref, find_key, drop_expired, replay, replay_found,
  handle, complete, capture_response,
}

-- A step of another exchange: a request that comes in, or one whose response is written.
pub data OtherStep {ℓ} (Body : Type ℓ) : Type ℓ where
  comes_in : ℕ → Text → Text → ℕ → Instant → OtherStep Body
  is_written : Text → Text → Response Body → Instant → OtherStep Body

module _ {ℓ} {Body : Type ℓ} where
  -- The row of a request that has been passed on.
  abbrev pub claimed_row : ℕ → Text → Text → ℕ → Instant → KeyRow Body
  claimed_row ttl_ms scope key hash now = record {
    key = key;
    scope = scope;
    request_hash = hash;
    outcome_status = none;
    outcome_body = none;
    completed_at = none;
    expires_at = now + ttl_ms;
  }

  pub has_ref_refl :
      (scope key : Text) (r : KeyRow Body)
      → r.scope ≡ scope
      → r.key ≡ key
      → has_ref scope key r ≡ true
  has_ref_refl scope key r s k = rw s (rw k (rw (same_text_refl scope) (same_text_refl key)))

  abbrev is_runs : Decision Body → Bool
  is_runs runs = true
  is_runs _ = false

  replay-is_runs :
      (scope key : Text) (hash : ℕ) (rows : List (KeyRow Body))
      → is_runs (replay scope key hash rows) ≡ false
  unfolding replay replay_found
  replay-is_runs scope key hash rows = ground arith

  pub handle_claims :
      (ttl_ms : ℕ) (scope key : Text) (hash : ℕ) (now : Instant) (rows : List (KeyRow Body))
      {after : List (KeyRow Body)}
      → handle ttl_ms scope key hash now rows ≡ (runs, after)
      → find_key scope key after ≡ some (claimed_row ttl_ms scope key hash now)
  unfolding handle find_key replay replay_found
  handle_claims ttl_ms scope key hash now rows done =
      let kept = drop_expired scope key now rows in
      elim (Option-cases (find_key scope key kept)) [
        | inl u ↦
            let row = claimed_row ttl_ms scope key hash now in
            let same =
              ap (λ (p : Decision Body × List (KeyRow Body)). p.1) (rw (u, handle) at done) in
            rw (← same) (
              find_where-append (has_ref scope key) kept row u
                (has_ref_refl scope key row refl refl))
        | inr (existing, u) ↦
            let same =
              ap (λ (p : Decision Body × List (KeyRow Body)). is_runs p.0)
                (rw (u, handle) at done) in
            cc (same, replay-is_runs scope key hash kept)
      ]

  -- It is under another scope or another key.
  abbrev pub IsOther : Text → Text → OtherStep Body → Type 0
  IsOther scope key (comes_in _ scope' key' _ _) =
      (same_text scope' scope && same_text key' key) ≡ false
  IsOther scope key (is_written scope' key' _ _) =
      (same_text scope' scope && same_text key' key) ≡ false

  unfoldable pub apply_step : OtherStep Body → List (KeyRow Body) → List (KeyRow Body)
  unfolding handle capture_response
  apply_step (comes_in ttl_ms scope key hash now) rows = (handle ttl_ms scope key hash now rows).1
  apply_step (is_written scope key res now) rows = capture_response scope key res now rows

  unfoldable pub apply_steps : List (OtherStep Body) → List (KeyRow Body) → List (KeyRow Body)
  unfolding apply_step
  apply_steps [] rows = rows
  apply_steps (o ∷ os) rows = apply_steps os (apply_step o rows)

  apart_refs :
      (scope key scope' key' : Text) (r : KeyRow Body)
      → (same_text scope' scope && same_text key' key) ≡ false
      → has_ref scope' key' r ≡ true
      → has_ref scope key r ≡ false
  apart_refs scope key scope' key' r other here =
      let s = same_text-eq r.scope scope' (and_left _ _ here) in
      let k = same_text-eq r.key key' (and_right _ _ here) in rw s (rw k other)

  -- A row that has one reference does not have another.
  apart_back :
      (scope key scope' key' : Text) (r : KeyRow Body)
      → (same_text scope' scope && same_text key' key) ≡ false
      → has_ref scope key r ≡ true
      → has_ref scope' key' r ≡ false
  apart_back scope key scope' key' r other here = elim (Bool-cases (has_ref scope' key' r)) [
    | inl u ↦ cc (apart_refs scope key scope' key' r other u, here)
    | inr u ↦ u
  ]

  handle-other :
      (scope key scope' key' : Text) (ttl_ms hash : ℕ) (now : Instant) (rows : List (KeyRow Body))
      → (same_text scope' scope && same_text key' key) ≡ false
      → find_key scope key (handle ttl_ms scope' key' hash now rows).1 ≡ find_key scope key rows
  unfolding handle find_key drop_expired
  handle-other scope key scope' key' ttl_ms hash now rows other =
      let kept = drop_expired scope' key' now rows in
      let spared =
        find_where-delete_miss (has_ref scope key)
          (λ r. has_ref scope' key' r && ltb r.expires_at now) rows
          λ r here. rw (apart_back scope key scope' key' r other here) refl in
      elim (Option-cases (find_key scope' key' kept)) [
        | inr (existing, u) ↦ rw (u, handle) spared
        | inl u ↦
            rw (u, handle)
              (find_where-append_other (has_ref scope key) kept
                  (claimed_row ttl_ms scope' key' hash now) other
                ∙ spared)
      ]

  capture_response-other :
      (scope key scope' key' : Text) (res : Response Body) (now : Instant)
      (rows : List (KeyRow Body))
      → (same_text scope' scope && same_text key' key) ≡ false
      → find_key scope key (capture_response scope' key' res now rows) ≡ find_key scope key rows
  unfolding capture_response find_key
  capture_response-other scope key scope' key' res now rows other =
      elim (Bool-cases (leb 500 res.status_code)) [
        | inl u ↦
            rw (u, capture_response)
              (find_where-delete_miss (has_ref scope key) (has_ref scope' key') rows
                λ r here. apart_back scope key scope' key' r other here)
        | inr u ↦
            rw (u, capture_response)
              (find_where-update_other (has_ref scope key) (has_ref scope' key') (complete res now)
                rows
                λ r here. (
                  apart_refs scope key scope' key' r other here,
                  apart_refs scope key scope' key' r other here,
                ))
      ]

  apply_step-other :
      (scope key : Text) (o : OtherStep Body) (rows : List (KeyRow Body))
      → IsOther scope key o
      → find_key scope key (apply_step o rows) ≡ find_key scope key rows
  unfolding apply_step
  apply_step-other scope key (comes_in ttl_ms scope' key' hash now) rows other =
      handle-other scope key scope' key' ttl_ms hash now rows other
  apply_step-other scope key (is_written scope' key' res now) rows other =
      capture_response-other scope key scope' key' res now rows other

  pub apply_steps-others :
      (scope key : Text) (os : List (OtherStep Body)) (rows : List (KeyRow Body))
      → All (IsOther scope key) os
      → find_key scope key (apply_steps os rows) ≡ find_key scope key rows
  unfolding apply_steps
  apply_steps-others scope key [] rows _ = refl
  apply_steps-others scope key (o ∷ os) rows (other, others) =
      apply_steps-others scope key os (apply_step o rows) others
      ∙ apply_step-other scope key o rows other

  -- What a request gets whose key has a row that is not expired.
  pub handle_held :
      (ttl_ms : ℕ) (scope key : Text) (hash : ℕ) (now : Instant) (rows : List (KeyRow Body))
      (r : KeyRow Body)
      → find_key scope key rows ≡ some r
      → now ≤ r.expires_at
      → (handle ttl_ms scope key hash now rows).0 ≡ replay_found r hash
  unfolding handle find_key drop_expired replay
  handle_held ttl_ms scope key hash now rows r found alive =
      let not_yet : ltb r.expires_at now ≡ false = ground (arith, alive) in
      let kept =
        find_where-delete_kept (has_ref scope key)
          (λ x. has_ref scope key x && ltb x.expires_at now) rows found
          (rw not_yet (and-false (has_ref scope key r))) in
      rw (kept, handle) (rw (kept, replay) refl)

  -- When a request was passed on with its response captured, a second one under its scope and key
  -- that comes before its response is written and before the key expires, after any steps of
  -- exchanges under another scope or key, is refused: as in progress if the hash of its body is
  -- the same, and as a reuse of the key otherwise.
  pub handle-in_progress :
      (ttl_ms : ℕ) (scope key : Text) (hash again : ℕ) (now later : Instant)
      (between : List (OtherStep Body)) (rows after : List (KeyRow Body))
      → handle ttl_ms scope key hash now rows ≡ (runs, after)
      → All (IsOther scope key) between
      → later ≤ now + ttl_ms
      → (handle ttl_ms scope key again later (apply_steps between after)).0 ≡ (
          if hash == again
          then refuses (app_error 409 ErrorCode.idempotency_key_in_progress)
          else refuses (app_error 422 ErrorCode.idempotency_key_reused))
  unfolding replay_found
  handle-in_progress ttl_ms scope key hash again now later between rows after done others early =
      let held =
        apply_steps-others scope key between after others
        ∙ handle_claims ttl_ms scope key hash now rows done in
      rw (handle_held ttl_ms scope key again later (apply_steps between after) _ held early)
        (elim (Bool-cases (hash == again)) [ inl u ↦ rw u refl | inr u ↦ rw u refl ])
