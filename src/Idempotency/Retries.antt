-- ===== src/Idempotency/Retries.antt =====
-- A request that is sent again.
use prime_focus_css_api.Common.{
  ℕ, ◌+◌, ◌≤◌, ◌≡◌, refl, sym, ap, ◌∙◌, ◌&&◌, none, some, List, [], ◌∷◌, leb, inl, inr, Bool-cases,
  ==_refl, Instant, All, find_where-update_where, find_where-delete_hit, find_where-delete_none,
  ltb, if◌then◌else◌,
}
use prime_focus_css_api.Sla.Clock.Windows.{Text}
use prime_focus_css_api.Idempotency.{
  Response, Request, KeyRow, Decision, runs, replays, has_ref, find_key, drop_expired, replay_found,
  handle, complete, capture_response, idempotency, is_key, is_mutating, scope_of,
}
use prime_focus_css_api.Idempotency.Claims.{
  OtherStep, IsOther, apply_steps, apply_steps-others, handle_claims, handle_held,
}

module _ {ℓ} {Body : Type ℓ} where
  -- Nothing is held under a key without a row.
  handle_free :
      (ttl_ms : ℕ) (scope key : Text) (hash : ℕ) (now : Instant) (rows : List (KeyRow Body))
      → find_key scope key rows ≡ none
      → (handle ttl_ms scope key hash now rows).0 ≡ runs
  unfolding handle find_key drop_expired
  handle_free ttl_ms scope key hash now rows free =
      let none_left =
        find_where-delete_none (has_ref scope key)
          (λ r. has_ref scope key r && ltb r.expires_at now) rows free in
      rw (none_left, handle) refl

  -- What the end of an exchange leaves under its key.
  capture_response-own :
      (scope key : Text) (res : Response Body) (now : Instant) (rows : List (KeyRow Body))
      {r : KeyRow Body}
      → find_key scope key rows ≡ some r
      → find_key scope key (capture_response scope key res now rows)
        ≡ (if leb 500 res.status_code then none else some (complete res now r))
  unfolding capture_response find_key
  capture_response-own scope key res now rows held = elim (Bool-cases (leb 500 res.status_code)) [
    | inl u ↦
        rw u (find_where-delete_hit (has_ref scope key) (has_ref scope key) rows (λ r here. here))
    | inr u ↦
        rw u (
          find_where-update_where (has_ref scope key) (complete res now) rows (λ r here. here) held)
  ]

  handle-retry :
      (ttl_ms : ℕ) (scope key : Text) (hash : ℕ) (now written later : Instant) (res : Response Body)
      (before behind : List (OtherStep Body)) (rows after : List (KeyRow Body))
      → handle ttl_ms scope key hash now rows ≡ (runs, after)
      → All (IsOther scope key) before
      → All (IsOther scope key) behind
      → later ≤ now + ttl_ms
      → (handle ttl_ms scope key hash later (
          apply_steps behind (capture_response scope key res written (apply_steps before after)))).0
        ≡ (if leb 500 res.status_code then runs else replays res)
  unfolding replay_found
  handle-retry ttl_ms scope key hash now written later res before behind rows after done others
        others' early =
      let rows₁ = apply_steps before after in
      let held =
        apply_steps-others scope key before after others
        ∙ handle_claims ttl_ms scope key hash now rows done in
      let own = capture_response-own scope key res written rows₁ held in
      let rows₂ = capture_response scope key res written rows₁ in
      let same = apply_steps-others scope key behind rows₂ others' ∙ own in
      elim (Bool-cases (leb 500 res.status_code)) [
        | inl u ↦
            rw u (handle_free ttl_ms scope key hash later (apply_steps behind rows₂) (rw u at same))
        | inr u ↦
            let answer =
              handle_held ttl_ms scope key hash later (apply_steps behind rows₂) _ (rw u at same)
                early in
            rw u (rw (==_refl hash) at answer)
      ]

  -- A request that was passed on with its response captured is handled under its key whenever it comes.
  idempotency_runs :
      (hash_body : Body → ℕ) (ttl_ms : ℕ) (req : Request Body) (key : Text) (now at : Instant)
      (rows table : List (KeyRow Body)) {after : List (KeyRow Body)}
      → req.idempotency_key ≡ some key
      → idempotency hash_body ttl_ms req now rows ≡ (runs, after)
      → idempotency hash_body ttl_ms req at table
        ≡ handle ttl_ms (scope_of req) key (hash_body req.body) at table
  unfolding idempotency
  idempotency_runs hash_body ttl_ms req [] now at rows table is_o done =
      cc (rw (is_o, idempotency) at done)
  idempotency_runs hash_body ttl_ms req (c ∷ cs) now at rows table is_o done =
      let done₁ = rw (is_o, idempotency) at done in
      elim (Bool-cases (is_mutating req.method)) [
        | inr u ↦ cc (rw u at done₁)
        | inl u ↦ elim (Bool-cases (is_key (c ∷ cs))) [
          | inr v ↦ cc (rw v at (rw u at done₁))
          | inl v ↦ rw (is_o, idempotency) (rw u (rw v refl))
        ]
      ]

  -- When a request with a key was passed on with its response captured and is sent again before
  -- the key expires, after its response was written and with any steps of exchanges under another
  -- scope or key in between, it is answered with that response, without running, if the status was
  -- below 500, and runs again otherwise.
  pub idempotency-retry :
      (hash_body : Body → ℕ) (ttl_ms : ℕ) (req : Request Body) (key : Text)
      (now written later : Instant) (res : Response Body) (before behind : List (OtherStep Body))
      (rows after : List (KeyRow Body))
      → req.idempotency_key ≡ some key
      → idempotency hash_body ttl_ms req now rows ≡ (runs, after)
      → later ≤ now + ttl_ms
      → All (IsOther (scope_of req) key) before
      → All (IsOther (scope_of req) key) behind
      → (idempotency hash_body ttl_ms req later (
          apply_steps behind
            (capture_response (scope_of req) key res written (apply_steps before after)))).0
        ≡ (if leb 500 res.status_code then runs else replays res)
  idempotency-retry hash_body ttl_ms req key now written later res before behind rows after
        is_key_of done early others others' =
      let table =
        apply_steps behind
          (capture_response (scope_of req) key res written (apply_steps before after)) in
      let first = idempotency_runs hash_body ttl_ms req key now now rows rows is_key_of done in
      let again = idempotency_runs hash_body ttl_ms req key now later rows table is_key_of done in
      ap (λ (p : Decision Body × List (KeyRow Body)). p.0) again
      ∙ handle-retry ttl_ms (scope_of req) key (hash_body req.body) now written later res before
          behind rows after (sym first ∙ done) others others' early
