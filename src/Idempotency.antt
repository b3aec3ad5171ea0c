-- ===== src/Idempotency.antt =====
-- src/common/middleware/idempotency.ts and the table behind it. `hash_body` is the SHA-256 of a body's JSON.
-- An exchange is two steps on the table: what is decided when the request comes in, and what is
-- recorded once the response is written.
pub mod Claims
pub mod Retries
mod Tests
use prime_focus_css_api.Common.{
  ℕ, ◌+◌, Bool, true, false, not, ◌&&◌, ◌||◌, Option, none, some, List, [], ◌∷◌, ◌++◌, ltb, leb,
  ◌==◌, is_some, is_none, if◌then◌else◌, Instant, length, all, find_where, update_where,
  delete_where,
}
use prime_focus_css_api.Common.Errors.{
  ErrorCode, AppError, app_error, bad_request_error, conflict_error,
}
use prime_focus_css_api.Sla.Clock.{same_text}
use prime_focus_css_api.Sla.Clock.Windows.{Text}

pub data Method : Type 0 where
  get_method head_method options_method post_method patch_method put_method delete_method : Method

-- `MUTATING_METHODS.has`
abbrev pub is_mutating : Method → Bool
is_mutating post_method = true
is_mutating patch_method = true
is_mutating put_method = true
is_mutating delete_method = true
is_mutating _ = false

abbrev pub method_text : Method → Text
method_text get_method = 71 ∷ 69 ∷ 84 ∷ []
method_text head_method = 72 ∷ 69 ∷ 65 ∷ 68 ∷ []
method_text options_method = 79 ∷ 80 ∷ 84 ∷ 73 ∷ 79 ∷ 78 ∷ 83 ∷ []
method_text post_method = 80 ∷ 79 ∷ 83 ∷ 84 ∷ []
method_text patch_method = 80 ∷ 65 ∷ 84 ∷ 67 ∷ 72 ∷ []
method_text put_method = 80 ∷ 85 ∷ 84 ∷ []
method_text delete_method = 68 ∷ 69 ∷ 76 ∷ 69 ∷ 84 ∷ 69 ∷ []

-- `[\w.:-]`
abbrev pub is_key_char : ℕ → Bool
is_key_char c =
    (leb 48 c && leb c 57)
    || (leb 65 c && leb c 90)
    || (leb 97 c && leb c 122)
    || c == 95
    || c == 46
    || c == 58
    || c == 45

-- `KEY_PATTERN.test`
unfoldable pub is_key : Text → Bool
is_key key = leb 8 (length key) && leb (length key) 255 && all is_key_char key

pub record Request {ℓ} (Body : Type ℓ) : Type ℓ where
  pub method : Method
  pub path : Text
  pub idempotency_key : Option Text
  pub body : Body

pub record Response {ℓ} (Body : Type ℓ) : Type ℓ where
  pub status_code : ℕ
  pub response_body : Option Body

-- A row of idempotency_keys.
pub record KeyRow {ℓ} (Body : Type ℓ) : Type ℓ where
  pub key : Text
  pub scope : Text
  pub request_hash : ℕ
  pub outcome_status : Option ℕ
  pub outcome_body : Option Body
  pub completed_at : Option Instant
  pub expires_at : Instant

-- What becomes of a request: passed on as it is, passed on with its response captured, refused,
-- or answered from the table.
pub data Decision {ℓ} (Body : Type ℓ) : Type ℓ where
  passes runs : Decision Body
  refuses : AppError → Decision Body
  replays : Response Body → Decision Body

module _ {ℓ} {Body : Type ℓ} where
  abbrev pub scope_of : Request Body → Text
  scope_of req = method_text req.method ++ (32 ∷ req.path)

  abbrev pub has_ref : Text → Text → KeyRow Body → Bool
  has_ref scope key r = same_text r.scope scope && same_text r.key key

  unfoldable pub find_key : Text → Text → List (KeyRow Body) → Option (KeyRow Body)
  find_key scope key rows = find_where (has_ref scope key) rows

  -- `delete … where scope, key and expires_at < now`
  unfoldable pub drop_expired : Text → Text → Instant → List (KeyRow Body) → List (KeyRow Body)
  drop_expired scope key now rows =
      delete_where (λ r. has_ref scope key r && ltb r.expires_at now) rows

  abbrev pub is_complete : KeyRow Body → Option ℕ
  is_complete r = if is_none r.completed_at then none else r.outcome_status

  -- `replay` on the row that it finds.
  unfoldable pub replay_found : KeyRow Body → ℕ → Decision Body
  replay_found existing request_hash =
      if not (existing.request_hash == request_hash)
      then refuses (app_error 422 ErrorCode.idempotency_key_reused)
      else elim (is_complete existing) [
        | none ↦ refuses (app_error 409 ErrorCode.idempotency_key_in_progress)
        | some status ↦
            replays (record { status_code = status; response_body = existing.outcome_body })
      ]

  unfoldable pub replay : Text → Text → ℕ → List (KeyRow Body) → Decision Body
  unfolding replay_found find_key
  replay scope key request_hash rows = elim (find_key scope key rows) [
    | none ↦ refuses conflict_error
    | some existing ↦ replay_found existing request_hash
  ]

  -- What `handle` decides for the reference and the hash of a request.
  unfoldable pub handle :
      ℕ → Text → Text → ℕ → Instant → List (KeyRow Body) → Decision Body × List (KeyRow Body)
  unfolding drop_expired replay find_key
  handle ttl_ms scope key request_hash now rows =
      let kept = drop_expired scope key now rows in
      elim (find_key scope key kept) [
        | some _ ↦ (replay scope key request_hash kept, kept)
        | none ↦ (
          runs,
          kept
              ++ (record {
                key = key;
                scope = scope;
                request_hash = request_hash;
                outcome_status = none;
                outcome_body = none;
                completed_at = none;
                expires_at = now + ttl_ms;
              }
                  ∷ []),
        )
      ]

  abbrev pub complete : Response Body → Instant → KeyRow Body → KeyRow Body
  complete res now r = record r {
    outcome_status = some res.status_code;
    outcome_body = res.response_body;
    completed_at = some now;
  }

  -- `captureResponse`, when the response is finished.
  unfoldable pub capture_response :
      Text → Text → Response Body → Instant → List (KeyRow Body) → List (KeyRow Body)
  capture_response scope key res now rows =
      if leb 500 res.status_code
      then delete_where (has_ref scope key) rows
      else update_where (has_ref scope key) (complete res now) rows

  -- `idempotency`
  unfoldable pub idempotency :
      (Body → ℕ)
      → ℕ
      → Request Body
      → Instant
      → List (KeyRow Body)
      → Decision Body × List (KeyRow Body)
  unfolding handle is_key
  idempotency hash_body ttl_ms req now rows = elim req.idempotency_key [
    | none ↦ (passes, rows)
    | some [] ↦ (passes, rows)
    | some (c ∷ cs) ↦
        if not (is_mutating req.method)
        then (passes, rows)
        else if not (is_key (c ∷ cs))
        then (refuses bad_request_error, rows)
        else handle ttl_ms (scope_of req) (c ∷ cs) (hash_body req.body) now rows
  ]
