-- ===== src/Idempotency/Tests.antt =====
-- The theorems on repeated requests at a concrete one.
use prime_focus_css_api.Common.{
  ℕ, ◌≡◌, refl, none, some, List, [], ◌∷◌, arith, if◌then◌else◌, leb, ◌==◌, Instant,
}
use prime_focus_css_api.Common.Errors.{ErrorCode, app_error}
use prime_focus_css_api.Sla.Clock.{same_text}
use prime_focus_css_api.Sla.Clock.Windows.{Text}
use prime_focus_css_api.Idempotency.{
  Request, Response, KeyRow, replays, refuses, post_method, idempotency, handle, capture_response,
  scope_of, find_key, drop_expired, is_key,
}
use prime_focus_css_api.Idempotency.Claims.{
  OtherStep, comes_in, is_written, apply_steps, handle-in_progress,
}
use prime_focus_css_api.Idempotency.Retries.{idempotency-retry}

abbrev a_key : Text
a_key = 97 ∷ 97 ∷ 97 ∷ 97 ∷ 97 ∷ 97 ∷ 97 ∷ 97 ∷ []

abbrev request : Request ℕ
request = record { method = post_method; path = 47 ∷ []; idempotency_key = some a_key; body = 5 }

abbrev created : Response ℕ
created = record { status_code = 201; response_body = some 9 }

abbrev as_it_is : ℕ → ℕ
as_it_is body = body

abbrev claimed : List (KeyRow ℕ)
claimed = (idempotency as_it_is 1000 request 100 []).1

-- Another request comes in, and its response is written.
abbrev other_request : List (OtherStep ℕ)
other_request = comes_in 1000 (80 ∷ []) a_key 6 150 ∷ is_written (80 ∷ []) a_key created 160 ∷ []

idempotency-retry_example :
    (idempotency as_it_is 1000 request 300 (
      apply_steps [] (
        capture_response
          (scope_of request)
          a_key
          created
          200
          (apply_steps other_request claimed)))).0
    ≡ replays created
unfolding idempotency handle same_text is_key find_key drop_expired
    prime_focus_css_api.Common.find_where prime_focus_css_api.Common.delete_where
idempotency-retry_example =
    idempotency-retry as_it_is 1000 request a_key 100 200 300 created other_request [] [] claimed
      refl refl (omega arith) (refl, (refl, tt)) tt

handle-in_progress_example :
    (handle 1000 (scope_of request) a_key 6 200 (apply_steps other_request claimed)).0
    ≡ refuses (app_error 422 ErrorCode.idempotency_key_reused)
unfolding idempotency handle same_text is_key find_key drop_expired
    prime_focus_css_api.Common.find_where prime_focus_css_api.Common.delete_where
handle-in_progress_example =
    handle-in_progress 1000 (scope_of request) a_key 5 6 100 200 other_request [] claimed refl
      (refl, (refl, tt)) (omega arith)
