-- ===== src/Cache/Tests.antt =====
-- The theorems on the cache at concrete calls.
use prime_focus_css_api.Common.{
  ℕ, ◌≡◌, ◌≤◌, ◌<◌, refl, Option, none, some, List, [], ◌∷◌, arith, Instant, length, find_where,
}
use prime_focus_css_api.Common.Errors.{Result, ok}
use prime_focus_css_api.Sla.Clock.{same_text}
use prime_focus_css_api.Sla.Clock.Windows.{Text}
use prime_focus_css_api.Cache.{
  Entry, memory_max_entries, redis_key, read_raw, map_get, map_set, write_raw, remember, get_json,
}
use prime_focus_css_api.Cache.Bound.{length-run_calls}
use prime_focus_css_api.Cache.Reads.{remember-remembers}
use prime_focus_css_api.Cache.Refinement.{
  Call, reads, writes, forgets, run_calls, run_spec, apply_call, read_raw-run,
}

abbrev prefix : Text
prefix = 112 ∷ []

abbrev a_key : Text
a_key = 97 ∷ []

abbrev calls : List (Instant × Call ℕ)
calls = (0, writes a_key 5 10) ∷ (1, forgets (98 ∷ [])) ∷ (2, reads a_key) ∷ []

read_raw-run_example :
    (e : Entry ℕ) × (run_spec prefix calls (λ _. none) (redis_key prefix a_key) ≡ some e)
    × (e.value ≡ 5)
    × (3 < e.expires_at)
unfolding read_raw run_calls apply_call map_get find_where same_text map_set write_raw
    prime_focus_css_api.Common.delete_where
read_raw-run_example = read_raw-run prefix a_key 3 calls 5 refl

length-run_calls_example : length (run_calls prefix calls []) ≤ memory_max_entries
length-run_calls_example = length-run_calls prefix calls [] (omega arith)

abbrev parse : ℕ → Option ℕ
parse raw = some raw

abbrev stringify : ℕ → ℕ
stringify value = value

-- A loader that always answers.
abbrev loader : ℕ → Result ℕ × ℕ
loader world = (ok 42, world)

remember-remembers_example :
    let first = remember prefix parse stringify a_key 60 loader 0 10 0 [] in
    (first.0 ≡ ok 42)
    × (first.1 ≡ 0)
    × (remember prefix parse stringify a_key 60 loader 500 600 7 first.2 ≡ (ok 42, 7, first.2))
unfolding get_json read_raw map_get find_where
remember-remembers_example =
    remember-remembers prefix parse stringify a_key 60 loader loader 0 10 500 600 0 0 7 42 [] refl
      (omega arith) refl refl (omega arith)
