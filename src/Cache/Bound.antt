-- ===== src/Cache/Bound.antt =====
-- How large the map of the parent grows.
use prime_focus_css_api.Common.{
  ℕ, suc, ◌+◌, ◌≤◌, ◌≡◌, refl, Bool, List, [], ◌∷◌, ◌++◌, leb, inl, inr, Bool-cases, Option-cases,
  arith, Instant, length, length-update_where, delete_where, leb→le,
}
use prime_focus_css_api.Common.Texts.{starts_with}
use prime_focus_css_api.Sla.Clock.Windows.{Text}
use prime_focus_css_api.Cache.{
  Entry, memory_max_entries, has_key, map_get, map_delete, map_set, evict_oldest, redis_key,
  read_raw, write_raw, forget, forget_prefix,
}
use prime_focus_css_api.Sla.Clock.Texts.{same_text_refl}
use prime_focus_css_api.Cache.Refinement.{
  Call, reads, writes, forgets, forgets_prefix, apply_call, run_calls, written,
}

length-append_one {ℓ} : {A : Type ℓ} (xs : List A) (x : A) → length (xs ++ (x ∷ [])) ≡ length xs + 1
length-append_one [] x = refl
length-append_one (y ∷ xs) x = omega (arith, length-append_one xs x)

length-delete_where {ℓ} :
    {A : Type ℓ} (q : A → Bool) (xs : List A) → length (delete_where q xs) ≤ length xs
unfolding delete_where
length-delete_where q [] = omega arith
length-delete_where q (x ∷ xs) =
    let rest = length-delete_where q xs in
    elim (Bool-cases (q x)) [
      | inl u ↦ rw u (omega (arith, rest))
      | inr u ↦ rw u (omega (arith, rest))
    ]

module _ {ℓ} {Raw : Type ℓ} where
  length-map_set :
      (e : Entry Raw) (memory : List (Entry Raw)) → length (map_set e memory) ≤ length memory + 1
  unfolding map_set
  length-map_set e memory = elim (Option-cases (map_get e.key memory)) [
    | inl u ↦ rw (u, map_set) (omega (arith, length-append_one memory e))
    | inr (old, u) ↦
        rw (u, map_set) (omega (arith, length-update_where (has_key e.key) (λ _. e) memory))
  ]

  length-evict_oldest :
      (memory : List (Entry Raw))
      → 1 ≤ length memory
      → suc (length (evict_oldest memory)) ≤ length memory
  unfolding evict_oldest map_delete delete_where
  length-evict_oldest [] some_entry = omega (arith, some_entry)
  length-evict_oldest (e ∷ memory) some_entry =
      rw (same_text_refl e.key) (omega (arith, length-delete_where (has_key e.key) memory))

  length-write_raw :
      (prefix key : Text) (value : Raw) (ttl now : ℕ) (memory : List (Entry Raw))
      → length memory ≤ memory_max_entries
      → length (write_raw prefix key value ttl now memory) ≤ memory_max_entries
  unfolding write_raw
  length-write_raw prefix key value ttl now memory bound =
      let entry = written prefix key value ttl now in
      elim (Bool-cases (leb memory_max_entries (length memory))) [
        | inl u ↦
            let full = leb→le memory_max_entries (length memory) u in
            let fewer = length-evict_oldest memory (omega (arith, full)) in
            rw (u, write_raw)
              (omega (arith, bound, fewer, length-map_set entry (evict_oldest memory)))
        | inr u ↦
            let room : suc (length memory) ≤ memory_max_entries = ground (arith, u) in
            rw (u, write_raw) (omega (arith, room, length-map_set entry memory))
      ]

  length-apply_call :
      (prefix : Text) (call : Instant × Call Raw) (memory : List (Entry Raw))
      → length memory ≤ memory_max_entries
      → length (apply_call prefix call memory) ≤ memory_max_entries
  unfolding apply_call read_raw forget forget_prefix map_delete
  length-apply_call prefix (now, reads key) memory bound =
      grind (arith, length-delete_where (has_key {Raw = Raw} (redis_key prefix key)))
  length-apply_call prefix (now, writes key value ttl) memory bound =
      length-write_raw prefix key value ttl now memory bound
  length-apply_call prefix (now, forgets key) memory bound =
      omega (arith, bound, length-delete_where (has_key (redis_key prefix key)) memory)
  length-apply_call prefix (now, forgets_prefix start) memory bound = omega (
    arith,
    bound,
    length-delete_where (λ (e : Entry Raw). starts_with (redis_key prefix start) e.key) memory,
  )

  -- If the cache has at most 5000 entries, it has after any sequence of reads, writes, deletions
  -- and prefix deletions.
  pub length-run_calls :
      (prefix : Text) (calls : List (Instant × Call Raw)) (memory : List (Entry Raw))
      → length memory ≤ memory_max_entries
      → length (run_calls prefix calls memory) ≤ memory_max_entries
  unfolding run_calls
  length-run_calls prefix [] memory bound = bound
  length-run_calls prefix (call ∷ rest) memory bound =
      length-run_calls prefix rest (apply_call prefix call memory)
        (length-apply_call prefix call memory bound)
