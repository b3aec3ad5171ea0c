-- ===== src/Cache/Refinement.antt =====
-- The map of the parent against one without bound, over any sequence of calls.
use prime_focus_css_api.Common.{
  ℕ, ◌+◌, ◌*◌, ◌≡◌, ◌<◌, Option, none, some, List, [], ◌∷◌, leb, inl, inr, Bool-cases, Option-cases,
  arith, Instant, length, find_where, find_where-delete_hit, find_where-delete_miss, if◌then◌else◌,
}
use prime_focus_css_api.Common.Texts.{starts_with}
use prime_focus_css_api.Sla.Clock.{same_text}
use prime_focus_css_api.Sla.Clock.Windows.{Text}
use prime_focus_css_api.Cache.{
  Entry, memory_max_entries, has_key, map_get, map_delete, map_set, evict_oldest, redis_key,
  read_raw, write_raw, forget, forget_prefix,
}
use prime_focus_css_api.Sla.Clock.Texts.{same_text-eq}
use prime_focus_css_api.Cache.Views.{map_get-map_set, map_get-map_set_other, map_delete-shrinks}

-- A map without bound.
abbrev pub Spec {ℓ} : Type ℓ → Type ℓ
Spec Raw = Text → Option (Entry Raw)

pub data Call {ℓ} (Raw : Type ℓ) : Type ℓ where
  reads : Text → Call Raw
  writes : Text → Raw → ℕ → Call Raw
  forgets : Text → Call Raw
  forgets_prefix : Text → Call Raw

module _ {ℓ} {Raw : Type ℓ} where
  unfoldable pub apply_call : Text → Instant × Call Raw → List (Entry Raw) → List (Entry Raw)
  unfolding read_raw write_raw forget forget_prefix
  apply_call prefix (now, reads key) memory = (read_raw prefix key now memory).1
  apply_call prefix (now, writes key value ttl) memory = write_raw prefix key value ttl now memory
  apply_call prefix (now, forgets key) memory = forget prefix key memory
  apply_call prefix (now, forgets_prefix start) memory = forget_prefix prefix start memory

  abbrev pub written : Text → Text → Raw → ℕ → Instant → Entry Raw
  written prefix key value ttl now = record {
    key = redis_key prefix key;
    value = value;
    expires_at = now + ttl * 1000;
  }

  unfoldable pub apply_spec : Text → Instant × Call Raw → Spec Raw → Spec Raw
  apply_spec prefix (now, reads key) spec = spec
  apply_spec prefix (now, writes key value ttl) spec = λ k.
      if same_text (redis_key prefix key) k then some (written prefix key value ttl now) else spec k
  apply_spec prefix (now, forgets key) spec =
      λ k. if same_text (redis_key prefix key) k then none else spec k
  apply_spec prefix (now, forgets_prefix start) spec =
      λ k. if starts_with (redis_key prefix start) k then none else spec k

  -- What the bounded map holds, the other holds.
  abbrev pub Refines : List (Entry Raw) → Spec Raw → Type ℓ
  Refines memory spec = (k : Text) (e : Entry Raw) → map_get k memory ≡ some e → spec k ≡ some e

  map_delete-Refines :
      (key : Text) (memory : List (Entry Raw)) (spec : Spec Raw)
      → Refines memory spec
      → Refines (map_delete key memory) spec
  map_delete-Refines key memory spec refines k e found =
      refines k e (map_delete-shrinks k key memory found).1

  evict_oldest-Refines :
      (memory : List (Entry Raw)) (spec : Spec Raw)
      → Refines memory spec
      → Refines (evict_oldest memory) spec
  unfolding evict_oldest
  evict_oldest-Refines [] spec refines = refines
  evict_oldest-Refines (o ∷ memory) spec refines =
      map_delete-Refines o.key (o ∷ memory) spec refines

  map_set-Refines :
      (n : Entry Raw) (memory : List (Entry Raw)) (spec : Spec Raw)
      → Refines memory spec
      → Refines (map_set n memory) (λ k. if same_text n.key k then some n else spec k)
  map_set-Refines n memory spec refines k e found = elim (Bool-cases (same_text n.key k)) [
    | inl u ↦ rw u (cc (same_text-eq n.key k u, map_get-map_set n memory, found))
    | inr u ↦ rw u (refines k e (cc (map_get-map_set_other k n memory u, found)))
  ]

  read_raw-Refines :
      (prefix key : Text) (now : Instant) (memory : List (Entry Raw)) (spec : Spec Raw)
      → Refines memory spec
      → Refines (read_raw prefix key now memory).1 spec
  unfolding read_raw
  read_raw-Refines prefix key now memory spec refines =
      elim (Option-cases (map_get (redis_key prefix key) memory)) [
        | inl u ↦ rw (u, read_raw) refines
        | inr (e, u) ↦ elim (Bool-cases (leb e.expires_at now)) [
          | inl v ↦
              rw (u, read_raw)
                (rw v (map_delete-Refines (redis_key prefix key) memory spec refines))
          | inr v ↦ rw (u, read_raw) (rw v refines)
        ]
      ]

  apply_call-Refines :
      (prefix : Text) (call : Instant × Call Raw) (memory : List (Entry Raw)) (spec : Spec Raw)
      → Refines memory spec
      → Refines (apply_call prefix call memory) (apply_spec prefix call spec)
  unfolding apply_call apply_spec write_raw forget forget_prefix map_get
  apply_call-Refines prefix (now, reads key) memory spec refines k e found =
      read_raw-Refines prefix key now memory spec refines k e found
  apply_call-Refines prefix (now, writes key value ttl) memory spec refines k e found =
      let entry = written prefix key value ttl now in
      elim (Bool-cases (leb memory_max_entries (length memory))) [
        | inl u ↦
            map_set-Refines entry (evict_oldest memory) spec
              (evict_oldest-Refines memory spec refines) k e (rw (u, write_raw) at found)
        | inr u ↦ map_set-Refines entry memory spec refines k e (rw (u, write_raw) at found)
      ]
  apply_call-Refines prefix (now, forgets key) memory spec refines k e found =
      let (other, kept) = map_delete-shrinks k (redis_key prefix key) memory found in
      rw other (refines k e kept)
  apply_call-Refines prefix (now, forgets_prefix start) memory spec refines k e found =
      let dropped = λ (x : Entry Raw). starts_with (redis_key prefix start) x.key in
      elim (Bool-cases (starts_with (redis_key prefix start) k)) [
        | inl u ↦ cc (
          find_where-delete_hit (has_key k) dropped memory
              (λ x on. rw (← same_text-eq x.key k on) at u),
          found,
        )
        | inr u ↦
            let kept =
              find_where-delete_miss (has_key k) dropped memory
                λ x on. rw (same_text-eq x.key k on) u in
            rw u (refines k e (cc (kept, found)))
      ]

  unfoldable pub run_calls : Text → List (Instant × Call Raw) → List (Entry Raw) → List (Entry Raw)
  unfolding apply_call
  run_calls prefix [] memory = memory
  run_calls prefix (call ∷ rest) memory = run_calls prefix rest (apply_call prefix call memory)

  unfoldable pub run_spec : Text → List (Instant × Call Raw) → Spec Raw → Spec Raw
  unfolding apply_spec
  run_spec prefix [] spec = spec
  run_spec prefix (call ∷ rest) spec = run_spec prefix rest (apply_spec prefix call spec)

  run_calls-Refines :
      (prefix : Text) (calls : List (Instant × Call Raw)) (memory : List (Entry Raw))
      (spec : Spec Raw)
      → Refines memory spec
      → Refines (run_calls prefix calls memory) (run_spec prefix calls spec)
  unfolding run_calls run_spec
  run_calls-Refines prefix [] memory spec refines = refines
  run_calls-Refines prefix (call ∷ rest) memory spec refines =
      run_calls-Refines prefix rest _ _ (apply_call-Refines prefix call memory spec refines)

  -- After any sequence of reads, writes, deletions and prefix deletions on an empty cache, a read
  -- that gives a value gives what a map without bound would hold for the key, the value of the
  -- last write that was not deleted since, and only before it expires.
  pub read_raw-run :
      (prefix key : Text) (now : Instant) (calls : List (Instant × Call Raw)) (value : Raw)
      → (read_raw prefix key now (run_calls prefix calls [])).0 ≡ some value
      → (e : Entry Raw) × (run_spec prefix calls (λ _. none) (redis_key prefix key) ≡ some e)
        × (e.value ≡ value)
        × (now < e.expires_at)
  unfolding read_raw map_get find_where
  read_raw-run prefix key now calls value read =
      let memory = run_calls prefix calls [] in
      let refines = run_calls-Refines prefix calls [] (λ _. none) (λ k e found. cc found) in
      elim (Option-cases (map_get (redis_key prefix key) memory)) [
        | inl u ↦ cc (rw (u, read_raw) at read)
        | inr (e, u) ↦ elim (Bool-cases (leb e.expires_at now)) [
          | inl v ↦ cc (rw v at (rw (u, read_raw) at read))
          | inr v ↦ (e, refines _ e u, cc (rw v at (rw (u, read_raw) at read)), ground (arith, v))
        ]
      ]
