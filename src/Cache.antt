-- ===== src/Cache.antt =====
-- src/lib/cache/store.ts without Redis: the in-process map. A Map is the list of its entries in the order
-- of insertion; `REDIS_KEY_PREFIX` is a setting, and what JSON makes of a value a parameter. `parse`
-- gives nothing for a text that does not parse, and for null, which getJson does not tell apart.
pub mod Bound
pub mod Views
pub mod Refinement
pub mod Reads
mod Tests
use prime_focus_css_api.Common.{
  ℕ, ◌+◌, ◌*◌, Bool, true, false, Option, none, some, List, [], ◌∷◌, ◌++◌, leb, is_some,
  if◌then◌else◌, Instant, length, find_where, update_where, delete_where,
}
use prime_focus_css_api.Common.Errors.{Result, ok, err}
use prime_focus_css_api.Common.Texts.{starts_with}
use prime_focus_css_api.Sla.Clock.{same_text}
use prime_focus_css_api.Sla.Clock.Windows.{Text}

-- An `Entry` of the map under its key.
pub record Entry {ℓ} (Raw : Type ℓ) : Type ℓ where
  pub key : Text
  pub value : Raw
  pub expires_at : Instant

abbrev pub memory_max_entries : ℕ
memory_max_entries = 5000

-- `redisKey(key)`
abbrev pub redis_key : Text → Text → Text
redis_key prefix key = prefix ++ key

module _ {ℓ} {Raw : Type ℓ} where
  abbrev pub has_key : Text → Entry Raw → Bool
  has_key key e = same_text e.key key

  unfoldable pub map_get : Text → List (Entry Raw) → Option (Entry Raw)
  map_get key memory = find_where (has_key key) memory

  unfoldable pub map_delete : Text → List (Entry Raw) → List (Entry Raw)
  map_delete key memory = delete_where (has_key key) memory

  -- `memory.set`: a key that is there keeps its place.
  unfoldable pub map_set : Entry Raw → List (Entry Raw) → List (Entry Raw)
  unfolding map_get
  map_set e memory =
      if is_some (map_get e.key memory)
      then update_where (has_key e.key) (λ _. e) memory
      else memory ++ (e ∷ [])

  -- Deletes the key that was inserted first.
  unfoldable pub evict_oldest : List (Entry Raw) → List (Entry Raw)
  unfolding map_delete
  evict_oldest [] = []
  evict_oldest (e ∷ memory) = map_delete e.key (e ∷ memory)

  unfoldable pub read_raw : Text → Text → Instant → List (Entry Raw) → Option Raw × List (Entry Raw)
  unfolding map_get map_delete
  read_raw prefix key now memory = elim (map_get (redis_key prefix key) memory) [
    | none ↦ (none, memory)
    | some e ↦
        if leb e.expires_at now
        then (none, map_delete (redis_key prefix key) memory)
        else (some e.value, memory)
  ]

  unfoldable pub write_raw : Text → Text → Raw → ℕ → Instant → List (Entry Raw) → List (Entry Raw)
  unfolding map_set evict_oldest
  write_raw prefix key value ttl_seconds now memory =
      let room = if leb memory_max_entries (length memory) then evict_oldest memory else memory in
      let entry : Entry Raw = record {
        key = redis_key prefix key;
        value = value;
        expires_at = now + ttl_seconds * 1000;
      } in
      map_set entry room

  unfoldable pub forget : Text → Text → List (Entry Raw) → List (Entry Raw)
  unfolding map_delete
  forget prefix key memory = map_delete (redis_key prefix key) memory

  unfoldable pub forget_prefix : Text → Text → List (Entry Raw) → List (Entry Raw)
  forget_prefix prefix start memory =
      delete_where (λ (e : Entry Raw). starts_with (redis_key prefix start) e.key) memory

module _ {ℓ κ} {Raw : Type ℓ} {T : Type κ} (prefix : Text) (parse : Raw → Option T)
    (stringify : T → Raw) where
  unfoldable pub get_json : Text → Instant → List (Entry Raw) → Option T × List (Entry Raw)
  unfolding read_raw
  get_json key now memory =
      let (raw, after) = read_raw prefix key now memory in
      elim raw [ none ↦ (none, after) | some text ↦ (parse text, after) ]

  unfoldable pub set_json : Text → T → ℕ → Instant → List (Entry Raw) → List (Entry Raw)
  unfolding write_raw
  set_json key value ttl_seconds now memory =
      if leb ttl_seconds 0
      then memory
      else write_raw prefix key (stringify value) ttl_seconds now memory

  -- `remember`, with a loader that acts on a state of its own and ends at `later`.
  unfoldable pub remember {μ} :
      {S : Type μ}
      → Text
      → ℕ
      → (S → Result T × S)
      → Instant
      → Instant
      → S
      → List (Entry Raw)
      → Result T × S × List (Entry Raw)
  unfolding get_json set_json
  remember key ttl_seconds loader now later world memory =
      let (cached, after) = get_json key now memory in
      elim cached [
        | some value ↦ (ok value, world, after)
        | none ↦
            let (loaded, world') = loader world in
            elim loaded [
              | err e ↦ (err e, world', after)
              | ok value ↦ (ok value, world', set_json key value ttl_seconds later after)
            ]
      ]
