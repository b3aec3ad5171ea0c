-- ===== src/Cache/Reads.antt =====
-- What a read after a write gives, and the loader of `remember`.
use prime_focus_css_api.Common.{
  ℕ, ◌+◌, ◌*◌, ◌<◌, ◌≡◌, refl, false, Option, none, some, List, leb, inl, inr, Bool-cases, arith,
  Instant,
}
use prime_focus_css_api.Common.Errors.{Result, ok}
use prime_focus_css_api.Sla.Clock.Windows.{Text}
use prime_focus_css_api.Cache.{
  Entry, read_raw, write_raw, get_json, set_json, remember, memory_max_entries, evict_oldest,
}
use prime_focus_css_api.Cache.Views.{map_get-map_set}
use prime_focus_css_api.Cache.Refinement.{written}
use prime_focus_css_api.Common.{length}

module _ {ℓ} {Raw : Type ℓ} where
  read_raw-write_raw :
      (prefix key : Text) (value : Raw) (ttl now later : ℕ) (memory : List (Entry Raw))
      → later < now + ttl * 1000
      → read_raw prefix key later (write_raw prefix key value ttl now memory)
        ≡ (some value, write_raw prefix key value ttl now memory)
  unfolding read_raw write_raw
  read_raw-write_raw prefix key value ttl now later memory early =
      let alive : leb (now + ttl * 1000) later ≡ false = ground (arith, early) in
      let entry = written prefix key value ttl now in
      elim (Bool-cases (leb memory_max_entries (length memory))) [
        | inl u ↦
            rw (u, write_raw)
              (rw (map_get-map_set entry (evict_oldest memory), read_raw) (rw alive refl))
        | inr u ↦ rw (u, write_raw) (rw (map_get-map_set entry memory, read_raw) (rw alive refl))
      ]

module _ {ℓ κ} {Raw : Type ℓ} {T : Type κ} (prefix : Text) (parse : Raw → Option T)
    (stringify : T → Raw) where
  -- What `remember` does when nothing is cached and the loader answers.
  remember-miss {μ} :
      {S : Type μ} (key : Text) (ttl : ℕ) (loader : S → Result T × S) (now later : Instant)
      (world world' : S) (value : T) (memory : List (Entry Raw))
      → (get_json prefix parse stringify key now memory).0 ≡ none
      → loader world ≡ (ok value, world')
      → remember prefix parse stringify key ttl loader now later world memory ≡ (
        ok value,
        world',
        set_json prefix parse stringify key value ttl later
            (get_json prefix parse stringify key now memory).1,
      )
  unfolding remember
  remember-miss key ttl loader now later world world' value memory missed loaded =
      rw (missed, remember) (rw loaded (cc loaded))

  -- and when a value is.
  remember-cached {μ} :
      {S : Type μ} (key : Text) (ttl : ℕ) (loader : S → Result T × S) (now later : Instant)
      (world : S) (value : T) (memory after : List (Entry Raw))
      → get_json prefix parse stringify key now memory ≡ (some value, after)
      → remember prefix parse stringify key ttl loader now later world memory
        ≡ (ok value, world, after)
  unfolding remember
  remember-cached key ttl loader now later world value memory after cached =
      rw (cached, remember) (cc cached)

  -- When the value of a loader survives JSON, nothing was cached, and the time to live is
  -- positive, remember gives the value, and a second remember within that time gives it again
  -- without running its loader.
  pub remember-remembers {μ} :
      {S : Type μ} (key : Text) (ttl : ℕ) (loader again : S → Result T × S)
      (now later next next_later : Instant) (world world' other : S) (value : T)
      (memory : List (Entry Raw))
      → parse (stringify value) ≡ some value
      → 0 < ttl
      → (get_json prefix parse stringify key now memory).0 ≡ none
      → loader world ≡ (ok value, world')
      → next < later + ttl * 1000
      → let first = remember prefix parse stringify key ttl loader now later world memory in
        (first.0 ≡ ok value)
        × (first.1 ≡ world')
        × (remember prefix parse stringify key ttl again next next_later other first.2
            ≡ (ok value, other, first.2))
  unfolding set_json get_json
  remember-remembers key ttl loader again now later next next_later world world' other value memory
        round positive missed loaded early =
      let start = (get_json prefix parse stringify key now memory).1 in
      let positive_ttl : leb ttl 0 ≡ false = ground (arith, positive) in
      let held = read_raw-write_raw prefix key (stringify value) ttl later next start early in
      let stored = write_raw prefix key (stringify value) ttl later start in
      let cached : get_json prefix parse stringify key next stored ≡ (some value, stored) =
        rw (held, get_json) (rw round (cc held)) in
      rw (remember-miss key ttl loader now later world world' value memory missed loaded) (
        rw (positive_ttl, set_json)
          (
            refl,
            refl,
            remember-cached key ttl again next next_later other value stored stored cached,
          ))
