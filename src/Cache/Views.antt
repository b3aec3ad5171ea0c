-- ===== src/Cache/Views.antt =====
-- What a write to the map of the parent leaves to a read of it.
use prime_focus_css_api.Common.{
  ◌≡◌, true, false, none, some, List, inl, inr, Bool-cases, Option-cases, find_where-update_where,
  find_where-update_other, find_where-append, find_where-append_other, find_where-delete_hit,
  find_where-delete_miss,
}
use prime_focus_css_api.Sla.Clock.{same_text}
use prime_focus_css_api.Sla.Clock.Texts.{same_text_refl, same_text-eq}
use prime_focus_css_api.Sla.Clock.Windows.{Text}
use prime_focus_css_api.Cache.{Entry, has_key, map_get, map_delete, map_set}

module _ {ℓ} {Raw : Type ℓ} where
  -- Another key's entry.
  apart :
      (k key : Text) (e : Entry Raw)
      → same_text key k ≡ false
      → has_key key e ≡ true
      → has_key k e ≡ false
  apart k key e other is_key = rw (same_text-eq e.key key is_key) other

  pub map_get-map_set :
      (e : Entry Raw) (memory : List (Entry Raw)) → map_get e.key (map_set e memory) ≡ some e
  unfolding map_get map_set
  map_get-map_set e memory = elim (Option-cases (map_get e.key memory)) [
    | inl u ↦ rw (u, map_set) (find_where-append (has_key e.key) memory e u (same_text_refl e.key))
    | inr (old, u) ↦
        rw (u, map_set)
          (find_where-update_where (has_key e.key) (λ _. e) memory (λ x _. same_text_refl e.key) u)
  ]

  pub map_get-map_set_other :
      (k : Text) (e : Entry Raw) (memory : List (Entry Raw))
      → same_text e.key k ≡ false
      → map_get k (map_set e memory) ≡ map_get k memory
  unfolding map_get map_set
  map_get-map_set_other k e memory other = elim (Option-cases (map_get e.key memory)) [
    | inl u ↦ rw (u, map_set) (find_where-append_other (has_key k) memory e other)
    | inr (old, u) ↦
        rw (u, map_set)
          (find_where-update_other (has_key k) (has_key e.key) (λ _. e) memory
            λ x is_key. (apart k e.key x other is_key, other))
  ]

  pub map_get-map_delete :
      (key : Text) (memory : List (Entry Raw)) → map_get key (map_delete key memory) ≡ none
  unfolding map_get map_delete
  map_get-map_delete key memory =
      find_where-delete_hit (has_key key) (has_key key) memory (λ x on. on)

  pub map_get-map_delete_other :
      (k key : Text) (memory : List (Entry Raw))
      → same_text key k ≡ false
      → map_get k (map_delete key memory) ≡ map_get k memory
  unfolding map_get map_delete
  map_get-map_delete_other k key memory other =
      find_where-delete_miss (has_key k) (has_key key) memory λ x is_k.
        elim (Bool-cases (has_key key x)) [ inr u ↦ u | inl u ↦ cc (apart k key x other u, is_k) ]

  -- A deletion never shows an entry that was not there.
  pub map_delete-shrinks :
      (k key : Text) (memory : List (Entry Raw)) {e : Entry Raw}
      → map_get k (map_delete key memory) ≡ some e
      → (same_text key k ≡ false) × (map_get k memory ≡ some e)
  map_delete-shrinks k key memory found = elim (Bool-cases (same_text key k)) [
    | inl u ↦ cc (same_text-eq key k u, map_get-map_delete key memory, found)
    | inr u ↦ (u, cc (map_get-map_delete_other k key memory u, found))
  ]
