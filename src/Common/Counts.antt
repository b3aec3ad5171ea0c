-- ===== src/Common/Counts.antt =====
-- How many rows of a table satisfy a condition, and what the writes of Lists do to that number.
use Prim.Native.Nat.{ℕ, suc, ◌+◌, ◌≤◌}
use mathlib.Core.Path.{◌≡◌, refl}
use mathlib.Core.Bool.{Bool, true, false}
use mathlib.Core.Option.{none, some}
use mathlib.Core.List.{List, [], ◌∷◌, ◌++◌}
use mathlib.Core.Logic.{inl, inr}
use native.Mathlib.Omega.{arith}
use prime_focus_css_api.Common.Tests.{if◌then◌else◌, Bool-cases}
use prime_focus_css_api.Common.Lists.{find_where, update_where, delete_where}

module _ {ℓ} {A : Type ℓ} where
  unfoldable pub count : (A → Bool) → List A → ℕ
  count p [] = 0
  count p (x ∷ xs) = (if p x then 1 else 0) + count p xs

  pub count-append :
      (p : A → Bool) (xs : List A) (y : A)
      → count p (xs ++ (y ∷ [])) ≡ count p xs + (if p y then 1 else 0)
  unfolding count
  count-append p [] y = omega arith
  count-append p (x ∷ xs) y = omega (arith, count-append p xs y)

  -- A write that makes no row satisfy the condition does not raise the number.
  pub count-update_where :
      (p q : A → Bool) (f : A → A) (xs : List A)
      → ((x : A) → p (f x) ≡ true → p x ≡ true)
      → count p (update_where q f xs) ≤ count p xs
  unfolding count update_where
  count-update_where p q f [] off = omega arith
  count-update_where p q f (x ∷ xs) off =
      let rest = count-update_where p q f xs off in
      elim (Bool-cases (q x)) [
        | inr u ↦ rw u (omega (arith, rest))
        | inl u ↦ rw u (elim (Bool-cases (p (f x))) [
          | inl t ↦ rw t (rw (off x t) (omega (arith, rest)))
          | inr t ↦ rw t (omega (arith, rest))
        ])
      ]

  -- A write that clears the condition lowers the number, where it reaches a row that satisfied it.
  pub count-update_where-drop :
      (p q t : A → Bool) (f : A → A) (xs : List A) {r : A}
      → ((x : A) → p (f x) ≡ false)
      → find_where t xs ≡ some r
      → p r ≡ true
      → q r ≡ true
      → suc (count p (update_where q f xs)) ≤ count p xs
  unfolding count update_where find_where
  count-update_where-drop p q t f [] off found live reached = cc
  count-update_where-drop p q t f (x ∷ xs) {r} off found live reached = elim (Bool-cases (t x)) [
    | inl u ↦
        let same : some x ≡ some r = rw u at found in
        let eq : x ≡ r = cc same in
        let rest = count-update_where p q f xs (λ y on. cc (off y, on)) in
        rw eq (rw reached (rw (off r) (rw live (omega (arith, rest)))))
    | inr u ↦
        let rest = count-update_where-drop p q t f xs off (rw u at found) live reached in
        elim (Bool-cases (q x)) [
          | inl v ↦ rw v (rw (off x) (omega (arith, rest)))
          | inr v ↦ rw v (omega (arith, rest))
        ]
  ]

  -- A write that reaches all of them leaves none.
  pub count-update_where-zero :
      (p q : A → Bool) (f : A → A) (xs : List A)
      → ((x : A) → p x ≡ true → q x ≡ true)
      → ((x : A) → p (f x) ≡ false)
      → count p (update_where q f xs) ≡ 0
  unfolding count update_where
  count-update_where-zero p q f [] all_of off = refl
  count-update_where-zero p q f (x ∷ xs) all_of off =
      let rest = count-update_where-zero p q f xs all_of off in
      elim (Bool-cases (q x)) [
        | inl u ↦ rw u (rw (off x) (omega (arith, rest)))
        | inr u ↦ rw u (elim (Bool-cases (p x)) [
          | inl v ↦ cc (all_of x v, u)
          | inr v ↦ rw v (omega (arith, rest))
        ])
      ]

  -- A row that a query finds is counted.
  pub count-find_where :
      (p t : A → Bool) (xs : List A) {r : A}
      → find_where t xs ≡ some r
      → p r ≡ true
      → 1 ≤ count p xs
  unfolding count find_where
  count-find_where p t [] found live = cc
  count-find_where p t (x ∷ xs) {r} found live = elim (Bool-cases (t x)) [
    | inl u ↦
        let same : some x ≡ some r = rw u at found in
        let eq : x ≡ r = cc same in rw eq (rw live (omega arith))
    | inr u ↦ let rest = count-find_where p t xs (rw u at found) live in omega (arith, rest)
  ]

  -- A stronger condition counts no more rows.
  pub count-weaken :
      (p q : A → Bool) (xs : List A) → ((x : A) → p x ≡ true → q x ≡ true) → count p xs ≤ count q xs
  unfolding count
  count-weaken p q [] to = omega arith
  count-weaken p q (x ∷ xs) to =
      let rest = count-weaken p q xs to in
      elim (Bool-cases (p x)) [
        | inl u ↦ rw u (rw (to x u) (omega (arith, rest)))
        | inr u ↦ rw u (omega (arith, rest))
      ]

  -- A row that was found is found after an insertion too,
  pub find_where-append_kept :
      (p : A → Bool) (xs : List A) (y : A) {r : A}
      → find_where p xs ≡ some r
      → find_where p (xs ++ (y ∷ [])) ≡ some r
  unfolding find_where
  find_where-append_kept p [] y found = cc
  find_where-append_kept p (x ∷ xs) y {r} found = elim (Bool-cases (p x)) [
    | inl u ↦ rw u (rw u at found)
    | inr u ↦ rw u (find_where-append_kept p xs y (rw u at found))
  ]

  -- and something is found, if the new row qualifies.
  pub find_where-append_found :
      (p : A → Bool) (xs : List A) (y : A)
      → p y ≡ true
      → (r : A) × (find_where p (xs ++ (y ∷ [])) ≡ some r)
  unfolding find_where
  find_where-append_found p [] y h = (y, rw h refl)
  find_where-append_found p (x ∷ xs) y h = elim (Bool-cases (p x)) [
    | inl u ↦ (x, rw u refl)
    | inr u ↦ let (r, found) = find_where-append_found p xs y h in (r, rw u found)
  ]

  pub count-delete_where : (p q : A → Bool) (xs : List A) → count p (delete_where q xs) ≤ count p xs
  unfolding count delete_where
  count-delete_where p q [] = omega arith
  count-delete_where p q (x ∷ xs) =
      let rest = count-delete_where p q xs in
      elim (Bool-cases (q x)) [
        | inl u ↦ rw u (omega (arith, rest))
        | inr u ↦ rw u (omega (arith, rest))
      ]

  pub count-delete_where-zero : (p : A → Bool) (xs : List A) → count p (delete_where p xs) ≡ 0
  unfolding count delete_where
  count-delete_where-zero p [] = refl
  count-delete_where-zero p (x ∷ xs) =
      let rest = count-delete_where-zero p xs in
      elim (Bool-cases (p x)) [ inl u ↦ rw u rest | inr u ↦ rw u (rw u (omega (arith, rest))) ]

  -- A deletion that reaches every row that a query selects leaves it nothing,
  pub find_where-delete_hit :
      (p q : A → Bool) (xs : List A)
      → ((x : A) → p x ≡ true → q x ≡ true)
      → find_where p (delete_where q xs) ≡ none
  unfolding find_where delete_where
  find_where-delete_hit p q [] reach = refl
  find_where-delete_hit p q (x ∷ xs) reach =
      let rest = find_where-delete_hit p q xs reach in
      elim (Bool-cases (q x)) [
        | inl u ↦ rw u rest
        | inr u ↦ elim (Bool-cases (p x)) [ inl v ↦ cc (reach x v, u) | inr v ↦ rw u (rw v rest) ]
      ]

  -- and one that reaches none of them changes nothing for it.
  pub find_where-delete_miss :
      (p q : A → Bool) (xs : List A)
      → ((x : A) → p x ≡ true → q x ≡ false)
      → find_where p (delete_where q xs) ≡ find_where p xs
  unfolding find_where delete_where
  find_where-delete_miss p q [] apart = refl
  find_where-delete_miss p q (x ∷ xs) apart =
      let rest = find_where-delete_miss p q xs apart in
      elim (Bool-cases (p x)) [
        | inl v ↦ rw (apart x v) (rw v refl)
        | inr v ↦ elim (Bool-cases (q x)) [ inl u ↦ rw u (rw v rest) | inr u ↦ rw u (rw v rest) ]
      ]

  -- A deletion that spares the row that a query finds leaves it found.
  pub find_where-delete_kept :
      (p q : A → Bool) (xs : List A) {r : A}
      → find_where p xs ≡ some r
      → q r ≡ false
      → find_where p (delete_where q xs) ≡ some r
  unfolding find_where delete_where
  find_where-delete_kept p q [] found spared = cc
  find_where-delete_kept p q (x ∷ xs) {r} found spared = elim (Bool-cases (p x)) [
    | inl v ↦
        let same : some x ≡ some r = rw v at found in
        let eq : x ≡ r = cc same in rw (eq) (rw spared (rw (← eq) (rw v refl)))
    | inr v ↦
        let rest = find_where-delete_kept p q xs (rw v at found) spared in
        elim (Bool-cases (q x)) [ inl u ↦ rw u rest | inr u ↦ rw u (rw v rest) ]
  ]

  -- A deletion makes no row appear.
  pub find_where-delete_none :
      (p q : A → Bool) (xs : List A)
      → find_where p xs ≡ none
      → find_where p (delete_where q xs) ≡ none
  unfolding find_where delete_where
  find_where-delete_none p q [] free = refl
  find_where-delete_none p q (x ∷ xs) free = elim (Bool-cases (p x)) [
    | inl v ↦ cc (rw v at free)
    | inr v ↦
        let rest = find_where-delete_none p q xs (rw v at free) in
        elim (Bool-cases (q x)) [ inl u ↦ rw u rest | inr u ↦ rw u (rw v rest) ]
  ]
