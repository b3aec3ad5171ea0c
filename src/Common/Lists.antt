-- ===== src/Common/Lists.antt =====
-- Lists as database tables: what a query or an update with a `where` clause does to the rows.
use Prim.Native.Nat.{ℕ, suc}
use mathlib.Core.Path.{◌≡◌, refl, ap}
use mathlib.Core.Bool.{Bool, true, false, ◌||◌, ◌&&◌}
use mathlib.Core.Option.{Option, none, some}
use mathlib.Core.List.{List, [], ◌∷◌, ◌++◌}
use mathlib.Core.Logic.{inl, inr}
use native.Mathlib.Omega.{arith}
use prime_focus_css_api.Common.Tests.{if◌then◌else◌, Bool-cases}

module _ {ℓ} {A : Type ℓ} where
  abbrev pub length : List A → ℕ
  length [] = 0
  length (_ ∷ xs) = suc (length xs)

  -- `select … where p limit 1`
  unfoldable pub find_where : (A → Bool) → List A → Option A
  find_where p [] = none
  find_where p (r ∷ rs) = if p r then some r else find_where p rs

  -- `select … where p`
  unfoldable pub select_where : (A → Bool) → List A → List A
  select_where p [] = []
  select_where p (r ∷ rs) = let rest = select_where p rs in if p r then r ∷ rest else rest

  -- `update … set f where p`
  unfoldable pub update_where : (A → Bool) → (A → A) → List A → List A
  update_where p f [] = []
  update_where p f (r ∷ rs) = (if p r then f r else r) ∷ update_where p f rs

  -- `delete … where p`
  unfoldable pub delete_where : (A → Bool) → List A → List A
  delete_where p [] = []
  delete_where p (r ∷ rs) = let rest = delete_where p rs in if p r then rest else r ∷ rest

  abbrev pub any : (A → Bool) → List A → Bool
  any p [] = false
  any p (x ∷ xs) = p x || any p xs

  abbrev pub all : (A → Bool) → List A → Bool
  all p [] = true
  all p (x ∷ xs) = p x && all p xs

-- A predicate by recursion, which the tactics read and build.
module _ {ℓ κ} {A : Type ℓ} (P : A → Type κ) where
  abbrev pub All : List A → Type κ
  All [] = Unit
  All (x ∷ xs) = P x × All xs

module _ {ℓ κ} {A : Type ℓ} (P : A → Type κ) where
  pub All-append : (xs ys : List A) → All P xs → All P ys → All P (xs ++ ys)
  All-append [] ys _ k = k
  All-append (x ∷ xs) ys (h, hs) k = (h, All-append xs ys hs k)

  pub All-update_where :
      (p : A → Bool) (f : A → A) (xs : List A)
      → ((x : A) → P x → p x ≡ true → P (f x))
      → All P xs
      → All P (update_where p f xs)
  unfolding update_where
  All-update_where p f [] keep h = h
  All-update_where p f (x ∷ xs) keep (h, hs) = elim (Bool-cases (p x)) [
    | inl e ↦ rw e (keep x h e, All-update_where p f xs keep hs)
    | inr e ↦ rw e (h, All-update_where p f xs keep hs)
  ]

  pub All-delete_where : (p : A → Bool) (xs : List A) → All P xs → All P (delete_where p xs)
  unfolding delete_where
  All-delete_where p [] h = h
  All-delete_where p (x ∷ xs) (h, hs) = elim (Bool-cases (p x)) [
    | inl e ↦ rw e (All-delete_where p xs hs)
    | inr e ↦ rw e (h, All-delete_where p xs hs)
  ]

  pub All-select_where : (p : A → Bool) (xs : List A) → All P xs → All P (select_where p xs)
  unfolding select_where
  All-select_where p [] h = h
  All-select_where p (x ∷ xs) (h, hs) = elim (Bool-cases (p x)) [
    | inl e ↦ rw e (h, All-select_where p xs hs)
    | inr e ↦ rw e (All-select_where p xs hs)
  ]

  -- The row that a query returns satisfies what every row does.
  pub All-find_where :
      (p : A → Bool) (xs : List A) {r : A} → All P xs → find_where p xs ≡ some r → P r
  unfolding find_where
  All-find_where p [] h e = cc
  All-find_where p (x ∷ xs) {r} (h, hs) e = elim (Bool-cases (p x)) [
    | inl t ↦ let same : some x ≡ some r = rw (t) at e in let eq : x ≡ r = cc same in rw (← eq) h
    | inr t ↦ All-find_where p xs hs (rw t at e)
  ]

module _ {ℓ} {A : Type ℓ} where
  -- and it satisfies the query's own condition.
  pub find_where_sound :
      (p : A → Bool) (xs : List A) {r : A} → find_where p xs ≡ some r → p r ≡ true
  unfolding find_where
  find_where_sound p [] e = cc
  find_where_sound p (x ∷ xs) {r} e = elim (Bool-cases (p x)) [
    | inl t ↦ let same : some x ≡ some r = rw (t) at e in let eq : x ≡ r = cc same in rw (← eq) t
    | inr t ↦ find_where_sound p xs (rw t at e)
  ]

  -- A written row answers the same query as before the write, if the write keeps the condition.
  pub find_where-update_where :
      (p : A → Bool) (f : A → A) (xs : List A) {r : A}
      → ((x : A) → p x ≡ true → p (f x) ≡ true)
      → find_where p xs ≡ some r
      → find_where p (update_where p f xs) ≡ some (f r)
  unfolding find_where update_where
  find_where-update_where p f [] keep e = cc
  find_where-update_where p f (x ∷ xs) {r} keep e = elim (Bool-cases (p x)) [
    | inl t ↦
        let same : some x ≡ some r = rw (t) at e in
        let eq : x ≡ r = cc same in rw t (rw (keep x t) (rw eq refl))
    | inr t ↦ rw t (rw t (find_where-update_where p f xs keep (rw t at e)))
  ]

  -- A query whose condition the write does not touch sees the same rows or their new versions.
  pub find_where-update_where-none :
      (p : A → Bool) (f : A → A) (q : A → Bool) (xs : List A)
      → ((x : A) → q (f x) ≡ q x)
      → find_where q xs ≡ none
      → find_where q (update_where p f xs) ≡ none
  unfolding find_where update_where
  find_where-update_where-none p f q [] keep e = refl
  find_where-update_where-none p f q (x ∷ xs) keep e = elim (Bool-cases (q x)) [
    | inl t ↦ cc (rw t at e)
    | inr t ↦ elim (Bool-cases (p x)) [
      | inl u ↦ rw u (rw (keep x) (rw t (find_where-update_where-none p f q xs keep (rw t at e))))
      | inr u ↦ rw u (rw t (find_where-update_where-none p f q xs keep (rw t at e)))
    ]
  ]

  pub length-update_where :
      (p : A → Bool) (f : A → A) (xs : List A) → length (update_where p f xs) ≡ length xs
  unfolding update_where
  length-update_where p f [] = refl
  length-update_where p f (x ∷ xs) = omega (arith, length-update_where p f xs)

  -- A query finds the row that it found before, or its new version where the write reaches it.
  pub find_where-update :
      (p q : A → Bool) (f : A → A) (xs : List A) {r : A}
      → ((x : A) → p (f x) ≡ p x)
      → find_where p xs ≡ some r
      → find_where p (update_where q f xs) ≡ some (if q r then f r else r)
  unfolding find_where update_where
  find_where-update p q f [] keep e = cc
  find_where-update p q f (x ∷ xs) {r} keep e = elim (Bool-cases (p x)) [
    | inl t ↦
        let same : some x ≡ some r = rw t at e in
        let eq : x ≡ r = cc same in
        elim (Bool-cases (q x)) [
          | inl u ↦ rw (← eq) (rw u (rw (keep x) (rw t refl)))
          | inr u ↦ rw (← eq) (rw u (rw t refl))
        ]
    | inr t ↦
        let ih = find_where-update p q f xs keep (rw t at e) in
        elim (Bool-cases (q x)) [ inl u ↦ rw u (rw (keep x) (rw t ih)) | inr u ↦ rw u (rw t ih) ]
  ]

  -- A new row at the end is found where no row was.
  pub find_where-append :
      (p : A → Bool) (xs : List A) (y : A)
      → find_where p xs ≡ none
      → p y ≡ true
      → find_where p (xs ++ (y ∷ [])) ≡ some y
  unfolding find_where
  find_where-append p [] y e h = rw h refl
  find_where-append p (x ∷ xs) y e h = elim (Bool-cases (p x)) [
    | inl t ↦ cc (rw t at e)
    | inr t ↦ rw t (find_where-append p xs y (rw t at e) h)
  ]

  -- and leaves what another query finds.
  pub find_where-append_other :
      (p : A → Bool) (xs : List A) (y : A)
      → p y ≡ false
      → find_where p (xs ++ (y ∷ [])) ≡ find_where p xs
  unfolding find_where
  find_where-append_other p [] y h = rw h refl
  find_where-append_other p (x ∷ xs) y h = elim (Bool-cases (p x)) [
    | inl t ↦ rw t refl
    | inr t ↦ rw t (find_where-append_other p xs y h)
  ]

  -- A write to rows that a query does not select, and that stay so, leaves what it finds.
  pub find_where-update_other :
      (p q : A → Bool) (f : A → A) (xs : List A)
      → ((x : A) → q x ≡ true → (p x ≡ false) × (p (f x) ≡ false))
      → find_where p (update_where q f xs) ≡ find_where p xs
  unfolding find_where update_where
  find_where-update_other p q f [] apart = refl
  find_where-update_other p q f (x ∷ xs) apart = elim (Bool-cases (q x)) [
    | inl u ↦
        let (before, after) = apart x u in
        rw u (rw after (rw before (find_where-update_other p q f xs apart)))
    | inr u ↦ rw u (ap (λ r. if p x then some x else r) (find_where-update_other p q f xs apart))
  ]
