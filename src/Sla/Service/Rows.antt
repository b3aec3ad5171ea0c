-- ===== src/Sla/Service/Rows.antt =====
-- modules/sla/sla.service.ts: a loop over queried targets that writes each by its id changes each
-- row of the table on its own.
use prime_focus_css_api.Common.{
  ◌≡◌, ◌≢◌, refl, ap, sym, ◌∙◌, Bool, true, false, Option, some, none, List, [], ◌∷◌, arith, inl,
  inr, ◌==◌, Bool-cases, ==_refl, All, Uuid, update_where, select_where, All-select_where,
}
use prime_focus_css_api.Common.Errors.{Result, ok, err, ◌>>=◌, both-ok, AppError}
use prime_focus_css_api.Sla.Store.{TicketSlaTargetRow, has_id}
use prime_focus_css_api.Sla.Service.{update_each}

abbrev pub Body : Type 0
Body = TicketSlaTargetRow → Result (Option (TicketSlaTargetRow → TicketSlaTargetRow))

-- Two tables with rows related one by one.
abbrev pub Rows :
    (TicketSlaTargetRow → TicketSlaTargetRow → Type 0)
    → List TicketSlaTargetRow
    → List TicketSlaTargetRow
    → Type 0
Rows R [] [] = Unit
Rows R (x ∷ xs) (y ∷ ys) = R x y × Rows R xs ys
Rows R _ _ = ⊥

-- The primary key.
abbrev pub HasUniqueIds : List TicketSlaTargetRow → Type 0
HasUniqueIds [] = Unit
HasUniqueIds (t ∷ ts) = All (λ u. u.id ≢ t.id) ts × HasUniqueIds ts

-- What a loop body does to the row that it is given.
pub data Written (body : Body) (t t' : TicketSlaTargetRow) : Type 0 where
  untouched : body t ≡ ok none → t' ≡ t → Written body t t'
  patched :
      (patch : TicketSlaTargetRow → TicketSlaTargetRow)
      → body t ≡ ok (some patch)
      → t' ≡ patch t
      → Written body t t'

abbrev pub Visited :
    (TicketSlaTargetRow → Bool) → Body → TicketSlaTargetRow → TicketSlaTargetRow → Type 0
Visited p body t t' = (p t ≡ true → Written body t t') × (p t ≡ false → t' ≡ t)

-- A write by an id that no row has changes nothing.
update_where-absent :
    (id : Uuid) (f : TicketSlaTargetRow → TicketSlaTargetRow) (ts : List TicketSlaTargetRow)
    → All (λ u. u.id ≢ id) ts
    → update_where (has_id id) f ts ≡ ts
unfolding update_where
update_where-absent id f [] h = refl
update_where-absent id f (t ∷ ts) (h, hs) =
    let miss : (t.id == id) ≡ false = ground arith in
    rw miss (ap (λ r. t ∷ r) (update_where-absent id f ts hs))

data BodyCases (r : Result (Option (TicketSlaTargetRow → TicketSlaTargetRow))) : Type 0 where
  throws : (e : AppError) → r ≡ err e → BodyCases r
  skips : r ≡ ok none → BodyCases r
  writes : (f : TicketSlaTargetRow → TicketSlaTargetRow) → r ≡ ok (some f) → BodyCases r

body_cases : (r : Result (Option (TicketSlaTargetRow → TicketSlaTargetRow))) → BodyCases r
body_cases (err e) = throws e refl
body_cases (ok none) = skips refl
body_cases (ok (some f)) = writes f refl

-- Writes by the ids of other rows leave a row at the front where it is.
update_each-frame :
    (body : Body) (ts : List TicketSlaTargetRow) (y : TicketSlaTargetRow)
    (table : List TicketSlaTargetRow)
    → All (λ u. u.id ≢ y.id) ts
    → update_each body ts (y ∷ table) ≡ (update_each body ts table >>= λ table'. ok (y ∷ table'))
unfolding update_each update_where
update_each-frame body [] y table h = refl
update_each-frame body (t ∷ ts) y table (h, hs) = elim (body_cases (body t)) [
  | throws e q ↦ rw q refl
  | skips q ↦ rw q (update_each-frame body ts y table hs)
  | writes f q ↦
      let miss : (y.id == t.id) ≡ false = ground arith in
      rw q (rw miss (update_each-frame body ts y (update_where (has_id t.id) f table) hs))
]

module _ (p : TicketSlaTargetRow → Bool) (body : Body)
    (keeps : (t : TicketSlaTargetRow) (f : TicketSlaTargetRow → TicketSlaTargetRow)
      → body t ≡ ok (some f)
      → (f t).id ≡ t.id) where
  -- The row at the front is visited, and the loop goes on behind it.
  front :
      (t y : TicketSlaTargetRow) (ts : List TicketSlaTargetRow) {ts' : List TicketSlaTargetRow}
      → All (λ u. u.id ≢ y.id) ts
      → update_each body (select_where p ts) (y ∷ ts) ≡ ok ts'
      → (rest : List TicketSlaTargetRow) × (update_each body (select_where p ts) ts ≡ ok rest)
        × (ts' ≡ y ∷ rest)
  front t y ts absent e =
      let (rest, e', same) =
        both-ok (update_each body (select_where p ts) ts) (λ r. ok (y ∷ r))
          (sym (update_each-frame body (select_where p ts) y ts (All-select_where _ p ts absent))
            ∙ e) in
      (rest, e', cc same)

  -- The loop over the rows that a query selects, on a table with unique ids.
  pub update_each-Visited :
      (ts ts' : List TicketSlaTargetRow)
      → HasUniqueIds ts
      → update_each body (select_where p ts) ts ≡ ok ts'
      → Rows (Visited p body) ts ts'
  unfolding update_each update_where select_where
  update_each-Visited [] ts' h e = let same : [] ≡ ts' = cc e in rw (← same) tt
  update_each-Visited (t ∷ ts) ts' (fresh, h) e = elim (Bool-cases (p t)) [
    | inr out ↦
        let (rest, e', same) = front t t ts fresh (rw (out, select_where) at e) in
        rw same ((λ i. cc (sym out ∙ i), λ _. refl), update_each-Visited ts rest h e')
    | inl selected ↦ elim (body_cases (body t)) [
      | throws x q ↦ cc (rw q at (rw (selected, select_where) at e))
      | skips q ↦
          let (rest, e', same) = front t t ts fresh (rw q at (rw (selected, select_where) at e)) in
          rw same ((λ _. untouched q refl, λ _. refl), update_each-Visited ts rest h e')
      | writes f q ↦
          let same_id : (t.id == t.id) ≡ true = ==_refl t.id in
          let kept = keeps t f q in
          let e₁ = rw q at (rw (selected, select_where) at e) in
          let e₂ = rw (update_where-absent t.id f ts fresh) at (rw same_id at e₁) in
          let (rest, e', same) = front t (f t) ts (rw kept fresh) e₂ in
          rw same
            ((λ _. patched f q refl, λ o. cc (sym selected ∙ o)), update_each-Visited ts rest h e')
    ]
  ]
