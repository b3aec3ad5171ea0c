-- ===== src/Sla/Clock/Segments.antt =====
-- modules/sla/sla.clock.ts: what the walk over the open stretches of one day has used up, against
-- the overlap that the elapsed-time loop counts.
use prime_focus_css_api.Common.{
  ℕ, ◌+◌, ◌-◌, ◌≤◌, ◌<◌, max, ◌≡◌, refl, List, [], ◌∷◌, arith, leb, Instant, Bool-cases, inl, inr,
  ◌⊎◌,
}
use prime_focus_css_api.Sla.Clock.{Segment, Walk, found, left, consume, consume_all, overlap_all}

-- The stretches follow one another between two instants.
abbrev pub IsWithin : Instant → Instant → List Segment → Type 0
IsWithin lo hi [] = lo ≤ hi
IsWithin lo hi (w ∷ ws) = (lo ≤ w.opens) × (w.opens ≤ w.closes) × IsWithin w.closes hi ws

pub IsWithin-le : (ws : List Segment) {lo hi : Instant} → IsWithin lo hi ws → lo ≤ hi
IsWithin-le [] h = h
IsWithin-le (w ∷ ws) h = omega (arith, IsWithin-le ws h.2)

-- Stretches that begin at or after `end` do not overlap what ends there.
pub overlap_all-zero :
    (ws : List Segment) (lo hi : Instant) (start end : Instant)
    → IsWithin lo hi ws
    → end ≤ lo
    → overlap_all start end ws ≡ 0
unfolding overlap_all
overlap_all-zero [] lo hi start end h le = refl
overlap_all-zero (w ∷ ws) lo hi start end h le =
    omega (arith, overlap_all-zero ws w.closes hi start end h.2 (omega arith))

-- Where the counting starts does not matter before the first stretch.
pub overlap_all-start :
    (ws : List Segment) (lo hi : Instant) (a b end : Instant)
    → IsWithin lo hi ws
    → max a lo ≡ max b lo
    → overlap_all a end ws ≡ overlap_all b end ws
unfolding overlap_all
overlap_all-start [] lo hi a b end h e = refl
overlap_all-start (w ∷ ws) lo hi a b end h e =
    omega (arith, overlap_all-start ws w.closes hi a b end h.2 (omega arith))

-- One window, by cases.
pub data Consumed (w : Segment) (remaining : ℕ) (cursor : Instant) : Walk → Type 0 where
  skipped : w.closes ≤ max w.opens cursor → Consumed w remaining cursor (left remaining cursor)
  ended :
      (t : Instant)
      → t ≡ max w.opens cursor + remaining
      → t ≤ w.closes
      → Consumed w remaining cursor (found t)
  used :
      (r : ℕ)
      → max w.opens cursor < w.closes
      → r + (w.closes - max w.opens cursor) ≡ remaining
      → 0 < r
      → Consumed w remaining cursor (left r w.closes)

pub consume-Consumed :
    (w : Segment) (remaining : ℕ) (cursor : Instant)
    → Consumed w remaining cursor (consume w remaining cursor)
unfolding consume
consume-Consumed w remaining cursor = elim (Bool-cases (leb w.closes (max w.opens cursor))) [
  | inl e ↦ rw e (skipped (ground arith))
  | inr e ↦ elim (Bool-cases (leb remaining (w.closes - max w.opens cursor))) [
    | inl d ↦ rw e (rw d (ended (max w.opens cursor + remaining) refl (ground arith)))
    | inr d ↦ rw e (
        rw d (
          used (remaining - (w.closes - max w.opens cursor)) (ground arith) (ground arith)
            (ground arith)))
  ]
]

-- What is known of the walk's outcome over a day between `lo` and `hi`.
abbrev pub DayDone : List Segment → Instant → ℕ → Instant → Walk → Type 0
DayDone ws hi remaining cursor (found t) =
    (overlap_all cursor t ws ≡ remaining) × (t ≤ hi) × (cursor + remaining ≤ t)
DayDone ws hi remaining cursor (left r c) =
    (cursor ≤ c)
    × (c ≤ max cursor hi)
    × (cursor + remaining ≤ c + r)
    × (0 < remaining → 0 < r)
    × ((end : Instant) → hi ≤ end → overlap_all cursor end ws + r ≡ remaining)

module _ (w : Segment) (ws : List Segment) (hi : Instant) (remaining : ℕ) (cursor : Instant)
    (in_order : w.opens ≤ w.closes) (within : IsWithin w.closes hi ws) where
  DayDone-skip :
      (k : Walk)
      → w.closes ≤ max w.opens cursor
      → DayDone ws hi remaining cursor k
      → DayDone (w ∷ ws) hi remaining cursor k
  unfolding overlap_all
  DayDone-skip (found t) s h = (omega arith, h.1, h.2)
  DayDone-skip (left r c) s h = (h.0, h.1, h.2, h.3, λ end le. omega (arith, h.4 end le))

  DayDone-use :
      (k : Walk) (r : ℕ)
      → max w.opens cursor < w.closes
      → r + (w.closes - max w.opens cursor) ≡ remaining
      → 0 < r
      → DayDone ws hi r w.closes k
      → DayDone (w ∷ ws) hi remaining cursor k
  unfolding overlap_all
  DayDone-use (found t) r s e pos h = (
    omega (arith, h, overlap_all-start ws w.closes hi cursor w.closes t within (omega arith)),
    h.1,
    omega arith,
  )
  DayDone-use (left r' c) r s e pos h = (
    omega arith,
    omega (arith, IsWithin-le ws within),
    omega arith,
    λ _. h.3 pos,
    λ end le. omega (
      arith,
      h.4 end le,
      IsWithin-le ws within,
      overlap_all-start ws w.closes hi cursor w.closes end within (omega arith),
    ),
  )

  DayDone-end :
      (t : Instant)
      → t ≡ max w.opens cursor + remaining
      → t ≤ w.closes
      → DayDone (w ∷ ws) hi remaining cursor (found t)
  unfolding overlap_all
  DayDone-end t e le = (
    omega (arith, overlap_all-zero ws w.closes hi cursor t within le),
    omega (arith, IsWithin-le ws within),
    omega arith,
  )

  DayDone-cons :
      (m : Walk)
      → Consumed w remaining cursor m
      → ((r : ℕ) (c : Instant) → DayDone ws hi r c (consume_all ws r c))
      → DayDone
          (w ∷ ws)
          hi
          remaining
          cursor
          (elim m [ found t ↦ found t | left r c ↦ consume_all ws r c ])
  DayDone-cons _ (skipped s) ih = DayDone-skip _ s (ih remaining cursor)
  DayDone-cons _ (ended t e le) ih = DayDone-end t e le
  DayDone-cons _ (used r s e pos) ih = DayDone-use _ r s e pos (ih r w.closes)

-- A day's walk uses up exactly the open time that it passes, and never outruns the wall clock.
pub consume_all-DayDone :
    (ws : List Segment) (lo hi : Instant) (remaining : ℕ) (cursor : Instant)
    → IsWithin lo hi ws
    → DayDone ws hi remaining cursor (consume_all ws remaining cursor)
unfolding consume_all
consume_all-DayDone [] lo hi remaining cursor h =
    (omega arith, omega arith, omega arith, λ p. p, λ end le. unfold overlap_all in omega arith)
consume_all-DayDone (w ∷ ws) lo hi remaining cursor h =
    DayDone-cons w ws hi remaining cursor h.1 h.2 (consume w remaining cursor)
      (consume-Consumed w remaining cursor) (λ r c. consume_all-DayDone ws w.closes hi r c h.2)

-- In any order, the walk never goes back and never places time faster than it passes.
abbrev pub Advances : ℕ → Instant → Walk → Type 0
Advances remaining cursor (found t) = cursor + remaining ≤ t
Advances remaining cursor (left r c) =
    (cursor ≤ c) × (cursor + remaining ≤ c + r) × (0 < remaining → 0 < r)

Advances-trans :
    (remaining r : ℕ) (cursor c : Instant) (k : Walk)
    → cursor ≤ c
    → cursor + remaining ≤ c + r
    → (0 < remaining → 0 < r)
    → Advances r c k
    → Advances remaining cursor k
Advances-trans remaining r cursor c (found t) h e p k = omega arith
Advances-trans remaining r cursor c (left r' c') h e p k =
    (omega arith, omega arith, λ q. k.2 (p q))

pub consume_all-Advances :
    (ws : List Segment) (remaining : ℕ) (cursor : Instant)
    → Advances remaining cursor (consume_all ws remaining cursor)
unfolding consume_all
consume_all-Advances [] remaining cursor = (omega arith, omega arith, λ p. p)
consume_all-Advances (w ∷ ws) remaining cursor =
    go (consume w remaining cursor) (consume-Consumed w remaining cursor)
      (λ r c. consume_all-Advances ws r c)
  where
    go :
        (m : Walk)
        → Consumed w remaining cursor m
        → ((r : ℕ) (c : Instant) → Advances r c (consume_all ws r c))
        → Advances remaining cursor (elim m [ found t ↦ found t | left r c ↦ consume_all ws r c ])
    go _ (skipped s) ih = ih remaining cursor
    go _ (ended t e le) ih = omega arith
    go _ (used r s e pos) ih =
        Advances-trans remaining r cursor w.closes (consume_all ws r w.closes) (omega arith)
          (omega arith) (λ _. pos) (ih r w.closes)

pub Walk-cases :
    (m : Walk) → ((t : Instant) × (m ≡ found t)) ⊎ ((r : ℕ) × (c : Instant) × (m ≡ left r c))
Walk-cases (found t) = inl (t, refl)
Walk-cases (left r c) = inr (r, c, refl)
