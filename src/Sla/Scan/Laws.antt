-- ===== src/Sla/Scan/Laws.antt =====
-- modules/sla/sla.service.ts, "the scan": a breach is recorded once, and only of a target that was
-- neither met nor missed.
use prime_focus_css_api.Common.{
  ℕ, ◌≡◌, refl, sym, ap, ◌∙◌, true, false, Option, some, none, inl, inr, ==_refl, Bool-cases,
  Option-cases, Uuid, Instant, find_where-update,
}
use prime_focus_css_api.Common.Errors.{Result, ok, both-ok}
use prime_focus_css_api.Sla.Clock.{BusinessCalendar, business_minutes_between}
use prime_focus_css_api.Sla.Clock.Windows.{Text}
use prime_focus_css_api.Sla.Clock.Zone.{Formatter}
use prime_focus_css_api.Sla.Store.{
  TicketSlaTargetRow, find_target, update_target, insert_breach, is_target, has_id,
}
use prime_focus_css_api.Sla.Scan.{World, breach, is_settled, mark_breached, record_breach}

module _ (intl : Text → Option Formatter) (calendar_for : Option Uuid → Result BusinessCalendar)
    (assigned_to : Uuid → Option Uuid) where
  mark_breached-settled :
      (entry current : TicketSlaTargetRow) (now : Instant) (minutes : ℕ) (w : World)
      → find_target entry.ticket_id entry.kind w.store ≡ some current
      → is_settled current ≡ true
      → mark_breached intl calendar_for assigned_to entry now minutes w ≡ w
  unfolding mark_breached
  mark_breached-settled entry current now minutes w there over =
      rw (there, mark_breached) (rw over refl)

  mark_breached-absent :
      (entry : TicketSlaTargetRow) (now : Instant) (minutes : ℕ) (w : World)
      → find_target entry.ticket_id entry.kind w.store ≡ none
      → mark_breached intl calendar_for assigned_to entry now minutes w ≡ w
  unfolding mark_breached
  mark_breached-absent entry now minutes w gone = rw (gone, mark_breached) refl

  mark_breached-live :
      (entry current : TicketSlaTargetRow) (now : Instant) (minutes : ℕ) (w : World)
      → find_target entry.ticket_id entry.kind w.store ≡ some current
      → is_settled current ≡ false
      → find_target entry.ticket_id entry.kind
          (mark_breached intl calendar_for assigned_to entry now minutes w).store
        ≡ some (breach now current)
  unfolding mark_breached find_target update_target insert_breach
  mark_breached-live entry current now minutes w there live =
      rw (there, mark_breached)
        (rw live (
          find_where-update (is_target entry.ticket_id entry.kind) (has_id current.id) (breach now)
            w.store.targets (λ x. refl) there
          ∙ rw (==_refl current.id) refl))

  -- Marking a target that this scan or another has marked does nothing.
  pub mark_breached_once :
      (entry : TicketSlaTargetRow) (now later : Instant) (minutes more : ℕ) (w : World)
      → mark_breached intl calendar_for assigned_to entry later more
          (mark_breached intl calendar_for assigned_to entry now minutes w)
        ≡ mark_breached intl calendar_for assigned_to entry now minutes w
  mark_breached_once entry now later minutes more w =
      elim (Option-cases (find_target entry.ticket_id entry.kind w.store)) [
        | inl gone ↦
            rw (mark_breached-absent entry now minutes w gone)
              (mark_breached-absent entry later more w gone)
        | inr (current, there) ↦ elim (Bool-cases (is_settled current)) [
          | inl over ↦
              rw (mark_breached-settled entry current now minutes w there over)
                (mark_breached-settled entry current later more w there over)
          | inr live ↦
              mark_breached-settled entry (breach now current) later more _
                (mark_breached-live entry current now minutes w there live) refl
        ]
      ]

  record_breach-marks :
      (entry : TicketSlaTargetRow) (now : Instant) (w w' : World)
      → record_breach intl calendar_for assigned_to entry now w ≡ ok w'
      → (minutes : ℕ) × (mark_breached intl calendar_for assigned_to entry now minutes w ≡ w')
  unfolding record_breach
  record_breach-marks entry now w w' e =
      let (c, _, e₁) = both-ok (calendar_for entry.business_hours_id) _ e in
      let (minutes, _, e₂) = both-ok (business_minutes_between intl entry.due_at now c) _ e₁ in
      (minutes, cc e₂)

  -- When recordBreach of a due target succeeds and a second one for it succeeds after it, at any
  -- time, the second changes nothing: no second breach row, audit entry, event or notification.
  pub record_breach_once :
      (entry : TicketSlaTargetRow) (now later : Instant) (w w' w'' : World)
      → record_breach intl calendar_for assigned_to entry now w ≡ ok w'
      → record_breach intl calendar_for assigned_to entry later w' ≡ ok w''
      → w'' ≡ w'
  record_breach_once entry now later w w' w'' first second =
      let (minutes, once) = record_breach-marks entry now w w' first in
      let (more, twice) = record_breach-marks entry later w' w'' second in
      sym twice
      ∙ ap (mark_breached intl calendar_for assigned_to entry later more) (sym once)
      ∙ mark_breached_once entry now later minutes more w
      ∙ once
