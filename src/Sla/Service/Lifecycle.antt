-- ===== src/Sla/Service/Lifecycle.antt =====
-- modules/sla/sla.service.ts: what each lifecycle event does to the deadlines of a ticket.
use prime_focus_css_api.Common.{
  ℕ, ◌+◌, ◌≡◌, refl, ap, sym, ◌∙◌, true, false, ◌&&◌, Option, some, none, List, [], ◌∷◌, arith, inl,
  inr, ◌⊎◌, Bool-cases, Option-cases, Uuid, Instant, is_none, if◌then◌else◌,
}
use prime_focus_css_api.Common.Errors.{Result, ok, both-ok}
use prime_focus_css_api.Sla.Clock.{BusinessCalendar, add_business_minutes, business_minutes_between}
use prime_focus_css_api.Sla.Clock.Windows.{Text}
use prime_focus_css_api.Sla.Clock.Zone.{Formatter}
use prime_focus_css_api.Sla.Store.{TicketSlaTargetRow, SlaStore, is_live, live_targets_for_ticket}
use prime_focus_css_api.Sla.Service.{
  TicketClockContext, pause, resume, is_finished, pause_patch, pause_targets, resume_patch,
  resume_targets, reopen_resolution_target, on_status_changed,
}
use prime_focus_css_api.Sla.Service.Rows.{
  Rows, HasUniqueIds, Visited, Written, untouched, patched, update_each-Visited,
}
use prime_focus_css_api.Ticket.Status.{TicketStatus, among, clock_paused_statuses}

-- The row of a target once its ticket's clocks are stopped at `now`.
abbrev pub stopped : Uuid → Instant → TicketSlaTargetRow → TicketSlaTargetRow
stopped ticket_id now t = if is_live ticket_id t && is_none t.paused_at then pause now t else t

Rows-map :
    {R S : TicketSlaTargetRow → TicketSlaTargetRow → Type 0} (ts ts' : List TicketSlaTargetRow)
    → ((t t' : TicketSlaTargetRow) → R t t' → S t t')
    → Rows R ts ts'
    → Rows S ts ts'
Rows-map [] [] f h = tt
Rows-map [] (u ∷ us) f h = elim h [ ]
Rows-map (t ∷ ts) [] f h = elim h [ ]
Rows-map (t ∷ ts) (u ∷ us) f (h, hs) = (f t u h, Rows-map ts us f hs)

pause_patch-stopped :
    (ticket_id : Uuid) (now : Instant) (t t' : TicketSlaTargetRow)
    → Visited (is_live ticket_id) (pause_patch now) t t'
    → t' ≡ stopped ticket_id now t
unfolding pause_patch
pause_patch-stopped ticket_id now t t' (seen, skipped) = elim (Bool-cases (is_live ticket_id t)) [
  | inr out ↦ rw out (skipped out)
  | inl live ↦ rw live (go (seen live))
]
  where
    go : Written (pause_patch now) t t' → t' ≡ (if is_none t.paused_at then pause now t else t)
    go (untouched q e) = ground arith
    go (patched f q e) = ground arith

pause_patch-keeps :
    (now : Instant) (t : TicketSlaTargetRow) (f : TicketSlaTargetRow → TicketSlaTargetRow)
    → pause_patch now t ≡ ok (some f)
    → (f t).id ≡ t.id
unfolding pause_patch
pause_patch-keeps now t f e = elim (Bool-cases (is_none t.paused_at)) [
  | inl c ↦
      let q : ok (some (pause now)) ≡ ok (some f) = rw c at e in
      let g : pause now ≡ f = cc q in rw (← g) refl
  | inr c ↦ cc (rw c at e)
]

-- Stopping the clocks stops each live clock of the ticket that runs, and touches no other row.
pub pause_targets-stopped :
    (ticket_id : Uuid) (now : Instant) (s s' : SlaStore)
    → HasUniqueIds s.targets
    → pause_targets ticket_id now s ≡ ok s'
    → Rows (λ t t'. t' ≡ stopped ticket_id now t) s.targets s'.targets
unfolding pause_targets live_targets_for_ticket
pause_targets-stopped ticket_id now s s' unique e =
    let (ts, looped, same) = both-ok _ _ e in
    let done : record s { targets = ts } ≡ s' = cc same in
    rw (← done) (
      Rows-map s.targets ts (pause_patch-stopped ticket_id now) (
        update_each-Visited (is_live ticket_id) (pause_patch now) (pause_patch-keeps now) s.targets
          ts unique looped))

module _ (intl : Text → Option Formatter) (calendar_for : Option Uuid → Result BusinessCalendar)
    (ticket : TicketClockContext) (now : Instant) (s : SlaStore) where
  -- Which of the five things a status change does.
  on_status_changed-pauses :
      (from to : TicketStatus)
      → is_finished from ≡ false
      → among clock_paused_statuses from ≡ false
      → among clock_paused_statuses to ≡ true
      → on_status_changed intl calendar_for ticket from to now s ≡ pause_targets ticket.id now s
  unfolding on_status_changed
  on_status_changed-pauses from to live running waits = ground arith

  on_status_changed-resumes :
      (from to : TicketStatus)
      → among clock_paused_statuses from ≡ true
      → is_finished to ≡ false
      → among clock_paused_statuses to ≡ false
      → on_status_changed intl calendar_for ticket from to now s
        ≡ resume_targets intl calendar_for ticket.id now s
  unfolding on_status_changed
  on_status_changed-resumes from to waited live runs = ground arith

  pub on_status_changed-reopens :
      (from to : TicketStatus)
      → is_finished from ≡ true
      → is_finished to ≡ false
      → on_status_changed intl calendar_for ticket from to now s
        ≡ reopen_resolution_target intl calendar_for ticket now s
  unfolding on_status_changed
  on_status_changed-reopens from to was live = ground arith

  -- On a table with unique ids, a successful move from a status that neither waits nor is finished
  -- to a waiting one stops each running live clock of the ticket at now, and leaves every other
  -- row as it was.
  pub on_status_changed-pause :
      (from to : TicketStatus) (s' : SlaStore)
      → HasUniqueIds s.targets
      → is_finished from ≡ false
      → among clock_paused_statuses from ≡ false
      → among clock_paused_statuses to ≡ true
      → on_status_changed intl calendar_for ticket from to now s ≡ ok s'
      → Rows (λ t t'. t' ≡ stopped ticket.id now t) s.targets s'.targets
  on_status_changed-pause from to s' unique live running waits e =
      pause_targets-stopped ticket.id now s s' unique
        (sym (on_status_changed-pauses from to live running waits) ∙ e)

-- What restarting a clock makes of a row: a live clock that was stopped runs again, its deadline
-- pushed out by the working time between the stop and now; any other row is the same.
pub data Restarted (intl : Text → Option Formatter)
    (calendar_for : Option Uuid → Result BusinessCalendar) (ticket_id : Uuid) (now : Instant)
    (t t' : TicketSlaTargetRow) : Type 0 where
  elsewhere : is_live ticket_id t ≡ false → t' ≡ t → Restarted intl calendar_for ticket_id now t t'
  running :
      is_live ticket_id t ≡ true
      → t.paused_at ≡ none
      → t' ≡ t
      → Restarted intl calendar_for ticket_id now t t'
  restarted :
      (paused_at : Instant) (calendar : BusinessCalendar) (paused : ℕ) (due_at : Instant)
      → is_live ticket_id t ≡ true
      → t.paused_at ≡ some paused_at
      → calendar_for t.business_hours_id ≡ ok calendar
      → business_minutes_between intl paused_at now calendar ≡ ok paused
      → add_business_minutes intl t.due_at paused calendar ≡ ok due_at
      → t' ≡ resume (t.paused_minutes + paused) due_at t
      → Restarted intl calendar_for ticket_id now t t'

module _ (intl : Text → Option Formatter)
    (calendar_for : Option Uuid → Result BusinessCalendar) where
  -- A patch that the loop of `resumeTargets` writes, taken apart.
  resume_patch-ok :
      (now : Instant) (t : TicketSlaTargetRow)
      (o : Option (TicketSlaTargetRow → TicketSlaTargetRow))
      → resume_patch intl calendar_for now t ≡ ok o
      → ((t.paused_at ≡ none) × (o ≡ none))
        ⊎ ((paused_at : Instant) × (calendar : BusinessCalendar) × (paused : ℕ) × (due_at : Instant)
            × (t.paused_at ≡ some paused_at)
            × (calendar_for t.business_hours_id ≡ ok calendar)
            × (business_minutes_between intl paused_at now calendar ≡ ok paused)
            × (add_business_minutes intl t.due_at paused calendar ≡ ok due_at)
            × (o ≡ some (resume (t.paused_minutes + paused) due_at)))
  unfolding resume_patch
  resume_patch-ok now t o e = elim (Option-cases t.paused_at) [
    | inl stays ↦ inl (stays, cc (rw (stays, resume_patch) at e))
    | inr (at, stopped_at) ↦
        let e' = rw (stopped_at, resume_patch) at e in
        let (calendar, hc, e₁) = both-ok _ _ e' in
        let (paused, hp, e₂) = both-ok _ _ e₁ in
        let (due_at, hd, e₃) = both-ok _ _ e₂ in
        inr (at, calendar, paused, due_at, stopped_at, hc, hp, hd, cc e₃)
  ]

  resume_patch-keeps :
      (now : Instant) (t : TicketSlaTargetRow) (f : TicketSlaTargetRow → TicketSlaTargetRow)
      → resume_patch intl calendar_for now t ≡ ok (some f)
      → (f t).id ≡ t.id
  resume_patch-keeps now t f e = elim (resume_patch-ok now t (some f) e) [
    | inl (_, no_patch) ↦ cc no_patch
    | inr (at, calendar, paused, due_at, _, _, _, _, same) ↦
        let g : f ≡ resume (t.paused_minutes + paused) due_at = cc same in rw g refl
  ]

  resume_patch-Restarted :
      (ticket_id : Uuid) (now : Instant) (t t' : TicketSlaTargetRow)
      → Visited (is_live ticket_id) (resume_patch intl calendar_for now) t t'
      → Restarted intl calendar_for ticket_id now t t'
  resume_patch-Restarted ticket_id now t t' (seen, skipped) =
      elim (Bool-cases (is_live ticket_id t)) [
        | inr out ↦ elsewhere out (skipped out)
        | inl live ↦ go live (seen live)
      ]
    where
      go :
          is_live ticket_id t ≡ true
          → Written (resume_patch intl calendar_for now) t t'
          → Restarted intl calendar_for ticket_id now t t'
      go live (untouched q same) = elim (resume_patch-ok now t none q) [
        | inl (runs, _) ↦ running live runs same
        | inr (at, calendar, paused, due_at, _, _, _, _, patch) ↦ cc patch
      ]
      go live (patched f q same) = elim (resume_patch-ok now t (some f) q) [
        | inl (_, no_patch) ↦ cc no_patch
        | inr (at, calendar, paused, due_at, h₁, h₂, h₃, h₄, patch) ↦
            let g : f ≡ resume (t.paused_minutes + paused) due_at = cc patch in
            restarted at calendar paused due_at live h₁ h₂ h₃ h₄
              (same ∙ ap (λ (h : TicketSlaTargetRow → TicketSlaTargetRow). h t) g)
      ]

  -- On a table with unique ids, a successful move from a waiting status to one that neither waits
  -- nor is finished restarts every stopped live clock of the ticket, its deadline pushed out by
  -- the working time between the stop and now, and leaves every other row as it was.
  pub on_status_changed-resume :
      (ticket : TicketClockContext) (from to : TicketStatus) (now : Instant) (s s' : SlaStore)
      → HasUniqueIds s.targets
      → among clock_paused_statuses from ≡ true
      → is_finished to ≡ false
      → among clock_paused_statuses to ≡ false
      → on_status_changed intl calendar_for ticket from to now s ≡ ok s'
      → Rows (Restarted intl calendar_for ticket.id now) s.targets s'.targets
  unfolding resume_targets live_targets_for_ticket
  on_status_changed-resume ticket from to now s s' unique waited live runs e =
      let (ts, looped, same) = both-ok _ _ (
        sym (on_status_changed-resumes intl calendar_for ticket now s from to waited live runs)
        ∙ e) in
      let done : record s { targets = ts } ≡ s' = cc same in
      rw (← done) (
        Rows-map s.targets ts (resume_patch-Restarted ticket.id now) (
          update_each-Visited (is_live ticket.id) (resume_patch intl calendar_for now)
            (resume_patch-keeps now) s.targets ts unique looped))
