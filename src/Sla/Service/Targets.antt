-- ===== src/Sla/Service/Targets.antt =====
-- modules/sla/sla.service.ts: the one target of a ticket and kind, as each lifecycle event leaves it.
use prime_focus_css_api.Common.{
  ℕ, ◌≡◌, refl, sym, ◌∙◌, true, false, ◌&&◌, Option, some, none, inl, inr, ==_refl, Bool-cases,
  Uuid, Instant, is_some, is_none, find_where-update, if◌then◌else◌,
}
use prime_focus_css_api.Common.Errors.{Result, ok, both-ok}
use prime_focus_css_api.Sla.Clock.{BusinessCalendar, add_business_minutes}
use prime_focus_css_api.Sla.Clock.Windows.{Text}
use prime_focus_css_api.Sla.Clock.Zone.{Formatter}
use prime_focus_css_api.Sla.Store.{
  SlaTargetKind, first_response, resolution, SlaPolicyRow, TicketSlaTargetRow, SlaStore, NewTarget,
  find_policy_for, find_target, update_target, is_target, same_kind, insert_target, has_id,
}
use prime_focus_css_api.Sla.Service.{
  TicketClockContext, satisfy, is_finished, mark_first_response, satisfy_resolution, apply_target,
  apply_targets_for_new_ticket, reopen_resolution_target, on_status_changed,
}
use prime_focus_css_api.Sla.Service.Inserts.{FreshIn, insert_target-fresh, insert_target-other}
use prime_focus_css_api.Sla.Service.Lifecycle.{on_status_changed-reopens}
use prime_focus_css_api.Ticket.Status.{TicketStatus, same_status}

-- The resolution target when its ticket is finished: met, unless it was met or missed before.
abbrev pub met : Instant → TicketSlaTargetRow → TicketSlaTargetRow
met now t = if is_none t.satisfied_at && is_none t.breached_at then satisfy now t else t

satisfy_resolution-met :
    (ticket_id : Uuid) (now : Instant) (s : SlaStore) (t : TicketSlaTargetRow)
    → find_target ticket_id resolution s ≡ some t
    → find_target ticket_id resolution (satisfy_resolution ticket_id now s) ≡ some (met now t)
unfolding satisfy_resolution find_target update_target
satisfy_resolution-met ticket_id now s t there =
    let written =
      find_where-update (is_target ticket_id resolution) (has_id t.id) (satisfy now) s.targets
        (λ x. refl) there in
    elim (Bool-cases (is_none t.satisfied_at && is_none t.breached_at)) [
      | inl runs ↦ rw (there, satisfy_resolution) (rw runs (written ∙ rw (==_refl t.id) refl))
      | inr over ↦ rw (there, satisfy_resolution) (rw over there)
    ]

satisfy_resolution-absent :
    (ticket_id : Uuid) (now : Instant) (s : SlaStore)
    → find_target ticket_id resolution s ≡ none
    → satisfy_resolution ticket_id now s ≡ s
unfolding satisfy_resolution
satisfy_resolution-absent ticket_id now s absent = rw (absent, satisfy_resolution) refl

mark_first_response-answered :
    (ticket_id : Uuid) (at : Instant) (s : SlaStore) (t : TicketSlaTargetRow)
    → find_target ticket_id first_response s ≡ some t
    → is_some t.satisfied_at ≡ true
    → mark_first_response ticket_id at s ≡ s
unfolding mark_first_response
mark_first_response-answered ticket_id at s t there answered =
    rw (there, mark_first_response) (rw answered refl)

mark_first_response-waiting :
    (ticket_id : Uuid) (at : Instant) (s : SlaStore) (t : TicketSlaTargetRow)
    → find_target ticket_id first_response s ≡ some t
    → is_some t.satisfied_at ≡ false
    → find_target ticket_id first_response (mark_first_response ticket_id at s)
      ≡ some (satisfy at t)
unfolding mark_first_response find_target update_target
mark_first_response-waiting ticket_id at s t there waiting =
    rw (there, mark_first_response)
      (rw waiting (
        find_where-update (is_target ticket_id first_response) (has_id t.id) (satisfy at) s.targets
          (λ x. refl) there
        ∙ rw (==_refl t.id) refl))

-- The first public reply meets a first-response target that was there and not met, and a later
-- reply changes nothing.
mark_first_response_once :
    (ticket_id : Uuid) (at later : Instant) (s : SlaStore) (t : TicketSlaTargetRow)
    → find_target ticket_id first_response s ≡ some t
    → (find_target ticket_id first_response (mark_first_response ticket_id at s)
        ≡ some (if is_some t.satisfied_at then t else satisfy at t))
      × (mark_first_response ticket_id later (mark_first_response ticket_id at s)
          ≡ mark_first_response ticket_id at s)
mark_first_response_once ticket_id at later s t there = elim (Bool-cases (is_some t.satisfied_at)) [
  | inl answered ↦
      let same = mark_first_response-answered ticket_id at s t there answered in
      rw answered (rw same (there, mark_first_response-answered ticket_id later s t there answered))
  | inr waiting ↦
      let written = mark_first_response-waiting ticket_id at s t there waiting in
      rw waiting (written, mark_first_response-answered ticket_id later _ _ written refl)
]

module _ (intl : Text → Option Formatter)
    (calendar_for : Option Uuid → Result BusinessCalendar) where
  abbrev pub clock :
      TicketClockContext → SlaPolicyRow → SlaTargetKind → ℕ → Instant → Instant → NewTarget
  clock ticket policy kind minutes started_at due_at = record {
    ticket_id = ticket.id;
    policy_id = policy.id;
    kind = kind;
    target_minutes = minutes;
    business_hours_id = policy.business_hours_id;
    started_at = started_at;
    due_at = due_at;
  }

  apply_target-starts :
      (ticket : TicketClockContext) (policy : SlaPolicyRow) (calendar : BusinessCalendar)
      (started_at : Instant) (kind : SlaTargetKind) (minutes : ℕ) (s s' : SlaStore)
      → apply_target intl calendar_for ticket policy calendar started_at kind minutes s ≡ ok s'
      → (due : Instant) × (add_business_minutes intl started_at minutes calendar ≡ ok due)
        × FreshIn (clock ticket policy kind minutes started_at due) s'
        × ((other : SlaTargetKind)
            → same_kind other kind ≡ false
            → find_target ticket.id other s' ≡ find_target ticket.id other s)
  unfolding apply_target
  apply_target-starts ticket policy calendar started_at kind minutes s s' e =
      let (due, h, same) = both-ok _ _ e in
      let v = clock ticket policy kind minutes started_at due in
      let written : insert_target v s ≡ s' = cc same in
      (
        due,
        h,
        rw (← written) (insert_target-fresh v s),
        λ other apart. rw (← written) (insert_target-other v ticket.id other s apart),
      )

  -- A move to a finished status from another status always succeeds; a resolution target that is
  -- there is met at now, unless it was met or missed before, and without one nothing changes.
  pub on_status_changed-resolve :
      (ticket : TicketClockContext) (from to : TicketStatus) (now : Instant) (s : SlaStore)
      → same_status from to ≡ false
      → is_finished to ≡ true
      → (s' : SlaStore) × (on_status_changed intl calendar_for ticket from to now s ≡ ok s')
        × ((t : TicketSlaTargetRow)
            → find_target ticket.id resolution s ≡ some t
            → find_target ticket.id resolution s' ≡ some (met now t))
        × (find_target ticket.id resolution s ≡ none → s' ≡ s)
  unfolding on_status_changed
  on_status_changed-resolve ticket from to now s moved over = (
    satisfy_resolution ticket.id now s,
    rw moved (rw over refl),
    λ t there. satisfy_resolution-met ticket.id now s t there,
    λ absent. satisfy_resolution-absent ticket.id now s absent,
  )

  -- When a finished ticket under a policy is successfully moved to an unfinished status, its
  -- resolution target is a fresh clock from now, due after the policy minutes on the policy
  -- calendar, and its first-response target is as it was.
  pub on_status_changed-reopen :
      (ticket : TicketClockContext) (from to : TicketStatus) (now : Instant) (s s' : SlaStore)
      (policy : SlaPolicyRow)
      → is_finished from ≡ true
      → is_finished to ≡ false
      → find_policy_for ticket.product_id ticket.priority s ≡ some policy
      → on_status_changed intl calendar_for ticket from to now s ≡ ok s'
      → (calendar : BusinessCalendar) × (due : Instant) × (calendar_for
            (some policy.business_hours_id)
          ≡ ok calendar)
        × (add_business_minutes intl now policy.resolution_minutes calendar ≡ ok due)
        × FreshIn (clock ticket policy resolution policy.resolution_minutes now due) s'
        × (find_target ticket.id first_response s' ≡ find_target ticket.id first_response s)
  unfolding reopen_resolution_target
  on_status_changed-reopen ticket from to now s s' policy was live governed e =
      let e₁ =
        sym (on_status_changed-reopens intl calendar_for ticket now s from to was live) ∙ e in
      let (calendar, known, e₂) = both-ok _ _ (rw (governed, reopen_resolution_target) at e₁) in
      let (due, added, fresh, frame) =
        apply_target-starts ticket policy calendar now resolution _ s s' e₂ in
      (calendar, due, known, added, fresh, frame first_response refl)

  -- For a ticket under a policy, a successful applyTargetsForNewTicket leaves both its targets as
  -- fresh clocks from the same instant, each due after its own minutes on the policy calendar.
  pub apply_targets_for_new_ticket-fresh :
      (ticket : TicketClockContext) (started_at : Instant) (s s' : SlaStore) (policy : SlaPolicyRow)
      → find_policy_for ticket.product_id ticket.priority s ≡ some policy
      → apply_targets_for_new_ticket intl calendar_for ticket started_at s ≡ ok s'
      → (calendar : BusinessCalendar) × (respond resolve : Instant) × (calendar_for
            (some policy.business_hours_id)
          ≡ ok calendar)
        × (add_business_minutes intl started_at policy.first_response_minutes calendar ≡ ok respond)
        × (add_business_minutes intl started_at policy.resolution_minutes calendar ≡ ok resolve)
        × FreshIn
            (clock ticket policy first_response policy.first_response_minutes started_at respond)
            s'
        × FreshIn (clock ticket policy resolution policy.resolution_minutes started_at resolve) s'
  unfolding apply_targets_for_new_ticket
  apply_targets_for_new_ticket-fresh ticket started_at s s' policy governed e =
      let (calendar, known, e₁) = both-ok _ _ (rw (governed, apply_targets_for_new_ticket) at e) in
      let (s₁, first, second) = both-ok _ _ e₁ in
      let (respond, h₁, (t, there, fresh), _) =
        apply_target-starts ticket policy calendar started_at first_response _ s s₁ first in
      let (resolve, h₂, fresh₂, frame) =
        apply_target-starts ticket policy calendar started_at resolution _ s₁ s' second in
      (
        calendar,
        respond,
        resolve,
        known,
        h₁,
        h₂,
        (t, frame first_response refl ∙ there, fresh),
        fresh₂,
      )
