-- ===== src/Sla/Service.antt =====
-- modules/sla/sla.service.ts, "ticket lifecycle": what happens to the deadlines of a ticket when it
-- is created, answered, paused, resumed, resolved and reopened. A call in a transaction takes the
-- store and gives the new one, or throws and the transaction is rolled back. `calendar_for` is what
-- the function of that name gives for a calendar id during the call; `now` is the one time read.
pub mod Rows
pub mod Lifecycle
pub mod Inserts
pub mod Targets
mod Tests
use prime_focus_css_api.Common.{
  ℕ, ◌+◌, Bool, true, false, not, ◌&&◌, ◌||◌, Option, some, none, List, [], ◌∷◌, if◌then◌else◌,
  is_some, is_none, or_else, update_where, Uuid, Instant,
}
use prime_focus_css_api.Common.Errors.{Result, ok, err, ◌>>=◌, ◌>>◌}
use prime_focus_css_api.Sla.Clock.{BusinessCalendar, add_business_minutes, business_minutes_between}
use prime_focus_css_api.Sla.Clock.Windows.{Text}
use prime_focus_css_api.Sla.Clock.Zone.{Formatter}
use prime_focus_css_api.Sla.Store.{
  SlaTargetKind, first_response, resolution, SlaPolicyRow, TicketSlaTargetRow, SlaStore, NewTarget,
  find_policy_for, find_target, update_target, live_targets_for_ticket, insert_target, has_id,
}
use prime_focus_css_api.Ticket.Model.{TicketPriority}
use prime_focus_css_api.Ticket.Status.{
  TicketStatus, resolved, closed, same_status, among, clock_paused_statuses,
}

pub record TicketClockContext : Type 0 where
  pub id : Uuid
  pub product_id : Uuid
  pub priority : TicketPriority

-- `{ satisfiedAt: at, pausedAt: null }`
abbrev pub satisfy : Instant → TicketSlaTargetRow → TicketSlaTargetRow
satisfy at t = record t { satisfied_at = some at; paused_at = none }

abbrev pub pause : Instant → TicketSlaTargetRow → TicketSlaTargetRow
pause now t = record t { paused_at = some now }

-- `{ pausedAt: null, pausedMinutes: …, dueAt: … }`, the last two read off the queried row.
abbrev pub resume : ℕ → Instant → TicketSlaTargetRow → TicketSlaTargetRow
resume paused_minutes due t = record t {
  paused_at = none;
  paused_minutes = paused_minutes;
  due_at = due;
}

abbrev pub is_finished : TicketStatus → Bool
is_finished s = same_status s resolved || same_status s closed

-- `for (const target of targets) …`, with the patch, if any, that the body writes to the target.
unfoldable pub update_each :
    (TicketSlaTargetRow → Result (Option (TicketSlaTargetRow → TicketSlaTargetRow)))
    → List TicketSlaTargetRow
    → List TicketSlaTargetRow
    → Result (List TicketSlaTargetRow)
update_each body [] table = ok table
update_each body (t ∷ ts) table = body t >>= elim [
  | none ↦ update_each body ts table
  | some patch ↦ update_each body ts (update_where (has_id t.id) patch table)
]

-- The body of the loop that stops the clocks.
unfoldable pub pause_patch :
    Instant → TicketSlaTargetRow → Result (Option (TicketSlaTargetRow → TicketSlaTargetRow))
pause_patch now t = ok (if is_none t.paused_at then some (pause now) else none)

unfoldable pub pause_targets : Uuid → Instant → SlaStore → Result SlaStore
unfolding update_each pause_patch
pause_targets ticket_id now s =
    update_each (pause_patch now) (live_targets_for_ticket ticket_id s) s.targets >>= λ targets.
    ok (record s { targets = targets })

unfoldable pub mark_first_response : Uuid → Instant → SlaStore → SlaStore
mark_first_response ticket_id at s = elim (find_target ticket_id first_response s) [
  | none ↦ s
  | some target ↦ if is_some target.satisfied_at then s else update_target target.id (satisfy at) s
]

-- The branch of `onStatusChanged` for a ticket that is resolved or closed.
unfoldable pub satisfy_resolution : Uuid → Instant → SlaStore → SlaStore
satisfy_resolution ticket_id now s = elim (find_target ticket_id resolution s) [
  | none ↦ s
  | some target ↦
      if is_none target.satisfied_at && is_none target.breached_at
      then update_target target.id (satisfy now) s
      else s
]

module _ (intl : Text → Option Formatter)
    (calendar_for : Option Uuid → Result BusinessCalendar) where
  -- One round of the loop of `applyTargetsForNewTicket`.
  unfoldable pub apply_target :
      TicketClockContext
      → SlaPolicyRow
      → BusinessCalendar
      → Instant
      → SlaTargetKind
      → ℕ
      → SlaStore
      → Result SlaStore
  apply_target ticket policy calendar started_at kind minutes s = do
    due_at ← add_business_minutes intl started_at minutes calendar
    ok (
        insert_target
          (record {
            ticket_id = ticket.id;
            policy_id = policy.id;
            kind = kind;
            target_minutes = minutes;
            business_hours_id = policy.business_hours_id;
            started_at = started_at;
            due_at = due_at;
          })
          s)

  unfoldable pub apply_targets_for_new_ticket :
      TicketClockContext → Instant → SlaStore → Result SlaStore
  unfolding apply_target
  apply_targets_for_new_ticket ticket started_at s =
      elim (find_policy_for ticket.product_id ticket.priority s) [
        | none ↦ ok s
        | some policy ↦ calendar_for (some policy.business_hours_id) >>= λ calendar.
            apply_target ticket policy calendar started_at first_response
              policy.first_response_minutes s
            >>= λ s'.
                apply_target ticket policy calendar started_at resolution policy.resolution_minutes
                  s'
      ]

  -- The body of the loop of `resumeTargets`.
  unfoldable pub resume_patch :
      Instant → TicketSlaTargetRow → Result (Option (TicketSlaTargetRow → TicketSlaTargetRow))
  resume_patch now target = elim target.paused_at [
    | none ↦ ok none
    | some paused_at ↦ calendar_for target.business_hours_id >>= λ calendar.
        business_minutes_between intl paused_at now calendar >>= λ paused.
        add_business_minutes intl target.due_at paused calendar >>= λ due_at.
        ok (some (resume (target.paused_minutes + paused) due_at))
  ]

  unfoldable pub resume_targets : Uuid → Instant → SlaStore → Result SlaStore
  unfolding update_each resume_patch
  resume_targets ticket_id now s =
      update_each (resume_patch now) (live_targets_for_ticket ticket_id s) s.targets >>= λ targets.
      ok (record s { targets = targets })

  unfoldable pub reopen_resolution_target :
      TicketClockContext → Instant → SlaStore → Result SlaStore
  unfolding apply_target
  reopen_resolution_target ticket now s =
      elim (find_policy_for ticket.product_id ticket.priority s) [
        | none ↦ ok s
        | some policy ↦ calendar_for (some policy.business_hours_id) >>= λ calendar.
            apply_target ticket policy calendar now resolution policy.resolution_minutes s
      ]

  unfoldable pub on_status_changed :
      TicketClockContext → TicketStatus → TicketStatus → Instant → SlaStore → Result SlaStore
  on_status_changed ticket from to now s =
      let was_paused = among clock_paused_statuses from in
      let is_paused = among clock_paused_statuses to in
      if same_status from to
      then ok s
      else if is_finished to
      then ok (satisfy_resolution ticket.id now s)
      else if is_finished from
      then reopen_resolution_target ticket now s
      else if is_paused && not was_paused
      then pause_targets ticket.id now s
      else if was_paused && not is_paused
      then resume_targets ticket.id now s
      else ok s
