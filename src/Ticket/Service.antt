-- ===== src/Ticket/Service.antt =====
-- modules/ticket/ticket.service.ts: changes of a ticket. A call gives the new database, or throws and
-- its transaction is rolled back; `now` is the time of the call. What runs after the commit, and the
-- audit entry, are in `effects`, in the order of the code. The calls of a request are not interleaved
-- with others, so an update finds the row that was read before it.
pub mod Rows
pub mod Lifecycle
pub mod Access
mod Tests
use prime_focus_css_api.Common.{
  ℕ, ◌+◌, Bool, true, false, not, ◌&&◌, ◌||◌, Option, none, some, List, [], ◌∷◌, ◌==◌,
  if◌then◌else◌, opt_eq, is_some, is_none, find_where, Uuid, Instant,
}
use prime_focus_css_api.Common.Errors.{
  Resource, Result, ok, err, ◌>>=◌, ◌>>◌, ensure, required, validation, not_found_error,
}
use prime_focus_css_api.Sla.Clock.{BusinessCalendar}
use prime_focus_css_api.Sla.Clock.Windows.{Text}
use prime_focus_css_api.Sla.Clock.Zone.{Formatter}
use prime_focus_css_api.Sla.Store.{SlaStore}
use prime_focus_css_api.Sla.Service.{
  TicketClockContext, is_finished, on_status_changed, mark_first_response,
}
use prime_focus_css_api.Ticket.Model.{TicketPriority}
use prime_focus_css_api.Ticket.Status.{
  TicketStatus, new, open_status, pending, resolved, closed, same_status, assert_transition, Patch,
  keep, put, apply_patch, timestamps_for_status,
}
use prime_focus_css_api.Ticket.Store.{
  TicketRow, AssignmentRow, UserRow, UserStatus, active, suspended, Actor, user_actor, Effect,
  ticket_updated, ticket_resolved, ticket_status_changed, ticket_assigned, ticket_reopened,
  survey_dispatch, notify_assignment, audited, Db, find_raw_by_id, update, record_assignment,
  announce, assert_access, user_has_product_access, require_for_product,
}

-- The fields of `updateFields` that a row here has; a field that is left out is `keep`.
pub record TicketPatch : Type 0 where
  pub priority : Patch TicketPriority
  pub category_id : Patch (Option Uuid)
  pub status : Option TicketStatus
  pub team_id : Patch (Option Uuid)

abbrev pub context_of : TicketRow → TicketClockContext
context_of t = record { id = t.id; product_id = t.product_id; priority = t.priority }

unfoldable pub require_accessible : Uuid → Actor → Db → Result TicketRow
unfolding find_raw_by_id assert_access
require_accessible id actor db = do
  ticket ← required (find_raw_by_id id db) (not_found_error Resource.ticket)
  assert_access actor ticket.product_id db
  ok ticket

unfoldable pub became_resolved : TicketStatus → TicketStatus → Bool
became_resolved from to = is_finished to && not (is_finished from)

-- `{ status, ...timestampsForStatus(status) }`
unfoldable pub set_status : Option TicketStatus → Instant → TicketRow → TicketRow
unfolding timestamps_for_status
set_status none now t = t
set_status (some to) now t = record t {
  status = to;
  resolved_at = apply_patch (timestamps_for_status to now).resolved_at t.resolved_at;
  closed_at = apply_patch (timestamps_for_status to now).closed_at t.closed_at;
}

unfoldable pub patch_ticket : TicketPatch → Instant → TicketRow → TicketRow
unfolding set_status
patch_ticket p now t = set_status p.status now (record t {
  priority = apply_patch p.priority t.priority;
  category_id = apply_patch p.category_id t.category_id;
  team_id = apply_patch p.team_id t.team_id;
})

-- `if (patch.categoryId) await requireForProduct(…)`
unfoldable pub check_category : Patch (Option Uuid) → Uuid → Db → Result (Unit {0})
unfolding require_for_product
check_category (put (some category_id)) product_id db =
    require_for_product category_id product_id db >> ok tt
check_category _ product_id db = ok tt

unfoldable pub check_transition : TicketStatus → Option TicketStatus → Result (Unit {0})
unfolding assert_transition
check_transition from none = ok tt
check_transition from (some to) = assert_transition from to

-- The event of an update, and the survey that a resolution earns.
unfoldable pub update_effects : TicketRow → Option TicketStatus → TicketRow → List Effect
unfolding became_resolved
update_effects before none row =
    audited row.id
    ∷ ticket_updated row.id
    ∷ (if became_resolved before.status row.status then survey_dispatch row.id ∷ [] else [])
update_effects before (some _) row =
    if became_resolved before.status row.status
    then audited row.id ∷ ticket_resolved row.id ∷ survey_dispatch row.id ∷ []
    else audited row.id ∷ ticket_status_changed row.id ∷ []

-- The two patches of a finished ticket that is put in play again: by hand, and by the customer.
abbrev pub reopen_row : ℕ → TicketRow → TicketRow
reopen_row reopened t = record t {
  status = open_status;
  resolved_at = none;
  closed_at = none;
  reopened_count = reopened;
}

abbrev pub is_open_for_reply : TicketStatus → Bool
is_open_for_reply s = is_finished s || same_status s pending

unfoldable pub reply_patch : TicketRow → Instant → TicketRow → TicketRow
reply_patch ticket now t =
    let replied = record t { last_customer_reply_at = some now } in
    if is_finished ticket.status
    then reopen_row (ticket.reopened_count + 1) replied
    else if same_status ticket.status pending
    then record replied { status = open_status }
    else replied

unfoldable pub agent_reply_patch : TicketRow → Instant → TicketRow → TicketRow
agent_reply_patch ticket now t = record t {
  last_agent_reply_at = some now;
  first_response_at = if is_none ticket.first_response_at then some now else t.first_response_at;
  status = if same_status ticket.status new then open_status else t.status;
}

abbrev pub actor_id : Actor → Option Uuid
actor_id (user_actor id _) = some id
actor_id _ = none

abbrev pub is_active_user : UserRow → Bool
is_active_user u = elim u.status [ active ↦ true | _ ↦ false ]

-- The checks of `assign` on the agent who is to get the ticket.
unfoldable pub check_assignee : Option Uuid → Uuid → Db → Result (Unit {0})
unfolding user_has_product_access
check_assignee none product_id db = ok tt
check_assignee (some user_id) product_id db = do
  assignee ←
      required (find_where (λ (u : UserRow). u.id == user_id) db.users)
        (not_found_error Resource.user)
  ensure (is_active_user assignee) validation
  ensure (user_has_product_access user_id product_id db) validation

unfoldable pub assign_patch : TicketRow → Option Uuid → TicketRow → TicketRow
assign_patch before to t = record t {
  assigned_to_user_id = to;
  status = if is_some to && same_status before.status new then open_status else t.status;
}

unfoldable pub assign_effects : Uuid → Option Uuid → Actor → List Effect
assign_effects id none actor = audited id ∷ ticket_assigned id ∷ []
assign_effects id (some user) actor =
    if opt_eq (some user) (actor_id actor)
    then audited id ∷ ticket_assigned id ∷ []
    else audited id ∷ ticket_assigned id ∷ notify_assignment user id ∷ []

unfoldable pub assign : Uuid → Option Uuid → Actor → Db → Result Db
unfolding require_accessible check_assignee assign_patch assign_effects update record_assignment
assign id to actor db = do
  before ← require_accessible id actor db
  check_assignee to before.product_id db
  if opt_eq before.assigned_to_user_id to
      then ok db
      else ok (
          announce (assign_effects id to actor) (
            record_assignment
              (record {
                ticket_id = id;
                from_user_id = before.assigned_to_user_id;
                to_user_id = to;
                assigned_by_user_id = actor_id actor;
              })
              (update id (assign_patch before to) db)))

module _ (intl : Text → Option Formatter)
    (calendar_for : Option Uuid → Result BusinessCalendar) where
  -- `slaService.onStatusChanged` on the rows of this database.
  unfoldable pub clocks_on_status_changed :
      TicketClockContext → TicketStatus → TicketStatus → Instant → Db → Result Db
  clocks_on_status_changed ticket from to now db =
      on_status_changed intl calendar_for ticket from to now db.sla >>= λ sla.
      ok (record db { sla = sla })

  unfoldable pub update_clocks :
      Option TicketStatus → TicketRow → TicketRow → Instant → Db → Result Db
  unfolding clocks_on_status_changed
  update_clocks none before row now db = ok db
  update_clocks (some _) before row now db =
      clocks_on_status_changed (context_of row) before.status row.status now db

  unfoldable pub update_fields : Uuid → TicketPatch → Actor → Instant → Db → Result Db
  unfolding require_accessible check_category check_transition patch_ticket update update_clocks
      update_effects
  update_fields id patch actor now db = do
    before ← require_accessible id actor db
    check_category patch.category_id before.product_id db
    check_transition before.status patch.status
    let row = patch_ticket patch now before
    db' ← update_clocks patch.status before row now (update id (patch_ticket patch now) db)
    ok (announce (update_effects before patch.status row) db')

  unfoldable pub reopen : Uuid → Actor → Instant → Db → Result Db
  unfolding require_accessible update clocks_on_status_changed
  reopen id actor now db = do
    before ← require_accessible id actor db
    ensure (is_finished before.status) validation
    db' ←
        clocks_on_status_changed (context_of before) before.status open_status now
          (update id (reopen_row (before.reopened_count + 1)) db)
    ok (announce (audited id ∷ ticket_reopened id ∷ []) db')

  unfoldable pub register_customer_reply : TicketRow → Instant → Db → Result (TicketStatus × Db)
  unfolding reply_patch update clocks_on_status_changed
  register_customer_reply ticket now db =
      let written = update ticket.id (reply_patch ticket now) db in
      if is_open_for_reply ticket.status
      then (clocks_on_status_changed (context_of ticket) ticket.status open_status now written
          >>= λ db'. ok (open_status, db'))
      else ok (ticket.status, written)

unfoldable pub register_agent_reply : TicketRow → Instant → Db → Bool × Db
unfolding agent_reply_patch update
register_agent_reply ticket now db =
    let written = update ticket.id (agent_reply_patch ticket now) db in
    if is_none ticket.first_response_at
    then (true, record written { sla = mark_first_response ticket.id now written.sla })
    else (false, written)
