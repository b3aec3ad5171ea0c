-- ===== src/Ticket/Service/Access.antt =====
-- modules/ticket/ticket.service.ts: registerAgentReply and assign, and who may do what at all.
use mathlib.Core.Path.{subst}
use prime_focus_css_api.Common.{
  ◌≡◌, refl, sym, ap, ◌∙◌, Bool, true, false, Option, none, some, ◌==◌, if◌then◌else◌, inl, inr,
  ◌⊎◌, Bool-cases, is_none, is_some, or_else, opt_eq, Uuid, Instant, find_where,
}
use prime_focus_css_api.Common.Errors.{
  Resource, AppError, Result, ok, err, both-ok, ensure, required, validation, not_found_error,
}
use prime_focus_css_api.Sla.Clock.{BusinessCalendar}
use prime_focus_css_api.Sla.Clock.Windows.{Text}
use prime_focus_css_api.Sla.Clock.Zone.{Formatter}
use prime_focus_css_api.Ticket.Store.{
  TicketRow, UserRow, Actor, Db, announce, find_raw_by_id, update, record_assignment, assert_access,
  allows, scope_for, user_has_product_access,
}
use prime_focus_css_api.Ticket.Service.{
  TicketPatch, require_accessible, update_fields, reopen, assign, assign_patch, assign_effects,
  check_assignee, is_active_user, actor_id, register_agent_reply, agent_reply_patch,
}
use prime_focus_css_api.Ticket.Service.Rows.{
  update-found, find_raw_by_id-same, require_accessible-ok, ensure-ok,
}

require_accessible-hidden :
    (id : Uuid) (actor : Actor) (db : Db) (t : TicketRow)
    → find_raw_by_id id db ≡ some t
    → allows (scope_for actor db) t.product_id ≡ false
    → require_accessible id actor db ≡ err (not_found_error Resource.product)
unfolding require_accessible assert_access
require_accessible-hidden id actor db t there hidden =
    rw (there, require_accessible) (rw hidden refl)

require_accessible-missing :
    (id : Uuid) (actor : Actor) (db : Db)
    → find_raw_by_id id db ≡ none
    → require_accessible id actor db ≡ err (not_found_error Resource.ticket)
unfolding require_accessible
require_accessible-missing id actor db gone = rw (gone, require_accessible) refl

-- That an actor cannot see a ticket: there is none, or its product is outside their scope.
abbrev pub IsHidden : Uuid → Actor → Db → Type 0
IsHidden id actor db =
    (find_raw_by_id id db ≡ none)
    ⊎ ((t : TicketRow) × (find_raw_by_id id db ≡ some t)
        × (allows (scope_for actor db) t.product_id ≡ false))

-- What the message of the refusal names.
abbrev pub hidden_resource : Uuid → Db → Resource
hidden_resource id db = if is_some (find_raw_by_id id db) then Resource.product else Resource.ticket

refused :
    (id : Uuid) (actor : Actor) (db : Db)
    → IsHidden id actor db
    → require_accessible id actor db ≡ err (not_found_error (hidden_resource id db))
refused id actor db (inl gone) = rw gone (require_accessible-missing id actor db gone)
refused id actor db (inr (t, there, hidden)) =
    rw there (require_accessible-hidden id actor db t there hidden)

-- For a ticket that does not exist or whose product is outside the scope of the actor,
-- updateFields, reopen and assign throw a not-found error, with the same status and code; its
-- message names the ticket if there is none, and the product if there is one.
pub hidden_not_found :
    (intl : Text → Option Formatter) (calendar_for : Option Uuid → Result BusinessCalendar)
    (id : Uuid) (actor : Actor) (now : Instant) (db : Db) (patch : TicketPatch) (to : Option Uuid)
    → IsHidden id actor db
    → (update_fields intl calendar_for id patch actor now db
        ≡ err (not_found_error (hidden_resource id db)))
      × (reopen intl calendar_for id actor now db ≡ err (not_found_error (hidden_resource id db)))
      × (assign id to actor db ≡ err (not_found_error (hidden_resource id db)))
unfolding update_fields reopen assign
hidden_not_found intl calendar_for id actor now db patch to hidden =
    let e = refused id actor db hidden in
    (rw (e, update_fields) refl, rw (e, reopen) refl, rw (e, assign) refl)

check_assignee-ok :
    (user product_id : Uuid) (db : Db) (u : Unit {0})
    → check_assignee (some user) product_id db ≡ ok u
    → (assignee : UserRow) × (find_where (λ (x : UserRow). x.id == user) db.users ≡ some assignee)
      × (is_active_user assignee ≡ true)
      × (user_has_product_access user product_id db ≡ true)
unfolding check_assignee
check_assignee-ok user product_id db u e =
    let (a, known, e₁) =
      both-ok
        (required (find_where (λ (x : UserRow). x.id == user) db.users)
          (not_found_error Resource.user))
        _ e in
    let (_, active, e₂) = both-ok (ensure (is_active_user a) validation) _ e₁ in
    (
      a,
      required-ok (find_where (λ (x : UserRow). x.id == user) db.users)
          (not_found_error Resource.user) known,
      ensure-ok (is_active_user a) validation active,
      ensure-ok (user_has_product_access user product_id db) validation e₂,
    )
  where
    required-ok :
        (o : Option UserRow) (x : AppError) {a : UserRow} → required o x ≡ ok a → o ≡ some a
    required-ok none x q = cc q
    required-ok (some b) x q = cc q

-- The database once a ticket has changed hands.
abbrev reassigned : Uuid → Option Uuid → Actor → TicketRow → Db → Db
reassigned id to actor before db = announce (assign_effects id to actor) (
    record_assignment
      (record {
        ticket_id = id;
        from_user_id = before.assigned_to_user_id;
        to_user_id = to;
        assigned_by_user_id = actor_id actor;
      })
      (update id (assign_patch before to) db))

reassigned-row :
    (id : Uuid) (to : Option Uuid) (actor : Actor) (before : TicketRow) (db : Db)
    → find_raw_by_id id db ≡ some before
    → find_raw_by_id id (reassigned id to actor before db) ≡ some (assign_patch before to before)
unfolding find_raw_by_id record_assignment assign_patch
reassigned-row id to actor before db there =
    update-found id (assign_patch before to) db before (λ x. refl) there

assign_outcome :
    (same : Bool) (db moved db' : Db)
    → (if same then ok db else ok moved) ≡ ok db'
    → (same ≡ true → db' ≡ db) × (same ≡ false → db' ≡ moved)
assign_outcome true db moved db' e = let q : db ≡ db' = cc e in (λ _. sym q, λ h. cc h)
assign_outcome false db moved db' e = let q : moved ≡ db' = cc e in (λ h. cc h, λ _. sym q)

-- A successful assign is to nobody or to an active user with access to the product of the ticket;
-- it changes nothing when the ticket has that owner already, and otherwise leaves the row with its
-- new owner.
pub assign-row :
    (id : Uuid) (to : Option Uuid) (actor : Actor) (db db' : Db)
    → assign id to actor db ≡ ok db'
    → (before : TicketRow) × (find_raw_by_id id db ≡ some before)
      × ((user : Uuid)
          → to ≡ some user
          → (assignee : UserRow) × (find_where (λ (x : UserRow). x.id == user) db.users
              ≡ some assignee)
            × (is_active_user assignee ≡ true)
            × (user_has_product_access user before.product_id db ≡ true))
      × (opt_eq before.assigned_to_user_id to ≡ true → db' ≡ db)
      × (opt_eq before.assigned_to_user_id to ≡ false
          → find_raw_by_id id db' ≡ some (assign_patch before to before))
unfolding assign
assign-row id to actor db db' e =
    let (before, accessible, e₁) = both-ok (require_accessible id actor db) _ e in
    let (u, checked, e₂) = both-ok (check_assignee to before.product_id db) _ e₁ in
    let there = require_accessible-ok id actor db before accessible in
    let (unchanged, moved) =
      assign_outcome (opt_eq before.assigned_to_user_id to) db (reassigned id to actor before db)
        db' e₂ in
    (
      before,
      there,
      λ user q.
          check_assignee-ok user before.product_id db u
            (subst (λ o. check_assignee o before.product_id db ≡ ok u) q checked),
      unchanged,
      λ other. ap (find_raw_by_id id) (moved other) ∙ reassigned-row id to actor before db there,
    )

first_set :
    (o : Option Instant) (now : Instant)
    → (if is_none o then some now else o) ≡ some (or_else o now)
first_set none now = refl
first_set (some at) now = refl

register_agent_reply-outcome :
    (ticket : TicketRow) (now : Instant) (db : Db)
    → ((register_agent_reply ticket now db).1.tickets
        ≡ (update ticket.id (agent_reply_patch ticket now) db).tickets)
      × ((register_agent_reply ticket now db).0 ≡ is_none ticket.first_response_at)
      × (is_none ticket.first_response_at ≡ false
          → (register_agent_reply ticket now db).1.sla ≡ db.sla)
unfolding register_agent_reply update
register_agent_reply-outcome ticket now db = elim (Bool-cases (is_none ticket.first_response_at)) [
  | inl first ↦ rw (first, register_agent_reply) (refl, refl, λ h. cc h)
  | inr later ↦ rw (later, register_agent_reply) (refl, refl, λ _. refl)
]

-- registerAgentReply of a stored ticket leaves the patched row; its time of first response is set
-- by the first reply and kept by later ones, the result says whether this was the first, and a
-- reply that is not the first leaves the SLA rows alone.
pub register_agent_reply-row :
    (ticket : TicketRow) (now : Instant) (db : Db)
    → find_raw_by_id ticket.id db ≡ some ticket
    → (find_raw_by_id ticket.id (register_agent_reply ticket now db).1
        ≡ some (agent_reply_patch ticket now ticket))
      × ((agent_reply_patch ticket now ticket).first_response_at
          ≡ some (or_else ticket.first_response_at now))
      × ((register_agent_reply ticket now db).0 ≡ is_none ticket.first_response_at)
      × (is_none ticket.first_response_at ≡ false
          → (register_agent_reply ticket now db).1.sla ≡ db.sla)
unfolding agent_reply_patch
register_agent_reply-row ticket now db there =
    let (rows, told, clocks) = register_agent_reply-outcome ticket now db in
    (
      find_raw_by_id-same ticket.id (update ticket.id (agent_reply_patch ticket now) db)
            (register_agent_reply ticket now db).1 rows
          ∙ update-found ticket.id (agent_reply_patch ticket now) db ticket (λ x. refl) there,
      first_set ticket.first_response_at now,
      told,
      clocks,
    )
