-- ===== src/Ticket/Service/Tests.antt =====
-- modules/ticket/ticket.service.ts: one new ticket, without a policy over it, through its life.
use prime_focus_css_api.Common.{
  ◌+◌, ◌≡◌, refl, true, false, Option, some, none, List, [], ◌∷◌, Uuid, inl, find_where,
  update_where, opt_eq, ◌==◌,
}
use prime_focus_css_api.Common.Errors.{Result, ok, err, not_found_error}
use prime_focus_css_api.Sla.Clock.{BusinessCalendar}
use prime_focus_css_api.Sla.Clock.Tests.{intl, calendar}
use prime_focus_css_api.Sla.Service.{is_finished, on_status_changed, satisfy_resolution}
use prime_focus_css_api.Ticket.Model.{normal, high, email}
use prime_focus_css_api.Ticket.Status.{
  TicketStatus, new, open_status, resolved, can_transition, keep, put,
}
use prime_focus_css_api.Ticket.Store.{
  TicketRow, UserRow, active, system_actor, Effect, audited, ticket_resolved, ticket_assigned,
  notify_assignment, survey_dispatch, ticket_reopened, Db, find_raw_by_id, user_has_product_access,
}
use prime_focus_css_api.Ticket.Service.{
  TicketPatch, update_fields, patch_ticket, reopen, reopen_row, register_customer_reply,
  reply_patch, register_agent_reply, agent_reply_patch, assign, assign_patch, is_active_user,
}
use prime_focus_css_api.Ticket.Service.Rows.{IsConsistent}
use prime_focus_css_api.Ticket.Service.Lifecycle.{
  update_fields-row, reopen-row, register_customer_reply-row,
}
use prime_focus_css_api.Ticket.Service.Access.{
  hidden_not_found, hidden_resource, assign-row, register_agent_reply-row,
}

abbrev calendar_for : Option Uuid → Result BusinessCalendar
calendar_for _ = ok calendar

abbrev ticket : TicketRow
ticket = record {
  id = 7;
  customer_id = 2;
  product_id = 3;
  category_id = none;
  status = new;
  priority = normal;
  channel = email;
  assigned_to_user_id = none;
  team_id = none;
  first_response_at = none;
  resolved_at = none;
  closed_at = none;
  reopened_count = 0;
  last_customer_reply_at = none;
  last_agent_reply_at = none;
}

abbrev agent : UserRow
agent = record { id = 5; status = active; is_super_admin = false; permissions = [] }

abbrev db_of : TicketRow → List Effect → Db
db_of t effects = record {
  tickets = t ∷ [];
  assignments = [];
  categories = [];
  users = agent ∷ [];
  product_grants = (5, 3) ∷ [];
  sla = record { policies = []; targets = []; breaches = []; next_id = 0 };
  effects = effects;
}

abbrev resolving : TicketPatch
resolving = record {
  priority = put high;
  category_id = keep;
  status = some resolved;
  team_id = keep;
}

abbrev done : TicketRow
done = record ticket { priority = high; status = resolved; resolved_at = some 100 }

abbrev after_update : Db
after_update = db_of done (audited 7 ∷ ticket_resolved 7 ∷ survey_dispatch 7 ∷ [])

updates :
    update_fields intl calendar_for 7 resolving system_actor 100 (db_of ticket []) ≡ ok after_update
unfolding update_fields find_where on_status_changed update_where satisfy_resolution
    prime_focus_css_api.Sla.Store.find_target
updates = refl

update_fields-row_example :
    (before : TicketRow) × (find_raw_by_id 7 (db_of ticket []) ≡ some before)
    × ((to : TicketStatus) → some resolved ≡ some to → can_transition before.status to ≡ true)
    × (find_raw_by_id 7 after_update ≡ some (patch_ticket resolving 100 before))
    × (IsConsistent before → IsConsistent (patch_ticket resolving 100 before))
update_fields-row_example =
    update_fields-row intl calendar_for 7 resolving system_actor 100 (db_of ticket []) after_update
      updates

abbrev after_reopen : Db
after_reopen = db_of (reopen_row 1 done) (audited 7 ∷ ticket_reopened 7 ∷ [])

reopens : reopen intl calendar_for 7 system_actor 200 (db_of done []) ≡ ok after_reopen
unfolding reopen find_where on_status_changed
    prime_focus_css_api.Sla.Service.reopen_resolution_target
    prime_focus_css_api.Sla.Store.find_policy_for update_where
reopens = refl

reopen-row_example :
    (before : TicketRow) × (find_raw_by_id 7 (db_of done []) ≡ some before)
    × (is_finished before.status ≡ true)
    × (find_raw_by_id 7 after_reopen ≡ some (reopen_row (before.reopened_count + 1) before))
    × IsConsistent (reopen_row (before.reopened_count + 1) before)
reopen-row_example =
    reopen-row intl calendar_for 7 system_actor 200 (db_of done []) after_reopen reopens

abbrev after_reply : Db
after_reply = db_of (record (reopen_row 1 done) { last_customer_reply_at = some 300 }) []

replies :
    register_customer_reply intl calendar_for done 300 (db_of done [])
    ≡ ok (open_status, after_reply)
unfolding register_customer_reply on_status_changed
    prime_focus_css_api.Sla.Service.reopen_resolution_target
    prime_focus_css_api.Sla.Store.find_policy_for find_where update_where
replies = refl

found_done : find_raw_by_id 7 (db_of done []) ≡ some done
unfolding find_raw_by_id find_where
found_done = refl

register_customer_reply-row_example :
    (find_raw_by_id 7 after_reply ≡ some (reply_patch done 300 done))
    × ((reply_patch done 300 done).status ≡ open_status)
    × ((reply_patch done 300 done).reopened_count ≡ 1)
    × (IsConsistent done → IsConsistent (reply_patch done 300 done))
register_customer_reply-row_example =
    register_customer_reply-row intl calendar_for done 300 (db_of done []) after_reply open_status
      found_done replies

found_ticket : find_raw_by_id 7 (db_of ticket []) ≡ some ticket
unfolding find_raw_by_id find_where
found_ticket = refl

register_agent_reply-row_example :
    (find_raw_by_id 7 (register_agent_reply ticket 50 (db_of ticket [])).1
      ≡ some (agent_reply_patch ticket 50 ticket))
    × ((agent_reply_patch ticket 50 ticket).first_response_at ≡ some 50)
    × ((register_agent_reply ticket 50 (db_of ticket [])).0 ≡ true)
    × (true ≡ false
        → (register_agent_reply ticket 50 (db_of ticket [])).1.sla ≡ (db_of ticket []).sla)
register_agent_reply-row_example = register_agent_reply-row ticket 50 (db_of ticket []) found_ticket

abbrev after_assign : Db
after_assign =
    record (db_of (record ticket { assigned_to_user_id = some 5; status = open_status })
      (audited 7 ∷ ticket_assigned 7 ∷ notify_assignment 5 7 ∷ [])) {
        assignments =
            record {
              ticket_id = 7;
              from_user_id = none;
              to_user_id = some 5;
              assigned_by_user_id = none;
            }
            ∷ [];
      }

assigns : assign 7 (some 5) system_actor (db_of ticket []) ≡ ok after_assign
unfolding assign find_where update_where
assigns = refl

assign-row_example :
    (before : TicketRow) × (find_raw_by_id 7 (db_of ticket []) ≡ some before)
    × ((user : Uuid)
        → some 5 ≡ some user
        → (assignee : UserRow) × (find_where (λ (x : UserRow). x.id == user) (db_of ticket []).users
            ≡ some assignee)
          × (is_active_user assignee ≡ true)
          × (user_has_product_access user before.product_id (db_of ticket []) ≡ true))
    × (opt_eq before.assigned_to_user_id (some 5) ≡ true → after_assign ≡ db_of ticket [])
    × (opt_eq before.assigned_to_user_id (some 5) ≡ false
        → find_raw_by_id 7 after_assign ≡ some (assign_patch before (some 5) before))
assign-row_example = assign-row 7 (some 5) system_actor (db_of ticket []) after_assign assigns

missing : find_raw_by_id 8 (db_of ticket []) ≡ none
unfolding find_raw_by_id find_where
missing = refl

hidden_not_found_example :
    (update_fields intl calendar_for 8 resolving system_actor 1 (db_of ticket [])
      ≡ err (not_found_error (hidden_resource 8 (db_of ticket []))))
    × (reopen intl calendar_for 8 system_actor 1 (db_of ticket [])
        ≡ err (not_found_error (hidden_resource 8 (db_of ticket []))))
    × (assign 8 none system_actor (db_of ticket [])
        ≡ err (not_found_error (hidden_resource 8 (db_of ticket []))))
hidden_not_found_example =
    hidden_not_found intl calendar_for 8 system_actor 1 (db_of ticket []) resolving none
      (inl missing)
