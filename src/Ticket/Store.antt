-- ===== src/Ticket/Store.antt =====
-- modules/ticket/ticket.model.ts, ticket.repository.ts and what the ticket service reads of products,
-- categories, users and roles. A subject is left out: the code copies it and never reads it.
use prime_focus_css_api.Common.{
  ℕ, Bool, true, false, Option, none, some, List, [], ◌∷◌, ◌++◌, ◌==◌, if◌then◌else◌, any, Uuid,
  Instant, find_where, update_where,
}
use prime_focus_css_api.Common.Errors.{
  Resource, Result, ok, err, ◌>>=◌, ensure, required, validation, not_found_error,
}
use prime_focus_css_api.Common.Permissions.{PermissionCode, includes, ticket_read_all_products}
use prime_focus_css_api.Sla.Store.{SlaStore}
use prime_focus_css_api.Ticket.Model.{TicketPriority, TicketChannel}
use prime_focus_css_api.Ticket.Status.{TicketStatus}

pub record TicketRow : Type 0 where
  pub id : Uuid
  pub customer_id : Uuid
  pub product_id : Uuid
  pub category_id : Option Uuid
  pub status : TicketStatus
  pub priority : TicketPriority
  pub channel : TicketChannel
  pub assigned_to_user_id : Option Uuid
  pub team_id : Option Uuid
  pub first_response_at : Option Instant
  pub resolved_at : Option Instant
  pub closed_at : Option Instant
  pub reopened_count : ℕ
  pub last_customer_reply_at : Option Instant
  pub last_agent_reply_at : Option Instant

pub record AssignmentRow : Type 0 where
  pub ticket_id : Uuid
  pub from_user_id : Option Uuid
  pub to_user_id : Option Uuid
  pub assigned_by_user_id : Option Uuid

pub record CategoryRow : Type 0 where
  pub id : Uuid
  pub product_id : Uuid

pub data UserStatus : Type 0 where
  invited active suspended : UserStatus

-- A user, with whether the role is the super administrator's and what it grants.
pub record UserRow : Type 0 where
  pub id : Uuid
  pub status : UserStatus
  pub is_super_admin : Bool
  pub permissions : List PermissionCode

pub data Actor : Type 0 where
  user_actor : Uuid → List PermissionCode → Actor
  api_key_actor : Uuid → List PermissionCode → Actor
  system_actor : Actor

-- What a committed change announces: domain events, jobs, notices and audit entries.
pub data Effect : Type 0 where
  ticket_updated ticket_resolved ticket_status_changed ticket_assigned : Uuid → Effect
  ticket_reopened survey_dispatch : Uuid → Effect
  notify_assignment : Uuid → Uuid → Effect
  audited : Uuid → Effect

pub record Db : Type 0 where
  pub tickets : List TicketRow
  pub assignments : List AssignmentRow
  pub categories : List CategoryRow
  pub users : List UserRow
  pub product_grants : List (Uuid × Uuid)
  pub sla : SlaStore
  pub effects : List Effect

abbrev pub is_ticket : Uuid → TicketRow → Bool
is_ticket id t = t.id == id

unfoldable pub find_raw_by_id : Uuid → Db → Option TicketRow
find_raw_by_id id db = find_where (is_ticket id) db.tickets

unfoldable pub update : Uuid → (TicketRow → TicketRow) → Db → Db
update id patch db = record db { tickets = update_where (is_ticket id) patch db.tickets }

unfoldable pub record_assignment : AssignmentRow → Db → Db
record_assignment row db = record db { assignments = db.assignments ++ (row ∷ []) }

abbrev pub announce : List Effect → Db → Db
announce es db = record db { effects = db.effects ++ es }

-- `ProductScope`
pub data ProductScope : Type 0 where
  everything : ProductScope
  limited : List Uuid → ProductScope

unfoldable pub granted_product_ids : Uuid → List (Uuid × Uuid) → List Uuid
granted_product_ids user_id [] = []
granted_product_ids user_id ((user, product) ∷ grants) =
    let rest = granted_product_ids user_id grants in
    if user == user_id then product ∷ rest else rest

unfoldable pub scope_for : Actor → Db → ProductScope
unfolding granted_product_ids
scope_for system_actor db = everything
scope_for (api_key_actor _ permissions) db = everything
scope_for (user_actor id permissions) db =
    if includes permissions ticket_read_all_products
    then everything
    else limited (granted_product_ids id db.product_grants)

abbrev pub allows : ProductScope → Uuid → Bool
allows everything product_id = true
allows (limited product_ids) product_id = any (λ p. p == product_id) product_ids

unfoldable pub assert_access : Actor → Uuid → Db → Result (Unit {0})
unfolding scope_for
assert_access actor product_id db =
    ensure (allows (scope_for actor db) product_id) (not_found_error Resource.product)

unfoldable pub user_has_product_access : Uuid → Uuid → Db → Bool
unfolding granted_product_ids
user_has_product_access user_id product_id db =
    elim (find_where (λ (u : UserRow). u.id == user_id) db.users) [
      | none ↦ false
      | some user ↦
          if user.is_super_admin
          then true
          else if includes user.permissions ticket_read_all_products
          then true
          else any (λ p. p == product_id) (granted_product_ids user_id db.product_grants)
    ]

unfoldable pub require_for_product : Uuid → Uuid → Db → Result CategoryRow
require_for_product category_id product_id db =
    required (find_where (λ (c : CategoryRow). c.id == category_id) db.categories) validation
    >>= λ category. if category.product_id == product_id then ok category else err validation
