-- ===== src/Sla/Store.antt =====
-- modules/sla/sla.model.ts and sla.repository.ts: the rows behind the clocks, and the queries that
-- the service makes. A table is the list of its rows; a new row's uuid is the next number.
use prime_focus_css_api.Common.{
  ℕ, suc, Bool, true, false, ◌&&◌, Option, some, none, List, [], ◌∷◌, ◌++◌, leb, ◌==◌,
  if◌then◌else◌, is_some, is_none, Uuid, Instant, find_where, select_where, update_where, zero,
}
use prime_focus_css_api.Ticket.Model.{TicketPriority, same_priority}

pub data SlaTargetKind : Type 0 where
  first_response resolution : SlaTargetKind

abbrev pub same_kind : SlaTargetKind → SlaTargetKind → Bool
same_kind first_response first_response = true
same_kind resolution resolution = true
same_kind _ _ = false

pub record SlaPolicyRow : Type 0 where
  pub id : Uuid
  pub product_id : Uuid
  pub priority : TicketPriority
  pub first_response_minutes : ℕ
  pub resolution_minutes : ℕ
  pub business_hours_id : Uuid
  pub is_active : Bool

pub record TicketSlaTargetRow : Type 0 where
  pub id : Uuid
  pub ticket_id : Uuid
  pub policy_id : Option Uuid
  pub kind : SlaTargetKind
  pub target_minutes : ℕ
  pub business_hours_id : Option Uuid
  pub started_at : Instant
  pub due_at : Instant
  pub paused_at : Option Instant
  pub paused_minutes : ℕ
  pub satisfied_at : Option Instant
  pub breached_at : Option Instant

pub record SlaBreachRow : Type 0 where
  pub ticket_id : Uuid
  pub target_id : Uuid
  pub kind : SlaTargetKind
  pub due_at : Instant
  pub breached_at : Instant
  pub minutes_overdue : ℕ

pub record SlaStore : Type 0 where
  pub policies : List SlaPolicyRow
  pub targets : List TicketSlaTargetRow
  pub breaches : List SlaBreachRow
  pub next_id : Uuid

abbrev pub governs : Uuid → TicketPriority → SlaPolicyRow → Bool
governs product_id priority p =
    p.product_id == product_id && same_priority p.priority priority && p.is_active

unfoldable pub find_policy_for : Uuid → TicketPriority → SlaStore → Option SlaPolicyRow
find_policy_for product_id priority s = find_where (governs product_id priority) s.policies

abbrev pub is_target : Uuid → SlaTargetKind → TicketSlaTargetRow → Bool
is_target ticket_id kind t = t.ticket_id == ticket_id && same_kind t.kind kind

unfoldable pub find_target : Uuid → SlaTargetKind → SlaStore → Option TicketSlaTargetRow
find_target ticket_id kind s = find_where (is_target ticket_id kind) s.targets

abbrev pub has_id : Uuid → TicketSlaTargetRow → Bool
has_id id t = t.id == id

unfoldable pub update_target :
    Uuid → (TicketSlaTargetRow → TicketSlaTargetRow) → SlaStore → SlaStore
update_target id patch s = record s { targets = update_where (has_id id) patch s.targets }

abbrev pub is_live : Uuid → TicketSlaTargetRow → Bool
is_live ticket_id t = t.ticket_id == ticket_id && is_none t.satisfied_at && is_none t.breached_at

unfoldable pub live_targets_for_ticket : Uuid → SlaStore → List TicketSlaTargetRow
live_targets_for_ticket ticket_id s = select_where (is_live ticket_id) s.targets

-- The values of `insertTarget`.
pub record NewTarget : Type 0 where
  pub ticket_id : Uuid
  pub policy_id : Uuid
  pub kind : SlaTargetKind
  pub target_minutes : ℕ
  pub business_hours_id : Uuid
  pub started_at : Instant
  pub due_at : Instant

-- `onConflictDoUpdate`: the clock of a target that is there already starts again.
abbrev pub restart : NewTarget → TicketSlaTargetRow → TicketSlaTargetRow
restart v t = record t {
  policy_id = some v.policy_id;
  target_minutes = v.target_minutes;
  business_hours_id = some v.business_hours_id;
  started_at = v.started_at;
  due_at = v.due_at;
  paused_at = none;
  paused_minutes = 0;
  satisfied_at = none;
  breached_at = none;
}

abbrev pub fresh_target : Uuid → NewTarget → TicketSlaTargetRow
fresh_target id v = record {
  id = id;
  ticket_id = v.ticket_id;
  policy_id = some v.policy_id;
  kind = v.kind;
  target_minutes = v.target_minutes;
  business_hours_id = some v.business_hours_id;
  started_at = v.started_at;
  due_at = v.due_at;
  paused_at = none;
  paused_minutes = 0;
  satisfied_at = none;
  breached_at = none;
}

unfoldable pub insert_target : NewTarget → SlaStore → SlaStore
unfolding find_target
insert_target v s =
    if is_some (find_target v.ticket_id v.kind s)
    then record s { targets = update_where (is_target v.ticket_id v.kind) (restart v) s.targets }
    else record s {
      targets = s.targets ++ (fresh_target s.next_id v ∷ []);
      next_id = suc s.next_id;
    }

abbrev pub is_due : Instant → TicketSlaTargetRow → Bool
is_due now t =
    leb t.due_at now && is_none t.satisfied_at && is_none t.breached_at && is_none t.paused_at

-- `order by due_at`
unfoldable pub insert_by_due :
    TicketSlaTargetRow → List TicketSlaTargetRow → List TicketSlaTargetRow
insert_by_due t [] = t ∷ []
insert_by_due t (u ∷ us) =
    let rest = insert_by_due t us in if leb t.due_at u.due_at then t ∷ u ∷ us else u ∷ rest

unfoldable pub sort_by_due : List TicketSlaTargetRow → List TicketSlaTargetRow
unfolding insert_by_due
sort_by_due [] = []
sort_by_due (t ∷ ts) = insert_by_due t (sort_by_due ts)

unfoldable pub take : ℕ → List TicketSlaTargetRow → List TicketSlaTargetRow
take zero ts = []
take (suc n) [] = []
take (suc n) (t ∷ ts) = t ∷ take n ts

-- `dueTargets`. Its join with tickets drops no row, since the ticket of a target is a foreign key.
unfoldable pub due_targets : Instant → ℕ → SlaStore → List TicketSlaTargetRow
unfolding sort_by_due take
due_targets now limit s = take limit (sort_by_due (select_where (is_due now) s.targets))

unfoldable pub insert_breach : SlaBreachRow → SlaStore → SlaStore
insert_breach b s = record s { breaches = s.breaches ++ (b ∷ []) }
