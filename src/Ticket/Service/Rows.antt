-- ===== src/Ticket/Service/Rows.antt =====
-- modules/ticket/ticket.service.ts: the row that a patch leaves, and its status and timestamps.
use prime_focus_css_api.Common.{
  ◌+◌, ◌≡◌, refl, ap, Bool, true, false, ◌&&◌, Option, none, some, if◌then◌else◌, inl, inr,
  Bool-cases, Option-cases, is_some, is_none, Uuid, Instant, find_where-update_where, find_where,
}
use prime_focus_css_api.Common.Errors.{AppError, Result, ok, ◌>>◌, both-ok, ensure, validation}
use prime_focus_css_api.Sla.Clock.{BusinessCalendar}
use prime_focus_css_api.Sla.Clock.Windows.{Text}
use prime_focus_css_api.Sla.Clock.Zone.{Formatter}
use prime_focus_css_api.Sla.Service.{TicketClockContext, is_finished, on_status_changed}
use prime_focus_css_api.Ticket.Status.{
  TicketStatus, new, open_status, pending, on_hold, resolved, closed, same_status, can_transition,
  assert_transition, timestamps_for_status,
}
use prime_focus_css_api.Ticket.Store.{
  TicketRow, Actor, Db, find_raw_by_id, update, is_ticket, assert_access,
}
use prime_focus_css_api.Ticket.Service.{
  TicketPatch, context_of, require_accessible, set_status, patch_ticket, check_transition,
  update_clocks, clocks_on_status_changed, reply_patch, is_open_for_reply,
}

-- A resolved ticket has its time of resolution and no time of closing, a closed one its time of
-- closing, and any other neither.
abbrev pub stamped : TicketStatus → Option Instant → Option Instant → Bool
stamped resolved r c = is_some r && is_none c
stamped closed r c = is_some c
stamped _ r c = is_none r && is_none c

abbrev pub IsConsistent : TicketRow → Type 0
IsConsistent t = stamped t.status t.resolved_at t.closed_at ≡ true

pub set_status-IsConsistent :
    (o : Option TicketStatus) (now : Instant) (t : TicketRow)
    → IsConsistent t
    → IsConsistent (set_status o now t)
unfolding set_status timestamps_for_status
set_status-IsConsistent none now t h = h
set_status-IsConsistent (some new) now t h = refl
set_status-IsConsistent (some open_status) now t h = refl
set_status-IsConsistent (some pending) now t h = refl
set_status-IsConsistent (some on_hold) now t h = refl
set_status-IsConsistent (some resolved) now t h = refl
set_status-IsConsistent (some closed) now t h = refl

pub patch_ticket-IsConsistent :
    (p : TicketPatch) (now : Instant) (t : TicketRow)
    → IsConsistent t
    → IsConsistent (patch_ticket p now t)
unfolding patch_ticket
patch_ticket-IsConsistent p now t h = set_status-IsConsistent p.status now _ h

pub set_status-id :
    (o : Option TicketStatus) (now : Instant) (t : TicketRow) → (set_status o now t).id ≡ t.id
unfolding set_status
set_status-id none now t = refl
set_status-id (some to) now t = refl

pub patch_ticket-id :
    (p : TicketPatch) (now : Instant) (t : TicketRow) → (patch_ticket p now t).id ≡ t.id
unfolding patch_ticket
patch_ticket-id p now t = set_status-id p.status now _

pub find_raw_by_id-same :
    (id : Uuid) (db db' : Db)
    → db'.tickets ≡ db.tickets
    → find_raw_by_id id db' ≡ find_raw_by_id id db
unfolding find_raw_by_id
find_raw_by_id-same id db db' same = ap (find_where (is_ticket id)) same

pub update-found :
    (id : Uuid) (f : TicketRow → TicketRow) (db : Db) (t : TicketRow)
    → ((x : TicketRow) → (f x).id ≡ x.id)
    → find_raw_by_id id db ≡ some t
    → find_raw_by_id id (update id f db) ≡ some (f t)
unfolding find_raw_by_id update
update-found id f db t keeps there =
    find_where-update_where (is_ticket id) f db.tickets (λ x h. rw (keeps x) h) there

pub require_accessible-ok :
    (id : Uuid) (actor : Actor) (db : Db) (t : TicketRow)
    → require_accessible id actor db ≡ ok t
    → find_raw_by_id id db ≡ some t
unfolding require_accessible
require_accessible-ok id actor db t e = elim (Option-cases (find_raw_by_id id db)) [
  | inl gone ↦ cc (rw (gone, require_accessible) at e)
  | inr (u, there) ↦
      let e₀ : (assert_access actor u.product_id db >> ok u) ≡ ok t =
        rw (there, require_accessible) at e in
      let (x, _, e₁) = both-ok (assert_access actor u.product_id db) (λ _. ok u) e₀ in
      let same : u ≡ t = cc e₁ in rw (← same) there
]

pub ensure-ok : (b : Bool) (x : AppError) {u : Unit {0}} → ensure b x ≡ ok u → b ≡ true
ensure-ok true x e = refl
ensure-ok false x e = cc e

pub check_transition-ok :
    (from : TicketStatus) (o : Option TicketStatus) (u : Unit {0})
    → check_transition from o ≡ ok u
    → (to : TicketStatus) → o ≡ some to
    → can_transition from to ≡ true
unfolding check_transition assert_transition
check_transition-ok from none u e to q = cc q
check_transition-ok from (some x) u e to q =
    let same : x ≡ to = cc q in rw (← same) (ensure-ok (can_transition from x) validation e)

pub reply_patch-id :
    (ticket : TicketRow) (now : Instant) (x : TicketRow) → (reply_patch ticket now x).id ≡ x.id
unfolding reply_patch
reply_patch-id ticket now x = elim (Bool-cases (is_finished ticket.status)) [
  | inl f ↦ rw f refl
  | inr f ↦ elim (Bool-cases (same_status ticket.status pending)) [
    | inl p ↦ rw f (rw p refl)
    | inr p ↦ rw f (rw p refl)
  ]
]

pub pending-stamped :
    (s : TicketStatus) (r c : Option Instant)
    → same_status s pending ≡ true
    → stamped s r c ≡ true
    → stamped open_status r c ≡ true
pending-stamped pending r c p h = h
pending-stamped _ r c p h = cc (p)

pub reply_patch-facts :
    (ticket : TicketRow) (now : Instant)
    → ((reply_patch ticket now ticket).status
        ≡ (if is_open_for_reply ticket.status then open_status else ticket.status))
      × ((reply_patch ticket now ticket).reopened_count ≡ (
          if is_finished ticket.status then ticket.reopened_count + 1 else ticket.reopened_count))
      × (IsConsistent ticket → IsConsistent (reply_patch ticket now ticket))
unfolding reply_patch
reply_patch-facts ticket now = elim (Bool-cases (is_finished ticket.status)) [
  | inl f ↦ rw f (refl, refl, λ _. refl)
  | inr f ↦ elim (Bool-cases (same_status ticket.status pending)) [
    | inl p ↦ rw f (rw p (refl, refl, pending-stamped ticket.status _ _ p))
    | inr p ↦ rw f (rw p (refl, refl, λ h. h))
  ]
]

module _ (intl : Text → Option Formatter)
    (calendar_for : Option Uuid → Result BusinessCalendar) where
  pub clocks_on_status_changed-tickets :
      (ticket : TicketClockContext) (from to : TicketStatus) (now : Instant) (db db' : Db)
      → clocks_on_status_changed intl calendar_for ticket from to now db ≡ ok db'
      → db'.tickets ≡ db.tickets
  unfolding clocks_on_status_changed
  clocks_on_status_changed-tickets ticket from to now db db' e =
      let (sla, _, e₁) =
        both-ok (on_status_changed intl calendar_for ticket from to now db.sla)
          (λ sla. ok (record db { sla = sla })) e in
      let same : record db { sla = sla } ≡ db' = cc e₁ in rw (← same) refl

  pub update_clocks-tickets :
      (o : Option TicketStatus) (before row : TicketRow) (now : Instant) (db db' : Db)
      → update_clocks intl calendar_for o before row now db ≡ ok db'
      → db'.tickets ≡ db.tickets
  unfolding update_clocks
  update_clocks-tickets none before row now db db' e =
      let same : db ≡ db' = cc e in rw (← same) refl
  update_clocks-tickets (some to) before row now db db' e =
      clocks_on_status_changed-tickets (context_of row) before.status row.status now db db' e
