-- ===== src/Sla/Scan.antt =====
-- modules/sla/sla.service.ts, "the scan": recordBreach and scanForBreaches. A transaction that
-- throws leaves the world as it was. The join with tickets gives each due target the user that its
-- ticket is assigned to, `assigned_to`. What a commit sets off is in the list `announced`.
pub mod Laws
mod Tests
use prime_focus_css_api.Common.{
  ℕ, suc, Bool, true, false, ◌||◌, Option, some, none, List, [], ◌∷◌, ◌++◌, if◌then◌else◌, is_some,
  length, Uuid, Instant,
}
use prime_focus_css_api.Common.Errors.{Result, ok, err, ◌>>=◌}
use prime_focus_css_api.Sla.Clock.{BusinessCalendar, business_minutes_between}
use prime_focus_css_api.Sla.Clock.Windows.{Text}
use prime_focus_css_api.Sla.Clock.Zone.{Formatter}
use prime_focus_css_api.Sla.Store.{
  SlaTargetKind, TicketSlaTargetRow, SlaBreachRow, SlaStore, find_target, update_target,
  insert_breach, due_targets,
}

pub data Announcement : Type 0 where
  published : Uuid → SlaTargetKind → Announcement
  notified : Uuid → Uuid → SlaTargetKind → Announcement

pub record World : Type 0 where
  pub store : SlaStore
  pub audited : List (Uuid × SlaTargetKind)
  pub announced : List Announcement

pub record ScanResult : Type 0 where
  pub examined : ℕ
  pub breached : ℕ

-- `{ breachedAt: now }`
abbrev pub breach : Instant → TicketSlaTargetRow → TicketSlaTargetRow
breach now t = record t { breached_at = some now }

abbrev pub is_settled : TicketSlaTargetRow → Bool
is_settled t = is_some t.breached_at || is_some t.satisfied_at

abbrev pub breach_row : TicketSlaTargetRow → TicketSlaTargetRow → Instant → ℕ → SlaBreachRow
breach_row entry current now minutes_overdue = record {
  ticket_id = entry.ticket_id;
  target_id = current.id;
  kind = current.kind;
  due_at = current.due_at;
  breached_at = now;
  minutes_overdue = minutes_overdue;
}

-- The effects after the commit, in order.
abbrev pub announcements : Option Uuid → TicketSlaTargetRow → SlaTargetKind → List Announcement
announcements none entry kind = published entry.ticket_id kind ∷ []
announcements (some user) entry kind =
    published entry.ticket_id kind ∷ notified user entry.ticket_id kind ∷ []

module _ (intl : Text → Option Formatter) (calendar_for : Option Uuid → Result BusinessCalendar)
    (assigned_to : Uuid → Option Uuid) where
  -- The transaction of `recordBreach`.
  unfoldable pub mark_breached : TicketSlaTargetRow → Instant → ℕ → World → World
  mark_breached entry now minutes_overdue w =
      elim (find_target entry.ticket_id entry.kind w.store) [
        | none ↦ w
        | some current ↦ if is_settled current then w else record {
          store =
              insert_breach (breach_row entry current now minutes_overdue)
                (update_target current.id (breach now) w.store);
          audited = w.audited ++ ((entry.ticket_id, current.kind) ∷ []);
          announced = w.announced ++ announcements (assigned_to entry.ticket_id) entry current.kind;
        }
      ]

  unfoldable pub record_breach : TicketSlaTargetRow → Instant → World → Result World
  record_breach entry now w = calendar_for entry.business_hours_id >>= λ calendar.
      business_minutes_between intl entry.due_at now calendar >>= λ minutes_overdue.
      ok (mark_breached entry now minutes_overdue w)

  -- The loop over the due targets, with the number breached so far.
  unfoldable pub scan_entries : List TicketSlaTargetRow → Instant → ℕ → World → ℕ × World
  scan_entries [] now breached w = (breached, w)
  scan_entries (entry ∷ es) now breached w = elim (record_breach entry now w) [
    | err _ ↦ scan_entries es now breached w
    | ok w' ↦ scan_entries es now (suc breached) w'
  ]

  unfoldable pub scan_for_breaches : Instant → ℕ → World → ScanResult × World
  unfolding scan_entries
  scan_for_breaches now limit w =
      let due = due_targets now limit w.store in
      let (breached, w') = scan_entries due now 0 w in
      (record { examined = length due; breached = breached }, w')
