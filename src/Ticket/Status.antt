-- ===== src/Ticket/Status.antt =====
-- modules/ticket/ticket.status.ts: the statuses of a ticket and the legal moves between them.
use prime_focus_css_api.Common.{
  ℕ, Bool, ◌||◌, Option, some, none, List, [], ◌∷◌, ◌==◌, any, Instant,
}
use prime_focus_css_api.Common.Errors.{Result, ensure, validation}

pub data TicketStatus : Type 0 where
  new open_status pending on_hold resolved closed : TicketStatus

abbrev pub status_number : TicketStatus → ℕ
status_number new = 0
status_number open_status = 1
status_number pending = 2
status_number on_hold = 3
status_number resolved = 4
status_number closed = 5

abbrev pub same_status : TicketStatus → TicketStatus → Bool
same_status a b = status_number a == status_number b

-- `statuses.includes(status)`
abbrev pub among : List TicketStatus → TicketStatus → Bool
among statuses status = any (same_status status) statuses

unfoldable pub transitions : TicketStatus → List TicketStatus
transitions new = open_status ∷ pending ∷ on_hold ∷ resolved ∷ closed ∷ []
transitions open_status = pending ∷ on_hold ∷ resolved ∷ closed ∷ []
transitions pending = open_status ∷ on_hold ∷ resolved ∷ closed ∷ []
transitions on_hold = open_status ∷ pending ∷ resolved ∷ closed ∷ []
transitions resolved = open_status ∷ closed ∷ []
transitions closed = open_status ∷ []

abbrev pub clock_paused_statuses : List TicketStatus
clock_paused_statuses = pending ∷ on_hold ∷ []

abbrev pub open_statuses : List TicketStatus
open_statuses = new ∷ open_status ∷ pending ∷ on_hold ∷ []

unfoldable pub can_transition : TicketStatus → TicketStatus → Bool
unfolding transitions
can_transition from to = same_status from to || among (transitions from) to

unfoldable pub assert_transition : TicketStatus → TicketStatus → Result (Unit {0})
unfolding can_transition
assert_transition from to = ensure (can_transition from to) validation

-- What `timestampsForStatus` returns: a field that is left out stays as it is.
pub data Patch (A : Type 0) : Type 0 where
  keep : Patch A
  put : A → Patch A

abbrev pub apply_patch : {A : Type 0} → Patch A → A → A
apply_patch keep a = a
apply_patch (put b) a = b

pub record StatusTimestamps : Type 0 where
  pub resolved_at : Patch (Option Instant)
  pub closed_at : Patch (Option Instant)

unfoldable pub timestamps_for_status : TicketStatus → Instant → StatusTimestamps
timestamps_for_status resolved now = record { resolved_at = put (some now); closed_at = put none }
timestamps_for_status closed now = record { resolved_at = keep; closed_at = put (some now) }
timestamps_for_status _ now = record { resolved_at = put none; closed_at = put none }
