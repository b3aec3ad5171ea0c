-- ===== src/Ticket/Model.antt =====
-- modules/ticket/ticket.model.ts: the enumerations of a ticket.
use prime_focus_css_api.Common.{ℕ, Bool, ◌==◌}

pub data TicketPriority : Type 0 where
  low normal high urgent : TicketPriority

abbrev pub priority_number : TicketPriority → ℕ
priority_number low = 0
priority_number normal = 1
priority_number high = 2
priority_number urgent = 3

abbrev pub same_priority : TicketPriority → TicketPriority → Bool
same_priority a b = priority_number a == priority_number b

pub data TicketChannel : Type 0 where
  email web_form api agent chat whatsapp : TicketChannel

abbrev pub channel_number : TicketChannel → ℕ
channel_number email = 0
channel_number web_form = 1
channel_number api = 2
channel_number agent = 3
channel_number chat = 4
channel_number whatsapp = 5

abbrev pub same_channel : TicketChannel → TicketChannel → Bool
same_channel a b = channel_number a == channel_number b
