-- ===== src/Ticket.antt =====
-- modules/ticket: the rows, the status machine and the service.
pub mod Model
pub mod Status
pub mod Store
pub mod Service
