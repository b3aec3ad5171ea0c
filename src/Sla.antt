-- ===== src/Sla.antt =====
-- modules/sla: business-hours clocks and the deadlines of tickets.
pub mod Clock
pub mod Store
pub mod Service
pub mod Scan
