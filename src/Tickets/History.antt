-- ===== src/Tickets/History.antt =====
-- The `ticket_transitions` log against the status column.
pub mod Log
pub mod Writes
pub mod Others
pub mod Removal
