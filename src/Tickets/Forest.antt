-- ===== src/Tickets/Forest.antt =====
-- The parent pointers of the tickets form a forest after any calls of the service.
pub mod Writes
pub mod Others
