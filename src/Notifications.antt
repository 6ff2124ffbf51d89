-- ===== src/Notifications.antt =====
-- app/services/ticket_notifications.py: who is told of an event, and the rows that are written.
-- Publishing to the realtime hub is best effort and outside the transaction; it is not modelled.
pub mod Recipients
pub mod Excerpt
pub mod Fanout
pub mod Mailbox
pub mod Coalesce
