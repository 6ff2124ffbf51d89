-- ===== src/Examples.antt =====
-- Concrete inputs at which the theorems apply.
pub mod Rows
pub mod Trees
pub mod Requests
pub mod Others
pub mod Workers
pub mod Ballots
pub mod Codec
pub mod Pages
pub mod Mails
pub mod Boards
pub mod Threads
pub mod Scans
pub mod Charters
