-- ===== src/Board.antt =====
-- The problem board: app/models/problem.py, app/models/solution.py, app/services/problems.py and
-- app/services/solutions.py. Search vectors are not modelled.
mod Rows
pub mod Problems
pub mod Solutions
pub mod Sanitize
pub mod Watches
pub mod Comments
unfoldable pub use Rows.*
