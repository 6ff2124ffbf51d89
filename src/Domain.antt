-- ===== src/Domain.antt =====
-- app/enums.py, app/models/*.py, app/services/context.py: the enums, the rows of the tables that
-- the ticket services write, and the session that they write through.
mod Enums
mod Rows
pub mod Runs
mod Session
unfoldable pub use Enums.*
unfoldable pub use Rows.*
unfoldable pub use Session.*
