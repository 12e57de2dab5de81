-- ===== src/Queue.antt =====
-- offline_buffer.py: the SQLite table `telemetry_queue`. Every function there runs one transaction
-- under `_database_lock`, so each is one step on the table. Rows stand in the order of their id,
-- which AUTOINCREMENT never reuses. `json` and the clock are arguments.
mod Defs
unfoldable pub use Defs.*
pub mod Invariant
pub mod Retention
pub mod Abstract
pub mod Marks
