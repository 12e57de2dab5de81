-- ===== src/Upload.antt =====
-- dynamic_modbus_poller.py, `post_telemetry_batch` and `flush_pending_batch`: one round of the upload
-- of the waiting messages. The HTTP exchange is an argument; the clock is one for each message, since
-- a round marks a message once.
mod Defs
unfoldable pub use Defs.*
pub mod Steps
pub mod Uninterrupted
pub mod Interrupted
pub mod Delivery
pub mod Starvation
pub mod Drain
