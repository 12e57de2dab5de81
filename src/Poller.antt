-- ===== src/Poller.antt =====
-- dynamic_modbus_poller.py, from `resolve_word_order` to `run_device`: one cycle of one device.
mod Defs
mod Device
unfoldable pub use Defs.*
unfoldable pub use Device.*
pub mod Readings
pub mod Cycle
pub mod Pass
pub mod Coverage
