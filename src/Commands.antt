-- ===== src/Commands.antt =====
-- gateway_commands.py, with `write_command_value` and `execute_command` of dynamic_modbus_poller.py:
-- remote writes, from the command that the cloud sends to the acknowledgement.
mod Lookup
mod Defs
mod Polling
unfoldable pub use Lookup.*
unfoldable pub use Defs.*
unfoldable pub use Polling.*
pub mod Gate
pub mod Effects
pub mod Outcome
pub mod Bus
pub mod Batch
