-- ===== src/Gui.antt =====
-- modbus_gui.py. The window is the record `App`; the widgets' layout is left out.
pub mod Defs
pub mod Devices
pub mod Steps
pub mod Held
pub mod Release
pub mod Discovery
