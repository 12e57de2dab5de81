-- ===== src/Lib.antt =====
-- The BBJ Sense SCADA gateway: a Python service beside an industrial plant that polls Modbus devices,
-- keeps every reading in a queue on disk, uploads the queue in batches, executes the commands that
-- the cloud sends and watches alarm rules locally.
--
-- The parts and their interaction. `run_device` (dynamic_modbus_poller.py) opens a Modbus client for
-- a device of the configuration, decodes and scales the registers of its tags, and hands each sample
-- to `save_telemetry`, which puts it into the queue (offline_buffer.py), the local history
-- (local_historian.py) and the alarm evaluator (edge_alarm_evaluator.py). `flush_pending_batch` takes
-- the oldest rows of the queue, posts them and marks them. `execute_command` looks a command's tag up
-- in the configuration (gateway_commands.py), writes its value and acknowledges the command.
-- start_gateway.py keeps the service's processes running, and gateway_health_reporter.py reports how
-- many devices are connected. The on-site tools (diagnose_modbus.py, modbus_console.py, modbus_gui.py)
-- read registers by hand while the service is stopped, since a serial port has one owner at a time.
--
-- The files, and the code that each models (a definition has the name of the function it models;
-- a part of a function has a name of its own):
--   Common: the native numbers and the library's names, equality tests, lists, integers, dicts.
--   Python: exceptions, text, floats as bit patterns, and JSON-like values with the conversions.
--     Partial operations return a `Result`: a value or the exception that the code raises.
--   Codec: dynamic_modbus_poller.py, from `normalize_parity` to `decode_registers`. Children prove.
--   Queue/Defs: offline_buffer.py. The table `telemetry_queue` is its rows in insertion order and the
--     next id of AUTOINCREMENT; each function is one transaction, from the table to the table.
--   Upload/Defs: dynamic_modbus_poller.py, `flush_pending_batch`.
--   Modbus: dynamic_modbus_poller.py, `resolve_serial_port` to `create_modbus_client`.
--   Commands/Lookup: gateway_commands.py, `find_writable_tag`. Commands/Defs: `ack_command`, and
--     `write_command_value` and `execute_command` of dynamic_modbus_poller.py, as the list of the
--     effects on the lock, the client and the cloud, with the exception that leaves the function.
--   Alarms: edge_alarm_evaluator.py. The three module variables are the record `Evaluator`.
--   Historian: local_historian.py, as an unordered table that is sorted when it is read.
--   Poller/Defs: dynamic_modbus_poller.py, `resolve_word_order`, `read_modbus_registers`,
--     `save_telemetry`, `process_tag`. Poller/Device: `run_device`, over the stores and DEVICE_STATUS.
--   Diagnose: diagnose_modbus.py. A run of a tool is the list of what it does to the port and to the
--     screen, and whether it returns or raises. Diagnose/Tag and Diagnose/Scan are the scan of the
--     configuration, `run_raw_probe` and `main`.
--   Console: modbus_console.py; what is typed is a list of lines. Console/Loop: the loop of `main`.
--   Gui: modbus_gui.py. A handler is a function of the window's state; Gui/Steps has the event loop,
--     with the scans of slave ids that are under way as a stack.
--   Poller/Pass: dynamic_modbus_poller.py, the loop of `main` over the devices.
--   Commands/Polling: gateway_commands.py, `fetch_pending_commands`, and the round of
--     `run_commands_loop`, whose exception drops the rest of the commands.
--   Configuration: dynamic_modbus_poller.py, `download_configuration`, the start of `main` and the turns
--     of `run_config_refresh_loop`; config_cache.py.
--   Release: dynamic_modbus_poller.py, `reap_pending_close_threads`, `close_client_with_timeout`. The
--     models of `run_device` and `execute_command` leave this list of threads out.
--   Overrides: settings.py, `parse_word_order_overrides`.
--   DeviceStatus: device_status.py.
--   Service: dynamic_modbus_poller.py, the threads: the loop of `main`, `run_batch_flush_loop` and the two
--     clean-up loops, and `evaluator_worker`, as turns in any order; a turn is one step, and an upload
--     round one step for each transaction (Upload/Steps).
--   Health: gateway_health_reporter.py.
--   Scripts: test_voltage.py, test_current.py, test_current_scan.py, test_abb_current_scan.py.
--   Supervisor: start_gateway.py, `start_process` to `main`, as a machine whose turns are the turns of
--     its loops; a stop signal comes between two turns.
--   Examples: concrete inputs on which the theorems are applied.
--
-- What is outside. pymodbus (the answers of a device, `Driver`), HTTP (`Cloud.post`, `Driver.post_ack`),
-- the JSON codec (`Json`), clocks, `uuid4`, float arithmetic and rounding (`Arithmetic`) and the text of
-- numbers and containers (`Repr`) are arguments of the definitions. SQLite is not modelled as such: an
-- insertion is refused for an integer outside 64 bits, a NaN (stored as NULL) or a second use of a
-- message id; a disk error is not modelled. Text is compared by code points and its letter case is
-- that of ASCII. The texts of two errors leave out a value that the code quotes in them.
-- Log output and the sets that keep a warning from being logged twice are left out. The threads of the
-- service interleave by turns (Service); a lock is modelled where a theorem is about it. Alarm rules
-- are taken to have the shape of the cloud's configuration.
--
-- Recursion is structural, with two uses of fuel: the bit length of a number, where the number itself
-- is the fuel and each step halves it, and the loop of the console, where one more than the number of
-- the lines typed is enough, since each turn reads a line.
--
-- Not modelled: the layout of the graphical tool's widgets, the log set-up, and the schemas and the
-- connection set-up of the SQLite files.
pub mod Common
pub mod Python
pub mod Codec
pub mod DeviceStatus
pub mod Console
pub mod Diagnose
pub mod Queue
pub mod Upload
pub mod Modbus
pub mod Commands
pub mod Configuration
pub mod Alarms
pub mod Gui
pub mod Health
pub mod Historian
pub mod Poller
pub mod Overrides
pub mod Release
pub mod Scripts
pub mod Service
pub mod Supervisor
mod Examples
