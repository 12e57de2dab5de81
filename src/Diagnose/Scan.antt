-- ===== src/Diagnose/Scan.antt =====
-- diagnose_modbus.py, `list_ports`, `run_config_scan`, `run_raw_probe` and `main`. The file
-- `config_cache.json` and the parsed arguments are arguments.
use bbjsensescada.Common.{
  Bool, List, [], ◌∷◌, ◌++◌, String, Option, none, some, if◌then◌else◌, map, length, ◌==◌,
  string_eq,
}
use bbjsensescada.Common.Int.{ℤ, pos}
use bbjsensescada.Python.{Result, ok}
use bbjsensescada.Python.Value.{Value, int, str, arr, nil, get_or, truthy, elements}
use bbjsensescada.Codec.{normalize_parity, normalize_stop_bits}
use bbjsensescada.Modbus.{get_value, connection_of}
use bbjsensescada.Poller.{Response, registers, refused}
use bbjsensescada.Diagnose.{decode_registers}
use bbjsensescada.Diagnose.Serial.{
  SerialClient, Bench, read_one_register, Line, missing_config, no_devices, skipped, no_ports,
  usage, device_header, not_opened, port_line, ports_found, modbus_error, raw_registers, decoded,
  opened, closed, Run, did, ◌>>=◌, ◌>>◌, lift, act, print,
}
use bbjsensescada.Diagnose.Tag.{create_client, tag_line, device_tags}

unfoldable pub print_all : List Line → Run (Unit {0})
print_all [] = lift (ok tt)
print_all (line ∷ lines) = print line >> print_all lines

abbrev pub lines_of : List (String × String) → List Line
lines_of = map (λ (p : String × String). port_line p.0 p.1)

-- The number of the ports, then each of them.
abbrev pub port_lines : List (String × String) → List Line
port_lines [] = no_ports ∷ []
port_lines (p ∷ ps) = ports_found (length (p ∷ ps)) ∷ lines_of (p ∷ ps)

unfoldable pub list_ports : Bench → Run (Unit {0})
unfolding print_all
list_ports B = print_all (port_lines B.comports)

unfoldable pub scan_tags : Bench → SerialClient → Value → List Value → Run (Unit {0})
scan_tags B client slave_id [] = lift (ok tt)
scan_tags B client slave_id (tag ∷ tags) = lift (tag_line B client slave_id tag) >>= λ line.
    (print line >> scan_tags B client slave_id tags)

-- The device's port is open.
unfoldable pub scan_opened : Bench → Value → Value → SerialClient → Run (Unit {0})
unfolding scan_tags
scan_opened B device connection client = do
  act (opened client)
  slave_id ← lift (get_value "slave_id" connection)
  tags ← lift (device_tags device)
  scan_tags B client slave_id tags
  act (closed client)

unfoldable pub scan_port : Bench → Value → Value → Value → Run (Unit {0})
unfolding scan_opened
scan_port B device connection port = do
  client ← lift (create_client B connection port)
  is_open ← lift (B.connect client)
  if is_open then scan_opened B device connection client else print (not_opened port)

-- One turn of the loop over the devices.
unfoldable pub scan_device : Bench → Value → Run (Unit {0})
unfolding scan_port
scan_device B device = do
  connection ← lift (connection_of device)
  port ← lift (get_value "serial_port" connection)
  device_name ← lift (get_value "device_name" device)
  print (device_header device_name port)
  if truthy port then scan_port B device connection port else print skipped

unfoldable pub scan_devices : Bench → List Value → Run (Unit {0})
unfolding scan_device
scan_devices B [] = lift (ok tt)
scan_devices B (device ∷ devices) = scan_device B device >> scan_devices B devices

unfoldable pub scan_config : Bench → Value → Run (Unit {0})
unfolding scan_devices
scan_config B config = do
  devices ← lift (get_or "devices" (arr nil) config)
  if truthy devices then (lift (elements devices) >>= scan_devices B) else print no_devices

-- The file is absent, or it is read and parsed.
unfoldable pub run_config_scan : Bench → Option (Result Value) → Run (Unit {0})
unfolding scan_config
run_config_scan B none = print missing_config
run_config_scan B (some config) = lift config >>= scan_config B

-- `parser.parse_args()`
pub record Arguments : Type 0 where
  pub list_only : Bool
  pub port : Option String
  pub baud : ℤ
  pub parity : String
  pub stopbits : ℤ
  pub slave_id : ℤ
  pub address : Option ℤ
  pub count : ℤ
  pub function_code : ℤ
  pub data_type : String
  pub byte_order : String
  pub word_order : String

abbrev pub shown : Bench → Arguments → Response → Run (Unit {0})
shown B args (refused text) = print (modbus_error text)
shown B args (registers regs) = do
  print (raw_registers regs)
  value ← lift (
      decode_registers B.repr regs (str args.data_type) (str args.byte_order) (str args.word_order))
  rounded ← lift (B.arithmetic.round value (pos 4))
  print (decoded rounded)

-- The `try` block of the probe.
unfoldable pub probe : Bench → Arguments → ℤ → SerialClient → Run (Unit {0})
probe B args address client = do
  response ← lift (
      read_one_register B client (int args.slave_id) (int address) (int args.count)
        args.function_code)
  shown B args response

-- `try … finally: client.close()`
abbrev pub close_finally : SerialClient → Run (Unit {0}) → Run (Unit {0})
close_finally client (did es result) = did (es ++ closed client ∷ []) result

unfoldable pub probe_opened : Bench → Arguments → ℤ → SerialClient → Run (Unit {0})
unfolding probe
probe_opened B args address client = do
  act (opened client)
  close_finally client (probe B args address client)

unfoldable pub run_raw_probe : Bench → Arguments → String → ℤ → Run (Unit {0})
unfolding probe_opened
run_raw_probe B args port address = do
  stopbits ← lift (normalize_stop_bits B.arithmetic (int args.stopbits))
  client ← lift (
      ok (record {
        port = str port;
        baudrate = args.baud;
        parity = normalize_parity B.repr (str args.parity);
        stopbits = stopbits;
        bytesize = pos 8;
      }))
  is_open ← lift (B.connect client)
  if is_open then probe_opened B args address client else print (not_opened (str port))

-- `if not args.port: parser.error(…)`
abbrev probe_port : Bench → Arguments → Option String → ℤ → Run (Unit {0})
probe_port B args none address = print usage
probe_port B args (some port) address =
    if port == "" then print usage else run_raw_probe B args port address

abbrev scan_or_probe : Bench → Arguments → Option (Result Value) → Option ℤ → Run (Unit {0})
scan_or_probe B args config none = run_config_scan B config
scan_or_probe B args config (some address) = probe_port B args args.port address

unfoldable pub main : Bench → Arguments → Option (Result Value) → Run (Unit {0})
unfolding list_ports run_config_scan run_raw_probe
main B args config =
    if args.list_only then list_ports B else scan_or_probe B args config args.address
