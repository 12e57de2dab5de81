-- ===== src/Examples/Tools.antt =====
-- The on-site tools.
use bbjsensescada.Diagnose.Serial.{◌>>=◌}
use bbjsensescada.Python.Text.{to_upper}
use bbjsensescada.Codec.{normalize_parity}
use bbjsensescada.Codec.{normalize_stop_bits}
use bbjsensescada.Diagnose.Tag.{create_client}
use bbjsensescada.Overrides.{partition}
use bbjsensescada.Python.Range.{range}
use bbjsensescada.Python.Value.{to_float}
use bbjsensescada.Codec.{interpret}
use bbjsensescada.Codec.{is_word_swapped}
use bbjsensescada.Codec.{is_byte_swapped}
use bbjsensescada.Codec.{prepare_registers}
use bbjsensescada.Codec.{registers_to_bytes}
use bbjsensescada.Codec.{unpack}
use bbjsensescada.Python.Text.{to_lower}
use bbjsensescada.Python.Value.{to_str}
use bbjsensescada.Codec.{data_type_of}
use bbjsensescada.Diagnose.{decode_registers}
use bbjsensescada.Diagnose.Tag.{scaled_value}
use bbjsensescada.Common.Dict.{lookup}
use bbjsensescada.Diagnose.Tag.{device_tags}
use bbjsensescada.Common.{string_eq, if◌then◌else◌, ◌==◌}
use bbjsensescada.Python.Value.{truthy}
use bbjsensescada.Common.{
  ◌≡◌, refl, ◌<◌, inl, [], ◌∷◌, map, none, some, true, false, All, List, String,
}
use bbjsensescada.Common.Int.{pos, int_eq}
use bbjsensescada.Python.{Result, ok, err, value_error, connection_error}
use bbjsensescada.Python.Range.Blocks.{Found}
use bbjsensescada.Python.Value.{
  Value, Fields, null, int, str, arr, obj, nil, cons, end, field, to_int,
}
use bbjsensescada.Poller.{final_value_of, Response, registers, refused}
use bbjsensescada.Diagnose.Serial.{
  SerialClient, Bench, Line, skipped, printed, opened, events, Run, did, scanning, device_header,
  alive_refused, scan_complete,
}
use bbjsensescada.Diagnose.Scan.{scan_tags, scan_devices, run_config_scan}
use bbjsensescada.Diagnose.Held.{Owns, Moves}
use bbjsensescada.Diagnose.Sweep.{run_config_scan-Moves}
use bbjsensescada.Diagnose.Report.{Reports, Opens, scan_tags-Reports, scan_devices-raises}
use bbjsensescada.Diagnose.Readout.{scaled_value-rounds}
use bbjsensescada.Console.{defaults, read_range}
use bbjsensescada.Console.Loop.{main}
use bbjsensescada.Console.Port.{Uses}
use bbjsensescada.Console.Released.{main-releases}
use bbjsensescada.Console.Blocks.{Numbers, line_at, read_range-covers}
use bbjsensescada.Gui.Defs.{App, Vars}
use bbjsensescada.Gui.Steps.{
  Gui, Scan, Gesture, press_connect, press_scan_ids, scan_on, close_window, run,
}
use bbjsensescada.Gui.Release.{run-Follows, run-close}
use bbjsensescada.Gui.Discovery.{quiet_gui, run-answers}
use bbjsensescada.Examples.Inputs.{repr, arithmetic, settings, tag, device, configuration, fifty}

-- Every read gives the registers of 50.0.
abbrev bench : Bench
bench = record {
  repr = repr;
  arithmetic = arithmetic;
  connect = λ c. ok true;
  read = λ c r. ok (registers (0 ∷ 0x4248 ∷ []));
  comports = [];
}

abbrev com6 : SerialClient
com6 = record {
  port = str "COM6";
  baudrate = pos 4800;
  parity = "O";
  stopbits = 2;
  bytesize = pos 8;
}

run_config_scan-Moves_example : Moves none (run_config_scan bench (some (ok configuration))) none
run_config_scan-Moves_example = run_config_scan-Moves bench (some (ok configuration))

scan_tags-Reports_example :
    (lines : List Line) × (scan_tags bench com6 (int (pos 3)) (tag ∷ [])
      ≡ did (map printed lines) (ok tt))
    × Reports bench com6 (int (pos 3)) (tag ∷ []) lines
unfolding to_int truthy string_eq
scan_tags-Reports_example =
    scan_tags-Reports bench com6 (int (pos 3)) (tag ∷ []) ((pos 3, refl), tt)

abbrev misnumbered : Fields
misnumbered = field "function_code" (str "x") end

abbrev line_com6 : Fields
line_com6 = field "serial_port" (str "COM6") (
    field "baudrate" (int (pos 4800)) (
      field "parity" (str "O")
        (field "stop_bits" (int (pos 2)) (field "slave_id" (int (pos 3)) end))))

abbrev faulty : Value
faulty = obj (
    field "device_name" (str "pump") (
      field "connection" (obj line_com6)
        (field "tags" (arr (cons tag (cons (obj misnumbered) (cons tag nil)))) end)))

faulty-Opens : Opens bench faulty (str "pump") line_com6 com6
unfolding truthy string_eq create_client to_int int_eq normalize_stop_bits normalize_parity to_upper
faulty-Opens = record {
  connected_by = refl;
  device_named = refl;
  port_given = refl;
  created = refl;
  port_opens = refl;
}

-- A device without a port, which the scan passes over.
abbrev spare : Value
spare = obj (field "device_name" (str "spare") end)

scan_devices-raises_example :
    (lines : List Line) × (scan_devices bench (spare ∷ faulty ∷ device ∷ [])
      ≡ did
          (printed (device_header (str "spare") null)
            ∷ printed skipped
            ∷ printed (device_header (str "pump") (str "COM6"))
            ∷ opened com6
            ∷ map printed lines)
          (err (value_error "invalid literal for int() with base 10")))
    × Reports bench com6 (int (pos 3)) (tag ∷ []) lines
unfolding scan_devices ◌>>=◌ truthy string_eq device_tags to_int
scan_devices-raises_example =
    scan_devices-raises bench (spare ∷ []) (device ∷ [])
      (printed (device_header (str "spare") null) ∷ printed skipped ∷ []) faulty (str "pump")
      line_com6 misnumbered com6 (tag ∷ []) (tag ∷ [])
      (value_error "invalid literal for int() with base 10") refl faulty-Opens refl
      ((pos 3, refl), tt) refl

scaled_value-rounds_example :
    final_value_of settings tag (0 ∷ 0x4248 ∷ []) ≡ settings.arithmetic.round fifty (pos 0)
unfolding string_eq to_int lookup truthy scaled_value decode_registers data_type_of to_str to_lower
    unpack registers_to_bytes prepare_registers is_byte_swapped is_word_swapped interpret to_float
scaled_value-rounds_example =
    scaled_value-rounds settings tag (0 ∷ 0x4248 ∷ []) fifty (pos 2) (pos 0) (inl refl) (inl refl)
      refl refl refl refl

-- The defaults of the port, one register, and the end.
abbrev typed : List String
typed = "" ∷ "" ∷ "" ∷ "" ∷ "140" ∷ "" ∷ "" ∷ "" ∷ "" ∷ "" ∷ "" ∷ "r" ∷ "q" ∷ []

main-releases_example :
    (r : Run (Unit {0})) × (main 14 bench typed ≡ some r) × Uses none (events r) none
main-releases_example = main-releases bench typed

abbrev numbers : Numbers defaults
unfolding to_int
numbers = record {
  slave_id = pos 1;
  count = 1;
  function_code = pos 3;
  slave_id_reads = refl;
  count_reads = refl;
  function_code_reads = refl;
}

read_range-covers_example :
    (read_range bench com6 defaults "300-305"
      ≡ did (map (line_at bench com6 defaults numbers) (pos 300 ∷ pos 302 ∷ pos 304 ∷ [])) (ok tt))
    × All (λ o. o < 5) (0 ∷ 2 ∷ 4 ∷ [])
    × All (Found (0 ∷ 2 ∷ 4 ∷ []) 2) (4 ∷ 3 ∷ 2 ∷ 1 ∷ 0 ∷ [])
unfolding to_int partition
read_range-covers_example =
    read_range-covers bench com6 defaults numbers "300-305" (pos 300) (pos 305) refl refl

abbrev vars : Vars
vars = record {
  port = "COM6";
  baud = "4800";
  parity = "O";
  stopbits = "2";
  scan_from = "1";
  scan_to = "2";
  scan_address = "0";
  scan_count = "2";
  scan_func = "3";
  slave_id = "1";
  address = "";
  count = "2";
  func_code = "3";
  data_type = "float32";
  byte_order = "big";
  word_order = "swapped";
}

abbrev window : App
window = record {
  client = none;
  vars = vars;
  status = "Not connected";
  devices = device ∷ [];
  selection = none;
  device_info = none;
  results = [];
}

abbrev opened_window : Gui
opened_window = record { app = window; scans = []; destroyed = false }

abbrev pressed : List Gesture
pressed = press_connect ∷ press_scan_ids ∷ scan_on ∷ press_connect ∷ scan_on ∷ close_window ∷ []

run-Follows_example :
    Owns none (run bench pressed opened_window).1 (run bench pressed opened_window).0.app.client
run-Follows_example = run-Follows bench pressed opened_window

-- The device with id 1 refuses the request, every other read times out.
abbrev one_refuses : Bench
one_refuses = record bench { read = λ c r. if_one r.slave_id }
  where
    if_one : Value → Result Response
    if_one (int id) =
        if id == pos 1 then ok (refused "illegal address") else err (connection_error "timeout")
    if_one _ = err (connection_error "timeout")

abbrev two_ids : Scan
two_ids = record {
  start = pos 1;
  end = pos 2;
  address = pos 0;
  count = pos 2;
  function_code = pos 3;
  left = pos 1 ∷ pos 2 ∷ [];
  found_any = false;
}

run-answers_example :
    run one_refuses (press_scan_ids ∷ scan_on ∷ scan_on ∷ scan_on ∷ []) (quiet_gui window com6 [])
    ≡ (
      quiet_gui window com6 [],
      printed (scanning (pos 1) (pos 2))
          ∷ printed (alive_refused (pos 1) "illegal address")
          ∷ printed scan_complete
          ∷ [],
    )
unfolding to_int range int_eq
run-answers_example = run-answers one_refuses window [] two_ids com6 (record {
  from_reads = refl;
  to_reads = refl;
  address_reads = refl;
  count_reads = refl;
  function_code_reads = refl;
  ids_range = refl;
  none_found = refl;
})

run-close_example :
    Owns none
      (run bench
        (press_connect ∷ press_scan_ids ∷ scan_on ∷ close_window ∷ scan_on ∷ [])
        opened_window).1
      none
run-close_example =
    run-close bench (press_connect ∷ press_scan_ids ∷ scan_on ∷ []) (scan_on ∷ []) opened_window
      refl refl
