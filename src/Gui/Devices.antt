-- ===== src/Gui/Devices.antt =====
-- modbus_gui.py, `load_devices`, `on_device_select` and `scan_device`.
use bbjsensescada.Common.{
  ℕ, zero, suc, Bool, true, false, not, ◌&&◌, List, [], ◌∷◌, length, String, Option, none, some,
  ◌==◌, string_eq, if◌then◌else◌, ◌<>◌,
}
use bbjsensescada.Common.Int.{pos}
use bbjsensescada.Python.{Result, ok, err, message, ◌>>=◌}
use bbjsensescada.Python.Text.{strip_text}
use bbjsensescada.Python.Value.{
  Value, int, str, arr, nil, get_or, or_default, to_str, truthy, elements,
}
use bbjsensescada.Modbus.{get_value, int_or, connection_of}
use bbjsensescada.Poller.{Response, registers, refused}
use bbjsensescada.Diagnose.Serial.{
  SerialClient, Bench, read_one_register, Line, printed, missing_config, devices_loaded,
  connect_first, select_first, wrong_port, scanning_device, device_complete,
}
use bbjsensescada.Diagnose.Tag.{scaled_value, device_tags}
use bbjsensescada.Gui.Defs.{App, Row, Handled, log}

-- The label of a device: its name, slave id and port.
unfoldable pub label_of : Value → Result (Value × Value × Value)
label_of device = do
  connection ← connection_of device
  name ← get_value "device_name" device
  slave_id ← get_value "slave_id" connection
  port ← get_value "serial_port" connection
  ok (name, slave_id, port)

unfoldable pub labels_of : List Value → Result (List (Value × Value × Value))
unfolding label_of
labels_of [] = ok []
labels_of (device ∷ devices) = do
  label ← label_of device
  labels ← labels_of devices
  ok (label ∷ labels)

-- The devices, their labels and what is logged. The file is absent, or it is read and parsed.
unfoldable pub load_devices :
    Option (Result Value) → Result (List Value × List (Value × Value × Value) × Line)
unfolding labels_of
load_devices none = ok ([], [], missing_config)
load_devices (some file) = do
  config ← file
  listed ← get_or "devices" (arr nil) config
  devices ← elements listed
  labels ← labels_of devices
  ok (devices, labels, devices_loaded (length devices))

abbrev pub nth : ℕ → List Value → Option Value
nth n [] = none
nth zero (v ∷ vs) = some v
nth (suc n) (v ∷ vs) = nth n vs

-- `self.devices[selection[0]]`
abbrev pub selected : App → Option ℕ → Option Value
selected a none = none
selected a (some n) = nth n a.devices

-- What is shown of a selected device, and the slave id for a read by hand.
unfoldable pub info_of : Bench → Value → Result ((Value × ℕ × Value × Value) × String)
unfolding device_tags to_str
info_of B device = do
  connection ← connection_of device
  name ← get_value "device_name" device
  tags ← device_tags device
  port ← get_value "serial_port" connection
  slave ← get_value "slave_id" connection
  slave_id ← get_or "slave_id" (str "") connection
  ok ((name, length tags, port, slave), to_str B.repr slave_id)

abbrev pub with_info : App → Result ((Value × ℕ × Value × Value) × String) → App
with_info a (err error) = a
with_info a (ok (info, slave_id)) = record a {
  device_info = some info;
  vars = record a.vars { slave_id = slave_id };
}

abbrev pub on_selected : Bench → App → Option Value → App
on_selected B a none = a
on_selected B a (some device) = with_info a (info_of B device)

unfoldable pub on_device_select : Bench → Option ℕ → App → Handled
unfolding info_of
on_device_select B selection a =
    let chosen = record a { selection = selection } in
    (on_selected B chosen (selected chosen selection), [])

abbrev pub row_failed : Value → Value → String → Row
row_failed name address status = record {
  tag = name;
  address = address;
  raw = [];
  value = none;
  unit = "";
  status = status;
}

abbrev pub row_of : Bench → Value → Value → Value → Response → Result Row
row_of B tag name address (refused text) = ok (row_failed name address ("FAIL: " <> text))
row_of B tag name address (registers regs) = do
  scaled ← scaled_value B.repr B.arithmetic tag regs
  unit ← get_value "unit" tag
  ok (record {
    tag = name;
    address = address;
    raw = regs;
    value = some scaled;
    unit = to_str B.repr (or_default (str "") unit);
    status = "OK";
  })

abbrev pub or_row : Value → Value → Result Row → Row
or_row name address (ok row) = row
or_row name address (err error) = row_failed name address ("ERROR: " <> message error)

-- The row of a tag. What comes before the `try` can raise.
unfoldable pub tag_row : Bench → SerialClient → Value → Value → Result Row
unfolding read_one_register scaled_value to_str
tag_row B client slave_id tag = do
  address ← get_value "register_address" tag
  register_count ← get_value "register_count" tag
  function_code ← int_or "function_code" (pos 3) tag
  name ← get_value "display_name" tag
  ok (
      or_row name address (do
        response ←
            read_one_register B client slave_id address (or_default (int (pos 2)) register_count)
              function_code
        row_of B tag name address response))

-- The rows up to the first tag that raises, and whether all are there.
unfoldable pub tag_rows : Bench → SerialClient → Value → List Value → List Row × Bool
unfolding tag_row
tag_rows B client slave_id [] = ([], true)
tag_rows B client slave_id (tag ∷ tags) =
    let (rows, all) = tag_rows B client slave_id tags in
    elim (tag_row B client slave_id tag) [ err error ↦ ([], false) | ok row ↦ (row ∷ rows, all) ]

abbrev pub rows_of : Bench → SerialClient → Value → Result (List Value) → List Row × Bool
rows_of B client slave_id (err error) = ([], false)
rows_of B client slave_id (ok tags) = tag_rows B client slave_id tags

abbrev pub same_text : Value → String → Bool
same_text (str s) t = s == t
same_text _ t = false

-- The name, the port and the slave id of a device.
abbrev pub completed : Value → Value → List Row × Bool → App → Handled
completed name slave_id (rows, true) a = (
  record a { results = rows },
  printed (scanning_device name slave_id) ∷ printed (device_complete name) ∷ [],
)
completed name slave_id (rows, false) a =
    (record a { results = rows }, printed (scanning_device name slave_id) ∷ [])

abbrev pub scanned : Bench → SerialClient → Value → App → Result (Value × Value × Value) → Handled
scanned B client device a (err error) = (a, [])
scanned B client device a (ok (name, slave_id, port)) =
    if truthy port && not (same_text port (strip_text a.vars.port))
    then log (wrong_port name port (strip_text a.vars.port)) a
    else completed name slave_id (rows_of B client slave_id (device_tags device)) a

abbrev pub scanned_if : Bench → App → Option SerialClient → Option Value → Handled
scanned_if B a client none = log select_first a
scanned_if B a none (some device) = log connect_first a
scanned_if B a (some client) (some device) = scanned B client device a (label_of device)

unfoldable pub scan_device : Bench → App → Handled
unfolding label_of tag_rows device_tags strip_text
scan_device B a = scanned_if B a a.client (selected a a.selection)
