-- ===== src/Modbus.antt =====
-- dynamic_modbus_poller.py, `resolve_serial_port` to `create_modbus_client`: which connection a device
-- gets. pymodbus is an argument of the modules that use a client.
pub mod Selection
use bbjsensescada.Common.{
  ℕ, Bool, true, false, not, List, [], ◌∷◌, String, ◌<>◌, Option, none, some, ◌==◌, string_eq,
  if◌then◌else◌,
}
use bbjsensescada.Common.Int.{ℤ, pos}
use bbjsensescada.Common.Dict.{Dict}
use bbjsensescada.Python.{Error, Result, ok, err, value_error, ◌>>=◌}
use bbjsensescada.Python.Text.{codes, lower, replace, strip, strip_text, is_one_of}
use bbjsensescada.Python.Float.{Arithmetic}
use bbjsensescada.Python.Value.{
  Value, Repr, null, int, str, obj, end, get, or_default, to_int, to_str, truthy,
}
use bbjsensescada.Codec.{normalize_parity, normalize_stop_bits}

-- settings.py, and what the language's runtime provides.
pub record Settings : Type 0 where
  pub repr : Repr
  pub arithmetic : Arithmetic
  pub default_serial_port : String
  pub word_order_overrides : Dict ℤ String

-- The arguments of `ModbusSerialClient` and `ModbusTcpClient` that vary.
pub data Client : Type 0 where
  serial : String → ℤ → String → ℕ → Client
  tcp : String → ℤ → Client

abbrev pub present : Option Value → Value
present none = null
present (some v) = v

-- `d.get(k)`, with None for a missing key
abbrev pub get_value : String → Value → Result Value
get_value k d = do o ← get k d; ok (present o)

-- `int(d.get(k) or default)`
abbrev pub int_or : String → ℤ → Value → Result ℤ
int_or k default d = do v ← get_value k d; to_int (or_default (int default) v)

unfoldable pub port_or : String → String → Result String
port_or default port =
    if not (port == "")
    then ok port
    else if not (default == "")
    then ok default
    else err (value_error "Serial port is not configured")

unfoldable pub resolve_serial_port : Settings → Value → Result String
unfolding port_or strip_text to_str
resolve_serial_port S connection = do
  v ← get_value "serial_port" connection
  port_or S.default_serial_port (strip_text (to_str S.repr (or_default (str "") v)))

unfoldable pub create_serial_client : Settings → Value → Result Client
create_serial_client S connection = do
  serial_port ← resolve_serial_port S connection
  baudrate ← int_or "baudrate" (pos 9600) connection
  parity ← get_value "parity" connection
  stop_bits ← get_value "stop_bits" connection >>= normalize_stop_bits S.arithmetic
  ok (serial serial_port baudrate (normalize_parity S.repr parity) stop_bits)

unfoldable pub host_of : Settings → Value → Result String
host_of S v =
    if truthy v then ok (to_str S.repr v) else err (value_error "IP address is not configured")

unfoldable pub create_tcp_client : Settings → Value → Result Client
unfolding host_of
create_tcp_client S connection = do
  host ← get_value "ip_address" connection >>= host_of S
  port ← int_or "tcp_port" (pos 502) connection
  ok (tcp host port)

-- `str(device.get("communication_type") or "")` in normal form.
unfoldable pub communication_type : Settings → Value → Result (List ℕ)
unfolding strip to_str
communication_type S device = do
  v ← get_value "communication_type" device
  ok (
      replace b'-' b' '
        (replace b'_' b' ' (lower (strip (codes (to_str S.repr (or_default (str "") v)))))))

unfoldable pub is_rtu : List ℕ → Bool
unfolding is_one_of
is_rtu c = is_one_of c ("modbus rtu" ∷ "serial" ∷ "rtu" ∷ "" ∷ [])

unfoldable pub is_tcp : List ℕ → Bool
unfolding is_one_of
is_tcp c = is_one_of c ("modbus tcp" ∷ "tcp" ∷ [])

unfoldable pub create_modbus_client : Settings → List ℕ → Value → Result Client
create_modbus_client S c connection =
    if is_rtu c
    then create_serial_client S connection
    else if is_tcp c
    then create_tcp_client S connection
    else err (value_error "Unsupported communication type")

-- `device.get("connection") or {}`
abbrev pub connection_of : Value → Result Value
connection_of device = do v ← get_value "connection" device; ok (or_default (obj end) v)
