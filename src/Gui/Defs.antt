-- ===== src/Gui/Defs.antt =====
-- modbus_gui.py, the state of the window, `connect` to `list_ports`, and `read_single`. An exception
-- that leaves a handler is reported by Tk; what the handler has done before stays.
use bbjsensescada.Common.{
  ℕ, Bool, true, false, List, [], ◌∷◌, ◌++◌, map, String, Option, none, some, ◌==◌, string_eq,
  if◌then◌else◌, ◌<>◌,
}
use bbjsensescada.Common.Int.{ℤ, pos}
use bbjsensescada.Python.{Result, ok, err, message, ◌>>=◌}
use bbjsensescada.Python.Text.{strip_text}
use bbjsensescada.Python.Float.{Float}
use bbjsensescada.Python.Value.{Value, int, str, to_int}
use bbjsensescada.Codec.{normalize_parity, normalize_stop_bits}
use bbjsensescada.Poller.{Response, registers, refused}
use bbjsensescada.Diagnose.{decode_registers}
use bbjsensescada.Diagnose.Serial.{
  SerialClient, Bench, read_one_register, Line, Event, opened, closed, printed, not_opened,
  port_opened, disconnected, connect_first, address_needed, single_fail, single_ok, failure,
}
use bbjsensescada.Diagnose.Scan.{port_lines}

-- The texts of the entry fields.
pub record Vars : Type 0 where
  pub port : String
  pub baud : String
  pub parity : String
  pub stopbits : String
  pub scan_from : String
  pub scan_to : String
  pub scan_address : String
  pub scan_count : String
  pub scan_func : String
  pub slave_id : String
  pub address : String
  pub count : String
  pub func_code : String
  pub data_type : String
  pub byte_order : String
  pub word_order : String

-- A line of the table of results.
pub record Row : Type 0 where
  pub tag : Value
  pub address : Value
  pub raw : List ℕ
  pub value : Option Float
  pub unit : String
  pub status : String

pub record App : Type 0 where
  pub client : Option SerialClient
  pub vars : Vars
  pub status : String
  pub devices : List Value
  pub selection : Option ℕ
  pub device_info : Option (Value × ℕ × Value × Value)
  pub results : List Row

-- A handler: the window after it, and what it has done.
abbrev pub Handled : Type 0
Handled = App × List Event

abbrev pub log : Line → App → Handled
log line a = (a, printed line ∷ [])

abbrev pub released : Option SerialClient → List Event
released none = []
released (some c) = closed c ∷ printed disconnected ∷ []

unfoldable pub disconnect : App → Handled
disconnect a = (record a { client = none; status = "Not connected" }, released a.client)

-- `if self.client is not None: self.disconnect()`
abbrev pub disconnected_first : Option SerialClient → App → Handled
disconnected_first none a = (a, [])
disconnected_first (some c) a = disconnect a

unfoldable pub client_of : Bench → Vars → Result SerialClient
unfolding strip_text
client_of B vars = do
  baudrate ← to_int (str vars.baud)
  stopbits ← normalize_stop_bits B.arithmetic (str vars.stopbits)
  ok (record {
    port = str (strip_text vars.port);
    baudrate = baudrate;
    parity = normalize_parity B.repr (str vars.parity);
    stopbits = stopbits;
    bytesize = pos 8;
  })

abbrev pub opened_or_not : String → SerialClient → App → Bool → Handled
opened_or_not port client a true = (
  record a { client = some client; status = "Connected: " <> port },
  opened client ∷ printed (port_opened port) ∷ [],
)
opened_or_not port client a false =
    (record a { status = "FAILED to open " <> port }, printed (not_opened (str port)) ∷ [])

-- The rest of `connect`, once the client is built and asked to connect.
abbrev pub on_opened : String → SerialClient → App → Result Bool → Handled
on_opened port client a (ok is_open) = opened_or_not port client a is_open
on_opened port client a (err error) = (a, [])

abbrev pub with_client : Bench → String → App → Result SerialClient → Handled
with_client B port a (ok client) = on_opened port client a (B.connect client)
with_client B port a (err error) = (a, [])

-- One handler after another.
abbrev pub before : List Event → Handled → Handled
before es (a, more) = (a, es ++ more)

abbrev pub connected_after : Bench → Handled → Handled
connected_after B (a, es) =
    before es (with_client B (strip_text a.vars.port) a (client_of B a.vars))

unfoldable pub connect : Bench → App → Handled
unfolding disconnect client_of strip_text
connect B a = connected_after B (disconnected_first a.client a)

unfoldable pub list_ports : Bench → App → Handled
list_ports B a = (a, map printed (port_lines B.comports))

-- The response of a read by hand.
abbrev pub single_line : Bench → Vars → ℤ → ℤ → Response → Result Line
single_line B vars slave_id address (refused text) = ok (single_fail slave_id address text)
single_line B vars slave_id address (registers regs) = do
  value ←
      decode_registers B.repr regs (str vars.data_type) (str vars.byte_order) (str vars.word_order)
  ok (single_ok slave_id address regs value)

abbrev pub or_failure : Result Line → Line
or_failure (ok line) = line
or_failure (err error) = failure (message error)

unfoldable pub single_read : Bench → SerialClient → Vars → Result Line
unfolding read_one_register
single_read B client vars = do
  slave_id ← to_int (str vars.slave_id)
  address ← to_int (str vars.address)
  count ← to_int (str vars.count)
  function_code ← to_int (str vars.func_code)
  response ← read_one_register B client (int slave_id) (int address) (int count) function_code
  single_line B vars slave_id address response

abbrev pub single_logged : Bench → Vars → Option SerialClient → Line
single_logged B vars none = connect_first
single_logged B vars (some client) =
    if strip_text vars.address == "" then address_needed else or_failure (single_read B client vars)

unfoldable pub read_single : Bench → App → Handled
unfolding single_read strip_text
read_single B a = log (single_logged B a.vars a.client) a
