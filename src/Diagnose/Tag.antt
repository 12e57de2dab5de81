-- ===== src/Diagnose/Tag.antt =====
-- diagnose_modbus.py, `format_tag_field` and what `run_config_scan` makes of one connection and of
-- one tag.
use bbjsensescada.Common.{ℕ, List, String}
use bbjsensescada.Common.Int.{pos}
use bbjsensescada.Python.{Result, ok, err, message, ◌>>=◌}
use bbjsensescada.Python.Float.{Float, Arithmetic}
use bbjsensescada.Python.Value.{
  Value, Repr, null, int, float, str, arr, nil, get_or, or_default, to_float, to_str, elements,
}
use bbjsensescada.Codec.{normalize_parity, normalize_stop_bits}
use bbjsensescada.Modbus.{get_value, int_or}
use bbjsensescada.Poller.{Response, registers, refused, one, zero_float}
use bbjsensescada.Diagnose.{decode_registers}
use bbjsensescada.Diagnose.Serial.{
  SerialClient, Bench, read_one_register, Line, tag_fail, tag_ok, tag_error,
}

unfoldable pub format_tag_field : Repr → Value → String
unfolding to_str
format_tag_field R null = "?"
format_tag_field R value = to_str R value

-- The client of a device's connection, its arguments in the order in which they are computed.
unfoldable pub create_client : Bench → Value → Value → Result SerialClient
create_client B connection port = do
  baudrate ← int_or "baudrate" (pos 9600) connection
  parity ← get_value "parity" connection
  stop_bits ← get_value "stop_bits" connection
  stopbits ← normalize_stop_bits B.arithmetic stop_bits
  bytesize ← int_or "data_bits" (pos 8) connection
  ok (record {
    port = port;
    baudrate = baudrate;
    parity = normalize_parity B.repr parity;
    stopbits = stopbits;
    bytesize = bytesize;
  })

-- From the registers to the value that is printed.
unfoldable pub scaled_value : Repr → Arithmetic → Value → List ℕ → Result Float
scaled_value R A tag regs = do
  data_type ← get_or "data_type" (str "float32") tag
  byte_order ← get_or "byte_order" (str "big") tag
  word_order ← get_or "word_order" (str "swapped") tag
  value ← decode_registers R regs data_type byte_order word_order
  scale ← get_or "scale" (float one) tag
  factor ← to_float A scale
  offset_value ← get_or "offset_value" (float zero_float) tag
  offset ← to_float A offset_value
  ok (A.add (A.mul value factor) offset)

-- The `try` block after the read.
unfoldable pub reported : Bench → Value → String → String → Response → Result Line
unfolding scaled_value to_str
reported B tag name address (refused text) = ok (tag_fail name address text)
reported B tag name address (registers regs) = do
  scaled ← scaled_value B.repr B.arithmetic tag regs
  unit ← get_value "unit" tag
  ok (tag_ok name address regs scaled (to_str B.repr (or_default (str "") unit)))

-- `except Exception`
abbrev pub or_error : String → String → Result Line → Line
or_error name address (ok line) = line
or_error name address (err error) = tag_error name address (message error)

-- The line of a tag. What comes before the `try` can raise.
unfoldable pub tag_line : Bench → SerialClient → Value → Value → Result Line
unfolding read_one_register reported
tag_line B client slave_id tag = do
  address ← get_value "register_address" tag
  register_count ← get_value "register_count" tag
  function_code ← int_or "function_code" (pos 3) tag
  display_name ← get_value "display_name" tag
  ok (
      or_error (format_tag_field B.repr display_name) (format_tag_field B.repr address) (do
        response ←
            read_one_register B client slave_id address (or_default (int (pos 2)) register_count)
              function_code
        reported B tag (format_tag_field B.repr display_name) (format_tag_field B.repr address)
            response))

-- `device.get("tags", [])` as a loop runs through it.
unfoldable pub device_tags : Value → Result (List Value)
device_tags device = do tags ← get_or "tags" (arr nil) device; elements tags
