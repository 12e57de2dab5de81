-- ===== src/Console.antt =====
-- modbus_console.py. What is typed is a list of lines; when it is at its end `input` raises EOFError.
-- The prompts and the layout of the printed lines are left out.
pub mod Loop
pub mod Blocks
pub mod Typed
pub mod Ending
pub mod Quiet
pub mod Port
pub mod Turns
pub mod Released
use Prim.Native.Char.{code}
use bbjsensescada.Common.{
  ℕ, zero, suc, Bool, true, false, List, [], ◌∷◌, ◌++◌, String, Option, none, some, ◌==◌, string_eq,
  nat_eq, if◌then◌else◌, contains,
}
use bbjsensescada.Common.Int.{ℤ, pos}
use bbjsensescada.Python.{Error, Result, ok, err, eof_error, message}
use bbjsensescada.Python.Text.{codes, lower, same_codes, strip_text}
use bbjsensescada.Python.Float.{Float}
use bbjsensescada.Python.Range.{range}
use bbjsensescada.Python.Value.{Value, int, str, to_int}
use bbjsensescada.Codec.{normalize_parity, normalize_stop_bits}
use bbjsensescada.Poller.{Response, registers, refused}
use bbjsensescada.Overrides.{partition}
use bbjsensescada.Diagnose.{decode_registers}
use bbjsensescada.Diagnose.Serial.{
  SerialClient, Bench, read_one_register, Line, connection_closed, prompt_again, not_opened,
  no_ports, ports_seen, port_opened, read_fail, read_ok, read_undecoded, read_error, Event, opened,
  closed, Run, did, after, events, outcome, ◌>>=◌, ◌>>◌, lift, act, print,
}
use bbjsensescada.Diagnose.Scan.{print_all, lines_of}

abbrev typed_or : String → String → String
typed_or default typed = if typed == "" then default else typed

-- The answer and the lines that are left.
unfoldable pub ask : String → List String → Result (String × List String)
unfolding strip_text
ask default [] = err (eof_error "EOF when reading a line")
ask default (line ∷ lines) = ok (typed_or default (strip_text line), lines)

-- The heading, which says that there are ports, and each of them.
abbrev pub seen_ports : List (String × String) → List Line
seen_ports [] = no_ports ∷ []
seen_ports (p ∷ ps) = ports_seen ∷ lines_of (p ∷ ps)

-- The two ends of `connect`, by what `client.connect()` gives.
unfoldable pub when_connected :
    Bench → SerialClient → String → List String → Bool → Run (Option SerialClient × List String)
unfolding print_all
when_connected B client port lines true =
    act (opened client) >> print (port_opened port) >> lift (ok (some client, lines))
when_connected B client port lines false =
    print (not_opened (str port)) >> print_all (seen_ports B.comports) >> lift (ok (none, lines))

unfoldable pub connect_to :
    Bench → SerialClient → String → List String → Run (Option SerialClient × List String)
unfolding when_connected
connect_to B client port lines = lift (B.connect client) >>= when_connected B client port lines

unfoldable pub connect : Bench → List String → Run (Option SerialClient × List String)
unfolding ask connect_to
connect B lines = do
  (port, lines1) ← lift (ask "COM6" lines)
  (baud_text, lines2) ← lift (ask "4800" lines1)
  baud ← lift (to_int (str baud_text))
  (parity, lines3) ← lift (ask "O" lines2)
  (stop_text, lines4) ← lift (ask "2" lines3)
  stop_bits ← lift (to_int (str stop_text))
  stopbits ← lift (normalize_stop_bits B.arithmetic (int stop_bits))
  connect_to B
      (record {
        port = str port;
        baudrate = baud;
        parity = normalize_parity B.repr (str parity);
        stopbits = stopbits;
        bytesize = pos 8;
      })
      port lines4

-- What is kept from one turn to the next.
pub record Fields : Type 0 where
  pub slave_id : String
  pub count : String
  pub function_code : String
  pub data_type : String
  pub byte_order : String
  pub word_order : String

abbrev pub defaults : Fields
defaults = record {
  slave_id = "1";
  count = "2";
  function_code = "3";
  data_type = "float32";
  byte_order = "big";
  word_order = "swapped";
}

abbrev pub decoded_line : ℤ → List ℕ → Result Float → Line
decoded_line address regs (ok value) = read_ok address regs value
decoded_line address regs (err error) = read_undecoded address regs (message error)

abbrev pub read_line : Bench → ℤ → Fields → Result Response → Line
read_line B address fields (err error) = read_error address (message error)
read_line B address fields (ok (refused text)) = read_fail address text
read_line B address fields (ok (registers regs)) = decoded_line address regs (
    decode_registers B.repr regs (str fields.data_type) (str fields.byte_order)
      (str fields.word_order))

-- The line that `read_and_print` prints; no exception leaves it.
unfoldable pub read_and_print : Bench → SerialClient → ℤ → ℤ → ℤ → ℤ → Fields → Line
unfolding read_one_register decode_registers
read_and_print B client slave_id address count function_code fields =
    read_line B address fields
      (read_one_register B client (int slave_id) (int address) (int count) function_code)

-- `int(slave_id)` and so on, once for each read.
unfoldable pub read_at : Bench → SerialClient → Fields → ℤ → Run (Unit {0})
unfolding read_and_print
read_at B client fields address = do
  slave_id ← lift (to_int (str fields.slave_id))
  count ← lift (to_int (str fields.count))
  function_code ← lift (to_int (str fields.function_code))
  print (read_and_print B client slave_id address count function_code fields)

unfoldable pub sweep : Bench → SerialClient → Fields → List ℤ → Run (Unit {0})
unfolding read_at
sweep B client fields [] = lift (ok tt)
sweep B client fields (address ∷ addresses) =
    read_at B client fields address >> sweep B client fields addresses

unfoldable pub read_range : Bench → SerialClient → Fields → String → Run (Unit {0})
unfolding sweep partition range
read_range B client fields address_input = do
  start ← lift (to_int (str (partition b'-' address_input).0))
  end ← lift (to_int (str (partition b'-' address_input).1))
  step ← lift (to_int (str fields.count))
  addresses ← lift (range start end step)
  sweep B client fields addresses

-- The arguments of the call are computed from left to right.
unfoldable pub read_single : Bench → SerialClient → Fields → String → Run (Unit {0})
unfolding read_and_print
read_single B client fields address_input = do
  slave_id ← lift (to_int (str fields.slave_id))
  address ← lift (to_int (str address_input))
  count ← lift (to_int (str fields.count))
  function_code ← lift (to_int (str fields.function_code))
  print (read_and_print B client slave_id address count function_code fields)

unfoldable pub read_input : Bench → SerialClient → Fields → String → Run (Unit {0})
unfolding read_range read_single
read_input B client fields address_input =
    if contains (codes address_input) b'-'
    then read_range B client fields address_input
    else read_single B client fields address_input

unfoldable pub ask_fields : Fields → List String → Run (Fields × List String)
unfolding ask
ask_fields fields lines = do
  (slave_id, lines1) ← lift (ask fields.slave_id lines)
  (count, lines2) ← lift (ask fields.count lines1)
  (function_code, lines3) ← lift (ask fields.function_code lines2)
  (data_type, lines4) ← lift (ask fields.data_type lines3)
  (byte_order, lines5) ← lift (ask fields.byte_order lines4)
  (word_order, lines6) ← lift (ask fields.word_order lines5)
  lift (
      ok (
        record {
          slave_id = slave_id;
          count = count;
          function_code = function_code;
          data_type = data_type;
          byte_order = byte_order;
          word_order = word_order;
        },
        lines6,
      ))
