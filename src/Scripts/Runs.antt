-- ===== src/Scripts/Runs.antt =====
-- test_voltage.py, test_current.py, test_current_scan.py and test_abb_current_scan.py as runs. The port
-- and the ranges are their constants.
use bbjsensescada.Common.{Bool, true, false, List, [], ◌∷◌, ◌++◌, ◌<>◌}
use bbjsensescada.Common.Int.{ℤ, pos}
use bbjsensescada.Python.{Result, ok, err, connection_error, runtime_error, message}
use bbjsensescada.Python.Range.{range}
use bbjsensescada.Python.Value.{int, str}
use bbjsensescada.Poller.{Response, registers, refused, holding}
use bbjsensescada.Diagnose.Serial.{
  SerialClient, Bench, raw_registers, decoded, read_ok, read_error, not_opened, opened, closed,
  printed, Run, did, ◌>>=◌, ◌>>◌, lift, act, print,
}
use bbjsensescada.Diagnose.Scan.{close_finally}
use bbjsensescada.Scripts.Decode.{decode_float32_word_swapped, decode_raw}

abbrev pub script_client : SerialClient
script_client = record {
  port = str "COM6";
  baudrate = pos 4800;
  parity = "O";
  stopbits = 2;
  bytesize = pos 8;
}

abbrev pub read_pair : Bench → ℤ → Result Response
read_pair B address =
    B.read script_client (record {
      kind = holding;
      address = int address;
      count = int (pos 2);
      slave_id = int (pos 2);
    })

abbrev pub shown_pair : Bench → Response → Run (Unit {0})
shown_pair B (refused text) = lift (err (runtime_error ("Modbus error: " <> text)))
shown_pair B (registers regs) = lift (decode_float32_word_swapped regs) >>= λ value.
    (print (raw_registers regs)
      >> (lift (B.arithmetic.round value (pos 2)) >>= λ rounded. print (decoded rounded)))

abbrev pub when_open : Bench → Bool → Run (Unit {0})
when_open B false = lift (err (connection_error "Could not open COM6"))
when_open B true = act (opened script_client) >> (lift (read_pair B (pos 140)) >>= shown_pair B)

-- test_voltage.py and test_current.py: the whole script is one `try … finally`.
unfoldable pub read_voltage : Bench → Run (Unit {0})
unfolding decode_float32_word_swapped
read_voltage B = close_finally script_client (lift (B.connect script_client) >>= when_open B)

-- test_abb_current_scan.py: an exception ends the script.
abbrev pub strict_line : ℤ → Response → Run (Unit {0})
strict_line address (refused text) = lift (ok tt)
strict_line address (registers regs) =
    lift (decode_raw regs) >>= λ value. print (read_ok address regs value)

abbrev pub strict_sweep : Bench → List ℤ → Run (Unit {0})
strict_sweep B [] = lift (ok tt)
strict_sweep B (address ∷ addresses) =
    (lift (read_pair B address) >>= strict_line address) >> strict_sweep B addresses

-- test_current_scan.py: an exception is printed.
abbrev pub caught : ℤ → Run (Unit {0}) → Run (Unit {0})
caught address (did es (ok u)) = did es (ok u)
caught address (did es (err e)) = did (es ++ printed (read_error address (message e)) ∷ []) (ok tt)

abbrev pub careful_sweep : Bench → List ℤ → Run (Unit {0})
careful_sweep B [] = lift (ok tt)
careful_sweep B (address ∷ addresses) =
    caught address (lift (read_pair B address) >>= strict_line address) >> careful_sweep B addresses

abbrev pub swept : (List ℤ → Run (Unit {0})) → Result (List ℤ) → Bool → Run (Unit {0})
swept sweep addresses false = print (not_opened (str "COM6"))
swept sweep addresses true =
    act (opened script_client) >> ((lift addresses >>= sweep) >> act (closed script_client))

unfoldable pub scan_current : Bench → Run (Unit {0})
unfolding decode_raw range
scan_current B =
    lift (B.connect script_client) >>= swept (careful_sweep B) (range (pos 300) (pos 400) (pos 2))

unfoldable pub scan_abb_current : Bench → Run (Unit {0})
unfolding decode_raw range
scan_abb_current B =
    lift (B.connect script_client) >>= swept (strict_sweep B) (range (pos 180) (pos 260) (pos 2))
