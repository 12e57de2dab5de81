-- ===== src/Gui/Steps.antt =====
-- modbus_gui.py, `scan_slave_ids`, `_on_close` and the event loop. A scan pumps the window's events
-- after each slave id (`self.root.update()`), so a button can be pressed, another scan included,
-- while it waits: the scans under way are a stack, and a run is a sequence of steps. What a scan does
-- after the window has been closed under it is left out.
use bbjsensescada.Common.{
  ℕ, Bool, true, false, ◌||◌, List, [], ◌∷◌, ◌++◌, Option, none, some, if◌then◌else◌,
}
use bbjsensescada.Common.Int.{ℤ, pos}
use bbjsensescada.Python.{Result, ok, err, ◌>>=◌}
use bbjsensescada.Python.Range.{range, plus}
use bbjsensescada.Python.Value.{int, str, to_int}
use bbjsensescada.Poller.{Response, registers, refused}
use bbjsensescada.Diagnose.Serial.{
  SerialClient, Bench, read_one_register, Line, Event, printed, connect_first, numbers_needed,
  scan_complete, scanning, no_response, alive, alive_refused,
}
use bbjsensescada.Gui.Defs.{App, Vars, Handled, connect, disconnect, list_ports, read_single}
use bbjsensescada.Gui.Devices.{on_device_select, scan_device}

-- A scan under way: the ids that are left, and whether any has answered.
pub record Scan : Type 0 where
  pub start : ℤ
  pub end : ℤ
  pub address : ℤ
  pub count : ℤ
  pub function_code : ℤ
  pub left : List ℤ
  pub found_any : Bool

-- The window, and the scans under way, the innermost first.
pub record Gui : Type 0 where
  pub app : App
  pub scans : List Scan
  pub destroyed : Bool

abbrev pub Stepped : Type 0
Stepped = Gui × List Event

-- The fields of a scan, in the order in which they are read.
unfoldable pub scan_of : Vars → Result Scan
unfolding range
scan_of vars = do
  start ← to_int (str vars.scan_from)
  end ← to_int (str vars.scan_to)
  address ← to_int (str vars.scan_address)
  count ← to_int (str vars.scan_count)
  function_code ← to_int (str vars.scan_func)
  left ← range start (plus end 1) (pos 1)
  ok (record {
    start = start;
    end = end;
    address = address;
    count = count;
    function_code = function_code;
    left = left;
    found_any = false;
  })

-- `int` of a text raises ValueError only.
abbrev pub scan_begun : Gui → Result Scan → Stepped
scan_begun g (err error) = (g, printed numbers_needed ∷ [])
scan_begun g (ok scan) =
    (record g { scans = scan ∷ g.scans }, printed (scanning scan.start scan.end) ∷ [])

abbrev pub scan_started : Gui → Option SerialClient → Stepped
scan_started g none = (g, printed connect_first ∷ [])
scan_started g (some client) = scan_begun g (scan_of g.app.vars)

unfoldable pub scan_slave_ids : Gui → Stepped
unfolding scan_of
scan_slave_ids g = scan_started g g.app.client

-- What one id answers: a line if it does, and nothing when the read raises.
abbrev pub answer_line : ℤ → Result Response → Option Line
answer_line slave_id (err error) = none
answer_line slave_id (ok (refused text)) = some (alive_refused slave_id text)
answer_line slave_id (ok (registers regs)) = some (alive slave_id regs)

-- The body of the `try`; with no client the read raises AttributeError, which is passed over too.
unfoldable pub knock : Bench → Option SerialClient → Scan → ℤ → Option Line
unfolding read_one_register
knock B none scan slave_id = none
knock B (some client) scan slave_id = answer_line slave_id (
    read_one_register B client (int slave_id) (int scan.address) (int scan.count)
      scan.function_code)

abbrev pub noted : Option Line → List Event
noted none = []
noted (some line) = printed line ∷ []

abbrev pub has_line : Option Line → Bool
has_line none = false
has_line (some line) = true

-- What a scan logs at its end.
abbrev pub summary : Scan → List Event
summary scan =
    if scan.found_any
    then printed scan_complete ∷ []
    else printed (no_response scan.start scan.end) ∷ printed scan_complete ∷ []

-- The innermost scan goes on: one id, or its end.
abbrev pub gone_on : Bench → Gui → List Scan → Scan → List ℤ → Stepped
gone_on B g outer scan [] = (record g { scans = outer }, summary scan)
gone_on B g outer scan (slave_id ∷ left) =
    let answer = knock B g.app.client scan slave_id in
    (
      record g {
        scans = record scan { left = left; found_any = has_line answer || scan.found_any } ∷ outer;
      },
      noted answer,
    )

abbrev pub advanced : Bench → Gui → List Scan → Stepped
advanced B g [] = (g, [])
advanced B g (scan ∷ outer) = gone_on B g outer scan scan.left

unfoldable pub advance : Bench → Gui → Stepped
unfolding knock
advance B g = advanced B g g.scans

-- A button, a selection, text typed into the entry fields, a step of the scan, the window's X.
pub data Gesture : Type 0 where
  press_connect press_disconnect press_list press_read press_scan_ids press_scan_device : Gesture
  select : Option ℕ → Gesture
  type_in : Vars → Gesture
  scan_on close_window : Gesture

abbrev pub in_window : Gui → Handled → Stepped
in_window g (a, es) = (record g { app = a }, es)

-- `_on_close`
abbrev pub on_close : Gui → Handled → Stepped
on_close g (a, es) = (record g { app = a; destroyed = true }, es)

unfoldable pub perform : Bench → Gui → Gesture → Stepped
unfolding connect disconnect list_ports read_single scan_slave_ids scan_device on_device_select
    advance
perform B g press_connect = in_window g (connect B g.app)
perform B g press_disconnect = in_window g (disconnect g.app)
perform B g press_list = in_window g (list_ports B g.app)
perform B g press_read = in_window g (read_single B g.app)
perform B g press_scan_ids = scan_slave_ids g
perform B g press_scan_device = in_window g (scan_device B g.app)
perform B g (select n) = in_window g (on_device_select B n g.app)
perform B g (type_in vars) = (record g { app = record g.app { vars = vars } }, [])
perform B g scan_on = advance B g
perform B g close_window = on_close g (disconnect g.app)

-- After the window is destroyed no step does anything.
abbrev pub step : Bench → Gui → Gesture → Stepped
step B g s = if g.destroyed then (g, []) else perform B g s

abbrev pub and_then : Stepped → (Gui → Stepped) → Stepped
and_then (g, es) f = ((f g).0, es ++ (f g).1)

unfoldable pub run : Bench → List Gesture → Gui → Stepped
unfolding perform
run B [] g = (g, [])
run B (s ∷ steps) g = and_then (step B g s) (run B steps)
