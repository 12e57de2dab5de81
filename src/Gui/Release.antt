-- ===== src/Gui/Release.antt =====
-- modbus_gui.py: the port over a run of the window.
use mathlib.Core.Path.{subst}
use bbjsensescada.Common.{
  ◌≡◌, refl, ◌∙◌, ap, List, [], ◌∷◌, ◌++◌, none, Bool, true, false, if◌then◌else◌,
}
use bbjsensescada.Diagnose.Serial.{Bench}
use bbjsensescada.Diagnose.Scan.{port_lines}
use bbjsensescada.Diagnose.Held.{Owns, Owns-append}
use bbjsensescada.Gui.Defs.{disconnect, list_ports, read_single}
use bbjsensescada.Gui.Devices.{scan_device, on_device_select}
use bbjsensescada.Gui.Steps.{
  Gui, Gesture, Stepped, perform, step, run, press_connect, press_disconnect, press_list,
  press_read, press_scan_ids, press_scan_device, select, type_in, scan_on, close_window,
  scan_slave_ids, advance,
}
use bbjsensescada.Gui.Held.{
  Scans, disconnect-Tracks, connect-Tracks, lines-Owns, Still-Tracks, on_device_select-Still,
  scan_device-Still, scan_slave_ids-Scans, advance-Scans,
}

-- The events of a step take the port from the client that the window held to the one it holds.
abbrev Follows : Gui → Stepped → Type 0
Follows g r = Owns g.app.client r.1 r.0.app.client

Scans-Follows : (g : Gui) (r : Stepped) → Scans g r → Follows g r
Scans-Follows g r (same, _, quiet) = rw same (quiet g.app.client)

perform-Follows : (B : Bench) (g : Gui) (s : Gesture) → Follows g (perform B g s)
unfolding perform list_ports read_single
perform-Follows B g press_connect = connect-Tracks B g.app
perform-Follows B g press_disconnect = disconnect-Tracks g.app g.app.client refl
perform-Follows B g press_list = lines-Owns (port_lines B.comports) g.app.client
perform-Follows B g press_read = refl
perform-Follows B g press_scan_ids = Scans-Follows g (scan_slave_ids g) (scan_slave_ids-Scans g)
perform-Follows B g press_scan_device =
    Still-Tracks g.app (scan_device B g.app) (scan_device-Still B g.app)
perform-Follows B g (select n) =
    Still-Tracks g.app (on_device_select B n g.app) (on_device_select-Still B n g.app)
perform-Follows B g (type_in vars) = refl
perform-Follows B g scan_on = Scans-Follows g (advance B g) (advance-Scans B g)
perform-Follows B g close_window = disconnect-Tracks g.app g.app.client refl

step-Follows : (B : Bench) (g : Gui) (s : Gesture) → Follows g (step B g s)
step-Follows B g s = either g.destroyed
  where
    either : (b : Bool) → Follows g (if b then (g, []) else perform B g s)
    either true = refl
    either false = perform-Follows B g s

-- Through any sequence of buttons, scans and typing, the port that is open is always the one of the
-- client that the window keeps: a port is opened only while none is open, only the open one is closed,
-- and after the sequence the open port is `self.client`, with none open when that is None.
pub run-Follows :
    (B : Bench) (steps : List Gesture) (g : Gui)
    → Owns g.app.client (run B steps g).1 (run B steps g).0.app.client
unfolding run
run-Follows B [] g = refl
run-Follows B (s ∷ steps) g =
    Owns-append (step B g s).1 (run B steps (step B g s).0).1 g.app.client (step B g s).0.app.client
      (run B steps (step B g s).0).0.app.client (step-Follows B g s)
      (run-Follows B steps (step B g s).0)

-- A destroyed window holds no client.
abbrev IsShut : Gui → Type 0
IsShut g = g.destroyed ≡ true → g.app.client ≡ none

still_open :
    (g : Gui) (b : Bool) → g.destroyed ≡ false → b ≡ g.destroyed → b ≡ true → g.app.client ≡ none
still_open g b alive same gone = cc

perform-IsShut :
    (B : Bench) (g : Gui) (s : Gesture) → g.destroyed ≡ false → IsShut (perform B g s).0
unfolding perform disconnect
perform-IsShut B g press_connect alive gone = cc
perform-IsShut B g press_disconnect alive gone = refl
perform-IsShut B g press_list alive gone = cc
perform-IsShut B g press_read alive gone = cc
perform-IsShut B g press_scan_ids alive gone = let (_, same, _) = scan_slave_ids-Scans g in cc
perform-IsShut B g press_scan_device alive gone = cc
perform-IsShut B g (select n) alive gone = cc
perform-IsShut B g (type_in vars) alive gone = cc
perform-IsShut B g scan_on alive gone = let (_, same, _) = advance-Scans B g in cc
perform-IsShut B g close_window alive gone = refl

step-IsShut : (B : Bench) (g : Gui) (s : Gesture) → IsShut g → IsShut (step B g s).0
step-IsShut B g s h = either g.destroyed refl
  where
    either : (b : Bool) → g.destroyed ≡ b → IsShut (if b then (g, []) else perform B g s).0
    either true gone = h
    either false alive = perform-IsShut B g s alive

run-IsShut : (B : Bench) (steps : List Gesture) (g : Gui) → IsShut g → IsShut (run B steps g).0
unfolding run
run-IsShut B [] g h = h
run-IsShut B (s ∷ steps) g h = run-IsShut B steps (step B g s).0 (step-IsShut B g s h)

close-destroys : (B : Bench) (g : Gui) → (step B g close_window).0.destroyed ≡ true
unfolding perform
close-destroys B g = either g.destroyed refl
  where
    either :
        (b : Bool)
        → g.destroyed ≡ b
        → (if b then (g, []) else perform B g close_window).0.destroyed ≡ true
    either true gone = gone
    either false alive = refl

stays-destroyed :
    (B : Bench) (steps : List Gesture) (g : Gui)
    → g.destroyed ≡ true
    → (run B steps g).0.destroyed ≡ true
unfolding run
stays-destroyed B [] g h = h
stays-destroyed B (s ∷ steps) g h =
    let unmoved : (step B g s).0 ≡ g = rw h refl in
    stays-destroyed B steps (step B g s).0 (ap (λ (k : Gui). k.destroyed) unmoved ∙ h)

closed-destroyed :
    (B : Bench) (first later : List Gesture) (g : Gui)
    → (run B (first ++ close_window ∷ later) g).0.destroyed ≡ true
unfolding run
closed-destroyed B [] later g =
    stays-destroyed B later (step B g close_window).0 (close-destroys B g)
closed-destroyed B (s ∷ first) later g = closed-destroyed B first later (step B g s).0

-- Closing the window with its X releases the port whatever was pressed before, a scan under way
-- included: from a window that holds no client, the events up to the close and after it end with no
-- port open.
pub run-close :
    (B : Bench) (first later : List Gesture) (g : Gui)
    → g.app.client ≡ none
    → g.destroyed ≡ false
    → Owns none (run B (first ++ close_window ∷ later) g).1 none
run-close B first later g free fresh =
    let steps = first ++ close_window ∷ later in
    let shut : IsShut (run B steps g).0 = run-IsShut B steps g (λ _. free) in
    subst (λ s. Owns s (run B steps g).1 none) free
      (subst (λ t. Owns g.app.client (run B steps g).1 t) (shut (closed-destroyed B first later g))
        (run-Follows B steps g))
