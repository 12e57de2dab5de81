-- ===== src/Gui/Held.antt =====
-- modbus_gui.py: the port that the window holds.
use bbjsensescada.Common.{
  ◌≡◌, refl, sym, List, [], ◌∷◌, map, Option, none, some, Bool, true, false, String, if◌then◌else◌,
  not, ◌&&◌, ℕ, string_eq,
}
use bbjsensescada.Common.Int.{ℤ}
use bbjsensescada.Python.{Result, ok, err}
use bbjsensescada.Python.Text.{strip_text}
use bbjsensescada.Python.Value.{Value, truthy}
use bbjsensescada.Diagnose.Serial.{SerialClient, Bench, Line, printed, scan_complete, no_response}
use bbjsensescada.Diagnose.Tag.{device_tags}
use bbjsensescada.Diagnose.Held.{Owns, Owns-append}
use bbjsensescada.Gui.Defs.{
  App, Handled, Row, disconnect, disconnected_first, connect, client_of, with_client, on_opened,
}
use bbjsensescada.Gui.Devices.{
  scan_device, scanned_if, scanned, selected, label_of, same_text, completed, rows_of,
  on_device_select, on_selected, with_info, info_of,
}
use bbjsensescada.Gui.Steps.{
  Gui, Scan, Stepped, scan_slave_ids, scan_started, scan_begun, scan_of, advance, advanced, gone_on,
  knock, noted,
}

-- The events of a handler take the port from the client that the window held to the one it holds.
abbrev pub Tracks : Option SerialClient → Handled → Type 0
Tracks held h = Owns held h.1 (h.0.client)

pub disconnect-Tracks :
    (a : App) (held : Option SerialClient) → a.client ≡ held → Tracks held (disconnect a)
unfolding disconnect
disconnect-Tracks a none e = rw e refl
disconnect-Tracks a (some c) e = rw e (refl, refl)

disconnected_first-Tracks :
    (a : App) (held : Option SerialClient)
    → a.client ≡ held
    → Tracks held (disconnected_first held a) × ((disconnected_first held a).0.client ≡ none)
unfolding disconnect
disconnected_first-Tracks a none e = (sym e, e)
disconnected_first-Tracks a (some c) e = (rw e (refl, refl), refl)

with_client-Tracks :
    (B : Bench) (port : String) (a : App) (r : Result SerialClient)
    → a.client ≡ none
    → Tracks none (with_client B port a r)
with_client-Tracks B port a (err error) e = sym e
with_client-Tracks B port a (ok client) e = tried (B.connect client)
  where
    tried : (r : Result Bool) → Tracks none (on_opened port client a r)
    tried (err error) = sym e
    tried (ok true) = refl
    tried (ok false) = sym e

pub connect-Tracks : (B : Bench) (a : App) → Tracks a.client (connect B a)
unfolding connect
connect-Tracks B a =
    let (first, free) = disconnected_first-Tracks a a.client refl in
    let after = (disconnected_first a.client a).0 in
    Owns-append (disconnected_first a.client a).1 _ a.client none _ (rw free at first)
      (with_client-Tracks B (strip_text after.vars.port) after (client_of B after.vars) free)

pub lines-Owns : (lines : List Line) (s : Option SerialClient) → Owns s (map printed lines) s
lines-Owns [] s = refl
lines-Owns (line ∷ lines) s = lines-Owns lines s

-- A handler that leaves the port and the client alone.
abbrev pub Still : App → Handled → Type 0
Still a h = (h.0.client ≡ a.client) × ((s : Option SerialClient) → Owns s h.1 s)

pub Still-Tracks : (a : App) (h : Handled) → Still a h → Tracks a.client h
Still-Tracks a h (same, quiet) = rw same (quiet a.client)

pub on_device_select-Still : (B : Bench) (n : Option ℕ) (a : App) → Still a (on_device_select B n a)
unfolding on_device_select
on_device_select-Still B n a = chosen (record a { selection = n }) (selected a n)
  where
    informed :
        (b : App) (r : Result ((Value × ℕ × Value × Value) × String))
        → (with_info b r).client ≡ b.client
    informed b (ok found) = refl
    informed b (err error) = refl

    chosen : (b : App) (o : Option Value) → Still b (on_selected B b o, [])
    chosen b none = (refl, λ s. refl)
    chosen b (some device) = (informed b (info_of B device), λ s. refl)

pub scan_device-Still : (B : Bench) (a : App) → Still a (scan_device B a)
unfolding scan_device
scan_device-Still B a = on_choice a.client (selected a a.selection)
  where
    done : (name slave : Value) (rows : List Row × Bool) → Still a (completed name slave rows a)
    done name slave (rows, true) = (refl, λ s. refl)
    done name slave (rows, false) = (refl, λ s. refl)

    if_still : (b : Bool) (h k : Handled) → Still a h → Still a k → Still a (if b then h else k)
    if_still true h k p q = p
    if_still false h k p q = q

    tried :
        (client : SerialClient) (device : Value) (r : Result (Value × Value × Value))
        → Still a (scanned B client device a r)
    tried client device (err error) = (refl, λ s. refl)
    tried client device (ok (name, slave, port)) =
        if_still (truthy port && not (same_text port (strip_text a.vars.port))) _ _
          (refl, λ s. refl) (done name slave (rows_of B client slave (device_tags device)))

    on_choice :
        (client : Option SerialClient) (o : Option Value) → Still a (scanned_if B a client o)
    on_choice client none = (refl, λ s. refl)
    on_choice none (some device) = (refl, λ s. refl)
    on_choice (some client) (some device) = tried client device (label_of device)

-- A step of a scan.
abbrev pub Scans : Gui → Stepped → Type 0
Scans g r =
    (r.0.app ≡ g.app) × (r.0.destroyed ≡ g.destroyed) × ((s : Option SerialClient) → Owns s r.1 s)

pub scan_slave_ids-Scans : (g : Gui) → Scans g (scan_slave_ids g)
unfolding scan_slave_ids
scan_slave_ids-Scans g = started g.app.client
  where
    begun : (r : Result Scan) → Scans g (scan_begun g r)
    begun (err error) = (refl, refl, λ s. refl)
    begun (ok scan) = (refl, refl, λ s. refl)

    started : (client : Option SerialClient) → Scans g (scan_started g client)
    started none = (refl, refl, λ s. refl)
    started (some client) = begun (scan_of g.app.vars)

pub advance-Scans : (B : Bench) (g : Gui) → Scans g (advance B g)
unfolding advance
advance-Scans B g = advancing g.scans
  where
    told : (o : Option Line) (s : Option SerialClient) → Owns s (noted o) s
    told none s = refl
    told (some line) s = refl

    ended :
        (scan : Scan) (b : Bool) (s : Option SerialClient)
        → Owns s
            (if b
              then printed scan_complete ∷ []
              else printed (no_response scan.start scan.end) ∷ printed scan_complete ∷ [])
            s
    ended scan true s = refl
    ended scan false s = refl

    going :
        (outer : List Scan) (scan : Scan) (left : List ℤ) → Scans g (gone_on B g outer scan left)
    going outer scan [] = (refl, refl, ended scan scan.found_any)
    going outer scan (id ∷ left) = (refl, refl, told (knock B g.app.client scan id))

    advancing : (scans : List Scan) → Scans g (advanced B g scans)
    advancing [] = (refl, refl, λ s. refl)
    advancing (scan ∷ outer) = going outer scan scan.left
