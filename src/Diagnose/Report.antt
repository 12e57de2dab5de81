-- ===== src/Diagnose/Report.antt =====
-- diagnose_modbus.py: the lines that the scan of a device prints for its tags.
use mathlib.Core.List.{append_assoc}
use bbjsensescada.Common.{true, ◌≡◌, refl, ap, List, [], ◌∷◌, ◌++◌, map, All}
use bbjsensescada.Common.Int.{ℤ, pos}
use bbjsensescada.Python.{Error, ok, err}
use bbjsensescada.Python.Value.{Value, Fields, find, obj, truthy}
use bbjsensescada.Modbus.{get_value, connection_of, present, int_or}
use bbjsensescada.Diagnose.Serial.{
  SerialClient, Bench, Line, device_header, Event, opened, printed, Run, did, after, ◌>>=◌, ◌>>◌,
  lift,
}
use bbjsensescada.Diagnose.Tag.{create_client, tag_line, device_tags}
use bbjsensescada.Diagnose.Scan.{scan_tags, scan_opened, scan_port, scan_device, scan_devices}

-- The lines of the tags, one for each, in order.
abbrev pub Reports : Bench → SerialClient → Value → List Value → List Line → Type 0
Reports B client slave_id [] [] = Unit {0}
Reports B client slave_id (tag ∷ tags) (line ∷ lines) =
    (tag_line B client slave_id tag ≡ ok line) × Reports B client slave_id tags lines
Reports B client slave_id _ _ = ⊥

-- A tag whose function code is read as a number.
abbrev pub IsNumbered : Value → Type 0
IsNumbered tag = (n : ℤ) × (int_or "function_code" (pos 3) tag ≡ ok n)

numbered_fields : (tag : Value) → IsNumbered tag → (fields : Fields) × (tag ≡ obj fields)
numbered_fields (obj fields) h = (fields, refl)
numbered_fields _ h = cc

tag_line-ends :
    (B : Bench) (client : SerialClient) (slave_id : Value) (fields : Fields) (n : ℤ)
    → int_or "function_code" (pos 3) (obj fields) ≡ ok n
    → (line : Line) × (tag_line B client slave_id (obj fields) ≡ ok line)
unfolding tag_line
tag_line-ends B client slave_id fields n h = rw h (_, refl)

-- If every tag's function code is a number or absent, the scan of the tags returns, and it has printed
-- exactly one line for each tag, in order, whatever the reads give or raise.
pub scan_tags-Reports :
    (B : Bench) (client : SerialClient) (slave_id : Value) (tags : List Value)
    → All IsNumbered tags
    → (lines : List Line) × (scan_tags B client slave_id tags ≡ did (map printed lines) (ok tt))
      × Reports B client slave_id tags lines
unfolding scan_tags ◌>>=◌
scan_tags-Reports B client slave_id [] h = ([], refl, tt)
scan_tags-Reports B client slave_id (tag ∷ tags) (here, later) =
    let (fields, same) = numbered_fields tag here in
    let head : (line : Line) × (tag_line B client slave_id tag ≡ ok line) =
      rw same (tag_line-ends B client slave_id fields here.0 (rw same at here.1)) in
    let (lines, rest, each) = scan_tags-Reports B client slave_id tags later in
    (head.0 ∷ lines, rw (head.1, rest) refl, (head.1, each))

tag_line-raises :
    (B : Bench) (client : SerialClient) (slave_id : Value) (fields : Fields) (e : Error)
    → int_or "function_code" (pos 3) (obj fields) ≡ err e
    → tag_line B client slave_id (obj fields) ≡ err e
unfolding tag_line
tag_line-raises B client slave_id fields e h = rw h refl

scan_tags-raises :
    (B : Bench) (client : SerialClient) (slave_id tag : Value) (before later : List Value)
    (e : Error)
    → All IsNumbered before
    → tag_line B client slave_id tag ≡ err e
    → (lines : List Line) × (scan_tags B client slave_id (before ++ tag ∷ later)
        ≡ did (map printed lines) (err e))
      × Reports B client slave_id before lines
unfolding scan_tags ◌>>=◌
scan_tags-raises B client slave_id tag [] later e h bad = ([], rw bad refl, tt)
scan_tags-raises B client slave_id tag (t ∷ before) later e (here, h) bad =
    let (fields, same) = numbered_fields t here in
    let head : (line : Line) × (tag_line B client slave_id t ≡ ok line) =
      rw same (tag_line-ends B client slave_id fields here.0 (rw same at here.1)) in
    let (lines, rest, each) = scan_tags-raises B client slave_id tag before later e h bad in
    (head.0 ∷ lines, rw (head.1, rest) refl, (head.1, each))

abbrev pub port_of : Fields → Value
port_of conn = present (find "serial_port" conn)

-- The scan comes to open the port of this device.
pub record Opens (B : Bench) (device name : Value) (conn : Fields) (client : SerialClient)
    : Type 0 where
  pub connected_by : connection_of device ≡ ok (obj conn)
  pub device_named : get_value "device_name" device ≡ ok name
  pub port_given : truthy (port_of conn) ≡ true
  pub created : create_client B (obj conn) (port_of conn) ≡ ok client
  pub port_opens : B.connect client ≡ ok true

scan_opened-raises :
    (B : Bench) (device : Value) (conn fields : Fields) (client : SerialClient)
    (before later : List Value) (e : Error)
    → device_tags device ≡ ok (before ++ obj fields ∷ later)
    → All IsNumbered before
    → int_or "function_code" (pos 3) (obj fields) ≡ err e
    → (lines : List Line) × (scan_opened B device (obj conn) client
        ≡ did (opened client ∷ map printed lines) (err e))
      × Reports B client (present (find "slave_id" conn)) before lines
unfolding scan_opened ◌>>=◌
scan_opened-raises B device conn fields client before later e listed h bad =
    let slave_id = present (find "slave_id" conn) in
    let (lines, stuck, each) =
      scan_tags-raises B client slave_id (obj fields) before later e h
        (tag_line-raises B client slave_id fields e bad) in
    (lines, rw (listed, stuck) refl, each)

scan_device-raises :
    (B : Bench) (device name : Value) (conn : Fields) (client : SerialClient) (es : List Event)
    (e : Error)
    → Opens B device name conn client
    → scan_opened B device (obj conn) client ≡ did es (err e)
    → scan_device B device ≡ did (printed (device_header name (port_of conn)) ∷ es) (err e)
unfolding scan_device scan_port ◌>>=◌
scan_device-raises B device name conn client es e o stuck =
    rw (o.connected_by, o.device_named, o.port_given, o.created, o.port_opens)
      (ap (λ (r : Run (Unit {0})). after (printed (device_header name (port_of conn)) ∷ []) r)
        stuck)

then_assoc :
    (first second third : Run (Unit {0}))
    → (first >> (second >> third)) ≡ ((first >> second) >> third)
unfolding ◌>>=◌
then_assoc (did es (err e)) second third = refl
then_assoc (did es (ok a)) (did more (err e)) third = refl
then_assoc (did es (ok a)) (did more (ok b)) (did last r) = rw (append_assoc es more last) refl

empty_first : (r : Run (Unit {0})) → r ≡ (lift {A = Unit {0}} (ok tt) >> r)
unfolding ◌>>=◌
empty_first (did es r) = refl

scan_devices-append :
    (B : Bench) (first more : List Value)
    → scan_devices B (first ++ more) ≡ (scan_devices B first >> scan_devices B more)
unfolding scan_devices ◌>>=◌
scan_devices-append B [] more = empty_first (scan_devices B more)
scan_devices-append B (device ∷ first) more =
    rw (scan_devices-append B first more)
      (then_assoc (scan_device B device) (scan_devices B first) (scan_devices B more))

raised :
    (first last : Run (Unit {0})) (es more : List Event) (e : Error)
    → first ≡ did es (ok tt)
    → last ≡ did more (err e)
    → (first >> last) ≡ did (es ++ more) (err e)
unfolding ◌>>=◌
raised first last es more e h k = rw (h, k) refl

stopped :
    (first rest : Run (Unit {0})) (more : List Event) (e : Error)
    → first ≡ did more (err e)
    → (first >> rest) ≡ did more (err e)
unfolding ◌>>=◌
stopped first rest more e h = rw h refl

-- When the scan comes to open the port of a device with a tag whose function code is set but is no
-- number, the error of `int` leaves the scan of all devices: after the events of the earlier devices,
-- that device is named, its port is opened, one line is printed for each tag before the bad one, and
-- nothing follows, neither a later tag, nor a later device, nor the close of the port.
pub scan_devices-raises :
    (B : Bench) (earlier others : List Value) (es : List Event) (device name : Value)
    (conn fields : Fields) (client : SerialClient) (before later : List Value) (e : Error)
    → scan_devices B earlier ≡ did es (ok tt)
    → Opens B device name conn client
    → device_tags device ≡ ok (before ++ obj fields ∷ later)
    → All IsNumbered before
    → int_or "function_code" (pos 3) (obj fields) ≡ err e
    → (lines : List Line) × (scan_devices B (earlier ++ device ∷ others)
        ≡ did
            (es ++ printed (device_header name (port_of conn)) ∷ opened client ∷ map printed lines)
            (err e))
      × Reports B client (present (find "slave_id" conn)) before lines
unfolding scan_devices
scan_devices-raises B earlier others es device name conn fields client before later e done o listed
      h bad =
    let (lines, stuck, each) =
      scan_opened-raises B device conn fields client before later e listed h bad in
    let more = printed (device_header name (port_of conn)) ∷ opened client ∷ map printed lines in
    let one = scan_device-raises B device name conn client _ e o stuck in
    let ends = stopped (scan_device B device) (scan_devices B others) more e one in
    (
      lines,
      rw (scan_devices-append B earlier (device ∷ others))
          (raised (scan_devices B earlier) _ es more e done ends),
      each,
    )
