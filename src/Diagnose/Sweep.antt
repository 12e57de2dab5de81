-- ===== src/Diagnose/Sweep.antt =====
-- diagnose_modbus.py: the port over a whole run of the tool.
use bbjsensescada.Common.{
  refl, List, [], ◌∷◌, Option, none, some, Bool, true, false, String, if◌then◌else◌, string_eq,
}
use bbjsensescada.Common.Int.{ℤ}
use bbjsensescada.Python.{Result, ok, err}
use bbjsensescada.Python.Value.{Value, int, truthy, elements, get_or, arr, nil}
use bbjsensescada.Codec.{normalize_stop_bits}
use bbjsensescada.Modbus.{get_value, connection_of}
use bbjsensescada.Poller.{Response, registers, refused}
use bbjsensescada.Diagnose.Serial.{
  SerialClient, Bench, opened, closed, device_header, skipped, not_opened, no_devices,
  missing_config, Line, modbus_error, decoded, Run, did, events, raw_registers, ◌>>=◌, ◌>>◌, lift,
  act, print,
}
use bbjsensescada.Diagnose.Tag.{create_client, tag_line, device_tags}
use bbjsensescada.Diagnose.Scan.{
  scan_tags, scan_opened, scan_port, scan_device, scan_devices, scan_config, run_config_scan,
  Arguments, shown, probe, close_finally, probe_opened, run_raw_probe,
}
use bbjsensescada.Diagnose.Held.{
  Owns, Prints-Owns, Moves, IsQuiet, Owns-append, >>=-Moves, lift->>=, >>=-IsQuiet, Moves-IsQuiet,
  if-Moves, lift-IsQuiet, print-IsQuiet,
}

scan_tags-IsQuiet :
    (B : Bench) (client : SerialClient) (slave_id : Value) (tags : List Value)
    → IsQuiet (scan_tags B client slave_id tags)
unfolding scan_tags
scan_tags-IsQuiet B client slave_id [] = lift-IsQuiet (ok tt)
scan_tags-IsQuiet B client slave_id (tag ∷ tags) =
    >>=-IsQuiet (lift (tag_line B client slave_id tag)) _
      (lift-IsQuiet (tag_line B client slave_id tag))
      (λ line.
        >>=-IsQuiet (print line) _ (print-IsQuiet line)
          (λ _. scan_tags-IsQuiet B client slave_id tags))

-- An open client that is used quietly and closed.
then_closed :
    (client : SerialClient) (r : Run (Unit {0}))
    → IsQuiet r
    → Moves (some client) (r >> act (closed client)) none
unfolding Moves
then_closed client r h =
    >>=-Moves (some client) (some client) none r (λ _. act (closed client))
      (Moves-IsQuiet (some client) r h) (λ _. (refl, refl))

-- A step that only prints.
print-Moves : (line : Line) → Moves none (print line) none
print-Moves line = Moves-IsQuiet none (print line) (print-IsQuiet line)

then_opened :
    (client : SerialClient) (r : Run (Unit {0}))
    → Moves (some client) r none
    → Moves none (act (opened client) >> r) none
unfolding Moves
then_opened client r h =
    >>=-Moves none (some client) none (act (opened client)) (λ _. r) refl (λ _. h)

scan_opened-Moves :
    (B : Bench) (device connection : Value) (client : SerialClient)
    → Moves none (scan_opened B device connection client) none
unfolding scan_opened
scan_opened-Moves B device connection client = then_opened client _ (
    lift->>= (some client) none (get_value "slave_id" connection) _ (λ slave_id.
      lift->>= (some client) none (device_tags device) _ (λ tags.
        then_closed client (scan_tags B client slave_id tags)
          (scan_tags-IsQuiet B client slave_id tags))))

scan_port-Moves :
    (B : Bench) (device connection port : Value)
    → Moves none (scan_port B device connection port) none
unfolding scan_port
scan_port-Moves B device connection port =
    lift->>= none none (create_client B connection port) _ (λ client.
      lift->>= none none (B.connect client) _ (λ is_open.
        if-Moves none none is_open _ _ (scan_opened-Moves B device connection client)
          (print-Moves (not_opened port))))

scan_device-Moves : (B : Bench) (device : Value) → Moves none (scan_device B device) none
unfolding scan_device
scan_device-Moves B device = lift->>= none none (connection_of device) _ (λ connection.
    lift->>= none none (get_value "serial_port" connection) _ (λ port.
      lift->>= none none (get_value "device_name" device) _ (λ name.
        >>=-Moves none none none (print (device_header name port)) _
          (print-Moves (device_header name port))
          (λ _.
            if-Moves none none (truthy port) _ _ (scan_port-Moves B device connection port)
              (print-Moves skipped)))))

scan_devices-Moves : (B : Bench) (devices : List Value) → Moves none (scan_devices B devices) none
unfolding scan_devices
scan_devices-Moves B [] = Moves-IsQuiet none (lift (ok tt)) (lift-IsQuiet (ok tt))
scan_devices-Moves B (device ∷ devices) =
    >>=-Moves none none none (scan_device B device) _ (scan_device-Moves B device)
      (λ _. scan_devices-Moves B devices)

-- A scan of the configuration holds at most one port at a time, closes only the port that it holds,
-- and holds none when it returns, whatever the configuration and the devices do.
pub run_config_scan-Moves :
    (B : Bench) (config : Option (Result Value)) → Moves none (run_config_scan B config) none
unfolding run_config_scan scan_config
run_config_scan-Moves B none = print-Moves missing_config
run_config_scan-Moves B (some config) = lift->>= none none config _ (λ c.
    lift->>= none none (get_or "devices" (arr nil) c) _ (λ devices.
      if-Moves none none (truthy devices) _ _
        (lift->>= none none (elements devices) _ (scan_devices-Moves B)) (print-Moves no_devices)))

shown-IsQuiet : (B : Bench) (args : Arguments) (r : Response) → IsQuiet (shown B args r)
shown-IsQuiet B args (refused text) = print-IsQuiet (modbus_error text)
shown-IsQuiet B args (registers regs) =
    >>=-IsQuiet (print (raw_registers regs)) _ (print-IsQuiet (raw_registers regs)) (λ _.
      >>=-IsQuiet (lift _) _ (lift-IsQuiet _) (λ value.
        >>=-IsQuiet (lift _) _ (lift-IsQuiet _) (λ rounded. print-IsQuiet (decoded rounded))))

probe-IsQuiet :
    (B : Bench) (args : Arguments) (address : ℤ) (client : SerialClient)
    → IsQuiet (probe B args address client)
unfolding probe
probe-IsQuiet B args address client = >>=-IsQuiet (lift _) _ (lift-IsQuiet _) (shown-IsQuiet B args)

-- The events of the probe once its port is open, whether it returns or raises.
close_finally-Owns :
    (client : SerialClient) (r : Run (Unit {0}))
    → IsQuiet r
    → Owns none (events (act (opened client) >>= λ _. close_finally client r)) none
unfolding IsQuiet ◌>>=◌
close_finally-Owns client (did es result) h =
    Owns-append es (closed client ∷ []) (some client) (some client) none
      (Prints-Owns es (some client) h) (refl, refl)

if-Owns :
    (b : Bool) (r q : Run (Unit {0}))
    → Owns none (events r) none
    → Owns none (events q) none
    → Owns none (events (if b then r else q)) none
if-Owns true r q h k = h
if-Owns false r q h k = k

lift-Owns {ℓ} :
    {A : Type ℓ} (result : Result A) (f : A → Run (Unit {0}))
    → ((a : A) → Owns none (events (f a)) none)
    → Owns none (events (lift result >>= f)) none
unfolding ◌>>=◌
lift-Owns (ok a) f h = h a
lift-Owns (err e) f h = refl

-- `finally` closes the port of a probe whatever happens: the events of a probe, whether it returns or
-- raises, open a port only while none is open and end with none open.
pub run_raw_probe-Owns :
    (B : Bench) (args : Arguments) (port : String) (address : ℤ)
    → Owns none (events (run_raw_probe B args port address)) none
unfolding run_raw_probe probe_opened
run_raw_probe-Owns B args port address =
    lift-Owns (normalize_stop_bits B.arithmetic (int args.stopbits)) _ (λ stopbits.
      lift-Owns (ok _) _ (λ client. lift-Owns (B.connect client) _ (λ is_open.
        if-Owns is_open _ _
          (close_finally-Owns client (probe B args address client)
            (probe-IsQuiet B args address client))
          refl)))
