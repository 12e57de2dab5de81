-- ===== src/Commands/Bus.antt =====
-- The serial bus while a command runs.
use mathlib.Core.List.{append_assoc}
use bbjsensescada.Common.{
  ◌≡◌, refl, Bool, true, false, ◌&&◌, List, [], ◌∷◌, ◌++◌, String, none, some, arith, ℕ,
}
use bbjsensescada.Common.Int.{ℤ}
use bbjsensescada.Python.{Result, ok, err, message, ◌>>=◌}
use bbjsensescada.Python.Value.{Value, item, to_int}
use bbjsensescada.Modbus.{
  Settings, Client, create_modbus_client, connection_of, communication_type, is_rtu,
}
use bbjsensescada.Commands.Defs.{
  Driver, Event, acquire_device, release_device, acquire_bus, release_bus, open_client,
  close_client, acked, Session, ack_command, talk, try_block, conclude, run_on, on_bus, device_name,
}

-- Every close of a client happens while the bus lock is held (`held` at the start).
abbrev pub closes_on_bus : Bool → List Event → Bool
closes_on_bus held [] = true
closes_on_bus held (acquire_bus ∷ es) = closes_on_bus true es
closes_on_bus held (release_bus ∷ es) = closes_on_bus false es
closes_on_bus held (close_client c ∷ es) = held && closes_on_bus held es
closes_on_bus held (_ ∷ es) = closes_on_bus held es

before_suffix :
    (es fs : List Event)
    → ((held : Bool) → closes_on_bus held fs ≡ false)
    → (held : Bool) → closes_on_bus held (es ++ fs) ≡ false
before_suffix [] fs h held = h held
before_suffix (acquire_bus ∷ es) fs h held = before_suffix es fs h true
before_suffix (release_bus ∷ es) fs h held = before_suffix es fs h false
before_suffix (close_client c ∷ es) fs h held = ground (arith, before_suffix es fs h held)
before_suffix (_ ∷ es) fs h held = before_suffix es fs h held

after_prefix :
    (es fs : List Event) (held : Bool)
    → closes_on_bus held es ≡ false
    → closes_on_bus held (es ++ fs) ≡ false
after_prefix [] fs held h = cc
after_prefix (acquire_bus ∷ es) fs held h = after_prefix es fs true h
after_prefix (release_bus ∷ es) fs held h = after_prefix es fs false h
after_prefix (close_client c ∷ es) fs held h = ground (arith, after_prefix es fs held)
after_prefix (_ ∷ es) fs held h = after_prefix es fs held h

module _ (D : Driver) (id : Value) (d : ℤ) (es : List Event) (c : Client) where
  abbrev serial_session : Result (Unit {0}) → Session
  serial_session r = on_bus true (record { events = es; client = some c; outcome = r })

  -- The bus is released before whatever closes the client.
  late_close :
      (fs gs : List Event)
      → ((held : Bool) → closes_on_bus held (release_bus ∷ fs) ≡ false)
      → closes_on_bus true (((es ++ release_bus ∷ []) ++ fs) ++ gs) ≡ false
  late_close fs gs h =
      after_prefix ((es ++ release_bus ∷ []) ++ fs) gs true
        (rw (append_assoc es (release_bus ∷ []) fs) (before_suffix es (release_bus ∷ fs) h true))

  conclude-closes :
      (r : Result (Unit {0})) → closes_on_bus false (conclude D id d (serial_session r)).0 ≡ false
  unfolding conclude ack_command
  conclude-closes (ok u) =
      after_prefix
        (acquire_device d ∷ acquire_bus ∷ ((es ++ release_bus ∷ []) ++ close_client c ∷ [])
          ++ release_device d ∷ [])
        (acked id "success" none ∷ []) false
        (late_close (close_client c ∷ []) (release_device d ∷ []) (λ held. refl))
  conclude-closes (err e) =
      rw
        (append_assoc (es ++ release_bus ∷ []) (acked id "failed" (some (message e)) ∷ [])
          (close_client c ∷ []))
        (late_close (acked id "failed" (some (message e)) ∷ close_client c ∷ [])
          (release_device d ∷ []) (λ held. refl))

-- Whenever a command gets as far as a client for a serial device, that client is closed after the
-- serial bus lock has been released, whatever happened to the write: another thread can open the
-- same port while the command's client still holds it.
pub run_on-closes :
    (S : Settings) (D : Driver) (id : Value) (t : String) (v device tag connection : Value) (d : ℤ)
    (comm : List ℕ) (c : Client)
    → (item "id" device >>= to_int) ≡ ok d
    → connection_of device ≡ ok connection
    → communication_type S device ≡ ok comm
    → is_rtu comm ≡ true
    → create_modbus_client S comm connection ≡ ok c
    → closes_on_bus false (run_on S D id t v (device, tag)).0 ≡ false
unfolding try_block run_on
run_on-closes S D id t v device tag connection d comm c known has speaks serial creates =
    let (es, r) = talk D (device_name S device) c connection tag t v in
    rw (known, run_on)
      (rw (has, speaks, serial, creates) (conclude-closes D id d (open_client c ∷ es) c r))
