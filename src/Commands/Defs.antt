-- ===== src/Commands/Defs.antt =====
-- A command's execution as the list of its effects, with the exception that leaves it, if any.
use bbjsensescada.Common.{
  ℕ, Bool, true, false, List, [], ◌∷◌, ◌++◌, String, ◌<>◌, Option, none, some, ◌==◌, contains,
  string_eq, if◌then◌else◌,
}
use bbjsensescada.Common.Int.{ℤ, pos, int_eq}
use bbjsensescada.Python.{
  Error, Result, ok, err, value_error, type_error, key_error, runtime_error, connection_error,
  request_error, message, ◌>>=◌, ◌>>◌,
}
use bbjsensescada.Python.Value.{Value, str, obj, item, or_default, to_int, to_str, truthy, find}
use bbjsensescada.Modbus.{
  Settings, Client, get_value, present, int_or, communication_type, is_rtu, create_modbus_client,
  connection_of,
}
use bbjsensescada.Commands.Lookup.{find_writable_tag}

-- A request to a device: address, value, unit.
pub data Write : Type 0 where
  register : ℤ → ℤ → ℤ → Write
  coil : ℤ → Bool → ℤ → Write

-- What `isError()` tells of a response, with `str(result)`.
pub data Response : Type 0 where
  accepted : Response
  refused : String → Response

-- pymodbus, and the POST of an acknowledgement.
pub record Driver : Type 0 where
  pub connect : Client → Result Bool
  pub write : Client → Write → Result Response
  pub post_ack : Value → String → Result (Unit {0})

pub data Event : Type 0 where
  acquire_device release_device : ℤ → Event
  acquire_bus release_bus : Event
  open_client close_client : Client → Event
  wrote : Write → Event
  acked : Value → String → Option String → Event

abbrev pub Trace : Type 0
Trace = List Event × Result (Unit {0})

abbrev pub valid_command_types : List String
valid_command_types = "write_register" ∷ "write_coil" ∷ []

-- A RequestException of the POST is only logged.
swallowed : Result (Unit {0}) → Result (Unit {0})
swallowed (err (request_error s)) = ok tt
swallowed r = r

unfoldable pub ack_command : Driver → Value → String → Option String → Trace
unfolding swallowed
ack_command D id status error = (acked id status error ∷ [], swallowed (D.post_ack id status))

abbrev pub checked : Response → Result (Unit {0})
checked accepted = ok tt
checked (refused s) = err (runtime_error ("Modbus write error: " <> s))

abbrev pub perform_write : Driver → Client → Write → Trace
perform_write D c w = (wrote w ∷ [], D.write c w >>= checked)

register_write : ℤ → Value → ℤ → ℤ → Result Write
register_write register_address value slave_id function_code =
    if function_code == pos 4
    then err (
        value_error
          "Tag is an input register (function_code=4); input registers are read-only in Modbus and cannot be written")
    else do n ← to_int value; ok (register register_address n slave_id)

write_to : ℤ → Value → String → Value → ℤ → Result Write
write_to register_address tag command_type value slave_id =
    if command_type == "write_register"
    then int_or "function_code" (pos 3) tag >>= register_write register_address value slave_id
    else if command_type == "write_coil"
    then ok (coil register_address (truthy value) slave_id)
    else err (value_error ("Unsupported command type: " <> command_type))

-- What is to be written, or why nothing is.
unfoldable pub write_of : Value → String → Value → ℤ → Result Write
unfolding write_to register_write
write_of tag command_type value slave_id = do
  register_address ← item "register_address" tag >>= to_int
  write_to register_address tag command_type value slave_id

abbrev pub trace_write : Driver → Client → Result Write → Trace
trace_write D c (ok w) = perform_write D c w
trace_write D c (err e) = ([], err e)

unfoldable pub write_command_value : Driver → Client → Value → String → Value → ℤ → Trace
write_command_value D c tag command_type value slave_id =
    trace_write D c (write_of tag command_type value slave_id)

-- `f"{device.get('device_name')}"` of a device that is a dict.
abbrev pub device_name : Settings → Value → String
device_name S (obj fs) = to_str S.repr (present (find "device_name" fs))
device_name S _ = ""

abbrev pub connected : String → Bool → Result (Unit {0})
connected name true = ok tt
connected name false = err (connection_error ("Unable to connect to device " <> name))

abbrev pub then_write : Driver → Client → Value → String → Value → Result ℤ → Trace
then_write D c tag command_type value (ok slave_id) =
    write_command_value D c tag command_type value slave_id
then_write D c tag command_type value (err e) = ([], err e)

-- From `client.connect()` to the end of the `with bus_lock` block.
unfoldable pub talk : Driver → String → Client → Value → Value → String → Value → Trace
talk D name c connection tag command_type value =
    then_write D c tag command_type value
      (do up ← D.connect c; connected name up; int_or "slave_id" (pos 1) connection)

-- The `try` block: its effects, the client if it was created, and its exception.
pub record Session : Type 0 where
  pub events : List Event
  pub client : Option Client
  pub outcome : Result (Unit {0})

abbrev pub session_with : Driver → String → Value → Value → String → Value → Result Client → Session
session_with D name connection tag command_type value (ok c) =
    let (events, outcome) = talk D name c connection tag command_type value in
    record { events = open_client c ∷ events; client = some c; outcome = outcome }
session_with D name connection tag command_type value (err e) = record {
  events = [];
  client = none;
  outcome = err e;
}

-- `with bus_lock`
abbrev pub on_bus : Bool → Session → Session
on_bus true s = record s { events = acquire_bus ∷ s.events ++ release_bus ∷ [] }
on_bus false s = s

abbrev pub failed_session : Error → Session
failed_session e = record { events = []; client = none; outcome = err e }

abbrev pub session_on :
    Settings → Driver → String → Value → String → Value → Result (Value × List ℕ) → Session
session_on S D name tag command_type value (err e) = failed_session e
session_on S D name tag command_type value (ok (connection, c)) =
    on_bus (is_rtu c)
      (session_with D name connection tag command_type value (create_modbus_client S c connection))

unfoldable pub try_block : Settings → Driver → Value → Value → String → Value → Session
try_block S D device tag command_type value =
    session_on S D (device_name S device) tag command_type value
      (do connection ← connection_of device; c ← communication_type S device; ok (connection, c))

-- `finally: if client is not None: close_client_with_timeout(client)`
abbrev pub closing : Option Client → List Event
closing none = []
closing (some c) = close_client c ∷ []

-- The handlers of the block, under the device's lock, and what follows it.
abbrev pub locked : ℤ → List Event → List Event
locked d events = acquire_device d ∷ events ++ release_device d ∷ []

unfoldable pub conclude : Driver → Value → ℤ → Session → Trace
conclude D id d s = elim s.outcome [
  | ok u ↦
      let (after, r) = ack_command D id "success" none in
      (locked d (s.events ++ closing s.client) ++ after, r)
  | err e ↦
      let (during, r) = ack_command D id "failed" (some (message e)) in
      (locked d (s.events ++ during ++ closing s.client), r)
]

unfoldable pub run_on : Settings → Driver → Value → String → Value → Value × Value → Trace
run_on S D id command_type value (device, tag) = elim (item "id" device >>= to_int) [
  | ok d ↦ conclude D id d (try_block S D device tag command_type value)
  | err e ↦ ([], err e)
]

unfoldable pub dispatch :
    Settings → Driver → Value → String → Value → Result (Option (Value × Value)) → Trace
dispatch S D id command_type value (ok (some target)) = run_on S D id command_type value target
dispatch S D id command_type value (ok none) =
    ack_command D id "failed" (some "Tag not found or not marked writable")
dispatch S D id command_type value (err e) = ([], err e)

-- The two ids of a command.
abbrev pub target_ids : Value → Result (ℤ × ℤ)
target_ids command = do
  device_id ← item "device_id" command >>= to_int
  tag_id ← item "tag_id" command >>= to_int
  ok (device_id, tag_id)

unfoldable pub malformed : Driver → Value → Error → Trace
malformed D id (key_error s) =
    ack_command D id "failed" (some ("Malformed command: " <> message (key_error s)))
malformed D id (type_error s) = ack_command D id "failed" (some ("Malformed command: " <> s))
malformed D id (value_error s) = ack_command D id "failed" (some ("Malformed command: " <> s))
malformed D id e = ([], err e)

unfoldable pub execute_ids :
    Settings → Driver → Value → Value → String → Value → Result (ℤ × ℤ) → Trace
unfolding malformed
execute_ids S D configuration id command_type value (err e) = malformed D id e
execute_ids S D configuration id command_type value (ok (device_id, tag_id)) =
    if contains valid_command_types command_type
    then dispatch S D id command_type value (find_writable_tag configuration device_id tag_id)
    else ack_command D id "failed" (some ("Unsupported command_type: " <> command_type))

-- The three fields that `command.get` reads first.
pub record Header : Type 0 where
  pub id : Value
  pub command_type : String
  pub value : Value

abbrev pub header_of : Settings → Value → Result Header
header_of S command = do
  id ← get_value "command_id" command
  t ← get_value "command_type" command
  value ← get_value "value" command
  ok (record { id = id; command_type = to_str S.repr (or_default (str "") t); value = value })

unfoldable pub execute_command : Settings → Driver → Value → Value → Trace
execute_command S D command configuration = elim (header_of S command) [
  | ok h ↦ execute_ids S D configuration h.id h.command_type h.value (target_ids command)
  | err e ↦ ([], err e)
]
