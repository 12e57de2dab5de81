-- ===== src/Diagnose/Serial.antt =====
-- diagnose_modbus.py, what the on-site tools share: the client that they build, `read_one_register`,
-- and a run of a tool as the list of what it does to the port and to the screen. pymodbus and
-- pyserial are arguments (`Bench`).
use bbjsensescada.Common.{ℕ, Bool, List, [], ◌∷◌, ◌++◌, String, ◌==◌, if◌then◌else◌}
use bbjsensescada.Common.Int.{ℤ, pos, int_eq}
use bbjsensescada.Python.{Result, ok, err}
use bbjsensescada.Python.Float.{Float, Arithmetic}
use bbjsensescada.Python.Value.{Value, Repr}
use bbjsensescada.Poller.{ReadKind, holding, input, Response}

-- The arguments of `ModbusSerialClient` that vary.
pub record SerialClient : Type 0 where
  pub port : Value
  pub baudrate : ℤ
  pub parity : String
  pub stopbits : ℕ
  pub bytesize : ℤ

-- The arguments of a read; they come from JSON and are handed on as they are.
pub record Request : Type 0 where
  pub kind : ReadKind
  pub address : Value
  pub count : Value
  pub slave_id : Value

-- What a tool takes from outside.
pub record Bench : Type 0 where
  pub repr : Repr
  pub arithmetic : Arithmetic
  pub connect : SerialClient → Result Bool
  pub read : SerialClient → Request → Result Response
  pub comports : List (String × String)

unfoldable pub read_one_register :
    Bench → SerialClient → Value → Value → Value → ℤ → Result Response
read_one_register B client slave_id address count function_code =
    if function_code == pos 4
    then B.read client
        (record { kind = input; address = address; count = count; slave_id = slave_id })
    else B.read client
        (record { kind = holding; address = address; count = count; slave_id = slave_id })

-- The lines that are printed or logged, by their kind and what they tell; the layout of the numbers and the
-- elapsed time are left out.
pub data Line : Type 0 where
  missing_config no_devices skipped no_ports ports_seen usage connection_closed prompt_again : Line
  device_header : Value → Value → Line
  not_opened : Value → Line
  port_opened : String → Line
  ports_found : ℕ → Line
  port_line : String → String → Line
  tag_fail : String → String → String → Line
  tag_ok : String → String → List ℕ → Float → String → Line
  tag_error : String → String → String → Line
  modbus_error : String → Line
  raw_registers : List ℕ → Line
  decoded : Float → Line
  read_fail : ℤ → String → Line
  read_ok : ℤ → List ℕ → Float → Line
  read_undecoded : ℤ → List ℕ → String → Line
  read_error : ℤ → String → Line
  disconnected connect_first select_first address_needed numbers_needed scan_complete : Line
  scanning no_response : ℤ → ℤ → Line
  alive : ℤ → List ℕ → Line
  alive_refused : ℤ → String → Line
  devices_loaded : ℕ → Line
  wrong_port : Value → Value → String → Line
  scanning_device : Value → Value → Line
  device_complete : Value → Line
  single_fail : ℤ → ℤ → String → Line
  single_ok : ℤ → ℤ → List ℕ → Float → Line
  failure : String → Line

pub data Event : Type 0 where
  opened closed : SerialClient → Event
  printed : Line → Event

-- What a part of a tool does, and whether it returns or raises.
pub data Run {ℓ} (A : Type ℓ) : Type ℓ where
  did : List Event → Result A → Run A

abbrev pub events {ℓ} : {A : Type ℓ} → Run A → List Event
events (did es result) = es

abbrev pub outcome {ℓ} : {A : Type ℓ} → Run A → Result A
outcome (did es result) = result

abbrev pub after {ℓ} : {A : Type ℓ} → List Event → Run A → Run A
after es r = did (es ++ events r) (outcome r)

module _ {ℓ ℓ'} {A : Type ℓ} {B : Type ℓ'} where
  infixl 5 ◌>>=◌
  unfoldable pub ◌>>=◌ : Run A → (A → Run B) → Run B
  did es (ok value) >>= rest = after es (rest value)
  did es (err raised) >>= rest = did es (err raised)

  infixl 5 ◌>>◌
  abbrev pub ◌>>◌ : Run A → Run B → Run B
  first >> rest = first >>= λ _. rest

abbrev pub lift {ℓ} : {A : Type ℓ} → Result A → Run A
lift result = did [] result

abbrev pub act : Event → Run (Unit {0})
act event = did (event ∷ []) (ok tt)

abbrev pub print : Line → Run (Unit {0})
print line = act (printed line)
