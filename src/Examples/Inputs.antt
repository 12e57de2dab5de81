-- ===== src/Examples/Inputs.antt =====
-- What the examples share: an environment that answers in a simple way, and a small configuration.
use bbjsensescada.Common.{arith, ◌∷◌, true, [], none, some}
use bbjsensescada.Common.Int.{pos}
use bbjsensescada.Python.{ok}
use bbjsensescada.Python.Float.{Float, Arithmetic}
use bbjsensescada.Python.Value.{
  Value, Repr, boolean, int, float, str, arr, obj, nil, cons, end, field,
}
use bbjsensescada.Modbus.{Settings}
use bbjsensescada.Queue.{Json, Reading, new_table}
use bbjsensescada.Queue.Invariant.{IsValid}
use bbjsensescada.Commands
use bbjsensescada.Commands.{accepted}
use bbjsensescada.Poller
use bbjsensescada.Poller.{Stores, registers}

abbrev pub repr : Repr
repr v = "?"

abbrev pub zero_value : Float
zero_value = record { bits = 0 }

-- 50.0
abbrev pub fifty : Float
fifty = record { bits = 0x4049000000000000 }

-- Exact where the examples use it: at scale 1 and offset 0, and for the difference from 0.
abbrev pub arithmetic : Arithmetic
arithmetic = record {
  mul = λ x y. x;
  add = λ x y. x;
  sub = λ x y. x;
  round = λ x n. ok x;
  of_text = λ s. none;
}

abbrev pub settings : Settings
settings = record {
  repr = repr;
  arithmetic = arithmetic;
  default_serial_port = "";
  word_order_overrides = [];
}

abbrev pub payload : Value
payload = obj (
    field "device_id" (int (pos 1)) (
      field "tag_id" (int (pos 2))
        (field "value" (float fifty) (field "quality" (str "good") end))))

-- Good for texts that carry this payload.
abbrev pub json : Json
json = record { dumps = λ v. "payload"; loads = λ s. some payload }

abbrev pub reading : Reading
reading = record {
  device_id = pos 1;
  tag_id = pos 2;
  value = fifty;
  quality = "good";
  source_timestamp = none;
}

abbrev pub tag : Value
tag = obj (
    field "id" (int (pos 2)) (
      field "register_address" (int (pos 140))
        (field "register_count" (int (pos 2)) (field "writable" (boolean true) end))))

abbrev pub connection : Value
connection = obj (field "serial_port" (str "COM6") (field "slave_id" (int (pos 3)) end))

abbrev pub device : Value
device = obj (
    field "id" (int (pos 1)) (
      field "device_name" (str "meter")
        (field "connection" connection (field "tags" (arr (cons tag nil)) end))))

abbrev pub configuration : Value
configuration = obj (field "devices" (arr (cons device nil)) end)

abbrev pub command : Value
command = obj (
    field "command_id" (int (pos 7)) (
      field "command_type" (str "write_register") (
        field "device_id" (int (pos 1))
          (field "tag_id" (int (pos 2)) (field "value" (int (pos 42)) end)))))

abbrev pub answering : Commands.Driver
answering = record {
  connect = λ c. ok true;
  write = λ c w. ok accepted;
  post_ack = λ id status. ok tt;
}

-- The registers of 50.0 as a float32, low word first.
abbrev pub meter : Poller.Driver
meter = record {
  connect = λ c. ok true;
  read = λ c r. ok (registers (0 ∷ 0x4248 ∷ []));
  json = json;
  message_id = λ n. "new";
  utc = λ n. "2026-08-07T10:00:00+00:00";
  micros = λ n. n;
}

abbrev pub stores : Stores
stores = record {
  queue = new_table;
  history = record { rows = []; next_id = 1 };
  evaluator = record { latest_readings = []; active_state = []; current_alarm_rules = [] };
}

abbrev pub idle : Poller.Poller
idle = record { stores = stores; device_status = []; last_poll_times = [] }

pub new-IsValid : IsValid idle.stores.queue
new-IsValid = record { ascending = omega arith; unique = tt }
