-- ===== src/Poller/Defs.antt =====
-- The poll of one tag, `resolve_word_order` to `process_tag`, with `save_telemetry`. pymodbus, the
-- clocks and `uuid4` are arguments.
use bbjsensescada.Common.{
  ℕ, Bool, false, not, List, String, ◌<>◌, Option, none, some, ◌==◌, string_eq, if◌then◌else◌,
}
use bbjsensescada.Common.Int.{ℤ, pos, int_eq, pair_eq}
use bbjsensescada.Common.Dict.{lookup}
use bbjsensescada.Python.{Result, ok, err, value_error, runtime_error, ◌>>=◌}
use bbjsensescada.Python.Float.{Float, is_finite, lt_float}
use bbjsensescada.Python.Value.{Value, null, float, str, get_or, item, or_default, to_int, to_float}
use bbjsensescada.Codec.{decode_registers}
use bbjsensescada.Queue
use bbjsensescada.Queue.{Json, Table, enqueue_telemetry}
use bbjsensescada.Historian.{History, record_reading}
use bbjsensescada.Alarms.{Evaluator, record_latest_reading}
use bbjsensescada.Modbus.{Settings, Client, get_value, int_or, connection_of}

pub data ReadKind : Type 0 where
  holding input : ReadKind

pub record Read : Type 0 where
  pub kind : ReadKind
  pub address : ℤ
  pub count : ℤ
  pub slave_id : ℤ

-- A response: the registers, or `isError()` with `str(result)`.
pub data Response : Type 0 where
  registers : List ℕ → Response
  refused : String → Response

-- What a cycle takes from outside. The `uuid4` and the instants of a reading are those drawn for the
-- row that the queue makes of it.
pub record Driver : Type 0 where
  pub connect : Client → Result Bool
  pub read : Client → Read → Result Response
  pub json : Json
  pub message_id : ℕ → String
  pub utc : ℕ → String
  pub micros : ℕ → ℕ

abbrev kind_of : ℤ → Result ReadKind
kind_of function_code =
    if function_code == pos 3
    then ok holding
    else if function_code == pos 4
    then ok input
    else err (value_error "Only Modbus function codes 3 and 4 are currently supported")

abbrev registers_of : Response → Result (List ℕ)
registers_of (registers rs) = ok rs
registers_of (refused s) = err (runtime_error ("Modbus error: " <> s))

unfoldable pub read_modbus_registers : Driver → Client → Value → ℤ → Result (List ℕ)
read_modbus_registers D c tag slave_id = do
  function_code ← int_or "function_code" (pos 3) tag
  register_address ← item "register_address" tag >>= to_int
  register_count ← int_or "register_count" (pos 1) tag
  kind ← kind_of function_code
  response ← D.read c (record {
    kind = kind;
    address = register_address;
    count = register_count;
    slave_id = slave_id;
  })
  registers_of response

abbrev overridden : Value → Option String → Value
overridden cloud none = cloud
overridden cloud (some s) = str s

unfoldable pub resolve_word_order : Settings → Value → Result Value
resolve_word_order S tag = do
  cloud ← get_or "word_order" (str "swapped") tag
  tag_id ← item "id" tag >>= to_int
  ok (overridden cloud (lookup tag_id S.word_order_overrides))

abbrev pub one : Float
one = record { bits = 0x3ff0000000000000 }

abbrev pub two : Float
two = record { bits = 0x4000000000000000 }

abbrev pub zero_float : Float
zero_float = record { bits = 0 }

-- `float(d.get(k) or default)`
abbrev pub float_or : Settings → String → Float → Value → Result Float
float_or S k default d = do v ← get_value k d; to_float S.arithmetic (or_default (float default) v)

pub data Quality : Type 0 where
  good out_of_range : Quality

abbrev pub quality_text : Quality → String
quality_text good = "good"
quality_text out_of_range = "out_of_range"

-- A limit of a tag: none for None.
unfoldable pub limit_of : Settings → String → Value → Result (Option Float)
limit_of S k tag = do
  v ← get_value k tag
  elim v [ null ↦ ok none | other ↦ do x ← to_float S.arithmetic other; ok (some x) ]

abbrev pub below : Float → Option Float → Bool
below x none = false
below x (some m) = lt_float x m

abbrev pub above : Float → Option Float → Bool
above x none = false
above x (some m) = lt_float m x

unfoldable pub quality_in : Option Float → Option Float → Float → Quality
quality_in minimum maximum x =
    if above x maximum then out_of_range else if below x minimum then out_of_range else good

-- What `process_tag` saves.
pub record Sample : Type 0 where
  pub device_id : ℤ
  pub tag_id : ℤ
  pub value : Float
  pub quality : Quality

-- From the registers to the scaled and rounded value.
unfoldable pub final_value_of : Settings → Value → List ℕ → Result Float
final_value_of S tag regs = do
  data_type ← get_or "data_type" (str "float32") tag
  byte_order ← get_or "byte_order" (str "big") tag
  word_order ← resolve_word_order S tag
  decoded ← decode_registers S.repr regs data_type byte_order word_order
  scale ← float_or S "scale" one tag
  offset ← float_or S "offset_value" zero_float tag
  decimal_places ← int_or "decimal_places" (pos 0) tag
  S.arithmetic.round (S.arithmetic.add (S.arithmetic.mul decoded scale) offset) decimal_places

-- The limits that are set are tested, and the quality follows.
abbrev pub limited : Settings → ℤ → ℤ → Value → Float → Result (Option Sample)
limited S device_id tag_id tag value = do
  minimum ← limit_of S "minimum_value" tag
  maximum ← limit_of S "maximum_value" tag
  ok (
      some (record {
        device_id = device_id;
        tag_id = tag_id;
        value = value;
        quality = quality_in minimum maximum value;
      }))

-- `none` is the reading that is skipped because it is not finite.
unfoldable pub sample_of : Settings → ℤ → ℤ → Value → Float → Result (Option Sample)
sample_of S device_id tag_id tag value =
    if not (is_finite value) then ok none else limited S device_id tag_id tag value

-- `process_tag` up to `save_telemetry`.
unfoldable pub measure : Settings → Driver → Client → Value → Value → Result (Option Sample)
unfolding read_modbus_registers final_value_of sample_of
measure S D c device tag = do
  device_id ← item "id" device >>= to_int
  tag_id ← item "id" tag >>= to_int
  connection ← connection_of device
  slave_id ← int_or "slave_id" (pos 1) connection
  regs ← read_modbus_registers D c tag slave_id
  value ← final_value_of S tag regs
  sample_of S device_id tag_id tag value

-- The stores that a reading goes to.
pub record Stores : Type 0 where
  pub queue : Table
  pub history : History
  pub evaluator : Evaluator

abbrev kept : History → Result History → History
kept h (ok h') = h'
kept h (err e) = h

abbrev pub queued_reading : Driver → Sample → ℕ → Queue.Reading
queued_reading D s n = record {
  device_id = s.device_id;
  tag_id = s.tag_id;
  value = s.value;
  quality = quality_text s.quality;
  source_timestamp = some (D.utc n);
}

-- The history on a best-effort basis, then the evaluator.
abbrev pub recorded : Driver → Sample → Stores → ℕ → Table → Stores
recorded D s st n queue = record {
  queue = queue;
  history = kept st.history (
      record_reading (D.utc n) s.device_id s.tag_id s.value (quality_text s.quality) (D.utc n)
        st.history);
  evaluator =
      record_latest_reading s.device_id s.tag_id s.value (quality_text s.quality) (D.micros n)
        st.evaluator;
}

-- The queue comes first.
unfoldable pub save_telemetry : Driver → Sample → Stores → Result Stores
save_telemetry D s st =
    let n = st.queue.next_id in
    do
      (id, queue) ←
          enqueue_telemetry D.json (D.message_id n) (D.utc n) (queued_reading D s n) st.queue
      ok (recorded D s st n queue)

abbrev pub saved : Driver → Stores → Option Sample → Result Stores
saved D st none = ok st
saved D st (some s) = save_telemetry D s st

unfoldable pub process_tag : Settings → Driver → Client → Value → Value → Stores → Result Stores
unfolding measure
process_tag S D c device tag st = do o ← measure S D c device tag; saved D st o

abbrev pub or_stores : Stores → Result Stores → Stores
or_stores st (ok st') = st'
or_stores st (err e) = st
