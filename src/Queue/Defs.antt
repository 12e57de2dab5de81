-- ===== src/Queue/Defs.antt =====
-- The functions of offline_buffer.py on the table `telemetry_queue`.
use mathlib.Core.List.{reverse}
use bbjsensescada.Common.{
  ℕ, ◌+◌, Bool, true, false, not, ◌&&◌, List, [], ◌∷◌, ◌++◌, map, Option, none, some, String,
  length, take, filter, contains, ◌==◌, string_eq, nat_eq, if◌then◌else◌,
}
use bbjsensescada.Common.Int.{ℤ, negsuc, pos, clamp_ℕ, fits_int64}
use bbjsensescada.Python.{Error, Result, ok, err, integrity_error, overflow_error}
use bbjsensescada.Python.Text.{prefix}
use bbjsensescada.Python.Float.{Float, is_nan}
use bbjsensescada.Python.Value.{Value, null, int, float, str, obj, end, field}

-- `json.dumps`, and `json.loads` with `none` for a JSONDecodeError.
pub record Json : Type 0 where
  pub dumps : Value → String
  pub loads : String → Option Value

pub data Status : Type 0 where
  pending sent : Status

pub record Row : Type 0 where
  pub id : ℕ
  pub message_id : String
  pub device_id : ℤ
  pub tag_id : ℤ
  pub value : Float
  pub quality : String
  pub source_timestamp : String
  pub payload_json : String
  pub status : Status
  pub attempts : ℕ
  pub last_error : Option String
  pub created_at : String
  pub last_attempt_at : Option String
  pub sent_at : Option String

pub record Table : Type 0 where
  pub rows : List Row
  pub next_id : ℕ

-- `CREATE TABLE IF NOT EXISTS` on a new file.
abbrev pub new_table : Table
new_table = record { rows = []; next_id = 1 }

abbrev pub is_pending_status : Status → Bool
is_pending_status pending = true
is_pending_status sent = false

abbrev pub is_pending : Row → Bool
is_pending r = is_pending_status r.status

abbrev pub is_sent : Row → Bool
is_sent r = not (is_pending_status r.status)

abbrev pub pending_rows : Table → List Row
pending_rows t = filter is_pending t.rows

abbrev pub message_ids : List Row → List String
message_ids = map (λ (r : Row). r.message_id)

-- `source_timestamp or utc_now_iso()`
abbrev timestamp_or : String → Option String → String
timestamp_or now none = now
timestamp_or now (some s) = if s == "" then now else s

abbrev pub payload_of : String → ℤ → ℤ → Float → String → String → Value
payload_of message_id device_id tag_id value quality timestamp = obj (
    field "message_id" (str message_id) (
      field "device_id" (int device_id) (
        field "tag_id" (int tag_id) (
          field "value" (float value)
            (field "quality" (str quality) (field "source_timestamp" (str timestamp) end))))))

-- What the caller passes to `enqueue_telemetry`.
pub record Reading : Type 0 where
  pub device_id : ℤ
  pub tag_id : ℤ
  pub value : Float
  pub quality : String
  pub source_timestamp : Option String

abbrev pub new_row : Json → String → String → Reading → ℕ → Row
new_row J message_id now r id =
    let timestamp = timestamp_or now r.source_timestamp in
    record {
      id = id;
      message_id = message_id;
      device_id = r.device_id;
      tag_id = r.tag_id;
      value = r.value;
      quality = r.quality;
      source_timestamp = timestamp;
      payload_json =
          J.dumps (payload_of message_id r.device_id r.tag_id r.value r.quality timestamp);
      status = pending;
      attempts = 0;
      last_error = none;
      created_at = now;
      last_attempt_at = none;
      sent_at = none;
    }

-- What stops the INSERT, in the order in which it is tested: sqlite3 binds an int of 64 bits, SQLite
-- stores NaN as NULL, which NOT NULL refuses, and `message_id` is UNIQUE.
unfoldable pub refusal : String → Reading → Table → Option Error
refusal message_id r t =
    if not (fits_int64 r.device_id && fits_int64 r.tag_id)
    then some (overflow_error "Python int too large to convert to SQLite INTEGER")
    else if is_nan r.value
    then some (integrity_error "NOT NULL constraint failed: telemetry_queue.value")
    else if contains (message_ids t.rows) message_id
    then some (integrity_error "UNIQUE constraint failed: telemetry_queue.message_id")
    else none

abbrev pub inserted : Row → Table → Option Error → Result (String × Table)
inserted r t none = ok (r.message_id, record { rows = t.rows ++ r ∷ []; next_id = t.next_id + 1 })
inserted r t (some e) = err e

-- `message_id` is what `uuid4` gave, `now` what the clock gave.
unfoldable pub enqueue_telemetry :
    Json → String → String → Reading → Table → Result (String × Table)
enqueue_telemetry J message_id now r t =
    inserted (new_row J message_id now r t.next_id) t (refusal message_id r t)

pub record Message : Type 0 where
  pub row : Row
  pub payload : Value

abbrev pub loaded : Option Value → Value
loaded none = null
loaded (some v) = v

abbrev pub to_message : Json → Row → Message
to_message J r = record { row = r; payload = loaded (J.loads r.payload_json) }

abbrev pub safe_limit : ℤ → ℕ
safe_limit = clamp_ℕ 1 1000

unfoldable pub get_pending_messages : Json → ℤ → Table → List Message
get_pending_messages J limit t = map (to_message J) (take (safe_limit limit) (pending_rows t))

abbrev pub update_where : String → (Row → Row) → Table → Table
update_where message_id f t = record t {
  rows = map (λ r. if r.message_id == message_id then f r else r) t.rows;
}

abbrev pub as_sent : String → Row → Row
as_sent now r = record r {
  status = sent;
  sent_at = some now;
  last_attempt_at = some now;
  last_error = none;
}

abbrev pub as_failed : String → String → Row → Row
as_failed now error r = record r {
  attempts = r.attempts + 1;
  last_attempt_at = some now;
  last_error = some (prefix 1000 error);
}

unfoldable pub mark_message_sent : String → String → Table → Table
mark_message_sent now message_id = update_where message_id (as_sent now)

unfoldable pub mark_message_failed : String → String → String → Table → Table
mark_message_failed now message_id error = update_where message_id (as_failed now error)

unfoldable pub count_pending_messages : Table → ℕ
count_pending_messages t = length (pending_rows t)

unfoldable pub count_all_messages : Table → ℕ
count_all_messages t = length t.rows

-- `max(0, keep_latest)`
abbrev pub non_negative : ℤ → ℕ
non_negative (pos n) = n
non_negative (negsuc n) = 0

abbrev pub ids : List Row → List ℕ
ids = map (λ (r : Row). r.id)

-- SELECT id … WHERE status = 'sent' ORDER BY id DESC LIMIT ?
abbrev pub kept_ids : ℕ → List Row → List ℕ
kept_ids k rows = take k (reverse (ids (filter is_sent rows)))

abbrev pub is_deleted : List ℕ → Row → Bool
is_deleted kept r = is_sent r && not (contains kept r.id)

unfoldable pub delete_sent_messages : ℤ → Table → ℕ × Table
delete_sent_messages keep_latest t =
    let kept = kept_ids (non_negative keep_latest) t.rows in
    (
      length (filter (is_deleted kept) t.rows),
      record t { rows = filter (λ r. not (is_deleted kept r)) t.rows },
    )
