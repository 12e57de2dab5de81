-- ===== src/DeviceStatus.antt =====
-- device_status.py: the file that the poller writes and the health reporter reads.
pub mod Counts
use bbjsensescada.Common.{
  ℕ, suc, ◌+◌, Bool, false, List, [], ◌∷◌, String, Option, none, some, if◌then◌else◌, ◌==◌,
  string_eq,
}
use bbjsensescada.Common.Int.{ℤ}
use bbjsensescada.Common.Dict.{Dict}
use bbjsensescada.Python.{Error, Result, ok, err, attribute_error}
use bbjsensescada.Python.Value.{Value, Repr, int, str, obj, Fields, end, field}
use bbjsensescada.Queue.{Json}
use bbjsensescada.Poller.{Status, connected_status, failed_status}

abbrev pub status_text : Status → String
status_text connected_status = "connected"
status_text failed_status = "failed"

-- `payload[k] = v`
unfoldable pub insert_field : String → Value → Fields → Fields
insert_field k v end = field k v end
insert_field k v (field j w fs) = if k == j then field k v fs else field j w (insert_field k v fs)

-- The dict comprehension, from the fields that are there.
abbrev pub payload_from : Repr → Dict ℤ Status → Fields → Fields
payload_from R [] fs = fs
payload_from R ((device_id, status) ∷ d) fs =
    payload_from R d (insert_field (R (int device_id)) (str (status_text status)) fs)

-- The file's text after `write_text` and `replace`; the former goes to another file, so a disk error
-- leaves the old text.
unfoldable pub write_device_status :
    Json → Repr → Option Error → Dict ℤ Status → Option String → Option String × Result (Unit {0})
write_device_status J R none status_by_device file =
    (some (J.dumps (obj (payload_from R status_by_device end))), ok tt)
write_device_status J R (some e) status_by_device file = (file, err e)

abbrev pub is_status : String → Value → Bool
is_status s (str t) = t == s
is_status s _ = false

-- `sum(1 for status in payload.values() if status == s)`
unfoldable pub count_values : String → Fields → ℕ
count_values s end = 0
count_values s (field k v fs) = if is_status s v then 1 + count_values s fs else count_values s fs

abbrev pub counts_in : Value → Result (ℕ × ℕ)
counts_in (obj fs) = ok (count_values "connected" fs, count_values "failed" fs)
counts_in _ = err (attribute_error "object has no attribute 'values'")

abbrev pub counts_of : Option Value → Result (ℕ × ℕ)
counts_of none = ok (0, 0)
counts_of (some payload) = counts_in payload

-- A file that is missing or holds no JSON gives no devices.
unfoldable pub read_device_counts : Json → Option String → Result (ℕ × ℕ)
read_device_counts J none = ok (0, 0)
read_device_counts J (some text) = counts_of (J.loads text)
