-- ===== src/Examples/Buffering.antt =====
-- The queue, its upload and the history.
use mathlib.Core.List.{foldl, Perm}
use Prim.Native.Nat.{min}
use bbjsensescada.Common.Int.{int_eq}
use bbjsensescada.Python.Value.{truthy}
use bbjsensescada.Upload.{rejected_pairs}
use bbjsensescada.Python.Value.{to_float}
use bbjsensescada.Python.Value.{to_int}
use bbjsensescada.Upload.{classify}
use bbjsensescada.Common.{map, All, ◌++◌, string_eq}
use bbjsensescada.Python.Float.{is_nan}
use bbjsensescada.Queue.{Message, refusal}
use bbjsensescada.Queue.{Message, enqueue_telemetry}
use bbjsensescada.Queue.{Message, mark_message_sent}
use bbjsensescada.Queue.{Message, mark_message_failed}
use bbjsensescada.Common.{
  ℕ, zero, suc, ◌+◌, ◌≤◌, drop, ◌*◌, ◌≡◌, refl, arith, List, [], ◌∷◌, String, take, length,
}
use bbjsensescada.Common.Int.{pos, negsuc}
use bbjsensescada.Python.{ok}
use bbjsensescada.Python.Value.{Value, obj, field, end, arr, nil, cons, int}
use bbjsensescada.Queue.{
  Message, Row, Table, new_table, get_pending_messages, count_pending_messages,
  delete_sent_messages, pending_rows, count_all_messages, non_negative, new_row,
}
use bbjsensescada.Queue.Invariant.{
  Operation, enqueue, mark_sent, mark_failed, perform, IsValid, foldl-perform-IsValid,
}
use bbjsensescada.Queue.Abstract.{
  waiting, waiting-perform, accepted, queue_after, get_pending_messages-prefix,
}
use bbjsensescada.Queue.Retention.{sent_rows, newest, delete_sent_messages-keeps}
use bbjsensescada.Upload.{Cloud, flush_pending_batch}
use bbjsensescada.Upload.Delivery.{delivered, all_but, waiting-flush_pending_batch}
use bbjsensescada.Upload.Drain.{rounds, TakesAll, waiting-rounds}
use bbjsensescada.Upload.Starvation.{round, turns, stored, turns-starve}
use bbjsensescada.Historian
use bbjsensescada.Historian.{History, matches, get_recent_readings}
use bbjsensescada.Historian.Recent.{Sorted, IsAsked, get_recent_readings-lem}
use bbjsensescada.Examples.Inputs.{repr, arithmetic, json, reading, fifty}

-- Three readings, of which the first is uploaded and the second fails once.
abbrev day : List Operation
day =
    enqueue json "a" "t1" reading
    ∷ enqueue json "b" "t2" reading
    ∷ enqueue json "c" "t3" reading
    ∷ mark_sent "t4" "a"
    ∷ mark_failed "t5" "b" "timeout"
    ∷ []

abbrev stored_day : Table
stored_day = foldl (λ t o. perform o t) new_table day

waiting_day : waiting stored_day ≡ "b" ∷ "c" ∷ []
unfolding perform mark_message_failed mark_message_sent enqueue_telemetry refusal is_nan string_eq
waiting_day = refl

day-IsValid : IsValid stored_day
day-IsValid = foldl-perform-IsValid day

waiting-perform_example :
    waiting (perform (enqueue json "b" "t6" reading) stored_day)
    ≡ queue_after
        (accepted (enqueue json "b" "t6" reading) stored_day)
        (enqueue json "b" "t6" reading)
        (waiting stored_day)
waiting-perform_example = waiting-perform (enqueue json "b" "t6" reading) stored_day

get_pending_messages-prefix_example :
    (map (λ (x : Message). x.row) (get_pending_messages json (negsuc 4) stored_day)
      ≡ take 1 (pending_rows stored_day))
    × (length (get_pending_messages json (negsuc 4) stored_day)
        ≡ min 1 (count_pending_messages stored_day))
    × (1 ≤ 1)
    × (1 ≤ 1000)
get_pending_messages-prefix_example = get_pending_messages-prefix json (negsuc 4) stored_day

delete_sent_messages-keeps_example :
    let (deleted, t') = delete_sent_messages (pos 0) stored_day in
    (pending_rows t' ≡ pending_rows stored_day)
    × (sent_rows t' ≡ newest (non_negative (pos 0)) (sent_rows stored_day))
    × (deleted + count_all_messages t' ≡ count_all_messages stored_day)
delete_sent_messages-keeps_example = delete_sent_messages-keeps (pos 0) stored_day day-IsValid

-- A cloud that knows no device 1: {"rejected": [{"device_id": 1, "tag_id": 2}]}.
abbrev rejection : Value
rejection = obj (
    field "rejected"
      (arr (cons (obj (field "device_id" (int (pos 1)) (field "tag_id" (int (pos 2)) end))) nil))
      end)

abbrev rejecting : Cloud
rejecting = record {
  json = json;
  arithmetic = arithmetic;
  repr = repr;
  post = λ items. ok rejection;
  clock = λ m. "now";
}

abbrev accepting : Cloud
accepting = record rejecting { post = λ items. ok (obj end) }

waiting-flush_pending_batch_example :
    waiting (flush_pending_batch accepting stored_day).0
    ≡ all_but (delivered accepting stored_day) (waiting stored_day)
waiting-flush_pending_batch_example = waiting-flush_pending_batch accepting stored_day

-- Two messages of the day are uploaded, and the queue is empty.
delivered_day : delivered accepting stored_day ≡ "b" ∷ "c" ∷ []
unfolding delivered perform get_pending_messages mark_message_failed mark_message_sent
    enqueue_telemetry refusal is_nan string_eq classify to_int to_float rejected_pairs
delivered_day = refl

-- Messages with different ids.
name : ℕ → String
name zero = String.[]
name (suc n) = String.◌∷◌ "a" (name n)

messages_from : ℕ → ℕ → List Row
messages_from id zero = []
messages_from id (suc n) = new_row json (name id) "t1" reading id ∷ messages_from (suc id) n

-- 500 messages of a device that the cloud does not know.
full : Table
full = record { rows = messages_from 1 500; next_id = 501 }

nothing_taken : delivered rejecting full ≡ []
unfolding full messages_from delivered get_pending_messages classify string_eq to_int to_float
    rejected_pairs truthy int_eq
nothing_taken = refl

many_wait : 500 ≤ count_pending_messages full
unfolding full messages_from count_pending_messages
many_wait = omega arith

turns-starve_example :
    (take 500 (stored (turns rejecting (round ∷ []) full)) ≡ take 500 (stored full))
    × (delivered rejecting (turns rejecting (round ∷ []) full) ≡ [])
turns-starve_example = turns-starve rejecting (round ∷ []) full many_wait nothing_taken

abbrev past : ℕ → String → Historian.Row
past id time = record {
  id = id;
  device_id = pos 1;
  tag_id = pos 2;
  value = fifty;
  quality = "good";
  source_timestamp = time;
  created_at = time;
}

abbrev history : History
history = record {
  rows = past 1 "2026-08-07T10:00" ∷ past 2 "2025-01-01T00:00" ∷ past 3 "2026-08-07T09:00" ∷ [];
  next_id = 4;
}

get_recent_readings-lem_example :
    Sorted (get_recent_readings (pos 1) (pos 2) "2026" history)
    × All (IsAsked (pos 1) (pos 2) "2026") (get_recent_readings (pos 1) (pos 2) "2026" history)
    × ((others : List Historian.Row) × All (λ r. ¬ IsAsked (pos 1) (pos 2) "2026" r) others
        × Perm (get_recent_readings (pos 1) (pos 2) "2026" history ++ others) history.rows)
get_recent_readings-lem_example = get_recent_readings-lem (pos 1) (pos 2) "2026" history

recent_day :
    get_recent_readings (pos 1) (pos 2) "2026" history
    ≡ past 3 "2026-08-07T09:00" ∷ past 1 "2026-08-07T10:00" ∷ []
unfolding get_recent_readings Historian.sort_by_time int_eq Historian.insert_by_time
recent_day = refl

all_taken : TakesAll accepting 1 stored_day
unfolding perform mark_message_failed mark_message_sent enqueue_telemetry refusal is_nan string_eq
all_taken = (delivered_day, tt)

waiting-rounds_example :
    waiting (rounds accepting 1 stored_day) ≡ drop (500 * 1) (waiting stored_day)
waiting-rounds_example = waiting-rounds accepting 1 stored_day day-IsValid all_taken
