-- ===== src/Poller/Readings.antt =====
-- What `process_tag` saves of a tag.
use mathlib.Core.Option.{some-injective}
use mathlib.Core.List.{append-nil, append_assoc}
use bbjsensescada.Common.{
  ◌≡◌, refl, sym, ◌∙◌, ap, inl, inr, ◌↔◌, true, false, List, [], ◌∷◌, ◌++◌, Option, none, some,
  String, contains, ==_iff, string_eq, arith, Bool-cases,
}
use bbjsensescada.Common.Int.{ℤ, pos, int_eq, pair_eq, fits_int64}
use bbjsensescada.Common.Dict.{lookup, insert, lookup-insert}
use bbjsensescada.Python.{ok, ◌>>=◌, bind_ok, ok-injective, Result-cases}
use bbjsensescada.Python.Float.{Float, is_finite, is_nan}
use bbjsensescada.Python.Value.{Value, item, to_int}
use bbjsensescada.Queue.{Table, message_ids, enqueue_telemetry, refusal}
use bbjsensescada.Queue.Invariant.{Operation, enqueue, perform, IsValid, perform-IsValid}
use bbjsensescada.Queue.Abstract.{waiting, waiting-perform, accepted}
use bbjsensescada.Alarms.{Reading, Readings, reading_for, record_latest_reading}
use bbjsensescada.Modbus.{Settings, Client, connection_of, int_or}
use bbjsensescada.Poller.Defs.{
  Driver, good, quality_in, below, above, limit_of, Sample, sample_of, measure, Stores, saved,
  save_telemetry, process_tag, limited, final_value_of, read_modbus_registers, quality_text,
  queued_reading, recorded, or_stores,
}

-- The value passes both limits; an absent limit passes, and so does a limit that is NaN.
abbrev pub Within : Option Float → Option Float → Float → Type 0
Within minimum maximum x = (below x minimum ≡ false) × (above x maximum ≡ false)

quality_in-Within : (lo hi : Option Float) (x : Float) → quality_in lo hi x ≡ good ↔ Within lo hi x
unfolding quality_in
quality_in-Within lo hi x = ground arith

-- What a saved sample is: finite, and good exactly if it is within the limits of the tag.
abbrev pub IsSample : Settings → Value → Sample → Type 0
IsSample S tag s =
    (is_finite s.value ≡ true)
    × (lo : Option Float) × (hi : Option Float) × (limit_of S "minimum_value" tag ≡ ok lo)
    × (limit_of S "maximum_value" tag ≡ ok hi)
    × (s.quality ≡ good ↔ Within lo hi s.value)

limited-IsSample :
    (S : Settings) (d t : ℤ) (tag : Value) (x : Float) (s : Sample)
    → is_finite x ≡ true
    → limited S d t tag x ≡ ok (some s)
    → IsSample S tag s
limited-IsSample S d t tag x s fin h =
    let (lo, has_lo, rest) = bind_ok (limit_of S "minimum_value" tag) _ h in
    let (hi, has_hi, ends) = bind_ok (limit_of S "maximum_value" tag) _ rest in
    let made = some-injective _ _ (ok-injective ends) in
    let same : x ≡ s.value = ap (λ (r : Sample). r.value) made in
    let graded : quality_in lo hi x ≡ s.quality = ap (λ (r : Sample). r.quality) made in
    (cc (fin, same), lo, hi, has_lo, has_hi, rw (sym graded, sym same) (quality_in-Within lo hi x))

sample_of-IsSample :
    (S : Settings) (d t : ℤ) (tag : Value) (x : Float) (s : Sample)
    → sample_of S d t tag x ≡ ok (some s)
    → IsSample S tag s
unfolding sample_of
sample_of-IsSample S d t tag x s h = elim (Bool-cases (is_finite x)) [
  | inr bad ↦ let skipped : ok none ≡ ok (some s) = rw bad at h in cc
  | inl fin ↦ limited-IsSample S d t tag x s fin (rw fin at h)
]

-- A sample that a tag's registers give is finite, and its quality is good exactly if its value is
-- not below the tag's minimum nor above its maximum, where these are set.
pub measure-IsSample :
    (S : Settings) (D : Driver) (c : Client) (device tag : Value) (s : Sample)
    → measure S D c device tag ≡ ok (some s)
    → IsSample S tag s
unfolding measure
measure-IsSample S D c device tag s h =
    let (d, _, h1) = bind_ok (item "id" device >>= to_int) _ h in
    let (t, _, h2) = bind_ok (item "id" tag >>= to_int) _ h1 in
    let (connection, _, h3) = bind_ok (connection_of device) _ h2 in
    let (slave_id, _, h4) = bind_ok (int_or "slave_id" (pos 1) connection) _ h3 in
    let (regs, _, h5) = bind_ok (read_modbus_registers D c tag slave_id) _ h4 in
    let (x, _, h6) = bind_ok (final_value_of S tag regs) (sample_of S d t tag) h5 in
    sample_of-IsSample S d t tag x s h6

-- A finite float is a number, so SQLite does not store it as NULL.
finite_number : (x : Float) → is_finite x ≡ true → is_nan x ≡ false
unfolding is_finite is_nan
finite_number x h = ground arith

-- What a reading that is saved leaves behind: its message waits last, and it is the latest reading.
abbrev pub Joins : Driver → Sample → Stores → Stores → Type 0
Joins D s before after =
    (waiting after.queue ≡ waiting before.queue ++ D.message_id before.queue.next_id ∷ [])
    × (reading_for s.device_id s.tag_id after.evaluator.latest_readings
        ≡ some (record {
          value = s.value;
          quality = quality_text s.quality;
          timestamp = D.micros before.queue.next_id;
        }))

-- The INSERT that `save_telemetry` asks for.
abbrev pub insertion : Driver → Sample → Table → Operation
insertion D s t =
    enqueue D.json (D.message_id t.next_id) (D.utc t.next_id) (queued_reading D s t.next_id)

latest : (k : ℤ × ℤ) (r : Reading) (d : Readings) → lookup k (insert k r d) ≡ some r
latest k r d = lookup-insert k k r d ∙ rw ((==_iff k k).1 refl)

-- The ids fit a column and the message id is new.
pub record Storable (D : Driver) (s : Sample) (t : Table) : Type 0 where
  pub device_fits : fits_int64 s.device_id ≡ true
  pub tag_fits : fits_int64 s.tag_id ≡ true
  pub fresh : contains (message_ids t.rows) (D.message_id t.next_id) ≡ false

taken :
    (D : Driver) (s : Sample) (t : Table)
    → Storable D s t
    → is_nan s.value ≡ false
    → refusal (D.message_id t.next_id) (queued_reading D s t.next_id) t ≡ none
unfolding refusal
taken D s t h number = rw (h.device_fits, h.tag_fits, h.fresh, number)

save_telemetry-Joins :
    (D : Driver) (s : Sample) (st : Stores)
    → Storable D s st.queue
    → is_nan s.value ≡ false
    → (after : Stores) × (save_telemetry D s st ≡ ok after) × Joins D s st after
unfolding save_telemetry enqueue_telemetry record_latest_reading perform
save_telemetry-Joins D s st storable number =
    let new = taken D s st.queue storable number in
    (
      recorded D s st st.queue.next_id (perform (insertion D s st.queue) st.queue),
      rw new,
      (
        waiting-perform (insertion D s st.queue) st.queue ∙ rw new,
        latest (s.device_id, s.tag_id) _ st.evaluator.latest_readings,
      ),
    )

-- A poll of a tag whose registers give a sample always queues it, whatever its value and quality: if
-- the device and tag ids fit 64 bits and its new message id is not in the table, `process_tag`
-- returns, the message waits after all others, and the evaluator's latest reading of the tag is the
-- sample.
pub process_tag-Joins :
    (S : Settings) (D : Driver) (c : Client) (device tag : Value) (st : Stores) (s : Sample)
    → measure S D c device tag ≡ ok (some s)
    → Storable D s st.queue
    → (after : Stores) × (process_tag S D c device tag st ≡ ok after) × Joins D s st after
unfolding process_tag
process_tag-Joins S D c device tag st s h storable = rw h (
    save_telemetry-Joins D s st storable
      (finite_number s.value (measure-IsSample S D c device tag s h).0))

-- To the queue, a poll of a tag is one INSERT or nothing.
save_telemetry-queue :
    (D : Driver) (s : Sample) (st : Stores)
    → (or_stores st (save_telemetry D s st)).queue ≡ perform (insertion D s st.queue) st.queue
unfolding save_telemetry perform
save_telemetry-queue D s st =
    let n = st.queue.next_id in
    elim (Result-cases
      (enqueue_telemetry D.json (D.message_id n) (D.utc n) (queued_reading D s n) st.queue)) [
        | inl (r, made) ↦ rw made
        | inr (e, refused) ↦ rw refused
      ]

-- The queue of a later time: valid if it was, with messages added after those that waited.
pub record Grows (t u : Table) : Type 0 where
  pub valid : IsValid t → IsValid u
  pub added : List String
  pub joined : waiting u ≡ waiting t ++ added

pub Grows-refl : (t : Table) → Grows t t
Grows-refl t = record { valid = λ v. v; added = []; joined = sym (append-nil (waiting t)) }

pub Grows-trans : (s t u : Table) → Grows s t → Grows t u → Grows s u
Grows-trans s t u g h = record {
  valid = λ v. h.valid (g.valid v);
  added = g.added ++ h.added;
  joined = h.joined ∙ rw (g.joined) (append_assoc (waiting s) g.added h.added);
}

-- A valid queue, with messages added after those that waited.
pub record IsLonger (t u : Table) : Type 0 where
  pub valid : IsValid u
  pub added : List String
  pub joined : waiting u ≡ waiting t ++ added

pub Grows-IsLonger : (t u : Table) → Grows t u → IsValid t → IsLonger t u
Grows-IsLonger t u g v = record { valid = g.valid v; added = g.added; joined = g.joined }

-- Either branch of the constraints adds at most one message.
insertion-Grows : (D : Driver) (s : Sample) (t : Table) → Grows t (perform (insertion D s t) t)
insertion-Grows D s t = elim (Bool-cases (accepted (insertion D s t) t)) [
  | inl taken ↦ record {
    valid = perform-IsValid (insertion D s t) t;
    added = D.message_id t.next_id ∷ [];
    joined = rw (waiting-perform (insertion D s t) t, taken);
  }
  | inr refused ↦ record {
    valid = perform-IsValid (insertion D s t) t;
    added = [];
    joined = rw (waiting-perform (insertion D s t) t, refused) (sym (append-nil (waiting t)));
  }
]

saved-Grows :
    (D : Driver) (st : Stores) (o : Option Sample)
    → Grows st.queue (or_stores st (saved D st o)).queue
saved-Grows D st none = Grows-refl st.queue
saved-Grows D st (some s) = rw (save_telemetry-queue D s st) (insertion-Grows D s st.queue)

pub process_tag-Grows :
    (S : Settings) (D : Driver) (c : Client) (device tag : Value) (st : Stores)
    → Grows st.queue (or_stores st (process_tag S D c device tag st)).queue
unfolding process_tag
process_tag-Grows S D c device tag st = elim (Result-cases (measure S D c device tag)) [
  | inl (o, made) ↦ rw made (saved-Grows D st o)
  | inr (e, raised) ↦ rw raised (Grows-refl st.queue)
]
