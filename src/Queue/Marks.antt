-- ===== src/Queue/Marks.antt =====
-- What the operations on the table do to its rows, one by one.
use bbjsensescada.Common.{suc, ◌≡◌, Bool, true, false, List, [], ◌∷◌, ◌==◌, string_eq}
use bbjsensescada.Queue.Defs.{Row, pending, sent}
use bbjsensescada.Queue.Invariant.{Operation, enqueue, mark_sent, mark_failed, delete_sent}

-- The same stored reading, whatever has become of its upload.
pub record SameReading (r q : Row) : Type 0 where
  pub same_id : q.id ≡ r.id
  pub same_message : q.message_id ≡ r.message_id
  pub same_device : q.device_id ≡ r.device_id
  pub same_tag : q.tag_id ≡ r.tag_id
  pub same_value : q.value ≡ r.value
  pub same_quality : q.quality ≡ r.quality
  pub same_timestamp : q.source_timestamp ≡ r.source_timestamp
  pub same_payload : q.payload_json ≡ r.payload_json

-- A row that an operation may leave as it is: not the one that it marks.
abbrev pub Spares : Operation → Row → Type 0
Spares (mark_sent now m) r = (r.message_id == m) ≡ false
Spares (mark_failed now m e) r = (r.message_id == m) ≡ false
Spares _ r = Unit {0}

-- What a mark makes of the row that it names.
abbrev pub Marks : Operation → Row → Row → Type 0
Marks (mark_sent now m) r q =
    (r.message_id ≡ m) × SameReading r q × (q.status ≡ sent) × (q.attempts ≡ r.attempts)
Marks (mark_failed now m e) r q =
    (r.message_id ≡ m) × SameReading r q × (q.status ≡ r.status) × (q.attempts ≡ suc r.attempts)
Marks _ r q = ⊥

-- A row that an operation may delete.
abbrev pub Deletes : Operation → Row → Type 0
Deletes (delete_sent k) r = r.status ≡ sent
Deletes _ r = ⊥

-- The row that an operation adds: the given reading, not yet tried.
abbrev pub Adds : Operation → Row → Type 0
Adds (enqueue J m now given) r =
    (r.message_id ≡ m)
    × (r.device_id ≡ given.device_id)
    × (r.tag_id ≡ given.tag_id)
    × (r.value ≡ given.value)
    × (r.quality ≡ given.quality)
    × (r.status ≡ pending)
    × (r.attempts ≡ 0)
Adds _ r = ⊥

-- An operation that need not add a row: all but an accepted reading.
abbrev pub AddsNone : Operation → Bool → Type 0
AddsNone (enqueue J m now r) true = ⊥
AddsNone (enqueue J m now r) false = Unit {0}
AddsNone o taken = Unit {0}

-- The rows before and after, in their order.
pub data Evolves (o : Operation) (taken : Bool) : List Row → List Row → Type 0 where
  ended : AddsNone o taken → Evolves o taken [] []
  added : (r : Row) → Adds o r → Evolves o taken [] (r ∷ [])
  spared :
      (r : Row) (rs qs : List Row)
      → Spares o r
      → Evolves o taken rs qs
      → Evolves o taken (r ∷ rs) (r ∷ qs)
  marked :
      (r q : Row) (rs qs : List Row)
      → Marks o r q
      → Evolves o taken rs qs
      → Evolves o taken (r ∷ rs) (q ∷ qs)
  deleted :
      (r : Row) (rs qs : List Row)
      → Deletes o r
      → Evolves o taken rs qs
      → Evolves o taken (r ∷ rs) qs
