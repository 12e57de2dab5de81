-- ===== src/Queue/Abstract.antt =====
-- The table as a first-in first-out queue of message ids: what the uploader relies on.
use Prim.Native.Nat.{min, max}
use mathlib.Core.List.{map-append}
use bbjsensescada.Common.{
  ℕ, suc, ◌≤◌, ◌≡◌, refl, ap, ◌∙◌, Bool, true, false, not, List, [], ◌∷◌, ◌++◌, map, Option, none,
  some, String, filter, ◌==◌, string_eq, if◌then◌else◌, arith, Option-cases, inl, inr, length, take,
  ltb, length-take, length-map, filter-append, zero,
}
use bbjsensescada.Common.Int.{ℤ, pos, negsuc}
use bbjsensescada.Python.{Error}
use bbjsensescada.Queue.Defs.{
  Row, Table, is_pending, pending_rows, message_ids, enqueue_telemetry, mark_message_sent,
  mark_message_failed, delete_sent_messages, refusal, Json, as_sent, as_failed, is_deleted, Message,
  get_pending_messages, count_pending_messages, safe_limit, to_message,
}
use bbjsensescada.Queue.Invariant.{Operation, enqueue, mark_sent, mark_failed, delete_sent, perform}

-- The abstract queue: the messages that wait for upload, oldest first.
abbrev pub waiting : Table → List String
waiting t = message_ids (pending_rows t)

abbrev pub without : String → List String → List String
without m = filter (λ k. not (k == m))

abbrev unrefused : Option Error → Bool
unrefused none = true
unrefused (some e) = false

-- What the constraints of the table say to an operation.
abbrev pub accepted : Operation → Table → Bool
accepted (enqueue J m now r) t = unrefused (refusal m r t)
accepted _ t = true

-- The specification: a queue that knows nothing of rows.
abbrev pub queue_after : Bool → Operation → List String → List String
queue_after true (enqueue J m now r) q = q ++ m ∷ []
queue_after false (enqueue J m now r) q = q
queue_after _ (mark_sent now m) q = without m q
queue_after _ (mark_failed now m e) q = q
queue_after _ (delete_sent k) q = q

waiting-sent :
    (now m : String) (rs : List Row)
    → message_ids (filter is_pending (map (λ r. if r.message_id == m then as_sent now r else r) rs))
      ≡ without m (message_ids (filter is_pending rs))
waiting-sent now m [] = refl
waiting-sent now m (r ∷ rs) = ground (arith, waiting-sent now m rs)

waiting-failed :
    (now m e : String) (rs : List Row)
    → message_ids
        (filter is_pending (map (λ r. if r.message_id == m then as_failed now e r else r) rs))
      ≡ message_ids (filter is_pending rs)
waiting-failed now m e [] = refl
waiting-failed now m e (r ∷ rs) = ground (arith, waiting-failed now m e rs)

pub pending-not_deleted :
    (kept : List ℕ) (rs : List Row)
    → filter is_pending (filter (λ r. not (is_deleted kept r)) rs) ≡ filter is_pending rs
pending-not_deleted kept [] = refl
pending-not_deleted kept (r ∷ rs) = ground (arith, pending-not_deleted kept rs)

-- Every operation on the table is, to the queue of waiting messages, the operation of the
-- specification: an accepted reading joins at the end, `mark_message_sent` removes its message, and
-- refused readings, failure marks and the deletion of sent rows change nothing.
pub waiting-perform :
    (o : Operation) (t : Table) → waiting (perform o t) ≡ queue_after (accepted o t) o (waiting t)
unfolding perform mark_message_sent mark_message_failed delete_sent_messages enqueue_telemetry
waiting-perform (enqueue J m now r) t = elim (Option-cases (refusal m r t)) [
  | inr (e, refused) ↦ rw refused
  | inl taken ↦ rw taken (rw (filter-append, map-append))
]
waiting-perform (mark_sent now m) t = waiting-sent now m t.rows
waiting-perform (mark_failed now m e) t = waiting-failed now m e t.rows
waiting-perform (delete_sent k) t = ap message_ids (pending-not_deleted _ t.rows)

abbrev pub batch_ids : List Message → List String
batch_ids = map (λ (x : Message). x.row.message_id)

batch_ids-to_message :
    (J : Json) (n : ℕ) (rs : List Row)
    → batch_ids (map (to_message J) (take n rs)) ≡ take n (message_ids rs)
batch_ids-to_message J zero rs = refl
batch_ids-to_message J (suc n) [] = refl
batch_ids-to_message J (suc n) (r ∷ rs) = rw (batch_ids-to_message J n rs)

-- The limit that is meant: the given one, but at least 1 and at most 1000.
abbrev pub limited : ℤ → ℕ
limited (pos n) = max 1 (min n 1000)
limited (negsuc n) = 1

clamped : (n : ℕ) → (if ltb n 1 then 1 else if ltb 1000 n then 1000 else n) ≡ max 1 (min n 1000)
clamped n = ground arith

safe_limit-limited : (limit : ℤ) → safe_limit limit ≡ limited limit
safe_limit-limited (pos n) = clamped n
safe_limit-limited (negsuc n) = refl

limited_bounds : (limit : ℤ) → (1 ≤ limited limit) × (limited limit ≤ 1000)
limited_bounds (pos n) = (omega arith, omega arith)
limited_bounds (negsuc n) = omega arith

rows-to_message :
    (J : Json) (n : ℕ) (rs : List Row)
    → map (λ (x : Message). x.row) (map (to_message J) (take n rs)) ≡ take n rs
rows-to_message J zero rs = refl
rows-to_message J (suc n) [] = refl
rows-to_message J (suc n) (r ∷ rs) = rw (rows-to_message J n rs) refl

-- For every limit, zero and negative ones included, `get_pending_messages` returns the pending rows
-- that were stored first, in the order in which they were stored: with the limit raised to 1 and cut
-- to 1000, exactly as many as the limit, or all of them when fewer are pending; so at most 1000, and
-- at least one when any is pending.
pub get_pending_messages-prefix :
    (J : Json) (limit : ℤ) (t : Table)
    → (map (λ (x : Message). x.row) (get_pending_messages J limit t)
        ≡ take (limited limit) (filter is_pending t.rows))
      × (length (get_pending_messages J limit t) ≡ min (limited limit) (count_pending_messages t))
      × (1 ≤ limited limit)
      × (limited limit ≤ 1000)
unfolding get_pending_messages count_pending_messages
get_pending_messages-prefix J limit t =
    let bounds = limited_bounds limit in
    let same = safe_limit-limited limit in
    (
      rows-to_message J (safe_limit limit) (pending_rows t)
          ∙ ap (λ n. take n (pending_rows t)) same,
      length-map (to_message J) (take (safe_limit limit) (pending_rows t))
          ∙ length-take (safe_limit limit) (pending_rows t)
          ∙ ap (λ n. min n (length (pending_rows t))) same,
      bounds.0,
      bounds.1,
    )

pub waiting-mark_failed :
    (now m e : String) (t : Table) → waiting (mark_message_failed now m e t) ≡ waiting t
unfolding mark_message_failed
waiting-mark_failed now m e t = waiting-failed now m e t.rows

pub waiting-mark_sent :
    (now m : String) (t : Table) → waiting (mark_message_sent now m t) ≡ without m (waiting t)
unfolding mark_message_sent
waiting-mark_sent now m t = waiting-sent now m t.rows
