-- ===== src/Upload/Steps.antt =====
-- `flush_pending_batch`, one transaction of the database at a time: the lock is free between two
-- marks and while the request is under way, so other threads use the table in between.
use bbjsensescada.Common.{List, [], ◌∷◌, ◌++◌, String}
use bbjsensescada.Python.{Result, ok, err, request_error}
use bbjsensescada.Python.Value.{Value}
use bbjsensescada.Queue.{Table, Message, get_pending_messages, mark_message_failed}
use bbjsensescada.Upload.Defs.{
  Cloud, Class, valid, invalid, raises, classify, Batch, Pair, items_of, rejected_pairs,
  is_rejected, mark_one, batch_flush_size,
}

-- Where a round is: the messages that are still to be classified and the batch so far, the batch that
-- is to be posted, or the part of it that is still to be marked.
pub data Round : Type 0 where
  resting : Round
  collecting : List Message → Batch → Round
  marking : List Pair → Batch → Round
  unsending : String → Batch → Round

abbrev pub At : Type 0
At = Table × Round

abbrev pub on_class : Cloud → String → List Message → Batch → Table → Class → At
on_class C m ms vs t (valid i) = (t, collecting ms (vs ++ (m, i) ∷ []))
on_class C m ms vs t (invalid e) = (mark_message_failed (C.clock m) m e t, collecting ms vs)
on_class C m ms vs t (raises e) = (t, resting)

abbrev pub on_pairs : Batch → Result (List Pair) → Round
on_pairs vs (ok pairs) = marking pairs vs
on_pairs vs (err e) = resting

abbrev pub on_reply : Batch → Result Value → Round
on_reply vs (ok result) = on_pairs vs (rejected_pairs result)
on_reply vs (err (request_error s)) = unsending s vs
on_reply vs (err e) = resting

-- The next thing that the round does.
unfoldable pub round_step : Cloud → At → At
unfolding classify rejected_pairs get_pending_messages
round_step C (t, resting) = (t, collecting (get_pending_messages C.json batch_flush_size t) [])
round_step C (t, collecting (m ∷ ms) vs) =
    on_class C m.row.message_id ms vs t (classify C.arithmetic C.repr m.payload)
round_step C (t, collecting [] []) = (t, resting)
round_step C (t, collecting [] (v ∷ vs)) = (t, on_reply (v ∷ vs) (C.post (items_of (v ∷ vs))))
round_step C (t, marking pairs []) = (t, resting)
round_step C (t, marking pairs ((m, i) ∷ vs)) =
    (mark_one C m (is_rejected pairs i) t, marking pairs vs)
round_step C (t, unsending error []) = (t, resting)
round_step C (t, unsending error ((m, i) ∷ vs)) =
    (mark_message_failed (C.clock m) m error t, unsending error vs)
