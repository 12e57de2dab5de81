-- ===== src/Upload/Delivery.antt =====
-- What a round does to the waiting messages.
use mathlib.Core.Path.{ap₂}
use bbjsensescada.Common.{
  ◌≡◌, refl, sym, ap, ◌∙◌, Bool, true, false, not, List, [], ◌∷◌, String, filter, contains,
  string_eq, if◌then◌else◌, arith,
}
use bbjsensescada.Python.{Result, ok, err, request_error, ◌>>=◌}
use bbjsensescada.Python.Value.{Value}
use bbjsensescada.Queue.{Table, Message, get_pending_messages, mark_message_failed}
use bbjsensescada.Queue.Abstract.{waiting, without, waiting-mark_failed, waiting-mark_sent}
use bbjsensescada.Upload.Defs.{
  Cloud, Class, valid, invalid, raises, classify, Batch, Pair, collect, rejected_pairs, is_rejected,
  mark_one, mark_answered, mark_unsent, answered, posted, upload, items_of, batch_flush_size,
  flush_pending_batch, collect_one, first_of_batch,
}

abbrev pub valid_one : String → Class → Result Batch → Result Batch
valid_one m (valid i) rest = first_of_batch (m, i) rest
valid_one m (invalid e) rest = rest
valid_one m (raises e) rest = err e

-- The valid messages of a batch, or the exception that stops the round.
unfoldable pub valid_of : Cloud → List Message → Result Batch
valid_of C [] = ok []
valid_of C (m ∷ ms) =
    valid_one m.row.message_id (classify C.arithmetic C.repr m.payload) (valid_of C ms)

abbrev pub accepted_ids : List Pair → Batch → List String
accepted_ids pairs [] = []
accepted_ids pairs ((m, i) ∷ vs) =
    if is_rejected pairs i then accepted_ids pairs vs else m ∷ accepted_ids pairs vs

abbrev pub accepted_by : Batch → Result (List Pair) → List String
accepted_by vs (ok pairs) = accepted_ids pairs vs
accepted_by vs (err e) = []

abbrev pub delivered_of : Cloud → Result Batch → List String
delivered_of C (ok []) = []
delivered_of C (ok (v ∷ vs)) = accepted_by (v ∷ vs) (C.post (items_of (v ∷ vs)) >>= rejected_pairs)
delivered_of C (err e) = []

-- The messages that the cloud took in a round: those of the batch with valid fields whose device and
-- tag the response does not list as rejected; none if the request or the response failed.
unfoldable pub delivered : Cloud → Table → List String
unfolding valid_of
delivered C t = delivered_of C (valid_of C (get_pending_messages C.json batch_flush_size t))

-- The waiting messages stay, and the outcome is that of `valid_of`.
abbrev pub Collects : Cloud → Table → Table × Result Batch → Result Batch → Type 0
Collects C t out r = (waiting out.0 ≡ waiting t) × (out.1 ≡ r)

collect_one-Collects :
    (C : Cloud) (m : String) (c : Class) (rest : Table → Table × Result Batch) (r : Result Batch)
    → ((t : Table) → Collects C t (rest t) r)
    → (t : Table) → Collects C t (collect_one C m c rest t) (valid_one m c r)
collect_one-Collects C m (valid i) rest r h t = ((h t).0, ap (first_of_batch (m, i)) (h t).1)
collect_one-Collects C m (invalid e) rest r h t =
    let t' = mark_message_failed (C.clock m) m e t in
    ((h t').0 ∙ waiting-mark_failed (C.clock m) m e t, (h t').1)
collect_one-Collects C m (raises e) rest r h t = (refl, refl)

pub collect-Collects :
    (C : Cloud) (ms : List Message) (t : Table) → Collects C t (collect C ms t) (valid_of C ms)
unfolding collect valid_of
collect-Collects C [] t = (refl, refl)
collect-Collects C (m ∷ ms) t =
    collect_one-Collects C m.row.message_id _ (collect C ms) (valid_of C ms) (collect-Collects C ms)
      t

-- The messages that are not in a list.
abbrev pub all_but : List String → List String → List String
all_but gone = filter (λ m. not (contains gone m))

pub all_but-nil : (q : List String) → all_but [] q ≡ q
all_but-nil [] = refl
all_but-nil (m ∷ q) = ap (λ r. m ∷ r) (all_but-nil q)

all_but-cons :
    (m : String) (gone q : List String) → all_but gone (without m q) ≡ all_but (m ∷ gone) q
all_but-cons m gone [] = refl
all_but-cons m gone (k ∷ q) = ground (arith, all_but-cons m gone q)

waiting-mark_one :
    (C : Cloud) (m : String) (rejected : Bool) (gone : List String) (t : Table)
    → all_but gone (waiting (mark_one C m rejected t))
      ≡ all_but (if rejected then gone else m ∷ gone) (waiting t)
waiting-mark_one C m true gone t = ap (all_but gone) (waiting-mark_failed (C.clock m) m _ t)
waiting-mark_one C m false gone t =
    ap (all_but gone) (waiting-mark_sent (C.clock m) m t) ∙ all_but-cons m gone (waiting t)

waiting-mark_answered :
    (C : Cloud) (pairs : List Pair) (vs : Batch) (t : Table)
    → waiting (mark_answered C pairs vs t) ≡ all_but (accepted_ids pairs vs) (waiting t)
unfolding mark_answered
waiting-mark_answered C pairs [] t = sym (all_but-nil (waiting t))
waiting-mark_answered C pairs ((m, i) ∷ vs) t =
    waiting-mark_answered C pairs vs (mark_one C m (is_rejected pairs i) t)
    ∙ waiting-mark_one C m (is_rejected pairs i) (accepted_ids pairs vs) t

waiting-mark_unsent :
    (C : Cloud) (e : String) (vs : Batch) (t : Table) → waiting (mark_unsent C e vs t) ≡ waiting t
unfolding mark_unsent
waiting-mark_unsent C e [] t = refl
waiting-mark_unsent C e ((m, i) ∷ vs) t = waiting-mark_unsent C e vs _ ∙ waiting-mark_failed _ m e t

waiting-answered :
    (C : Cloud) (vs : Batch) (t : Table) (r : Result (List Pair))
    → waiting (answered C vs t r).0 ≡ all_but (accepted_by vs r) (waiting t)
unfolding answered
waiting-answered C vs t (ok pairs) = waiting-mark_answered C pairs vs t
waiting-answered C vs t (err e) = sym (all_but-nil (waiting t))

waiting-posted :
    (C : Cloud) (vs : Batch) (t : Table) (r : Result Value)
    → waiting (posted C vs t r).0 ≡ all_but (accepted_by vs (r >>= rejected_pairs)) (waiting t)
unfolding posted
waiting-posted C vs t (ok result) = waiting-answered C vs t (rejected_pairs result)
waiting-posted C vs t (err (request_error s)) =
    waiting-mark_unsent C s vs t ∙ sym (all_but-nil (waiting t))
waiting-posted C vs t (err _) = sym (all_but-nil (waiting t))

waiting-upload :
    (C : Cloud) (t : Table) (r : Result Batch)
    → waiting (upload C (t, r)).0 ≡ all_but (delivered_of C r) (waiting t)
unfolding upload
waiting-upload C t (ok []) = sym (all_but-nil (waiting t))
waiting-upload C t (ok (v ∷ vs)) = waiting-posted C (v ∷ vs) t (C.post (items_of (v ∷ vs)))
waiting-upload C t (err e) = sym (all_but-nil (waiting t))

-- A round of the upload takes exactly the delivered messages out of the queue and keeps all others,
-- in their order, whatever the cloud answers or raises: nothing is lost, and what was delivered is
-- not sent again.
pub waiting-flush_pending_batch :
    (C : Cloud) (t : Table)
    → waiting (flush_pending_batch C t).0 ≡ all_but (delivered C t) (waiting t)
unfolding flush_pending_batch delivered
waiting-flush_pending_batch C t =
    let ms = get_pending_messages C.json batch_flush_size t in
    let (kept, same) = collect-Collects C ms t in
    waiting-upload C (collect C ms t).0 (collect C ms t).1
    ∙ ap₂ (λ r q. all_but (delivered_of C r) q) same kept
