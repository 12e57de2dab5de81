-- ===== src/Upload/Uninterrupted.antt =====
-- A round that no other thread interrupts, beside `flush_pending_batch`.
use mathlib.Core.List.{append_assoc, append-nil}
use bbjsensescada.Common.{ℕ, zero, suc, ◌≡◌, refl, sym, ◌∙◌, ap, List, [], ◌∷◌, ◌++◌, String}
use bbjsensescada.Python.{Result, ok, err, request_error}
use bbjsensescada.Python.Value.{Value}
use bbjsensescada.Queue.{Table, Message, get_pending_messages, mark_message_failed}
use bbjsensescada.Upload.Defs.{
  Cloud, Item, Class, valid, invalid, raises, classify, Batch, Pair, items_of, rejected_pairs,
  is_rejected, mark_one, mark_answered, mark_unsent, batch_flush_size, collect, collect_one,
  keeping, upload, posted, answered, flush_pending_batch,
}
use bbjsensescada.Upload.Steps.{
  resting, collecting, marking, unsending, At, on_class, on_pairs, on_reply, round_step,
}

-- Some number of steps.
abbrev pub steps : Cloud → ℕ → At → At
steps C zero s = s
steps C (suc n) s = steps C n (round_step C s)

abbrev pub Leads : Cloud → At → At → Type 0
Leads C s u = (n : ℕ) × (steps C n s ≡ u)

first-Leads : (C : Cloud) (s u v : At) → round_step C s ≡ u → Leads C u v → Leads C s v
first-Leads C s u v one (n, rest) = (suc n, ap (steps C n) one ∙ rest)

marking-Leads :
    (C : Cloud) (pairs : List Pair) (vs : Batch) (t : Table)
    → Leads C (t, marking pairs vs) (mark_answered C pairs vs t, resting)
unfolding round_step mark_answered
marking-Leads C pairs [] t = (1, refl)
marking-Leads C pairs ((m, i) ∷ vs) t =
    first-Leads C (t, marking pairs ((m, i) ∷ vs))
      (mark_one C m (is_rejected pairs i) t, marking pairs vs) _ refl
      (marking-Leads C pairs vs (mark_one C m (is_rejected pairs i) t))

unsending-Leads :
    (C : Cloud) (error : String) (vs : Batch) (t : Table)
    → Leads C (t, unsending error vs) (mark_unsent C error vs t, resting)
unfolding round_step mark_unsent
unsending-Leads C error [] t = (1, refl)
unsending-Leads C error ((m, i) ∷ vs) t =
    first-Leads C (t, unsending error ((m, i) ∷ vs))
      (mark_message_failed (C.clock m) m error t, unsending error vs) _ refl
      (unsending-Leads C error vs (mark_message_failed (C.clock m) m error t))

pairs-Leads :
    (C : Cloud) (vs : Batch) (t : Table) (r : Result (List Pair))
    → Leads C (t, on_pairs vs r) ((answered C vs t r).0, resting)
unfolding answered
pairs-Leads C vs t (ok pairs) = marking-Leads C pairs vs t
pairs-Leads C vs t (err e) = (0, refl)

reply-Leads :
    (C : Cloud) (vs : Batch) (t : Table) (r : Result Value)
    → Leads C (t, on_reply vs r) ((posted C vs t r).0, resting)
unfolding posted
reply-Leads C vs t (ok result) = pairs-Leads C vs t (rejected_pairs result)
reply-Leads C vs t (err (request_error s)) = unsending-Leads C s vs t
reply-Leads C vs t (err e) = (0, refl)

upload-Leads :
    (C : Cloud) (t : Table) (vs : Batch)
    → Leads C (t, collecting [] vs) ((upload C (t, ok vs)).0, resting)
unfolding round_step upload
upload-Leads C t [] = (1, refl)
upload-Leads C t (v ∷ vs) =
    first-Leads C (t, collecting [] (v ∷ vs)) (t, on_reply (v ∷ vs) (C.post (items_of (v ∷ vs)))) _
      refl (reply-Leads C (v ∷ vs) t (C.post (items_of (v ∷ vs))))

-- The batch so far comes before what is still to be collected.
abbrev in_front : Batch → Table × Result Batch → Table × Result Batch
in_front acc (t, ok vs) = (t, ok (acc ++ vs))
in_front acc (t, err e) = (t, err e)

in_front-keeping :
    (acc : Batch) (p : String × Item) (r : Table × Result Batch)
    → in_front acc (keeping p r) ≡ in_front (acc ++ p ∷ []) r
in_front-keeping acc p (t, ok vs) = ap (λ b. (t, ok b)) (sym (append_assoc acc (p ∷ []) vs))
in_front-keeping acc p (t, err e) = refl

in_front-nil : (r : Table × Result Batch) → in_front [] r ≡ r
in_front-nil (t, ok vs) = refl
in_front-nil (t, err e) = refl

class-Leads :
    (C : Cloud) (m : String) (ms : List Message) (acc : Batch) (t : Table) (c : Class)
    → ((acc' : Batch) (t' : Table)
        → Leads C
            (t', collecting ms acc')
            ((upload C (in_front acc' (collect C ms t'))).0, resting))
    → Leads C
        (on_class C m ms acc t c)
        ((upload C (in_front acc (collect_one C m c (collect C ms) t))).0, resting)
unfolding upload
class-Leads C m ms acc t (valid i) later =
    rw (in_front-keeping acc (m, i) (collect C ms t)) (later (acc ++ (m, i) ∷ []) t)
class-Leads C m ms acc t (invalid e) later = later acc (mark_message_failed (C.clock m) m e t)
class-Leads C m ms acc t (raises e) later = (0, refl)

collect-Leads :
    (C : Cloud) (ms : List Message) (acc : Batch) (t : Table)
    → Leads C (t, collecting ms acc) ((upload C (in_front acc (collect C ms t))).0, resting)
unfolding collect round_step
collect-Leads C [] acc t = rw append-nil (upload-Leads C t acc)
collect-Leads C (m ∷ ms) acc t =
    let c = classify C.arithmetic C.repr m.payload in
    first-Leads C (t, collecting (m ∷ ms) acc) (on_class C m.row.message_id ms acc t c) _ refl
      (class-Leads C m.row.message_id ms acc t c (collect-Leads C ms))

-- An upload round that no other thread interrupts, taken one transaction at a time, ends after a number
-- of steps and leaves exactly the table that `flush_pending_batch` leaves.
pub round_step-flush_pending_batch :
    (C : Cloud) (t : Table)
    → Leads C
        (t, collecting (get_pending_messages C.json batch_flush_size t) [])
        ((flush_pending_batch C t).0, resting)
unfolding flush_pending_batch
round_step-flush_pending_batch C t =
    let ms = get_pending_messages C.json batch_flush_size t in
    rw⁻¹ (in_front-nil (collect C ms t)) (collect-Leads C ms [] t)
