-- ===== src/Upload/Starvation.antt =====
-- Rounds in which the cloud takes nothing.
use mathlib.Core.List.{map-append}
use bbjsensescada.Common.{
  ℕ, zero, suc, ◌≤◌, ◌≡◌, refl, sym, ap, ◌∙◌, Bool, true, false, List, [], ◌∷◌, ◌++◌, map, String,
  filter, ◌==◌, string_eq, if◌then◌else◌, arith, Option-cases, inl, inr, length, length-map, take,
  filter-append, length-append,
}
use bbjsensescada.Python.{Result, ok, err, request_error, ◌>>=◌}
use bbjsensescada.Python.Value.{Value}
use bbjsensescada.Queue.{
  Table, Message, Row, Json, Reading, get_pending_messages, mark_message_failed, pending_rows,
  is_pending, to_message, loaded, as_failed, enqueue_telemetry, refusal, count_pending_messages,
}
use bbjsensescada.Queue.Invariant.{enqueue, perform}
use bbjsensescada.Upload.Defs.{
  Cloud, Class, valid, invalid, raises, classify, Batch, Pair, collect, collect_one, rejected_pairs,
  is_rejected, mark_one, mark_answered, mark_unsent, answered, posted, upload, items_of,
  batch_flush_size, flush_pending_batch,
}
use bbjsensescada.Upload.Delivery.{
  valid_of, valid_one, accepted_ids, accepted_by, delivered_of, delivered, collect-Collects,
}

-- What decides a round: the id and the payload of each waiting message.
abbrev key : Row → String × String
key r = (r.message_id, r.payload_json)

abbrev pub stored : Table → List (String × String)
stored t = map key (pending_rows t)

valid_keys : Cloud → List (String × String) → Result Batch
valid_keys C [] = ok []
valid_keys C ((m, text) ∷ ks) =
    valid_one m (classify C.arithmetic C.repr (loaded (C.json.loads text))) (valid_keys C ks)

valid_of-keys :
    (C : Cloud) (n : ℕ) (rs : List Row)
    → valid_of C (map (to_message C.json) (take n rs)) ≡ valid_keys C (take n (map key rs))
unfolding valid_of valid_keys
valid_of-keys C zero rs = refl
valid_of-keys C (suc n) [] = refl
valid_of-keys C (suc n) (r ∷ rs) = ap (valid_one r.message_id _) (valid_of-keys C n rs)

delivered-keys :
    (C : Cloud) (t : Table) → delivered C t ≡ delivered_of C (valid_keys C (take 500 (stored t)))
unfolding delivered get_pending_messages
delivered-keys C t = ap (delivered_of C) (valid_of-keys C 500 (pending_rows t))

stored-failed :
    (now m e : String) (rs : List Row)
    → map key (filter is_pending (map (λ r. if r.message_id == m then as_failed now e r else r) rs))
      ≡ map key (filter is_pending rs)
stored-failed now m e [] = refl
stored-failed now m e (r ∷ rs) = ground (arith, stored-failed now m e rs)

stored-mark_failed :
    (now m e : String) (t : Table) → stored (mark_message_failed now m e t) ≡ stored t
unfolding mark_message_failed
stored-mark_failed now m e t = stored-failed now m e t.rows

stored-collect_one :
    (C : Cloud) (m : String) (c : Class) (rest : Table → Table × Result Batch)
    → ((t : Table) → stored (rest t).0 ≡ stored t)
    → (t : Table) → stored (collect_one C m c rest t).0 ≡ stored t
stored-collect_one C m (valid i) rest h t = h t
stored-collect_one C m (invalid e) rest h t = h _ ∙ stored-mark_failed (C.clock m) m e t
stored-collect_one C m (raises e) rest h t = refl

stored-collect : (C : Cloud) (ms : List Message) (t : Table) → stored (collect C ms t).0 ≡ stored t
unfolding collect
stored-collect C [] t = refl
stored-collect C (m ∷ ms) t =
    stored-collect_one C m.row.message_id _ (collect C ms) (stored-collect C ms) t

none_taken :
    (C : Cloud) (m : String) (rejected : Bool) (gone : List String) (t : Table)
    → (if rejected then gone else m ∷ gone) ≡ []
    → (gone ≡ []) × (stored (mark_one C m rejected t) ≡ stored t)
none_taken C m true gone t h = (h, stored-mark_failed (C.clock m) m _ t)
none_taken C m false gone t h = (cc, cc)

stored-mark_answered :
    (C : Cloud) (pairs : List Pair) (vs : Batch) (t : Table)
    → accepted_ids pairs vs ≡ []
    → stored (mark_answered C pairs vs t) ≡ stored t
unfolding mark_answered
stored-mark_answered C pairs [] t h = refl
stored-mark_answered C pairs ((m, i) ∷ vs) t h =
    let (none_later, same) = none_taken C m (is_rejected pairs i) (accepted_ids pairs vs) t h in
    stored-mark_answered C pairs vs (mark_one C m (is_rejected pairs i) t) none_later ∙ same

stored-mark_unsent :
    (C : Cloud) (e : String) (vs : Batch) (t : Table) → stored (mark_unsent C e vs t) ≡ stored t
unfolding mark_unsent
stored-mark_unsent C e [] t = refl
stored-mark_unsent C e ((m, i) ∷ vs) t =
    stored-mark_unsent C e vs (mark_message_failed (C.clock m) m e t)
    ∙ stored-mark_failed (C.clock m) m e t

stored-answered :
    (C : Cloud) (vs : Batch) (t : Table) (r : Result (List Pair))
    → accepted_by vs r ≡ []
    → stored (answered C vs t r).0 ≡ stored t
unfolding answered
stored-answered C vs t (ok pairs) h = stored-mark_answered C pairs vs t h
stored-answered C vs t (err e) h = refl

stored-posted :
    (C : Cloud) (vs : Batch) (t : Table) (r : Result Value)
    → accepted_by vs (r >>= rejected_pairs) ≡ []
    → stored (posted C vs t r).0 ≡ stored t
unfolding posted
stored-posted C vs t (ok result) h = stored-answered C vs t (rejected_pairs result) h
stored-posted C vs t (err (request_error s)) h = stored-mark_unsent C s vs t
stored-posted C vs t (err _) h = refl

stored-upload :
    (C : Cloud) (t : Table) (r : Result Batch)
    → delivered_of C r ≡ []
    → stored (upload C (t, r)).0 ≡ stored t
unfolding upload
stored-upload C t (ok []) h = refl
stored-upload C t (ok (v ∷ vs)) h = stored-posted C (v ∷ vs) t (C.post (items_of (v ∷ vs))) h
stored-upload C t (err e) h = refl

stored-flush_pending_batch :
    (C : Cloud) (t : Table) → delivered C t ≡ [] → stored (flush_pending_batch C t).0 ≡ stored t
unfolding flush_pending_batch delivered
stored-flush_pending_batch C t h =
    let ms = get_pending_messages C.json batch_flush_size t in
    stored-upload C (collect C ms t).0 (collect C ms t).1
      (ap (delivered_of C) (collect-Collects C ms t).1 ∙ h)
    ∙ stored-collect C ms t

-- A turn of the gateway: a round of the upload, or a new reading.
pub data Turn : Type 0 where
  round : Turn
  reading : Json → String → String → Reading → Turn

abbrev pub turn : Cloud → Turn → Table → Table
turn C round t = (flush_pending_batch C t).0
turn C (reading J m now r) t = perform (enqueue J m now r) t

-- The table after some turns.
pub turns : Cloud → List Turn → Table → Table
turns C [] t = t
turns C (x ∷ xs) t = turns C xs (turn C x t)

first_keys : Table → List (String × String)
first_keys t = take 500 (stored t)

take-append :
    (n : ℕ) (xs ys : List (String × String)) → n ≤ length xs → take n (xs ++ ys) ≡ take n xs
take-append zero xs ys h = refl
take-append (suc n) [] ys h = absurd (omega arith)
take-append (suc n) (x ∷ xs) ys h = ap (λ r. x ∷ r) (take-append n xs ys (omega arith))

-- A new reading leaves the first 500 waiting messages alone if there are as many.
Blocked : Cloud → Table → List (String × String) → Type 0
Blocked C t ks = (first_keys t ≡ ks) × (500 ≤ length (stored t))

enqueued-Blocked :
    (C : Cloud) (J : Json) (m now : String) (r : Reading) (t : Table) (ks : List (String × String))
    → Blocked C t ks
    → Blocked C (perform (enqueue J m now r) t) ks
unfolding perform enqueue_telemetry Blocked first_keys
enqueued-Blocked C J m now r t ks (same, many) = elim (Option-cases (refusal m r t)) [
  | inr (e, refused) ↦ rw refused (same, many)
  | inl taken ↦ rw taken (
      rw (filter-append, map-append)
        (take-append 500 (stored t) _ many ∙ same, omega (arith, length-append {0} (stored t))))
]

delivered-Blocked :
    (C : Cloud) (t : Table) (ks : List (String × String))
    → Blocked C t ks
    → delivered C t ≡ delivered_of C (valid_keys C ks)
unfolding Blocked first_keys
delivered-Blocked C t ks b = delivered-keys C t ∙ ap (λ k. delivered_of C (valid_keys C k)) b.0

turns-Blocked :
    (C : Cloud) (xs : List Turn) (t : Table) (ks : List (String × String))
    → delivered_of C (valid_keys C ks) ≡ []
    → Blocked C t ks
    → Blocked C (turns C xs t) ks
unfolding turns
turns-Blocked C [] t ks none_delivered b = b
turns-Blocked C (reading J m now r ∷ xs) t ks none_delivered b =
    turns-Blocked C xs _ ks none_delivered (enqueued-Blocked C J m now r t ks b)
turns-Blocked C (round ∷ xs) t ks none_delivered b =
    let same = stored-flush_pending_batch C t (delivered-Blocked C t ks b ∙ none_delivered) in
    turns-Blocked C xs _ ks none_delivered (unfold Blocked first_keys in rw same b)

-- If at least 500 messages wait and the cloud takes none of a batch (it rejects their devices, or
-- their payload is invalid), then after any number of later rounds and new readings, against a cloud
-- that answers alike, the same 500 messages are still the first ones and still nothing is taken.
pub turns-starve :
    (C : Cloud) (xs : List Turn) (t : Table)
    → 500 ≤ count_pending_messages t
    → delivered C t ≡ []
    → (take 500 (stored (turns C xs t)) ≡ take 500 (stored t)) × (delivered C (turns C xs t) ≡ [])
unfolding Blocked first_keys count_pending_messages
turns-starve C xs t many none_delivered =
    let ks = take 500 (stored t) in
    let stuck = sym (delivered-keys C t) ∙ none_delivered in
    let size : 500 ≤ length (stored t) = rw (length-map key (pending_rows t)) many in
    let b : Blocked C (turns C xs t) ks = turns-Blocked C xs t ks stuck (refl, size) in
    (b.0, delivered-Blocked C (turns C xs t) ks b ∙ stuck)
