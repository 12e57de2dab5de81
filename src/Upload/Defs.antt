-- ===== src/Upload/Defs.antt =====
-- The functions of the batch upload.
use bbjsensescada.Common.{
  ℕ, Bool, true, false, ◌&&◌, ◌||◌, List, [], ◌∷◌, ◌++◌, map, Option, none, some, String, ◌<>◌,
  ◌==◌, string_eq, if◌then◌else◌, eqb,
}
use bbjsensescada.Common.Int.{ℤ, pos, int_eq}
use bbjsensescada.Python.{
  Error, Result, ok, err, value_error, type_error, key_error, request_error, message, ◌>>=◌,
}
use bbjsensescada.Python.Text.{codes}
use bbjsensescada.Python.Float.{Float, Arithmetic}
use bbjsensescada.Python.Value.{
  Value, Items, str, arr, obj, nil, cons, Repr, get, item, or_default, to_int, to_float, to_str,
  elements, find,
}
use bbjsensescada.Queue.{
  Json, Table, Message, get_pending_messages, mark_message_failed, mark_message_sent,
}

pub record Item : Type 0 where
  pub device_id : ℤ
  pub tag_id : ℤ
  pub value : Float
  pub quality : String

-- `requests.post`, `raise_for_status` and `json()`: a RequestException is a `request_error`.
abbrev pub Post : Type 0
Post = List Item → Result Value

-- What the environment of a round provides.
pub record Cloud : Type 0 where
  pub json : Json
  pub arithmetic : Arithmetic
  pub repr : Repr
  pub post : Post
  pub clock : String → String

pub data Class : Type 0 where
  valid : Item → Class
  -- the message is marked with this error
  invalid : String → Class
  -- an exception that leaves the function
  raises : Error → Class

abbrev quality_of : Repr → Option Value → String
quality_of R none = "good"
quality_of R (some v) = to_str R (or_default (str "good") v)

-- The dict display of the `try` block.
unfoldable pub item_of : Arithmetic → Repr → Value → Result Item
item_of A R payload = do
  device_id ← item "device_id" payload >>= to_int
  tag_id ← item "tag_id" payload >>= to_int
  value ← item "value" payload >>= to_float A
  quality ← get "quality" payload
  ok (record {
    device_id = device_id;
    tag_id = tag_id;
    value = value;
    quality = quality_of R quality;
  })

-- `except (KeyError, TypeError, ValueError)`
abbrev class_of : Result Item → Class
class_of (ok i) = valid i
class_of (err (key_error s)) =
    invalid ("Invalid buffered telemetry fields: " <> message (key_error s))
class_of (err (type_error s)) = invalid ("Invalid buffered telemetry fields: " <> s)
class_of (err (value_error s)) = invalid ("Invalid buffered telemetry fields: " <> s)
class_of (err e) = raises e

-- `isinstance(payload, dict)`
unfoldable pub classify : Arithmetic → Repr → Value → Class
unfolding item_of
classify A R (obj fs) = class_of (item_of A R (obj fs))
classify A R _ = invalid "Invalid or missing payload JSON"

abbrev pub Batch : Type 0
Batch = List (String × Item)

abbrev pub first_of_batch : String × Item → Result Batch → Result Batch
first_of_batch p (ok vs) = ok (p ∷ vs)
first_of_batch p (err e) = err e

abbrev pub keeping : String × Item → Table × Result Batch → Table × Result Batch
keeping p (t, r) = (t, first_of_batch p r)

-- One turn of the first loop; `rest` is what the loop does with the later messages.
abbrev pub collect_one :
    Cloud → String → Class → (Table → Table × Result Batch) → Table → Table × Result Batch
collect_one C m (valid i) rest t = keeping (m, i) (rest t)
collect_one C m (invalid e) rest t = rest (mark_message_failed (C.clock m) m e t)
collect_one C m (raises e) rest t = (t, err e)

unfoldable pub collect : Cloud → List Message → Table → Table × Result Batch
collect C [] t = (t, ok [])
collect C (m ∷ ms) t =
    collect_one C m.row.message_id (classify C.arithmetic C.repr m.payload) (collect C ms) t

is_prefix : List ℕ → List ℕ → Bool
is_prefix [] s = true
is_prefix (a ∷ p) [] = false
is_prefix (a ∷ p) (b ∷ s) = eqb a b && is_prefix p s

is_infix : List ℕ → List ℕ → Bool
is_infix p [] = is_prefix p []
is_infix p (b ∷ s) = is_prefix p (b ∷ s) || is_infix p s

abbrev is_text : String → Value → Bool
is_text k (str s) = k == s
is_text k _ = false

any_text : String → Items → Bool
any_text k nil = false
any_text k (cons v vs) = is_text k v || any_text k vs

abbrev is_some : Option Value → Bool
is_some none = false
is_some (some v) = true

-- `k in v` for a text k.
unfoldable pub has : String → Value → Result Bool
unfolding is_infix is_prefix any_text
has k (obj fs) = ok (is_some (find k fs))
has k (arr vs) = ok (any_text k vs)
has k (str s) = ok (is_infix (codes k) (codes s))
has k _ = err (type_error "argument of this type is not iterable")

abbrev pub Pair : Type 0
Pair = ℤ × ℤ

abbrev and_then : Result Bool → Result Bool → Result Bool
and_then (ok true) b = b
and_then a b = a

abbrev pair_of : Value → Result Pair
pair_of entry = do
  device_id ← item "device_id" entry >>= to_int
  tag_id ← item "tag_id" entry >>= to_int
  ok (device_id, tag_id)

-- The set comprehension.
unfoldable pub pairs_of : List Value → Result (List Pair)
unfolding has
pairs_of [] = ok []
pairs_of (entry ∷ rest) = do
  named ← and_then (has "device_id" entry) (has "tag_id" entry)
  here ← (if named then (do p ← pair_of entry; ok (p ∷ [])) else ok [])
  others ← pairs_of rest
  ok (here ++ others)

abbrev listed : Option Value → Value
listed none = arr nil
listed (some v) = or_default (arr nil) v

-- `rejected_pairs` of a response.
unfoldable pub rejected_pairs : Value → Result (List Pair)
unfolding pairs_of
rejected_pairs result = do
  rejected ← get "rejected" result
  entries ← elements (listed rejected)
  pairs_of entries

abbrev same_pair : Pair → Pair → Bool
same_pair (a, b) (c, d) = a == c && b == d

abbrev pub in_pairs : List Pair → Pair → Bool
in_pairs [] p = false
in_pairs (q ∷ qs) p = same_pair p q || in_pairs qs p

abbrev pub is_rejected : List Pair → Item → Bool
is_rejected pairs i = in_pairs pairs (i.device_id, i.tag_id)

-- One turn of the loop after a response.
abbrev pub mark_one : Cloud → String → Bool → Table → Table
mark_one C m rejected t =
    if rejected
    then mark_message_failed (C.clock m) m "Rejected by cloud: device or tag not found" t
    else mark_message_sent (C.clock m) m t

unfoldable pub mark_answered : Cloud → List Pair → Batch → Table → Table
mark_answered C pairs [] t = t
mark_answered C pairs ((m, i) ∷ vs) t =
    mark_answered C pairs vs (mark_one C m (is_rejected pairs i) t)

-- The loop of the `except requests.RequestException`.
unfoldable pub mark_unsent : Cloud → String → Batch → Table → Table
mark_unsent C error [] t = t
mark_unsent C error ((message_id, i) ∷ vs) t =
    mark_unsent C error vs (mark_message_failed (C.clock message_id) message_id error t)

unfoldable pub answered : Cloud → Batch → Table → Result (List Pair) → Table × Result (Unit {0})
answered C vs t (ok pairs) = (mark_answered C pairs vs t, ok tt)
answered C vs t (err e) = (t, err e)

unfoldable pub posted : Cloud → Batch → Table → Result Value → Table × Result (Unit {0})
posted C vs t (ok result) = answered C vs t (rejected_pairs result)
posted C vs t (err (request_error s)) = (mark_unsent C s vs t, ok tt)
posted C vs t (err e) = (t, err e)

abbrev pub items_of : Batch → List Item
items_of = map (λ (m, i). i)

unfoldable pub upload : Cloud → Table × Result Batch → Table × Result (Unit {0})
upload C (t, ok []) = (t, ok tt)
upload C (t, ok (v ∷ vs)) = posted C (v ∷ vs) t (C.post (items_of (v ∷ vs)))
upload C (t, err e) = (t, err e)

abbrev pub batch_flush_size : ℤ
batch_flush_size = pos 500

-- The table after a round, and the exception that left it, if any.
unfoldable pub flush_pending_batch : Cloud → Table → Table × Result (Unit {0})
unfolding upload posted answered
flush_pending_batch C t = upload C (collect C (get_pending_messages C.json batch_flush_size t) t)
