-- ===== src/Commands/Outcome.antt =====
-- What a command leads to: its acknowledgements and its writes.
use mathlib.Core.List.{append-nil}
use bbjsensescada.Common.{
  ◌≡◌, ◌≢◌, refl, ◌∙◌, inl, inr, true, List, [], ◌∷◌, ◌++◌, String, Option, none, some, Bool-cases,
  contains, string_eq,
}
use bbjsensescada.Common.Int.{ℤ}
use bbjsensescada.Python.{
  Error, Result, ok, err, key_error, type_error, value_error, ◌>>=◌, Result-cases,
}
use bbjsensescada.Python.Value.{Value, item, to_int}
use bbjsensescada.Modbus.{Settings, Client}
use bbjsensescada.Commands.Defs.{
  Header, Write, accepted, Driver, Event, acked, Trace, ack_command, try_block, conclude, run_on,
  dispatch, execute_ids, execute_command, target_ids, valid_command_types, closing, locked,
  malformed, header_of,
}
use bbjsensescada.Commands.Lookup.{devices_of, find_writable_tag}
use bbjsensescada.Commands.Gate.{IsAllowed, find_writable_tag-IsAllowed}
use bbjsensescada.Commands.Effects.{
  acks, writes, of_events, Ended, nothing, rejected, done, session_on-Ended,
}

-- How a command ended: by an exception that leaves the function before any effect, so with no lock
-- taken, no client made and nothing sent; with the one acknowledgement "failed", after no write or a
-- write that the device did not accept; or with the one acknowledgement "success" after one write
-- that the device accepted.
pub data Verdict (D : Driver) (t : Trace) : Type 0 where
  crashed : (e : Error) → t.0 ≡ [] → t.1 ≡ err e → Verdict D t
  unwritten : acks t.0 ≡ "failed" ∷ [] → writes t.0 ≡ [] → Verdict D t
  unaccepted :
      (c : Client) (w : Write)
      → acks t.0 ≡ "failed" ∷ []
      → writes t.0 ≡ w ∷ []
      → D.write c w ≢ ok accepted
      → Verdict D t
  succeeded :
      (c : Client) (w : Write)
      → acks t.0 ≡ "success" ∷ []
      → writes t.0 ≡ w ∷ []
      → D.write c w ≡ ok accepted
      → Verdict D t

acks-closing : (o : Option Client) → acks (closing o) ≡ []
acks-closing none = refl
acks-closing (some c) = refl

writes-closing : (o : Option Client) → writes (closing o) ≡ []
writes-closing none = refl
writes-closing (some c) = refl

-- The events of a failed and of a successful command, around those of the block.
module _ (id : Value) (d : ℤ) (es : List Event) (o : Option Client) (status : String)
    (error : Option String) where
  acks_failed :
      acks es ≡ [] → acks (locked d (es ++ (acked id status error ∷ []) ++ closing o)) ≡ status ∷ []
  acks_failed h = simp of_events (rw (h, acks-closing o))

  writes_failed : writes (locked d (es ++ (acked id status error ∷ []) ++ closing o)) ≡ writes es
  writes_failed = simp of_events (rw writes-closing (simp append-nil))

  acks_done :
      acks es ≡ [] → acks (locked d (es ++ closing o) ++ acked id status error ∷ []) ≡ status ∷ []
  acks_done h = simp of_events (rw (h, acks-closing o))

  writes_done : writes (locked d (es ++ closing o) ++ acked id status error ∷ []) ≡ writes es
  writes_done = simp of_events (rw writes-closing (simp append-nil))

conclude-Verdict :
    (D : Driver) (id : Value) (d : ℤ) (es : List Event) (o : Option Client) (r : Result (Unit {0}))
    → Ended D es r
    → Verdict D (conclude D id d (record { events = es; client = o; outcome = r }))
unfolding conclude ack_command
conclude-Verdict D id d es o _ (nothing e a w) =
    unwritten (acks_failed id d es o _ _ a) (writes_failed id d es o _ _ ∙ w)
conclude-Verdict D id d es o _ (rejected e c k a w n) =
    unaccepted c k (acks_failed id d es o _ _ a) (writes_failed id d es o _ _ ∙ w) n
conclude-Verdict D id d es o _ (done c k a w y) =
    succeeded c k (acks_done id d es o _ _ a) (writes_done id d es o _ _ ∙ w) y

run_on-Verdict :
    (S : Settings) (D : Driver) (id : Value) (t : String) (v : Value) (device tag : Value)
    → Verdict D (run_on S D id t v (device, tag))
unfolding run_on try_block
run_on-Verdict S D id t v device tag = elim (Result-cases (item "id" device >>= to_int)) [
  | inl (d, known) ↦
      rw (known, run_on) (conclude-Verdict D id d _ _ _ (session_on-Ended S D _ tag t v _))
  | inr (e, bad) ↦ rw (bad, run_on) (crashed e refl refl)
]

dispatch-Verdict :
    (S : Settings) (D : Driver) (id : Value) (t : String) (v : Value)
    (r : Result (Option (Value × Value)))
    → Verdict D (dispatch S D id t v r)
unfolding dispatch ack_command
dispatch-Verdict S D id t v (ok (some (device, tag))) = run_on-Verdict S D id t v device tag
dispatch-Verdict S D id t v (ok none) = unwritten refl refl
dispatch-Verdict S D id t v (err e) = crashed e refl refl

malformed-Verdict : (D : Driver) (id : Value) (e : Error) → Verdict D (malformed D id e)
unfolding malformed ack_command
malformed-Verdict D id (key_error s) = unwritten refl refl
malformed-Verdict D id (type_error s) = unwritten refl refl
malformed-Verdict D id (value_error s) = unwritten refl refl
malformed-Verdict D id _ = crashed _ refl refl

execute_ids-Verdict :
    (S : Settings) (D : Driver) (configuration id : Value) (t : String) (v : Value)
    (r : Result (ℤ × ℤ))
    → Verdict D (execute_ids S D configuration id t v r)
unfolding execute_ids ack_command
execute_ids-Verdict S D configuration id t v (err e) = malformed-Verdict D id e
execute_ids-Verdict S D configuration id t v (ok (d, k)) =
    elim (Bool-cases (contains valid_command_types t)) [
      | inl known ↦ rw known (dispatch-Verdict S D id t v (find_writable_tag configuration d k))
      | inr other ↦ rw other (unwritten refl refl)
    ]

-- Every command, whatever it and the configuration hold and whatever the device and the cloud answer,
-- ends by one of the four verdicts: it is acknowledged exactly once, as a success exactly when the
-- device accepted its one write, unless an exception left the function before any effect.
pub execute_command-Verdict :
    (S : Settings) (D : Driver) (command configuration : Value)
    → Verdict D (execute_command S D command configuration)
unfolding execute_command
execute_command-Verdict S D command configuration = elim (Result-cases (header_of S command)) [
  | inl (h, reads) ↦
      rw (reads, execute_command)
        (execute_ids-Verdict S D configuration h.id h.command_type h.value (target_ids command))
  | inr (e, bad) ↦ rw (bad, execute_command) (crashed e refl refl)
]

-- What a write presupposes.
pub record IsAuthorised (S : Settings) (command configuration : Value) : Type 0 where
  pub device_id : ℤ
  pub tag_id : ℤ
  pub ids : target_ids command ≡ ok (device_id, tag_id)
  pub header : Header
  pub reads : header_of S command ≡ ok header
  pub known_type : contains valid_command_types header.command_type ≡ true
  pub devices : List Value
  pub listed : devices_of configuration ≡ ok devices
  pub device : Value
  pub tag : Value
  pub allowed : IsAllowed device_id tag_id devices device tag

writes-malformed : (D : Driver) (id : Value) (e : Error) → writes (malformed D id e).0 ≡ []
unfolding malformed ack_command
writes-malformed D id (key_error s) = refl
writes-malformed D id (type_error s) = refl
writes-malformed D id (value_error s) = refl
writes-malformed D id _ = refl

-- A dispatch that writes has found its target.
dispatch-target :
    (S : Settings) (D : Driver) (id : Value) (t : String) (v : Value)
    (r : Result (Option (Value × Value))) (w : Write) (ws : List Write)
    → writes (dispatch S D id t v r).0 ≡ w ∷ ws
    → (p : Value × Value) × (r ≡ ok (some p))
unfolding dispatch ack_command
dispatch-target S D id t v (ok (some p)) w ws h = (p, refl)
dispatch-target S D id t v (ok none) w ws h = cc
dispatch-target S D id t v (err e) w ws h = cc

ids-target :
    (S : Settings) (D : Driver) (configuration id : Value) (t : String) (v : Value)
    (r : Result (ℤ × ℤ)) (w : Write) (ws : List Write)
    → writes (execute_ids S D configuration id t v r).0 ≡ w ∷ ws
    → (p : ℤ × ℤ) × (r ≡ ok p)
      × (contains valid_command_types t ≡ true)
      × ((q : Value × Value) × (find_writable_tag configuration p.0 p.1 ≡ ok (some q)))
unfolding execute_ids ack_command
ids-target S D configuration id t v (err e) w ws h = absurd (cc (writes-malformed D id e, h))
ids-target S D configuration id t v (ok (d, k)) w ws h =
    elim (Bool-cases (contains valid_command_types t)) [
      | inl known ↦ (
        (d, k),
        refl,
        known,
        dispatch-target S D id t v (find_writable_tag configuration d k) w ws (rw known at h),
      )
      | inr other ↦ absurd (cc (rw other at h))
    ]

-- A command writes to a device only if its ids can be read, its type is one of the two known ones and
-- the gate allows its tag in the current configuration.
pub execute_command-IsAuthorised :
    (S : Settings) (D : Driver) (command configuration : Value) (w : Write) (ws : List Write)
    → writes (execute_command S D command configuration).0 ≡ w ∷ ws
    → IsAuthorised S command configuration
unfolding execute_command
execute_command-IsAuthorised S D command configuration w ws h =
    elim (Result-cases (header_of S command)) [
      | inr (e, bad) ↦ absurd (cc (rw (bad, execute_command) at h))
      | inl (head, reads) ↦
          let (p, ids, known, (q, finds)) =
            ids-target S D configuration head.id head.command_type head.value (target_ids command) w
              ws (rw (reads, execute_command) at h) in
          let (devices, listed, allowed) =
            find_writable_tag-IsAllowed configuration p.0 p.1 q.0 q.1 finds in
          record {
            device_id = p.0;
            tag_id = p.1;
            ids = ids;
            header = head;
            reads = reads;
            known_type = known;
            devices = devices;
            listed = listed;
            device = q.0;
            tag = q.1;
            allowed = allowed;
          }
    ]
