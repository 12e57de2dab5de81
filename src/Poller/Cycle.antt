-- ===== src/Poller/Cycle.antt =====
-- What a cycle of `run_device` does to the queue, the poll times and DEVICE_STATUS.
use bbjsensescada.Common.{
  ℕ, ◌≡◌, refl, ◌∙◌, ap, ◌⊎◌, inl, inr, false, ◌||◌, List, [], ◌∷◌, Option, none, some, ◌==◌,
  ==_iff, Bool-cases, if◌then◌else◌,
}
use bbjsensescada.Common.Int.{ℤ, int_eq, pair_eq}
use bbjsensescada.Common.Dict.{lookup, lookup-insert}
use bbjsensescada.Python.{Error, Result, ok, err, ◌>>=◌}
use bbjsensescada.Python.Float.{Float}
use bbjsensescada.Python.Value.{Value, item, to_int}
use bbjsensescada.Modbus.{Settings, Client, is_rtu, is_tcp, connection_of, communication_type}
use bbjsensescada.Commands.{tags_of}
use bbjsensescada.Poller.Defs.{Driver}
use bbjsensescada.Poller.Device.{
  Status, connected_status, failed_status, Poller, turn, plan_of, on_plan, poll_tags, loop_tags,
  on_client, open_client, on_connection, or_failed, with_status, run_locked, run_device, is_early,
}
use bbjsensescada.Queue.Invariant.{IsValid}
use bbjsensescada.Poller.Readings.{
  IsLonger, Grows-IsLonger, Grows, Grows-refl, Grows-trans, process_tag-Grows,
}

abbrev pub End : Type 0
End = Poller × Result (Unit {0})

-- The poll of some tags: the queue grows and no status changes.
abbrev Polls : Poller → End → Type 0
Polls p out = Grows p.stores.queue out.0.stores.queue × (out.0.device_status ≡ p.device_status)

Polls-refl : (p : Poller) (r : Result (Unit {0})) → Polls p (p, r)
Polls-refl p r = (Grows-refl p.stores.queue, refl)

turn-Polls :
    (S : Settings) (D : Driver) (c : Client) (device : Value) (now : Float) (tag : Value)
    (plan : Option ((ℤ × ℤ) × Float)) (p : Poller)
    → Polls p (turn S D c device now tag plan p, ok tt)
turn-Polls S D c device now tag none p = Polls-refl p (ok tt)
turn-Polls S D c device now tag (some (key, poll_interval)) p =
    elim (Bool-cases (is_early S now poll_interval (lookup key p.last_poll_times))) [
      | inl early ↦ rw early (Polls-refl p (ok tt))
      | inr due ↦ rw due (process_tag-Grows S D c device tag p.stores, refl)
    ]

Polls-trans : (p q : Poller) (out : End) → Polls p (q, ok tt) → Polls q out → Polls p out
Polls-trans p q out (g, same) (h, later) = (Grows-trans _ _ _ g h, later ∙ same)

on_plan-Polls :
    (f : Option ((ℤ × ℤ) × Float) → End) (p : Poller) (r : Result (Option ((ℤ × ℤ) × Float)))
    → ((plan : Option ((ℤ × ℤ) × Float)) → Polls p (f plan))
    → Polls p (on_plan f p r)
on_plan-Polls f p (ok plan) h = h plan
on_plan-Polls f p (err e) h = Polls-refl p (err e)

poll_tags-Polls :
    (S : Settings) (D : Driver) (c : Client) (device : Value) (now : Float) (tags : List Value)
    (p : Poller)
    → Polls p (poll_tags S D c device now tags p)
unfolding poll_tags
poll_tags-Polls S D c device now [] p = Polls-refl p (ok tt)
poll_tags-Polls S D c device now (tag ∷ tags) p = on_plan-Polls _ p (plan_of S device tag) (λ plan.
    let q = turn S D c device now tag plan p in
    Polls-trans p q (poll_tags S D c device now tags q) (turn-Polls S D c device now tag plan p)
      (poll_tags-Polls S D c device now tags q))

loop_tags-Polls :
    (S : Settings) (D : Driver) (c : Client) (device : Value) (now : Float)
    (r : Result (List Value)) (p : Poller)
    → Polls p (loop_tags S D c device now r p)
loop_tags-Polls S D c device now (ok tags) p = poll_tags-Polls S D c device now tags p
loop_tags-Polls S D c device now (err e) p = Polls-refl p (err e)

-- A status of the table DEVICE_STATUS.
abbrev pub status_of : ℤ → Poller → Option Status
status_of d p = lookup d p.device_status

-- What the result of a cycle says of the device: it raised and the device is marked failed, or it
-- returned and the device is marked connected, or failed with nothing polled.
abbrev pub Marked : ℤ → Poller → End → Type 0
Marked d p (q, err e) = status_of d q ≡ some failed_status
Marked d p (q, ok u) =
    (status_of d q ≡ some connected_status)
    ⊎ ((status_of d q ≡ some failed_status)
        × (q.stores ≡ p.stores)
        × (q.last_poll_times ≡ p.last_poll_times))

-- A cycle of device d: the queue grows, no other device's status changes, and the mark is right.
pub record Cycles (d : ℤ) (p : Poller) (out : End) : Type 0 where
  pub queue : Grows p.stores.queue out.0.stores.queue
  pub others : (j : ℤ) → (j == d) ≡ false → status_of j out.0 ≡ status_of j p
  pub marked : Marked d p out

status-with_status_same :
    (d : ℤ) (s : Status) (p : Poller) → status_of d (with_status d s p) ≡ some s
status-with_status_same d s p = lookup-insert d d s p.device_status ∙ rw ((==_iff d d).1 refl)

status-with_status_other :
    (j d : ℤ) (s : Status) (p : Poller)
    → (j == d) ≡ false
    → status_of j (with_status d s p) ≡ status_of j p
status-with_status_other j d s p h = lookup-insert j d s p.device_status ∙ rw h

raised-Cycles : (d : ℤ) (p : Poller) (e : Error) → Cycles d p (or_failed d (p, err e))
raised-Cycles d p e = record {
  queue = Grows-refl p.stores.queue;
  others = λ j differ. status-with_status_other j d failed_status p differ;
  marked = status-with_status_same d failed_status p;
}

-- The client is connected: what the loop over the tags does, then the mark.
polled-Cycles :
    (d : ℤ) (p : Poller) (out : End)
    → Polls (with_status d connected_status p) out
    → Cycles d p (or_failed d out)
polled-Cycles d p (q, ok tt) (grows, same) = record {
  queue = grows;
  others = λ j differ. ap (lookup j) same ∙ status-with_status_other j d connected_status p differ;
  marked = inl (ap (lookup d) same ∙ status-with_status_same d connected_status p);
}
polled-Cycles d p (q, err e) (grows, same) = record {
  queue = grows;
  others = λ j differ.
      status-with_status_other j d failed_status q differ
      ∙ ap (lookup j) same
      ∙ status-with_status_other j d connected_status p differ;
  marked = status-with_status_same d failed_status q;
}

on_client-Cycles :
    (S : Settings) (D : Driver) (device : Value) (now : Float) (d : ℤ) (r : Result Client)
    (p : Poller)
    → Cycles d p (or_failed d (on_client S D device now d r p))
on_client-Cycles S D device now d (ok c) p =
    polled-Cycles d p _
      (loop_tags-Polls S D c device now (tags_of device) (with_status d connected_status p))
on_client-Cycles S D device now d (err e) p = raised-Cycles d p e

unsupported-Cycles : (d : ℤ) (p : Poller) → Cycles d p (with_status d failed_status p, ok tt)
unsupported-Cycles d p = record {
  queue = Grows-refl p.stores.queue;
  others = λ j differ. status-with_status_other j d failed_status p differ;
  marked = inr (status-with_status_same d failed_status p, refl, refl);
}

on_connection-Cycles :
    (S : Settings) (D : Driver) (device : Value) (now : Float) (d : ℤ) (r : Result (Value × List ℕ))
    (p : Poller)
    → Cycles d p (or_failed d (on_connection S D device now d r p))
on_connection-Cycles S D device now d (err e) p = raised-Cycles d p e
on_connection-Cycles S D device now d (ok (connection, comm)) p =
    elim (Bool-cases (is_rtu comm || is_tcp comm)) [
      | inl known ↦
          rw known (on_client-Cycles S D device now d (open_client S D comm connection device) p)
      | inr unknown ↦ rw unknown (unsupported-Cycles d p)
    ]

pub run_device-Cycles :
    (S : Settings) (D : Driver) (now : Float) (device : Value) (d : ℤ) (p : Poller)
    → (item "id" device >>= to_int) ≡ ok d
    → Cycles d p (run_device S D false now device p)
unfolding run_device run_locked
run_device-Cycles S D now device d p known = rw known (
    on_connection-Cycles S D device now d
      (do
        connection ← connection_of device
        comm ← communication_type S device
        ok (connection, comm))
      p)

-- The same from a valid queue, with the status of every device said at once.
pub record IsCycle (d : ℤ) (p : Poller) (out : End) : Type 0 where
  pub queue : IsLonger p.stores.queue out.0.stores.queue
  pub statuses : (j : ℤ) → status_of j out.0 ≡ (if j == d then status_of d out.0 else status_of j p)
  pub marked : Marked d p out

Cycles-IsCycle :
    (d : ℤ) (p : Poller) (out : End) → IsValid p.stores.queue → Cycles d p out → IsCycle d p out
Cycles-IsCycle d p out v c = record {
  queue = Grows-IsLonger p.stores.queue out.0.stores.queue c.queue v;
  statuses = λ j. elim (Bool-cases (j == d)) [
    | inl mine ↦ rw mine (ap (λ i. status_of i out.0) ((==_iff j d).0 mine))
    | inr other ↦ rw other (c.others j other)
  ];
  marked = c.marked;
}

-- From a valid queue, whatever the bus, the device and the tags do, a cycle of a device whose lock is
-- free leaves the queue valid and keeps its waiting messages in order, with new ones after them; it
-- leaves the status of every other device; and the device is marked failed if the cycle raises, and
-- if it returns either marked connected or, with no reading saved and no poll time set, failed.
pub run_device-IsCycle :
    (S : Settings) (D : Driver) (now : Float) (device : Value) (d : ℤ) (p : Poller)
    → IsValid p.stores.queue
    → (item "id" device >>= to_int) ≡ ok d
    → IsCycle d p (run_device S D false now device p)
run_device-IsCycle S D now device d p v known =
    Cycles-IsCycle d p _ v (run_device-Cycles S D now device d p known)
