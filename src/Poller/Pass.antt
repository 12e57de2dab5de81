-- ===== src/Poller/Pass.antt =====
-- `main`: one pass over the devices of the configuration.
use bbjsensescada.Common.{
  ℕ, suc, ◌≡◌, ◌∙◌, inl, inr, Bool, true, false, List, [], ◌∷◌, some, ◌==◌, ==_iff, Bool-cases,
}
use bbjsensescada.Common.Int.{ℤ, int_eq}
use bbjsensescada.Python.{Result, ok, err, ◌>>=◌, Result-cases}
use bbjsensescada.Python.Float.{Float}
use bbjsensescada.Python.Value.{Value, item, get, to_int}
use bbjsensescada.Modbus.{Settings}
use bbjsensescada.Commands.{devices_of}
use bbjsensescada.Poller.Defs.{Driver}
use bbjsensescada.Poller.Device.{
  Status, connected_status, failed_status, Poller, run_device, run_locked,
}
use bbjsensescada.Queue.Invariant.{IsValid}
use bbjsensescada.Poller.Readings.{IsLonger, Grows-IsLonger, Grows, Grows-refl, Grows-trans}
use bbjsensescada.Poller.Cycle.{End, status_of, Marked, Cycles, run_device-Cycles}

-- What `run_device` meets: whether another thread holds the device's lock, and the monotonic clock.
pub record Moment : Type 0 where
  pub busy : Bool
  pub now : Float

-- The inner handler logs `device.get("device_name")`, which raises for what is no dict.
abbrev pub logged : Value → (Poller → End) → Poller → End
logged device later p = elim (get "device_name" device) [ ok name ↦ later p | err e ↦ (p, err e) ]

abbrev pub go_past : Value → (Poller → End) → End → End
go_past device later (p, ok u) = later p
go_past device later (p, err e) = logged device later p

-- The inner loop; the n-th call of `run_device` meets the n-th moment.
unfoldable pub poll_devices : Settings → Driver → (ℕ → Moment) → ℕ → List Value → Poller → End
poll_devices S D at n [] p = (p, ok tt)
poll_devices S D at n (device ∷ devices) p =
    go_past device (poll_devices S D at (suc n) devices)
      (run_device S D (at n).busy (at n).now device p)

abbrev pub over_devices : (List Value → End) → Poller → Result (List Value) → End
over_devices f p (ok devices) = f devices
over_devices f p (err e) = (p, err e)

-- The outer `try`, whose exception is logged.
unfoldable pub poll_pass : Settings → Driver → (ℕ → Moment) → Value → Poller → End
poll_pass S D at configuration p =
    over_devices (λ devices. poll_devices S D at 0 devices p) p (devices_of configuration)

-- The device has a status.
abbrev pub HasStatus : ℤ → Poller → Type 0
HasStatus d p = (s : Status) × (status_of d p ≡ some s)

-- What a part of the pass keeps: the queue grows and no device loses its status.
pub record Extends (p q : Poller) : Type 0 where
  pub queue : Grows p.stores.queue q.stores.queue
  pub statuses : (d : ℤ) → HasStatus d p → HasStatus d q

Extends-refl : (p : Poller) → Extends p p
Extends-refl p = record { queue = Grows-refl p.stores.queue; statuses = λ d h. h }

Extends-trans : (p q r : Poller) → Extends p q → Extends q r → Extends p r
Extends-trans p q r a b = record {
  queue = Grows-trans p.stores.queue q.stores.queue r.stores.queue a.queue b.queue;
  statuses = λ d h. b.statuses d (a.statuses d h);
}

pub Marked-HasStatus : (d : ℤ) (p : Poller) (out : End) → Marked d p out → HasStatus d out.0
Marked-HasStatus d p (q, ok u) (inl h) = (connected_status, h)
Marked-HasStatus d p (q, ok u) (inr (h, _, _)) = (failed_status, h)
Marked-HasStatus d p (q, err e) h = (failed_status, h)

cycle-Extends : (d : ℤ) (p : Poller) (out : End) → Cycles d p out → Extends p out.0
cycle-Extends d p out c = record {
  queue = c.queue;
  statuses = λ j h. elim (Bool-cases (j == d)) [
    | inl mine ↦ rw ((==_iff j d).0 mine) (Marked-HasStatus d p out c.marked)
    | inr other ↦ (h.0, c.others j other ∙ h.1)
  ];
}

run_device-Extends :
    (S : Settings) (D : Driver) (busy : Bool) (now : Float) (device : Value) (p : Poller)
    → Extends p (run_device S D busy now device p).0
unfolding run_device run_locked
run_device-Extends S D true now device p = elim (Result-cases (item "id" device >>= to_int)) [
  | inr (e, bad) ↦ rw bad (Extends-refl p)
  | inl (d, known) ↦ rw known (Extends-refl p)
]
run_device-Extends S D false now device p = elim (Result-cases (item "id" device >>= to_int)) [
  | inr (e, bad) ↦ rw bad (Extends-refl p)
  | inl (d, known) ↦ cycle-Extends d p _ (run_device-Cycles S D now device d p known)
]

logged-Extends :
    (device : Value) (later : Poller → End) (p : Poller)
    → ((q : Poller) → Extends q (later q).0)
    → Extends p (logged device later p).0
logged-Extends device later p h = elim (Result-cases (get "device_name" device)) [
  | inl (name, is_dict) ↦ rw (is_dict, logged) (h p)
  | inr (e, other) ↦ rw (other, logged) (Extends-refl p)
]

go_past-Extends :
    (device : Value) (later : Poller → End) (out : End)
    → ((q : Poller) → Extends q (later q).0)
    → Extends out.0 (go_past device later out).0
go_past-Extends device later (p, ok u) h = h p
go_past-Extends device later (p, err e) h = logged-Extends device later p h

pub poll_devices-Extends :
    (S : Settings) (D : Driver) (at : ℕ → Moment) (n : ℕ) (devices : List Value) (p : Poller)
    → Extends p (poll_devices S D at n devices p).0
unfolding poll_devices
poll_devices-Extends S D at n [] p = Extends-refl p
poll_devices-Extends S D at n (device ∷ devices) p =
    let out = run_device S D (at n).busy (at n).now device p in
    Extends-trans p out.0 _ (run_device-Extends S D (at n).busy (at n).now device p) (
      go_past-Extends device (poll_devices S D at (suc n) devices) out
        (poll_devices-Extends S D at (suc n) devices))

pub poll_pass-Grows :
    (S : Settings) (D : Driver) (at : ℕ → Moment) (configuration : Value) (p : Poller)
    → Grows p.stores.queue (poll_pass S D at configuration p).0.stores.queue
unfolding poll_pass
poll_pass-Grows S D at configuration p = elim (Result-cases (devices_of configuration)) [
  | inl (devices, listed) ↦ rw listed (poll_devices-Extends S D at 0 devices p).queue
  | inr (e, bad) ↦ rw bad (Grows-refl p.stores.queue)
]

-- A pass over the configuration, whatever it holds and however its devices, the bus and the cloud
-- behave, leaves a valid queue valid and its waiting messages in order, with new ones only after them.
pub poll_pass-IsLonger :
    (S : Settings) (D : Driver) (at : ℕ → Moment) (configuration : Value) (p : Poller)
    → IsValid p.stores.queue
    → IsLonger p.stores.queue (poll_pass S D at configuration p).0.stores.queue
poll_pass-IsLonger S D at configuration p v =
    Grows-IsLonger _ _ (poll_pass-Grows S D at configuration p) v
