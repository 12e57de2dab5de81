-- ===== src/Poller/Device.antt =====
-- `run_device`: the poll of a device's tags and its status. The lock, the clocks and pymodbus are arguments.
use bbjsensescada.Common.{
  ℕ, Bool, true, false, ◌||◌, List, [], ◌∷◌, Option, none, some, string_eq, if◌then◌else◌,
}
use bbjsensescada.Common.Int.{ℤ, int_eq, pair_eq}
use bbjsensescada.Common.Dict.{Dict, lookup, insert}
use bbjsensescada.Python.{Result, ok, err, ◌>>=◌, ◌>>◌}
use bbjsensescada.Python.Float.{Float, lt_float}
use bbjsensescada.Python.Value.{Value, boolean, get_or, item, to_int, truthy}
use bbjsensescada.Modbus.{
  Settings, Client, communication_type, is_rtu, is_tcp, create_modbus_client, connection_of,
}
use bbjsensescada.Commands.{connected, device_name, tags_of}
use bbjsensescada.Poller.Defs.{Driver, Stores, process_tag, or_stores, zero_float, two, float_or}

pub data Status : Type 0 where
  connected_status failed_status : Status

-- DEVICE_STATUS, the poll times of `main` and the stores.
pub record Poller : Type 0 where
  pub stores : Stores
  pub device_status : Dict ℤ Status
  pub last_poll_times : Dict (ℤ × ℤ) Float

abbrev or_zero : Option Float → Float
or_zero none = zero_float
or_zero (some x) = x

abbrev pub is_early : Settings → Float → Float → Option Float → Bool
is_early S now poll_interval previous =
    lt_float (S.arithmetic.sub now (or_zero previous)) poll_interval

-- The end of a turn: the tag is polled, its exception is logged, its poll time is set.
abbrev pub polled : Settings → Driver → Client → Value → Float → Value → ℤ × ℤ → Poller → Poller
polled S D c device now tag key p = record p {
  stores = or_stores p.stores (process_tag S D c device tag p.stores);
  last_poll_times = insert key now p.last_poll_times;
}

abbrev pub key_of : Value → Value → Result (ℤ × ℤ)
key_of device tag = do d ← item "id" device >>= to_int; t ← item "id" tag >>= to_int; ok (d, t)

-- What the loop learns of a tag before it polls it: skipped if it is disabled, else key and interval.
unfoldable pub plan_of : Settings → Value → Value → Result (Option ((ℤ × ℤ) × Float))
plan_of S device tag = do
  enabled ← get_or "enabled" (boolean true) tag
  elim (truthy enabled) [
    | false ↦ ok none
    | true ↦ do
      key ← key_of device tag
      poll_interval ← float_or S "poll_interval" two tag
      ok (some (key, poll_interval))
  ]

abbrev pub turn :
    Settings → Driver → Client → Value → Float → Value → Option ((ℤ × ℤ) × Float) → Poller → Poller
turn S D c device now tag none p = p
turn S D c device now tag (some (key, poll_interval)) p =
    if is_early S now poll_interval (lookup key p.last_poll_times)
    then p
    else polled S D c device now tag key p

abbrev pub on_plan :
    (Option ((ℤ × ℤ) × Float) → Poller × Result (Unit {0}))
    → Poller
    → Result (Option ((ℤ × ℤ) × Float))
    → Poller × Result (Unit {0})
on_plan f p (ok plan) = f plan
on_plan f p (err e) = (p, err e)

-- The loop over the tags; an exception of `plan_of` leaves it, with what was done before.
unfoldable pub poll_tags :
    Settings → Driver → Client → Value → Float → List Value → Poller → Poller × Result (Unit {0})
poll_tags S D c device now [] p = (p, ok tt)
poll_tags S D c device now (tag ∷ tags) p =
    on_plan (λ plan. poll_tags S D c device now tags (turn S D c device now tag plan p)) p
      (plan_of S device tag)

abbrev pub with_status : ℤ → Status → Poller → Poller
with_status d s p = record p { device_status = insert d s p.device_status }

-- The `except` that sets the status and raises again.
abbrev pub or_failed : ℤ → Poller × Result (Unit {0}) → Poller × Result (Unit {0})
or_failed d (p, ok u) = (p, ok u)
or_failed d (p, err e) = (with_status d failed_status p, err e)

abbrev pub loop_tags :
    Settings
    → Driver
    → Client
    → Value
    → Float
    → Result (List Value)
    → Poller
    → Poller × Result (Unit {0})
loop_tags S D c device now (ok tags) p = poll_tags S D c device now tags p
loop_tags S D c device now (err e) p = (p, err e)

abbrev pub on_client :
    Settings → Driver → Value → Float → ℤ → Result Client → Poller → Poller × Result (Unit {0})
on_client S D device now d (ok c) p =
    loop_tags S D c device now (tags_of device) (with_status d connected_status p)
on_client S D device now d (err e) p = (p, err e)

-- The client once it is connected.
abbrev pub open_client : Settings → Driver → List ℕ → Value → Value → Result Client
open_client S D comm connection device = do
  c ← create_modbus_client S comm connection
  up ← D.connect c
  connected (device_name S device) up
  ok c

abbrev pub on_connection :
    Settings
    → Driver
    → Value
    → Float
    → ℤ
    → Result (Value × List ℕ)
    → Poller
    → Poller × Result (Unit {0})
on_connection S D device now d (err e) p = (p, err e)
on_connection S D device now d (ok (connection, comm)) p =
    if is_rtu comm || is_tcp comm
    then on_client S D device now d (open_client S D comm connection device) p
    else (with_status d failed_status p, ok tt)

-- `busy` says that another thread holds the device's lock, `now` is the monotonic clock.
unfoldable pub run_locked :
    Settings → Driver → Bool → Float → Value → ℤ → Poller → Poller × Result (Unit {0})
run_locked S D true now device d p = (p, ok tt)
run_locked S D false now device d p = or_failed d (
    on_connection S D device now d
      (do
        connection ← connection_of device
        comm ← communication_type S device
        ok (connection, comm))
      p)

-- The id is read before the lock is taken.
abbrev pub on_id : (ℤ → Poller × Result (Unit {0})) → Poller → Result ℤ → Poller × Result (Unit {0})
on_id f p (ok d) = f d
on_id f p (err e) = (p, err e)

unfoldable pub run_device :
    Settings → Driver → Bool → Float → Value → Poller → Poller × Result (Unit {0})
unfolding run_locked
run_device S D busy now device p =
    on_id (λ d. run_locked S D busy now device d p) p (item "id" device >>= to_int)
