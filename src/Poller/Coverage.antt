-- ===== src/Poller/Coverage.antt =====
-- Which devices a pass reaches.
use bbjsensescada.Common.{ℕ, suc, ◌≡◌, refl, inl, inr, Bool, true, false, List, [], ◌∷◌, ◌++◌, All}
use bbjsensescada.Common.Int.{ℤ, int_eq}
use bbjsensescada.Python.{Error, ok, err, ◌>>=◌, Result-cases}
use bbjsensescada.Python.Value.{Value, obj, item, get, to_int}
use bbjsensescada.Modbus.{Settings}
use bbjsensescada.Commands.{devices_of}
use bbjsensescada.Poller.Defs.{Driver}
use bbjsensescada.Poller.Device.{Poller, run_device}
use bbjsensescada.Poller.Cycle.{End, run_device-Cycles}
use bbjsensescada.Poller.Pass.{
  Moment, logged, go_past, poll_devices, poll_pass, HasStatus, Marked-HasStatus,
  poll_devices-Extends,
}

abbrev pub is_dict : Value → Bool
is_dict (obj fs) = true
is_dict _ = false

-- The handler of a dict's exception goes on with the later devices.
go_past-dict :
    (device : Value) (later : Poller → End) (out : End)
    → is_dict device ≡ true
    → go_past device later out ≡ later out.0
go_past-dict device later (p, ok u) h = refl
go_past-dict (obj fs) later (p, err e) h = refl
go_past-dict _ later (p, err e) h = cc

poll-HasStatus :
    (S : Settings) (D : Driver) (at : ℕ → Moment) (n : ℕ) (before after : List Value)
    (device : Value) (d : ℤ) (p : Poller)
    → All (λ v. is_dict v ≡ true) before
    → is_dict device ≡ true
    → (item "id" device >>= to_int) ≡ ok d
    → ((k : ℕ) → (at k).busy ≡ false)
    → HasStatus d (poll_devices S D at n (before ++ device ∷ after) p).0
unfolding poll_devices
poll-HasStatus S D at n [] after device d p dicts dict known free =
    let cycle = run_device-Cycles S D (at n).now device d p known in
    rw (free n, go_past-dict device _ _ dict)
      ((poll_devices-Extends S D at (suc n) after _).statuses d
        (Marked-HasStatus d p _ cycle.marked))
poll-HasStatus S D at n (other ∷ before) after device d p (here, dicts) dict known free =
    rw (go_past-dict other _ _ here)
      (poll-HasStatus S D at (suc n) before after device d _ dicts dict known free)

-- However the other devices fail, after a pass each device whose id can be read has a status: if its
-- entry and those before it are dicts and no other thread holds a device's lock.
pub poll_pass-HasStatus :
    (S : Settings) (D : Driver) (at : ℕ → Moment) (configuration : Value)
    (before after : List Value) (device : Value) (d : ℤ) (p : Poller)
    → devices_of configuration ≡ ok (before ++ device ∷ after)
    → All (λ v. is_dict v ≡ true) before
    → is_dict device ≡ true
    → (item "id" device >>= to_int) ≡ ok d
    → ((k : ℕ) → (at k).busy ≡ false)
    → HasStatus d (poll_pass S D at configuration p).0
unfolding poll_pass
poll_pass-HasStatus S D at configuration before after device d p listed dicts dict known free =
    rw listed (poll-HasStatus S D at 0 before after device d p dicts dict known free)

run_device-other :
    (S : Settings) (D : Driver) (m : Moment) (bad : Value) (p : Poller)
    → is_dict bad ≡ false
    → (e : Error) × (run_device S D m.busy m.now bad p ≡ (p, err e))
unfolding run_device
run_device-other S D m (obj fs) p h = cc
run_device-other S D m _ p h = (_, refl)

logged-other :
    (bad : Value) (later later' : Poller → End) (p : Poller)
    → is_dict bad ≡ false
    → logged bad later p ≡ logged bad later' p
logged-other (obj fs) later later' p h = cc
logged-other _ later later' p h = refl

go_past_alike :
    (device : Value) (later later' : Poller → End) (out : End)
    → ((q : Poller) → later q ≡ later' q)
    → go_past device later out ≡ go_past device later' out
go_past_alike device later later' (p, ok u) h = h p
go_past_alike device later later' (p, err e) h = elim (Result-cases (get "device_name" device)) [
  | inl (name, is_dict) ↦ rw (is_dict, logged) (h p)
  | inr (e', other) ↦ rw (other, logged) refl
]

-- An entry that is not a dict ends the pass: what the later entries are makes no difference.
pub poll_devices-ends :
    (S : Settings) (D : Driver) (at : ℕ → Moment) (n : ℕ) (before after : List Value) (bad : Value)
    (p : Poller)
    → is_dict bad ≡ false
    → poll_devices S D at n (before ++ bad ∷ after) p ≡ poll_devices S D at n (before ++ bad ∷ []) p
unfolding poll_devices
poll_devices-ends S D at n [] after bad p h =
    let (e, raises) = run_device-other S D (at n) bad p h in
    rw raises
      (logged-other bad (poll_devices S D at (suc n) after) (poll_devices S D at (suc n) []) p h)
poll_devices-ends S D at n (device ∷ before) after bad p h =
    go_past_alike device (poll_devices S D at (suc n) (before ++ bad ∷ after))
      (poll_devices S D at (suc n) (before ++ bad ∷ []))
      (run_device S D (at n).busy (at n).now device p)
      (λ q. poll_devices-ends S D at (suc n) before after bad q h)
