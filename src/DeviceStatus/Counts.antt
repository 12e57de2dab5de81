-- ===== src/DeviceStatus/Counts.antt =====
-- The counts that are read, beside DEVICE_STATUS.
use bbjsensescada.Common.{
  ℕ, ◌+◌, ◌≡◌, refl, ◌∙◌, Bool, false, List, [], ◌∷◌, map, String, Option, none, some,
  if◌then◌else◌, ◌==◌, ==_comm, string_eq, arith, Bool-cases, inl, inr, contains, length, All, ◌||◌,
}
use bbjsensescada.Common.Int.{ℤ}
use bbjsensescada.Common.Dict.{Dict}
use bbjsensescada.Python.{ok}
use bbjsensescada.Python.Value.{Value, Repr, int, str, obj, Fields, end, field}
use bbjsensescada.Queue.{Json}
use bbjsensescada.Queue.Invariant.{Unique}
use bbjsensescada.Poller.{Status, connected_status, failed_status}
use bbjsensescada.DeviceStatus.{
  status_text, insert_field, payload_from, write_device_status, count_values, read_device_counts,
}

-- How many devices have the status s.
abbrev pub devices_with : String → Dict ℤ Status → ℕ
devices_with s [] = 0
devices_with s ((device_id, status) ∷ d) =
    if status_text status == s then 1 + devices_with s d else devices_with s d

-- The texts of the ids.
abbrev pub id_texts : Repr → Dict ℤ Status → List String
id_texts R d = map (λ ((device_id, status) : ℤ × Status). R (int device_id)) d

abbrev has_field : String → Fields → Bool
has_field k end = false
has_field k (field j v fs) = k == j || has_field k fs

has_field-insert_field :
    (j k : String) (v : Value) (fs : Fields)
    → has_field j (insert_field k v fs) ≡ (j == k || has_field j fs)
unfolding insert_field
has_field-insert_field j k v end = refl
has_field-insert_field j k v (field i w fs) = ground (arith, has_field-insert_field j k v fs)

count_values-insert_field :
    (s k t : String) (fs : Fields)
    → has_field k fs ≡ false
    → count_values s (insert_field k (str t) fs)
      ≡ (if t == s then 1 + count_values s fs else count_values s fs)
unfolding insert_field count_values
count_values-insert_field s k t end h = refl
count_values-insert_field s k t (field j w fs) h =
    ground (arith, count_values-insert_field s k t fs)

abbrev AllNew : List String → Fields → Type 0
AllNew ts fs = All (λ t. has_field t fs ≡ false) ts

AllNew-insert_field :
    (ts : List String) (k : String) (v : Value) (fs : Fields)
    → contains ts k ≡ false
    → AllNew ts fs
    → AllNew ts (insert_field k v fs)
AllNew-insert_field [] k v fs apart h = tt
AllNew-insert_field (t ∷ ts) k v fs apart (new, h) = (
  has_field-insert_field t k v fs ∙ ground (arith, ==_comm t k),
  AllNew-insert_field ts k v fs (ground arith) h,
)

count_values-payload_from :
    (R : Repr) (s : String) (d : Dict ℤ Status) (fs : Fields)
    → Unique (id_texts R d)
    → AllNew (id_texts R d) fs
    → count_values s (payload_from R d fs) ≡ devices_with s d + count_values s fs
count_values-payload_from R s [] fs u h = omega arith
count_values-payload_from R s ((device_id, status) ∷ d) fs (apart, u) (new, h) =
    let k = R (int device_id) in
    let text = status_text status in
    let fs' = insert_field k (str text) fs in
    let rest =
      count_values-payload_from R s d fs' u
        (AllNew-insert_field (id_texts R d) k (str text) fs apart h) in
    let here = count_values-insert_field s k text fs new in
    elim (Bool-cases (text == s)) [
      | inl same ↦ rw same (omega (arith, rest, rw same at here))
      | inr other ↦ rw other (omega (arith, rest, rw other at here))
    ]

AllNew-end : (ts : List String) → AllNew ts end
AllNew-end [] = tt
AllNew-end (t ∷ ts) = (refl, AllNew-end ts)

-- The whole payload.
counted_payload :
    (R : Repr) (s : String) (d : Dict ℤ Status)
    → Unique (id_texts R d)
    → count_values s (payload_from R d end) ≡ devices_with s d
unfolding count_values
counted_payload R s d u =
    omega (arith, count_values-payload_from R s d end u (AllNew-end (id_texts R d)))

split_by_status :
    (d : Dict ℤ Status) → devices_with "connected" d + devices_with "failed" d ≡ length d
unfolding string_eq
split_by_status [] = refl
split_by_status ((device_id, connected_status) ∷ d) = omega (arith, split_by_status d)
split_by_status ((device_id, failed_status) ∷ d) = omega (arith, split_by_status d)

-- After the poller has written DEVICE_STATUS, the reporter reads how many devices are connected and
-- how many failed, and the two add up to the number of devices; if the texts of their ids differ and
-- the JSON codec gives the payload back.
pub read_device_counts-write_device_status :
    (J : Json) (R : Repr) (status_by_device : Dict ℤ Status) (file : Option String)
    → Unique (id_texts R status_by_device)
    → J.loads (J.dumps (obj (payload_from R status_by_device end)))
      ≡ some (obj (payload_from R status_by_device end))
    → (read_device_counts J (write_device_status J R none status_by_device file).0
        ≡ ok (devices_with "connected" status_by_device, devices_with "failed" status_by_device))
      × (devices_with "connected" status_by_device + devices_with "failed" status_by_device
          ≡ length status_by_device)
unfolding read_device_counts write_device_status count_values
read_device_counts-write_device_status J R d file u codec =
    let connected = counted_payload R "connected" d u in
    let failed = counted_payload R "failed" d u in
    (rw (codec, connected, failed) refl, split_by_status d)
