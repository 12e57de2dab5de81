-- ===== src/Health/Counts.antt =====
-- gateway_health_reporter.py after a pass of the poller: the numbers of devices in the report.
use bbjsensescada.Common.{ℕ, ◌≡◌, refl, sym, string_eq, true, Option, none, some, String}
use bbjsensescada.Common.Int.{pos}
use bbjsensescada.Python.{ok, bind_ok, ok-injective}
use bbjsensescada.Python.Value.{Value, obj, int, get, end}
use bbjsensescada.Queue.Invariant.{Unique}
use bbjsensescada.Modbus.{Settings}
use bbjsensescada.Poller.{Driver, Poller}
use bbjsensescada.Poller.Pass.{Moment, poll_pass}
use bbjsensescada.DeviceStatus.{payload_from, read_device_counts, write_device_status}
use bbjsensescada.DeviceStatus.Counts.{
  devices_with, id_texts, read_device_counts-write_device_status,
}
use bbjsensescada.Service.{Service, PassTime, poll_turn, interval_over}
use bbjsensescada.Health.{Host, get_uptime_seconds, build_health_payload}

-- What a report says of the devices.
abbrev pub Tells : Value → ℕ → ℕ → Type 0
Tells payload connected failed =
    (get "connected_devices" payload ≡ ok (some (int (pos connected))))
    × (get "failed_devices" payload ≡ ok (some (int (pos failed))))

payload-Tells :
    (H : Host) (file : Option String) (payload : Value) (connected failed : ℕ)
    → read_device_counts H.json file ≡ ok (connected, failed)
    → build_health_payload H file ≡ ok payload
    → Tells payload connected failed
unfolding build_health_payload string_eq
payload-Tells H file payload connected failed counts h =
    let (cpu, _, h1) = bind_ok H.cpu_percent _ (rw counts at h) in
    let (memory, _, h2) = bind_ok H.memory_percent _ h1 in
    let (disk, _, h3) = bind_ok H.disk_percent _ h2 in
    let (uptime, _, h4) = bind_ok (get_uptime_seconds H) _ h3 in
    rw (sym (ok-injective h4)) (refl, refl)

-- The turn writes the file that the reporter reads.
abbrev pub file_after : Settings → PassTime → Poller → Option String → Option String
file_after S T p file = (write_device_status T.json S.repr none p.device_status file).0

poll_turn-file :
    (S : Settings) (D : Driver) (at : ℕ → Moment) (T : PassTime) (configuration : Value)
    (s : Service)
    → (poll_pass S D at configuration s.poller).1 ≡ ok tt
    → interval_over S.arithmetic T.now s.last_device_status_write ≡ true
    → T.disk ≡ none
    → (poll_turn S D at T configuration s).status_file
      ≡ file_after S T (poll_pass S D at configuration s.poller).0 s.status_file
unfolding poll_turn
poll_turn-file S D at T configuration s whole due disk = rw (whole, due, disk) refl

-- After a pass that was not cut short and whose status file was due and could be written, a health
-- report that is built tells the cloud how many devices the poller has connected and how many have
-- failed; if the texts of their ids differ and the JSON codec gives the status file back.
pub build_health_payload-Tells :
    (S : Settings) (D : Driver) (at : ℕ → Moment) (T : PassTime) (configuration : Value)
    (s : Service) (H : Host) (payload : Value)
    → (poll_pass S D at configuration s.poller).1 ≡ ok tt
    → interval_over S.arithmetic T.now s.last_device_status_write ≡ true
    → T.disk ≡ none
    → H.json ≡ T.json
    → Unique (id_texts S.repr (poll_pass S D at configuration s.poller).0.device_status)
    → T.json.loads (
        T.json.dumps
          (obj (payload_from S.repr (poll_pass S D at configuration s.poller).0.device_status end)))
      ≡ some
          (obj (payload_from S.repr (poll_pass S D at configuration s.poller).0.device_status end))
    → build_health_payload H (poll_turn S D at T configuration s).status_file ≡ ok payload
    → Tells payload
        (devices_with "connected" (poll_pass S D at configuration s.poller).0.device_status)
        (devices_with "failed" (poll_pass S D at configuration s.poller).0.device_status)
build_health_payload-Tells S D at T configuration s H payload whole due disk json unique codec h =
    let p = (poll_pass S D at configuration s.poller).0 in
    let file = poll_turn-file S D at T configuration s whole due disk in
    let counts =
      (read_device_counts-write_device_status T.json S.repr p.device_status s.status_file unique
        codec).0 in
    payload-Tells H (poll_turn S D at T configuration s).status_file payload _ _
      (rw (json, file) counts) h
