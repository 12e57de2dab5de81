-- ===== src/Health.antt =====
-- gateway_health_reporter.py. The sockets, psutil, the host's names and the HTTP request are
-- arguments.
pub mod Counts
use bbjsensescada.Common.{ℕ, List, [], ◌∷◌, String, Option, none, some, ◌<>◌}
use bbjsensescada.Common.Int.{ℤ, pos}
use bbjsensescada.Python.{Error, Result, ok, err, request_error, ◌>>=◌}
use bbjsensescada.Python.Float.{Float, Arithmetic, truncate}
use bbjsensescada.Python.Value.{Value, Fields, int, str, obj, field, end}
use bbjsensescada.Queue.{Json}
use bbjsensescada.Modbus.{get_value}
use bbjsensescada.DeviceStatus.{read_device_counts}

-- What a report takes from the host: `none` is the OSError of a socket call.
pub record Host : Type 0 where
  pub json : Json
  pub arithmetic : Arithmetic
  pub gateway_id : String
  pub gateway_name : String
  pub routed_address : Option String
  pub named_address : Option String
  pub cpu_percent : Result Value
  pub memory_percent : Result Value
  pub disk_percent : Result Value
  pub now : Float
  pub boot_time : Float
  pub hostname : String
  pub operating_system : String
  pub post : Value → Result Value

abbrev pub by_name : Option String → String
by_name none = "127.0.0.1"
by_name (some address) = address

abbrev pub by_route : Option String → Option String → String
by_route none named = by_name named
by_route (some address) named = address

unfoldable pub get_ip_address : Host → String
get_ip_address H = by_route H.routed_address H.named_address

unfoldable pub get_uptime_seconds : Host → Result ℤ
unfolding truncate
get_uptime_seconds H = truncate (H.arithmetic.sub H.now H.boot_time)

abbrev pub app_version : String
app_version = "1.0.0"

-- The values are computed in the order of the dict display; `file` is the text of the status file.
unfoldable pub build_health_payload : Host → Option String → Result Value
unfolding get_ip_address get_uptime_seconds read_device_counts
build_health_payload H file = do
  (connected_devices, failed_devices) ← read_device_counts H.json file
  cpu_percent ← H.cpu_percent
  memory_percent ← H.memory_percent
  disk_percent ← H.disk_percent
  uptime_seconds ← get_uptime_seconds H
  ok (
      obj (
        field "gateway_id" (str H.gateway_id) (
          field "gateway_name" (str H.gateway_name) (
            field "status" (str "online") (
              field "cpu_percent" cpu_percent (
                field "memory_percent" memory_percent (
                  field "disk_percent" disk_percent (
                    field "uptime_seconds" (int uptime_seconds) (
                      field "connected_devices" (int (pos connected_devices)) (
                        field "failed_devices" (int (pos failed_devices)) (
                          field "ip_address" (str (get_ip_address H)) (
                            field "hostname" (str H.hostname) (
                              field "operating_system" (str H.operating_system)
                                (field "app_version" (str app_version) end))))))))))))))

-- The id of the record that the cloud makes.
unfoldable pub send_health_report : Host → Option String → Result Value
unfolding build_health_payload
send_health_report H file = do
  payload ← build_health_payload H file
  result ← H.post payload
  get_value "id" result

-- What a turn of `main` logs; no exception leaves it.
pub data Logged : Type 0 where
  sent : Value → Logged
  upload_failed : String → Logged
  unexpected : Error → Logged

abbrev pub logged_of : Result Value → Logged
logged_of (ok record_id) = sent record_id
logged_of (err (request_error s)) = upload_failed s
logged_of (err e) = unexpected e

-- The turns of `while True`, each with the host and the status file that it meets.
unfoldable pub reports : List (Host × Option String) → List Logged
unfolding send_health_report
reports [] = []
reports ((H, file) ∷ turns) = logged_of (send_health_report H file) ∷ reports turns
