-- ===== src/Examples/Threads.antt =====
-- The threads of the service together, and the health report.
use bbjsensescada.DeviceStatus.{count_values}
use bbjsensescada.DeviceStatus.{insert_field}
use bbjsensescada.Service.{interval_over}
use bbjsensescada.Poller.Pass.{poll_devices}
use bbjsensescada.Common.{◌≡◌, refl, [], ◌∷◌, none, some, true, false, List, ℕ, contains, string_eq}
use bbjsensescada.Common.Int.{pos}
use bbjsensescada.Python.{ok, err, request_error}
use bbjsensescada.Python.Value.{Value, int, float, str, obj, field, end}
use bbjsensescada.Queue.{Json, new_table}
use bbjsensescada.Queue.Invariant.{enqueue, perform}
use bbjsensescada.Upload.{Cloud, classify}
use bbjsensescada.Queue.{get_pending_messages, enqueue_telemetry, refusal}
use bbjsensescada.Python.Float.{le_float, is_nan}
use bbjsensescada.Python.Value.{to_int, to_float, truthy}
use bbjsensescada.Poller.{Poller, connected_status}
use bbjsensescada.Poller.Pass.{Moment, poll_pass, poll_devices}
use bbjsensescada.DeviceStatus.Counts.{devices_with}
use bbjsensescada.Service.{
  Service, Turn, PassTime, poll, flush, clean_buffer, clean_history, evaluate, thread_turns,
  poll_turn,
}
use bbjsensescada.Service.{interval_over}
use bbjsensescada.Upload.Steps.{resting, round_step}
use bbjsensescada.Service.{thread_turn, flush_turn}
use bbjsensescada.Service.Kept.{taken_in, queued, thread_turns-keep}
use bbjsensescada.Health.{Host, build_health_payload}
use bbjsensescada.Health.Counts.{Tells, build_health_payload-Tells}
use bbjsensescada.Alarms.{Setting}
use bbjsensescada.Examples.Inputs.{
  repr, arithmetic, json, settings, reading, meter, idle, fifty, zero_value,
}

-- No network.
abbrev offline : Cloud
offline = record {
  json = json;
  arithmetic = arithmetic;
  repr = repr;
  post = λ items. err (request_error "timeout");
  clock = λ m. "now";
}

abbrev moments : ℕ → Moment
moments n = record { busy = false; now = fifty }

-- Any file holds one device that is connected.
abbrev one_device : Json
one_device = record {
  dumps = λ v. "text";
  loads = λ s. some (obj (field "?" (str "connected") end));
}

abbrev pass_time : PassTime
pass_time = record { json = one_device; disk = none; now = fifty }

-- One message waits and one device is connected.
abbrev poller : Poller
poller = record idle {
  stores = record idle.stores { queue = perform (enqueue json "a" "t1" reading) new_table };
  device_status = (pos 1, connected_status) ∷ [];
}

abbrev started : Service
started = record {
  poller = poller;
  status_file = none;
  last_device_status_write = zero_value;
  last_batch_flush = zero_value;
  round = resting;
}

-- No device is to be polled.
abbrev unused : Value
unused = obj end

abbrev evaluator_setting : Setting
evaluator_setting = record { seconds_between = λ now timestamp. zero_value; shadow_mode = true }

abbrev some_turns : List Turn
some_turns =
    flush offline fifty
    ∷ poll settings meter moments pass_time unused
    ∷ flush offline fifty
    ∷ clean_buffer
    ∷ flush offline fifty
    ∷ evaluate evaluator_setting 1
    ∷ clean_history "2026"
    ∷ flush offline fifty
    ∷ []

thread_turns-keep_example : contains (queued (thread_turns some_turns started)) "a" ≡ true
unfolding thread_turn flush_turn taken_in round_step get_pending_messages classify string_eq to_int
    to_float truthy interval_over le_float perform enqueue_telemetry refusal is_nan poll_devices
thread_turns-keep_example =
    thread_turns-keep some_turns started "a"
      (refl, (refl, (refl, (refl, (refl, (refl, (refl, (refl, tt)))))))) refl

abbrev host : Host
host = record {
  json = one_device;
  arithmetic = arithmetic;
  gateway_id = "gateway";
  gateway_name = "site";
  routed_address = none;
  named_address = some "10.0.0.2";
  cpu_percent = ok (float fifty);
  memory_percent = ok (float fifty);
  disk_percent = ok (float fifty);
  now = zero_value;
  boot_time = zero_value;
  hostname = "host";
  operating_system = "Windows";
  post = λ v. ok (obj end);
}

abbrev payload : Value
payload = obj (
    field "gateway_id" (str "gateway") (
      field "gateway_name" (str "site") (
        field "status" (str "online") (
          field "cpu_percent" (float fifty) (
            field "memory_percent" (float fifty) (
              field "disk_percent" (float fifty) (
                field "uptime_seconds" (int (pos 0)) (
                  field "connected_devices" (int (pos 1)) (
                    field "failed_devices" (int (pos 0)) (
                      field "ip_address" (str "10.0.0.2") (
                        field "hostname" (str "host") (
                          field "operating_system" (str "Windows")
                            (field "app_version" (str "1.0.0") end)))))))))))))

build_health_payload-Tells_example :
    Tells payload
      (devices_with "connected" (poll_pass settings meter moments unused poller).0.device_status)
      (devices_with "failed" (poll_pass settings meter moments unused poller).0.device_status)
unfolding poll_pass poll_devices interval_over insert_field build_health_payload poll_turn
    count_values string_eq
build_health_payload-Tells_example =
    build_health_payload-Tells settings meter moments pass_time unused started host payload refl
      refl refl refl (refl, tt) refl refl
