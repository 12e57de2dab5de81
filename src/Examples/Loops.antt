-- ===== src/Examples/Loops.antt =====
-- The loops of the gateway's process.
use bbjsensescada.Alarms.{set_current_alarm_rules}
use bbjsensescada.Common.Dict.{Dict}
use bbjsensescada.Queue.{Json}
use bbjsensescada.Poller.{Status, connected_status, failed_status}
use bbjsensescada.DeviceStatus.{payload_from}
use bbjsensescada.Configuration.{refresh_turn}
use bbjsensescada.Configuration.{download_configuration}
use bbjsensescada.Configuration.{read_config_cache}
use bbjsensescada.Python.Float.{ge_int}
use bbjsensescada.Python.Value.{truthy}
use bbjsensescada.Common.Int.{int_eq}
use bbjsensescada.Python.Value.{to_int}
use bbjsensescada.Common.{nat_eq, Bool, string_eq}
use bbjsensescada.Common.{ℕ, ◌≡◌, refl, true, false, none, some, All, eqb, if◌then◌else◌, [], ◌∷◌}
use bbjsensescada.Common.Int.{ℤ, pos}
use bbjsensescada.Python.{ok}
use bbjsensescada.Commands.{Reply, fetch_pending_commands, commands_round}
use bbjsensescada.Commands.Effects.{writes}
use bbjsensescada.Commands.Batch.{
  Acknowledged, Asked, commands_round-Acknowledged, commands_round-Asked,
}
use bbjsensescada.Python.Value.{Value, Repr, boolean, int, str, arr, obj, nil, cons, end, field}
use bbjsensescada.Configuration.{Environment, Site, Meets, start, refresh_turns}
use bbjsensescada.Configuration.Restart.{start-refresh_turns}
use bbjsensescada.Poller.Pass.{Moment, poll_pass, HasStatus}
use bbjsensescada.Poller.Coverage.{poll_pass-HasStatus}
use bbjsensescada.Examples.Inputs.{
  arithmetic, zero_value, answering, command, configuration, settings, device, meter, idle, fifty,
}

-- Both a broken device and a good one.
abbrev broken : Value
broken = obj (field "id" (int (pos 4)) end)

abbrev two_devices : Value
two_devices = obj (field "devices" (arr (cons broken (cons device nil))) end)

abbrev moments : ℕ → Moment
moments n = record { busy = false; now = fifty }

poll_pass-HasStatus_example :
    HasStatus (pos 1) (poll_pass settings meter moments two_devices idle).0
unfolding string_eq to_int
poll_pass-HasStatus_example =
    poll_pass-HasStatus settings meter moments two_devices (broken ∷ []) [] device (pos 1) idle refl
      (refl, tt) refl refl (λ k. refl)

abbrev reply : Reply
reply = record {
  status_code = pos 200;
  status_error = none;
  json = ok (
      obj (
        field "success" (boolean true)
          (field "commands" (arr (cons command (cons (str "?") nil))) end)));
}

fetched : fetch_pending_commands (ok reply) ≡ ok (command ∷ str "?" ∷ [])
unfolding fetch_pending_commands int_eq truthy string_eq
fetched = refl

abbrev always : ℕ → Value
always n = configuration

commands_round-Acknowledged_example :
    Acknowledged 2 (commands_round settings answering always (ok reply))
commands_round-Acknowledged_example =
    commands_round-Acknowledged settings answering always (ok reply) (command ∷ str "?" ∷ [])
      fetched

commands_round-Asked_example :
    All
      (Asked settings answering always 0 (command ∷ str "?" ∷ []))
      (writes (commands_round settings answering always (ok reply)).0)
commands_round-Asked_example =
    commands_round-Asked settings answering always (ok reply) (command ∷ str "?" ∷ []) fetched

abbrev downloaded : Value
downloaded = obj (field "success" (boolean true) end)

abbrev environment : Environment
environment = record {
  json = record { dumps = λ v. "text"; loads = λ s. some downloaded };
  arithmetic = arithmetic;
  rules_in = λ v. none;
}

abbrev at_start : Site
at_start = record {
  configuration = obj end;
  evaluator = idle.stores.evaluator;
  cache = none;
  last_config_download = zero_value;
}

started : start environment zero_value none idle.stores.evaluator ≡ ok at_start
unfolding start read_config_cache set_current_alarm_rules
started = refl

-- A success, then an answer that is none.
abbrev success : Meets
success = record { now = fifty; response = ok downloaded; disk_error = none }

abbrev nonsense : Meets
nonsense = record { now = fifty; response = ok (str "?"); disk_error = none }

start-refresh_turns_example :
    let t = refresh_turns environment (success ∷ nonsense ∷ []) at_start in
    (s' : Site) × (start environment zero_value t.cache idle.stores.evaluator ≡ ok s')
    × (s'.configuration ≡ t.configuration)
    × (s'.evaluator.current_alarm_rules ≡ t.evaluator.current_alarm_rules)
unfolding ge_int truthy download_configuration string_eq refresh_turn
start-refresh_turns_example =
    start-refresh_turns environment zero_value idle.stores.evaluator success (nonsense ∷ [])
      at_start downloaded refl refl (refl, (refl, tt)) refl

abbrev names : Repr
names (int (pos n)) = if eqb n 1 then "1" else "2"
names v = "?"

abbrev statuses : Dict ℤ Status
statuses = (pos 1, connected_status) ∷ (pos 2, failed_status) ∷ []

abbrev status_json : Json
status_json = record {
  dumps = λ v. "text";
  loads = λ s. some (obj (payload_from names statuses end));
}

-- Thread 1 hangs, thread 2 finishes, and then the serial bus is locked again.
abbrev hangs : ℕ → Bool
hangs t = eqb t 1
