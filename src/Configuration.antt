-- ===== src/Configuration.antt =====
-- The gateway's configuration: `download_configuration`, the start of `main` and the turns of
-- `run_config_refresh_loop` (dynamic_modbus_poller.py), with config_cache.py.
pub mod Restart
pub mod Known
use bbjsensescada.Common.{Bool, List, [], ◌∷◌, String, Option, none, some, if◌then◌else◌}
use bbjsensescada.Common.Int.{ℤ, pos}
use bbjsensescada.Python.{Error, Result, ok, err, runtime_error, ◌>>=◌}
use bbjsensescada.Python.Float.{Float, Arithmetic, ge_int}
use bbjsensescada.Python.Value.{Value, obj, end, or_default, truthy}
use bbjsensescada.Queue.{Json}
use bbjsensescada.Alarms.{Rule, Evaluator, set_current_alarm_rules}
use bbjsensescada.Modbus.{get_value}

-- The JSON codec, float subtraction, and the typed reading of the value of `alarm_rules`.
pub record Environment : Type 0 where
  pub json : Json
  pub arithmetic : Arithmetic
  pub rules_in : Value → Option (List Rule)

-- The file config_cache.json: its text, if it exists. `write_text` goes to another file, so a disk
-- error leaves the old text.
unfoldable pub write_config_cache :
    Environment → Option Error → Value → Option String → Option String × Result (Unit {0})
write_config_cache E none configuration cache = (some (E.json.dumps configuration), ok tt)
write_config_cache E (some e) configuration cache = (cache, err e)

-- A text that is not JSON is logged and taken for a missing one.
unfoldable pub read_config_cache : Environment → Option String → Option Value
read_config_cache E none = none
read_config_cache E (some text) = E.json.loads text

-- `_CURRENT_CONFIGURATION`, the evaluator with its rules, the file, and `last_config_download`.
pub record Site : Type 0 where
  pub configuration : Value
  pub evaluator : Evaluator
  pub cache : Option String
  pub last_config_download : Float

abbrev pub if_success : Value → Value → Result Value
if_success success configuration =
    if truthy success
    then ok configuration
    else err (runtime_error "Gateway configuration response failed")

-- `requests.get`, `raise_for_status` and `json()` give the response.
unfoldable pub download_configuration : Result Value → Result Value
download_configuration response = do
  configuration ← response
  success ← get_value "success" configuration
  if_success success configuration

abbrev pub or_empty : Option Value → Value
or_empty none = obj end
or_empty (some v) = or_default (obj end) v

-- `main` up to its threads, on the file that an earlier process has left; a text that is no dict
-- ends it.
unfoldable pub start : Environment → Float → Option String → Evaluator → Result Site
start E zero cache evaluator =
    let configuration = or_empty (read_config_cache E cache) in
    do
      alarm_rules ← get_value "alarm_rules" configuration
      ok (record {
        configuration = configuration;
        evaluator = set_current_alarm_rules (E.rules_in alarm_rules) evaluator;
        cache = cache;
        last_config_download = zero;
      })

-- What a turn of the loop meets: the clock, the response, and an error of the disk.
pub record Meets : Type 0 where
  pub now : Float
  pub response : Result Value
  pub disk_error : Option Error

-- `set_current_alarm_rules(configuration.get("alarm_rules"))`; an exception leaves the rules alone.
abbrev pub with_rules : Environment → Site → Result Value → Site
with_rules E s (ok alarm_rules) = record s {
  evaluator = set_current_alarm_rules (E.rules_in alarm_rules) s.evaluator;
}
with_rules E s (err e) = s

-- After `write_config_cache`: its exception leaves the alarm rules as they were.
abbrev pub cached : Environment → Value → Site → Option String × Result (Unit {0}) → Site
cached E configuration s (cache, ok u) =
    with_rules E (record s { cache = cache }) (get_value "alarm_rules" configuration)
cached E configuration s (cache, err e) = record s { cache = cache }

-- The `try` block.
unfoldable pub installed : Environment → Option Error → Site → Result Value → Site
unfolding write_config_cache
installed E disk s (err e) = s
installed E disk s (ok configuration) =
    cached E configuration (record s { configuration = configuration })
      (write_config_cache E disk configuration s.cache)

abbrev pub config_refresh_seconds : ℤ
config_refresh_seconds = pos 60

abbrev pub config_download_retry_interval_seconds : ℤ
config_download_retry_interval_seconds = pos 10

abbrev pub retry_interval : Value → ℤ
retry_interval configuration =
    if truthy configuration then config_refresh_seconds else config_download_retry_interval_seconds

abbrev pub is_due : Environment → Site → Float → Bool
is_due E s now =
    ge_int (E.arithmetic.sub now s.last_config_download) (retry_interval s.configuration)

unfoldable pub refresh_turn : Environment → Meets → Site → Site
unfolding installed
refresh_turn E m s =
    if is_due E s m.now
    then installed E m.disk_error (record s { last_config_download = m.now })
        (download_configuration m.response)
    else s

abbrev pub refresh_turns : Environment → List Meets → Site → Site
refresh_turns E [] s = s
refresh_turns E (m ∷ ms) s = refresh_turns E ms (refresh_turn E m s)
