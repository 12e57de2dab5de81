-- ===== src/Alarms.antt =====
-- edge_alarm_evaluator.py: the alarm rules against the latest readings. A rule has the shape that the
-- configuration gives it; instants are microseconds, and the float of a time difference is an argument.
pub mod Edges
pub mod State
use bbjsensescada.Common.{
  ℕ, zero, Bool, true, false, not, ◌&&◌, ◌||◌, List, [], ◌∷◌, ◌++◌, String, Option, none, some,
  ◌==◌, string_eq, if◌then◌else◌, ◌≡◌, refl, arith,
}
use bbjsensescada.Common.Int.{ℤ, int_eq, pair_eq}
use bbjsensescada.Common.Dict.{Dict, lookup, insert}
use bbjsensescada.Python.Float.{Float, le_float, eq_float, ge_int, le_int}

-- A threshold as JSON yields it.
pub data Threshold : Type 0 where
  whole : ℤ → Threshold
  real : Float → Threshold

pub record Rule : Type 0 where
  pub id : ℤ
  pub device_id : ℤ
  pub tag_id : ℤ
  pub alarm_type : String
  pub threshold_value : Option Threshold

pub record Reading : Type 0 where
  pub value : Float
  pub quality : String
  pub timestamp : ℕ

abbrev pub Readings : Type 0
Readings = Dict (ℤ × ℤ) Reading

-- The module's variables.
pub record Evaluator : Type 0 where
  pub latest_readings : Readings
  pub active_state : Dict ℤ Bool
  pub current_alarm_rules : List Rule

-- `(now - timestamp).total_seconds()`, and EDGE_ALARM_SHADOW_MODE.
pub record Setting : Type 0 where
  pub seconds_between : ℕ → ℕ → Float
  pub shadow_mode : Bool

abbrev pub rules_or_empty : Option (List Rule) → List Rule
rules_or_empty none = []
rules_or_empty (some rules) = rules

unfoldable pub set_current_alarm_rules : Option (List Rule) → Evaluator → Evaluator
set_current_alarm_rules alarm_rules e = record e {
  current_alarm_rules = rules_or_empty alarm_rules;
}

unfoldable pub record_latest_reading : ℤ → ℤ → Float → String → ℕ → Evaluator → Evaluator
record_latest_reading device_id tag_id value quality now e =
    let reading : Reading = record { value = value; quality = quality; timestamp = now } in
    record e { latest_readings = insert (device_id, tag_id) reading e.latest_readings }

abbrev pub reading_for : ℤ → ℤ → Readings → Option Reading
reading_for device_id tag_id readings = lookup (device_id, tag_id) readings

abbrev pub one_float : Float
one_float = record { bits = 0x3ff0000000000000 }

abbrev pub zero_float : Float
zero_float = record { bits = 0 }

-- `threshold is not None and x >= threshold`
abbrev reaches : Option Threshold → Float → Bool
reaches none x = false
reaches (some (whole n)) x = ge_int x n
reaches (some (real t)) x = le_float t x

-- `threshold is not None and x <= threshold`
abbrev falls_to : Option Threshold → Float → Bool
falls_to none x = false
falls_to (some (whole n)) x = le_int x n
falls_to (some (real t)) x = le_float x t

unfoldable pub evaluate_condition : Setting → ℕ → Rule → Float → ℕ → Bool
evaluate_condition S now rule value timestamp =
    if rule.alarm_type == "high" || rule.alarm_type == "high_high"
    then reaches rule.threshold_value value
    else if rule.alarm_type == "low" || rule.alarm_type == "low_low"
    then falls_to rule.threshold_value value
    else if rule.alarm_type == "digital_on"
    then eq_float value one_float
    else if rule.alarm_type == "digital_off"
    then eq_float value zero_float
    else if rule.alarm_type == "communication_loss"
    then reaches rule.threshold_value (S.seconds_between now timestamp)
    else false

pub data Action : Type 0 where
  open_alarm close_alarm : Action

-- What an evaluation does besides its state: a log line in shadow mode, else a POST whose failure is
-- only logged (`_push_state_change`).
pub data Event : Type 0 where
  shadow push : Action → ℤ → Float → Event

abbrev pub emit : Setting → Action → ℤ → Float → Event
emit S a id value = if S.shadow_mode then shadow a id value else push a id value

abbrev pub Active : Type 0
Active = Dict ℤ Bool

abbrev pub or_false : Option Bool → Bool
or_false none = false
or_false (some b) = b

-- `_active_state.get(rule_id, False)`
abbrev pub is_active : ℤ → Active → Bool
is_active id active = or_false (lookup id active)

-- The two branches of the loop's body, on `triggered` and `was_active`.
abbrev pub change : Setting → Bool → Bool → ℤ → Float → Active → Active × List Event
change S true false id value active = (insert id true active, emit S open_alarm id value ∷ [])
change S false true id value active = (insert id false active, emit S close_alarm id value ∷ [])
change S true true id value active = (active, [])
change S false false id value active = (active, [])

abbrev pub evaluate_reading : Setting → ℕ → Rule → Option Reading → Active → Active × List Event
evaluate_reading S now rule none active = (active, [])
evaluate_reading S now rule (some r) active =
    change S (evaluate_condition S now rule r.value r.timestamp) (is_active rule.id active) rule.id
      r.value active

abbrev pub and_then : Active × List Event → (Active → Active × List Event) → Active × List Event
and_then (active, es) f = let (active', fs) = f active in (active', es ++ fs)

-- The loop over the snapshot of the rules.
unfoldable pub evaluate_rules : Setting → ℕ → Readings → List Rule → Active → Active × List Event
evaluate_rules S now readings [] active = (active, [])
evaluate_rules S now readings (rule ∷ rules) active =
    and_then (evaluate_reading S now rule (reading_for rule.device_id rule.tag_id readings) active)
      (evaluate_rules S now readings rules)

unfoldable pub evaluate_all_rules : Setting → ℕ → Evaluator → Evaluator × List Event
unfolding evaluate_rules
evaluate_all_rules S now e =
    let (active, es) =
      evaluate_rules S now e.latest_readings e.current_alarm_rules e.active_state in
    (record e { active_state = active }, es)
