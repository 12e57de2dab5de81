-- ===== src/Examples/Alarming.antt =====
-- The alarm evaluator.
use bbjsensescada.Common.Int.{int_eq}
use bbjsensescada.Python.Float.{ge_int}
use bbjsensescada.Common.{string_eq}
use bbjsensescada.Alarms.{evaluate_condition}
use bbjsensescada.Common.Int.{pair_eq}
use bbjsensescada.Common.Dict.{insert}
use bbjsensescada.Common.Dict.{lookup}
use bbjsensescada.Alarms.{record_latest_reading}
use bbjsensescada.Common.{◌≡◌, refl, true, some, List, [], ◌∷◌, All}
use bbjsensescada.Common.Int.{pos}
use bbjsensescada.Alarms.{
  Rule, whole, Evaluator, Setting, is_active, evaluate_all_rules, shadow, open_alarm, close_alarm,
}
use bbjsensescada.Alarms.Edges.{Alternates, Turn, evaluate, new_reading, turns, turns-Alternates}
use bbjsensescada.Alarms.State.{IsSettled, evaluate_all_rules-IsSettled}
use bbjsensescada.Examples.Inputs.{fifty, zero_value}

abbrev setting : Setting
setting = record { seconds_between = λ now timestamp. zero_value; shadow_mode = true }

-- value >= 50
abbrev rule : Rule
rule = record {
  id = pos 9;
  device_id = pos 1;
  tag_id = pos 2;
  alarm_type = "high";
  threshold_value = some (whole (pos 50));
}

abbrev quiet : Evaluator
quiet = record { latest_readings = []; active_state = []; current_alarm_rules = rule ∷ [] }

abbrev hour : List Turn
hour =
    new_reading (pos 1) (pos 2) fifty "good" 1
    ∷ evaluate 2
    ∷ evaluate 3
    ∷ new_reading (pos 1) (pos 2) zero_value "good" 4
    ∷ evaluate 5
    ∷ []

hour_events :
    (turns setting hour quiet).1
    ≡ shadow open_alarm (pos 9) fifty ∷ shadow close_alarm (pos 9) zero_value ∷ []
unfolding turns evaluate_all_rules record_latest_reading lookup insert pair_eq evaluate_condition
    string_eq ge_int int_eq
hour_events = refl

turns-Alternates_example :
    Alternates
      (pos 9)
      (is_active (pos 9) quiet.active_state)
      (turns setting hour quiet).1
      (is_active (pos 9) (turns setting hour quiet).0.active_state)
turns-Alternates_example = turns-Alternates setting (pos 9) hour quiet

abbrev loud : Evaluator
loud = (turns setting (new_reading (pos 1) (pos 2) fifty "good" 1 ∷ []) quiet).0

-- A rule with a reading above its limit, and one whose tag has none.
abbrev other_rule : Rule
other_rule = record rule { id = pos 10; tag_id = pos 3 }

abbrev half_read : Evaluator
half_read = record {
  latest_readings =
      ((pos 1, pos 2), record { value = fifty; quality = "good"; timestamp = 1 }) ∷ [];
  active_state = (pos 10, true) ∷ [];
  current_alarm_rules = rule ∷ other_rule ∷ [];
}

evaluate_all_rules-IsSettled_example :
    let e' = (evaluate_all_rules setting 2 half_read).0 in
    All
      (IsSettled setting 2 half_read.latest_readings half_read.active_state e'.active_state)
      (rule ∷ other_rule ∷ [])
    × (evaluate_all_rules setting 2 e' ≡ (e', []))
unfolding int_eq
evaluate_all_rules-IsSettled_example =
    evaluate_all_rules-IsSettled setting 2 half_read (refl, (refl, tt))

half_state :
    (is_active (pos 9) (evaluate_all_rules setting 2 half_read).0.active_state ≡ true)
    × (is_active (pos 10) (evaluate_all_rules setting 2 half_read).0.active_state ≡ true)
unfolding lookup evaluate_all_rules pair_eq evaluate_condition string_eq ge_int int_eq insert
half_state = (refl, refl)
