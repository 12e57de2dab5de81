-- ===== src/Alarms/State.antt =====
-- What an evaluation leaves in the state, and when it is silent.
use bbjsensescada.Common.{
  ℕ, Bool, true, false, List, [], ◌∷◌, map, Option, none, some, ◌==◌, ==_iff, ◌≡◌, refl, ◌∙◌, arith,
  All, contains,
}
use bbjsensescada.Common.Int.{ℤ, int_eq}
use bbjsensescada.Python.Float.{Float}
use bbjsensescada.Alarms.{
  Rule, Reading, Readings, Evaluator, Setting, Active, is_active, change, evaluate_reading,
  evaluate_rules, evaluate_all_rules, evaluate_condition, reading_for,
}
use bbjsensescada.Alarms.Edges.{is_active-insert}

abbrev pub rule_ids : List Rule → List ℤ
rule_ids = map (λ (r : Rule). r.id)

abbrev pub Distinct : List ℤ → Type 0
Distinct [] = Unit {0}
Distinct (k ∷ ks) = (contains ks k ≡ false) × Distinct ks

-- What a rule asks for: its condition if its tag has a reading, else the state as it was.
abbrev pub wanted_from : Setting → ℕ → Active → Rule → Option Reading → Bool
wanted_from S now active rule none = is_active rule.id active
wanted_from S now active rule (some r) = evaluate_condition S now rule r.value r.timestamp

change-other :
    (S : Setting) (k : ℤ) (t w : Bool) (id : ℤ) (v : Float) (active : Active)
    → (k == id) ≡ false
    → is_active k (change S t w id v active).0 ≡ is_active k active
change-other S k true true id v active h = refl
change-other S k false false id v active h = refl
change-other S k true false id v active h = is_active-insert k id true active ∙ rw h refl
change-other S k false true id v active h = is_active-insert k id false active ∙ rw h refl

same_key : (id : ℤ) → (id == id) ≡ true
same_key id = (==_iff id id).1 refl

change_self :
    (S : Setting) (t w : Bool) (id : ℤ) (v : Float) (active : Active)
    → is_active id active ≡ w
    → is_active id (change S t w id v active).0 ≡ t
change_self S true true id v active h = h
change_self S false false id v active h = h
change_self S true false id v active h = is_active-insert id id true active ∙ rw same_key refl
change_self S false true id v active h = is_active-insert id id false active ∙ rw same_key refl

evaluate_reading-other :
    (S : Setting) (now : ℕ) (k : ℤ) (rule : Rule) (r : Option Reading) (active : Active)
    → (k == rule.id) ≡ false
    → is_active k (evaluate_reading S now rule r active).0 ≡ is_active k active
evaluate_reading-other S now k rule none active h = refl
evaluate_reading-other S now k rule (some r) active h =
    change-other S k _ _ rule.id r.value active h

evaluate_rules-other :
    (S : Setting) (now : ℕ) (readings : Readings) (k : ℤ) (rules : List Rule) (active : Active)
    → contains (rule_ids rules) k ≡ false
    → is_active k (evaluate_rules S now readings rules active).0 ≡ is_active k active
unfolding evaluate_rules
evaluate_rules-other S now readings k [] active h = refl
evaluate_rules-other S now readings k (rule ∷ rules) active h =
    let r = reading_for rule.device_id rule.tag_id readings in
    let middle = (evaluate_reading S now rule r active).0 in
    evaluate_rules-other S now readings k rules middle (ground arith)
    ∙ evaluate_reading-other S now k rule r active (ground arith)

evaluate_reading_self :
    (S : Setting) (now : ℕ) (rule : Rule) (r : Option Reading) (active : Active)
    → is_active rule.id (evaluate_reading S now rule r active).0 ≡ wanted_from S now active rule r
evaluate_reading_self S now rule none active = refl
evaluate_reading_self S now rule (some r) active = change_self S _ _ rule.id r.value active refl

-- After an evaluation, a rule whose tag has a reading is active exactly when its condition holds for
-- that reading, and a rule whose tag has none is active exactly when it was before.
abbrev SettledBy : Setting → ℕ → Active → Active → Rule → Option Reading → Type 0
SettledBy S now before after rule none = is_active rule.id after ≡ is_active rule.id before
SettledBy S now before after rule (some r) =
    is_active rule.id after ≡ evaluate_condition S now rule r.value r.timestamp

abbrev pub IsSettled : Setting → ℕ → Readings → Active → Active → Rule → Type 0
IsSettled S now readings before after rule =
    SettledBy S now before after rule (reading_for rule.device_id rule.tag_id readings)

settled_reading :
    (S : Setting) (now : ℕ) (rule : Rule) (r : Option Reading) (before after : Active)
    → is_active rule.id after ≡ wanted_from S now before rule r
    → SettledBy S now before after rule r
settled_reading S now rule none before after h = h
settled_reading S now rule (some r) before after h = h

-- What was left as it was by the rules before is as it was at first.
earlier_reading :
    (S : Setting) (now : ℕ) (rule : Rule) (r : Option Reading) (before middle after : Active)
    → is_active rule.id middle ≡ is_active rule.id before
    → SettledBy S now middle after rule r
    → SettledBy S now before after rule r
earlier_reading S now rule none before middle after same h = h ∙ same
earlier_reading S now rule (some r) before middle after same h = h

other_id : (id k : ℤ) → (id == k) ≡ false → (k == id) ≡ false
other_id id k h = ground arith

earlier_rules :
    (S : Setting) (now : ℕ) (readings : Readings) (id : ℤ) (rules : List Rule)
    (before middle after : Active)
    → contains (rule_ids rules) id ≡ false
    → ((k : ℤ) → (k == id) ≡ false → is_active k middle ≡ is_active k before)
    → All (IsSettled S now readings middle after) rules
    → All (IsSettled S now readings before after) rules
earlier_rules S now readings id [] before middle after fresh same hs = tt
earlier_rules S now readings id (rule ∷ rules) before middle after fresh same (h, hs) = (
  earlier_reading S now rule _ before middle after
      (same rule.id (other_id id rule.id (ground arith))) h,
  earlier_rules S now readings id rules before middle after (ground arith) same hs,
)

evaluate_rules-IsSettled :
    (S : Setting) (now : ℕ) (readings : Readings) (rules : List Rule) (active : Active)
    → Distinct (rule_ids rules)
    → All (IsSettled S now readings active (evaluate_rules S now readings rules active).0) rules
unfolding evaluate_rules
evaluate_rules-IsSettled S now readings [] active d = tt
evaluate_rules-IsSettled S now readings (rule ∷ rules) active (fresh, d) =
    let r = reading_for rule.device_id rule.tag_id readings in
    let middle = (evaluate_reading S now rule r active).0 in
    let after = (evaluate_rules S now readings rules middle).0 in
    let kept : is_active rule.id after ≡ wanted_from S now active rule r =
      evaluate_rules-other S now readings rule.id rules middle fresh
      ∙ evaluate_reading_self S now rule r active in
    (
      settled_reading S now rule r active after kept,
      earlier_rules S now readings rule.id rules active middle after fresh
          (λ k other. evaluate_reading-other S now k rule r active other)
          (evaluate_rules-IsSettled S now readings rules middle d),
    )

change-silent :
    (S : Setting) (t w : Bool) (id : ℤ) (v : Float) (active : Active)
    → w ≡ t
    → change S t w id v active ≡ (active, [])
change-silent S true true id v active h = refl
change-silent S false false id v active h = refl
change-silent S true false id v active h = cc
change-silent S false true id v active h = cc

silent_reading :
    (S : Setting) (now : ℕ) (rule : Rule) (r : Option Reading) (before active : Active)
    → SettledBy S now before active rule r
    → evaluate_reading S now rule r active ≡ (active, [])
silent_reading S now rule none before active h = refl
silent_reading S now rule (some r) before active h = change-silent S _ _ rule.id r.value active h

silent_rules :
    (S : Setting) (now : ℕ) (readings : Readings) (rules : List Rule) (before active : Active)
    → All (IsSettled S now readings before active) rules
    → evaluate_rules S now readings rules active ≡ (active, [])
unfolding evaluate_rules
silent_rules S now readings [] before active h = refl
silent_rules S now readings (rule ∷ rules) before active (h, hs) =
    rw (silent_reading S now rule _ before active h)
      (rw (silent_rules S now readings rules before active hs) refl)

-- If no two rules share an id, an evaluation leaves every rule that has a reading active exactly when
-- its condition holds, and every rule without one as active as it was before the evaluation; a second
-- evaluation of the same readings at the same instant changes nothing and reports nothing.
pub evaluate_all_rules-IsSettled :
    (S : Setting) (now : ℕ) (e : Evaluator)
    → Distinct (rule_ids e.current_alarm_rules)
    → let e' = (evaluate_all_rules S now e).0 in
      All (IsSettled S now e.latest_readings e.active_state e'.active_state) e.current_alarm_rules
      × (evaluate_all_rules S now e' ≡ (e', []))
unfolding evaluate_all_rules
evaluate_all_rules-IsSettled S now e d =
    let readings = e.latest_readings in
    let settled = evaluate_rules-IsSettled S now readings e.current_alarm_rules e.active_state d in
    let after = (evaluate_rules S now readings e.current_alarm_rules e.active_state).0 in
    (
      settled,
      rw (silent_rules S now readings e.current_alarm_rules e.active_state after settled) refl,
    )
