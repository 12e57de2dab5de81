-- ===== src/Alarms/Edges.antt =====
-- The events of a rule over a run of the evaluator.
use bbjsensescada.Common.{
  ℕ, String, Bool, true, false, not, List, [], ◌∷◌, ◌++◌, Option, none, some, ◌==◌, ==_iff,
  if◌then◌else◌, ◌≡◌, refl, sym, ap, ◌∙◌, arith, Bool-cases, inl, inr,
}
use bbjsensescada.Common.Int.{ℤ, int_eq}
use bbjsensescada.Common.Dict.{lookup, insert, lookup-insert}
use bbjsensescada.Python.Float.{Float}
use bbjsensescada.Alarms.{
  Rule, Reading, Readings, Evaluator, Setting, Action, open_alarm, close_alarm, Event, shadow, push,
  Active, is_active, change, evaluate_reading, evaluate_rules, evaluate_all_rules, or_false,
  record_latest_reading, set_current_alarm_rules, emit, reading_for,
}

abbrev pub action_of : Event → Action
action_of (shadow a id v) = a
action_of (push a id v) = a

abbrev pub rule_of : Event → ℤ
rule_of (shadow a id v) = id
rule_of (push a id v) = id

-- The events of the rule k, begun while the alarm was on or off, open and close it in turn; `after`
-- says how it is left.
abbrev opens : Action → Bool
opens open_alarm = true
opens close_alarm = false

abbrev pub Alternates : ℤ → Bool → List Event → Bool → Type 0
Alternates k on [] after = on ≡ after
Alternates k on (e ∷ es) after =
    if k == rule_of e
    then (opens (action_of e) ≡ not on) × Alternates k (opens (action_of e)) es after
    else Alternates k on es after

Alternates-append :
    (k : ℤ) (a b c : Bool) (es fs : List Event)
    → Alternates k a es b
    → Alternates k b fs c
    → Alternates k a (es ++ fs) c
Alternates-append k a b c [] fs h g = rw h g
Alternates-append k a b c (e ∷ es) fs h g = elim (Bool-cases (k == rule_of e)) [
  | inl mine ↦
      let both = rw mine at h in
      rw mine (both.0, Alternates-append k (opens (action_of e)) b c es fs both.1 g)
  | inr other ↦ rw other (Alternates-append k a b c es fs (rw other at h) g)
]

rule_of-emit : (S : Setting) (a : Action) (id : ℤ) (v : Float) → rule_of (emit S a id v) ≡ id
rule_of-emit S a id v = ground arith

action_of-emit : (S : Setting) (a : Action) (id : ℤ) (v : Float) → action_of (emit S a id v) ≡ a
action_of-emit S a id v = ground arith

or_false-if :
    (c b : Bool) (o : Option Bool)
    → or_false (if c then some b else o) ≡ (if c then b else or_false o)
or_false-if true b o = refl
or_false-if false b o = refl

pub is_active-insert :
    (k id : ℤ) (b : Bool) (active : Active)
    → is_active k (insert id b active) ≡ (if k == id then b else is_active k active)
is_active-insert k id b active =
    ap or_false (lookup-insert k id b active) ∙ or_false-if (k == id) b (lookup k active)

flip : (x b : Bool) → x ≡ not b → b ≡ not x
flip x b h = ground arith

-- One change of the rule `id`, seen by the rule k.
turned :
    (S : Setting) (k id : ℤ) (a : Action) (v : Float) (active : Active)
    → is_active id active ≡ not (opens a)
    → Alternates k
        (is_active k active)
        (emit S a id v ∷ [])
        (is_active k (insert id (opens a) active))
turned S k id a v active was = elim (Bool-cases (k == id)) [
  | inl mine ↦
      let same : k ≡ id = (==_iff k id).0 mine in
      let before : is_active k active ≡ not (opens a) = ap (λ j. is_active j active) same ∙ was in
      let after : is_active k (insert id (opens a) active) ≡ opens a =
        is_active-insert k id (opens a) active ∙ rw mine refl in
      rw (rule_of-emit, mine, action_of-emit)
        (flip (is_active k active) (opens a) before, sym after)
  | inr other ↦
      let after : is_active k (insert id (opens a) active) ≡ is_active k active =
        is_active-insert k id (opens a) active ∙ rw other refl in
      rw (rule_of-emit, other) (sym after)
]

change-Alternates :
    (S : Setting) (k : ℤ) (triggered was : Bool) (id : ℤ) (v : Float) (active : Active)
    → is_active id active ≡ was
    → let (active', es) = change S triggered was id v active in
      Alternates k (is_active k active) es (is_active k active')
change-Alternates S k true true id v active h = refl
change-Alternates S k false false id v active h = refl
change-Alternates S k true false id v active h = turned S k id open_alarm v active h
change-Alternates S k false true id v active h = turned S k id close_alarm v active h

evaluate_reading-Alternates :
    (S : Setting) (now : ℕ) (k : ℤ) (rule : Rule) (r : Option Reading) (active : Active)
    → let (active', es) = evaluate_reading S now rule r active in
      Alternates k (is_active k active) es (is_active k active')
evaluate_reading-Alternates S now k rule none active = refl
evaluate_reading-Alternates S now k rule (some r) active =
    change-Alternates S k _ _ rule.id r.value active refl

evaluate_rules-Alternates :
    (S : Setting) (now : ℕ) (readings : Readings) (k : ℤ) (rules : List Rule) (active : Active)
    → let (active', es) = evaluate_rules S now readings rules active in
      Alternates k (is_active k active) es (is_active k active')
unfolding evaluate_rules
evaluate_rules-Alternates S now readings k [] active = refl
evaluate_rules-Alternates S now readings k (rule ∷ rules) active =
    let r = reading_for rule.device_id rule.tag_id readings in
    let middle = (evaluate_reading S now rule r active).0 in
    Alternates-append k (is_active k active) (is_active k middle) _
      (evaluate_reading S now rule r active).1 _ (evaluate_reading-Alternates S now k rule r active)
      (evaluate_rules-Alternates S now readings k rules middle)

-- What other threads do between two evaluations, and the evaluations.
pub data Turn : Type 0 where
  evaluate : ℕ → Turn
  new_reading : ℤ → ℤ → Float → String → ℕ → Turn
  new_rules : Option (List Rule) → Turn

abbrev pub turn : Setting → Turn → Evaluator → Evaluator × List Event
turn S (evaluate now) e = evaluate_all_rules S now e
turn S (new_reading d t v q now) e = (record_latest_reading d t v q now e, [])
turn S (new_rules rules) e = (set_current_alarm_rules rules e, [])

unfoldable pub turns : Setting → List Turn → Evaluator → Evaluator × List Event
turns S [] e = (e, [])
turns S (x ∷ xs) e = let (e', es) = turn S x e in let (e'', fs) = turns S xs e' in (e'', es ++ fs)

turn-Alternates :
    (S : Setting) (k : ℤ) (x : Turn) (e : Evaluator)
    → let (e', es) = turn S x e in
      Alternates k (is_active k e.active_state) es (is_active k e'.active_state)
unfolding evaluate_all_rules record_latest_reading set_current_alarm_rules
turn-Alternates S k (evaluate now) e =
    evaluate_rules-Alternates S now e.latest_readings k e.current_alarm_rules e.active_state
turn-Alternates S k (new_reading d t v q now) e = refl
turn-Alternates S k (new_rules rules) e = refl

-- Over any run of evaluations, new readings and new rules, and for every rule id, also one that
-- several rules share: the alarm opens only while it is closed and closes only while it is open, and
-- the state at the end is what the last of these events made it.
pub turns-Alternates :
    (S : Setting) (k : ℤ) (xs : List Turn) (e : Evaluator)
    → Alternates k
        (is_active k e.active_state)
        (turns S xs e).1
        (is_active k (turns S xs e).0.active_state)
unfolding turns
turns-Alternates S k [] e = refl
turns-Alternates S k (x ∷ xs) e =
    let e' = (turn S x e).0 in
    Alternates-append k (is_active k e.active_state) (is_active k e'.active_state) _ (turn S x e).1
      _ (turn-Alternates S k x e) (turns-Alternates S k xs e')
