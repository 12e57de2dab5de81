-- ===== src/Configuration/Restart.antt =====
-- What the loop keeps, and what a restart finds.
use bbjsensescada.Common.{
  ◌≡◌, refl, sym, true, List, [], ◌∷◌, none, some, All, Bool-cases, inl, inr,
}
use bbjsensescada.Python.{Result, ok, Result-cases, bind_ok, ok-injective}
use bbjsensescada.Python.Float.{Float}
use bbjsensescada.Python.Value.{Value, null, obj, end, field, truthy}
use bbjsensescada.Modbus.{get_value}
use bbjsensescada.Alarms.{Evaluator, set_current_alarm_rules, rules_or_empty}
use bbjsensescada.Configuration.{
  Environment, Site, Meets, start, installed, refresh_turn, refresh_turns, is_due,
  download_configuration, read_config_cache, write_config_cache, if_success,
}

-- The file and the alarm rules are those of the configuration, which is not empty.
pub record IsSaved (E : Environment) (s : Site) : Type 0 where
  pub loaded : truthy s.configuration ≡ true
  pub saved : s.cache ≡ some (E.json.dumps s.configuration)
  pub alarm_rules : Value
  pub listed : get_value "alarm_rules" s.configuration ≡ ok alarm_rules
  pub rules : s.evaluator.current_alarm_rules ≡ rules_or_empty (E.rules_in alarm_rules)

-- What has a `success` that is true is not empty.
not_empty :
    (c success : Value)
    → get_value "success" c ≡ ok success
    → truthy success ≡ true
    → truthy c ≡ true
unfolding truthy
not_empty (obj (field k v fs)) success h t = refl
not_empty (obj end) success h t = let e : success ≡ null = sym (ok-injective h) in cc (rw e at t)
not_empty _ success h t = cc

if_success_ok :
    (success c c' : Value) → if_success success c ≡ ok c' → (truthy success ≡ true) × (c ≡ c')
if_success_ok success c c' h = elim (Bool-cases (truthy success)) [
  | inl yes_ ↦ (yes_, ok-injective (rw yes_ at h))
  | inr no_ ↦ absurd (cc (rw no_ at h))
]

-- What is downloaded has a `success` that is true.
downloaded_success :
    (response : Result Value) (c : Value)
    → download_configuration response ≡ ok c
    → (success : Value) × (get_value "success" c ≡ ok success) × (truthy success ≡ true)
unfolding download_configuration
downloaded_success response c h =
    let (c', e, h1) = bind_ok response _ h in
    let (success, found, h2) = bind_ok (get_value "success" c') (λ v. if_success v c') h1 in
    let (t, same) = if_success_ok success c' c h2 in
    let found' : get_value "success" c ≡ ok success = rw same at found in (success, found', t)

pub downloaded_loaded :
    (response : Result Value) (c : Value) → download_configuration response ≡ ok c → truthy c ≡ true
downloaded_loaded response c h =
    let (success, found, t) = downloaded_success response c h in not_empty c success found t

-- What has a field can be asked for another.
dict_fields :
    (c v : Value) → get_value "success" c ≡ ok v → (w : Value) × (get_value "alarm_rules" c ≡ ok w)
dict_fields (obj fs) v h = (_, refl)
dict_fields _ v h = cc

-- A new configuration, with no error of the disk, is saved.
installed-IsSaved :
    (E : Environment) (s : Site) (response : Result Value) (c : Value)
    → download_configuration response ≡ ok c
    → IsSaved E (installed E none s (ok c))
unfolding installed write_config_cache set_current_alarm_rules
installed-IsSaved E s response c got =
    let (success, found, t) = downloaded_success response c got in
    let (v, listed) = dict_fields c success found in
    rw listed (record {
      loaded = not_empty c success found t;
      saved = refl;
      alarm_rules = v;
      listed = listed;
      rules = refl;
    })

attempt-IsSaved :
    (E : Environment) (s : Site) (response : Result Value)
    → IsSaved E s
    → IsSaved E (installed E none s (download_configuration response))
unfolding installed
attempt-IsSaved E s response k = elim (Result-cases (download_configuration response)) [
  | inl (c, got) ↦ rw got (installed-IsSaved E s response c got)
  | inr (e, failed) ↦ rw failed k
]

refresh_turn-IsSaved :
    (E : Environment) (m : Meets) (s : Site)
    → m.disk_error ≡ none
    → IsSaved E s
    → IsSaved E (refresh_turn E m s)
unfolding refresh_turn
refresh_turn-IsSaved E m s no_error k = elim (Bool-cases (is_due E s m.now)) [
  | inr early ↦ rw early k
  | inl due ↦
      rw (due, no_error)
        (attempt-IsSaved E _ m.response (record {
          loaded = k.loaded;
          saved = k.saved;
          alarm_rules = k.alarm_rules;
          listed = k.listed;
          rules = k.rules;
        }))
]

-- Turns without an error of the disk.
abbrev pub NoDiskError : List Meets → Type 0
NoDiskError ms = All (λ (m : Meets). m.disk_error ≡ none) ms

refresh_turns-IsSaved :
    (E : Environment) (ms : List Meets) (s : Site)
    → NoDiskError ms
    → IsSaved E s
    → IsSaved E (refresh_turns E ms s)
refresh_turns-IsSaved E [] s none_fail k = k
refresh_turns-IsSaved E (m ∷ ms) s (no_error, none_fail) k =
    refresh_turns-IsSaved E ms (refresh_turn E m s) none_fail
      (refresh_turn-IsSaved E m s no_error k)

first-IsSaved :
    (E : Environment) (m : Meets) (s : Site) (c : Value)
    → is_due E s m.now ≡ true
    → download_configuration m.response ≡ ok c
    → m.disk_error ≡ none
    → IsSaved E (refresh_turn E m s)
unfolding refresh_turn
first-IsSaved E m s c due got no_error =
    rw (due, no_error, got)
      (installed-IsSaved E (record s { last_config_download = m.now }) m.response c got)

-- A process that starts on the file finds the configuration and its rules.
start-same :
    (E : Environment) (zero : Float) (evaluator : Evaluator) (s : Site)
    → IsSaved E s
    → E.json.loads (E.json.dumps s.configuration) ≡ some s.configuration
    → (s' : Site) × (start E zero s.cache evaluator ≡ ok s')
      × (s'.configuration ≡ s.configuration)
      × (s'.evaluator.current_alarm_rules ≡ s.evaluator.current_alarm_rules)
unfolding start read_config_cache set_current_alarm_rules
start-same E zero evaluator s k codec =
    let rules = sym k.rules in rw (k.saved, codec, k.loaded, k.listed) (_, refl, refl, rules)

-- From a successful refresh on, if the disk raises no error, then after any further turns of the loop,
-- whatever the cloud answers, a new process that starts on the cached file has the configuration and
-- the alarm rules of the old one. The JSON codec must give that configuration back.
pub start-refresh_turns :
    (E : Environment) (zero : Float) (evaluator : Evaluator) (m : Meets) (ms : List Meets)
    (s : Site) (c : Value)
    → is_due E s m.now ≡ true
    → download_configuration m.response ≡ ok c
    → NoDiskError (m ∷ ms)
    → E.json.loads (E.json.dumps (refresh_turns E (m ∷ ms) s).configuration)
      ≡ some (refresh_turns E (m ∷ ms) s).configuration
    → let t = refresh_turns E (m ∷ ms) s in
      (s' : Site) × (start E zero t.cache evaluator ≡ ok s')
      × (s'.configuration ≡ t.configuration)
      × (s'.evaluator.current_alarm_rules ≡ t.evaluator.current_alarm_rules)
start-refresh_turns E zero evaluator m ms s c due got (no_error, none_fail) codec =
    start-same E zero evaluator (refresh_turns E (m ∷ ms) s)
      (refresh_turns-IsSaved E ms (refresh_turn E m s) none_fail
        (first-IsSaved E m s c due got no_error))
      codec
