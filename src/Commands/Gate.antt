-- ===== src/Commands/Gate.antt =====
-- The authorisation gate: what `find_writable_tag` returns.
use mathlib.Core.Option.{some-injective}
use bbjsensescada.Common.{
  ◌≡◌, refl, sym, ap, ◌⊎◌, inl, inr, Bool, true, false, List, [], ◌∷◌, Option, some, ◌==◌, ==_iff,
  arith,
}
use bbjsensescada.Common.Int.{ℤ, int_eq}
use bbjsensescada.Python.{Result, ok, bind_ok, ok-injective}
use bbjsensescada.Python.Value.{Value, boolean}
use bbjsensescada.Modbus.{get_value}
use bbjsensescada.Commands.Lookup.{
  Search, go_on, refuse, found, answer, id_of, search_tags, search_devices, find_writable_tag,
  tags_of, devices_of, finish, tag_turn, device_turn,
}

-- v is one of the values.
abbrev pub Among : Value → List Value → Type 0
Among v [] = ⊥
Among v (x ∷ xs) = (v ≡ x) ⊎ Among v xs

-- The tag is listed in some tags, has this id and is marked writable by the value true.
pub record IsWritable (tag_id : ℤ) (tags : List Value) (tag : Value) : Type 0 where
  pub listed : Among tag tags
  pub same_id : id_of tag ≡ ok tag_id
  pub writable : get_value "writable" tag ≡ ok (boolean true)

-- The device is listed in some devices, has this id, and the tag is one of its writable tags.
pub record IsAllowed (device_id tag_id : ℤ) (devices : List Value) (device tag : Value)
    : Type 0 where
  pub listed : Among device devices
  pub same_id : id_of device ≡ ok device_id
  pub tags : List Value
  pub has_tags : tags_of device ≡ ok tags
  pub writable : IsWritable tag_id tags tag

answer-found : (tag w : Value) (r : Value) → answer tag w ≡ found r → (tag ≡ r) × (w ≡ boolean true)
answer-found tag (boolean true) r h = ground arith
answer-found tag (boolean false) r h = cc
answer-found tag _ r h = cc

same_of_test : (a b : ℤ) → (a == b) ≡ true → a ≡ b
same_of_test a b h = (==_iff a b).0 h

tag_turn_sound :
    (tag_id n : ℤ) (b : Bool) (x : Value) (xs : List Value) (tag : Value) (later : Result Search)
    → (n == tag_id) ≡ b
    → id_of x ≡ ok n
    → (later ≡ ok (found tag) → IsWritable tag_id xs tag)
    → tag_turn b x later ≡ ok (found tag)
    → IsWritable tag_id (x ∷ xs) tag
tag_turn_sound tag_id n false x xs tag later same known ih h =
    let w = ih h in record { listed = inr w.listed; same_id = w.same_id; writable = w.writable }
tag_turn_sound tag_id n true x xs tag later same known ih h =
    let (v, reads, answers) = bind_ok (get_value "writable" x) (λ v. ok (answer x v)) h in
    let (is_x, is_set) = answer-found x v tag (ok-injective answers) in
    record {
      listed = inl (sym is_x);
      same_id = cc (known, same_of_test n tag_id same);
      writable = cc (reads, is_set, is_x);
    }

search_tags_sound :
    (tag_id : ℤ) (tags : List Value) (tag : Value)
    → search_tags tag_id tags ≡ ok (found tag)
    → IsWritable tag_id tags tag
unfolding search_tags
search_tags_sound tag_id [] tag h = cc
search_tags_sound tag_id (x ∷ xs) tag h =
    let (n, known, turns) =
      bind_ok (id_of x) (λ n. tag_turn (n == tag_id) x (search_tags tag_id xs)) h in
    tag_turn_sound tag_id n (n == tag_id) x xs tag (search_tags tag_id xs) refl known
      (search_tags_sound tag_id xs tag) turns

later_device :
    (device_id tag_id : ℤ) (x : Value) (xs : List Value) (device tag : Value)
    → IsAllowed device_id tag_id xs device tag
    → IsAllowed device_id tag_id (x ∷ xs) device tag
later_device device_id tag_id x xs device tag a = record {
  listed = inr a.listed;
  same_id = a.same_id;
  tags = a.tags;
  has_tags = a.has_tags;
  writable = a.writable;
}

abbrev Target : Type 0
Target = Result (Option (Value × Value))

finish_sound :
    (device_id tag_id : ℤ) (x : Value) (xs tags : List Value) (s : Search) (device tag : Value)
    (later : Target)
    → search_tags tag_id tags ≡ ok s
    → tags_of x ≡ ok tags
    → id_of x ≡ ok device_id
    → (later ≡ ok (some (device, tag)) → IsAllowed device_id tag_id xs device tag)
    → finish x s later ≡ ok (some (device, tag))
    → IsAllowed device_id tag_id (x ∷ xs) device tag
finish_sound device_id tag_id x xs tags go_on device tag later searched has known ih h =
    later_device device_id tag_id x xs device tag (ih h)
finish_sound device_id tag_id x xs tags refuse device tag later searched has known ih h = cc
finish_sound device_id tag_id x xs tags (found t) device tag later searched has known ih h =
    let is_x : x ≡ device = ap (λ (p : Value × Value). p.0) (some-injective _ _ (ok-injective h)) in
    let is_t : t ≡ tag = ap (λ (p : Value × Value). p.1) (some-injective _ _ (ok-injective h)) in
    let w : IsWritable tag_id tags tag = search_tags_sound tag_id tags tag (cc (searched, is_t)) in
    record {
      listed = inl (sym is_x);
      same_id = cc (known, is_x);
      tags = tags;
      has_tags = cc (has, is_x);
      writable = w;
    }

device_turn_sound :
    (device_id tag_id n : ℤ) (b : Bool) (x : Value) (xs : List Value) (device tag : Value)
    (later : Target)
    → (n == device_id) ≡ b
    → id_of x ≡ ok n
    → (later ≡ ok (some (device, tag)) → IsAllowed device_id tag_id xs device tag)
    → device_turn b tag_id x later ≡ ok (some (device, tag))
    → IsAllowed device_id tag_id (x ∷ xs) device tag
device_turn_sound device_id tag_id n false x xs device tag later same known ih h =
    later_device device_id tag_id x xs device tag (ih h)
device_turn_sound device_id tag_id n true x xs device tag later same known ih h =
    let (tags, has, rest) = bind_ok (tags_of x) _ h in
    let (s, searched, ends) = bind_ok (search_tags tag_id tags) (λ s. finish x s later) rest in
    finish_sound device_id tag_id x xs tags s device tag later searched has
      (cc (known, same_of_test n device_id same)) ih ends

search_devices_sound :
    (device_id tag_id : ℤ) (devices : List Value) (device tag : Value)
    → search_devices device_id tag_id devices ≡ ok (some (device, tag))
    → IsAllowed device_id tag_id devices device tag
unfolding search_devices
search_devices_sound device_id tag_id [] device tag h = cc
search_devices_sound device_id tag_id (x ∷ xs) device tag h =
    let later = search_devices device_id tag_id xs in
    let (n, known, turns) =
      bind_ok (id_of x) (λ n. device_turn (n == device_id) tag_id x later) h in
    device_turn_sound device_id tag_id n (n == device_id) x xs device tag later refl known
      (search_devices_sound device_id tag_id xs device tag) turns

-- What `find_writable_tag` returns is listed: a device of the configuration with the wanted id, and
-- one of its tags with the wanted id whose `writable` is the value true and nothing else.
pub find_writable_tag-IsAllowed :
    (configuration : Value) (device_id tag_id : ℤ) (device tag : Value)
    → find_writable_tag configuration device_id tag_id ≡ ok (some (device, tag))
    → (devices : List Value) × (devices_of configuration ≡ ok devices)
      × IsAllowed device_id tag_id devices device tag
unfolding find_writable_tag
find_writable_tag-IsAllowed configuration device_id tag_id device tag h =
    let (devices, has, rest) =
      bind_ok (devices_of configuration) (search_devices device_id tag_id) h in
    (devices, has, search_devices_sound device_id tag_id devices device tag rest)
