-- ===== src/Commands/Lookup.antt =====
-- gateway_commands.py, `find_writable_tag`: the device and the tag that a command may write.
use bbjsensescada.Common.{
  Bool, true, false, List, [], ◌∷◌, Option, none, some, ◌==◌, string_eq, if◌then◌else◌,
}
use bbjsensescada.Common.Int.{ℤ, negsuc, int_eq}
use bbjsensescada.Python.{Result, ok, ◌>>=◌}
use bbjsensescada.Python.Value.{Value, boolean, int, arr, nil, get_or, to_int, elements}
use bbjsensescada.Modbus.{get_value}

-- The inner loop of `find_writable_tag`: it goes on, or returns.
pub data Search : Type 0 where
  go_on : Search
  refuse : Search
  found : Value → Search

abbrev pub is_true : Value → Bool
is_true (boolean b) = b
is_true _ = false

abbrev pub answer : Value → Value → Search
answer tag writable = if is_true writable then found tag else refuse

-- `int(v.get("id", -1))`
abbrev pub id_of : Value → Result ℤ
id_of v = get_or "id" (int (negsuc 0)) v >>= to_int

-- One turn of the inner loop, on whether the id is the wanted one.
abbrev pub tag_turn : Bool → Value → Result Search → Result Search
tag_turn true tag later = do writable ← get_value "writable" tag; ok (answer tag writable)
tag_turn false tag later = later

unfoldable pub search_tags : ℤ → List Value → Result Search
search_tags tag_id [] = ok go_on
search_tags tag_id (tag ∷ tags) =
    let later = search_tags tag_id tags in do here ← id_of tag; tag_turn (here == tag_id) tag later

abbrev pub tags_of : Value → Result (List Value)
tags_of device = get_or "tags" (arr nil) device >>= elements

abbrev pub devices_of : Value → Result (List Value)
devices_of configuration = get_or "devices" (arr nil) configuration >>= elements

abbrev pub finish :
    Value → Search → Result (Option (Value × Value)) → Result (Option (Value × Value))
finish device go_on later = later
finish device refuse later = ok none
finish device (found tag) later = ok (some (device, tag))

-- One turn of the outer loop.
abbrev pub device_turn :
    Bool → ℤ → Value → Result (Option (Value × Value)) → Result (Option (Value × Value))
device_turn true tag_id device later = do
  tags ← tags_of device
  s ← search_tags tag_id tags
  finish device s later
device_turn false tag_id device later = later

unfoldable pub search_devices : ℤ → ℤ → List Value → Result (Option (Value × Value))
search_devices device_id tag_id [] = ok none
search_devices device_id tag_id (device ∷ devices) =
    let later = search_devices device_id tag_id devices in
    do here ← id_of device; device_turn (here == device_id) tag_id device later

unfoldable pub find_writable_tag : Value → ℤ → ℤ → Result (Option (Value × Value))
find_writable_tag configuration device_id tag_id = do
  devices ← devices_of configuration
  search_devices device_id tag_id devices
