-- ===== src/Overrides.antt =====
-- settings.py, `parse_word_order_overrides`: the word orders that an operator sets for single tags.
pub mod Lookup
use Prim.Native.Char.{code}
use bbjsensescada.Common.{
  ℕ, Bool, not, List, [], ◌∷◌, map, String, Option, none, some, eqb, filter, if◌then◌else◌, ◌==◌,
  string_eq,
}
use bbjsensescada.Common.Int.{ℤ, int_eq}
use bbjsensescada.Common.Dict.{Dict, insert}
use bbjsensescada.Python.Text.{codes, strip_text, parse_int}

-- `s.split(c)` for one code point, as its first piece and the others.
unfoldable pub pieces : ℕ → String → String × List String
pieces c String.[] = ("", [])
pieces c (String.◌∷◌ x s) =
    let (w, ws) = pieces c s in if eqb (code x) c then ("", w ∷ ws) else (String.◌∷◌ x w, ws)

abbrev pub split_on : ℕ → String → List String
split_on c s = let (w, ws) = pieces c s in w ∷ ws

-- `s.partition(c)` without its middle.
unfoldable pub partition : ℕ → String → String × String
partition c String.[] = ("", "")
partition c (String.◌∷◌ x s) =
    let (before, after) = partition c s in
    if eqb (code x) c then ("", s) else (String.◌∷◌ x before, after)

abbrev pub with_order : String → Option ℤ → Option (ℤ × String)
with_order word_order none = none
with_order word_order (some tag_id) = some (tag_id, strip_text word_order)

-- One entry; `none` is the ValueError that skips it.
unfoldable pub parse_entry : String → Option (ℤ × String)
unfolding partition parse_int strip_text
parse_entry entry =
    let (tag_id, word_order) = partition b':' entry in
    with_order word_order (parse_int (codes (strip_text tag_id)))

abbrev pub add_entry : Option (ℤ × String) → Dict ℤ String → Dict ℤ String
add_entry none overrides = overrides
add_entry (some (tag_id, word_order)) overrides = insert tag_id word_order overrides

-- The loop over the entries.
abbrev pub add_entries : List (Option (ℤ × String)) → Dict ℤ String → Dict ℤ String
add_entries [] overrides = overrides
add_entries (e ∷ es) overrides = add_entries es (add_entry e overrides)

abbrev pub is_set : ℤ × String → Bool
is_set (tag_id, word_order) = not (word_order == "")

unfoldable pub parse_word_order_overrides : String → Dict ℤ String
unfolding parse_entry pieces
parse_word_order_overrides raw =
    filter is_set (add_entries (map parse_entry (split_on b',' raw)) [])
