-- ===== src/Overrides/Lookup.antt =====
-- The override of a tag, beside the entries of the text.
use bbjsensescada.Common.{
  ◌≡◌, refl, ap, ◌∙◌, List, [], ◌∷◌, map, String, Option, none, some, filter, if◌then◌else◌, ◌==◌,
  ==_iff, ==_comm, string_eq, Bool-cases, inl, inr,
}
use bbjsensescada.Common.Int.{ℤ, int_eq}
use bbjsensescada.Common.Dict.{Dict, lookup, insert, lookup-insert}
use bbjsensescada.Overrides.{
  add_entry, add_entries, is_set, parse_entry, split_on, parse_word_order_overrides,
}

abbrev or_earlier : Option String → Option String → Option String
or_earlier none earlier = earlier
or_earlier (some s) earlier = some s

abbrev order_in : ℤ → Option (ℤ × String) → Option String
order_in k none = none
order_in k (some (tag_id, word_order)) = if k == tag_id then some word_order else none

-- The word order of the last entry for the tag k.
abbrev pub last_order : ℤ → List (Option (ℤ × String)) → Option String
last_order k [] = none
last_order k (e ∷ es) = or_earlier (last_order k es) (order_in k e)

abbrev pub unless_blank : Option String → Option String
unless_blank none = none
unless_blank (some s) = if s == "" then none else some s

lookup-add_entry :
    (k : ℤ) (e : Option (ℤ × String)) (d : Dict ℤ String)
    → lookup k (add_entry e d) ≡ or_earlier (order_in k e) (lookup k d)
lookup-add_entry k none d = refl
lookup-add_entry k (some (j, v)) d =
    lookup-insert k j v d ∙ elim (Bool-cases (k == j)) [ inl h ↦ rw h refl | inr h ↦ rw h refl ]

or_earlier_assoc :
    (a b c : Option String) → or_earlier a (or_earlier b c) ≡ or_earlier (or_earlier a b) c
or_earlier_assoc none b c = refl
or_earlier_assoc (some s) b c = refl

or_earlier-none : (o : Option String) → or_earlier o none ≡ o
or_earlier-none none = refl
or_earlier-none (some s) = refl

lookup-add_entries :
    (k : ℤ) (es : List (Option (ℤ × String))) (d : Dict ℤ String)
    → lookup k (add_entries es d) ≡ or_earlier (last_order k es) (lookup k d)
lookup-add_entries k [] d = refl
lookup-add_entries k (e ∷ es) d =
    lookup-add_entries k es (add_entry e d)
    ∙ ap (or_earlier (last_order k es)) (lookup-add_entry k e d)
    ∙ or_earlier_assoc (last_order k es) (order_in k e) (lookup k d)

-- No key stands twice.
abbrev Distinct : Dict ℤ String → Type 0
Distinct [] = Unit {0}
Distinct ((j, v) ∷ d) = (lookup j d ≡ none) × Distinct d

insert-Distinct : (k : ℤ) (v : String) (d : Dict ℤ String) → Distinct d → Distinct (insert k v d)
unfolding insert lookup
insert-Distinct k v [] h = (refl, tt)
insert-Distinct k v ((j, w) ∷ d) (new, h) = elim (Bool-cases (k == j)) [
  | inl same ↦ rw same (ap (λ i. lookup i d) ((==_iff k j).0 same) ∙ new, h)
  | inr other ↦
      rw other (lookup-insert j k v d ∙ rw (==_comm j k ∙ other) new, insert-Distinct k v d h)
]

add_entries-Distinct :
    (es : List (Option (ℤ × String))) (d : Dict ℤ String) → Distinct d → Distinct (add_entries es d)
add_entries-Distinct [] d h = h
add_entries-Distinct (none ∷ es) d h = add_entries-Distinct es d h
add_entries-Distinct (some (j, v) ∷ es) d h =
    add_entries-Distinct es (insert j v d) (insert-Distinct j v d h)

-- An entry that is dropped because it is blank uncovers none with its key.
lookup-filter :
    (k : ℤ) (d : Dict ℤ String)
    → Distinct d
    → lookup k (filter is_set d) ≡ unless_blank (lookup k d)
unfolding lookup
lookup-filter k [] h = refl
lookup-filter k ((j, v) ∷ d) (new, h) =
    let rest = lookup-filter k d h in
    elim (Bool-cases (v == "")) [
      | inl blank ↦ elim (Bool-cases (k == j)) [
        | inl same ↦
            let absent = ap (λ i. lookup i d) ((==_iff k j).0 same) ∙ new in
            rw (same, blank, rest, absent) refl
        | inr other ↦ rw (blank, other) rest
      ]
      | inr set ↦ elim (Bool-cases (k == j)) [
        | inl same ↦ rw (same, set, same) refl
        | inr other ↦ rw (set, other) rest
      ]
    ]

-- Whatever the text is, the override of a tag is the word order of the last entry with its id, and
-- there is none if that word order is blank or no entry has the id; entries whose id is no integer
-- count for nothing.
pub lookup-parse_word_order_overrides :
    (k : ℤ) (raw : String)
    → lookup k (parse_word_order_overrides raw)
      ≡ unless_blank (last_order k (map parse_entry (split_on b',' raw)))
unfolding parse_word_order_overrides lookup
lookup-parse_word_order_overrides k raw =
    let es = map parse_entry (split_on b',' raw) in
    lookup-filter k (add_entries es []) (add_entries-Distinct es [] tt)
    ∙ ap unless_blank (lookup-add_entries k es [])
    ∙ ap unless_blank (or_earlier-none (last_order k es))
