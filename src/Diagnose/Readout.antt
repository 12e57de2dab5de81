-- ===== src/Diagnose/Readout.antt =====
-- The value that diagnose_modbus.py prints for a tag beside the value that the poller saves.
use bbjsensescada.Common.{◌≡◌, refl, sym, ◌∙◌, List, ◌⊎◌, inl, inr, none, some, true, ℕ, String}
use bbjsensescada.Common.Int.{ℤ, pos, int_eq}
use bbjsensescada.Common.Dict.{lookup}
use bbjsensescada.Python.{ok, ◌>>=◌, bind_ok, ok-injective}
use bbjsensescada.Python.Float.{Float}
use bbjsensescada.Python.Value.{
  Value, Fields, obj, or_else, find, float, str, get, get_or, item, to_int, to_float, truthy,
}
use bbjsensescada.Codec
use bbjsensescada.Modbus.{Settings, int_or}
use bbjsensescada.Poller.{final_value_of, resolve_word_order, float_or, one, zero_float}
use bbjsensescada.Diagnose.{decode_registers}
use bbjsensescada.Diagnose.Agreement.{decode_registers-agrees}
use bbjsensescada.Diagnose.Tag.{scaled_value}

-- The field is absent, or it is set to something that counts as true.
abbrev pub IsGiven : String → Value → Type 0
IsGiven k tag =
    (get k tag ≡ ok none) ⊎ ((v : Value) × (get k tag ≡ ok (some v)) × (truthy v ≡ true))

same_float :
    (S : Settings) (k : String) (default : Float) (tag : Value)
    → IsGiven k tag
    → (get_or k (float default) tag >>= to_float S.arithmetic) ≡ float_or S k default tag
unfolding to_float truthy
same_float S k default tag (inl absent) = rw absent refl
same_float S k default tag (inr (v, there, set)) = rw (there, set) refl

-- For a tag that is a dict, with the reads of its fields done.
abbrev text_or : String → String → Fields → Value
text_or k default fs = or_else (str default) (find k fs)

scaled_fields :
    (S : Settings) (fs : Fields) (regs : List ℕ) (x : Float)
    → IsGiven "scale" (obj fs)
    → IsGiven "offset_value" (obj fs)
    → scaled_value S.repr S.arithmetic (obj fs) regs ≡ ok x
    → (value : Float) × (factor : Float) × (offset : Float) × (Codec.decode_registers S.repr regs
          (text_or "data_type" "float32" fs)
          (text_or "byte_order" "big" fs)
          (text_or "word_order" "swapped" fs)
        ≡ ok value)
      × (float_or S "scale" one (obj fs) ≡ ok factor)
      × (float_or S "offset_value" zero_float (obj fs) ≡ ok offset)
      × (S.arithmetic.add (S.arithmetic.mul value factor) offset ≡ x)
unfolding scaled_value
scaled_fields S fs regs x scale_given offset_given h =
    let (value, decoded, h1) =
      bind_ok
        (decode_registers S.repr regs (text_or "data_type" "float32" fs)
          (text_or "byte_order" "big" fs) (text_or "word_order" "swapped" fs))
        _ h in
    let (factor, scaled, h2) =
      bind_ok (to_float S.arithmetic (or_else (float one) (find "scale" fs))) _ h1 in
    let (offset, moved, h3) =
      bind_ok (to_float S.arithmetic (or_else (float zero_float) (find "offset_value" fs))) _ h2 in
    (
      value,
      factor,
      offset,
      (decode_registers-agrees S.repr regs _ _ _ value).0 decoded,
      sym (same_float S "scale" one (obj fs) scale_given) ∙ scaled,
      sym (same_float S "offset_value" zero_float (obj fs) offset_given) ∙ moved,
      ok-injective h3,
    )

rounds_fields :
    (S : Settings) (fs : Fields) (regs : List ℕ) (x : Float) (id places : ℤ)
    → IsGiven "scale" (obj fs)
    → IsGiven "offset_value" (obj fs)
    → (item "id" (obj fs) >>= to_int) ≡ ok id
    → lookup id S.word_order_overrides ≡ none
    → int_or "decimal_places" (pos 0) (obj fs) ≡ ok places
    → scaled_value S.repr S.arithmetic (obj fs) regs ≡ ok x
    → final_value_of S (obj fs) regs ≡ S.arithmetic.round x places
unfolding final_value_of resolve_word_order
rounds_fields S fs regs x id places scale_given offset_given numbered free decimals h =
    let (value, factor, offset, e1, e2, e3, e4) =
      scaled_fields S fs regs x scale_given offset_given h in
    rw (numbered, free, e1, e2, e3, decimals, e4) refl

-- The tool's value is the poller's before it is rounded: if the two factors are absent or set to
-- something true, no word order is set for the tag on this machine, and the tag's id and decimal
-- places are numbers, then whenever the tool computes x from the registers the poller's value is x
-- rounded.
pub scaled_value-rounds :
    (S : Settings) (tag : Value) (regs : List ℕ) (x : Float) (id places : ℤ)
    → IsGiven "scale" tag
    → IsGiven "offset_value" tag
    → (item "id" tag >>= to_int) ≡ ok id
    → lookup id S.word_order_overrides ≡ none
    → int_or "decimal_places" (pos 0) tag ≡ ok places
    → scaled_value S.repr S.arithmetic tag regs ≡ ok x
    → final_value_of S tag regs ≡ S.arithmetic.round x places
scaled_value-rounds S (obj fs) regs x id places scale_given offset_given numbered free decimals h =
    rounds_fields S fs regs x id places scale_given offset_given numbered free decimals h
scaled_value-rounds S _ regs x id places scale_given offset_given numbered free decimals h = cc
