-- ===== src/Examples/Decoding.antt =====
-- The codec, the diagnostic tool and the settings.
use bbjsensescada.Common.Dict.{insert}
use bbjsensescada.Common.{string_eq}
use bbjsensescada.Python.Value.{truthy}
use bbjsensescada.Python.Text.{to_lower}
use bbjsensescada.Python.Text.{is_space}
use bbjsensescada.Python.Text.{strip}
use bbjsensescada.Common.{◌≡◌, refl, ◌↔◌, [], ◌∷◌, some, true, ◌≤◌, arith}
use bbjsensescada.Common.Dict.{lookup}
use bbjsensescada.Common.Int.{pos, int_eq}
use bbjsensescada.Python.{ok}
use bbjsensescada.Python.Float.{Float}
use bbjsensescada.Python.Value.{str, to_str}
use bbjsensescada.Codec.{
  DataType, float32, int16, registers_of, interpret, type_named, data_type_of, decode_registers,
  prepare_registers, is_byte_swapped, is_word_swapped, registers_to_bytes,
}
use bbjsensescada.Codec.RoundTrip.{device_registers, decode_registers-device_registers}
use bbjsensescada.Codec.Failures.{decode_registers_iff}
use bbjsensescada.Diagnose
use bbjsensescada.Diagnose.Agreement.{decode_registers-agrees}
use bbjsensescada.Overrides.{parse_word_order_overrides}
use bbjsensescada.Examples.Inputs.{repr, fifty}

float_named : type_named repr (str "float32") ≡ some float32
unfolding to_str data_type_of strip is_space to_lower
float_named = refl

int_named : type_named repr (str "int16") ≡ some int16
unfolding to_str data_type_of strip is_space to_lower
int_named = refl

-- The registers of tests/test_decode.py: pi, low word first.
decode_pi :
    decode_registers repr (0x0fdb ∷ 0x4049 ∷ []) (str "float32") (str "big") (str "swapped")
    ≡ ok (record { bits = 0x400921fb60000000 })
unfolding decode_registers prepare_registers is_byte_swapped is_word_swapped registers_to_bytes
    interpret to_str data_type_of strip to_lower truthy string_eq
decode_pi = refl

decode_registers-device_registers_example :
    decode_registers repr
      (device_registers repr 2 0x40490fdb (str "big") (str "swapped"))
      (str "float32")
      (str "big")
      (str "swapped")
    ≡ interpret float32 0x40490fdb
decode_registers-device_registers_example =
    decode_registers-device_registers repr float32 0x40490fdb (str "float32") (str "big")
      (str "swapped") float_named (omega arith)

decode_registers_iff_example :
    ((x : Float) × (decode_registers repr (1 ∷ 2 ∷ []) (str "float32") (str "big") (str "big")
        ≡ ok x))
    ↔ ((t : DataType) × (type_named repr (str "float32") ≡ some t) × (registers_of t ≤ 2))
decode_registers_iff_example =
    decode_registers_iff repr (1 ∷ 2 ∷ []) (str "float32") (str "big") (str "big")

-- The spelling that the comment above SWAPPED_WORD_ORDERS gives.
swap_little_word : is_word_swapped repr (str "Swap / Little Word") ≡ true
unfolding is_word_swapped truthy string_eq to_lower
swap_little_word = refl

decode_registers-agrees_example :
    (Diagnose.decode_registers repr (1 ∷ []) (str "int16") (str "big") (str "big") ≡ ok fifty)
    ↔ (decode_registers repr (1 ∷ []) (str "int16") (str "big") (str "big") ≡ ok fifty)
decode_registers-agrees_example =
    decode_registers-agrees repr (1 ∷ []) (str "int16") (str "big") (str "big") fifty

-- The text "23:swapped,x:big,23: little " and two more: the last entry of tag 23 counts.
override_read :
    lookup (pos 23) (parse_word_order_overrides "23:swapped,x:big,23: little ,24:") ≡ some "little"
unfolding lookup parse_word_order_overrides insert int_eq string_eq
override_read = refl
