-- ===== src/Scripts/Agreement.antt =====
-- The decoder of the scripts beside the poller's.
use bbjsensescada.Common.{ℕ, ◌≡◌, refl, ◌<◌, ◌&&◌, ltb, true, [], ◌∷◌, ◌^◌, arith, string_eq}
use bbjsensescada.Python.Text.{strip, to_lower}
use bbjsensescada.Python.Value.{str, Repr, to_str, truthy}
use bbjsensescada.Codec.{
  decode_registers, prepare_registers, is_byte_swapped, is_word_swapped, registers_to_bytes,
  interpret, data_type_of,
}
use bbjsensescada.Scripts.Decode.{decode_float32_word_swapped, float_of_words}

fit : (a b : ℕ) → a < 2 ^ 16 → b < 2 ^ 16 → (ltb a (2 ^ 16) && ltb b (2 ^ 16)) ≡ true
fit a b h k = ground arith

-- On two registers of 16 bits the scripts decode to what the poller decodes as float32, bytes in
-- order, words swapped.
pub decode_float32_word_swapped-agrees :
    (R : Repr) (low high : ℕ)
    → low < 2 ^ 16
    → high < 2 ^ 16
    → decode_float32_word_swapped (low ∷ high ∷ [])
      ≡ decode_registers R (low ∷ high ∷ []) (str "float32") (str "big") (str "swapped")
unfolding decode_float32_word_swapped float_of_words decode_registers prepare_registers
    is_byte_swapped is_word_swapped registers_to_bytes interpret to_str data_type_of strip to_lower
    truthy string_eq
decode_float32_word_swapped-agrees R low high h k = rw (fit high low k h) refl
