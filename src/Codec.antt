-- ===== src/Codec.antt =====
-- dynamic_modbus_poller.py, `normalize_parity` to `decode_registers`: from the registers that a
-- device sends to a float. A register is a natural number; `r >> 8`, `r & 0xFF` and `|` of
-- disjoint fields are written as `/`, `%` and `+`.
pub mod WordOrder
pub mod Bytes
pub mod RoundTrip
pub mod Failures
use mathlib.Core.List.{reverse, foldl}
use bbjsensescada.Common.{
  ℕ, ◌+◌, ◌-◌, ◌*◌, ◌/◌, ◌%◌, ◌^◌, Bool, List, [], ◌∷◌, ◌++◌, map, String, ◌<>◌, Option, none, some,
  ltb, eqb, length, take, if◌then◌else◌,
}
use bbjsensescada.Common.Int.{ℤ, pos, negsuc, eqb_ℤ}
use bbjsensescada.Python.{Error, Result, ok, err, value_error, type_error, struct_error, ◌>>=◌}
use bbjsensescada.Python.Text.{codes, lower, upper, replace, strip, split, join_words, is_one_of}
use bbjsensescada.Python.Float.{Float, Arithmetic, of_ℤ, of_bits32, of_bits64, truncate}
use bbjsensescada.Python.Value.{Value, str, Repr, or_default, to_float, to_str}

unfoldable pub parity_of : List ℕ → String
parity_of s =
    if is_one_of s ("NONE" ∷ "N" ∷ [])
    then "N"
    else if is_one_of s ("EVEN" ∷ "E" ∷ [])
    then "E"
    else if is_one_of s ("ODD" ∷ "O" ∷ [])
    then "O"
    else "N"

unfoldable pub normalize_parity : Repr → Value → String
unfolding parity_of is_one_of strip to_str
normalize_parity R parity =
    parity_of (upper (strip (codes (to_str R (or_default (str "N") parity)))))

-- The `except (TypeError, ValueError)`; an OverflowError passes.
unfoldable pub stop_bits_of : Result ℤ → Result ℕ
stop_bits_of (ok value) = ok (if eqb_ℤ value (pos 2) then 2 else 1)
stop_bits_of (err (type_error s)) = ok 1
stop_bits_of (err (value_error s)) = ok 1
stop_bits_of (err e) = err e

unfoldable pub normalize_stop_bits : Arithmetic → Value → Result ℕ
unfolding stop_bits_of to_float truncate
normalize_stop_bits A stop_bits = stop_bits_of (do x ← to_float A stop_bits; truncate x)

abbrev swap_bytes : ℕ → ℕ
swap_bytes register =
    let high_byte = register / 256 % 256 in
    let low_byte = register % 256 in low_byte * 256 + high_byte

abbrev pub swap_bytes_in_words : List ℕ → List ℕ
swap_bytes_in_words = map swap_bytes

abbrev pub swapped_word_orders : List String
swapped_word_orders =
    "swapped" ∷ "swap" ∷ "little" ∷ "reverse" ∷ "cdab" ∷ "little word" ∷ "swap little word"
    ∷ "word swap" ∷ "word swapped" ∷ []

-- The chain of `lower`, `replace`, `split` and `join`.
unfoldable pub normalized_order : List ℕ → List ℕ
unfolding split join_words
normalized_order s =
    join_words (split (replace b'/' b' ' (replace b'-' b' ' (replace b'_' b' ' (lower s)))))

unfoldable pub is_word_swapped : Repr → Value → Bool
unfolding normalized_order is_one_of to_str
is_word_swapped R word_order =
    is_one_of (normalized_order (codes (to_str R (or_default (str "") word_order))))
      swapped_word_orders

unfoldable pub is_byte_swapped : Repr → Value → Bool
unfolding is_one_of to_str
is_byte_swapped R byte_order =
    is_one_of (lower (codes (to_str R byte_order))) ("little" ∷ "swapped" ∷ [])

abbrev pub prepare_in : Bool → Bool → List ℕ → List ℕ
prepare_in bytes_swapped words_swapped registers =
    let prepared = if words_swapped then reverse registers else registers in
    if bytes_swapped then swap_bytes_in_words prepared else prepared

unfoldable pub prepare_registers : Repr → List ℕ → Value → Value → List ℕ
prepare_registers R registers byte_order word_order =
    prepare_in (is_byte_swapped R byte_order) (is_word_swapped R word_order) registers

-- `struct.pack(">H", register & 0xFFFF)` for each register.
unfoldable pub registers_to_bytes : List ℕ → List ℕ
registers_to_bytes [] = []
registers_to_bytes (r ∷ rs) = (r % 65536 / 256) ∷ (r % 256) ∷ registers_to_bytes rs

unfoldable pub big_endian : List ℕ → ℕ
big_endian = foldl (λ acc b. acc * 256 + b) 0

-- `struct.unpack(">…", raw[:n])` as a bit pattern.
unfoldable pub unpack : ℕ → List ℕ → Result ℕ
unfolding big_endian
unpack n raw =
    if eqb (length (take n raw)) n
    then ok (big_endian (take n raw))
    else err (struct_error "unpack requires a longer buffer")

pub data DataType : Type 0 where
  float32 float64 int16 uint16 int32 uint32 : DataType

-- The sets of names that `decode_registers` tests in turn.
unfoldable pub data_type_of : List ℕ → Option DataType
unfolding is_one_of
data_type_of t =
    if is_one_of t ("float" ∷ "float32" ∷ "real" ∷ [])
    then some float32
    else if is_one_of t ("double" ∷ "float64" ∷ [])
    then some float64
    else if is_one_of t ("int16" ∷ "short" ∷ [])
    then some int16
    else if is_one_of t ("uint16" ∷ "unsigned16" ∷ "word" ∷ [])
    then some uint16
    else if is_one_of t ("int32" ∷ "long" ∷ [])
    then some int32
    else if is_one_of t ("uint32" ∷ "unsigned32" ∷ "dword" ∷ [])
    then some uint32
    else none

-- Registers of 16 bits that a type takes.
abbrev pub registers_of : DataType → ℕ
registers_of float32 = 2
registers_of float64 = 4
registers_of int16 = 1
registers_of uint16 = 1
registers_of int32 = 2
registers_of uint32 = 2

abbrev pub too_short : DataType → String
too_short float32 = "float32 requires two registers"
too_short float64 = "float64 requires four registers"
too_short int16 = "int16 requires one register"
too_short uint16 = "uint16 requires one register"
too_short int32 = "int32 requires two registers"
too_short uint32 = "uint32 requires two registers"

-- Two's complement at w = 2 ^ (bits - 1).
abbrev pub signed : ℕ → ℕ → ℤ
signed half w = if ltb w half then pos w else negsuc (2 * half - w - 1)

-- `float(struct.unpack(…)[0])` of a pattern.
unfoldable pub interpret : DataType → ℕ → Result Float
unfolding of_ℤ of_bits32
interpret float32 w = ok (of_bits32 w)
interpret float64 w = ok (of_bits64 w)
interpret int16 w = of_ℤ (signed (2 ^ 15) w)
interpret uint16 w = of_ℤ (pos w)
interpret int32 w = of_ℤ (signed (2 ^ 31) w)
interpret uint32 w = of_ℤ (pos w)

-- One branch of `decode_registers`: the length test, then the unpacking.
unfoldable pub decode_as : DataType → List ℕ → Result Float
decode_as t raw =
    if ltb (length raw) (2 * registers_of t)
    then err (value_error (too_short t))
    else do w ← unpack (2 * registers_of t) raw; interpret t w

unfoldable pub decode_bytes : String → Option DataType → List ℕ → Result Float
decode_bytes name none raw = err (value_error ("Unsupported data type: " <> name))
decode_bytes name (some t) raw = decode_as t raw

abbrev pub type_named : Repr → Value → Option DataType
type_named R data_type = data_type_of (lower (strip (codes (to_str R data_type))))

unfoldable pub decode_registers : Repr → List ℕ → Value → Value → Value → Result Float
unfolding decode_bytes decode_as unpack
decode_registers R registers data_type byte_order word_order =
    let raw_bytes = registers_to_bytes (prepare_registers R registers byte_order word_order) in
    decode_bytes (to_str R data_type) (type_named R data_type) raw_bytes
