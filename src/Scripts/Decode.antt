-- ===== src/Scripts/Decode.antt =====
-- test_voltage.py, test_current_scan.py: a register pair as a float32, low word first.
use bbjsensescada.Common.{ℕ, ◌&&◌, ltb, List, [], ◌∷◌, ◌^◌, if◌then◌else◌}
use bbjsensescada.Python.{Result, ok, err, value_error, struct_error, index_error, ◌>>=◌}
use bbjsensescada.Python.Float.{Float, of_bits32}
use bbjsensescada.Codec.{registers_to_bytes, unpack}

abbrev of_raw : List ℕ → Result Float
of_raw raw = do word ← unpack 4 raw; ok (of_bits32 word)

-- `struct.pack(">HH", high, low)`, which refuses what 16 bits do not hold, and
-- `struct.unpack(">f", raw)[0]`.
unfoldable pub float_of_words : ℕ → ℕ → Result Float
unfolding registers_to_bytes unpack
float_of_words high low =
    if ltb high (2 ^ 16) && ltb low (2 ^ 16)
    then of_raw (registers_to_bytes (high ∷ low ∷ []))
    else err (struct_error "'H' format requires 0 <= number <= 65535")

unfoldable pub decode_float32_word_swapped : List ℕ → Result Float
unfolding float_of_words
decode_float32_word_swapped (low ∷ high ∷ []) = float_of_words high low
decode_float32_word_swapped _ = err (value_error "Two registers are required")

-- `raw[1]` and `raw[0]` of the sweeps, which do not count the registers.
unfoldable pub decode_raw : List ℕ → Result Float
unfolding float_of_words
decode_raw (low ∷ high ∷ rest) = float_of_words high low
decode_raw _ = err (index_error "list index out of range")
